-- ===== src/Console/Pages/ConfigViewLaws.antt =====
-- The groups of the settings.
use mathlib.Core.List.Perm
use mathlib.Core.List.{Perm, perm_middle, append-nil, append_assoc}
use mathlib.Core.Option.{get_or}
use apk_cache.Prelude.{
  String, ◌≡◌, ◌≢◌, refl, sym, ap, inl, inr, List, [], ◌∷◌, ◌++◌, All, str_eq, eq_iff,
  if◌then◌else◌, Bool-cases, arith,
}
use apk_cache.Console.Pages.Config.{
  Setting, SettingSchema, Dict, lookup, put, ConfigPage, schema_map,
}
use apk_cache.Console.Pages.ConfigView.{group_of, extend, add_to_groups, groups}

-- All the settings of the groups.
abbrev pub members : Dict (List Setting) → List Setting
members [] = []
members ((group, items) ∷ rest) = items ++ members rest

-- A group has only settings whose group it is.
abbrev pub Fits : Dict SettingSchema → Dict (List Setting) → Type 0
Fits schemas [] = Unit
Fits schemas ((group, items) ∷ rest) =
    All (λ s. group_of schemas s ≡ group) items × Fits schemas rest

All-append : (P : Setting → Type 0) (xs ys : List Setting) → All P xs → All P ys → All P (xs ++ ys)
All-append P [] ys hx hy = hy
All-append P (x ∷ xs) ys hx hy = (hx.0, All-append P xs ys hx.1 hy)

extend_lem :
    (group : String) (setting : Setting) (g : String) (items : List Setting)
    (rest : Dict (List Setting))
    → extend group setting ((g, items) ∷ rest) ≡ (
        if str_eq g group
        then (g, items ++ (setting ∷ [])) ∷ rest
        else (g, items) ∷ extend group setting rest)
unfolding extend put lookup
extend_lem group setting g items rest = elim (Bool-cases (str_eq g group)) [
  | inl e ↦ rw (e, lookup) refl
  | inr e ↦
      let skip : lookup group ((g, items) ∷ rest) ≡ lookup group rest = rw (e, lookup) refl in
      rw e (ap (λ o. (g, items) ∷ put group (get_or o [] ++ (setting ∷ [])) rest) skip)
]

extend-Fits :
    (schemas : Dict SettingSchema) (setting : Setting) (out : Dict (List Setting))
    → Fits schemas out
    → Fits schemas (extend (group_of schemas setting) setting out)
unfolding extend put lookup
extend-Fits schemas setting [] h = ((refl, tt), tt)
extend-Fits schemas setting ((g, items) ∷ rest) h =
    elim (Bool-cases (str_eq g (group_of schemas setting))) [
      | inl e ↦
          let same : group_of schemas setting ≡ g =
            sym ((eq_iff g (group_of schemas setting)).0 e) in
          rw (extend_lem (group_of schemas setting) setting g items rest, e)
            (All-append (λ s. group_of schemas s ≡ g) items (setting ∷ []) h.0 (same, tt), h.1)
      | inr e ↦
          rw (extend_lem (group_of schemas setting) setting g items rest, e)
            (h.0, extend-Fits schemas setting rest h.1)
    ]

extend-Perm :
    (group : String) (setting : Setting) (out : Dict (List Setting))
    → Perm (members (extend group setting out)) (setting ∷ members out)
unfolding extend put lookup
extend-Perm group setting [] = Perm.refl (setting ∷ [])
extend-Perm group setting ((g, items) ∷ rest) = elim (Bool-cases (str_eq g group)) [
  | inl e ↦
      rw
        (extend_lem group setting g items rest, e, append_assoc items (setting ∷ []) (members rest))
        (perm_middle items (members rest))
  | inr e ↦
      rw (extend_lem group setting g items rest, e)
        (Perm.trans (Perm.append_left items (extend-Perm group setting rest))
          (perm_middle items (members rest)))
]

add_to_groups-Perm :
    (schemas : Dict SettingSchema) (settings : List Setting) (out : Dict (List Setting))
    → Perm (members (add_to_groups schemas settings out)) (settings ++ members out)
unfolding add_to_groups
add_to_groups-Perm schemas [] out = Perm.refl (members out)
add_to_groups-Perm schemas (setting ∷ rest) out =
    Perm.trans (add_to_groups-Perm schemas rest (extend (group_of schemas setting) setting out)) (
      Perm.trans (Perm.append_left rest (extend-Perm (group_of schemas setting) setting out))
        (perm_middle rest (members out)))

add_to_groups-Fits :
    (schemas : Dict SettingSchema) (settings : List Setting) (out : Dict (List Setting))
    → Fits schemas out
    → Fits schemas (add_to_groups schemas settings out)
unfolding add_to_groups
add_to_groups-Fits schemas [] out h = h
add_to_groups-Fits schemas (setting ∷ rest) out h =
    add_to_groups-Fits schemas rest (extend (group_of schemas setting) setting out)
      (extend-Fits schemas setting out h)

-- No two entries are of one group.
abbrev pub Once : Dict (List Setting) → Type 0
Once [] = Unit
Once ((group, items) ∷ rest) = All (λ e. e.0 ≢ group) rest × Once rest

extend-Differ :
    (group : String) (setting : Setting) (g : String) (out : Dict (List Setting))
    → group ≢ g
    → All (λ e. e.0 ≢ g) out
    → All (λ e. e.0 ≢ g) (extend group setting out)
unfolding extend put lookup
extend-Differ group setting g [] differ h = (differ, tt)
extend-Differ group setting g ((k, items) ∷ rest) differ h = elim (Bool-cases (str_eq k group)) [
  | inl e ↦ rw (extend_lem group setting k items rest, e) h
  | inr e ↦
      rw (extend_lem group setting k items rest, e)
        (h.0, extend-Differ group setting g rest differ h.1)
]

extend-Once :
    (group : String) (setting : Setting) (out : Dict (List Setting))
    → Once out
    → Once (extend group setting out)
unfolding extend put lookup
extend-Once group setting [] h = (tt, tt)
extend-Once group setting ((g, items) ∷ rest) h = elim (Bool-cases (str_eq g group)) [
  | inl e ↦ rw (extend_lem group setting g items rest, e) h
  | inr e ↦
      let differ : group ≢ g = λ same. absurd (ground (arith, (eq_iff g group).1 (sym same), e)) in
      rw (extend_lem group setting g items rest, e)
        (extend-Differ group setting g rest differ h.0, extend-Once group setting rest h.1)
]

add_to_groups-Once :
    (schemas : Dict SettingSchema) (settings : List Setting) (out : Dict (List Setting))
    → Once out
    → Once (add_to_groups schemas settings out)
unfolding add_to_groups
add_to_groups-Once schemas [] out h = h
add_to_groups-Once schemas (setting ∷ rest) out h =
    add_to_groups-Once schemas rest (extend (group_of schemas setting) setting out)
      (extend-Once (group_of schemas setting) setting out h)

-- The groups of the configuration page hold every setting that the server sent, as often as it sent
-- it, in the entry of its own group, and one entry at most for a group.
pub groups_lem :
    (s : ConfigPage)
    → Perm (members (groups s)) s.settings
      × Fits (schema_map s.schema []) (groups s)
      × Once (groups s)
unfolding groups
groups_lem s =
    let all = add_to_groups-Perm (schema_map s.schema []) s.settings [] in
    (
      rw (append-nil s.settings) at all,
      add_to_groups-Fits (schema_map s.schema []) s.settings [] tt,
      add_to_groups-Once (schema_map s.schema []) s.settings [] tt,
    )
