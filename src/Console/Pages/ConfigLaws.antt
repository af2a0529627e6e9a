-- ===== src/Console/Pages/ConfigLaws.antt =====
-- What the configuration page saves.
use apk_cache.Prelude.{
  ◌≡◌, ◌≢◌, ◌⊎◌, refl, ◌∙◌, inl, inr, String, true, false, not, Option, none, some, List, [], ◌∷◌,
  str_eq, eq_iff, if◌then◌else◌, Bool-cases, arith, All, ◌&&◌,
}
use apk_cache.Console.Json.{Json, Request, Method, null, word}
use apk_cache.Console.Script.{Input, resolved, rejected, reply, answer, run}
use apk_cache.Console.Pages.Config.{
  Setting, SettingSchema, Dict, lookup, put, ConfigPage, Payload, may_edit, is_changed, changes,
  changed_settings, schema_map, validate_request, put_request, save_changes, save, load,
  config_request,
}

module _ {V : Type 0} where
  pub lookup-put :
      (k j : String) (v : V) (d : Dict V)
      → lookup j (put k v d) ≡ (if str_eq k j then some v else lookup j d)
  unfolding lookup put
  lookup-put k j v [] = refl
  lookup-put k j v ((i, w) ∷ d) =
      ground (arith, eq_iff k j, eq_iff i k, eq_iff i j, lookup-put k j v d)

-- The setting of a key.
unfoldable pub find_setting : String → List Setting → Option Setting
find_setting key [] = none
find_setting key (s ∷ rest) = if str_eq s.key key then some s else find_setting key rest

-- The server's settings have one entry for a key.
abbrev pub DistinctKeys : List Setting → Type 0
DistinctKeys [] = Unit
DistinctKeys (s ∷ rest) = (find_setting s.key rest ≡ none) × DistinctKeys rest

module _ (stringify : Option Json → String) (schemas : Dict SettingSchema) (draft : Dict Json) where
  -- What is sent for the setting of a key, over what was sent before.
  unfoldable pub sent_value : Option Setting → Option (Option Json) → Option (Option Json)
  sent_value none before = before
  sent_value (some s) before =
      if is_changed stringify schemas draft s then some (lookup s.key draft) else before

  lookup-changes :
      (key : String) (settings : List Setting) (d : Dict (Option Json))
      → DistinctKeys settings
      → lookup key (changes stringify schemas draft settings d)
        ≡ sent_value (find_setting key settings) (lookup key d)
  unfolding changes find_setting sent_value
  lookup-changes key [] d h = refl
  lookup-changes key (s ∷ rest) d h = elim (Bool-cases (is_changed stringify schemas draft s)) [
    | inl changed ↦ rw changed (
        ground (
          arith,
          changed,
          lookup-changes key rest (put s.key (lookup s.key draft) d) h.1,
          lookup-put s.key key (lookup s.key draft) d,
          eq_iff s.key key,
          h.0,
        ))
    | inr same ↦
        rw same (ground (arith, same, lookup-changes key rest d h.1, eq_iff s.key key, h.0))
  ]

-- The value that a key should be sent with: the draft's, for a setting that may be edited and whose
-- text in the draft differs from the text of its value.
unfoldable pub expected :
    (Option Json → String) → ConfigPage → String → Option Setting → Option (Option Json)
expected stringify s key none = none
expected stringify s key (some setting) =
    if may_edit (schema_map s.schema []) setting.key
      && not (str_eq (stringify (lookup setting.key s.draft)) (stringify (some setting.value)))
    then some (lookup key s.draft)
    else none

pub key-find_setting :
    (key : String) (settings : List Setting) (setting : Setting)
    → find_setting key settings ≡ some setting
    → setting.key ≡ key
unfolding find_setting
key-find_setting key [] setting h = cc
key-find_setting key (s ∷ rest) setting h =
    ground (arith, eq_iff s.key key, key-find_setting key rest setting)

-- What `changedSettings` gives for a key, if the settings have one entry for each key: the draft's
-- value exactly for a setting that may be edited and differs from its stored value, and nothing for
-- any other key.
pub lookup-changed_settings :
    (stringify : Option Json → String) (s : ConfigPage) (key : String)
    → DistinctKeys s.settings
    → lookup key (changed_settings stringify s)
      ≡ expected stringify s key (find_setting key s.settings)
unfolding changed_settings expected sent_value is_changed
lookup-changed_settings stringify s key h =
    lookup-changes stringify (schema_map s.schema []) s.draft key s.settings [] h
    ∙ go (find_setting key s.settings) (key-find_setting key s.settings)
  where
    go :
        (o : Option Setting)
        → ((setting : Setting) → o ≡ some setting → setting.key ≡ key)
        → sent_value stringify (schema_map s.schema []) s.draft o (lookup {V = Option Json} key [])
          ≡ expected stringify s key o
    go none k = unfold lookup in refl
    go (some setting) k = unfold lookup in ground (arith, k setting refl)

-- The inputs begin with a settled validation and a yes to the question.
abbrev pub IsConfirmed : List (Input Payload) → Type 0
IsConfirmed (reply (resolved p) ∷ answer true ∷ rest) = Unit
IsConfirmed _ = ⊥

-- A request that `save` may send: the validation or the change of these settings, or the load after it.
abbrev pub IsSaving : Dict (Option Json) → List (Input Payload) → Request → Type 0
IsSaving changed inputs r =
    (r ≡ validate_request changed)
    ⊎ ((r ≡ put_request changed) × IsConfirmed inputs)
    ⊎ (((r ≡ config_request Method.get (word "config" ∷ []) null)
          ⊎ (r ≡ config_request Method.get (word "config" ∷ word "schema" ∷ []) null))
        × IsConfirmed inputs)

save_changes-IsSaving :
    (changed : Dict (Option Json)) (inputs : List (Input Payload)) (st : ConfigPage)
    → All (IsSaving changed inputs) (run (save_changes changed) inputs st).sent
unfolding save_changes load
save_changes-IsSaving changed [] st = (inl refl, tt)
save_changes-IsSaving changed (answer b ∷ rest) st = (inl refl, tt)
save_changes-IsSaving changed (reply (rejected m) ∷ rest) st = (inl refl, tt)
save_changes-IsSaving changed (reply (resolved p) ∷ []) st = (inl refl, tt)
save_changes-IsSaving changed (reply (resolved p) ∷ reply a ∷ rest) st = (inl refl, tt)
save_changes-IsSaving changed (reply (resolved p) ∷ answer false ∷ rest) st = (inl refl, tt)
save_changes-IsSaving changed (reply (resolved p) ∷ answer true ∷ []) st =
    (inl refl, (inr (inl (refl, tt)), tt))
save_changes-IsSaving changed (reply (resolved p) ∷ answer true ∷ answer b ∷ rest) st =
    (inl refl, (inr (inl (refl, tt)), tt))
save_changes-IsSaving changed (reply (resolved p) ∷ answer true ∷ reply (rejected m) ∷ rest) st =
    (inl refl, (inr (inl (refl, tt)), tt))
save_changes-IsSaving changed (reply (resolved p) ∷ answer true ∷ reply (resolved q) ∷ []) st =
    (inl refl, (inr (inl (refl, tt)), (inr (inr (inl refl, tt)), (inr (inr (inr refl, tt)), tt))))
save_changes-IsSaving changed
      (reply (resolved p) ∷ answer true ∷ reply (resolved q) ∷ answer b ∷ rest) st =
    (inl refl, (inr (inl (refl, tt)), (inr (inr (inl refl, tt)), (inr (inr (inr refl, tt)), tt))))
save_changes-IsSaving changed
      (reply (resolved p) ∷ answer true ∷ reply (resolved q) ∷ reply (resolved r) ∷ rest) st =
    (inl refl, (inr (inl (refl, tt)), (inr (inr (inl refl, tt)), (inr (inr (inr refl, tt)), tt))))
save_changes-IsSaving changed
      (reply (resolved p) ∷ answer true ∷ reply (resolved q) ∷ reply (rejected m) ∷ rest) st =
    (inl refl, (inr (inl (refl, tt)), (inr (inr (inl refl, tt)), (inr (inr (inr refl, tt)), tt))))

-- Whatever the server and the user answer, `save` sends the settings of `changedSettings` and no
-- others, sends them for storing only after they were validated and the user said yes, and sends
-- nothing if nothing has changed.
pub save-IsSaving :
    (stringify : Option Json → String) (s : ConfigPage) (inputs : List (Input Payload))
    (st : ConfigPage)
    → All (IsSaving (changed_settings stringify s) inputs) (run (save stringify s) inputs st).sent
      × ((changed_settings stringify s ≢ []) ⊎ ((run (save stringify s) inputs st).sent ≡ []))
unfolding save
save-IsSaving stringify s inputs st = go (changed_settings stringify s) refl
  where
    go :
        (changed : Dict (Option Json))
        → changed_settings stringify s ≡ changed
        → All
            (IsSaving (changed_settings stringify s) inputs)
            (run (save stringify s) inputs st).sent
          × ((changed_settings stringify s ≢ []) ⊎ ((run (save stringify s) inputs st).sent ≡ []))
    go [] e = rw (e, save) (tt, inr refl)
    go (c ∷ cs) e = rw (e, save) (save_changes-IsSaving (c ∷ cs) inputs st, inl (λ p. cc))
