-- ===== src/Requests/MirrorLaws.antt =====
-- The mirror that a path belongs to.
use mathlib.Core.Path.{subst}
use apk_cache.HashStore.Parts.{append_assoc}
use apk_cache.Prelude.{
  ℕ, ◌≡◌, ◌⊎◌, refl, ap, ◌∙◌, inl, inr, true, none, some, List, [], ◌∷◌, ◌++◌, Bytes, codes,
  bytes_eq, bytes_eq_iff, Bool-cases, arith,
}
use apk_cache.Requests.Route.{
  Mirror, handle_apt_mirror, match_apt_mirror, first_match, matches_prefix, starts_with,
  trim_slashes, root_if_empty,
}

-- The path is the prefix, or goes on with a slash after it.
abbrev pub IsUnder : Bytes → Bytes → Type 0
IsUnder path prefix = (path ≡ prefix) ⊎ ((rest : Bytes) × (path ≡ prefix ++ (b'/' ∷ rest)))

starts_with→ : (p text : Bytes) → starts_with p text ≡ true → (rest : Bytes) × (text ≡ p ++ rest)
unfolding starts_with
starts_with→ [] text h = (text, refl)
starts_with→ (b ∷ p) [] h = absurd (cc)
starts_with→ (b ∷ p) (c ∷ text) h =
    let (rest, e) = starts_with→ p text (ground (arith, h)) in
    let same : c ≡ b = ground (arith, h) in (rest, ap (λ (x : ℕ). x ∷ text) same ∙ ap (◌∷◌ b) e)

matches_prefix-IsUnder :
    (path prefix : Bytes) → matches_prefix path prefix ≡ true → IsUnder path prefix
unfolding matches_prefix
matches_prefix-IsUnder path prefix h = elim (Bool-cases (bytes_eq path prefix)) [
  | inl e ↦ inl ((bytes_eq_iff path prefix).0 e)
  | inr e ↦
      let (rest, q) = starts_with→ (prefix ++ codes "/") path (ground (arith, h, e)) in
      inr (rest, q ∙ append_assoc prefix (codes "/") rest)
]

module _ {A : Type 0} where
  pub mirror_eq : {a b : Mirror A} → handle_apt_mirror a ≡ handle_apt_mirror b → a ≡ b
  mirror_eq h = cc

  first_match-IsUnder :
      (path : Bytes) (mirrors : List (Mirror A)) (m : Mirror A)
      → first_match path mirrors ≡ some m
      → IsUnder path (root_if_empty (trim_slashes m.public_prefix))
  unfolding first_match
  first_match-IsUnder path [] m h = absurd (cc)
  first_match-IsUnder path (q ∷ mirrors) m h =
      elim (Bool-cases (matches_prefix path (root_if_empty (trim_slashes q.public_prefix)))) [
        | inr e ↦ first_match-IsUnder path mirrors m (rw (e, first_match) at h)
        | inl e ↦
            let same : some q ≡ some m = rw (e, first_match) at h in
            let mirrors : q ≡ m = cc in
            subst (λ (x : Mirror A). IsUnder path (root_if_empty (trim_slashes x.public_prefix)))
              mirrors (matches_prefix-IsUnder path _ e)
      ]

  pub match_apt_mirror-IsUnder :
      (mirrors : List (Mirror A)) (path : Bytes) (m : Mirror A)
      → match_apt_mirror mirrors path ≡ some m
      → IsUnder path (root_if_empty (trim_slashes m.public_prefix))
  unfolding match_apt_mirror
  match_apt_mirror-IsUnder mirrors path m h = elim (Bool-cases (bytes_eq path [])) [
    | inl e ↦ absurd (let no : none ≡ some m = rw (e, match_apt_mirror) at h in cc)
    | inr e ↦ first_match-IsUnder path mirrors m (rw (e, match_apt_mirror) at h)
  ]
