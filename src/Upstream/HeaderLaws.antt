-- ===== src/Upstream/HeaderLaws.antt =====
-- Which header a server is sent.
use mathlib.Core.List.{append-nil, append_assoc}
use apk_cache.Prelude.{
  ◌≡◌, refl, ap, sym, ◌∙◌, inl, inr, true, false, List, [], ◌∷◌, ◌++◌, Bytes, bytes_eq,
  bytes_eq_iff, All, if◌then◌else◌, Bool-cases,
}
use apk_cache.Upstream.Headers.{
  Header, is_hop_by_hop_header, add_value, add_values, copy_end_to_end_headers,
}

-- The values that a list of entries has for a key.
unfoldable pub values_of : Bytes → List (Bytes × List Bytes) → List Bytes
values_of key [] = []
values_of key ((k, values) ∷ src) =
    let rest = values_of key src in if bytes_eq k key then values ++ rest else rest

module _ (canonical : Bytes → Bytes) where
  add_values_lem :
      (k : Bytes) (values : List Bytes) (dst : Header) (key : Bytes)
      → canonical k ≡ k
      → add_values canonical k values dst key
        ≡ (if bytes_eq k key then dst key ++ values else dst key)
  unfolding add_values add_value
  add_values_lem k [] dst key h = elim (Bool-cases (bytes_eq k key)) [
    | inl e ↦ rw (e, append-nil (dst key)) refl
    | inr e ↦ rw e refl
  ]
  add_values_lem k (v ∷ values) dst key h =
      let added = add_value canonical k v dst in
      let rest = add_values_lem k values added key h in
      elim (Bool-cases (bytes_eq k key)) [
        | inl e ↦
            let one : added key ≡ dst key ++ (v ∷ []) = rw (h, e, add_value) refl in
            rw e
              ((rw e at rest) ∙ ap (λ d. d ++ values) one ∙ append_assoc (dst key) (v ∷ []) values)
        | inr e ↦
            let one : added key ≡ dst key = rw (h, e, add_value) refl in rw e ((rw e at rest) ∙ one)
      ]

  copied :
      (src : List (Bytes × List Bytes)) (dst : Header) (key : Bytes)
      → All (λ e. canonical e.0 ≡ e.0) src
      → copy_end_to_end_headers canonical dst src key
        ≡ (if is_hop_by_hop_header key then dst key else dst key ++ values_of key src)
  unfolding copy_end_to_end_headers values_of
  copied [] dst key h = elim (Bool-cases (is_hop_by_hop_header key)) [
    | inl e ↦ rw e refl
    | inr e ↦ rw e (sym (append-nil (dst key)))
  ]
  copied ((k, values) ∷ src) dst key (hk, h) =
      let kept = values_of key src in
      elim (Bool-cases (is_hop_by_hop_header k)) [
        | inl hop ↦
            let rest = copied src dst key h in
            elim (Bool-cases (bytes_eq k key)) [
              | inl e ↦
                  let hop_key : is_hop_by_hop_header key ≡ true =
                    ap is_hop_by_hop_header (sym ((bytes_eq_iff k key).0 e)) ∙ hop in
                  rw (hop, e, hop_key) (rw hop_key at rest)
              | inr e ↦ rw (hop, e) rest
            ]
        | inr on ↦
            let dst2 = add_values canonical k values dst in
            let rest = copied src dst2 key h in
            let one = add_values_lem k values dst key hk in
            elim (Bool-cases (bytes_eq k key)) [
              | inl e ↦
                  let on_key : is_hop_by_hop_header key ≡ false =
                    ap is_hop_by_hop_header (sym ((bytes_eq_iff k key).0 e)) ∙ on in
                  rw (on, e, on_key)
                    ((rw on_key at rest)
                      ∙ ap (λ d. d ++ kept) (rw e at one)
                      ∙ append_assoc (dst key) values kept)
              | inr e ↦ rw (on, e) (rw (rw e at one) at rest)
            ]
      ]

  -- A server is sent exactly the values that the request has for a key, in their order, and none for a
  -- key that is of one connection, if the request's keys are spelt canonically.
  pub end_to_end :
      (src : List (Bytes × List Bytes)) (key : Bytes)
      → All (λ e. canonical e.0 ≡ e.0) src
      → copy_end_to_end_headers canonical (λ k. []) src key
        ≡ (if is_hop_by_hop_header key then [] else values_of key src)
  end_to_end src key h = copied src (λ k. []) key h
