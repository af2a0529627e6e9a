-- ===== src/HashStore/Mappings.antt =====
-- The keys that the decoder of a source mapping's key accepts are the keys of source mappings.
use apk_cache.Prelude.{
  ℕ, ◌≡◌, refl, sym, ap, ◌∙◌, inl, inr, false, not, ◌||◌, Option, none, some, [], ◌∷◌, ◌++◌, Bytes,
  length, take, drop, get_elem?, ◌==◌, Bool-cases, length-append, length-take, length-drop,
  take-append-drop, arith,
}
use apk_cache.HashStore.Kinds.{HashKind, digest_len, ok, err, Result, corrupted_value}
use apk_cache.HashStore.Keys.{
  version, ns_source_mapping, source_mapping_key, byte_is, decoded_key, decode_source_mapping_key,
}
use apk_cache.HashStore.KeyLaws.{IsKind}
use apk_cache.HashStore.Parts.{append_assoc, last_elem}

one_left : (xs : Bytes) → length xs ≡ 1 → (x : ℕ) × (xs ≡ x ∷ [])
one_left [] h = absurd (omega (arith, h))
one_left (x ∷ []) h = (x, refl)
one_left (x ∷ y ∷ xs) h = absurd (omega (arith, h))

-- What a key of a source mapping is made of.
pub record IsMapping (key target_id : Bytes) (kind : HashKind) : Type 0 where
  pub source_id : Bytes
  pub source_length : length source_id ≡ 16
  pub target_length : length target_id ≡ 16
  pub is_kind : IsKind kind
  pub is_key : key ≡ source_mapping_key source_id target_id kind

known : (kind : HashKind) → (digest_len kind == 0) ≡ false → IsKind kind
unfolding digest_len
known kind h = elim (Bool-cases (kind == 1)) [
  | inl e ↦ inl (ground (arith, e))
  | inr a ↦ elim (Bool-cases (kind == 2)) [
    | inl e ↦ inr (ground (arith, e))
    | inr b ↦ absurd (ground (arith, h, a, b))
  ]
]

decoded_key-eq-ok :
    (key target_id : Bytes) (o : Option HashKind) (kind : HashKind)
    → decoded_key key o ≡ ok (target_id, kind)
    → (o ≡ some kind) × IsKind kind × (target_id ≡ take 16 (drop 18 key))
unfolding decoded_key
decoded_key-eq-ok key target_id none kind h =
    absurd (let no : err corrupted_value ≡ ok (target_id, kind) = h in cc)
decoded_key-eq-ok key target_id (some k) kind h = elim (Bool-cases (digest_len k == 0)) [
  | inl e ↦
      absurd (let no : err corrupted_value ≡ ok (target_id, kind) = rw (e, decoded_key) at h in cc)
  | inr e ↦
      let both : ◌≡◌ {A = Result (Bytes × HashKind)} (ok (take 16 (drop 18 key), k))
          (ok (target_id, kind)) =
        rw (e, decoded_key) at h in
      let same : k ≡ kind = cc in (ap some same, rw same at (known k e), cc)
]

parts_of :
    (rest : Bytes) (kind : HashKind)
    → length rest ≡ 33
    → get_elem? rest 32 ≡ some kind
    → rest ≡ take 16 rest ++ take 16 (drop 16 rest) ++ kind ∷ []
parts_of rest kind long at =
    let a = take 16 rest in
    let b = take 16 (drop 16 rest) in
    let (z, one) =
      one_left (drop 16 (drop 16 rest))
        (omega (arith, long, length-drop 16 rest, length-drop 16 (drop 16 rest))) in
    let whole : rest ≡ a ++ (b ++ z ∷ []) = sym (
      ap (λ (x : Bytes). a ++ (b ++ x)) (sym one)
      ∙ ap (λ (x : Bytes). a ++ x) (take-append-drop 16 (drop 16 rest))
      ∙ take-append-drop 16 rest) in
    let front : length (a ++ b) ≡ 32 = omega (
      arith,
      long,
      length-append a b,
      length-take 16 rest,
      length-take 16 (drop 16 rest),
      length-drop 16 rest,
    ) in
    let last : get_elem? rest 32 ≡ some z =
      ap (λ (x : Bytes). get_elem? x 32) (whole ∙ sym (append_assoc a b (z ∷ [])))
      ∙ last_elem 32 (a ++ b) z front in
    let same : z ≡ kind = cc in
    whole ∙ sym (append_assoc a b (z ∷ [])) ∙ ap (λ (x : ℕ). (a ++ b) ++ x ∷ []) same

pub decode-IsMapping :
    (key target_id : Bytes) (kind : HashKind)
    → decode_source_mapping_key key ≡ ok (target_id, kind)
    → IsMapping key target_id kind
unfolding decode_source_mapping_key source_mapping_key
decode-IsMapping [] target_id kind h =
    absurd (let no : err corrupted_value ≡ ok (target_id, kind) = h in cc)
decode-IsMapping (x ∷ []) target_id kind h =
    absurd (let no : err corrupted_value ≡ ok (target_id, kind) = h in cc)
decode-IsMapping (ns ∷ v ∷ rest) target_id kind h =
    let key = ns ∷ v ∷ rest in
    elim (Bool-cases (
      not (length key == 35)
      || not (byte_is key 0 ns_source_mapping)
      || not (byte_is key 1 version))) [
        | inl e ↦ absurd (
            let no : err corrupted_value ≡ ok (target_id, kind) =
              rw (e, decode_source_mapping_key) at h in
            cc)
        | inr e ↦
            let (at, is_kind, target) =
              decoded_key-eq-ok key target_id (get_elem? key 34) kind
                (rw (e, decode_source_mapping_key) at h) in
            let long : length rest ≡ 33 = unfold byte_is in ground (arith, e) in
            let first : ns ≡ ns_source_mapping = unfold byte_is in ground (arith, e) in
            let second : v ≡ version = unfold byte_is in ground (arith, e) in
            record {
              source_id = take 16 rest;
              source_length = omega (arith, long, length-take 16 rest);
              target_length =
                  ap length target
                  ∙ omega (arith, long, length-take 16 (drop 16 rest), length-drop 16 rest);
              is_kind = is_kind;
              is_key =
                  ap (λ (x : ℕ). x ∷ v ∷ rest) first
                  ∙ ap (λ (x : ℕ). ns_source_mapping ∷ x ∷ rest) second
                  ∙ ap (λ (x : Bytes). ns_source_mapping ∷ version ∷ x) (parts_of rest kind long at)
                  ∙ ap (λ (x : Bytes). source_mapping_key (take 16 rest) x kind) (sym target);
            }
      ]
