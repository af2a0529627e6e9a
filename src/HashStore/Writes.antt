-- ===== src/HashStore/Writes.antt =====
-- What a key has after a list of writes, by the records that the keys belong to.
use apk_cache.Prelude.{
  ◌≡◌, ◌≢◌, refl, sym, ap, ◌∙◌, Bool, true, false, ◌&&◌, List, [], ◌∷◌, ◌++◌, Bytes, bytes_eq,
  bytes_eq_iff, ◌==◌, Bool-cases, inl, inr, arith,
}
use apk_cache.HashStore.Kinds.{HashKind}
use apk_cache.HashStore.Keys.{expected_key, source_mapping_key}
use apk_cache.HashStore.KeyLaws.{
  Record, expected, source_mapping, key_of, IsRecord, IsKind, key_of_injective, key_of_eq,
}
use apk_cache.HashStore.Actuals.{Found, Write, put, remove, written}

pub bool_ext : (a b : Bool) → (a ≡ true → b ≡ true) → (b ≡ true → a ≡ true) → a ≡ b
bool_ext true b f g = sym (f refl)
bool_ext false true f g = g refl
bool_ext false false f g = refl

pub written-append :
    (ws vs : List Write) (key : Bytes) (old : Found)
    → written (ws ++ vs) key old ≡ written vs key (written ws key old)
unfolding written
written-append [] vs key old = refl
written-append (put k v ∷ ws) vs key old = written-append ws vs key _
written-append (remove k ∷ ws) vs key old = written-append ws vs key _

pub bytes_eq-ne : (s t : Bytes) → s ≢ t → bytes_eq s t ≡ false
bytes_eq-ne s t h = elim (Bool-cases (bytes_eq s t)) [
  | inl e ↦ absurd (h ((bytes_eq_iff s t).0 e))
  | inr e ↦ e
]

pub bytes_eq_sym : (s t : Bytes) → bytes_eq s t ≡ bytes_eq t s
bytes_eq_sym s t =
    bool_ext (bytes_eq s t) (bytes_eq t s)
      (λ e. (bytes_eq_iff t s).1 (sym ((bytes_eq_iff s t).0 e)))
      (λ e. (bytes_eq_iff s t).1 (sym ((bytes_eq_iff t s).0 e)))

-- The keys of different records differ.
pub apart :
    (r s : Record) → IsRecord r → IsRecord s → r ≢ s → bytes_eq (key_of r) (key_of s) ≡ false
apart r s hr hs h = bytes_eq-ne (key_of r) (key_of s) (key_of_injective r s hr hs h)

pub same_expected :
    (k k' : HashKind) (i i' : Bytes)
    → IsKind k
    → IsKind k'
    → bytes_eq (expected_key k i) (expected_key k' i') ≡ (k == k' && bytes_eq i i')
same_expected k k' i i' h h' =
    bool_ext (bytes_eq (expected_key k i) (expected_key k' i')) (k == k' && bytes_eq i i')
      (λ e.
        let same : expected k i ≡ expected k' i' =
          key_of_eq (expected k i) (expected k' i') h h' ((bytes_eq_iff _ _).0 e) in
        let kinds : k ≡ k' = cc in
        let ids : i ≡ i' = cc in ground (arith, kinds, (bytes_eq_iff i i').1 ids))
      (λ e.
        let kinds : k ≡ k' = ground (arith, e) in
        let ids : i ≡ i' = (bytes_eq_iff i i').0 (ground (arith, e)) in
        (bytes_eq_iff _ _).1 (ap (λ x. expected_key x i) kinds ∙ ap (expected_key k') ids))

pub same_mapping :
    (s s' i i' : Bytes) (k k' : HashKind)
    → IsRecord (source_mapping s i k)
    → IsRecord (source_mapping s' i' k')
    → bytes_eq (source_mapping_key s i k) (source_mapping_key s' i' k')
      ≡ (bytes_eq s s' && (k == k' && bytes_eq i i'))
same_mapping s s' i i' k k' h h' =
    bool_ext (bytes_eq (source_mapping_key s i k) (source_mapping_key s' i' k'))
      (bytes_eq s s' && (k == k' && bytes_eq i i'))
      (λ e.
        let same : source_mapping s i k ≡ source_mapping s' i' k' =
          key_of_eq (source_mapping s i k) (source_mapping s' i' k') h h'
            ((bytes_eq_iff _ _).0 e) in
        let kinds : k ≡ k' = cc in
        let ids : i ≡ i' = cc in
        let sources : s ≡ s' = cc in
        ground (arith, kinds, (bytes_eq_iff i i').1 ids, (bytes_eq_iff s s').1 sources))
      (λ e.
        let kinds : k ≡ k' = ground (arith, e) in
        let ids : i ≡ i' = (bytes_eq_iff i i').0 (ground (arith, e)) in
        let sources : s ≡ s' = (bytes_eq_iff s s').0 (ground (arith, e)) in
        (bytes_eq_iff _ _).1 (
          ap (λ x. source_mapping_key x i k) sources
          ∙ ap (λ x. source_mapping_key s' x k) ids
          ∙ ap (source_mapping_key s' i') kinds))
