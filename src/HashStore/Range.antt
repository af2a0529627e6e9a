-- ===== src/HashStore/Range.antt =====
-- The keys between a prefix and its upper bound, where the store's iterators run. Keys are in the
-- order of their bytes, which is the database's default.
use apk_cache.Prelude.{
  ◌<◌, ◌≡◌, refl, inl, inr, Bool, true, false, not, ◌&&◌, ◌||◌, Option, none, some, [], ◌∷◌, Bytes,
  All, ltb, ◌==◌, Option-cases, Bool-cases, arith,
}
use apk_cache.HashStore.Keys.{prefix_upper_bound}

unfoldable pub is_before : Bytes → Bytes → Bool
is_before [] [] = false
is_before [] (c ∷ t) = true
is_before (b ∷ s) [] = false
is_before (b ∷ s) (c ∷ t) = ltb b c || (b == c && is_before s t)

unfoldable pub has_prefix : Bytes → Bytes → Bool
has_prefix [] key = true
has_prefix (b ∷ p) [] = false
has_prefix (b ∷ p) (c ∷ key) = b == c && has_prefix p key

-- Below a bound, if there is one.
unfoldable pub is_below : Option Bytes → Bytes → Bool
is_below none key = true
is_below (some bound) key = is_before key bound

nothing_before : (key : Bytes) → is_before key [] ≡ false
unfolding is_before
nothing_before [] = refl
nothing_before (c ∷ key) = refl

-- A key has the prefix exactly if it is not before the prefix and below the prefix's upper bound,
-- for every key whose elements are bytes.
pub has_prefix-eq :
    (p key : Bytes)
    → All (λ b. b < 256) key
    → has_prefix p key ≡ (not (is_before key p) && is_below (prefix_upper_bound p) key)
unfolding has_prefix is_before is_below prefix_upper_bound
has_prefix-eq [] [] h = refl
has_prefix-eq [] (c ∷ key) h = refl
has_prefix-eq (b ∷ p) [] h = refl
has_prefix-eq (b ∷ p) (c ∷ key) h =
    let before = has_prefix-eq p key h.1 in
    elim (Option-cases (prefix_upper_bound p)) [
      | inl e ↦
          let ih = rw e at before in
          elim (Bool-cases (b == 0xff)) [
            | inl top ↦ rw (e, top, has_prefix, is_below, is_before) (ground (arith, top, ih, h.0))
            | inr low ↦
                rw (e, low, has_prefix, is_below, is_before, nothing_before key)
                  (ground (arith, low, ih))
          ]
      | inr (bound, e) ↦
          let ih = rw e at before in rw (e, has_prefix, is_below, is_before) (ground (arith, ih))
    ]
