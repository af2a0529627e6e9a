-- ===== src/HashStore/Parts.antt =====
-- Byte texts put together and taken apart by their lengths.
use apk_cache.Prelude.{
  ℕ, ◌≤◌, ◌≡◌, refl, ap, sym, ◌∙◌, false, [], ◌∷◌, ◌++◌, Bytes, length, some, get_elem?, take, drop,
  ltb, take-append, drop-append, arith,
}

pub append_nil : (xs : Bytes) → xs ++ [] ≡ xs
append_nil [] = refl
append_nil (x ∷ xs) = ap (◌∷◌ x) (append_nil xs)

pub append_assoc : (xs ys zs : Bytes) → (xs ++ ys) ++ zs ≡ xs ++ (ys ++ zs)
append_assoc [] ys zs = refl
append_assoc (x ∷ xs) ys zs = ap (◌∷◌ x) (append_assoc xs ys zs)

-- The part of length n at the front, and what follows.
pub take_part : (n : ℕ) (xs ys : Bytes) → length xs ≡ n → take n (xs ++ ys) ≡ xs
take_part n xs ys e = ap (λ (k : ℕ). take k (xs ++ ys)) (sym e) ∙ take-append xs ys

pub drop_part : (n : ℕ) (xs ys : Bytes) → length xs ≡ n → drop n (xs ++ ys) ≡ ys
drop_part n xs ys e = ap (λ (k : ℕ). drop k (xs ++ ys)) (sym e) ∙ drop-append xs ys

-- The last element of a text, at its index.
pub last_elem : (n : ℕ) (xs : Bytes) (c : ℕ) → length xs ≡ n → get_elem? (xs ++ c ∷ []) n ≡ some c
last_elem n xs c e = ap (get_elem? (xs ++ c ∷ [])) (sym e) ∙ at_length xs
  where
    at_length : (ys : Bytes) → get_elem? (ys ++ c ∷ []) (length ys) ≡ some c
    at_length [] = refl
    at_length (y ∷ ys) = at_length ys

pub not_short : (n : ℕ) (xs : Bytes) → n ≤ length xs → ltb (length xs) n ≡ false
not_short n xs h = ground arith
