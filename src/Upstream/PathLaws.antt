-- ===== src/Upstream/PathLaws.antt =====
-- The joined path: the shortest one that begins with the base and ends with the request.
use mathlib.Core.List.{append_assoc}
use apk_cache.Prelude.{
  ℕ, zero, suc, ◌+◌, ◌-◌, ◌≤◌, ◌<◌, ◌≡◌, ◌↔◌, refl, ap, sym, ◌∙◌, inl, inr, Bool, true, false, not,
  ◌&&◌, some, List, [], ◌∷◌, ◌++◌, Bytes, bytes_eq, bytes_eq_iff, length, take, drop, get_elem?,
  ltb, if◌then◌else◌, Bool-cases, length-append, length-drop, take-append, drop-append,
  take-append-drop, arith,
}
use apk_cache.Upstream.Paths.{same_at, matched, overlap, min, combined}

all_eq : List Bytes → List Bytes → Bool
all_eq [] [] = true
all_eq [] (y ∷ ys) = false
all_eq (x ∷ xs) [] = false
all_eq (x ∷ xs) (y ∷ ys) = bytes_eq x y && all_eq xs ys

all_eq→≡ : (xs ys : List Bytes) → all_eq xs ys ≡ true → xs ≡ ys
unfolding all_eq
all_eq→≡ [] [] h = refl
all_eq→≡ [] (y ∷ ys) h = absurd cc
all_eq→≡ (x ∷ xs) [] h = absurd cc
all_eq→≡ (x ∷ xs) (y ∷ ys) h = ground (arith, bytes_eq_iff x y, all_eq→≡ xs ys, h)

all_eq_refl : (xs : List Bytes) → all_eq xs xs ≡ true
unfolding all_eq
all_eq_refl [] = refl
all_eq_refl (x ∷ xs) = ground (arith, bytes_eq_iff x x, all_eq_refl xs)

-- The element at a place, and the list from there.
at_place :
    (p : ℕ) (xs : List Bytes)
    → p < length xs
    → (x : Bytes) × (get_elem? xs p ≡ some x) × (drop p xs ≡ x ∷ drop (suc p) xs)
at_place p [] h = absurd (omega arith)
at_place zero (x ∷ xs) h = (x, refl, refl)
at_place (suc p) (x ∷ xs) h = at_place p xs (omega arith)

if_not : (b r : Bool) → (if not b then false else r) ≡ (b && r)
if_not true r = refl
if_not false r = refl

matched-eq :
    (base request : List Bytes) (size i left : ℕ)
    → (length base - size) + i + left ≤ length base
    → i + left ≤ length request
    → matched base request size i left
      ≡ all_eq (take left (drop ((length base - size) + i) base)) (take left (drop i request))
unfolding matched all_eq same_at
matched-eq base request size i zero hb hr = refl
matched-eq base request size i (suc left) hb hr =
    let p = (length base - size) + i in
    let (x, ex, dx) = at_place p base (omega arith) in
    let (y, ey, dy) = at_place i request (omega arith) in
    let moved : (length base - size) + suc i ≡ suc p = omega arith in
    let rest =
      rw moved at (matched-eq base request size (suc i) left (omega arith) (omega arith)) in
    let same : same_at base p request i ≡ bytes_eq x y = rw (ex, ey, same_at) refl in
    let step : matched base request size i (suc left) ≡ (
        if not (same_at base p request i) then false else matched base request size (suc i) left) =
      refl in
    let tail = all_eq (take left (drop (suc p) base)) (take left (drop (suc i) request)) in
    let test : (if not (same_at base p request i)
          then false
          else matched base request size (suc i) left)
        ≡ (bytes_eq x y && tail) =
      rw (same, rest) (if_not (bytes_eq x y) tail) in
    let split : all_eq (take (suc left) (drop p base)) (take (suc left) (drop i request))
        ≡ (bytes_eq x y && tail) =
      rw (dx, dy) refl in
    step ∙ test ∙ sym split

take-length : (xs : List Bytes) (n : ℕ) → length xs ≤ n → take n xs ≡ xs
take-length [] zero h = refl
take-length [] (suc n) h = refl
take-length (x ∷ xs) zero h = absurd (omega arith)
take-length (x ∷ xs) (suc n) h = ap (◌∷◌ x) (take-length xs n (omega arith))

drop-length : (xs : List Bytes) → drop (length xs) xs ≡ []
drop-length [] = refl
drop-length (x ∷ xs) = drop-length xs

-- The base ends with the first `size` segments of the request.
abbrev pub Overlaps : List Bytes → List Bytes → ℕ → Type 0
Overlaps base request size = drop (length base - size) base ≡ take size request

matched_iff :
    (base request : List Bytes) (size : ℕ)
    → size ≤ length base
    → size ≤ length request
    → (matched base request size 0 size ≡ true) ↔ Overlaps base request size
matched_iff base request size hb hr =
    let same = matched-eq base request size 0 size (omega arith) (omega arith) in
    let start : (length base - size) + 0 ≡ length base - size = omega arith in
    let all =
      take-length (drop (length base - size) base) size
        (omega (arith, length-drop (length base - size) base)) in
    let eq = rw (start, all) at same in
    (
      λ h. all_eq→≡ _ _ (sym eq ∙ h),
      λ h. eq ∙ ap (λ xs. all_eq xs (take size request)) h ∙ all_eq_refl (take size request),
    )

no_rest : (xs : List Bytes) → drop (length xs - 0) xs ≡ []
no_rest xs = let all : length xs - 0 ≡ length xs = omega arith in rw all (drop-length xs)

-- The largest overlap up to `limit`.
record IsLargest (base request : List Bytes) (limit o : ℕ) : Type 0 where
  within : o ≤ limit
  overlaps : Overlaps base request o
  largest : (k : ℕ) → k ≤ limit → Overlaps base request k → k ≤ o

overlap-IsLargest :
    (base request : List Bytes) (limit : ℕ)
    → limit ≤ length base
    → limit ≤ length request
    → IsLargest base request limit (overlap base request limit)
unfolding overlap
overlap-IsLargest base request zero hb hr = record {
  within = omega arith;
  overlaps = no_rest base;
  largest = λ k le h. le;
}
overlap-IsLargest base request (suc limit) hb hr =
    let smaller = overlap-IsLargest base request limit (omega arith) (omega arith) in
    let test = matched_iff base request (suc limit) hb hr in
    elim (Bool-cases (matched base request (suc limit) 0 (suc limit))) [
      | inl e ↦ rw e (record { within = omega arith; overlaps = test.0 e; largest = λ k le h. le })
      | inr e ↦ rw e (record {
        within = omega (arith, smaller.within);
        overlaps = smaller.overlaps;
        largest = λ k le h. ground (arith, test.1, smaller.largest k, h, le, e);
      })
    ]

min-le : (a b : ℕ) → (min a b ≤ a) × (min a b ≤ b)
unfolding min
min-le a b = ground arith

le-min : (k a b : ℕ) → k ≤ a → k ≤ b → k ≤ min a b
unfolding min
le-min k a b ha hb = ground (arith, ha, hb)

drop-append-le : (n : ℕ) (xs ys : List Bytes) → n ≤ length xs → drop n (xs ++ ys) ≡ drop n xs ++ ys
drop-append-le zero xs ys h = refl
drop-append-le (suc n) [] ys h = absurd (omega arith)
drop-append-le (suc n) (x ∷ xs) ys h = drop-append-le n xs ys (omega arith)

take-append-exact : (n : ℕ) (xs ys : List Bytes) → n ≡ length xs → take n (xs ++ ys) ≡ xs
take-append-exact n xs ys h = ap (λ k. take k (xs ++ ys)) h ∙ take-append xs ys

-- Two ways to make one list overlap, if together they are long enough.
joins-Overlaps :
    (base after before request : List Bytes) (k : ℕ)
    → base ++ after ≡ before ++ request
    → k + length before ≡ length base
    → Overlaps base request k
joins-Overlaps base after before request k same len =
    let from : length base - k ≡ length before = omega (arith, len) in
    let rest : drop (length before) base ++ after ≡ request =
      sym (drop-append-le (length before) base after (omega (arith, len)))
      ∙ ap (drop (length before)) same
      ∙ drop-append before request in
    ap (λ n. drop n base) from
    ∙ sym (
        take-append-exact k (drop (length before) base) after
          (omega (arith, len, length-drop (length before) base)))
    ∙ ap (take k) rest

-- A list that begins with the one and ends with the other.
pub record Joins (base request xs : List Bytes) : Type 0 where
  pub after : List Bytes
  pub before : List Bytes
  pub begins : xs ≡ base ++ after
  pub ends : xs ≡ before ++ request

abbrev largest_overlap : List Bytes → List Bytes → ℕ
largest_overlap base request = overlap base request (min (length base) (length request))

combined-Joins : (base request : List Bytes) → Joins base request (combined base request)
unfolding combined
combined-Joins base request =
    let o = largest_overlap base request in
    let within = min-le (length base) (length request) in
    let largest =
      overlap-IsLargest base request (min (length base) (length request)) within.0 within.1 in
    let n = length base - o in
    record {
      after = drop o request;
      before = take n base;
      begins = refl;
      ends =
          ap (λ xs. xs ++ drop o request) (sym (take-append-drop n base))
          ∙ append_assoc (take n base) (drop n base) (drop o request)
          ∙ ap (λ xs. take n base ++ (xs ++ drop o request)) largest.overlaps
          ∙ ap (λ xs. take n base ++ xs) (take-append-drop o request);
    }

-- The segments of the joined path begin with those of the base and end with those of the request, and
-- no shorter list does.
pub combined-IsShortest :
    (base request : List Bytes)
    → Joins base request (combined base request)
      × ((xs : List Bytes) → Joins base request xs → length (combined base request) ≤ length xs)
unfolding combined
combined-IsShortest base request = (combined-Joins base request, shortest)
  where
    shortest :
        (xs : List Bytes) → Joins base request xs → length (combined base request) ≤ length xs
    shortest xs j =
        let o = largest_overlap base request in
        let within = min-le (length base) (length request) in
        let largest =
          overlap-IsLargest base request (min (length base) (length request)) within.0 within.1 in
        let k = length base - length j.before in
        let whole = length-append base (drop o request) in
        let rest = length-drop o request in
        let begins : length xs ≡ length base + length j.after =
          ap length j.begins ∙ length-append base j.after in
        let ends : length xs ≡ length j.before + length request =
          ap length j.ends ∙ length-append j.before request in
        elim (Bool-cases (ltb (length base) (length j.before))) [
          | inl far ↦ ground (arith, whole, rest, ends, far)
          | inr near ↦
              let total : k + length j.before ≡ length base = ground (arith, near) in
              let over =
                joins-Overlaps base j.after j.before request k (sym j.begins ∙ j.ends) total in
              let fits =
                le-min k (length base) (length request) (omega (arith, total))
                  (omega (arith, begins, ends, total)) in
              omega (
                arith,
                whole,
                rest,
                ends,
                total,
                largest.largest k fits over,
                largest.within,
                within,
              )
        ]
