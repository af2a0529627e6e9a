-- ===== src/HashStore/Varint.antt =====
-- `AppendUvarint`, `Uvarint`, `AppendVarint` and `Varint` of Go's encoding/binary, as hashstore.go uses
-- them: a negative or zero count of bytes, which the callers take for corruption, is `none`; the bytes
-- after the number are returned beside it.
use apk_cache.Prelude.{
  ℕ, zero, suc, ◌+◌, ◌-◌, ◌*◌, ◌/◌, ◌%◌, ◌^◌, ◌<◌, ◌≡◌, refl, ap, ◌∙◌, inl, inr, false, ◌&&◌,
  Option, none, some, [], ◌∷◌, ◌++◌, Bytes, ltb, ◌==◌, if◌then◌else◌, Bool-cases, arith,
}
use apk_cache.Prelude.Int.{ℤ, pos, negsuc}

abbrev pub u64 : ℕ
u64 = 2 ^ 64

-- The groups of seven bits, the low one first. A uint64 has at most ten, so nine rounds and a last byte
-- are enough; byte(x) | 0x80 is x % 128 + 128.
unfoldable pub put_groups : ℕ → ℕ → Bytes
put_groups zero x = (x % 256) ∷ []
put_groups (suc n) x =
    let more = (x % 128 + 128) ∷ put_groups n (x / 128) in if ltb x 128 then x ∷ [] else more

unfoldable pub append_uvarint : Bytes → ℕ → Bytes
unfolding put_groups
append_uvarint buf x = buf ++ put_groups 9 x

-- The loop of Uvarint with `left` bytes allowed, at the weight `m` of the next group: the tenth byte
-- may be at most 1.
unfoldable pub get_groups : ℕ → ℕ → ℕ → Bytes → Option (ℕ × Bytes)
get_groups zero m acc buf = none
get_groups (suc left) m acc [] = none
get_groups (suc left) m acc (b ∷ rest) =
    let more = get_groups left (m * 128) (acc + b % 128 * m) rest in
    if ltb b 128 then (if left == 0 && ltb 1 b then none else some (acc + b * m, rest)) else more

unfoldable pub uvarint : Bytes → Option (ℕ × Bytes)
unfolding get_groups
uvarint buf = get_groups 10 1 0 buf

-- uint64(x) << 1, complemented for a negative x
unfoldable pub zigzag : ℤ → ℕ
zigzag (pos n) = 2 * n
zigzag (negsuc n) = 2 * n + 1

unfoldable pub unzigzag : ℕ → ℤ
unzigzag u = if u % 2 == 0 then pos (u / 2) else negsuc (u / 2)

unfoldable pub append_varint : Bytes → ℤ → Bytes
append_varint buf x = append_uvarint buf (zigzag x)

varint_of : Option (ℕ × Bytes) → Option (ℤ × Bytes)
varint_of none = none
varint_of (some (u, rest)) = some (unzigzag u, rest)

unfoldable pub varint : Bytes → Option (ℤ × Bytes)
unfolding varint_of
varint buf = varint_of (uvarint buf)

-- The values of an int64.
abbrev pub IsI64 : ℤ → Type 0
IsI64 (pos n) = n < 2 ^ 63
IsI64 (negsuc n) = n < 2 ^ 63

-- uint64(x) and int64(u)
unfoldable pub to_u64 : ℤ → ℕ
to_u64 (pos n) = n
to_u64 (negsuc n) = u64 - 1 - n

unfoldable pub to_i64 : ℕ → ℤ
to_i64 u = if ltb u (2 ^ 63) then pos u else negsuc (u64 - 1 - u)

-- 128 to the power of the groups that are left.
pow128 : ℕ → ℕ
pow128 zero = 1
pow128 (suc n) = 128 * pow128 n

group_sum : (acc x m : ℕ) → acc + x % 128 * m + x / 128 * (m * 128) ≡ acc + x * m
group_sum acc x m =
    let e : x % 128 + 128 * (x / 128) ≡ x = omega arith in omega (arith, ap (λ (t : ℕ). t * m) e)

group_fits : (x m : ℕ) → x * m < u64 → x / 128 * (m * 128) < u64
group_fits x m h = omega (arith, group_sum 0 x m)

get-put_groups :
    (n x m acc : ℕ) (rest : Bytes)
    → m * pow128 n ≡ 2 ^ 63
    → x * m < u64
    → get_groups (suc n) m acc (put_groups n x ++ rest) ≡ some (acc + x * m, rest)
unfolding put_groups get_groups pow128
get-put_groups zero x m acc rest top fits =
    let one : m ≡ 2 ^ 63 = omega arith in
    let last : x < 2 = omega (arith, ap (λ (t : ℕ). x * t) one) in
    let same : x % 256 ≡ x = omega arith in rw same (ground arith)
get-put_groups (suc n) x m acc rest top fits = elim (Bool-cases (ltb x 128)) [
  | inl small ↦ rw small (ground arith)
  | inr large ↦
      let low : (x % 128 + 128) % 128 ≡ x % 128 = omega arith in
      let big : ltb (x % 128 + 128) 128 ≡ false = ground arith in
      let ih =
        get-put_groups n (x / 128) (m * 128) (acc + x % 128 * m) rest (omega (arith, top))
          (group_fits x m fits) in
      rw (large, big)
        (ap (λ (t : ℕ). get_groups (suc n) (m * 128) (acc + t * m) (put_groups n (x / 128) ++ rest))
            low
          ∙ ih
          ∙ ap (λ (t : ℕ). some (t, rest)) (group_sum acc x m))
]

-- What is appended does not depend on what is before it.
pub append_uvarint_lem : (buf : Bytes) (x : ℕ) → append_uvarint buf x ≡ buf ++ append_uvarint [] x
unfolding append_uvarint
append_uvarint_lem buf x = refl

pub append_varint_lem : (buf : Bytes) (x : ℤ) → append_varint buf x ≡ buf ++ append_varint [] x
unfolding append_varint
append_varint_lem buf x = append_uvarint_lem buf (zigzag x)

-- A uint64 is read back from its bytes, whatever follows them.
pub uvarint-append :
    (x : ℕ) (rest : Bytes) → x < u64 → uvarint (append_uvarint [] x ++ rest) ≡ some (x, rest)
unfolding uvarint append_uvarint
uvarint-append x rest h =
    get-put_groups 9 x 1 0 rest (unfold pow128 in refl) (omega arith)
    ∙ ap (λ (t : ℕ). some (t, rest)) (omega arith)

zigzag-lt : (x : ℤ) → IsI64 x → zigzag x < u64
unfolding zigzag
zigzag-lt (pos n) h = omega arith
zigzag-lt (negsuc n) h = omega arith

unzigzag-zigzag : (x : ℤ) → unzigzag (zigzag x) ≡ x
unfolding zigzag unzigzag
unzigzag-zigzag (pos n) = ground arith
unzigzag-zigzag (negsuc n) = ground arith

-- An int64 is read back from its bytes, whatever follows them.
pub varint-append :
    (x : ℤ) (rest : Bytes) → IsI64 x → varint (append_varint [] x ++ rest) ≡ some (x, rest)
unfolding varint append_varint varint_of
varint-append x rest h =
    ap varint_of (uvarint-append (zigzag x) rest (zigzag-lt x h))
    ∙ ap (λ (t : ℤ). some (t, rest)) (unzigzag-zigzag x)

pub to_i64-to_u64 : (x : ℤ) → IsI64 x → to_i64 (to_u64 x) ≡ x
unfolding to_i64 to_u64
to_i64-to_u64 (pos n) h = ground arith
to_i64-to_u64 (negsuc n) h = ground arith

pub to_u64-lt : (x : ℤ) → IsI64 x → to_u64 x < u64
unfolding to_u64
to_u64-lt (pos n) h = omega arith
to_u64-lt (negsuc n) h = omega arith
