-- ===== src/Requests/SegmentLaws.antt =====
-- detectPackageRequestType against the list of the path's segments.
use apk_cache.Prelude.{
  ℕ, suc, zero, ◌≡◌, ◌≤◌, ◌<◌, ◌⊎◌, ◌≢◌, refl, ap, sym, ◌∙◌, Bool, true, false, not, ◌||◌, ◌&&◌,
  some, List, [], ◌∷◌, Bytes, codes, bytes_eq, length, ◌==◌, Bool-cases, inl, inr, if◌then◌else◌,
  arith,
}
use apk_cache.Requests.{
  PackageType, unknown, apk, apt, segment, after_segment, is_root, is_tree, scan, or_scan,
  detect_package_request_type,
}
use apk_cache.Requests.SuffixLaws.{
  ends_with_any, apk_suffixes, apt_suffixes, detect_package_suffix_lem,
}

-- The text cut at every slash.
unfoldable pub split : Bytes → List Bytes
split [] = [] ∷ []
split (c ∷ rest) = elim (split rest) [
  | [] ↦ []
  | s ∷ more ↦ if c == b'/' then [] ∷ s ∷ more else (c ∷ s) ∷ more
]

abbrev pub any : (Bytes → Bool) → List Bytes → Bool
any test [] = false
any test (s ∷ rest) = test s || any test rest

-- A directory of packages at or after the root of a distribution.
abbrev pub under_root : List Bytes → Bool
under_root [] = false
under_root (s ∷ rest) = (is_root s && any is_tree (s ∷ rest)) || under_root rest

abbrev pub is_by_hash : Bytes → Bool
is_by_hash s = bytes_eq s (codes "by-hash")

-- The type of a path by its segments: alpine at the front makes it one of APK; by-hash anywhere, or a
-- directory of packages at the front or under the root of a distribution, one of APT.
abbrev pub by_segments : List Bytes → PackageType
by_segments [] = unknown
by_segments (s ∷ rest) =
    if bytes_eq s (codes "alpine")
    then apk
    else if any is_by_hash (s ∷ rest) || (is_tree s || under_root (s ∷ rest))
    then apt
    else unknown

-- What the loop finds from a later segment on.
abbrev later : Bool → List Bytes → PackageType
later seen segments =
    if any is_by_hash segments || ((seen && any is_tree segments) || under_root segments)
    then apt
    else unknown

-- The rest of the text in segments: nothing is left where the text has ended.
abbrev rest_of : Bytes → List Bytes
rest_of [] = []
rest_of (c ∷ rest) = split (c ∷ rest)

-- The first segment of a text, and what follows it: a slash at the end leaves an empty segment.
split-segment :
    (c : ℕ) (rest : Bytes)
    → (split (c ∷ rest) ≡ segment (c ∷ rest) ∷ rest_of (after_segment (c ∷ rest)))
      ⊎ ((split (c ∷ rest) ≡ segment (c ∷ rest) ∷ [] ∷ []) × (after_segment (c ∷ rest) ≡ []))
unfolding segment after_segment split
split-segment c [] = elim (Bool-cases (c == b'/')) [
  | inl e ↦ inr (rw e refl, rw e refl)
  | inr e ↦ inl (rw e refl)
]
split-segment c (d ∷ rest) = elim (Bool-cases (c == b'/')) [
  | inl e ↦ elim (split-segment d rest) [
    | inl h ↦ inl (rw (h, e) (ap (◌∷◌ []) (sym h)))
    | inr h ↦ inl (rw (h.0, e) (ap (◌∷◌ []) (sym h.0)))
  ]
  | inr e ↦ elim (split-segment d rest) [
    | inl h ↦ inl (rw (h, e) refl)
    | inr h ↦ inr (rw (h.0, e) refl, rw e h.1)
  ]
]

after-le : (c : ℕ) (rest : Bytes) → length (after_segment (c ∷ rest)) ≤ length rest
unfolding after_segment
after-le c [] = elim (Bool-cases (c == b'/')) [
  | inl e ↦ rw e (omega arith)
  | inr e ↦ rw e (omega arith)
]
after-le c (d ∷ rest) = elim (Bool-cases (c == b'/')) [
  | inl e ↦ rw e (omega arith)
  | inr e ↦ rw e (omega (arith, after-le d rest))
]

-- One segment more, for any answers to the tests on it and on the later ones.
one_more :
    (seen b t r bs ts us : Bool)
    → (if b
        then some apt
        else if t && (false || (seen || r))
        then some apt
        else some (if bs || (((seen || r) && ts) || us) then apt else unknown))
      ≡ some
          (if (b || bs) || ((seen && (t || ts)) || ((r && (t || ts)) || us)) then apt else unknown)
one_more seen b t r bs ts us = ground arith

later_end : (seen : Bool) → later seen ([] ∷ []) ≡ later seen []
unfolding bytes_eq is_tree is_root
later_end true = refl
later_end false = refl

scan_later :
    (fuel : ℕ) (seen : Bool) (rest : Bytes)
    → length rest < fuel
    → scan fuel false seen rest ≡ some (later seen (rest_of rest))
unfolding scan
scan_later zero seen rest h = absurd (omega (arith, h))
scan_later (suc fuel) true [] h = refl
scan_later (suc fuel) false [] h = refl
scan_later (suc fuel) seen (c ∷ rest) h =
    let s = segment (c ∷ rest) in
    let next = after_segment (c ∷ rest) in
    let ih = scan_later fuel (seen || is_root s) next (omega (arith, h, after-le c rest)) in
    let more = λ (tail : List Bytes).
      one_more seen (is_by_hash s) (is_tree s) (is_root s) (any is_by_hash tail) (any is_tree tail)
        (under_root tail) in
    elim (split-segment c rest) [
      | inl e ↦ rw (e, ih) (more (rest_of next))
      | inr (e, ended) ↦
          let last : scan fuel false (seen || is_root s) next
              ≡ some (later (seen || is_root s) ([] ∷ [])) =
            ih
            ∙ ap (λ (x : Bytes). some (later (seen || is_root s) (rest_of x))) ended
            ∙ ap some (sym (later_end (seen || is_root s))) in
          rw (e, last) (more ([] ∷ []))
    ]

first_scan :
    (a b t r bs ts us : Bool)
    → (if true && a
        then some apk
        else if b
        then some apt
        else if t && (true || r)
        then some apt
        else some (if bs || ((r && ts) || us) then apt else unknown))
      ≡ some
          (if a then apk else if (b || bs) || (t || ((r && (t || ts)) || us)) then apt else unknown)
first_scan a b t r bs ts us = ground arith

-- The loop finds the type that the segments give, for every path.
pub scan_lem :
    (rest : Bytes)
    → rest ≢ []
    → scan (suc (length rest)) true false rest ≡ some (by_segments (split rest))
unfolding scan
scan_lem [] h = absurd (h refl)
scan_lem (c ∷ rest) _ =
    let s = segment (c ∷ rest) in
    let next = after_segment (c ∷ rest) in
    let ih = scan_later (suc (length rest)) (is_root s) next (omega (arith, after-le c rest)) in
    let more = λ (tail : List Bytes).
      first_scan (bytes_eq s (codes "alpine")) (is_by_hash s) (is_tree s) (is_root s)
        (any is_by_hash tail) (any is_tree tail) (under_root tail) in
    elim (split-segment c rest) [
      | inl e ↦ rw (e, ih) (more (rest_of next))
      | inr (e, ended) ↦
          let last : scan (suc (length rest)) false (is_root s) next
              ≡ some (later (is_root s) ([] ∷ [])) =
            ih
            ∙ ap (λ (x : Bytes). some (later (is_root s) (rest_of x))) ended
            ∙ ap some (sym (later_end (is_root s))) in
          rw (e, last) (more ([] ∷ []))
    ]

-- The type of a path: what its end says, or else what its segments say; nothing for a path that does
-- not begin with a slash or has nothing after it.
abbrev pub type_of : Bytes → PackageType
type_of [] = unknown
type_of (c ∷ []) = unknown
type_of (c ∷ d ∷ rest) =
    if not (c == b'/')
    then unknown
    else if ends_with_any (c ∷ d ∷ rest) apk_suffixes
    then apk
    else if ends_with_any (c ∷ d ∷ rest) apt_suffixes
    then apt
    else by_segments (split (d ∷ rest))

-- For every path the scan ends, and finds the type that the end of the path gives, or else the one
-- that its segments give: alpine at the front makes it one of APK; by-hash anywhere, and dists or pool
-- at the front or after the root of a distribution, one of APT.
pub detect_package_request_type_lem :
    (path : Bytes) → detect_package_request_type path ≡ some (type_of path)
unfolding detect_package_request_type or_scan
detect_package_request_type_lem [] = refl
detect_package_request_type_lem (c ∷ []) = refl
detect_package_request_type_lem (c ∷ d ∷ rest) = elim (Bool-cases (c == b'/')) [
  | inr e ↦ rw e refl
  | inl e ↦
      let path = c ∷ d ∷ rest in
      rw (e, detect_package_suffix_lem path)
        (elim (Bool-cases (ends_with_any path apk_suffixes)) [
          | inl k ↦ rw k refl
          | inr k ↦ elim (Bool-cases (ends_with_any path apt_suffixes)) [
            | inl t ↦ rw (k, t) refl
            | inr t ↦ rw (k, t) (scan_lem (d ∷ rest) (λ q. cc))
          ]
        ])
]
