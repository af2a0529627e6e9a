-- ===== src/Requests/SuffixLaws.antt =====
-- detectPackageSuffix against the list of suffixes.
use apk_cache.Prelude.{
  ℕ, ◌≡◌, refl, ap, sym, ◌∙◌, Bool, true, false, ◌||◌, ◌&&◌, List, [], ◌∷◌, ◌++◌, Bytes, codes,
  bytes_eq_iff, length, drop, take, take-append-drop, ltb, ◌==◌, Bool-cases, inl, inr, ◌-◌, ◌≤◌,
  All, if◌then◌else◌, arith,
}
use apk_cache.Requests.{unknown, apk, apt, ends_with, last_byte, detect_package_suffix}

-- The path ends with one of these texts.
abbrev pub ends_with_any : Bytes → List Bytes → Bool
ends_with_any path [] = false
ends_with_any path (s ∷ suffixes) = ends_with path s || ends_with_any path suffixes

last-append : (xs : Bytes) (c : ℕ) (ys : Bytes) → last_byte (xs ++ (c ∷ ys)) ≡ last_byte (c ∷ ys)
unfolding last_byte
last-append [] c ys = refl
last-append (x ∷ []) c ys = refl
last-append (x ∷ y ∷ xs) c ys = last-append (y ∷ xs) c ys

-- A path whose last byte is another one does not end with the text.
pub last-ends_with :
    (path : Bytes) (c : ℕ) (s : Bytes)
    → (last_byte path == last_byte (c ∷ s)) ≡ false
    → ends_with path (c ∷ s) ≡ false
unfolding ends_with
last-ends_with path c s h = elim (Bool-cases (ends_with path (c ∷ s))) [
  | inr e ↦ e
  | inl e ↦
      let n = length path - length (c ∷ s) in
      let same : drop n path ≡ c ∷ s = (bytes_eq_iff (drop n path) (c ∷ s)).0 (ground (arith, e)) in
      let whole : take n path ++ (c ∷ s) ≡ path =
        ap (λ (x : Bytes). take n path ++ x) (sym same) ∙ take-append-drop n path in
      let last : last_byte path ≡ last_byte (c ∷ s) =
        ap last_byte (sym whole) ∙ last-append (take n path) c s in
      absurd (ground (arith, h, last))
]

-- Ending with a text, with a look at the last byte first.
guarded :
    (path : Bytes) (c : ℕ) (s : Bytes)
    → ends_with path (c ∷ s) ≡ ((last_byte path == last_byte (c ∷ s)) && ends_with path (c ∷ s))
guarded path c s = elim (Bool-cases (last_byte path == last_byte (c ∷ s))) [
  | inl e ↦ rw e refl
  | inr e ↦ rw (e, last-ends_with path c s e) refl
]

-- A path that is shorter than the text does not end with it.
too_short : (path s : Bytes) → ltb (length path) 4 ≡ true → 4 ≤ length s → ends_with path s ≡ false
unfolding ends_with
too_short path s h long = ground (arith, h)

-- The names that make a file one of APK, and one of APT.
abbrev pub apk_suffixes : List Bytes
apk_suffixes = codes ".apk" ∷ codes "/APKINDEX.tar.gz" ∷ []

abbrev pub apt_suffixes : List Bytes
apt_suffixes =
    codes "/Packages.gz"
    ∷ codes "/Packages.xz"
    ∷ codes "/Sources.gz"
    ∷ codes "/Sources.xz"
    ∷ codes ".deb"
    ∷ codes "/InRelease"
    ∷ codes "/Release"
    ∷ codes "/Packages"
    ∷ codes "/Sources"
    ∷ codes "/Packages.bz2"
    ∷ codes "/Sources.bz2"
    ∷ codes "/Packages.lzma"
    ∷ codes "/Sources.lzma"
    ∷ []

-- The switch on the last byte, for any answers to the tests.
switch :
    (n : ℕ) (k z₁ z₂ z₃ z₄ z₅ b e₁ e₂ s₁ s₂ t₁ t₂ a₁ a₂ : Bool)
    → (if n == b'k'
        then (if k then apk else unknown)
        else if n == b'z'
        then (if z₁ then apk else if (z₂ || z₃) || (z₄ || z₅) then apt else unknown)
        else if n == b'b'
        then (if b then apt else unknown)
        else if n == b'e'
        then (if e₁ || e₂ then apt else unknown)
        else if n == b's'
        then (if s₁ || s₂ then apt else unknown)
        else if n == b'2'
        then (if t₁ || t₂ then apt else unknown)
        else if n == b'a'
        then (if a₁ || a₂ then apt else unknown)
        else unknown)
      ≡ (if (n == b'k' && k) || ((n == b'z' && z₁) || false)
          then apk
          else if (n == b'z' && z₂)
              || ((n == b'z' && z₃)
                  || ((n == b'z' && z₄)
                      || ((n == b'z' && z₅)
                          || ((n == b'b' && b)
                              || ((n == b'e' && e₁)
                                  || ((n == b'e' && e₂)
                                      || ((n == b's' && s₁)
                                          || ((n == b's' && s₂)
                                              || ((n == b'2' && t₁)
                                                  || ((n == b'2' && t₂)
                                                      || ((n == b'a' && a₁)
                                                          || ((n == b'a' && a₂) || false))))))))))))
          then apt
          else unknown)
switch n k z₁ z₂ z₃ z₄ z₅ b e₁ e₂ s₁ s₂ t₁ t₂ a₁ a₂ = elim (Bool-cases (n == b'k')) [
  | inl h ↦ let same : n ≡ b'k' = ground (arith, h) in rw same (ground arith)
  | inr hk ↦ elim (Bool-cases (n == b'z')) [
    | inl h ↦ let same : n ≡ b'z' = ground (arith, h) in rw same (ground arith)
    | inr hz ↦ elim (Bool-cases (n == b'b')) [
      | inl h ↦ let same : n ≡ b'b' = ground (arith, h) in rw same (ground arith)
      | inr hb ↦ elim (Bool-cases (n == b'e')) [
        | inl h ↦ let same : n ≡ b'e' = ground (arith, h) in rw same (ground arith)
        | inr he ↦ elim (Bool-cases (n == b's')) [
          | inl h ↦ let same : n ≡ b's' = ground (arith, h) in rw same (ground arith)
          | inr hs ↦ elim (Bool-cases (n == b'2')) [
            | inl h ↦ let same : n ≡ b'2' = ground (arith, h) in rw same (ground arith)
            | inr ht ↦ elim (Bool-cases (n == b'a')) [
              | inl h ↦ let same : n ≡ b'a' = ground (arith, h) in rw same (ground arith)
              | inr ha ↦ rw (hk, hz, hb, he, hs, ht, ha) refl
            ]
          ]
        ]
      ]
    ]
  ]
]

not_short :
    (path : Bytes)
    → ltb (length path) 4 ≡ false
    → detect_package_suffix path ≡ (
        if ends_with_any path apk_suffixes
        then apk
        else if ends_with_any path apt_suffixes
        then apt
        else unknown)
unfolding detect_package_suffix last_byte
not_short path long = rw long (
    rw
      (
        ← guarded path b'.' (codes "apk"),
        ← guarded path b'/' (codes "APKINDEX.tar.gz"),
        ← guarded path b'/' (codes "Packages.gz"),
        ← guarded path b'/' (codes "Packages.xz"),
        ← guarded path b'/' (codes "Sources.gz"),
        ← guarded path b'/' (codes "Sources.xz"),
        ← guarded path b'.' (codes "deb"),
        ← guarded path b'/' (codes "InRelease"),
        ← guarded path b'/' (codes "Release"),
        ← guarded path b'/' (codes "Packages"),
        ← guarded path b'/' (codes "Sources"),
        ← guarded path b'/' (codes "Packages.bz2"),
        ← guarded path b'/' (codes "Sources.bz2"),
        ← guarded path b'/' (codes "Packages.lzma"),
        ← guarded path b'/' (codes "Sources.lzma"),
      )
      at
      (switch (last_byte path) (ends_with path (codes ".apk"))
        (ends_with path (codes "/APKINDEX.tar.gz")) (ends_with path (codes "/Packages.gz"))
        (ends_with path (codes "/Packages.xz")) (ends_with path (codes "/Sources.gz"))
        (ends_with path (codes "/Sources.xz")) (ends_with path (codes ".deb"))
        (ends_with path (codes "/InRelease")) (ends_with path (codes "/Release"))
        (ends_with path (codes "/Packages")) (ends_with path (codes "/Sources"))
        (ends_with path (codes "/Packages.bz2")) (ends_with path (codes "/Sources.bz2"))
        (ends_with path (codes "/Packages.lzma")) (ends_with path (codes "/Sources.lzma"))))

short_any :
    (path : Bytes) (suffixes : List Bytes)
    → ltb (length path) 4 ≡ true
    → All (λ s. 4 ≤ length s) suffixes
    → ends_with_any path suffixes ≡ false
short_any path [] h long = refl
short_any path (s ∷ suffixes) h (first, rest) =
    rw (too_short path s h first) (short_any path suffixes h rest)

no_match :
    (path : Bytes)
    → ends_with_any path apk_suffixes ≡ false
    → ends_with_any path apt_suffixes ≡ false
    → (if ends_with_any path apk_suffixes
        then apk
        else if ends_with_any path apt_suffixes
        then apt
        else unknown)
      ≡ unknown
no_match path a b = rw (a, b) refl

is_short : (path : Bytes) → ltb (length path) 4 ≡ true → detect_package_suffix path ≡ unknown
unfolding detect_package_suffix
is_short path h = rw h refl

-- A path is one of APK if it ends with a name of APK, else one of APT if it ends with a name of APT,
-- and neither otherwise.
pub detect_package_suffix_lem :
    (path : Bytes)
    → detect_package_suffix path ≡ (
        if ends_with_any path apk_suffixes
        then apk
        else if ends_with_any path apt_suffixes
        then apt
        else unknown)
detect_package_suffix_lem path = elim (Bool-cases (ltb (length path) 4)) [
  | inr long ↦ not_short path long
  | inl short ↦
      let none_apk = short_any path apk_suffixes short (omega arith) in
      let none_apt = short_any path apt_suffixes short (omega arith) in
      is_short path short ∙ sym (no_match path none_apk none_apt)
]
