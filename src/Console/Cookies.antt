-- ===== src/Console/Cookies.antt =====
-- api.ts, lines 64-71: `readCookie`, on the text of `document.cookie`.
use apk_cache.Prelude.{
  ℕ, ◌≡◌, ◌≢◌, refl, ap, ◌∙◌, Bool, true, false, ◌&&◌, Option, none, some, List, [], ◌∷◌, ◌++◌,
  Bytes, codes, bytes_eq, ◌==◌, ==_iff, Bool-cases, inl, inr, if◌then◌else◌, drop, All, map, arith,
}

-- Puts a character before the first piece.
push : ℕ → List Bytes → List Bytes
push c [] = (c ∷ []) ∷ []
push c (p ∷ ps) = (c ∷ p) ∷ ps

-- split('; ')
unfoldable pub split_cookies : Bytes → List Bytes
unfolding push
split_cookies [] = [] ∷ []
split_cookies (c ∷ []) = (c ∷ []) ∷ []
split_cookies (c ∷ d ∷ s) =
    let at_separator = [] ∷ split_cookies s in
    let inside = push c (split_cookies (d ∷ s)) in
    if c == b';' && d == b' ' then at_separator else inside

-- split('=')
unfoldable pub split_equals : Bytes → List Bytes
unfolding push
split_equals [] = [] ∷ []
split_equals (c ∷ s) = let rest = split_equals s in if c == b'=' then [] ∷ rest else push c rest

-- join('=')
unfoldable pub join_equals : List Bytes → Bytes
join_equals [] = []
join_equals (p ∷ []) = p
join_equals (p ∷ q ∷ ps) = p ++ b'=' ∷ join_equals (q ∷ ps)

-- startsWith
unfoldable pub starts_with : Bytes → Bytes → Bool
starts_with [] s = true
starts_with (p ∷ ps) [] = false
starts_with (p ∷ ps) (c ∷ s) = p == c && starts_with ps s

-- find(item => item.startsWith(name + '='))
unfoldable pub find_cookie : Bytes → List Bytes → Option Bytes
unfolding starts_with
find_cookie prefix [] = none
find_cookie prefix (item ∷ items) =
    if starts_with prefix item then some item else find_cookie prefix items

abbrev value_of : Option Bytes → Bytes
value_of none = []
value_of (some item) = join_equals (drop 1 (split_equals item))

unfoldable pub read_cookie : Bytes → Bytes → Bytes
unfolding split_cookies find_cookie split_equals join_equals
read_cookie name cookies = value_of (find_cookie (name ++ codes "=") (split_cookies cookies))

-- The text that a browser gives for its cookies.
abbrev pub entry : Bytes × Bytes → Bytes
entry (name, value) = name ++ b'=' ∷ value

unfoldable pub render_cookies : List (Bytes × Bytes) → Bytes
render_cookies [] = []
render_cookies (c ∷ []) = entry c
render_cookies (c ∷ next ∷ rest) = entry c ++ b';' ∷ b' ' ∷ render_cookies (next ∷ rest)

-- The first cookie of the name, or the empty text.
unfoldable pub cookie : Bytes → List (Bytes × Bytes) → Bytes
cookie name [] = []
cookie name ((n, value) ∷ rest) = if bytes_eq name n then value else cookie name rest

abbrev pub Lacks : ℕ → Bytes → Type 0
Lacks c = All (λ b. b ≢ c)

-- No cookie's name or value has a semicolon, and no name an equals sign.
abbrev pub IsPlain : Bytes × Bytes → Type 0
IsPlain (name, value) = Lacks b'=' name × Lacks b';' name × Lacks b';' value

Lacks-append : (c : ℕ) (s t : Bytes) → Lacks c s → Lacks c t → Lacks c (s ++ t)
Lacks-append c [] t hs ht = ht
Lacks-append c (b ∷ s) t hs ht = (hs.0, Lacks-append c s t hs.1 ht)

split_cookies_step :
    (c d : ℕ) (s : Bytes) → c ≢ b';' → split_cookies (c ∷ d ∷ s) ≡ push c (split_cookies (d ∷ s))
unfolding split_cookies
split_cookies_step c d s h = elim (Bool-cases (c == b';')) [
  | inl e ↦ absurd (h ((==_iff c b';').0 e))
  | inr e ↦ rw e refl
]

split_cookies-append :
    (p rest : Bytes)
    → Lacks b';' p
    → split_cookies (p ++ b';' ∷ b' ' ∷ rest) ≡ p ∷ split_cookies rest
split_cookies-append [] rest h = unfold split_cookies in refl
split_cookies-append (c ∷ []) rest h =
    rw (split_cookies_step c b';' (b' ' ∷ rest) h.0) (unfold split_cookies in refl)
split_cookies-append (c ∷ d ∷ p) rest h =
    rw (split_cookies_step c d (p ++ b';' ∷ b' ' ∷ rest) h.0, split_cookies-append (d ∷ p) rest h.1)
      (unfold split_cookies in refl)

split_cookies_last : (p : Bytes) → Lacks b';' p → split_cookies p ≡ p ∷ []
split_cookies_last [] h = unfold split_cookies in refl
split_cookies_last (c ∷ []) h = unfold split_cookies in refl
split_cookies_last (c ∷ d ∷ p) h =
    rw (split_cookies_step c d p h.0, split_cookies_last (d ∷ p) h.1) (unfold split_cookies in refl)

split_equals-append :
    (n v : Bytes) → Lacks b'=' n → split_equals (n ++ b'=' ∷ v) ≡ n ∷ split_equals v
unfolding split_equals
split_equals-append [] v h = refl
split_equals-append (c ∷ n) v h = ground (arith, h.0, split_equals-append n v h.1)

-- A split has a first piece.
split_equals_first : (v : Bytes) → (p : Bytes) × (ps : List Bytes) × (split_equals v ≡ p ∷ ps)
unfolding split_equals
split_equals_first [] = ([], [], refl)
split_equals_first (c ∷ v) =
    let (p, ps, e) = split_equals_first v in
    elim (Bool-cases (c == b'=')) [
      | inl here ↦ ([], split_equals v, rw here refl)
      | inr other ↦ (c ∷ p, ps, rw (other, e) refl)
    ]

join-push :
    (c : ℕ) (p : Bytes) (ps : List Bytes) → join_equals ((c ∷ p) ∷ ps) ≡ c ∷ join_equals (p ∷ ps)
unfolding join_equals
join-push c p [] = refl
join-push c p (q ∷ ps) = refl

join_first : (p : Bytes) (ps : List Bytes) → join_equals ([] ∷ p ∷ ps) ≡ b'=' ∷ join_equals (p ∷ ps)
unfolding join_equals
join_first p ps = refl

join-split : (v : Bytes) → join_equals (split_equals v) ≡ v
unfolding split_equals
join-split [] = unfold join_equals in refl
join-split (c ∷ v) =
    let (p, ps, e) = split_equals_first v in
    let tail : join_equals (p ∷ ps) ≡ v = rw (← e) (join-split v) in
    elim (Bool-cases (c == b'=')) [
      | inl here ↦
          let is_equals : c ≡ b'=' = (==_iff c b'=').0 here in
          rw (here, e) (join_first p ps ∙ cc (is_equals, tail))
      | inr other ↦ rw (other, e) (join-push c p ps ∙ ap (◌∷◌ c) tail)
    ]

starts_with-name :
    (n m v : Bytes)
    → Lacks b'=' n
    → Lacks b'=' m
    → starts_with (n ++ codes "=") (m ++ b'=' ∷ v) ≡ bytes_eq n m
unfolding starts_with bytes_eq
starts_with-name [] [] v hn hm = refl
starts_with-name [] (b ∷ m) v hn hm = ground (arith, hm.0)
starts_with-name (a ∷ n) [] v hn hm = ground (arith, hn.0)
starts_with-name (a ∷ n) (b ∷ m) v hn hm = ground (arith, starts_with-name n m v hn.1 hm.1)

value_of-some : (n v : Bytes) → Lacks b'=' n → value_of (some (n ++ b'=' ∷ v)) ≡ v
value_of-some n v h = rw (split_equals-append n v h) (join-split v)

Lacks-entry : (c : Bytes × Bytes) → IsPlain c → Lacks b';' (entry c)
Lacks-entry (name, value) h = Lacks-append b';' name (b'=' ∷ value) h.1 (omega arith, h.2)

split-render :
    (c : Bytes × Bytes) (cs : List (Bytes × Bytes))
    → All IsPlain (c ∷ cs)
    → split_cookies (render_cookies (c ∷ cs)) ≡ map entry (c ∷ cs)
unfolding render_cookies
split-render c [] h = split_cookies_last (entry c) (Lacks-entry c h.0)
split-render c (d ∷ cs) h =
    split_cookies-append (entry c) (render_cookies (d ∷ cs)) (Lacks-entry c h.0)
    ∙ ap (◌∷◌ (entry c)) (split-render d cs h.1)

find-entries :
    (name : Bytes) (cs : List (Bytes × Bytes))
    → Lacks b'=' name
    → All IsPlain cs
    → value_of (find_cookie (name ++ codes "=") (map entry cs)) ≡ cookie name cs
unfolding find_cookie cookie
find-entries name [] hn h = refl
find-entries name ((n, v) ∷ cs) hn h = elim (Bool-cases (bytes_eq name n)) [
  | inl same ↦ rw (starts_with-name name n v hn h.0.0, same) (value_of-some n v h.0.0)
  | inr other ↦ rw (starts_with-name name n v hn h.0.0, other) (find-entries name cs hn h.1)
]

starts_with-nil : (name : Bytes) (c : ℕ) → starts_with (name ++ c ∷ []) [] ≡ false
unfolding starts_with
starts_with-nil [] c = refl
starts_with-nil (b ∷ name) c = refl

-- `readCookie` gives the value of the first cookie of the name, and the empty text if there is none,
-- for every list of cookies whose texts have no semicolon and whose names have no equals sign. The
-- value itself may have equals signs.
pub read_cookie-render_cookies :
    (name : Bytes) (cookies : List (Bytes × Bytes))
    → Lacks b'=' name
    → All IsPlain cookies
    → read_cookie name (render_cookies cookies) ≡ cookie name cookies
unfolding read_cookie
read_cookie-render_cookies name [] hn h =
    unfold render_cookies split_cookies find_cookie cookie in rw (starts_with-nil name b'=')
read_cookie-render_cookies name (c ∷ cs) hn h =
    rw (split-render c cs h) (find-entries name (c ∷ cs) hn h)
