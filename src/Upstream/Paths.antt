-- ===== src/Upstream/Paths.antt =====
-- upstream.go, lines 189-240: BuildURL, joinPath, splitSegments and min. A URL is taken apart and
-- printed by the net/url package.
use apk_cache.Prelude.{
  ℕ, zero, suc, ◌+◌, ◌-◌, Bool, true, false, not, ◌&&◌, none, some, List, [], ◌∷◌, ◌++◌, ◌⊎◌, inl,
  inr, Bytes, bytes_eq, String, length, drop, get_elem?, ltb, ◌==◌, if◌then◌else◌,
}

-- The code of a slash
abbrev pub slash : ℕ
slash = 47

unfoldable pub trim_start : Bytes → Bytes
trim_start [] = []
trim_start (b ∷ s) = let trimmed = trim_start s in if b == slash then trimmed else b ∷ s

unfoldable pub trim_end : Bytes → Bytes
trim_end [] = []
trim_end (b ∷ s) = elim (trim_end s) [
  | [] ↦ if b == slash then [] else b ∷ []
  | c ∷ rest ↦ b ∷ c ∷ rest
]

-- A byte in front of the first of the segments.
unfoldable pub push : ℕ → List Bytes → List Bytes
push b [] = (b ∷ []) ∷ []
push b (segment ∷ segments) = (b ∷ segment) ∷ segments

-- strings.Split(path, "/")
unfoldable pub split : Bytes → List Bytes
split [] = [] ∷ []
split (b ∷ s) = let segments = split s in if b == slash then [] ∷ segments else push b segments

unfoldable pub split_segments : Bytes → List Bytes
split_segments path = elim (trim_end (trim_start path)) [ [] ↦ [] | b ∷ s ↦ split (b ∷ s) ]

-- strings.Join(segments, "/")
unfoldable pub join : List Bytes → Bytes
join [] = []
join (segment ∷ []) = segment
join (segment ∷ next ∷ rest) = segment ++ slash ∷ join (next ∷ rest)

unfoldable pub min : ℕ → ℕ → ℕ
min a b = if ltb a b then a else b

unfoldable pub same_at : List Bytes → ℕ → List Bytes → ℕ → Bool
same_at xs i ys j = elim (get_elem? xs i) [
  | none ↦ false
  | some x ↦ elim (get_elem? ys j) [ none ↦ false | some y ↦ bytes_eq x y ]
]

-- The inner loop from `i` on, with `left` rounds left.
unfoldable pub matched : List Bytes → List Bytes → ℕ → ℕ → ℕ → Bool
unfolding same_at
matched base request size i zero = true
matched base request size i (suc left) =
    let rest = matched base request size (suc i) left in
    if not (same_at base ((length base - size) + i) request i) then false else rest

-- The outer loop, from `size` down.
unfoldable pub overlap : List Bytes → List Bytes → ℕ → ℕ
overlap base request zero = 0
overlap base request (suc size) =
    let smaller = overlap base request size in
    if matched base request (suc size) 0 (suc size) then suc size else smaller

unfoldable pub combined : List Bytes → List Bytes → List Bytes
combined base request =
    base ++ drop (overlap base request (min (length base) (length request))) request

unfoldable pub ends_in_slash : Bytes → Bool
ends_in_slash [] = false
ends_in_slash (b ∷ []) = b == slash
ends_in_slash (b ∷ c ∷ s) = ends_in_slash (c ∷ s)

unfoldable pub join_path : Bytes → Bytes → Bytes
join_path base_path request_path =
    elim (combined (split_segments base_path) (split_segments request_path)) [
      | [] ↦ slash ∷ []
      | segment ∷ segments ↦
          let joined = slash ∷ join (segment ∷ segments) in
          if ends_in_slash request_path && not (bytes_eq joined (slash ∷ []))
          then joined ++ (slash ∷ [])
          else joined
    ]

-- What BuildURL changes of a url.URL, and all else of it.
pub record Url : Type 0 where
  pub path : Bytes
  pub raw_path : Bytes
  pub raw_query : Bytes
  pub others : List Bytes

unfoldable pub build_url : (Bytes → String ⊎ Url) → (Url → Bytes) → Bytes → Bytes → String ⊎ Bytes
build_url parse print base_url request_path = elim (parse base_url) [
  | inl err ↦ inl err
  | inr parsed ↦ inr (
      print (record parsed {
        path = join_path parsed.path request_path;
        raw_path = [];
        raw_query = [];
      }))
]
