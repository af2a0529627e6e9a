-- ===== src/Console/Utils.antt =====
-- Texts in the console: `trim` of the language, and `lines` of utils.ts.
use Prim.Native.Char.{Char, code}
use apk_cache.Prelude.{str_eq, ℕ, List, [], ◌∷◌, Bool, ◌&&◌, ◌||◌, String, leb, ◌==◌, if◌then◌else◌}

-- The white space of ECMAScript, line ends included.
unfoldable pub is_space : ℕ → Bool
is_space c =
    leb 9 c && leb c 13
    || c == 0x20
    || c == 0xa0
    || c == 0x1680
    || leb 0x2000 c && leb c 0x200a
    || c == 0x2028
    || c == 0x2029
    || c == 0x202f
    || c == 0x205f
    || c == 0x3000
    || c == 0xfeff

unfoldable pub trim_start : String → String
trim_start String.[] = ""
trim_start (String.◌∷◌ c s) =
    let rest = trim_start s in if is_space (code c) then rest else String.◌∷◌ c s

unfoldable pub trim_end : String → String
trim_end String.[] = ""
trim_end (String.◌∷◌ c s) = elim (trim_end s) [
  | String.[] ↦ if is_space (code c) then "" else String.◌∷◌ c ""
  | String.◌∷◌ d t ↦ String.◌∷◌ c (String.◌∷◌ d t)
]

unfoldable pub trim : String → String
unfolding trim_start trim_end
trim s = trim_end (trim_start s)

-- The first line of a list of lines, with one character more.
unfoldable pub push : Char → List String → List String
push c [] = String.◌∷◌ c "" ∷ []
push c (l ∷ ls) = String.◌∷◌ c l ∷ ls

-- value.split('\n')
unfoldable pub split_lines : String → List String
unfolding push
split_lines String.[] = "" ∷ []
split_lines (String.◌∷◌ c s) =
    let rest = split_lines s in if code c == 0x0a then "" ∷ rest else push c rest

-- .map(item => item.trim()).filter(Boolean)
unfoldable pub trimmed_lines : List String → List String
trimmed_lines [] = []
trimmed_lines (l ∷ ls) =
    let rest = trimmed_lines ls in if str_eq (trim l) "" then rest else trim l ∷ rest

unfoldable pub lines : String → List String
unfolding split_lines trimmed_lines
lines value = trimmed_lines (split_lines value)

-- value.join('\n'), the text in the editor of a list of texts
unfoldable pub before_line : String → String → String
before_line String.[] t = String.◌∷◌ "\n" t
before_line (String.◌∷◌ c s) t = String.◌∷◌ c (before_line s t)

unfoldable pub join_lines : List String → String
unfolding before_line
join_lines [] = ""
join_lines (l ∷ []) = l
join_lines (l ∷ next ∷ rest) = before_line l (join_lines (next ∷ rest))
