-- ===== src/Console/UtilsLaws.antt =====
-- Reading a list of texts back from its editor.
use Prim.Native.Char.{code}
use apk_cache.Prelude.{
  ◌≡◌, ◌≢◌, refl, ap, ◌∙◌, false, String, List, [], ◌∷◌, ◌==◌, eq_iff, All, arith,
}
use apk_cache.Console.Utils.{
  trim, trim_start, trim_end, split_lines, trimmed_lines, lines, before_line, join_lines, push,
}

-- No character of the text ends a line.
abbrev pub IsOneLine : String → Type 0
IsOneLine String.[] = Unit
IsOneLine (String.◌∷◌ c s) = (code c ≢ 0x0a) × IsOneLine s

-- An entry of a list as the editor keeps it: one line, not empty, without white space at its ends.
abbrev pub IsEntry : String → Type 0
IsEntry s = IsOneLine s × (trim s ≡ s) × (s ≢ "")

split_last : (s : String) → IsOneLine s → split_lines s ≡ s ∷ []
unfolding split_lines push
split_last String.[] h = refl
split_last (String.◌∷◌ c s) (hc, hs) =
    let other : (code c == 0x0a) ≡ false = ground arith in rw (other, split_last s hs) refl

split_before : (s t : String) → IsOneLine s → split_lines (before_line s t) ≡ s ∷ split_lines t
unfolding split_lines push before_line
split_before String.[] t h = refl
split_before (String.◌∷◌ c s) t (hc, hs) =
    let other : (code c == 0x0a) ≡ false = ground arith in rw (other, split_before s t hs) refl

keeps_entry :
    (s : String) (rest : List String)
    → IsEntry s
    → trimmed_lines (s ∷ rest) ≡ s ∷ trimmed_lines rest
unfolding trimmed_lines
keeps_entry s rest (_, same, full) = rw same (ground (arith, eq_iff s "", full))

-- The lines of a list of entries joined by line ends are the entries.
pub lines-join_lines : (items : List String) → All IsEntry items → lines (join_lines items) ≡ items
unfolding lines join_lines
lines-join_lines [] h = unfold trim trim_start trim_end in refl
lines-join_lines (s ∷ []) (h, _) =
    ap trimmed_lines (split_last s h.0)
    ∙ keeps_entry s [] h
    ∙ ap (◌∷◌ s) (unfold trimmed_lines in refl)
lines-join_lines (s ∷ next ∷ rest) (h, hs) =
    ap trimmed_lines (split_before s (join_lines (next ∷ rest)) h.0)
    ∙ keeps_entry s (split_lines (join_lines (next ∷ rest))) h
    ∙ ap (◌∷◌ s) (lines-join_lines (next ∷ rest) hs)
