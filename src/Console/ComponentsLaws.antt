-- ===== src/Console/ComponentsLaws.antt =====
-- What the components of the pages send.
use apk_cache.Prelude.{
  ℕ, ◌+◌, ◌-◌, ◌≤◌, ◌≡◌, ◌↔◌, ◌⊎◌, sym, ap, ◌∙◌, inl, inr, String, List, [], ◌∷◌, map, length, All,
  arith,
}
use apk_cache.Console.Html.{
  Html, Attr, class_name, txt, nodes, el, is_disabled, SomeSends, Sends, NodesSend,
}
use apk_cache.Console.Components.{table_row, empty_row, table_body, data_table, pagination}
use apk_cache.Console.Pages.Packages.{page_count, first_page, last_page}

module _ {A : Type 0} where
  -- An element that sends nothing.
  abbrev pub IsQuiet : Html A → Type 0
  IsQuiet h = (m : A) → ¬ Sends h m

  pub nodes-IsQuiet : (hs : List (Html A)) → All IsQuiet hs → (m : A) → ¬ NodesSend (nodes hs) m
  nodes-IsQuiet [] h m s = s
  nodes-IsQuiet (x ∷ hs) h m (inl s) = h.0 m s
  nodes-IsQuiet (x ∷ hs) h m (inr s) = nodes-IsQuiet hs h.1 m s

  -- An element without handlers sends what its children send.
  pub el-IsQuiet :
      (name : String) (attrs : List (Attr A)) (hs : List (Html A))
      → ((m : A) → ¬ SomeSends attrs m)
      → All IsQuiet hs
      → IsQuiet (el name attrs hs)
  el-IsQuiet name attrs hs a h m (inl s) = a m s.1
  el-IsQuiet name attrs hs a h m (inr s) = nodes-IsQuiet hs h m s

  pub plain-IsQuiet :
      (name : String) (hs : List (Html A)) → All IsQuiet hs → IsQuiet (el name [] hs)
  plain-IsQuiet name hs h = el-IsQuiet name [] hs (λ m s. s) h

  -- class_name and the like are no handlers.
  pub one_attr : (c : String) (m : A) → ¬ SomeSends (class_name c ∷ []) m
  one_attr c m s = elim s [ inl x ↦ x | inr x ↦ x ]

  All-map :
      {B : Type 0} (f : B → Html A) (xs : List B)
      → ((x : B) → IsQuiet (f x))
      → All IsQuiet (map f xs)
  All-map f [] h = tt
  All-map f (x ∷ xs) h = (h x, All-map f xs h)

  cells-IsQuiet :
      (cells : List (Html A))
      → All IsQuiet cells
      → All IsQuiet (map (λ cell. el "td" [] (cell ∷ [])) cells)
  cells-IsQuiet [] h = tt
  cells-IsQuiet (c ∷ cells) h = (plain-IsQuiet "td" (c ∷ []) (h.0, tt), cells-IsQuiet cells h.1)

  rows-IsQuiet :
      (rows : List (List (Html A))) → All (All IsQuiet) rows → All IsQuiet (map table_row rows)
  unfolding table_row
  rows-IsQuiet [] h = tt
  rows-IsQuiet (r ∷ rows) h = (
    plain-IsQuiet "tr" (map (λ cell. el "td" [] (cell ∷ [])) r) (cells-IsQuiet r h.0),
    rows-IsQuiet rows h.1,
  )

  body-IsQuiet :
      (columns : String) (rows : List (List (Html A)))
      → All (All IsQuiet) rows
      → All IsQuiet (table_body columns rows)
  unfolding table_body empty_row
  body-IsQuiet columns [] h = ((λ m s. absurd (grind arith)), tt)
  body-IsQuiet columns (r ∷ rows) h = rows-IsQuiet (r ∷ rows) h

  -- A table of cells that send nothing sends nothing.
  pub data_table-IsQuiet :
      (decimal : ℕ → String) (columns : List String) (extra_class : String)
      (rows : List (List (Html A)))
      → All (All IsQuiet) rows
      → IsQuiet (data_table decimal columns extra_class rows)
  unfolding data_table
  data_table-IsQuiet decimal columns extra_class rows h =
      let cells : List (Html A) = map (λ column. el "th" [] (txt column ∷ [])) columns in
      let head = el "thead" [] (el "tr" [] cells ∷ []) in
      let body = el "tbody" [] (table_body (decimal (length columns)) rows) in
      let table = el "table" (class_name extra_class ∷ []) (head ∷ body ∷ []) in
      let head_quiet : IsQuiet head = plain-IsQuiet "thead" (el "tr" [] cells ∷ []) (
        plain-IsQuiet "tr" cells (
            All-map {B = String} (λ column. el "th" [] (txt column ∷ [])) columns
              (λ column. plain-IsQuiet "th" (txt column ∷ []) ((λ m s. s), tt))),
        tt,
      ) in
      let body_quiet : IsQuiet body =
        plain-IsQuiet "tbody" (table_body (decimal (length columns)) rows)
          (body-IsQuiet (decimal (length columns)) rows h) in
      let table_quiet : IsQuiet table =
        el-IsQuiet "table" (class_name extra_class ∷ []) (head ∷ body ∷ []) (one_attr extra_class)
          (head_quiet, (body_quiet, tt)) in
      el-IsQuiet "div" (class_name "table-wrap" ∷ []) (table ∷ []) (one_attr "table-wrap")
        (table_quiet, tt)

  -- The pages that the buttons of Pagination lead to: the one before, if there is one, and the next one,
  -- if it is within the pages of the rows.
  pub pagination_iff :
      (decimal : ℕ → String) (total shown size : ℕ) (turn : ℕ → A) (m : A)
      → Sends (pagination decimal total shown size turn) m ↔ (
          (n : ℕ) × (turn n ≡ m)
          × (((n + 1 ≡ shown) × (1 ≤ n)) ⊎ ((n ≡ shown + 1) × (n ≤ page_count total size))))
  unfolding pagination is_disabled first_page last_page
  pagination_iff decimal total shown size turn m = (to, from)
    where
      to :
          Sends (pagination decimal total shown size turn) m
          → (n : ℕ) × (turn n ≡ m)
            × (((n + 1 ≡ shown) × (1 ≤ n)) ⊎ ((n ≡ shown + 1) × (n ≤ page_count total size)))
      to (inl (e, s)) = absurd (grind arith)
      to (inr (inl s)) = absurd (grind arith)
      to (inr (inr (inl (inl (e, s))))) = (shown - 1, grind (arith, e, s), inl (ground (arith, e)))
      to (inr (inr (inl (inr s)))) = absurd (grind arith)
      to (inr (inr (inr (inl (inl (e, s)))))) =
          (shown + 1, grind (arith, e, s), inr (ground (arith, e)))
      to (inr (inr (inr (inl (inr s))))) = absurd (grind arith)
      to (inr (inr (inr (inr s)))) = absurd s

      from :
          ((n : ℕ) × (turn n ≡ m)
            × (((n + 1 ≡ shown) × (1 ≤ n)) ⊎ ((n ≡ shown + 1) × (n ≤ page_count total size))))
          → Sends (pagination decimal total shown size turn) m
      from (n, h, inl (e, le)) =
          let same : shown - 1 ≡ n = omega (arith, e) in
          inr (inr (inl (inl (ground (arith, e, le), inr (inr (inl (ap turn same ∙ h)))))))
      from (n, h, inr (e, le)) =
          inr (inr (inr (inl (inl (ground (arith, e, le), inr (inr (inl (ap turn (sym e) ∙ h))))))))
