-- ===== src/Console/Components.antt =====
-- components.tsx: what the pages are made of. The text that JSON.stringify gives for a value, indented
-- by 2, is the parameter of JsonBlock, and the decimal text of a number that of Pagination.
use apk_cache.Prelude.{ℕ, ◌+◌, ◌-◌, String, Option, none, some, List, [], ◌∷◌, map, length}
use Prim.Native.String.{◌++◌ as str_append}
use apk_cache.Console.Html.{Html, txt, icon, class_name, attr, disabled, on_click, el}
use apk_cache.Console.Json.{Json}
use apk_cache.Console.Pages.Packages.{page_count, first_page, last_page}

pub data Tone : Type 0 where
  ok_tone warn_tone error_tone : Tone

unfoldable pub tone_name : Tone → String
tone_name ok_tone = "ok"
tone_name warn_tone = "warn"
tone_name error_tone = "error"

-- types.ts, ToastState
pub record ToastState : Type 0 where
  pub message : String
  pub tone : Tone

module _ {A : Type 0} where
  unfoldable pub page : String → List (Html A) → List (Html A) → Html A
  page title actions children = el "section" (class_name "page" ∷ []) (
      el "div" (class_name "page-head" ∷ []) (
        el "h2" [] (txt title ∷ []) ∷ (elim actions [
          | [] ↦ []
          | a ∷ rest ↦ el "div" (class_name "toolbar" ∷ []) (a ∷ rest) ∷ []
        ]))
      ∷ children)

  unfoldable pub panel : String → String → List (Html A) → Html A
  panel title extra_class children =
      el "section" (class_name (str_append "panel " extra_class) ∷ [])
        (el "h3" [] (txt title ∷ []) ∷ el "div" (class_name "body" ∷ []) children ∷ [])

  unfoldable pub metric : String → Html A → Html A
  metric label value = el "div" (class_name "panel metric" ∷ []) (
      el "div" (class_name "label" ∷ []) (txt label ∷ [])
      ∷ el "div" (class_name "value" ∷ []) (value ∷ [])
      ∷ [])

  unfoldable pub status_badge : Html A → Tone → Html A
  status_badge value tone =
      el "span" (class_name (str_append "status " (tone_name tone)) ∷ []) (value ∷ [])

  -- One row of the body, and the row that stands for no rows.
  unfoldable pub table_row : List (Html A) → Html A
  table_row cells = el "tr" [] (map (λ cell. el "td" [] (cell ∷ [])) cells)

  unfoldable pub empty_row : String → Html A
  empty_row columns = el "tr" [] (
      el "td" (attr "colSpan" columns ∷ [])
        (el "div" (class_name "empty" ∷ []) (txt "暂无数据" ∷ []) ∷ [])
      ∷ [])

  unfoldable pub table_body : String → List (List (Html A)) → List (Html A)
  table_body columns [] = empty_row columns ∷ []
  table_body columns (row ∷ rows) = map table_row (row ∷ rows)

  -- The number of the columns is given as a text.
  unfoldable pub data_table : (ℕ → String) → List String → String → List (List (Html A)) → Html A
  data_table decimal columns extra_class rows = el "div" (class_name "table-wrap" ∷ []) (
      el "table" (class_name extra_class ∷ []) (
        el "thead" [] (el "tr" [] (map (λ column. el "th" [] (txt column ∷ [])) columns) ∷ [])
        ∷ el "tbody" [] (table_body (decimal (length columns)) rows)
        ∷ [])
      ∷ [])

  unfoldable pub pagination : (ℕ → String) → ℕ → ℕ → ℕ → (ℕ → A) → Html A
  pagination decimal total page page_size on_page_change = el "div" (class_name "actions" ∷ []) (
      el "span" (class_name "muted" ∷ []) (
        txt "共 "
        ∷ txt (decimal total)
        ∷ txt " 条，第 "
        ∷ txt (decimal page)
        ∷ txt " / "
        ∷ txt (decimal (page_count total page_size))
        ∷ txt " 页"
        ∷ [])
      ∷ el "button"
          (attr "type" "button"
            ∷ disabled (first_page page)
            ∷ on_click (on_page_change (page - 1))
            ∷ [])
          (txt "上一页" ∷ [])
      ∷ el "button"
          (attr "type" "button"
            ∷ disabled (last_page total page page_size)
            ∷ on_click (on_page_change (page + 1))
            ∷ [])
          (txt "下一页" ∷ [])
      ∷ [])

  unfoldable pub code : Html A → Html A
  code child = el "code" (class_name "breakable" ∷ []) (child ∷ [])

  unfoldable pub json_block : (Json → String) → Json → Html A
  json_block print value = el "pre" [] (txt (print value) ∷ [])

  unfoldable pub toast : Option ToastState → A → List (Html A)
  toast none on_close = []
  toast (some t) on_close =
      el "div" (class_name (str_append "toast " (tone_name t.tone)) ∷ []) (
        icon (elim t.tone [
          | ok_tone ↦ "CheckCircle2"
          | warn_tone ↦ "AlertTriangle"
          | error_tone ↦ "AlertTriangle"
        ])
        ∷ el "span" [] (txt t.message ∷ [])
        ∷ el "button"
            (class_name "icon-button"
              ∷ attr "type" "button"
              ∷ on_click on_close
              ∷ attr "aria-label" "关闭通知"
              ∷ [])
            (icon "X" ∷ [])
        ∷ [])
      ∷ []

  unfoldable pub loading_message : Html A
  loading_message = el "p" (class_name "muted" ∷ []) (txt "Loading..." ∷ [])

  unfoldable pub error_message : String → Html A
  error_message message = el "p" (class_name "error" ∷ []) (txt message ∷ [])

  -- <button type="button" onClick={…}>
  abbrev pub button : A → List (Html A) → Html A
  button a children = el "button" (attr "type" "button" ∷ on_click a ∷ []) children
