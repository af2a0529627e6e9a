-- ===== src/Console/Pages/EditorLaws.antt =====
-- What the editors of the settings can change.
use mathlib.Core.Option.{some-injective}
use mathlib.Core.Bool.{true≢false}
use apk_cache.Prelude.{
  String, Bool, true, false, ◌≡◌, refl, sym, ap, ◌∙◌, inl, inr, Option, none, some, List, [], ◌∷◌,
  str_eq, eq_iff, if◌then◌else◌, Bool-cases, arith,
}
use apk_cache.Console.Json.{Json, flag, text, arr}
use apk_cache.Console.Html.{is_disabled, Sends, Sends-Only}
use apk_cache.Console.Utils.{lines}
use apk_cache.Console.Pages.Config.{
  Setting, SettingSchema, ValueType, string_type, bool_type, int_type, strings_type, Dict, lookup,
  put, draft_of, ConfigPage, schema_map, changed_settings,
}
use apk_cache.Console.Pages.ConfigLaws.{
  find_setting, DistinctKeys, expected, lookup-put, lookup-changed_settings,
}
use apk_cache.Console.Pages.ConfigView.{
  editor_disabled, is_toggle, items_of, Texts, text_editor, toggle_editor, value_editor, editor,
}

-- What an editor sends: the value of its kind of input.
abbrev pub IsInput : Texts → ValueType → Json → Type 0
IsInput texts int_type v = (t : String) × (texts.number_of t ≡ v)
IsInput texts strings_type v = (t : String) × (arr (items_of (lines t)) ≡ v)
IsInput texts bool_type v = (t : String) × (text t ≡ v)
IsInput texts string_type v = (t : String) × (text t ≡ v)

module _ (texts : Texts) where
  value_editor-IsInput :
      (type : ValueType) (schema : Option SettingSchema) (value : Option Json) (off : Bool)
      (v : Json)
      → Sends (value_editor texts (λ v. v) type schema value off) v
      → (off ≡ false) × IsInput texts type v
  unfolding value_editor text_editor is_disabled
  value_editor-IsInput type schema value off v s = (enabled type off s, kind type s)
    where
      enabled :
          (type : ValueType) (off : Bool)
          → Sends (value_editor texts (λ v. v) type schema value off) v
          → off ≡ false
      enabled type false s = refl
      enabled int_type true s = absurd (grind arith)
      enabled strings_type true s = absurd (grind arith)
      enabled bool_type true s = absurd (grind arith)
      enabled string_type true s = absurd (grind arith)

      kind :
          (type : ValueType)
          → Sends (value_editor texts (λ v. v) type schema value off) v
          → IsInput texts type v
      kind int_type s =
          Sends-Only (IsInput texts int_type)
            (value_editor texts (λ v. v) int_type schema value off) v
            ((tt, (tt, (tt, (tt, ((λ t. (t, refl)), tt))))), tt) s
      kind strings_type s =
          Sends-Only (IsInput texts strings_type)
            (value_editor texts (λ v. v) strings_type schema value off) v
            ((tt, (tt, ((λ t. (t, refl)), tt))), tt) s
      kind bool_type s =
          Sends-Only (IsInput texts bool_type)
            (value_editor texts (λ v. v) bool_type schema value off) v
            ((tt, (tt, (tt, ((λ t. (t, refl)), tt)))), tt) s
      kind string_type s =
          Sends-Only (IsInput texts string_type)
            (value_editor texts (λ v. v) string_type schema value off) v
            ((tt, (tt, (tt, ((λ t. (t, refl)), tt)))), tt) s

  toggle_editor-flag :
      (value : Option Json) (off : Bool) (v : Json)
      → Sends (toggle_editor texts (λ v. v) value off) v
      → (off ≡ false) × ((b : Bool) × (flag b ≡ v))
  unfolding toggle_editor is_disabled
  toggle_editor-flag value off v s = (enabled off s, sent)
    where
      enabled : (off : Bool) → Sends (toggle_editor texts (λ v. v) value off) v → off ≡ false
      enabled false s = refl
      enabled true s = absurd (grind arith)

      sent : (b : Bool) × (flag b ≡ v)
      sent =
          Sends-Only (λ v. (b : Bool) × (flag b ≡ v)) (toggle_editor texts (λ v. v) value off) v
            ((tt, tt), (((tt, (tt, (tt, ((λ b. (b, refl)), tt)))), tt), ((tt, (tt, tt)), tt))) s

  -- An editor sends a value only if neither the setting nor its schema forbids it, and then a value of its
  -- kind: a flag from a toggle, and otherwise a number, a list of lines or a text by the setting's type.
  pub editor_lem :
      (setting : Setting) (schema : Option SettingSchema) (value : Option Json) (v : Json)
      → Sends (editor texts (λ v. v) setting schema value) v
      → (editor_disabled setting schema ≡ false)
        × (if is_toggle setting schema
            then ((b : Bool) × (flag b ≡ v))
            else IsInput texts setting.value_type v)
  unfolding editor
  editor_lem setting schema value v s = elim (Bool-cases (is_toggle setting schema)) [
    | inl e ↦
        rw e (toggle_editor-flag value (editor_disabled setting schema) v (rw (e, editor) at s))
    | inr e ↦ rw e (
        value_editor-IsInput setting.value_type schema value (editor_disabled setting schema) v
          (rw (e, editor) at s))
  ]

  -- The drafts that the editors of a page can make, one input after another.
  pub data Edited (s : ConfigPage) : Dict Json → Type 0 where
    begin : Edited s (draft_of s.settings [])
    edits :
        {draft : Dict Json} (setting : Setting) (v : Json)
        → Edited s draft
        → find_setting setting.key s.settings ≡ some setting
        → Sends
            (editor texts
              (λ v. v)
              setting
              (lookup setting.key (schema_map s.schema []))
              (lookup setting.key draft))
            v
        → Edited s (put setting.key v draft)

  -- A setting that may not be edited keeps its value.
  Edited-keeps :
      (s : ConfigPage) (setting : Setting) (draft : Dict Json)
      → find_setting setting.key s.settings ≡ some setting
      → editor_disabled setting (lookup setting.key (schema_map s.schema [])) ≡ true
      → Edited s draft
      → lookup setting.key draft ≡ lookup setting.key (draft_of s.settings [])
  Edited-keeps s setting _ found off begin = refl
  Edited-keeps s setting _ found off (edits {draft} other v before other_found sends) =
      elim (Bool-cases (str_eq other.key setting.key)) [
        | inr e ↦
            rw (lookup-put other.key setting.key v draft, e)
              (Edited-keeps s setting draft found off before)
        | inl e ↦
            let key : other.key ≡ setting.key = (eq_iff other.key setting.key).0 e in
            let same : other ≡ setting =
              some-injective other setting
                (sym other_found ∙ ap (λ k. find_setting k s.settings) key ∙ found) in
            let on =
              (editor_lem other (lookup other.key (schema_map s.schema [])) (lookup other.key draft)
                v sends).0 in
            absurd (true≢false (sym off ∙ (rw same at on)))
      ]

  lookup-draft_of :
      (key : String) (settings : List Setting) (d : Dict Json)
      → DistinctKeys settings
      → lookup key (draft_of settings d) ≡ (elim (find_setting key settings) [
        | none ↦ lookup key d
        | some setting ↦ some setting.value
      ])
  unfolding draft_of find_setting
  lookup-draft_of key [] d h = refl
  lookup-draft_of key (setting ∷ rest) d h =
      let ih = lookup-draft_of key rest (put setting.key setting.value d) h.1 in
      elim (Bool-cases (str_eq setting.key key)) [
        | inl e ↦
            let same : setting.key ≡ key = (eq_iff setting.key key).0 e in
            let gone : find_setting key rest ≡ none = rw same at h.0 in
            rw e ((rw gone at ih) ∙ lookup-put setting.key key setting.value d ∙ rw e refl)
        | inr e ↦
            (let skip = rw e at (lookup-put setting.key key setting.value d) in
              rw e (
                ih
                ∙ ap (λ o. elim (find_setting key rest) [ none ↦ o | some x ↦ some x.value ]) skip))
      ]

  -- However a user edits the settings that the page has loaded, a setting that itself or by its schema
  -- may not be edited is never among those that are saved.
  pub uneditable_unsent :
      (stringify : Option Json → String) (s : ConfigPage) (draft : Dict Json) (setting : Setting)
      → DistinctKeys s.settings
      → find_setting setting.key s.settings ≡ some setting
      → editor_disabled setting (lookup setting.key (schema_map s.schema [])) ≡ true
      → Edited s draft
      → lookup setting.key (changed_settings stringify (record s { draft = draft })) ≡ none
  unfolding expected
  uneditable_unsent stringify s draft setting distinct found off edited =
      let kept = Edited-keeps s setting draft found off edited in
      let loaded = rw found at (lookup-draft_of setting.key s.settings [] distinct) in
      let value : lookup setting.key draft ≡ some setting.value = kept ∙ loaded in
      lookup-changed_settings stringify (record s { draft = draft }) setting.key distinct
      ∙ rw (found, value, expected)
          (ground (arith, eq_iff (stringify (some setting.value)) (stringify (some setting.value))))
