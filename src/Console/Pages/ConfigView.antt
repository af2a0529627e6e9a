-- ===== src/Console/Pages/ConfigView.antt =====
-- What the page of the settings shows (pages/ConfigPage.tsx, lines 10-19, 46-55 and 80-131): the
-- settings by their groups, each with an editor. The numbers that the language reads from a text, and
-- the texts that it shows for a value, are parameters.
use Prim.Native.Char.{code}
use mathlib.Core.Option.{get_or}
use apk_cache.Prelude.{
  ℕ, String, Bool, true, false, not, ◌||◌, ◌&&◌, Option, none, some, List, [], ◌∷◌, ◌++◌, map,
  str_eq, ◌==◌, if◌then◌else◌,
}
use apk_cache.Console.Json.{Json, null, flag, num, text, arr, obj, Items, nil, cons}
use apk_cache.Console.Html.{
  Html, txt, icon, class_name, attr, checked, disabled, on_click, on_change, on_check, el, when,
}
use apk_cache.Console.Components.{
  ok_tone, warn_tone, page, panel, status_badge, data_table, loading_message, error_message, button,
}
use apk_cache.Console.Utils.{lines}
use apk_cache.Console.Pages.Config.{
  Setting, SettingSchema, ValueType, string_type, bool_type, int_type, strings_type, Dict, lookup,
  put, ConfigPage, schema_map,
}

unfoldable pub group_label : String → String
group_label group =
    if str_eq group "runtime"
    then "基础运行"
    else if str_eq group "cache"
    then "缓存目录与 TTL"
    else if str_eq group "memory"
    then "内存缓存"
    else if str_eq group "transport"
    then "网络传输"
    else if str_eq group "apk"
    then "APK"
    else if str_eq group "apt"
    then "APT"
    else if str_eq group "proxy"
    then "代理"
    else if str_eq group "hash_store"
    then "Hash Store"
    else group

-- key.split('.')[0]
unfoldable pub before_dot : String → String
before_dot String.[] = ""
before_dot (String.◌∷◌ c s) =
    let rest = before_dot s in if code c == 46 then "" else String.◌∷◌ c rest

-- key.startsWith(prefix)
unfoldable pub starts_with : String → String → Bool
starts_with String.[] s = true
starts_with (String.◌∷◌ p ps) String.[] = false
starts_with (String.◌∷◌ p ps) (String.◌∷◌ c s) = code p == code c && starts_with ps s

unfoldable pub group_by_key : String → String
group_by_key key = if starts_with "hash_store." key then "hash_store" else before_dot key

unfoldable pub group_of : Dict SettingSchema → Setting → String
group_of schemas setting = elim (lookup setting.key schemas) [
  | none ↦ group_by_key setting.key
  | some item ↦ if str_eq item.group "" then group_by_key setting.key else item.group
]

-- out.set(group, [...(out.get(group) || []), setting])
unfoldable pub extend : String → Setting → Dict (List Setting) → Dict (List Setting)
extend group setting out = put group (get_or (lookup group out) [] ++ (setting ∷ [])) out

unfoldable pub add_to_groups :
    Dict SettingSchema → List Setting → Dict (List Setting) → Dict (List Setting)
add_to_groups schemas [] out = out
add_to_groups schemas (setting ∷ rest) out =
    add_to_groups schemas rest (extend (group_of schemas setting) setting out)

unfoldable pub groups : ConfigPage → Dict (List Setting)
groups s = add_to_groups (schema_map s.schema []) s.settings []

-- setting.editable === false || schema?.editable === false
unfoldable pub editor_disabled : Setting → Option SettingSchema → Bool
editor_disabled setting schema =
    not setting.editable || elim schema [ none ↦ false | some item ↦ not item.editable ]

-- Boolean(value)
unfoldable pub truthy : Option Json → Bool
truthy none = false
truthy (some null) = false
truthy (some (flag b)) = b
truthy (some (num n)) = not (n == 0)
truthy (some (text t)) = not (str_eq t "")
truthy (some (arr items)) = true
truthy (some (obj fields)) = true

unfoldable pub is_toggle : Setting → Option SettingSchema → Bool
is_toggle setting schema = elim setting.value_type [
  | bool_type ↦ true
  | string_type ↦ control
  | int_type ↦ control
  | strings_type ↦ control
]
  where
    control : Bool
    control = elim schema [ none ↦ false | some item ↦ str_eq item.control "toggle" ]

unfoldable pub items_of : List String → Items
items_of [] = nil
items_of (t ∷ ts) = cons (text t) (items_of ts)

-- Number(event.target.value), Number(value || 0) as a text, String(value ?? ''), and the lines of an
-- array, joined
pub record Texts : Type 0 where
  pub number_of : String → Json
  pub number_text : Option Json → String
  pub value_text : Option Json → String
  pub array_text : Option Json → String

-- The messages of the page.
pub data ConfigMessage : Type 0 where
  edited : String → Json → ConfigMessage
  saved validated reloaded : ConfigMessage

module _ (texts : Texts) where
  unfoldable pub text_editor :
      {A : Type 0} → (Json → A) → Option SettingSchema → Option Json → Bool → Html A
  text_editor send schema value off =
      el "input"
        (attr "type" (elim schema [
          | none ↦ "text"
          | some item ↦ if item.sensitive then "password" else "text"
        ])
          ∷ attr "value" (texts.value_text value)
          ∷ disabled off
          ∷ on_change (λ t. send (text t))
          ∷ [])
        []

  unfoldable pub toggle_editor : {A : Type 0} → (Json → A) → Option Json → Bool → Html A
  toggle_editor send value off = el "label" (class_name "check-row inline-check" ∷ []) (
      el "input"
        (attr "type" "checkbox"
          ∷ checked (truthy value)
          ∷ disabled off
          ∷ on_check (λ b. send (flag b))
          ∷ [])
        []
      ∷ el "span" [] (txt (if truthy value then "启用" else "禁用") ∷ [])
      ∷ [])

  -- The editor of a setting that is no toggle, by its type.
  unfoldable pub value_editor :
      {A : Type 0} → (Json → A) → ValueType → Option SettingSchema → Option Json → Bool → Html A
  unfolding text_editor
  value_editor send int_type schema value off =
      el "input"
        (attr "type" "number"
          ∷ attr "min" "0"
          ∷ attr "value" (texts.number_text value)
          ∷ disabled off
          ∷ on_change (λ t. send (texts.number_of t))
          ∷ [])
        []
  value_editor send strings_type schema value off =
      el "textarea"
        (attr "value" (texts.array_text value)
          ∷ disabled off
          ∷ on_change (λ t. send (arr (items_of (lines t))))
          ∷ [])
        []
  value_editor send bool_type schema value off = text_editor send schema value off
  value_editor send string_type schema value off = text_editor send schema value off

  unfoldable pub editor :
      {A : Type 0} → (Json → A) → Setting → Option SettingSchema → Option Json → Html A
  editor send setting schema value =
      if is_toggle setting schema
      then toggle_editor send value (editor_disabled setting schema)
      else value_editor send setting.value_type schema value (editor_disabled setting schema)

  unfoldable pub setting_name : Setting → Option SettingSchema → Html ConfigMessage
  setting_name setting schema = el "div" (class_name "setting-name" ∷ []) (
      el "strong" [] (
        txt (elim schema [
          | none ↦ setting.key
          | some item ↦ if str_eq item.title "" then setting.key else item.title
        ])
        ∷ [])
      ∷ el "code" [] (txt setting.key ∷ [])
      ∷ (elim schema [
        | none ↦ []
        | some item ↦
            when (not (str_eq item.description "")) (el "span" [] (txt item.description ∷ []))
      ]))

  unfoldable pub setting_row : ConfigPage → Setting → List (Html ConfigMessage)
  setting_row s setting =
      let schema = lookup setting.key (schema_map s.schema []) in
      setting_name setting schema
      ∷ editor (edited setting.key) setting schema (lookup setting.key s.draft)
      ∷ txt (if str_eq setting.source "" then "database" else setting.source)
      ∷ (if setting.restart_required
          then status_badge (txt "需重启") warn_tone
          else status_badge (txt "热更新") ok_tone)
      ∷ []

  unfoldable pub group_panels :
      (ℕ → String) → ConfigPage → Dict (List Setting) → List (Html ConfigMessage)
  group_panels decimal s [] = []
  group_panels decimal s ((group, items) ∷ rest) =
      panel (group_label group) "" (
        data_table decimal ("配置项" ∷ "当前值" ∷ "来源" ∷ "生效方式" ∷ []) "compact-table"
          (map (setting_row s) items)
        ∷ [])
      ∷ group_panels decimal s rest

  -- The loading text comes before an error, and that before the settings.
  unfoldable pub config_view : (ℕ → String) → ConfigPage → Html ConfigMessage
  config_view decimal s =
      if s.loading
      then loading_message
      else if not (str_eq s.error "")
      then error_message s.error
      else page "配置"
          (button validated (icon "ShieldCheck" ∷ txt "校验" ∷ [])
            ∷ el "button" (class_name "primary" ∷ attr "type" "button" ∷ on_click saved ∷ [])
                (icon "Save" ∷ txt "保存" ∷ [])
            ∷ button reloaded (icon "RefreshCw" ∷ txt "重载" ∷ [])
            ∷ [])
          (group_panels decimal s (groups s))
