-- ===== src/Console/Pages/Config.antt =====
-- pages/ConfigPage.tsx: the settings, the edited draft, and saving what has changed. The text that
-- `JSON.stringify` gives for a value, or for `undefined`, is the parameter `stringify`.
use apk_cache.Prelude.{
  String, Bool, true, false, not, Option, none, some, List, [], ◌∷◌, str_eq, if◌then◌else◌,
}
use apk_cache.Console.Json.{Json, Fields, null, obj, end, field, Method, Segment, word, Request}
use apk_cache.Console.Script.{
  Script, resolved, rejected, finish, update, notify, send, call, ask, awaiting, catching,
}

-- types.ts
pub data ValueType : Type 0 where
  string_type bool_type int_type strings_type : ValueType

pub record Setting : Type 0 where
  pub key : String
  pub value : Json
  pub value_type : ValueType
  pub restart_required : Bool
  pub updated_at : String
  pub source : String
  pub editable : Bool
  pub hot_reload : Bool

pub record SettingSchema : Type 0 where
  pub key : String
  pub group : String
  pub title : String
  pub description : String
  pub value_type : ValueType
  pub control : String
  pub editable : Bool
  pub hot_reload : Bool
  pub restart_required : Bool
  pub sensitive : Bool

-- An object or a Map with text keys, in the order of insertion.
abbrev pub Dict : Type 0 → Type 0
Dict V = List (String × V)

module _ {V : Type 0} where
  unfoldable pub lookup : String → Dict V → Option V
  lookup k [] = none
  lookup k ((j, v) ∷ d) = if str_eq j k then some v else lookup k d

  -- A later entry takes the place of an earlier one of its key.
  unfoldable pub put : String → V → Dict V → Dict V
  put k v [] = (k, v) ∷ []
  put k v ((j, w) ∷ d) = if str_eq j k then (j, v) ∷ d else (j, w) ∷ put k v d

-- new Map(schema.map(item => [item.key, item]))
unfoldable pub schema_map : List SettingSchema → Dict SettingSchema → Dict SettingSchema
schema_map [] d = d
schema_map (item ∷ items) d = schema_map items (put item.key item d)

-- Object.fromEntries(settings.map(item => [item.key, item.value]))
unfoldable pub draft_of : List Setting → Dict Json → Dict Json
draft_of [] d = d
draft_of (item ∷ items) d = draft_of items (put item.key item.value d)

pub record ConfigPage : Type 0 where
  pub settings : List Setting
  pub schema : List SettingSchema
  pub draft : Dict Json
  pub error : String
  pub loading : Bool

-- The two requests of `Promise.all` are sent, and the one answer is that of `Promise.all`: both
-- payloads, or the first rejection. The answers to the other calls carry the keys that need a restart.
pub data Payload : Type 0 where
  loaded : List Setting → List SettingSchema → Payload
  restart : List String → Payload
  other : Payload

abbrev pub Handler : Type 0
Handler = Script ConfigPage Payload

unfoldable pub settings_of : Payload → List Setting
settings_of (loaded s c) = s
settings_of p = []

unfoldable pub schema_of : Payload → List SettingSchema
schema_of (loaded s c) = c
schema_of p = []

unfoldable pub restart_of : Payload → List String
restart_of (restart keys) = keys
restart_of p = []

abbrev pub config_request : Method → List Segment → Json → Request
config_request m path body = record { method = m; path = path; query = []; body = body }

abbrev pub set_loading : Bool → ConfigPage → ConfigPage
set_loading b s = record s { loading = b }

abbrev pub set_error : String → ConfigPage → ConfigPage
set_error m s = record s { error = m }

abbrev pub set_loaded : Payload → ConfigPage → ConfigPage
set_loaded p s = record s {
  settings = settings_of p;
  schema = schema_of p;
  draft = draft_of (settings_of p) [];
}

unfoldable pub load : Handler
load = update (set_error "") (
    update (set_loading true) (
      send (config_request Method.get (word "config" ∷ []) null) (
        call (config_request Method.get (word "config" ∷ word "schema" ∷ []) null) (λ a. elim a [
          | resolved p ↦ update (set_loaded p) (update (set_loading false) finish)
          | rejected m ↦ update (set_error m) (update (set_loading false) finish)
        ]))))

-- The `onChange` of an editor: setDraft(prev => ({ ...prev, [key]: value }))
unfoldable pub edit : String → Json → Handler
edit key value = update (λ (s : ConfigPage). record s { draft = put key value s.draft }) finish

-- schemaByKey.get(key)?.editable !== false
unfoldable pub may_edit : Dict SettingSchema → String → Bool
may_edit schemas key = elim (lookup key schemas) [ none ↦ true | some item ↦ item.editable ]

-- { settings: changed }, where JSON leaves out a field that is `undefined`
unfoldable pub fields_of : Dict (Option Json) → Fields
fields_of [] = end
fields_of ((k, none) ∷ d) = fields_of d
fields_of ((k, some v) ∷ d) = field k v (fields_of d)

abbrev pub settings_body : Dict (Option Json) → Json
settings_body changed = obj (field "settings" (obj (fields_of changed)) end)

abbrev pub validate_request : Dict (Option Json) → Request
validate_request changed =
    config_request Method.post (word "config" ∷ word "validate" ∷ []) (settings_body changed)

abbrev pub put_request : Dict (Option Json) → Request
put_request changed = config_request Method.put (word "config" ∷ []) (settings_body changed)

-- The rest of `save` for a change that is not empty.
unfoldable pub save_changes : Dict (Option Json) → Handler
save_changes changed = awaiting (validate_request changed) (λ validation.
    ask
      (elim (restart_of validation) [
        | [] ↦ "save the settings?"
        | key ∷ keys ↦ "some settings take effect after a restart; save?"
      ])
      (λ confirmed. elim confirmed [
        | false ↦ finish
        | true ↦ awaiting (put_request changed) (λ result.
            notify
              (elim (restart_of result) [
                | [] ↦ "settings saved"
                | key ∷ keys ↦ "saved, some settings need a restart"
              ])
              true load)
      ]))

module _ (stringify : Option Json → String) where
  -- The two filters of `changedSettings`.
  unfoldable pub is_changed : Dict SettingSchema → Dict Json → Setting → Bool
  is_changed schemas draft setting =
      if may_edit schemas setting.key
      then not (str_eq (stringify (lookup setting.key draft)) (stringify (some setting.value)))
      else false

  -- The entries of Object.fromEntries(settings.filter(…).filter(…).map(…)), put one after another.
  unfoldable pub changes :
      Dict SettingSchema → Dict Json → List Setting → Dict (Option Json) → Dict (Option Json)
  changes schemas draft [] d = d
  changes schemas draft (setting ∷ rest) d =
      changes schemas draft rest (
        if is_changed schemas draft setting
        then put setting.key (lookup setting.key draft) d
        else d)

  unfoldable pub changed_settings : ConfigPage → Dict (Option Json)
  changed_settings s = changes (schema_map s.schema []) s.draft s.settings []

  -- save, with the state of the render that made it
  unfoldable pub save : ConfigPage → Handler
  save s = elim (changed_settings s) [
    | [] ↦ notify "nothing to save" true finish
    | entry ∷ rest ↦ save_changes (entry ∷ rest)
  ]

  -- The button of `save` catches what it throws.
  unfoldable pub save_button : ConfigPage → Handler
  save_button s = catching (save s)

  unfoldable pub validate_button : ConfigPage → Handler
  validate_button s = catching (
      awaiting (validate_request (changed_settings s))
        (λ _. notify "settings are valid" true finish))

unfoldable pub reload_button : Handler
reload_button = catching (
    awaiting (config_request Method.post (word "config" ∷ word "reload" ∷ []) null)
      (λ _. notify "settings reloaded" true load))
