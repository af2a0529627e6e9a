-- ===== src/Console/Pages/Proxy.antt =====
-- pages/ProxyPage.tsx: the settings of the proxy and the rules of allowed hosts.
use mathlib.Core.Option.{get_or}
use apk_cache.Prelude.{ℕ, String, Bool, true, false, Option, some, List, [], ◌∷◌, if◌then◌else◌}
use apk_cache.Console.Json.{
  Json, null, flag, text, obj, end, field, Method, Segment, word, id, Request,
}
use apk_cache.Console.Script.{
  Script, resolved, rejected, finish, update, notify, send, call, ask, awaiting, catching,
}

-- types.ts, ProxyHostRule
pub record ProxyHostRule : Type 0 where
  pub rule_id : ℕ
  pub host : String
  pub enabled : Bool
  pub description : String
  pub created_at : String
  pub updated_at : String

-- `host_rules` repeats the rules, which the page loads by themselves.
pub record ProxyStatus : Type 0 where
  pub enabled : Bool
  pub allow_connect : Bool
  pub cache_non_package_requests : Bool
  pub upstream_proxy : String
  pub allowed_hosts : List String
  pub host_rules_configured : Bool
  pub connect : Json

-- The state of the page: its status (`data`), its rules and the two inputs of the form.
pub record ProxyPage : Type 0 where
  pub status : Option ProxyStatus
  pub rules : List ProxyHostRule
  pub host : String
  pub description : String
  pub error : String

-- The two payloads of `Promise.all` in one; the other answers are not read.
pub data Payload : Type 0 where
  loaded : ProxyStatus → Option (List ProxyHostRule) → Payload
  other : Payload

abbrev pub Handler : Type 0
Handler = Script ProxyPage Payload

abbrev pub proxy_request : Method → List Segment → Json → Request
proxy_request m path body = record {
  method = m;
  path = word "proxy" ∷ path;
  query = [];
  body = body;
}

unfoldable pub set_loaded : Payload → ProxyPage → ProxyPage
set_loaded (loaded status rules) s = record s { status = some status; rules = get_or rules [] }
set_loaded other s = s

unfoldable pub load : Handler
load =
    update (λ (s : ProxyPage). record s { error = "" })
      (send (proxy_request Method.get (word "status" ∷ []) null) (
        call (proxy_request Method.get (word "host-rules" ∷ []) null) (λ a. elim a [
          | resolved p ↦ update (set_loaded p) finish
          | rejected m ↦ update (λ (s : ProxyPage). record s { error = m }) finish
        ])))

unfoldable pub config_body : ProxyStatus → Json
config_body d = obj (
    field "enabled" (flag d.enabled) (
      field "allow_connect" (flag d.allow_connect) (
        field "cache_non_package_requests" (flag d.cache_non_package_requests)
          (field "upstream_proxy" (text d.upstream_proxy) end))))

-- save, with the status of the render
unfoldable pub save : ProxyStatus → Handler
save status =
    awaiting (proxy_request Method.put (word "config" ∷ []) (config_body status))
      (λ _. notify "proxy settings saved" true load)

abbrev pub rule_body : String → String → Json
rule_body host description = obj (
    field "host" (text host)
      (field "description" (text description) (field "enabled" (flag true) end)))

-- addRule, with the inputs of the render; its button catches what it throws.
unfoldable pub add_rule : String → String → Handler
add_rule host description =
    awaiting (proxy_request Method.post (word "host-rules" ∷ []) (rule_body host description)) (λ _.
      update (λ (s : ProxyPage). record s { host = ""; description = "" })
        (notify "rule added" true load))

unfoldable pub add_button : String → String → Handler
add_button host description = catching (add_rule host description)

unfoldable pub set_rule_enabled : ProxyHostRule → Bool → Handler
set_rule_enabled rule enabled =
    awaiting
      (proxy_request Method.post
        (word "host-rules" ∷ id rule.rule_id ∷ word (if enabled then "enable" else "disable") ∷ [])
        null)
      (λ _. notify (if enabled then "rule enabled" else "rule disabled") true load)

unfoldable pub delete_rule : ProxyHostRule → Handler
delete_rule rule = ask "delete this rule?" (λ confirmed. elim confirmed [
  | false ↦ finish
  | true ↦
      awaiting (proxy_request Method.delete (word "host-rules" ∷ id rule.rule_id ∷ []) null)
        (λ _. notify "rule deleted" true load)
])
