-- ===== src/Console/Pages/Upstreams.antt =====
-- pages/UpstreamsPage.tsx: the list of upstream servers, the form and the actions on one server.
use mathlib.Core.Option.{get_or}
use apk_cache.Prelude.{
  ℕ, zero, suc, String, Bool, true, false, Option, List, [], ◌∷◌, str_eq, if◌then◌else◌,
}
use apk_cache.Console.Json.{
  Json, null, flag, num, text, obj, end, field, Method, Segment, word, id, Request,
}
use apk_cache.Console.Script.{
  Script, resolved, rejected, finish, update, notify, call, ask, awaiting,
}

-- types.ts, Upstream
pub record Upstream : Type 0 where
  pub upstream_id : ℕ
  pub name : String
  pub url : String
  pub proxy : String
  pub kind : String
  pub enabled : Bool
  pub priority : ℕ
  pub created_at : String
  pub updated_at : String

abbrev pub empty_upstream : Upstream
empty_upstream = record {
  upstream_id = 0;
  name = "";
  url = "";
  proxy = "";
  kind = "apk";
  enabled = true;
  priority = 100;
  created_at = "";
  updated_at = "";
}

pub record UpstreamsPage : Type 0 where
  pub items : List Upstream
  pub editing : Upstream
  pub error : String
  pub loading : Bool

-- The list, and the result of a test: whether it was good, and its `error`, empty if it has none.
pub data Payload : Type 0 where
  upstreams : Option (List Upstream) → Payload
  tested : Bool → String → Payload
  other : Payload

abbrev pub Handler : Type 0
Handler = Script UpstreamsPage Payload

unfoldable pub items_of : Payload → List Upstream
items_of (upstreams i) = get_or i []
items_of p = []

abbrev pub plain_request : Method → List Segment → Json → Request
plain_request m path body = record { method = m; path = path; query = []; body = body }

abbrev pub set_loading : Bool → UpstreamsPage → UpstreamsPage
set_loading b s = record s { loading = b }

abbrev pub set_error : String → UpstreamsPage → UpstreamsPage
set_error m s = record s { error = m }

unfoldable pub load : Handler
load = update (set_loading true) (
    update (set_error "") (
      call (plain_request Method.get (word "upstreams" ∷ []) null) (λ a. elim a [
        | resolved p ↦
            update (λ (s : UpstreamsPage). record s { items = items_of p })
              (update (set_loading false) finish)
        | rejected m ↦ update (set_error m) (update (set_loading false) finish)
      ])))

-- { ...editing, id: undefined }: JSON leaves the id out.
unfoldable pub body_of : Upstream → Json
body_of u = obj (
    field "name" (text u.name) (
      field "url" (text u.url) (
        field "proxy" (text u.proxy) (
          field "kind" (text u.kind) (
            field "enabled" (flag u.enabled) (
              field "priority" (num u.priority) (
                field "created_at" (text u.created_at)
                  (field "updated_at" (text u.updated_at) end))))))))

abbrev pub edit : Upstream → UpstreamsPage → UpstreamsPage
edit u s = record s { editing = u }

-- The end of submit, after the request.
unfoldable pub submitted : String → Handler
submitted message = notify message true (update (edit empty_upstream) load)

unfoldable pub submit : Upstream → Handler
submit editing = elim editing.upstream_id [
  | zero ↦
      awaiting (plain_request Method.post (word "upstreams" ∷ []) (body_of editing))
        (λ _. submitted "upstream created")
  | suc n ↦
      awaiting (plain_request Method.put (word "upstreams" ∷ id (suc n) ∷ []) (body_of editing))
        (λ _. submitted "upstream updated")
]

pub data Action : Type 0 where
  toggle delete test : Action

unfoldable pub show_test : Payload → Handler
show_test (tested ok message) =
    if ok
    then notify "connected" true finish
    else notify (if str_eq message "" then "test failed" else message) false finish
show_test (upstreams i) = notify "test failed" false finish
show_test other = notify "test failed" false finish

unfoldable pub action : Upstream → Action → Handler
action item test =
    awaiting
      (plain_request Method.post (word "upstreams" ∷ id item.upstream_id ∷ word "test" ∷ []) null)
      show_test
action item delete = ask "delete this upstream?" (λ confirmed. elim confirmed [
  | false ↦ finish
  | true ↦
      awaiting (plain_request Method.delete (word "upstreams" ∷ id item.upstream_id ∷ []) null)
        (λ _. notify "upstream deleted" true load)
])
action item toggle =
    awaiting
      (plain_request Method.post
        (word "upstreams"
          ∷ id item.upstream_id
          ∷ word (if item.enabled then "disable" else "enable")
          ∷ [])
        null)
      (λ _. notify "upstream status changed" true load)
