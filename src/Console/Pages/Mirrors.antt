-- ===== src/Console/Pages/Mirrors.antt =====
-- pages/APTPage.tsx, lines 114-184: the tab of the APT mirrors, with its form and the actions on one
-- mirror. The answer of `window.prompt` is an argument of `test`.
use mathlib.Core.Option.{get_or}
use apk_cache.Prelude.{
  ℕ, zero, suc, String, Bool, true, false, Option, none, some, List, [], ◌∷◌, str_eq, if◌then◌else◌,
}
use apk_cache.Console.Json.{
  Json, null, flag, text, obj, end, field, Method, Segment, word, id, Request,
}
use apk_cache.Console.Script.{
  Script, resolved, rejected, finish, update, notify, call, ask, awaiting,
}

-- types.ts, APTMirror
pub record Mirror : Type 0 where
  pub mirror_id : ℕ
  pub name : String
  pub public_prefix : String
  pub upstream_url : String
  pub proxy : String
  pub enabled : Bool
  pub created_at : String
  pub updated_at : String

-- The fields of the form.
pub record MirrorDraft : Type 0 where
  pub name : String
  pub public_prefix : String
  pub upstream_url : String
  pub proxy : String
  pub enabled : Bool

abbrev pub empty_mirror : MirrorDraft
empty_mirror = record {
  name = "";
  public_prefix = "/debian";
  upstream_url = "";
  proxy = "";
  enabled = true;
}

pub record Mirrors : Type 0 where
  pub items : List Mirror
  pub draft : MirrorDraft
  pub editing_id : Option ℕ
  pub sources : String
  pub error : String

-- The list, the result of a test with its `error` (empty if it has none), and the line for sources.list.
pub data Payload : Type 0 where
  mirrors : Option (List Mirror) → Payload
  tested : Bool → String → Payload
  line : String → Payload
  other : Payload

abbrev pub Handler : Type 0
Handler = Script Mirrors Payload

unfoldable pub mirrors_of : Payload → List Mirror
mirrors_of (mirrors i) = get_or i []
mirrors_of p = []

unfoldable pub line_of : Payload → String
line_of (line s) = s
line_of p = ""

abbrev pub mirror_request : Method → List Segment → Json → Request
mirror_request m path body = record {
  method = m;
  path = word "apt" ∷ word "mirrors" ∷ path;
  query = [];
  body = body;
}

unfoldable pub load : Handler
load =
    update (λ (s : Mirrors). record s { error = "" })
      (call (mirror_request Method.get [] null) (λ a. elim a [
        | resolved p ↦ update (λ (s : Mirrors). record s { items = mirrors_of p }) finish
        | rejected m ↦ update (λ (s : Mirrors). record s { error = m }) finish
      ]))

abbrev pub reset : Mirrors → Mirrors
reset s = record s { draft = empty_mirror; editing_id = none }

unfoldable pub draft_body : MirrorDraft → Json
draft_body d = obj (
    field "name" (text d.name) (
      field "public_prefix" (text d.public_prefix) (
        field "upstream_url" (text d.upstream_url)
          (field "proxy" (text d.proxy) (field "enabled" (flag d.enabled) end)))))

-- `if (editingID)`: no id and the id 0 create a mirror.
unfoldable pub saving : Option ℕ → MirrorDraft → Request
saving none d = mirror_request Method.post [] (draft_body d)
saving (some zero) d = mirror_request Method.post [] (draft_body d)
saving (some (suc n)) d = mirror_request Method.put (id (suc n) ∷ []) (draft_body d)

unfoldable pub saved : Option ℕ → String
saved none = "mirror added"
saved (some zero) = "mirror added"
saved (some (suc n)) = "mirror saved"

-- save, with the draft and the id of the render
unfoldable pub save : Option ℕ → MirrorDraft → Handler
unfolding saved
save editing_id draft =
    awaiting (saving editing_id draft) (λ _. notify (saved editing_id) true (update reset load))

abbrev pub draft_of : Mirror → MirrorDraft
draft_of item = record {
  name = item.name;
  public_prefix = item.public_prefix;
  upstream_url = item.upstream_url;
  proxy = item.proxy;
  enabled = item.enabled;
}

unfoldable pub edit : Mirror → Mirrors → Mirrors
edit item s = record s { editing_id = some item.mirror_id; draft = draft_of item }

unfoldable pub toggle : Mirror → Handler
toggle item =
    awaiting
      (mirror_request Method.post
        (id item.mirror_id ∷ word (if item.enabled then "disable" else "enable") ∷ []) null)
      (λ _. notify (if item.enabled then "mirror disabled" else "mirror enabled") true load)

unfoldable pub remove : Mirror → Handler
remove item = ask "delete this mirror?" (λ confirmed. elim confirmed [
  | false ↦ finish
  | true ↦
      awaiting (mirror_request Method.delete (id item.mirror_id ∷ []) null)
        (λ _. notify "mirror deleted" true load)
])

unfoldable pub show_test : Payload → Handler
show_test (tested ok message) =
    notify (if ok then "test passed" else if str_eq message "" then "test failed" else message) ok
      finish
show_test (mirrors i) = notify "test failed" false finish
show_test (line s) = notify "test failed" false finish
show_test other = notify "test failed" false finish

unfoldable pub test : Mirror → Option String → Handler
test item path =
    awaiting
      (mirror_request Method.post (id item.mirror_id ∷ word "test" ∷ [])
        (obj (field "path" (text (get_or path "")) end)))
      show_test

unfoldable pub sources_list : Mirror → Handler
sources_list item =
    awaiting (mirror_request Method.get (id item.mirror_id ∷ word "sources-list" ∷ []) null)
      (λ p. update (λ (s : Mirrors). record s { sources = line_of p }) finish)
