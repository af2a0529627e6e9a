-- ===== src/Console/Pages/ProxyLaws.antt =====
-- The form of the host rules.
use apk_cache.Prelude.{◌≡◌, refl, String, false, Option, some, List, [], ◌∷◌}
use mathlib.Core.Option.{get_or}
use apk_cache.Console.Json.{Method, word, null}
use apk_cache.Console.Script.{resolved, rejected, reply, run}
use apk_cache.Console.Pages.Proxy.{
  ProxyHostRule, ProxyStatus, ProxyPage, loaded, other, proxy_request, set_loaded, load, rule_body,
  add_rule, add_button,
}

-- What the button that adds a rule sends, leaves and shows, when it is accepted and when it is refused.
abbrev pub Adds :
    String → String → ProxyStatus → Option (List ProxyHostRule) → String → ProxyPage → Type 0
Adds host description status rules message s =
    ((run (add_button host description)
        (reply (resolved other) ∷ reply (resolved (loaded status rules)) ∷ []) s).sent
      ≡ proxy_request Method.post (word "host-rules" ∷ []) (rule_body host description)
        ∷ proxy_request Method.get (word "status" ∷ []) null
        ∷ proxy_request Method.get (word "host-rules" ∷ []) null
        ∷ [])
    × ((run (add_button host description)
          (reply (resolved other) ∷ reply (resolved (loaded status rules)) ∷ []) s).state
        ≡ record {
          status = some status;
          rules = get_or rules [];
          host = "";
          description = "";
          error = "";
        })
    × ((run (add_button host description) (reply (rejected message) ∷ []) s).sent
        ≡ proxy_request Method.post (word "host-rules" ∷ []) (rule_body host description) ∷ [])
    × ((run (add_button host description) (reply (rejected message) ∷ []) s).state ≡ s)
    × ((run (add_button host description) (reply (rejected message) ∷ []) s).toasts
        ≡ (message, false) ∷ [])

-- An accepted rule is sent and the status and the rules are loaded again, with empty inputs; a refused
-- one leaves the page and its inputs as they were and shows the server's message.
pub add_button-Adds :
    (host description : String) (status : ProxyStatus) (rules : Option (List ProxyHostRule))
    (message : String) (s : ProxyPage)
    → Adds host description status rules message s
unfolding add_button add_rule load set_loaded
add_button-Adds host description status rules message s = (refl, refl, refl, refl, refl)
