-- ===== src/Console/Pages/Views.antt =====
-- pages/LogsPage.tsx, pages/DashboardPage.tsx and pages/SystemPage.tsx: pages that load and show. What
-- they show is JSON here.
use mathlib.Core.Option.{get_or}
use apk_cache.Prelude.{ℕ, String, Bool, true, false, Option, none, some, List, [], ◌∷◌}
use apk_cache.Console.Json.{Json, null, num, Method, Segment, word, Request}
use apk_cache.Console.Script.{
  Script, resolved, rejected, finish, update, notify, send, call, awaiting,
}

-- The two tabs of the logs.
pub data LogTab : Type 0 where
  requests errors : LogTab

pub record LogsPage : Type 0 where
  pub tab : LogTab
  pub limit : ℕ
  pub items : List Json
  pub loading : Bool
  pub error : String

-- The summary of the dashboard, or none before it is loaded.
pub record DashboardPage : Type 0 where
  pub summary : Option Json
  pub error : String

pub record SystemPage : Type 0 where
  pub info : Option Json
  pub hash : Option Json
  pub error : String

-- A payload is the list of a log, one value, or the two values of `Promise.all`.
pub data Payload : Type 0 where
  log : Option (List Json) → Payload
  one : Json → Payload
  two : Json → Json → Payload
  blob : Payload

unfoldable pub log_of : Payload → List Json
log_of (log i) = get_or i []
log_of p = []

unfoldable pub one_of : Payload → Option Json
one_of (one j) = some j
one_of p = none

abbrev pub view_request : Method → List Segment → List (String × Json) → Request
view_request m path query = record { method = m; path = path; query = query; body = null }

unfoldable pub log_request : LogTab → ℕ → Request
log_request errors limit =
    view_request Method.get (word "logs" ∷ word "errors" ∷ []) (("limit", num limit) ∷ [])
log_request requests limit =
    view_request Method.get (word "logs" ∷ word "requests" ∷ []) (("limit", num limit) ∷ [])

unfoldable pub load_logs : LogTab → ℕ → Script LogsPage Payload
load_logs tab limit =
    update (λ (s : LogsPage). record s { loading = true; error = "" })
      (call (log_request tab limit) (λ a. elim a [
        | resolved p ↦
            update (λ (s : LogsPage). record s { items = log_of p; loading = false }) finish
        | rejected m ↦ update (λ (s : LogsPage). record s { error = m; loading = false }) finish
      ]))

unfoldable pub load_dashboard : Script DashboardPage Payload
load_dashboard =
    update (λ (s : DashboardPage). record s { error = "" })
      (call (view_request Method.get (word "dashboard" ∷ word "summary" ∷ []) []) (λ a. elim a [
        | resolved p ↦ update (λ (s : DashboardPage). record s { summary = one_of p }) finish
        | rejected m ↦ update (λ (s : DashboardPage). record s { error = m }) finish
      ]))

unfoldable pub set_system : Payload → SystemPage → SystemPage
set_system (two info hash) s = record s { info = some info; hash = some hash }
set_system p s = s

unfoldable pub load_system : Script SystemPage Payload
load_system =
    update (λ (s : SystemPage). record s { error = "" })
      (send (view_request Method.get (word "system" ∷ word "info" ∷ []) []) (
        call (view_request Method.get (word "hash" ∷ word "status" ∷ []) []) (λ a. elim a [
          | resolved p ↦ update (set_system p) finish
          | rejected m ↦ update (λ (s : SystemPage). record s { error = m }) finish
        ])))

-- download: the link that saves the file is the browser's.
unfoldable pub download : Script SystemPage Payload
download =
    awaiting (view_request Method.post (word "diagnostics" ∷ word "package" ∷ []) [])
      (λ _. notify "diagnostics package made" true finish)
