-- ===== src/Console/Pages/ViewsLaws.antt =====
-- What an answer leaves on the pages that load and show.
use apk_cache.Prelude.{ℕ, ◌≡◌, refl, String, false, some, [], ◌∷◌}
use apk_cache.Console.Json.{Json}
use apk_cache.Console.Script.{resolved, rejected, reply, run}
use apk_cache.Console.Pages.Views.{
  LogTab, LogsPage, DashboardPage, SystemPage, Payload, two, log_of, load_logs, load_dashboard,
  load_system, set_system, one_of,
}

-- What a load of the logs, of the dashboard and of the system page leaves, answered and refused.
abbrev pub ShowsLogs : LogTab → ℕ → Payload → String → LogsPage → Type 0
ShowsLogs tab limit p message s =
    ((run (load_logs tab limit) (reply (resolved p) ∷ []) s).state
      ≡ record s { items = log_of p; loading = false; error = "" })
    × ((run (load_logs tab limit) (reply (rejected message) ∷ []) s).state
        ≡ record s { loading = false; error = message })

abbrev pub ShowsSummary : Payload → String → DashboardPage → Type 0
ShowsSummary p message s =
    ((run load_dashboard (reply (resolved p) ∷ []) s).state
      ≡ record { summary = one_of p; error = "" })
    × ((run load_dashboard (reply (rejected message) ∷ []) s).state ≡ record s { error = message })

abbrev pub ShowsSystem : Json → Json → String → SystemPage → Type 0
ShowsSystem info hash message s =
    ((run load_system (reply (resolved (two info hash)) ∷ []) s).state
      ≡ record { info = some info; hash = some hash; error = "" })
    × ((run load_system (reply (rejected message) ∷ []) s).state ≡ record s { error = message })

-- On each of the three pages an answer replaces what was shown and clears an earlier error, and a
-- refusal keeps what was shown beside the error; the logs are no longer marked as loading.
pub loads-Shows :
    (tab : LogTab) (limit : ℕ) (p : Payload) (info hash : Json) (message : String) (logs : LogsPage)
    (dashboard : DashboardPage) (system : SystemPage)
    → ShowsLogs tab limit p message logs
      × ShowsSummary p message dashboard
      × ShowsSystem info hash message system
unfolding load_logs load_dashboard load_system set_system
loads-Shows tab limit p info hash message logs dashboard system =
    ((refl, refl), (refl, refl), (refl, refl))
