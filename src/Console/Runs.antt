-- ===== src/Console/Runs.antt =====
-- The console on concrete inputs, and the theorems at them.
use apk_cache.Prelude.{
  ℕ, ◌≡◌, ◌≢◌, ◌⊎◌, ◌↔◌, refl, inl, inr, String, true, false, not, ◌&&◌, Option, none, some, List,
  [], ◌∷◌, Bytes, codes, bytes_eq, All, if◌then◌else◌, arith,
}
use apk_cache.Console.Json.{Json, null, num, text, obj, end}
use apk_cache.Console.Script.{Input, resolved, reply, answer, run}
use apk_cache.Console.Routes.{dashboard, logs, route_from_path}
use apk_cache.Console.Cookies.{read_cookie, render_cookies, cookie, read_cookie-render_cookies}
use apk_cache.Console.Api.{
  json_value, Init, get_header, request, is_safe, method_of, is_empty, AdminResponse, Response,
  returned, api,
}
use apk_cache.Console.Api.Laws.{csrf_header, api-eq-returned, IsSuccess}
use apk_cache.Console.Account.{CurrentUser, App, me}
use apk_cache.Console.Account.Laws.{IsInStep, click, history, started, moves, moves-IsInStep}
use apk_cache.Console.Pages.Cache as C
use apk_cache.Console.Pages.CacheLaws as CL
use apk_cache.Console.Pages.Config as F
use apk_cache.Console.Pages.ConfigLaws as FL
use apk_cache.Console.Pages.Upstreams as U

read_cookie-render_cookies_example :
    read_cookie
      (codes "csrf")
      (render_cookies ((codes "sid", codes "1") ∷ (codes "csrf", codes "a=b") ∷ []))
    ≡ cookie (codes "csrf") ((codes "sid", codes "1") ∷ (codes "csrf", codes "a=b") ∷ [])
read_cookie-render_cookies_example =
    read_cookie-render_cookies (codes "csrf")
      ((codes "sid", codes "1") ∷ (codes "csrf", codes "a=b") ∷ []) (omega arith) (omega arith)

-- A stand-in for JSON.stringify on the values of these runs.
abbrev print : Json → Bytes
print null = codes "null"
print j = codes "{}"

abbrev put_init : Init
put_init = record {
  method = some (codes "put");
  headers = ("x-trace", codes "7") ∷ [];
  body = json_value true (obj end);
}

csrf_header_example :
    get_header "x-csrf-token" (request print (codes "t") (codes "/config") put_init).headers ≡ (
      if not (is_safe (method_of put_init)) && not (is_empty (codes "t"))
      then some (codes "t")
      else get_header "x-csrf-token" put_init.headers)
csrf_header_example = csrf_header print (codes "t") (codes "/config") put_init

-- A success whose JSON says that it failed.
abbrev refused : Response (AdminResponse ℕ)
refused = record {
  ok = true;
  status_text = codes "OK";
  payload = some (record { ok = false; content = 3; error = none });
}

api-eq-returned_example : (api refused ≡ returned 3) ↔ IsSuccess refused 3
api-eq-returned_example = api-eq-returned refused 3

abbrev root : CurrentUser
root = record {
  authenticated = true;
  username = "root";
  csrf_token = codes "t";
  is_default_credential = true;
}

abbrev app : App
app = record {
  user = none;
  route = dashboard;
  auth_error = "";
  account_open = false;
  csrf = [];
  cookies = [];
  pathname = codes "/admin/";
  form_username = "";
  old_password = "";
  new_password = "";
  form_error = "";
}

moves-IsInStep_example :
    IsInStep
      (moves (started (resolved (me root)) ∷ click logs ∷ history (codes "/admin/cache") ∷ []) app)
unfolding bytes_eq
moves-IsInStep_example =
    moves-IsInStep (started (resolved (me root)) ∷ click logs ∷ history (codes "/admin/cache") ∷ [])
      app (unfold route_from_path in refl)

abbrev apt_filters : C.CacheFilters
apt_filters = record C.default_filters { protocol = "apt" }

abbrev object : C.CacheObject
object = record {
  object_id = 5;
  protocol = "apt";
  class = "index";
  host = "deb.example";
  request_path = "/dists";
  cache_path = "apt/deb.example/dists";
  size_bytes = 12;
  content_type = "text/plain";
  cache_status = "cached";
  validation_status = "valid";
  last_error = "";
  first_cached_at = "";
  last_accessed_at = "";
  updated_at = "";
}

abbrev listed : C.Payload
listed = C.objects (some (object ∷ [])) (some 70)

abbrev agreed : List (Input C.Payload)
agreed = reply (resolved (C.count 3)) ∷ answer true ∷ reply (resolved (C.count 3)) ∷ []

batch_delete-IsConfirmed_example : CL.IsConfirmed agreed
batch_delete-IsConfirmed_example =
    CL.batch_delete-IsConfirmed apt_filters apt_filters agreed C.initial
      (unfold C.batch_delete in inr (inl refl))

overtaken_load_example :
    CL.overtaken C.default_filters apt_filters listed (C.objects none none) C.initial
    ≡ record C.initial {
      filters = apt_filters;
      items = C.items_of listed;
      total = C.total_of listed;
      error = "";
      loading = false;
    }
overtaken_load_example =
    CL.overtaken_load C.default_filters apt_filters listed (C.objects none none) C.initial

stale_detail_example : CL.reopened object (C.object_detail (num 5)) C.initial ≡ record C.initial {
  detail = C.detail_of 5 false (some (C.content_of (C.object_detail (num 5)))) "";
}
stale_detail_example = CL.stale_detail object (C.object_detail (num 5)) C.initial

abbrev first_page : C.CachePage
first_page = record C.initial { total = 70 }

abbrev second_page : C.CachePage
second_page = record first_page { filters = record C.default_filters { page = 2 } }

abbrev setting : String → F.Setting
setting key = record {
  key = key;
  value = null;
  value_type = F.string_type;
  restart_required = false;
  updated_at = "";
  source = "";
  editable = true;
  hot_reload = false;
}

abbrev settings : F.ConfigPage
settings = record {
  settings = setting "a" ∷ setting "b" ∷ [];
  schema = [];
  draft = ("a", text "x") ∷ [];
  error = "";
  loading = false;
}

-- A stand-in for JSON.stringify that tells these values apart.
abbrev show : Option Json → String
show none = "undefined"
show (some null) = "null"
show (some j) = "\"x\""

lookup-changed_settings_example :
    F.lookup "a" (F.changed_settings show settings)
    ≡ FL.expected show settings "a" (FL.find_setting "a" settings.settings)
lookup-changed_settings_example =
    FL.lookup-changed_settings show settings "a" (unfold FL.find_setting in (refl, (refl, tt)))

save-IsSaving_example :
    All
      (FL.IsSaving (F.changed_settings show settings) (reply (resolved F.other) ∷ answer true ∷ []))
      (run (F.save show settings) (reply (resolved F.other) ∷ answer true ∷ []) settings).sent
    × ((F.changed_settings show settings ≢ [])
        ⊎ ((run (F.save show settings) (reply (resolved F.other) ∷ answer true ∷ []) settings).sent
            ≡ []))
save-IsSaving_example =
    FL.save-IsSaving show settings (reply (resolved F.other) ∷ answer true ∷ []) settings

abbrev upstream_page : U.UpstreamsPage
upstream_page = record { items = []; editing = U.empty_upstream; error = "old"; loading = false }

abbrev mirror : U.Upstream
mirror = record U.empty_upstream { upstream_id = 4; url = "https://mirror.example" }
