-- ===== src/Console/Pages/Runs.antt =====
-- The lists, the mirrors and the proxy page on concrete inputs, and the theorems at them.
use apk_cache.Prelude.{List, String, All, ◌≡◌, refl, true, false, none, some, [], ◌∷◌, arith}
use apk_cache.Console.Json.{null}
use apk_cache.Console.UtilsLaws.{IsEntry, IsOneLine}
use apk_cache.Console.Utils.{is_space, trim, trim_start, trim_end}
use apk_cache.Console.Pages.Mirrors as M
use apk_cache.Console.Pages.Packages.{PackageList}
use apk_cache.Console.Pages.Proxy.{ProxyPage, ProxyStatus}

abbrev mirror : M.Mirror
mirror = record {
  mirror_id = 4;
  name = "debian";
  public_prefix = "/debian";
  upstream_url = "https://deb.example";
  proxy = "";
  enabled = true;
  created_at = "";
  updated_at = "";
}

abbrev mirror_page : M.Mirrors
mirror_page = record {
  items = mirror ∷ [];
  draft = M.empty_mirror;
  editing_id = none;
  sources = "";
  error = "";
}

-- The third page of a search, with another text typed in.
abbrev third : PackageList
third = record {
  items = [];
  draft = " curl ";
  query_text = "wget";
  page = 3;
  total = 140;
  error = "";
  loading = false;
}

trimmed : trim " curl " ≡ "curl"
unfolding trim trim_start trim_end is_space
trimmed = refl

abbrev status : ProxyStatus
status = record {
  enabled = true;
  allow_connect = false;
  cache_non_package_requests = false;
  upstream_proxy = "";
  allowed_hosts = [];
  host_rules_configured = false;
  connect = null;
}

abbrev proxy_page : ProxyPage
proxy_page = record {
  status = some status;
  rules = [];
  host = "deb.example";
  description = "";
  error = "";
}

abbrev hosts : List String
hosts = "deb.example" ∷ "a b" ∷ []

hosts-IsEntry : All IsEntry hosts
unfolding trim trim_start trim_end is_space
hosts-IsEntry = ((host_line, refl, λ e. cc), ((spaced_line, refl, λ e. cc), tt))
  where
    host_line : IsOneLine "deb.example"
    host_line = omega arith

    spaced_line : IsOneLine "a b"
    spaced_line = omega arith
