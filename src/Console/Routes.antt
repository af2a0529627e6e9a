-- ===== src/Console/Routes.antt =====
-- App.tsx, lines 30-44 and 251-259: the routes of the console and their paths.
use apk_cache.Prelude.{
  ◌≡◌, refl, ◌||◌, Option, none, some, List, [], ◌∷◌, ◌++◌, Bytes, codes, bytes_eq, ◌==◌,
  if◌then◌else◌,
}

pub data RouteId : Type 0 where
  dashboard cache apk apt upstreams proxy config logs system : RouteId

unfoldable pub route_name : RouteId → Bytes
route_name dashboard = codes "dashboard"
route_name cache = codes "cache"
route_name apk = codes "apk"
route_name apt = codes "apt"
route_name upstreams = codes "upstreams"
route_name proxy = codes "proxy"
route_name config = codes "config"
route_name logs = codes "logs"
route_name system = codes "system"

abbrev pub routes : List RouteId
routes = dashboard ∷ cache ∷ apk ∷ apt ∷ upstreams ∷ proxy ∷ config ∷ logs ∷ system ∷ []

-- routeSet.has(raw), with the route of that name
find_route : Bytes → List RouteId → Option RouteId
find_route raw [] = none
find_route raw (r ∷ rest) = if bytes_eq (route_name r) raw then some r else find_route raw rest

-- The text after a prefix.
after_prefix : Bytes → Bytes → Option Bytes
after_prefix [] s = some s
after_prefix (p ∷ ps) [] = none
after_prefix (p ∷ ps) (c ∷ s) = if p == c then after_prefix ps s else none

-- replace(/\/$/, '')
drop_last_slash : Bytes → Bytes
drop_last_slash [] = []
drop_last_slash (c ∷ []) = if c == b'/' then [] else c ∷ []
drop_last_slash (c ∷ d ∷ s) = c ∷ drop_last_slash (d ∷ s)

drop_first_slash : Bytes → Bytes
drop_first_slash [] = []
drop_first_slash (c ∷ s) = if c == b'/' then s else c ∷ s

-- replace(/^\/admin\/?/, '')
drop_admin : Bytes → Bytes
unfolding after_prefix drop_first_slash
drop_admin path = elim (after_prefix (codes "/admin") path) [
  | none ↦ path
  | some rest ↦ drop_first_slash rest
]

or_dashboard : Option RouteId → RouteId
or_dashboard none = dashboard
or_dashboard (some r) = r

unfoldable pub route_from_path : Bytes → RouteId
unfolding drop_admin drop_last_slash find_route route_name or_dashboard
route_from_path path =
    let raw = drop_last_slash (drop_admin path) in
    if bytes_eq raw [] || bytes_eq raw (codes "login")
    then dashboard
    else or_dashboard (find_route raw routes)

unfoldable pub path_for_route : RouteId → Bytes
unfolding route_name
path_for_route r = codes "/admin/" ++ route_name r

-- The path of a route leads back to it, with or without a slash at its end; so the path that `boot`
-- or `navigate` writes into the history selects the same page when the page is loaded again.
pub route_from_path-path_for_route :
    (r : RouteId)
    → (route_from_path (path_for_route r) ≡ r)
      × (route_from_path (path_for_route r ++ codes "/") ≡ r)
unfolding route_from_path path_for_route bytes_eq
route_from_path-path_for_route dashboard = (refl, refl)
route_from_path-path_for_route cache = (refl, refl)
route_from_path-path_for_route apk = (refl, refl)
route_from_path-path_for_route apt = (refl, refl)
route_from_path-path_for_route upstreams = (refl, refl)
route_from_path-path_for_route proxy = (refl, refl)
route_from_path-path_for_route config = (refl, refl)
route_from_path-path_for_route logs = (refl, refl)
route_from_path-path_for_route system = (refl, refl)
