-- ===== src/Requests/Route.antt =====
-- app.go, lines 410-432, 868-882 and 1117-1202, 1297-1315: the classification of a request and its
-- handler. A request of the server has a URL.
use apk_cache.Prelude.{
  Bool, true, false, not, ◌&&◌, ◌||◌, Option, none, some, List, [], ◌∷◌, ◌++◌, Bytes, codes,
  bytes_eq, ◌==◌, if◌then◌else◌,
}
use apk_cache.Requests.{PackageType, detect_package_request_type}

pub record Url : Type 0 where
  pub is_abs : Bool
  pub path : Bytes
  pub escaped_path : Bytes

pub record Request : Type 0 where
  pub method : Bytes
  pub url : Url
  pub request_uri : Bytes

unfoldable pub starts_with : Bytes → Bytes → Bool
starts_with [] text = true
starts_with (b ∷ p) [] = false
starts_with (b ∷ p) (c ∷ text) = b == c && starts_with p text

unfoldable pub has_http_url_prefix : Bytes → Bool
has_http_url_prefix raw = starts_with (codes "http://") raw || starts_with (codes "https://") raw

unfoldable pub is_proxy_request : Request → Bool
is_proxy_request r = r.url.is_abs || has_http_url_prefix r.request_uri

pub data Protocol : Type 0 where
  unknown apk apt proxy : Protocol

pub record Classification : Type 0 where
  pub protocol : Protocol
  pub path : Bytes
  pub is_proxy : Bool

abbrev pub is_get : Request → Bool
is_get r = bytes_eq r.method (codes "GET")

abbrev pub is_connect : Request → Bool
is_connect r = bytes_eq r.method (codes "CONNECT")

unfoldable pub request_path : Request → Bytes
request_path r =
    if not (bytes_eq r.url.path [])
    then r.url.path
    else if r.url.is_abs
    then r.url.escaped_path
    else []

-- The scan ends for every path, so `none` does not come up.
unfoldable pub package_type : Bytes → PackageType
package_type path = elim (detect_package_request_type path) [
  | none ↦ PackageType.unknown
  | some type ↦ type
]

unfoldable pub as_proxy : PackageType → Protocol
as_proxy PackageType.apt = Protocol.apt
as_proxy PackageType.apk = Protocol.proxy
as_proxy PackageType.unknown = Protocol.proxy

unfoldable pub as_direct : PackageType → Protocol
as_direct PackageType.apt = Protocol.apt
as_direct PackageType.apk = Protocol.apk
as_direct PackageType.unknown = Protocol.unknown

unfoldable pub classify_request_path : Request → Bytes → Classification
classify_request_path r path =
    let in_proxy_form = is_proxy_request r in
    let type = package_type path in
    if is_connect r
    then record { protocol = Protocol.proxy; path = path; is_proxy = true }
    else if not (is_get r)
    then record {
      protocol = if in_proxy_form then Protocol.proxy else Protocol.unknown;
      path = path;
      is_proxy = in_proxy_form;
    }
    else if in_proxy_form
    then record { protocol = as_proxy type; path = path; is_proxy = true }
    else record { protocol = as_direct type; path = path; is_proxy = false }

unfoldable pub classify_request : Request → Classification
classify_request r =
    if is_connect r
    then record { protocol = Protocol.proxy; path = []; is_proxy = true }
    else classify_request_path r (request_path r)

-- strings.TrimRight(text, "/")
unfoldable pub trim_slashes : Bytes → Bytes
trim_slashes [] = []
trim_slashes (c ∷ rest) = elim (trim_slashes rest) [
  | [] ↦ if c == b'/' then [] else c ∷ []
  | d ∷ more ↦ c ∷ d ∷ more
]

unfoldable pub root_if_empty : Bytes → Bytes
root_if_empty [] = codes "/"
root_if_empty (c ∷ rest) = c ∷ rest

unfoldable pub matches_prefix : Bytes → Bytes → Bool
matches_prefix request_path prefix =
    bytes_eq request_path prefix || starts_with (prefix ++ codes "/") request_path

-- A mirror is its public prefix with what its handler needs.
pub record Mirror (A : Type 0) : Type 0 where
  pub public_prefix : Bytes
  pub target : A

module _ {A : Type 0} where
  unfoldable pub first_match : Bytes → List (Mirror A) → Option (Mirror A)
  first_match request_path [] = none
  first_match request_path (mirror ∷ mirrors) =
      let rest = first_match request_path mirrors in
      if matches_prefix request_path (root_if_empty (trim_slashes mirror.public_prefix))
      then some mirror
      else rest

  unfoldable pub match_apt_mirror : List (Mirror A) → Bytes → Option (Mirror A)
  match_apt_mirror mirrors request_path =
      if bytes_eq request_path [] then none else first_match request_path mirrors

pub data Handler (A : Type 0) : Type 0 where
  handle_apt_mirror : Mirror A → Handler A
  handle_apk : Bytes → Handler A
  handle_apt handle_proxy_http unsupported : Handler A

pub record Config (A : Type 0) : Type 0 where
  pub apk_enabled : Bool
  pub apt_enabled : Bool
  pub apt_mirrors : List (Mirror A)

module _ {A : Type 0} where
  -- The switch of routeHTTP.
  unfoldable pub by_protocol : Config A → Classification → Protocol → Handler A
  by_protocol cfg c Protocol.apk = if cfg.apk_enabled then handle_apk c.path else unsupported
  by_protocol cfg c Protocol.apt =
      if cfg.apt_enabled then handle_apt else if c.is_proxy then handle_proxy_http else unsupported
  by_protocol cfg c Protocol.proxy = handle_proxy_http
  by_protocol cfg c Protocol.unknown = unsupported

  unfoldable pub classified : Config A → Request → Handler A
  classified cfg r = let c = classify_request r in by_protocol cfg c c.protocol

  unfoldable pub route_http : Config A → Request → Handler A
  route_http cfg r =
      if cfg.apt_enabled && is_get r && not (is_proxy_request r)
      then elim (match_apt_mirror cfg.apt_mirrors r.url.path) [
        | some mirror ↦ handle_apt_mirror mirror
        | none ↦ classified cfg r
      ]
      else classified cfg r
