-- ===== src/Requests/Runs.antt =====
-- Requests with their types and handlers.
use apk_cache.Prelude.{◌≡◌, refl, true, false, some, [], ◌∷◌, Bytes, codes, bytes_eq}
use apk_cache.Requests.{
  PackageType, detect_package_request_type, detect_package_suffix, ends_with, last_byte, or_scan,
  scan, segment, after_segment, is_root, is_tree,
}
use apk_cache.Requests.SegmentLaws.{type_of, detect_package_request_type_lem}
use apk_cache.Requests.Route.{
  Request, Mirror, handle_apt_mirror, Config, is_get, is_proxy_request, trim_slashes, root_if_empty,
  route_http, match_apt_mirror, first_match, matches_prefix, starts_with, has_http_url_prefix,
}
use apk_cache.Requests.MirrorLaws.{IsUnder}
use apk_cache.Requests.RouteLaws.{
  is_proxy_handler, is_relayed, route_http-relayed, route_http-mirror,
}

abbrev suite : Bytes
suite = codes "/debian/x/dists/bookworm/main"

suite_type : detect_package_request_type suite ≡ some PackageType.apt
unfolding detect_package_request_type detect_package_suffix ends_with last_byte or_scan scan segment
    after_segment is_root is_tree bytes_eq
suite_type = refl

-- Without the root of a distribution before it the directory says nothing.
other_type : detect_package_request_type (codes "/x/dists/bookworm") ≡ some PackageType.unknown
unfolding detect_package_request_type detect_package_suffix ends_with last_byte or_scan scan segment
    after_segment is_root is_tree bytes_eq
other_type = refl

detect_package_request_type_lem_example : detect_package_request_type suite ≡ some (type_of suite)
detect_package_request_type_lem_example = detect_package_request_type_lem suite

abbrev request : Request
request = record {
  method = codes "GET";
  url = record { is_abs = false; path = codes "/mirror/x"; escaped_path = codes "/mirror/x" };
  request_uri = codes "/mirror/x";
}

abbrev mirror : Mirror Bytes
mirror = record { public_prefix = codes "/mirror/"; target = codes "http://up" }

abbrev config : Config Bytes
config = record { apk_enabled = true; apt_enabled = true; apt_mirrors = mirror ∷ [] }

route_http-relayed_example :
    is_proxy_handler config request (route_http config request) ≡ is_relayed config request
route_http-relayed_example = route_http-relayed config request

routed : route_http config request ≡ handle_apt_mirror mirror
unfolding route_http is_proxy_request match_apt_mirror first_match matches_prefix starts_with
    has_http_url_prefix trim_slashes root_if_empty bytes_eq
routed = refl

route_http-mirror_example :
    (is_get request ≡ true)
    × (is_proxy_request request ≡ false)
    × (config.apt_enabled ≡ true)
    × IsUnder request.url.path (root_if_empty (trim_slashes mirror.public_prefix))
route_http-mirror_example = route_http-mirror config request mirror routed
