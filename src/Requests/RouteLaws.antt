-- ===== src/Requests/RouteLaws.antt =====
-- Which requests reach which handler.
use apk_cache.Prelude.{
  ◌≡◌, ◌≢◌, refl, ap, sym, ◌∙◌, inl, inr, Bool, true, false, not, ◌&&◌, ◌||◌, some, Bytes, codes,
  bytes_eq, bytes_eq_iff, Bool-cases, Option-cases, if◌then◌else◌, arith,
}
use apk_cache.Requests.{PackageType}
use apk_cache.Requests.SegmentLaws.{type_of, detect_package_request_type_lem}
use apk_cache.Requests.Route.{
  Request, Mirror, Handler, handle_apt_mirror, handle_apk, handle_apt, handle_proxy_http,
  unsupported, Config, is_get, is_connect, is_proxy_request, request_path, package_type, as_proxy,
  as_direct, classify_request_path, classify_request, match_apt_mirror, trim_slashes, root_if_empty,
  by_protocol, classified, route_http,
}
use apk_cache.Requests.MirrorLaws.{IsUnder, mirror_eq, match_apt_mirror-IsUnder}

abbrev pub is_apt : PackageType → Bool
is_apt PackageType.apt = true
is_apt PackageType.apk = false
is_apt PackageType.unknown = false

package_type-eq : (path : Bytes) → package_type path ≡ type_of path
unfolding package_type
package_type-eq path = rw (package_type, detect_package_request_type_lem path) refl

module _ {A : Type 0} (cfg : Config A) (r : Request) where
  -- The type of the path of the request.
  abbrev pub is_apt_path : Bool
  is_apt_path = is_apt (type_of (request_path r))

  -- A request that is relayed: CONNECT, or one in proxy form, but for a GET of a file of APT while the
  -- cache for these is on.
  abbrev pub is_relayed : Bool
  is_relayed =
      is_connect r || (is_proxy_request r && not (is_get r && (is_apt_path && cfg.apt_enabled)))

  abbrev pub is_proxy_handler : Handler A → Bool
  is_proxy_handler (handle_apt_mirror m) = false
  is_proxy_handler (handle_apk p) = false
  is_proxy_handler handle_apt = false
  is_proxy_handler handle_proxy_http = true
  is_proxy_handler unsupported = false

  get_not_connect : is_get r ≡ true → is_connect r ≡ false
  unfolding bytes_eq
  get_not_connect h = rw ((bytes_eq_iff r.method (codes "GET")).0 h) refl

  -- The handler that the class of a request leads to.
  abbrev pub class_of : Bool → Bool → Bool → PackageType → Handler A
  class_of true get in_proxy_form type = handle_proxy_http
  class_of false false true type = handle_proxy_http
  class_of false false false type = unsupported
  class_of false true true PackageType.apt =
      if cfg.apt_enabled then handle_apt else handle_proxy_http
  class_of false true true PackageType.apk = handle_proxy_http
  class_of false true true PackageType.unknown = handle_proxy_http
  class_of false true false PackageType.apt = if cfg.apt_enabled then handle_apt else unsupported
  class_of false true false PackageType.apk =
      if cfg.apk_enabled then handle_apk (request_path r) else unsupported
  class_of false true false PackageType.unknown = unsupported

  classified-eq :
      (connect get in_proxy_form : Bool) (type : PackageType)
      → is_connect r ≡ connect
      → is_get r ≡ get
      → is_proxy_request r ≡ in_proxy_form
      → type_of (request_path r) ≡ type
      → classified cfg r ≡ class_of connect get in_proxy_form type
  unfolding classified classify_request classify_request_path by_protocol as_proxy as_direct
  classified-eq true get f type c g p t = rw c refl
  classified-eq false false true type c g p t = rw (c, g, p) refl
  classified-eq false false false type c g p t = rw (c, g, p) refl
  classified-eq false true true PackageType.apt c g p t =
      rw (c, g, p, package_type-eq (request_path r) ∙ t) refl
  classified-eq false true true PackageType.apk c g p t =
      rw (c, g, p, package_type-eq (request_path r) ∙ t) refl
  classified-eq false true true PackageType.unknown c g p t =
      rw (c, g, p, package_type-eq (request_path r) ∙ t) refl
  classified-eq false true false PackageType.apt c g p t =
      rw (c, g, p, package_type-eq (request_path r) ∙ t) refl
  classified-eq false true false PackageType.apk c g p t =
      rw (c, g, p, package_type-eq (request_path r) ∙ t) refl
  classified-eq false true false PackageType.unknown c g p t =
      rw (c, g, p, package_type-eq (request_path r) ∙ t) refl

  class_of-relayed :
      (connect get in_proxy_form : Bool) (type : PackageType)
      → is_proxy_handler (class_of connect get in_proxy_form type)
        ≡ (connect || (in_proxy_form && not (get && (is_apt type && cfg.apt_enabled))))
  class_of-relayed true g f type = refl
  class_of-relayed false false true type = refl
  class_of-relayed false false false type = refl
  class_of-relayed false true true PackageType.apt = elim (Bool-cases cfg.apt_enabled) [
    | inl e ↦ rw e refl
    | inr e ↦ rw e refl
  ]
  class_of-relayed false true true PackageType.apk = refl
  class_of-relayed false true true PackageType.unknown = refl
  class_of-relayed false true false PackageType.apt = elim (Bool-cases cfg.apt_enabled) [
    | inl e ↦ rw e refl
    | inr e ↦ rw e refl
  ]
  class_of-relayed false true false PackageType.apk = elim (Bool-cases cfg.apk_enabled) [
    | inl e ↦ rw e refl
    | inr e ↦ rw e refl
  ]
  class_of-relayed false true false PackageType.unknown = refl

  classified-relayed : is_proxy_handler (classified cfg r) ≡ is_relayed
  classified-relayed =
      ap is_proxy_handler (
        classified-eq (is_connect r) (is_get r) (is_proxy_request r) (type_of (request_path r)) refl
          refl refl refl)
      ∙ class_of-relayed (is_connect r) (is_get r) (is_proxy_request r) (type_of (request_path r))

  -- A request is handed to the proxy exactly if its method is CONNECT, or it is in proxy form and not a
  -- GET of a file of APT while the cache for these is on; a request in the ordinary form with another
  -- method than CONNECT is never relayed.
  pub route_http-relayed : is_proxy_handler (route_http cfg r) ≡ is_relayed
  unfolding route_http
  route_http-relayed = elim (Bool-cases (cfg.apt_enabled && is_get r && not (is_proxy_request r))) [
    | inr e ↦ rw (e, route_http) classified-relayed
    | inl e ↦ elim (Option-cases (match_apt_mirror cfg.apt_mirrors r.url.path)) [
      | inl n ↦ rw (e, n, route_http) classified-relayed
      | inr (m, s) ↦
          let get : is_get r ≡ true = ground (arith, e) in
          let direct : is_proxy_request r ≡ false = ground (arith, e) in
          rw (e, s, get_not_connect get, direct, route_http) refl
    ]
  ]

  abbrev is_mirror_handler : Handler A → Bool
  is_mirror_handler (handle_apt_mirror m) = true
  is_mirror_handler (handle_apk p) = false
  is_mirror_handler handle_apt = false
  is_mirror_handler handle_proxy_http = false
  is_mirror_handler unsupported = false

  class_of-no_mirror :
      (connect get in_proxy_form : Bool) (type : PackageType)
      → is_mirror_handler (class_of connect get in_proxy_form type) ≡ false
  class_of-no_mirror true g f type = refl
  class_of-no_mirror false false true type = refl
  class_of-no_mirror false false false type = refl
  class_of-no_mirror false true true PackageType.apt = elim (Bool-cases cfg.apt_enabled) [
    | inl e ↦ rw e refl
    | inr e ↦ rw e refl
  ]
  class_of-no_mirror false true true PackageType.apk = refl
  class_of-no_mirror false true true PackageType.unknown = refl
  class_of-no_mirror false true false PackageType.apt = elim (Bool-cases cfg.apt_enabled) [
    | inl e ↦ rw e refl
    | inr e ↦ rw e refl
  ]
  class_of-no_mirror false true false PackageType.apk = elim (Bool-cases cfg.apk_enabled) [
    | inl e ↦ rw e refl
    | inr e ↦ rw e refl
  ]
  class_of-no_mirror false true false PackageType.unknown = refl

  classified-no_mirror : (m : Mirror A) → classified cfg r ≢ handle_apt_mirror m
  classified-no_mirror m h =
      let none_there =
        ap is_mirror_handler (
          classified-eq (is_connect r) (is_get r) (is_proxy_request r) (type_of (request_path r))
            refl refl refl refl)
        ∙ class_of-no_mirror (is_connect r) (is_get r) (is_proxy_request r)
            (type_of (request_path r)) in
      let both : true ≡ false = ap is_mirror_handler (sym h) ∙ none_there in cc

  -- A mirror is handed only a GET in the ordinary form, while APT is on, whose path is the mirror's
  -- prefix or goes on with a slash after it.
  pub route_http-mirror :
      (m : Mirror A)
      → route_http cfg r ≡ handle_apt_mirror m
      → (is_get r ≡ true)
        × (is_proxy_request r ≡ false)
        × (cfg.apt_enabled ≡ true)
        × IsUnder r.url.path (root_if_empty (trim_slashes m.public_prefix))
  unfolding route_http
  route_http-mirror m h =
      elim (Bool-cases (cfg.apt_enabled && is_get r && not (is_proxy_request r))) [
        | inr e ↦ absurd (classified-no_mirror m (rw (e, route_http) at h))
        | inl e ↦ elim (Option-cases (match_apt_mirror cfg.apt_mirrors r.url.path)) [
          | inl n ↦ absurd (classified-no_mirror m (rw (e, n, route_http) at h))
          | inr (q, s) ↦
              let same : handle_apt_mirror q ≡ handle_apt_mirror m = rw (e, s, route_http) at h in
              let mirrors : q ≡ m = mirror_eq same in
              (
                ground (arith, e),
                ground (arith, e),
                ground (arith, e),
                match_apt_mirror-IsUnder cfg.apt_mirrors r.url.path m (s ∙ ap some mirrors),
              )
        ]
      ]
