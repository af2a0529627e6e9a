-- ===== src/Console/Api/Laws.antt =====
-- Which headers a request carries, and when `api` returns.
use text.Mathlib.TextPositions.{eq_refl}
use apk_cache.Prelude.{
  ◌≡◌, ◌↔◌, ◌∙◌, ap, refl, inl, inr, String, true, false, not, ◌&&◌, Option, none, some, [], ◌∷◌,
  Bytes, str_eq, eq_iff, if◌then◌else◌, Option-cases, arith,
}
use apk_cache.Console.Json.{Json}
use apk_cache.Console.Api.{
  RawBody, absent, form_value, blob_value, text_value, json_value, Body, text_body, Headers, Init,
  get_header, set_header, has_header, method_of, is_safe, json_type, set_accept, set_type_for_value,
  set_type_for_text, is_empty, set_token, body_of, request, AdminResponse, Response, returned, api,
  api_payload,
}

get-set_header :
    (name other : String) (v : Bytes) (h : Headers)
    → get_header other (set_header name v h)
      ≡ (if str_eq name other then some v else get_header other h)
unfolding get_header set_header
get-set_header name other v [] = refl
get-set_header name other v ((n, w) ∷ h) =
    ground (arith, eq_iff name other, eq_iff n name, eq_iff n other, get-set_header name other v h)

get-accept :
    (name : String) (h : Headers)
    → str_eq "accept" name ≡ false
    → get_header name (set_accept h) ≡ get_header name h
unfolding set_accept
get-accept name h e = rw (get-set_header "accept" name _ h, e)

type-other :
    (name : String) (raw : RawBody) (body : Body) (h : Headers)
    → str_eq "content-type" name ≡ false
    → get_header name (set_type_for_text body (set_type_for_value raw h)) ≡ get_header name h
unfolding set_type_for_text set_type_for_value
type-other name raw body h e = ground (
  arith,
  get-set_header "content-type" name json_type (set_header "content-type" json_type h),
  get-set_header "content-type" name json_type h,
)

-- The CSRF header of a request: the token, for a method other than GET and HEAD while there is a
-- token; otherwise what the caller gave.
pub csrf_header :
    (stringify : Json → Bytes) (csrf path : Bytes) (init : Init)
    → get_header "x-csrf-token" (request stringify csrf path init).headers ≡ (
        if not (is_safe (method_of init)) && not (is_empty csrf)
        then some csrf
        else get_header "x-csrf-token" init.headers)
unfolding request set_token
csrf_header stringify csrf path init =
    let before = set_accept init.headers in
    let typed =
      set_type_for_text (body_of stringify init.body) (set_type_for_value init.body before) in
    ground (
      arith,
      get-set_header "x-csrf-token" "x-csrf-token" csrf typed,
      eq_refl "x-csrf-token",
      type-other "x-csrf-token" init.body (body_of stringify init.body) before refl,
      get-accept "x-csrf-token" init.headers refl,
    )

-- The content type that a request with this body should have, where the caller's headers have
-- `given`: JSON for a JSON value that is not falsy, and for a text if the caller gave none.
unfoldable pub expected_type : RawBody → Option Bytes → Option Bytes
expected_type (json_value true j) given = some json_type
expected_type (json_value false j) none = some json_type
expected_type (text_value s) none = some json_type
expected_type raw given = given

type-set_token :
    (method csrf : Bytes) (h : Headers)
    → get_header "content-type" (set_token method csrf h) ≡ get_header "content-type" h
unfolding set_token
type-set_token method csrf h = ground (arith, get-set_header "x-csrf-token" "content-type" csrf h)

type_for_text :
    (t : Bytes) (h : Headers)
    → get_header "content-type" (set_type_for_text (text_body t) h)
      ≡ (elim (get_header "content-type" h) [ none ↦ some json_type | some v ↦ some v ])
unfolding set_type_for_text has_header
type_for_text t h =
    ground (arith, get-set_header "content-type" "content-type" json_type h, eq_refl "content-type")

type_for_body :
    (stringify : Json → Bytes) (raw : RawBody) (h : Headers)
    → get_header "content-type"
        (set_type_for_text (body_of stringify raw) (set_type_for_value raw h))
      ≡ expected_type raw (get_header "content-type" h)
unfolding expected_type body_of set_type_for_value
type_for_body stringify absent h = unfold set_type_for_text in refl
type_for_body stringify form_value h = unfold set_type_for_text in refl
type_for_body stringify blob_value h = unfold set_type_for_text in refl
type_for_body stringify (text_value s) h = ground (arith, type_for_text s h)
type_for_body stringify (json_value false j) h = ground (arith, type_for_text (stringify j) h)
type_for_body stringify (json_value true j) h = ground (
  arith,
  type_for_text (stringify j) (set_header "content-type" json_type h),
  get-set_header "content-type" "content-type" json_type h,
  eq_refl "content-type",
)

-- The content type of a request is the one that its body calls for.
pub content_type :
    (stringify : Json → Bytes) (csrf path : Bytes) (init : Init)
    → get_header "content-type" (request stringify csrf path init).headers
      ≡ expected_type init.body (get_header "content-type" init.headers)
unfolding request
content_type stringify csrf path init =
    type-set_token (method_of init) csrf _
    ∙ type_for_body stringify init.body (set_accept init.headers)
    ∙ ap (expected_type init.body) (get-accept "content-type" init.headers refl)

-- The payload of a response that is a success and whose JSON says so too.
abbrev pub IsSuccess : {P : Type 0} → Response (AdminResponse P) → P → Type 0
IsSuccess {P} response p =
    (response.ok ≡ true)
    × ((payload : AdminResponse P) × (response.payload ≡ some payload)
        × (payload.ok ≡ true)
        × (payload.content ≡ p))

returned-IsSuccess :
    {P : Type 0} (response : Response (AdminResponse P)) (p : P)
    → api response ≡ returned p
    → IsSuccess response p
unfolding api api_payload
returned-IsSuccess response p h = elim (Option-cases response.payload) [
  | inl e ↦ absurd (cc (rw (e, api) at h))
  | inr (payload, e) ↦
      let h' = rw (e, api, api_payload) at h in
      (ground arith, (payload, e, ground arith, ground arith))
]

IsSuccess-returned :
    {P : Type 0} (response : Response (AdminResponse P)) (p : P)
    → IsSuccess response p
    → api response ≡ returned p
unfolding api api_payload
IsSuccess-returned response p (ok, (payload, e, said, content)) =
    rw (e, api, api_payload, ok, said, content)

-- `api` returns a payload exactly when the response is a success, its text is JSON, and the JSON says
-- so too; every other response is an error.
pub api-eq-returned :
    {P : Type 0} (response : Response (AdminResponse P)) (p : P)
    → (api response ≡ returned p) ↔ IsSuccess response p
api-eq-returned response p = (returned-IsSuccess response p, IsSuccess-returned response p)
