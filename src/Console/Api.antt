-- ===== src/Console/Api.antt =====
-- api.ts: the CSRF token, the request that is sent, and what `api` and `apiBlob` make of the
-- response. Header names are in lower case, as the browser's `Headers` keeps them; method names are
-- ASCII. `JSON.stringify` is the parameter `stringify`.
pub mod Laws
use apk_cache.Prelude.{
  ℕ, ◌-◌, ◌≡◌, refl, String, Bool, true, false, not, ◌&&◌, ◌||◌, Option, none, some, List, [], ◌∷◌,
  ◌++◌, map, Bytes, codes, bytes_eq, str_eq, leb, if◌then◌else◌,
}
use apk_cache.Console.Json.{Json}
use apk_cache.Console.Script.{Reply, resolved, rejected}
use apk_cache.Console.Cookies.{read_cookie}

-- `body?: unknown`: a JSON value carries whether JavaScript takes it for true.
pub data RawBody : Type 0 where
  absent form_value blob_value : RawBody
  text_value : Bytes → RawBody
  json_value : Bool → Json → RawBody

pub data Body : Type 0 where
  no_body form_body blob_body : Body
  text_body : Bytes → Body

abbrev pub Headers : Type 0
Headers = List (String × Bytes)

pub record Init : Type 0 where
  pub method : Option Bytes
  pub headers : Headers
  pub body : RawBody

-- What `fetch` is called with.
pub record FetchCall : Type 0 where
  pub path : Bytes
  pub method : Option Bytes
  pub headers : Headers
  pub body : Body

unfoldable pub get_header : String → Headers → Option Bytes
get_header name [] = none
get_header name ((n, v) ∷ rest) = if str_eq n name then some v else get_header name rest

-- headers.set
unfoldable pub set_header : String → Bytes → Headers → Headers
set_header name value [] = (name, value) ∷ []
set_header name value ((n, v) ∷ rest) =
    if str_eq n name then (n, value) ∷ rest else (n, v) ∷ set_header name value rest

unfoldable pub has_header : String → Headers → Bool
has_header name h = elim (get_header name h) [ none ↦ false | some v ↦ true ]

-- `a || b` on texts
unfoldable pub or_else : Bytes → Bytes → Bytes
or_else [] d = d
or_else (c ∷ s) d = c ∷ s

unfoldable pub or_default : Option Bytes → Bytes → Bytes
unfolding or_else
or_default none d = d
or_default (some s) d = or_else s d

to_upper : ℕ → ℕ
to_upper c = if leb b'a' c && leb c b'z' then c - 32 else c

-- (init.method || 'GET').toUpperCase()
unfoldable pub method_of : Init → Bytes
unfolding to_upper or_default
method_of init = map to_upper (or_default init.method (codes "GET"))

-- ['GET', 'HEAD'].includes(method)
unfoldable pub is_safe : Bytes → Bool
is_safe method = bytes_eq (codes "GET") method || bytes_eq (codes "HEAD") method

-- setCSRF(value): value || readCookie('apk_cache_admin_csrf')
unfoldable pub set_csrf : Option Bytes → Bytes → Bytes
unfolding or_default
set_csrf value cookies = or_default value (read_cookie (codes "apk_cache_admin_csrf") cookies)

abbrev pub json_type : Bytes
json_type = codes "application/json"

unfoldable pub set_accept : Headers → Headers
unfolding or_default
set_accept h = set_header "accept" (or_default (get_header "accept" h) json_type) h

-- rawBody && typeof rawBody !== 'string' && !(FormData) && !(Blob)
unfoldable pub is_plain_value : RawBody → Bool
is_plain_value (json_value truthy j) = truthy
is_plain_value b = false

-- typeof body === 'string'
unfoldable pub is_text : Body → Bool
is_text (text_body t) = true
is_text b = false

unfoldable pub set_type_for_value : RawBody → Headers → Headers
unfolding is_plain_value
set_type_for_value raw h = if is_plain_value raw then set_header "content-type" json_type h else h

unfoldable pub set_type_for_text : Body → Headers → Headers
unfolding is_text
set_type_for_text body h =
    if is_text body && not (has_header "content-type" h)
    then set_header "content-type" json_type h
    else h

unfoldable pub is_empty : Bytes → Bool
is_empty [] = true
is_empty (c ∷ s) = false

unfoldable pub set_token : Bytes → Bytes → Headers → Headers
unfolding is_empty
set_token method csrf h =
    if not (is_safe method) && not (is_empty csrf) then set_header "x-csrf-token" csrf h else h

module _ (stringify : Json → Bytes) where
  unfoldable pub body_of : RawBody → Body
  body_of absent = no_body
  body_of form_value = form_body
  body_of blob_value = blob_body
  body_of (text_value s) = text_body s
  body_of (json_value truthy j) = text_body (stringify j)

  unfoldable pub request : Bytes → Bytes → Init → FetchCall
  request csrf path init =
      let body = body_of init.body in
      let typed = set_type_for_text body (set_type_for_value init.body (set_accept init.headers)) in
      record {
        path = codes "/api/admin/v1" ++ path;
        method = init.method;
        headers = set_token (method_of init) csrf typed;
        body = body;
      }

-- AdminResponse<T>; `error?.message` is `none` where there is no error.
pub record AdminResponse (P : Type 0) : Type 0 where
  pub ok : Bool
  pub content : P
  pub error : Option Bytes

-- A response: `payload` is `none` where its text is not JSON.
pub record Response (P : Type 0) : Type 0 where
  pub ok : Bool
  pub status_text : Bytes
  pub payload : Option P

-- payload.error?.message || response.statusText
unfoldable pub message_of : Option Bytes → Bytes → Bytes
unfolding or_default
message_of error status_text = or_default error status_text

-- The end of `api`: what the promise settles to, with the message in place of the error.
pub data Settled (P : Type 0) : Type 0 where
  returned : P → Settled P
  threw : Bytes → Settled P

module _ {P : Type 0} where
  unfoldable pub api_payload : Response (AdminResponse P) → AdminResponse P → Settled P
  unfolding message_of
  api_payload response payload =
      if not response.ok || not payload.ok
      then threw (message_of payload.error response.status_text)
      else returned payload.content

  -- A text that is not JSON stands for { ok: false, error: { message: statusText } }.
  unfoldable pub api : Response (AdminResponse P) → Settled P
  api response = elim response.payload [
    | none ↦ threw (message_of (some response.status_text) response.status_text)
    | some payload ↦ api_payload response payload
  ]

-- `payload?.error?.message`, from any JSON, is the payload here.
module _ {B : Type 0} where
  unfoldable pub api_blob : Response (Option Bytes) → B → Settled B
  unfolding message_of
  api_blob response blob =
      if not response.ok
      then (elim response.payload [
        | none ↦ threw (message_of none response.status_text)
        | some error ↦ threw (message_of error response.status_text)
      ])
      else returned blob
