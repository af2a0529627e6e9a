-- ===== src/Console/Account.antt =====
-- App.tsx: the state of the console (the user, the route, the account dialog), signing in and out,
-- and the two forms of the account dialog. `location.pathname` and the cookies are part of the state.
pub mod Laws
use apk_cache.Prelude.{
  ◌≡◌, refl, String, Bool, true, false, ◌||◌, Option, none, some, List, [], ◌∷◌, Bytes, codes,
  bytes_eq, if◌then◌else◌,
}
use apk_cache.Console.Json.{Json, Fields, null, text, obj, end, field, Method, word, Request}
use apk_cache.Console.Script.{
  Script, Reply, resolved, rejected, finish, throw, update, notify, call, ask,
}
use apk_cache.Console.Api.{set_csrf}
use apk_cache.Console.Routes.{RouteId, route_from_path, path_for_route}

-- types.ts, CurrentUser
pub record CurrentUser : Type 0 where
  pub authenticated : Bool
  pub username : String
  pub csrf_token : Bytes
  pub is_default_credential : Bool

-- The `useState` variables of App, the token of api.ts and the browser's path; of the account dialog
-- its three inputs and its error.
pub record App : Type 0 where
  pub user : Option CurrentUser
  pub route : RouteId
  pub auth_error : String
  pub account_open : Bool
  pub csrf : Bytes
  pub cookies : Bytes
  pub pathname : Bytes
  pub form_username : String
  pub old_password : String
  pub new_password : String
  pub form_error : String

-- The payloads: the user of a login, and what a change of the name returns.
pub data Payload : Type 0 where
  me : CurrentUser → Payload
  renamed : String → Bool → Payload
  other : Payload

abbrev pub Handler : Type 0
Handler = Script App Payload

abbrev pub account_request : Method → String → String → Json → Request
account_request m group action body = record {
  method = m;
  path = word group ∷ word action ∷ [];
  query = [];
  body = body;
}

-- setRoute(next); history.pushState({}, '', pathForRoute(next))
unfoldable pub navigate : RouteId → App → App
navigate next s = record s { route = next; pathname = path_for_route next }

-- onPop: the browser has gone back or forward to a path.
unfoldable pub popped : Bytes → App → App
popped path s = record s { pathname = path; route = route_from_path path }

-- onLogin: setCSRF, setUser, navigate(routeFromPath())
unfoldable pub signed_in : CurrentUser → App → App
unfolding navigate
signed_in u s =
    navigate (route_from_path s.pathname)
      (record s { csrf = set_csrf (some u.csrf_token) s.cookies; user = some u })

-- boot, on the answer of /auth/me: an error or a user who is not signed in changes nothing.
unfoldable pub booted : Reply Payload → App → App
booted (resolved (me u)) s =
    if u.authenticated
    then (let next = route_from_path s.pathname in
        let path =
          if bytes_eq s.pathname (codes "/admin/") || bytes_eq s.pathname (codes "/admin/login")
          then path_for_route next
          else s.pathname in
        record s {
          csrf = set_csrf (some u.csrf_token) s.cookies;
          user = some u;
          route = next;
          pathname = path;
        })
    else s
booted (resolved (renamed n d)) s = s
booted (resolved other) s = s
booted (rejected m) s = s

unfoldable pub boot : Handler
boot = call (account_request Method.get "auth" "me" null) (λ a. update (booted a) finish)

-- submit of AuthScreen, with the inputs of the render
unfoldable pub login : String → String → Handler
login username password =
    update (λ (s : App). record s { auth_error = "" })
      (call
        (account_request Method.post "auth" "login"
          (obj (field "username" (text username) (field "password" (text password) end))))
        (λ a. elim a [
          | resolved (me u) ↦ update (signed_in u) finish
          | resolved p ↦ finish
          | rejected m ↦ update (λ (s : App). record s { auth_error = m }) finish
        ]))

-- The page is left for the login page, whatever the answer.
unfoldable pub logout : Handler
logout =
    call (account_request Method.post "auth" "logout" null)
      (λ _. update (λ (s : App). record s { pathname = codes "/admin/login"; user = none }) finish)

-- saveUsername, with the user and the inputs of the render
unfoldable pub save_username : CurrentUser → String → Handler
save_username user username =
    update (λ (s : App). record s { form_error = "" })
      (call
        (account_request Method.put "account" "username"
          (obj (field "username" (text username) end)))
        (λ a. elim a [
          | resolved (renamed name default) ↦
              update
                (λ (s : App). record s {
                  user = some (record user { username = name; is_default_credential = default });
                })
                (notify "the user name was changed" true finish)
          | resolved p ↦ finish
          | rejected m ↦ update (λ (s : App). record s { form_error = m }) finish
        ]))

-- savePassword: `username` is the text of the name's input.
unfoldable pub save_password : CurrentUser → String → String → String → Handler
save_password user username old new =
    update (λ (s : App). record s { form_error = "" })
      (call
        (account_request Method.put "account" "password"
          (obj (field "old_password" (text old) (field "new_password" (text new) end))))
        (λ a. elim a [
          | rejected m ↦ update (λ (s : App). record s { form_error = m }) finish
          | resolved p ↦
              update
                (λ (s : App). record s {
                  user = some (record user { username = username; is_default_credential = false });
                })
                (notify "the password was changed" true
                  (update (λ (s : App). record s { old_password = ""; new_password = "" }) finish))
        ]))
