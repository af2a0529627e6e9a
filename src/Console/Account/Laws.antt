-- ===== src/Console/Account/Laws.antt =====
-- The route beside the browser's path, and what the two account forms leave.
use apk_cache.Prelude.{
  ◌≡◌, refl, inl, inr, String, ◌||◌, List, [], ◌∷◌, Bytes, codes, bytes_eq, Bool-cases,
}
use apk_cache.Console.Script.{Reply, resolved, rejected, reply, run}
use apk_cache.Console.Routes.{RouteId, route_from_path, route_from_path-path_for_route}
use apk_cache.Console.Account.{
  CurrentUser, App, Payload, me, renamed, other, navigate, popped, signed_in, booted, save_username,
  save_password,
}

-- The page shown is that of the browser's path.
abbrev pub IsInStep : App → Type 0
IsInStep s = route_from_path s.pathname ≡ s.route

navigate-IsInStep : (next : RouteId) (s : App) → IsInStep (navigate next s)
unfolding navigate
navigate-IsInStep next s = (route_from_path-path_for_route next).0

signed_in-IsInStep : (u : CurrentUser) (s : App) → IsInStep (signed_in u s)
unfolding signed_in
signed_in-IsInStep u s = (route_from_path-path_for_route (route_from_path s.pathname)).0

booted-IsInStep : (a : Reply Payload) (s : App) → IsInStep s → IsInStep (booted a s)
unfolding booted
booted-IsInStep (rejected m) s h = h
booted-IsInStep (resolved (renamed n d)) s h = h
booted-IsInStep (resolved other) s h = h
booted-IsInStep (resolved (me u)) s h =
    let next = route_from_path s.pathname in
    let plain =
      bytes_eq s.pathname (codes "/admin/") || bytes_eq s.pathname (codes "/admin/login") in
    elim (Bool-cases u.authenticated) [
      | inr out ↦ rw (out, booted) h
      | inl here ↦ elim (Bool-cases plain) [
        | inl p ↦ rw (here, booted, p) (route_from_path-path_for_route next).0
        | inr p ↦ rw (here, booted, p) refl
      ]
    ]

-- What moves the console between pages: a click, the browser's history, a login, and the answer to
-- the first request.
pub data Move : Type 0 where
  click : RouteId → Move
  history : Bytes → Move
  logged_in : CurrentUser → Move
  started : Reply Payload → Move

abbrev pub move : Move → App → App
move (click r) s = navigate r s
move (history path) s = popped path s
move (logged_in u) s = signed_in u s
move (started a) s = booted a s

abbrev pub moves : List Move → App → App
moves [] s = s
moves (m ∷ ms) s = moves ms (move m s)

move-IsInStep : (m : Move) (s : App) → IsInStep s → IsInStep (move m s)
move-IsInStep (click r) s h = navigate-IsInStep r s
move-IsInStep (history path) s h = unfold popped in refl
move-IsInStep (logged_in u) s h = signed_in-IsInStep u s
move-IsInStep (started a) s h = booted-IsInStep a s h

-- From a state whose page is that of the path, every sequence of clicks, history moves, logins and
-- answers to the first request leads to such a state.
pub moves-IsInStep : (ms : List Move) (s : App) → IsInStep s → IsInStep (moves ms s)
moves-IsInStep [] s h = h
moves-IsInStep (m ∷ ms) s h = moves-IsInStep ms (move m s) (move-IsInStep m s h)

-- A form whose request is refused keeps the user as it was and shows the server's message.
pub refused_form :
    (user : CurrentUser) (username old new message : String) (s : App)
    → ((run (save_password user username old new) (reply (rejected message) ∷ []) s).state
        ≡ record s { form_error = message })
      × ((run (save_username user username) (reply (rejected message) ∷ []) s).state
          ≡ record s { form_error = message })
unfolding save_password save_username
refused_form user username old new message s = (refl, refl)
