-- ===== src/Console/AppViewLaws.antt =====
-- What can be done on the console before and after signing in.
use apk_cache.Prelude.{
  ◌≡◌, refl, inl, inr, String, Bool, false, Option, none, some, List, [], ◌∷◌, map, str_eq,
  bytes_eq, if◌then◌else◌, Bool-cases, arith,
}
use apk_cache.Console.Html.{
  is_disabled, Html, tag, class_name, nodes, Only, NodesOnly, NodesSend-NodesOnly, Sends, NodesSend,
}
use apk_cache.Console.Components.{ToastState, toast, error_message}
use apk_cache.Console.Routes.{
  RouteId, dashboard, cache, apk, apt, upstreams, proxy, config, logs, system, routes, route_name,
}
use apk_cache.Console.Account.{App, CurrentUser}
use apk_cache.Console.AppView.{
  Message, close_toast, log_in, type_username, type_password, go, AuthForm, auth_screen, labelled,
  error_of, nav_button, app_view,
}

module _ (P : Type 0) where
  -- The messages of the form to sign in, and that of the toast.
  abbrev pub SignsIn : Message P → Type 0
  SignsIn log_in = Unit
  SignsIn (type_username t) = Unit
  SignsIn (type_password t) = Unit
  SignsIn close_toast = Unit
  SignsIn m = ⊥

  error-NodesOnly : (error : String) → NodesOnly SignsIn (nodes (error_of error))
  unfolding error_of error_message
  error-NodesOnly error = elim (Bool-cases (str_eq error "")) [
    | inl e ↦ rw e tt
    | inr e ↦ rw e (grind arith)
  ]

  toast-NodesOnly :
      (shown : Option ToastState) → NodesOnly SignsIn (nodes (toast shown close_toast))
  unfolding toast
  toast-NodesOnly none = tt
  toast-NodesOnly (some t) = grind arith

  auth_screen-Only : (form : AuthForm) (error : String) → Only SignsIn (auth_screen form error)
  unfolding auth_screen labelled
  auth_screen-Only form error = let shown = error-NodesOnly error in grind (arith, shown)

  -- While no user has signed in, the console sends nothing but the inputs of the form, the form and the
  -- closing of the toast, whatever the pages are.
  pub without_user :
      (view : RouteId → Html (Message P)) (s : App) (form : AuthForm) (shown : Option ToastState)
      (m : Message P)
      → s.user ≡ none
      → NodesSend (nodes (app_view view s form shown)) m
      → SignsIn m
  unfolding app_view
  without_user view s form shown m no_user sends =
      NodesSend-NodesOnly SignsIn (nodes (app_view view s form shown)) m
        (rw (no_user, app_view) (auth_screen-Only form s.auth_error, toast-NodesOnly shown)) sends

  -- Which buttons of the navigation are shown as active.
  abbrev pub is_active : Html (Message P) → Bool
  is_active (tag name (class_name c ∷ attrs) kids) = str_eq c "active"
  is_active h = false

  abbrev pub active_of : List (Html (Message P)) → List (Html (Message P))
  active_of [] = []
  active_of (h ∷ hs) = let rest = active_of hs in if is_active h then h ∷ rest else rest

  nav-go :
      (route item : RouteId) → NodesSend (nodes (map (nav_button {P = P} route) routes)) (go item)
  unfolding nav_button is_disabled
  nav-go route dashboard = inl (inl (refl, inr (inr (inl refl))))
  nav-go route cache = inr (inl (inl (refl, inr (inr (inl refl)))))
  nav-go route apk = inr (inr (inl (inl (refl, inr (inr (inl refl))))))
  nav-go route apt = inr (inr (inr (inl (inl (refl, inr (inr (inl refl)))))))
  nav-go route upstreams = inr (inr (inr (inr (inl (inl (refl, inr (inr (inl refl))))))))
  nav-go route proxy = inr (inr (inr (inr (inr (inl (inl (refl, inr (inr (inl refl)))))))))
  nav-go route config = inr (inr (inr (inr (inr (inr (inl (inl (refl, inr (inr (inl refl))))))))))
  nav-go route logs =
      inr (inr (inr (inr (inr (inr (inr (inl (inl (refl, inr (inr (inl refl)))))))))))
  nav-go route system =
      inr (inr (inr (inr (inr (inr (inr (inr (inl (inl (refl, inr (inr (inl refl))))))))))))

  nav-active :
      (route : RouteId) → active_of (map (nav_button route) routes) ≡ nav_button route route ∷ []
  unfolding nav_button route_name bytes_eq
  nav-active dashboard = refl
  nav-active cache = refl
  nav-active apk = refl
  nav-active apt = refl
  nav-active upstreams = refl
  nav-active proxy = refl
  nav-active config = refl
  nav-active logs = refl
  nav-active system = refl

  -- For a user who has signed in, the console offers the way to every page, shows the page of the route,
  -- and marks exactly the button of that page as active.
  pub navigation :
      (view : RouteId → Html (Message P)) (s : App) (form : AuthForm) (shown : Option ToastState)
      (user : CurrentUser) (item : RouteId) (m : Message P)
      → s.user ≡ some user
      → NodesSend (nodes (app_view view s form shown)) (go item)
        × (Sends (view s.route) m → NodesSend (nodes (app_view view s form shown)) m)
        × (active_of (map (nav_button s.route) routes) ≡ nav_button s.route s.route ∷ [])
  unfolding app_view is_disabled
  navigation view s form shown user item m signed = (
    rw (signed, app_view) (inr (inl (inr (inl (inr (nav-go s.route item)))))),
    λ sent. rw (signed, app_view) (inr (inl (inr (inr (inl (inr (inl sent))))))),
    nav-active s.route,
  )
