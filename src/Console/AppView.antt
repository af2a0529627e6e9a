-- ===== src/Console/AppView.antt =====
-- App.tsx: what the console shows: the form to sign in, the header, the navigation with the page of the
-- route, the dialog of the account, and the toast.
use apk_cache.Prelude.{
  String, Bool, Option, none, some, List, [], ◌∷◌, ◌++◌, map, str_eq, bytes_eq, if◌then◌else◌,
}
use apk_cache.Console.Html.{
  Html, txt, icon, class_name, attr, on_click, on_submit, on_change, el, when,
}
use apk_cache.Console.Components.{ToastState, ok_tone, error_tone, toast, error_message, button}
use apk_cache.Console.Routes.{
  RouteId, dashboard, cache, apk, apt, upstreams, proxy, config, logs, system, route_name, routes,
}
use apk_cache.Console.Account.{App, CurrentUser}

-- showToast; the timer sets the toast to none again.
unfoldable pub show_toast : String → Bool → Option ToastState
show_toast message ok =
    some (record { message = message; tone = if ok then ok_tone else error_tone })

-- The messages of the console; those of the page of a route are P.
pub data Message (P : Type 0) : Type 0 where
  close_toast open_account close_account log_out log_in save_username save_password : Message P
  go : RouteId → Message P
  type_username type_password type_name type_old type_new : String → Message P
  on_page : P → Message P

unfoldable pub route_label : RouteId → String
route_label dashboard = "仪表盘"
route_label cache = "缓存"
route_label apk = "APK"
route_label apt = "APT"
route_label upstreams = "上游"
route_label proxy = "代理"
route_label config = "配置"
route_label logs = "日志"
route_label system = "系统"

unfoldable pub route_icon : RouteId → String
route_icon dashboard = "ChartNoAxesCombined"
route_icon cache = "Database"
route_icon apk = "PackageOpen"
route_icon apt = "Boxes"
route_icon upstreams = "GitBranch"
route_icon proxy = "Network"
route_icon config = "Settings"
route_icon logs = "FileText"
route_icon system = "ServerCog"

-- The inputs of AuthScreen.
pub record AuthForm : Type 0 where
  pub username : String
  pub password : String

abbrev pub new_auth_form : AuthForm
new_auth_form = record { username = "admin"; password = "" }

module _ {P : Type 0} where
  unfoldable pub labelled : String → Html (Message P) → Html (Message P)
  labelled label input = el "label" [] (el "span" [] (txt label ∷ []) ∷ input ∷ [])

  -- `error ? <ErrorMessage message={error} /> : null`
  unfoldable pub error_of : String → List (Html (Message P))
  error_of error = if str_eq error "" then [] else error_message error ∷ []

  unfoldable pub auth_screen : AuthForm → String → Html (Message P)
  auth_screen form error = el "section" (class_name "auth-shell" ∷ []) (
      el "form" (class_name "panel auth-card" ∷ on_submit log_in ∷ []) (
        el "h1" [] (txt "APK Cache Admin" ∷ [])
        ∷ el "div" (class_name "body form" ∷ []) (
            el "p" (class_name "hint" ∷ []) (txt "默认管理员为 admin / admin123456，首次登录后请立即修改。" ∷ [])
            ∷ labelled "用户名" (
                el "input"
                  (attr "value" form.username
                    ∷ attr "autoComplete" "username"
                    ∷ on_change type_username
                    ∷ [])
                  [])
            ∷ labelled "密码" (
                el "input"
                  (attr "type" "password"
                    ∷ attr "value" form.password
                    ∷ attr "autoComplete" "current-password"
                    ∷ on_change type_password
                    ∷ [])
                  [])
            ∷ el "button" (class_name "primary" ∷ attr "type" "submit" ∷ [])
                (icon "Lock" ∷ txt "登录" ∷ [])
            ∷ error_of error)
        ∷ [])
      ∷ [])

  unfoldable pub account_dialog : CurrentUser → App → Html (Message P)
  account_dialog user s = el "div" (class_name "modal-backdrop" ∷ []) (
      el "div" (class_name "panel modal form" ∷ []) (
        el "h2" [] (txt "账号安全" ∷ [])
        ∷ (when user.is_default_credential (error_message "当前仍在使用默认管理员凭据。")
            ++ (el "form" (class_name "form" ∷ on_submit save_username ∷ []) (
                  labelled "用户名" (
                    el "input"
                      (attr "value" s.form_username
                        ∷ attr "autoComplete" "username"
                        ∷ on_change type_name
                        ∷ [])
                      [])
                  ∷ el "div" (class_name "actions" ∷ [])
                      (el "button" (attr "type" "submit" ∷ []) (txt "保存用户名" ∷ []) ∷ [])
                  ∷ [])
                ∷ el "form" (class_name "form" ∷ on_submit save_password ∷ []) (
                    labelled "当前密码" (
                      el "input"
                        (attr "type" "password"
                          ∷ attr "value" s.old_password
                          ∷ attr "autoComplete" "current-password"
                          ∷ on_change type_old
                          ∷ [])
                        [])
                    ∷ labelled "新密码" (
                        el "input"
                          (attr "type" "password"
                            ∷ attr "value" s.new_password
                            ∷ attr "autoComplete" "new-password"
                            ∷ on_change type_new
                            ∷ [])
                          [])
                    ∷ el "div" (class_name "actions" ∷ []) (
                        el "button" (class_name "primary" ∷ attr "type" "submit" ∷ [])
                          (txt "保存密码" ∷ [])
                        ∷ [])
                    ∷ [])
                ∷ (error_of s.form_error
                    ++ (el "div" (class_name "actions" ∷ [])
                          (button close_account (txt "取消" ∷ []) ∷ [])
                        ∷ [])))))
      ∷ [])

  unfoldable pub header : CurrentUser → Html (Message P)
  header user = el "header" [] (
      el "strong" [] (txt "APK Cache Admin" ∷ [])
      ∷ el "div" (class_name "user" ∷ []) (
          when user.is_default_credential
            (el "span" (class_name "warning-pill" ∷ []) (icon "AlertTriangle" ∷ txt "默认凭据" ∷ []))
          ++ (el "span" [] (txt (if str_eq user.username "" then "admin" else user.username) ∷ [])
              ∷ button open_account (icon "KeyRound" ∷ txt "账号安全" ∷ [])
              ∷ button log_out (icon "LogOut" ∷ txt "退出" ∷ [])
              ∷ []))
      ∷ [])

  unfoldable pub nav_button : RouteId → RouteId → Html (Message P)
  nav_button route item =
      el "button"
        (class_name (if bytes_eq (route_name route) (route_name item) then "active" else "")
          ∷ attr "type" "button"
          ∷ on_click (go item)
          ∷ [])
        (icon (route_icon item) ∷ el "span" [] (txt (route_label item) ∷ []) ∷ [])

  -- `view` is RouteView: the page of a route.
  unfoldable pub app_view :
      (RouteId → Html (Message P)) → App → AuthForm → Option ToastState → List (Html (Message P))
  app_view view s form shown = elim s.user [
    | none ↦ auth_screen form s.auth_error ∷ toast shown close_toast
    | some user ↦
        header user
        ∷ el "div" (class_name "layout" ∷ [])
            (el "nav" [] (map (nav_button s.route) routes) ∷ el "main" [] (view s.route ∷ []) ∷ [])
        ∷ (when s.account_open (account_dialog user s) ++ toast shown close_toast)
  ]
