-- ===== src/Console/ViewRuns.antt =====
-- The views of the console on concrete inputs, and the theorems at them.
use mathlib.Core.List.{Perm}
use apk_cache.Prelude.{
  ℕ, ◌≡◌, ◌↔◌, refl, inl, inr, String, Bool, true, false, none, some, List, [], ◌∷◌, codes,
}
use apk_cache.Console.Json.{Json, num, text}
use apk_cache.Console.Html.{Html, txt, nodes, is_disabled, Sends, NodesSend}
use apk_cache.Console.Routes.{RouteId, dashboard}
use apk_cache.Console.Account.{App, CurrentUser}
use apk_cache.Console.Components.{toast}
use apk_cache.Console.AppView.{Message, close_toast, new_auth_form, show_toast, app_view}
use apk_cache.Console.AppViewLaws.{SignsIn, without_user}
use apk_cache.Console.Pages.Config.{
  Setting, string_type, ConfigPage, schema_map, changed_settings, lookup, put, draft_of,
}
use apk_cache.Console.Pages.ConfigLaws.{find_setting}
use apk_cache.Console.Pages.ConfigView.{
  Texts, is_toggle, value_editor, text_editor, editor, editor_disabled, groups,
}
use apk_cache.Console.Pages.ConfigViewLaws.{members, Fits, Once, groups_lem}
use apk_cache.Console.Pages.EditorLaws.{Edited, begin, edits, uneditable_unsent}
use apk_cache.Console.Pages.ListsView.{ListMessage, turned, apk_packages_view, apt_records_view}
use apk_cache.Console.Pages.ListsLaws.{Offers, lists_iff}

abbrev admin : CurrentUser
admin = record {
  authenticated = true;
  username = "admin";
  csrf_token = codes "t";
  is_default_credential = true;
}

abbrev signed_out : App
signed_out = record {
  user = none;
  route = dashboard;
  auth_error = "";
  account_open = false;
  csrf = [];
  cookies = [];
  pathname = codes "/admin/";
  form_username = "";
  old_password = "";
  new_password = "";
  form_error = "";
}

abbrev no_page : RouteId → Html (Message ℕ)
no_page route = txt "page"

toast_closes :
    NodesSend
      (nodes (app_view no_page signed_out new_auth_form (show_toast "hello" true)))
      close_toast
unfolding app_view toast show_toast is_disabled
toast_closes = inr (inl (inr (inr (inr (inl (inl (refl, inr (inr (inl refl)))))))))

without_user_example : SignsIn ℕ close_toast
without_user_example =
    without_user ℕ no_page signed_out new_auth_form (show_toast "hello" true) close_toast refl
      toast_closes

abbrev signed_in : App
signed_in = record signed_out { user = some admin }

-- Two settings, of which the second may not be edited.
abbrev setting : String → Bool → Setting
setting key editable = record {
  key = key;
  value = num 1;
  value_type = string_type;
  restart_required = false;
  updated_at = "";
  source = "";
  editable = editable;
  hot_reload = true;
}

abbrev two_settings : ConfigPage
two_settings = record {
  settings = setting "apk.a" true ∷ setting "apt.b" false ∷ [];
  schema = [];
  draft = [];
  error = "";
  loading = false;
}

groups_lem_example :
    Perm (members (groups two_settings)) two_settings.settings
    × Fits (schema_map [] []) (groups two_settings)
    × Once (groups two_settings)
groups_lem_example = groups_lem two_settings

abbrev texts : Texts
texts = record {
  number_of = λ t. num 0;
  number_text = λ v. "";
  value_text = λ v. "";
  array_text = λ v. "";
}

-- The first setting is edited.
abbrev edited_draft : List (String × Json)
edited_draft = put "apk.a" (text "x") (draft_of two_settings.settings [])

found_first : find_setting "apk.a" two_settings.settings ≡ some (setting "apk.a" true)
unfolding find_setting
found_first = refl

first-Sends :
    Sends
      (editor texts
        (λ v. v)
        (setting "apk.a" true)
        (lookup "apk.a" (schema_map two_settings.schema []))
        (lookup "apk.a" (draft_of two_settings.settings [])))
      (text "x")
unfolding editor is_toggle value_editor text_editor editor_disabled schema_map lookup is_disabled
first-Sends = inl (refl, inr (inr (inr (inl ("x", refl)))))

Edited-comes : Edited texts two_settings edited_draft
Edited-comes = edits (setting "apk.a" true) (text "x") begin found_first first-Sends

uneditable_unsent_example :
    lookup "apt.b" (changed_settings (λ v. "") (record two_settings { draft = edited_draft }))
    ≡ none
uneditable_unsent_example =
    uneditable_unsent texts (λ v. "") two_settings edited_draft (setting "apt.b" false)
      (unfold find_setting in (refl, (refl, tt))) (unfold find_setting in refl)
      (unfold editor_disabled in refl) Edited-comes

abbrev no_error : String
no_error = ""

abbrev on_second : ListMessage
on_second = turned 2

lists_iff_example :
    (NodesSend (nodes (apk_packages_view (λ n. "") (λ n. "") [] "" 1 60 no_error false)) on_second
      ↔ ((no_error ≡ "") × (false ≡ false) × Offers 60 1 on_second))
    × (NodesSend (nodes (apt_records_view (λ n. "") (λ n. "") [] "" 1 60 no_error false)) on_second
        ↔ ((no_error ≡ "") × (false ≡ false) × Offers 60 1 on_second))
lists_iff_example = lists_iff (λ n. "") (λ n. "") [] [] "" no_error 60 1 false on_second
