-- ===== src/Console/Pages/ListsView.antt =====
-- What the pages APK and APT show (pages/APKPage.tsx, pages/APTPage.tsx). The texts of sizes
-- (formatBytes), of numbers and of JSON are parameters.
use apk_cache.Prelude.{
  ℕ, String, Bool, Option, none, some, List, [], ◌∷◌, map, str_eq, if◌then◌else◌,
}
use apk_cache.Console.Json.{Json}
use apk_cache.Console.Html.{Html, txt, icon, class_name, attr, on_click, on_change, on_enter, el}
use apk_cache.Console.Components.{
  page, panel, code, data_table, pagination, json_block, loading_message, error_message, button,
}
use apk_cache.Console.Pages.Packages.{page_size}

pub data ApkTab : Type 0 where
  packages indexes keys : ApkTab

pub data AptTab : Type 0 where
  records apt_indexes byhash mirrors validation : AptTab

unfoldable pub apk_tab_name : ApkTab → String
apk_tab_name packages = "packages"
apk_tab_name indexes = "indexes"
apk_tab_name keys = "keys"

unfoldable pub apt_tab_name : AptTab → String
apt_tab_name records = "records"
apt_tab_name apt_indexes = "indexes"
apt_tab_name byhash = "byhash"
apt_tab_name mirrors = "mirrors"
apt_tab_name validation = "validate"

-- types.ts, APKPackage and APTRecord: what the rows show of them.
pub record ApkPackage : Type 0 where
  pub index_cache_path : String
  pub package_name : String
  pub version : String
  pub checksum_algorithm : String
  pub size_bytes : ℕ

pub record AptRecord : Type 0 where
  pub source_index_cache_path : String
  pub record_type : String
  pub package_name : Option String
  pub filename : String
  pub size_bytes : ℕ
  pub sha256 : Option String

-- The messages of a list.
pub data ListMessage : Type 0 where
  set_draft : String → ListMessage
  searched reloaded : ListMessage
  turned : ℕ → ListMessage

-- `value || ''`
unfoldable pub or_empty : Option String → String
or_empty none = ""
or_empty (some t) = t

module _ {A : Type 0} where
  unfoldable pub tab_button : Bool → A → String → Html A
  tab_button active set_tab label =
      el "button"
        (class_name (if active then "active" else "")
          ∷ attr "type" "button"
          ∷ on_click set_tab
          ∷ [])
        (txt label ∷ [])

  unfoldable pub apk_tabs : ApkTab → (ApkTab → A) → Html A
  unfolding apk_tab_name
  apk_tabs tab set_tab =
      let is_tab = λ (t : ApkTab). str_eq (apk_tab_name tab) (apk_tab_name t) in
      el "div" (class_name "tabs-inline" ∷ []) (
        tab_button (is_tab packages) (set_tab packages) "包列表"
        ∷ tab_button (is_tab indexes) (set_tab indexes) "APKINDEX"
        ∷ tab_button (is_tab keys) (set_tab keys) "公钥"
        ∷ [])

  -- The content of the tab that is shown.
  unfoldable pub apk_page : ApkTab → (ApkTab → A) → (ApkTab → List (Html A)) → Html A
  apk_page tab set_tab content = page "APK" (apk_tabs tab set_tab ∷ []) (content tab)

  unfoldable pub apt_tabs : AptTab → (AptTab → A) → Html A
  unfolding apt_tab_name
  apt_tabs tab set_tab =
      let is_tab = λ (t : AptTab). str_eq (apt_tab_name tab) (apt_tab_name t) in
      el "div" (class_name "tabs-inline" ∷ []) (
        tab_button (is_tab records) (set_tab records) "包记录"
        ∷ tab_button (is_tab apt_indexes) (set_tab apt_indexes) "Release/Packages"
        ∷ tab_button (is_tab byhash) (set_tab byhash) "by-hash"
        ∷ tab_button (is_tab mirrors) (set_tab mirrors) "镜像站"
        ∷ tab_button (is_tab validation) (set_tab validation) "校验"
        ∷ [])

  unfoldable pub apt_page : AptTab → (AptTab → A) → (AptTab → List (Html A)) → Html A
  apt_page tab set_tab content = page "APT" (apt_tabs tab set_tab ∷ []) (content tab)

  -- The toolbar of the tabs with one button.
  unfoldable pub reload_toolbar : A → String → String → Html A
  reload_toolbar reload icon_name label =
      el "div" (class_name "toolbar" ∷ []) (button reload (icon icon_name ∷ txt label ∷ []) ∷ [])

-- An error comes before the loading text, and that before the list.
unfoldable pub list_view : String → Bool → List (Html ListMessage) → List (Html ListMessage)
list_view error loading content =
    if str_eq error ""
    then if loading then loading_message ∷ [] else content
    else error_message error ∷ []

module _ (decimal : ℕ → String) (format_bytes : ℕ → String) where
  unfoldable pub apk_row : ApkPackage → List (Html ListMessage)
  apk_row item =
      code (txt item.index_cache_path)
      ∷ txt item.package_name
      ∷ txt item.version
      ∷ txt item.checksum_algorithm
      ∷ txt (format_bytes item.size_bytes)
      ∷ []

  unfoldable pub apt_row : AptRecord → List (Html ListMessage)
  unfolding or_empty
  apt_row item =
      code (txt item.source_index_cache_path)
      ∷ txt item.record_type
      ∷ txt (or_empty item.package_name)
      ∷ code (txt item.filename)
      ∷ txt (format_bytes item.size_bytes)
      ∷ code (txt (or_empty item.sha256))
      ∷ []

  -- A list: the toolbar with the search, the table of the rows given and the pages.
  unfoldable pub list_content :
      String
      → List String
      → List (List (Html ListMessage))
      → String
      → ℕ
      → ℕ
      → List (Html ListMessage)
  list_content hint columns rows draft total shown =
      el "div" (class_name "toolbar" ∷ []) (
        el "input"
          (attr "placeholder" hint
            ∷ attr "value" draft
            ∷ on_change set_draft
            ∷ on_enter searched
            ∷ [])
          []
        ∷ button searched (icon "Search" ∷ txt "搜索" ∷ [])
        ∷ button reloaded (icon "RefreshCw" ∷ txt "重载索引" ∷ [])
        ∷ [])
      ∷ data_table decimal columns "" rows
      ∷ pagination decimal total shown page_size turned
      ∷ []

  unfoldable pub apk_packages_view :
      List ApkPackage → String → ℕ → ℕ → String → Bool → List (Html ListMessage)
  unfolding list_view
  apk_packages_view items draft shown total error loading = list_view error loading (
      list_content "包名/版本" ("Index" ∷ "Package" ∷ "Version" ∷ "Hash" ∷ "Size" ∷ [])
        (map apk_row items) draft total shown)

  unfoldable pub apt_records_view :
      List AptRecord → String → ℕ → ℕ → String → Bool → List (Html ListMessage)
  unfolding list_view
  apt_records_view items draft shown total error loading = list_view error loading (
      list_content "package / filename / sha256"
        ("Index" ∷ "Type" ∷ "Package" ∷ "Filename" ∷ "Size" ∷ "SHA256" ∷ []) (map apt_row items)
        draft total shown)

  -- APKIndexes and APTIndexes
  unfoldable pub indexes_view : {A : Type 0} → List String → A → List (Html A)
  indexes_view items reload =
      reload_toolbar reload "RefreshCw" "重载索引"
      ∷ data_table decimal ("缓存路径" ∷ []) "" (map (λ item. code (txt item) ∷ []) items)
      ∷ []

  unfoldable pub keys_view : {A : Type 0} → (Json → String) → Json → A → List (Html A)
  keys_view print status reload =
      reload_toolbar reload "KeyRound" "重载公钥" ∷ panel "公钥状态" "" (json_block print status ∷ []) ∷ []

-- The messages of the form of APTValidate.
pub data ValidateMessage : Type 0 where
  set_id set_cache_path set_request_path : String → ValidateMessage
  submitted : ValidateMessage

-- A label with its input.
unfoldable pub labelled : {A : Type 0} → String → Html A → Html A
labelled label input = el "label" [] (el "span" [] (txt label ∷ []) ∷ input ∷ [])

unfoldable pub validate_view : String → String → String → Html ValidateMessage
validate_view id cache_path request_path = panel "手动校验" "" (
    el "div" (class_name "form" ∷ []) (
      labelled "Cache Object ID" (
        el "input" (attr "type" "number" ∷ attr "min" "1" ∷ attr "value" id ∷ on_change set_id ∷ [])
          [])
      ∷ labelled "Cache Path"
          (el "input" (attr "value" cache_path ∷ on_change set_cache_path ∷ []) [])
      ∷ labelled "Request Path"
          (el "input" (attr "value" request_path ∷ on_change set_request_path ∷ []) [])
      ∷ el "div" (class_name "actions" ∷ []) (
          el "button" (class_name "primary" ∷ attr "type" "button" ∷ on_click submitted ∷ [])
            (icon "ShieldCheck" ∷ txt "校验" ∷ [])
          ∷ [])
      ∷ [])
    ∷ [])
