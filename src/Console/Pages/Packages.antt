-- ===== src/Console/Pages/Packages.antt =====
-- The lists with a search: APKPackages of pages/APKPage.tsx, lines 31-64, and APTRecords of
-- pages/APTPage.tsx, lines 49-83, which differ in their path and in `by_hash`; and Pagination of
-- components.tsx. A row is JSON: the pages only show it. The effect on [queryText, page] runs `load`
-- after a handler that has changed one of them.
use mathlib.Core.Option.{get_or}
use apk_cache.Prelude.{
  ℕ, ◌+◌, ◌-◌, ◌/◌, String, Bool, true, false, ◌&&◌, Option, List, [], ◌∷◌, ◌++◌, ltb, leb, ◌==◌,
  str_eq, if◌then◌else◌,
}
use apk_cache.Console.Json.{Json, null, num, text, Method, word, Request}
use apk_cache.Console.Script.{Script, resolved, rejected, finish, update, call}
use apk_cache.Console.Utils.{trim}

-- Which list the component shows: APKPackages, or APTRecords with its `byHashOnly`.
pub data Listing : Type 0 where
  apk_packages : Listing
  apt_records : Bool → Listing

pub record PackageList : Type 0 where
  pub items : List Json
  pub draft : String
  pub query_text : String
  pub page : ℕ
  pub total : ℕ
  pub error : String
  pub loading : Bool

pub data Payload : Type 0 where
  rows : Option (List Json) → Option ℕ → Payload
  other : Payload

abbrev pub Handler : Type 0
Handler = Script PackageList Payload

abbrev pub page_size : ℕ
page_size = 50

unfoldable pub rows_of : Payload → List Json
rows_of (rows i t) = get_or i []
rows_of other = []

unfoldable pub total_rows : Payload → ℕ
total_rows (rows i t) = get_or t 0
total_rows other = 0

unfoldable pub search_param : String → List (String × Json)
search_param q = if str_eq q "" then [] else ("q", text q) ∷ []

unfoldable pub rows_request : Listing → ℕ → String → Request
unfolding search_param
rows_request apk_packages page q = record {
  method = Method.get;
  path = word "apk" ∷ word "packages" ∷ [];
  query = ("page", num page) ∷ ("page_size", num page_size) ∷ search_param q;
  body = null;
}
rows_request (apt_records by_hash_only) page q = record {
  method = Method.get;
  path = word "apt" ∷ word "records" ∷ [];
  query =
      ("page", num page)
      ∷ ("page_size", num page_size)
      ∷ (search_param q ++ (if by_hash_only then ("by_hash", text "1") ∷ [] else []));
  body = null;
}

unfoldable pub load : Listing → ℕ → String → Handler
load listing page q =
    update (λ (s : PackageList). record s { loading = true; error = "" })
      (call (rows_request listing page q) (λ a. elim a [
        | resolved p ↦
            update
              (λ (s : PackageList). record s {
                items = rows_of p;
                total = total_rows p;
                loading = false;
              })
              finish
        | rejected m ↦ update (λ (s : PackageList). record s { error = m; loading = false }) finish
      ]))

-- applySearch in the state `s` of the render: the same page and text are loaded by the handler, other
-- ones by the effect.
unfoldable pub apply_search : Listing → PackageList → Handler
apply_search listing s =
    let next = trim s.draft in
    if s.page == 1 && str_eq s.query_text next
    then load listing 1 next
    else update (λ (t : PackageList). record t { page = 1; query_text = next })
        (load listing 1 next)

-- setPage: a page that is shown already changes nothing.
unfoldable pub set_page : Listing → ℕ → PackageList → Handler
set_page listing n s =
    if s.page == n
    then finish
    else update (λ (t : PackageList). record t { page = n }) (load listing n s.query_text)

-- Math.max(1, Math.ceil(total / pageSize)), for a page size that is not 0
unfoldable pub page_count : ℕ → ℕ → ℕ
page_count total size = let pages = (total + size - 1) / size in if ltb pages 1 then 1 else pages

unfoldable pub first_page : ℕ → Bool
first_page page = leb page 1

unfoldable pub last_page : ℕ → ℕ → ℕ → Bool
last_page total page size = leb (page_count total size) page
