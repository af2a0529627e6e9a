-- ===== src/Console/Pages/Lists.antt =====
-- The pages APK and APT (pages/APKPage.tsx, pages/APTPage.tsx): the buttons that reload an index, the
-- lists of indexes, the keys, and the validation of an object.
use mathlib.Core.Option.{get_or}
use apk_cache.Prelude.{◌==◌, ℕ, String, Bool, true, Option, List, [], ◌∷◌, if◌then◌else◌}
use apk_cache.Console.Json.{Json, null, num, text, obj, field, end, Method, Segment, word, Request}
use apk_cache.Console.Script.{Script, finish, update, notify, awaiting, catching, after}
use apk_cache.Console.Pages.Packages as Packages
use apk_cache.Console.Pages.Packages.{Listing, apk_packages, apt_records, PackageList, page_size}

-- A reload: the request, the toast, and the load that follows.
abbrev post_request : List Segment → Json → Request
post_request path body = record { method = Method.post; path = path; query = []; body = body }

abbrev get_request : List Segment → Request
get_request path = record { method = Method.get; path = path; query = []; body = null }

unfoldable pub index_reload : Listing → Request
index_reload apk_packages = post_request (word "apk" ∷ word "indexes" ∷ word "reload" ∷ []) null
index_reload (apt_records b) = post_request (word "apt" ∷ word "indexes" ∷ word "reload" ∷ []) null

-- The button of a list: setPage(1) and load(1, queryText), with the text of the render. If another
-- page was shown, the effect loads the first page once more; here that load begins when the other one
-- is answered.
unfoldable pub reload_button : Listing → PackageList → Packages.Handler
reload_button listing s = catching (
    awaiting (index_reload listing) (λ _. notify "the index was reloaded" true (
      update (λ (t : PackageList). record t { page = 1 })
        (if s.page == 1
          then Packages.load listing 1 s.query_text
          else after (Packages.load listing 1 s.query_text)
              (Packages.load listing 1 s.query_text)))))

-- APKIndexes and APTIndexes: their rows are texts.
pub data IndexPayload : Type 0 where
  paths : Option (List String) → IndexPayload
  other : IndexPayload

unfoldable pub paths_of : IndexPayload → List String
paths_of (paths p) = get_or p []
paths_of other = []

unfoldable pub indexes_request : Listing → Request
indexes_request apk_packages = get_request (word "apk" ∷ word "indexes" ∷ [])
indexes_request (apt_records b) = get_request (word "apt" ∷ word "indexes" ∷ [])

unfoldable pub load_indexes : Listing → Script (List String) IndexPayload
load_indexes listing =
    awaiting (indexes_request listing) (λ p. update (λ (s : List String). paths_of p) finish)

unfoldable pub reload_indexes : Listing → Script (List String) IndexPayload
reload_indexes listing = catching (
    awaiting (index_reload listing)
      (λ _. notify "the index was reloaded" true (load_indexes listing)))

-- APKKeys: the status is JSON, null before the first answer.
unfoldable pub load_keys : Script Json Json
load_keys =
    awaiting (get_request (word "apk" ∷ word "keys" ∷ []))
      (λ status. update (λ (s : Json). status) finish)

unfoldable pub reload_keys : Script Json Json
reload_keys = catching (
    awaiting (post_request (word "apk" ∷ word "keys" ∷ word "reload" ∷ []) null)
      (λ _. notify "the keys were reloaded" true load_keys))

-- APTValidate: the id is the number of its text.
pub record Validate : Type 0 where
  pub id : ℕ
  pub cache_path : String
  pub request_path : String

unfoldable pub validate_body : Validate → Json
validate_body s = obj (
    field "id" (num s.id)
      (field "cache_path" (text s.cache_path) (field "request_path" (text s.request_path) end)))

abbrev pub validate_request : Validate → Request
validate_request s = post_request (word "apt" ∷ word "validate" ∷ []) (validate_body s)

unfoldable pub validate : Validate → Script Validate Bool
validate s =
    awaiting (validate_request s)
      (λ valid. notify (if valid then "valid" else "not valid") valid finish)

-- `void submit()`: unlike the other buttons, nothing catches what submit throws.
unfoldable pub validate_button : Validate → Script Validate Bool
unfolding validate
validate_button s = validate s
