-- ===== src/Console/Pages/Cache.antt =====
-- pages/CachePage.tsx: the list of cache objects with its filters, the dialog of one object and the
-- operations. A handler gets the filters of the render that it was made in, as its closure does.
use mathlib.Core.Option.{get_or}
use apk_cache.Prelude.{
  ℕ, zero, suc, ◌+◌, ◌-◌, ◌*◌, String, Bool, true, false, Option, none, some, List, [], ◌∷◌, ◌++◌,
  leb, str_eq, if◌then◌else◌,
}
use apk_cache.Console.Json.{
  Json, Items, nil, cons, arr, null, flag, num, text, obj, end, field, Method, Segment, word, id,
  Request,
}
use apk_cache.Console.Utils.{lines}
use apk_cache.Console.Script.{
  Script, resolved, rejected, finish, update, notify, call, ask, awaiting, catching,
}

-- types.ts, CacheObject
pub record CacheObject : Type 0 where
  pub object_id : ℕ
  pub protocol : String
  pub class : String
  pub host : String
  pub request_path : String
  pub cache_path : String
  pub size_bytes : ℕ
  pub content_type : String
  pub cache_status : String
  pub validation_status : String
  pub last_error : String
  pub first_cached_at : String
  pub last_accessed_at : String
  pub updated_at : String

pub record CacheFilters : Type 0 where
  pub q : String
  pub protocol : String
  pub class : String
  pub status : String
  pub page : ℕ
  pub page_size : ℕ

abbrev pub default_filters : CacheFilters
default_filters = record {
  q = "";
  protocol = "";
  class = "";
  status = "";
  page = 1;
  page_size = 50;
}

pub record DetailState : Type 0 where
  pub detail_id : ℕ
  pub loading : Bool
  pub content : Option Json
  pub error : String

-- The component's `useState` variables.
pub record CachePage : Type 0 where
  pub filters : CacheFilters
  pub draft : CacheFilters
  pub items : List CacheObject
  pub total : ℕ
  pub detail : Option DetailState
  pub prewarm : String
  pub error : String
  pub loading : Bool

abbrev pub initial : CachePage
initial = record {
  filters = default_filters;
  draft = default_filters;
  items = [];
  total = 0;
  detail = none;
  prewarm = "";
  error = "";
  loading = true;
}

-- The payloads that the page reads. A field that the server leaves out or sends as null is `none`.
pub data Payload : Type 0 where
  objects : Option (List CacheObject) → Option ℕ → Payload
  object_detail : Json → Payload
  count : ℕ → Payload

abbrev pub Handler : Type 0
Handler = Script CachePage Payload

-- `data.items || []`, `data.total || 0`
unfoldable pub items_of : Payload → List CacheObject
items_of (objects i t) = get_or i []
items_of p = []

unfoldable pub total_of : Payload → ℕ
total_of (objects i t) = get_or t 0
total_of p = 0

-- A parameter of the query is set if its value is truthy.
unfoldable pub text_param : String → String → List (String × Json)
text_param key value = if str_eq value "" then [] else (key, text value) ∷ []

unfoldable pub number_param : String → ℕ → List (String × Json)
number_param key zero = []
number_param key (suc n) = (key, num (suc n)) ∷ []

unfoldable pub query_of : CacheFilters → List (String × Json)
query_of f =
    text_param "q" f.q
    ++ (text_param "protocol" f.protocol
        ++ (text_param "class" f.class
            ++ (text_param "status" f.status
                ++ (number_param "page" f.page ++ number_param "page_size" f.page_size))))

abbrev pub list_request : CacheFilters → Request
list_request f = record {
  method = Method.get;
  path = word "cache" ∷ word "objects" ∷ [];
  query = query_of f;
  body = null;
}

abbrev pub set_loading : Bool → CachePage → CachePage
set_loading b s = record s { loading = b }

abbrev pub set_error : String → CachePage → CachePage
set_error m s = record s { error = m }

abbrev pub set_detail : Option DetailState → CachePage → CachePage
set_detail d s = record s { detail = d }

abbrev pub set_rows : Payload → CachePage → CachePage
set_rows p s = record s { items = items_of p; total = total_of p }

-- load: the `finally` part ends both branches.
unfoldable pub load : CacheFilters → Handler
load filters = update (set_loading true) (
    update (set_error "") (
      call (list_request filters) (λ a. elim a [
        | resolved p ↦ update (set_rows p) (update (set_loading false) finish)
        | rejected m ↦ update (set_error m) (update (set_loading false) finish)
      ])))

-- setFilters: the effect on [filters] loads with the new filters.
unfoldable pub set_filters : CacheFilters → Handler
set_filters f = update (λ (s : CachePage). record s { filters = f }) (load f)

unfoldable pub search : CacheFilters → Handler
search draft = update (set_detail none) (set_filters (record draft { page = 1 }))

unfoldable pub previous_page : CacheFilters → Handler
previous_page filters = set_filters (record filters { page = filters.page - 1 })

unfoldable pub next_page : CacheFilters → Handler
next_page filters = set_filters (record filters { page = filters.page + 1 })

-- The `disabled` of the two buttons.
unfoldable pub previous_disabled : CachePage → Bool
previous_disabled s = leb s.filters.page 1

unfoldable pub next_disabled : CachePage → Bool
next_disabled s = leb s.total (s.filters.page * s.filters.page_size)

abbrev pub detail_of : ℕ → Bool → Option Json → String → Option DetailState
detail_of n loading content error =
    some (record { detail_id = n; loading = loading; content = content; error = error })

unfoldable pub content_of : Payload → Json
content_of (object_detail j) = j
content_of p = null

abbrev pub object_request : Method → ℕ → Request
object_request m n = record {
  method = m;
  path = word "cache" ∷ word "objects" ∷ id n ∷ [];
  query = [];
  body = null;
}

unfoldable pub show_detail : CacheObject → Handler
show_detail item = update (set_detail (detail_of item.object_id true none "")) (
    call (object_request Method.get item.object_id) (λ a. elim a [
      | resolved p ↦
          update (set_detail (detail_of item.object_id false (some (content_of p)) "")) finish
      | rejected m ↦
          update (set_detail (detail_of item.object_id false none m)) (notify m false finish)
    ]))

unfoldable pub close_detail : Handler
close_detail = update (set_detail none) finish

-- `{ ...filters, dry_run }`
unfoldable pub delete_body : CacheFilters → Bool → Json
delete_body f dry_run = obj (
    field "q" (text f.q) (
      field "protocol" (text f.protocol) (
        field "class" (text f.class) (
          field "status" (text f.status) (
            field "page" (num f.page)
              (field "page_size" (num f.page_size) (field "dry_run" (flag dry_run) end)))))))

abbrev pub post : List Segment → Json → Request
post path body = record { method = Method.post; path = path; query = []; body = body }

abbrev pub delete_request : CacheFilters → Bool → Request
delete_request f dry_run = post (word "cache" ∷ word "delete" ∷ []) (delete_body f dry_run)

unfoldable pub batch_delete : CacheFilters → Handler
batch_delete filters = awaiting (delete_request filters true) (λ dry.
    ask "delete the matching cache objects?" (λ confirmed. elim confirmed [
      | false ↦ finish
      | true ↦
          awaiting (delete_request filters false) (λ result. notify "deleted" true (load filters))
    ]))

unfoldable pub delete_one : CacheFilters → CacheObject → Handler
delete_one filters item = ask "delete this cache object?" (λ confirmed. elim confirmed [
  | false ↦ finish
  | true ↦
      awaiting (object_request Method.delete item.object_id)
        (λ _. notify "deleted" true (load filters))
])

unfoldable pub reconcile : CacheFilters → Handler
reconcile filters = catching (
    awaiting (post (word "cache" ∷ word "reconcile" ∷ []) null)
      (λ result. notify "scanned" true (load filters)))

unfoldable pub clear_memory : Handler
clear_memory = catching (
    awaiting (post (word "cache" ∷ word "memory" ∷ word "clear" ∷ []) null)
      (λ _. notify "memory cache cleared" true finish))

abbrev texts : List String → Items
texts [] = nil
texts (s ∷ rest) = cons (text s) (texts rest)

-- The button that fetches URLs ahead, with the text of the render.
unfoldable pub prewarm_urls : String → Handler
prewarm_urls prewarm = catching (
    awaiting
      (post (word "cache" ∷ word "prewarm" ∷ [])
        (obj (field "urls" (arr (texts (lines prewarm))) end)))
      (λ result. notify "urls fetched" true finish))

-- The onChange handlers of the form: the draft and the text of the URLs.
unfoldable pub edit_draft : CacheFilters → CachePage → CachePage
edit_draft f s = record s { draft = f }

unfoldable pub edit_prewarm : String → CachePage → CachePage
edit_prewarm urls s = record s { prewarm = urls }
