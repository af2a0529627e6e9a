-- ===== src/Console/Pages/CacheLaws.antt =====
-- What the handlers of the cache page send and leave, for every server and every user.
use apk_cache.Prelude.{
  ℕ, ◌+◌, ◌-◌, ◌*◌, ◌≤◌, ◌<◌, ◌≡◌, ◌⊎◌, refl, inl, inr, true, false, some, List, [], ◌∷◌, leb, All,
  arith,
}
use apk_cache.Console.Json.{Request}
use apk_cache.Console.Script.{
  Reply, Input, resolved, rejected, reply, answer, finished, run, resume,
}
use apk_cache.Console.Pages.Cache.{
  CacheObject, CacheFilters, CachePage, Payload, items_of, total_of, load, set_filters, next_page,
  previous_page, next_disabled, previous_disabled, detail_of, content_of, show_detail, close_detail,
  delete_body, delete_request, batch_delete, list_request,
}

-- Some element has the property.
abbrev pub Any : (Request → Type 0) → List Request → Type 0
Any P [] = ⊥
Any P (x ∷ xs) = P x ⊎ Any P xs

-- The inputs begin with a settled dry run and a yes to the question.
abbrev pub IsConfirmed : List (Input Payload) → Type 0
IsConfirmed (reply (resolved p) ∷ answer true ∷ rest) = Unit
IsConfirmed _ = ⊥

not_dry : (f g : CacheFilters) → delete_request f true ≡ delete_request g false → ⊥
unfolding delete_body
not_dry f g e = cc

not_list : (f g : CacheFilters) → list_request f ≡ delete_request g false → ⊥
not_list f g e = cc

-- A batch delete that changes anything is sent only after the dry run has been answered and the
-- user has said yes.
pub batch_delete-IsConfirmed :
    (f g : CacheFilters) (inputs : List (Input Payload)) (s : CachePage)
    → Any (λ r. r ≡ delete_request g false) (run (batch_delete f) inputs s).sent
    → IsConfirmed inputs
unfolding batch_delete
batch_delete-IsConfirmed f g [] s (inl e) = not_dry f g e
batch_delete-IsConfirmed f g (reply (resolved p) ∷ []) s (inl e) = not_dry f g e
batch_delete-IsConfirmed f g (reply (resolved p) ∷ answer true ∷ rest) s h = tt
batch_delete-IsConfirmed f g (reply (resolved p) ∷ answer false ∷ rest) s (inl e) = not_dry f g e
batch_delete-IsConfirmed f g (reply (resolved p) ∷ reply a ∷ rest) s (inl e) = not_dry f g e
batch_delete-IsConfirmed f g (reply (rejected m) ∷ rest) s (inl e) = not_dry f g e
batch_delete-IsConfirmed f g (answer b ∷ rest) s (inl e) = not_dry f g e
batch_delete-IsConfirmed f g _ s (inr h) = absurd h

-- Once the dry run is answered and the user says yes, the requests are the dry run, the deletion with
-- the same filters, and after them at most loads of the list with these filters.
pub batch_delete-sent :
    (f : CacheFilters) (p : Payload) (rest : List (Input Payload)) (s : CachePage)
    → (later : List Request) × ((run
          (batch_delete f)
          (reply (resolved p) ∷ answer true ∷ rest)
          s).sent
        ≡ delete_request f true ∷ delete_request f false ∷ later)
      × All (λ r. r ≡ list_request f) later
unfolding batch_delete load
batch_delete-sent f p [] s = ([], refl, tt)
batch_delete-sent f p (answer b ∷ rest) s = ([], refl, tt)
batch_delete-sent f p (reply (rejected m) ∷ rest) s = ([], refl, tt)
batch_delete-sent f p (reply (resolved q) ∷ []) s = (list_request f ∷ [], refl, (refl, tt))
batch_delete-sent f p (reply (resolved q) ∷ answer b ∷ rest) s =
    (list_request f ∷ [], refl, (refl, tt))
batch_delete-sent f p (reply (resolved q) ∷ reply (resolved r) ∷ rest) s =
    (list_request f ∷ [], refl, (refl, tt))
batch_delete-sent f p (reply (resolved q) ∷ reply (rejected m) ∷ rest) s =
    (list_request f ∷ [], refl, (refl, tt))

-- How an answered load changes the page.
abbrev pub Settles : Reply Payload → CachePage → CachePage → Type 0
Settles (resolved p) s t =
    t ≡ record s { items = items_of p; total = total_of p; error = ""; loading = false }
Settles (rejected m) s t = t ≡ record s { error = m; loading = false }

-- A load ends once it is answered. The page is then not loading, and shows the rows of the reply, or
-- its error with the rows as they were; the filters, the draft and the dialog are not changed.
pub load-Settles :
    (f : CacheFilters) (a : Reply Payload) (s : CachePage)
    → ((run (load f) (reply a ∷ []) s).ending ≡ finished)
      × Settles a s (run (load f) (reply a ∷ []) s).state
unfolding load
load-Settles f (resolved p) s = (refl, refl)
load-Settles f (rejected m) s = (refl, refl)

-- The page after a load was started, other filters were set and answered, and then the answer of the
-- first load arrived.
abbrev pub overtaken : CacheFilters → CacheFilters → Payload → Payload → CachePage → CachePage
overtaken asked now old new s =
    let started = (run (load asked) [] s).state in
    let newer = (run (set_filters now) (reply (resolved new) ∷ []) started).state in
    (run (resume (load asked) (resolved old)) [] newer).state

-- When the answer of a load arrives after that of a load for other filters that was started later,
-- the page shows the rows of the earlier filters under the later ones.
pub overtaken_load :
    (asked now : CacheFilters) (old new : Payload) (s : CachePage)
    → overtaken asked now old new s ≡ record s {
      filters = now;
      items = items_of old;
      total = total_of old;
      error = "";
      loading = false;
    }
unfolding load set_filters
overtaken_load asked now old new s = refl

-- The page after a dialog was opened, was closed, and then the answer for it arrived.
abbrev pub reopened : CacheObject → Payload → CachePage → CachePage
reopened item p s =
    let started = (run (show_detail item) [] s).state in
    (run (resume (show_detail item) (resolved p)) [] (run close_detail [] started).state).state

-- A dialog that was closed while its object was being loaded is open again when the answer arrives.
pub stale_detail :
    (item : CacheObject) (p : Payload) (s : CachePage)
    → reopened item p s
      ≡ record s { detail = detail_of item.object_id false (some (content_of p)) "" }
unfolding show_detail close_detail
stale_detail item p s = refl

filters-set_filters :
    (f : CacheFilters) (inputs : List (Input Payload)) (s : CachePage)
    → (run (set_filters f) inputs s).state.filters ≡ f
unfolding set_filters load
filters-set_filters f [] s = refl
filters-set_filters f (answer b ∷ rest) s = refl
filters-set_filters f (reply (resolved p) ∷ rest) s = refl
filters-set_filters f (reply (rejected m) ∷ rest) s = refl

-- The page turned to lies within the list.
abbrev pub TurnsForward : CachePage → CacheFilters → Type 0
TurnsForward s f = (f.page ≡ s.filters.page + 1) × ((f.page - 1) * f.page_size < s.total)

abbrev pub TurnsBack : CachePage → CacheFilters → Type 0
TurnsBack s f = (1 ≤ f.page) × (f.page + 1 ≡ s.filters.page)

next_start : (page size total : ℕ) → leb total (page * size) ≡ false → (page + 1 - 1) * size < total
next_start page size total h = let e : page + 1 - 1 ≡ page = omega arith in rw e (ground arith)

-- The next page, when its button is enabled, starts before the end of the list, whatever is answered
-- then.
pub next_page-TurnsForward :
    (s : CachePage) (inputs : List (Input Payload))
    → next_disabled s ≡ false
    → TurnsForward s (run (next_page s.filters) inputs s).state.filters
unfolding next_page next_disabled
next_page-TurnsForward s inputs enabled =
    rw (filters-set_filters (record s.filters { page = s.filters.page + 1 }) inputs s)
      (refl, next_start s.filters.page s.filters.page_size s.total enabled)

-- The previous page, when its button is enabled, is one less and not below the first.
pub previous_page-TurnsBack :
    (s : CachePage) (inputs : List (Input Payload))
    → previous_disabled s ≡ false
    → TurnsBack s (run (previous_page s.filters) inputs s).state.filters
unfolding previous_page previous_disabled
previous_page-TurnsBack s inputs enabled =
    rw (filters-set_filters (record s.filters { page = s.filters.page - 1 }) inputs s)
      (ground arith, ground arith)
