-- ===== src/Console/Pages/PackagesLaws.antt =====
-- What a search of a list asks for, and where its pages lead.
use apk_cache.Prelude.{
  ℕ, ◌*◌, ◌≤◌, ◌<◌, ◌≡◌, ◌↔◌, refl, inl, inr, String, false, ◌&&◌, List, [], ◌∷◌, ◌==◌, str_eq,
  eq_iff, Bool-cases, arith,
}
use apk_cache.Console.Script.{Script, Input, resolved, rejected, reply, answer, run}
use apk_cache.Console.Utils.{trim}
use apk_cache.Console.Pages.Packages.{
  Listing, PackageList, Payload, page_size, rows_request, load, apply_search, page_count, last_page,
}

-- The one request of a handler's run, and the place in the list that it leaves.
abbrev pub AsksFor :
    Listing → ℕ → String → List (Input Payload) → Script PackageList Payload → PackageList → Type 0
AsksFor listing n q inputs h s =
    ((run h inputs s).sent ≡ rows_request listing n q ∷ [])
    × ((run h inputs s).state.page ≡ n)
    × ((run h inputs s).state.query_text ≡ q)

load-AsksFor :
    (listing : Listing) (n : ℕ) (q : String) (inputs : List (Input Payload)) (s : PackageList)
    → s.page ≡ n
    → s.query_text ≡ q
    → AsksFor listing n q inputs (load listing n q) s
unfolding load
load-AsksFor listing n q [] s hp hq = (refl, hp, hq)
load-AsksFor listing n q (answer b ∷ rest) s hp hq = (refl, hp, hq)
load-AsksFor listing n q (reply (resolved p) ∷ rest) s hp hq = (refl, hp, hq)
load-AsksFor listing n q (reply (rejected m) ∷ rest) s hp hq = (refl, hp, hq)

-- A search asks once, for the first page of the trimmed text, and leaves that page and that text,
-- whatever page and text were shown before and whatever is answered.
pub apply_search-AsksFor :
    (listing : Listing) (inputs : List (Input Payload)) (s : PackageList)
    → AsksFor listing 1 (trim s.draft) inputs (apply_search listing s) s
unfolding apply_search
apply_search-AsksFor listing inputs s =
    elim (Bool-cases (s.page == 1 && str_eq s.query_text (trim s.draft))) [
      | inl same ↦
          rw (same, apply_search)
            (load-AsksFor listing 1 (trim s.draft) inputs s (ground arith)
              (ground (arith, eq_iff s.query_text (trim s.draft))))
      | inr other ↦
          rw (other, apply_search)
            (load-AsksFor listing 1 (trim s.draft) inputs
              (record s { page = 1; query_text = trim s.draft }) refl refl)
    ]

-- The button for the next page is enabled exactly if there are rows after the page shown.
pub last_page-eq-false :
    (total page : ℕ)
    → 1 ≤ page
    → (last_page total page page_size ≡ false) ↔ (page * page_size < total)
unfolding last_page page_count
last_page-eq-false total page h = (λ e. ground arith, λ e. ground arith)
