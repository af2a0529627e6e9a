-- ===== src/Console/Pages/UpstreamsLaws.antt =====
-- What the form and the actions of the upstreams page send.
use apk_cache.Prelude.{ℕ, zero, suc, ◌≡◌, ◌⊎◌, refl, inl, inr, String, true, false, List, [], ◌∷◌}
use apk_cache.Console.Json.{null, Method, word, id, Request}
use apk_cache.Console.Script.{Input, resolved, rejected, reply, answer, run}
use apk_cache.Console.Pages.Upstreams.{
  Upstream, empty_upstream, UpstreamsPage, Payload, items_of, plain_request, load, body_of,
  submitted, submit, delete, action,
}

-- The request that saves a form: a new server is created, one with an id is replaced.
unfoldable pub saving_request : Upstream → Request
saving_request u = elim u.upstream_id [
  | zero ↦ plain_request Method.post (word "upstreams" ∷ []) (body_of u)
  | suc n ↦ plain_request Method.put (word "upstreams" ∷ id (suc n) ∷ []) (body_of u)
]

abbrev pub list_request : Request
list_request = plain_request Method.get (word "upstreams" ∷ []) null

-- What the form sends and leaves, when it is accepted and when it is refused.
abbrev pub Submits : Upstream → Payload → Payload → String → UpstreamsPage → Type 0
Submits u saved listed message s =
    ((run (submit u) (reply (resolved saved) ∷ reply (resolved listed) ∷ []) s).sent
      ≡ saving_request u ∷ list_request ∷ [])
    × ((run (submit u) (reply (resolved saved) ∷ reply (resolved listed) ∷ []) s).state
        ≡ record { items = items_of listed; editing = empty_upstream; error = ""; loading = false })
    × ((run (submit u) (reply (rejected message) ∷ []) s).sent ≡ saving_request u ∷ [])
    × ((run (submit u) (reply (rejected message) ∷ []) s).state ≡ s)

-- A form that is saved sends its one request and then loads the list, and leaves an empty form, the
-- new list and no error; one that is refused changes nothing on the page.
pub submit-Submits :
    (u : Upstream) (saved listed : Payload) (message : String) (s : UpstreamsPage)
    → Submits u saved listed message s
unfolding submit submitted load saving_request
submit-Submits u saved listed message s = go u.upstream_id refl
  where
    go : (n : ℕ) → u.upstream_id ≡ n → Submits u saved listed message s
    go zero e = simp (e, submit, saving_request) (refl, refl, refl, refl)
    go (suc n) e = simp (e, submit, saving_request) (refl, refl, refl, refl)

-- The first input is a yes to the question.
abbrev pub IsAgreed : List (Input Payload) → Type 0
IsAgreed (answer true ∷ rest) = Unit
IsAgreed _ = ⊥

abbrev pub SendsNothing : Upstream → List (Input Payload) → UpstreamsPage → Type 0
SendsNothing u inputs s = (run (action u delete) inputs s).sent ≡ []

-- The deletion of a server sends nothing, unless the first input is the user's yes.
pub delete-IsAgreed :
    (u : Upstream) (inputs : List (Input Payload)) (s : UpstreamsPage)
    → SendsNothing u inputs s ⊎ IsAgreed inputs
unfolding action
delete-IsAgreed u [] s = inl refl
delete-IsAgreed u (answer true ∷ rest) s = inr tt
delete-IsAgreed u (answer false ∷ rest) s = inl refl
delete-IsAgreed u (reply a ∷ rest) s = inl refl
