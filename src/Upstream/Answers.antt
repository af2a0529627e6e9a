-- ===== src/Upstream/Answers.antt =====
-- The answers of the servers that Fetch asks, and the bodies that its calls receive and close.
use mathlib.Core.List.{append_assoc}
use apk_cache.Prelude.{
  ℕ, suc, ◌≡◌, refl, ap, sym, ◌∙◌, String, Bool, true, false, ◌||◌, arith, ◌⊎◌, inl, inr, Option,
  none, some, List, [], ◌∷◌, ◌++◌, ◌==◌, Bool-cases, Option-cases, ⊎-cases,
}
use apk_cache.Upstream.{Error, no_available, Server, mark}
use apk_cache.Upstream.Headers.{copy_end_to_end_headers}
use apk_cache.Upstream.Paths.{build_url}
use apk_cache.Upstream.Fetch.{
  Response, Event, requested, failed_over, sent, received, closed, Result, returned, failed, Done,
  is_ok, finish, close_last, logged, Calls, received_by, ask,
}

-- What each address is asked, by the number of the attempt, and what it answers.
abbrev pub Asked : Type 0
Asked = ℕ → ℕ → List Event × (String ⊎ Response)

abbrev pub IsGood : Response → Type 0
IsGood resp = (resp.status ≡ 200) ⊎ (resp.status ≡ 206)

pub is_ok_lem :
    (resp : Response)
    → (IsGood resp × (is_ok resp ≡ true)) ⊎ ((¬ IsGood resp) × (is_ok resp ≡ false))
unfolding is_ok
is_ok_lem resp = elim (Bool-cases (resp.status == 200)) [
  | inl e ↦ inl (inl (ground (arith, e)), rw e refl)
  | inr e ↦ elim (Bool-cases (resp.status == 206)) [
    | inl e2 ↦ inl (inr (ground (arith, e2)), rw (e, e2) refl)
    | inr e2 ↦ inr (λ good. ground (arith, e, e2, good), rw (e, e2) refl)
  ]
]

abbrev pub IsBad : String ⊎ Response → Type 0
IsBad (inl e) = Unit
IsBad (inr resp) = ¬ IsGood resp

-- No answer of the servers is good, from the attempt `idx` on.
abbrev pub AllBad : Asked → ℕ → List ℕ → Type 0
AllBad asked idx [] = Unit
AllBad asked idx (a ∷ rest) = IsBad (asked idx a).1 × AllBad asked (suc idx) rest

unfoldable pub or_answer : Option Response → String ⊎ Response → Option Response
or_answer last (inl e) = last
or_answer last (inr resp) = some resp

-- The last response of the servers, or `last` if none has answered.
unfoldable pub latest : Asked → ℕ → Option Response → List ℕ → Option Response
latest asked idx last [] = last
latest asked idx last (a ∷ rest) = latest asked (suc idx) (or_answer last (asked idx a).1) rest

unfoldable pub is_among : ℕ → List ℕ → Bool
is_among b [] = false
is_among b (a ∷ rest) = a == b || is_among b rest

unfoldable pub received_of : List Event → List ℕ
received_of [] = []
received_of (received b ∷ log) = b ∷ received_of log
received_of (closed b ∷ log) = received_of log
received_of (sent p t h ∷ log) = received_of log
received_of (requested ∷ log) = received_of log
received_of (failed_over ∷ log) = received_of log

unfoldable pub closed_of : List Event → List ℕ
closed_of [] = []
closed_of (received b ∷ log) = closed_of log
closed_of (closed b ∷ log) = b ∷ closed_of log
closed_of (sent p t h ∷ log) = closed_of log
closed_of (requested ∷ log) = closed_of log
closed_of (failed_over ∷ log) = closed_of log

abbrev pub body_of : Option Response → List ℕ
body_of none = []
body_of (some resp) = resp.body ∷ []

abbrev pub IsLeft : Option Response → Result → Type 0
IsLeft (some resp) result = result ≡ returned resp
IsLeft none result = (e : Error) × (result ≡ failed e)

abbrev pub answer_body : String ⊎ Response → List ℕ
answer_body (inl e) = []
answer_body (inr resp) = resp.body ∷ []

pub ask-mark :
    (c : Calls) (idx b : ℕ) (ok : Bool) (error : Option Error) (objects : ℕ → Server) (a : ℕ)
    → ask c idx (mark b ok error objects a) ≡ ask c idx (objects a)
unfolding mark ask
ask-mark c idx b ok error objects a = elim (Bool-cases (b == a)) [
  | inl e ↦ rw e refl
  | inr e ↦ rw e refl
]

pub received-append :
    (xs ys : List Event) → received_of (xs ++ ys) ≡ received_of xs ++ received_of ys
unfolding received_of
received-append [] ys = refl
received-append (received b ∷ xs) ys = ap (◌∷◌ b) (received-append xs ys)
received-append (closed b ∷ xs) ys = received-append xs ys
received-append (sent p t h ∷ xs) ys = received-append xs ys
received-append (requested ∷ xs) ys = received-append xs ys
received-append (failed_over ∷ xs) ys = received-append xs ys

pub closed-append : (xs ys : List Event) → closed_of (xs ++ ys) ≡ closed_of xs ++ closed_of ys
unfolding closed_of
closed-append [] ys = refl
closed-append (received b ∷ xs) ys = closed-append xs ys
closed-append (closed b ∷ xs) ys = ap (◌∷◌ b) (closed-append xs ys)
closed-append (sent p t h ∷ xs) ys = closed-append xs ys
closed-append (requested ∷ xs) ys = closed-append xs ys
closed-append (failed_over ∷ xs) ys = closed-append xs ys

-- A round receives the body of its answer and closes none.
pub ask_bodies :
    (c : Calls) (idx : ℕ) (server : Server)
    → (received_of (ask c idx server).0 ≡ answer_body (ask c idx server).1)
      × (closed_of (ask c idx server).0 ≡ [])
unfolding ask received_of closed_of received_by
ask_bodies c idx server = elim (⊎-cases (build_url c.parse c.print server.url c.path)) [
  | inl (e, h) ↦ rw (h, ask) (refl, refl)
  | inr (target, h) ↦ elim (Option-cases (c.new_request target)) [
    | inr (e, h2) ↦ rw (h, h2, ask) (refl, refl)
    | inl h2 ↦
        rw (h, h2, ask)
          (of_answer (
            c.exchange idx server.proxy target
              (copy_end_to_end_headers c.canonical (λ k. []) c.headers)))
  ]
]
  where
    of_answer :
        (answer : String ⊎ Response)
        → (received_of (received_by answer) ≡ answer_body answer)
          × (closed_of (received_by answer) ≡ [])
    of_answer (inl e) = (refl, refl)
    of_answer (inr resp) = (refl, refl)

-- Two parts of a log, of which each closes what it receives and did not leave open.
pub chain_bodies :
    (before middle after received1 received2 closed1 closed2 : List ℕ)
    → before ++ received1 ≡ closed1 ++ middle
    → middle ++ received2 ≡ closed2 ++ after
    → before ++ (received1 ++ received2) ≡ (closed1 ++ closed2) ++ after
chain_bodies before middle after received1 received2 closed1 closed2 e f =
    sym (append_assoc before received1 received2)
    ∙ ap (λ xs. xs ++ received2) e
    ∙ append_assoc closed1 middle received2
    ∙ ap (λ xs. closed1 ++ xs) f
    ∙ sym (append_assoc closed1 closed2 after)

-- The response before is closed when the next is received.
pub answered_bodies :
    (last : Option Response) (log : List Event) (body : ℕ)
    → received_of log ≡ body ∷ []
    → closed_of log ≡ []
    → body_of last ++ received_of (log ++ close_last last)
      ≡ closed_of (log ++ close_last last) ++ (body ∷ [])
unfolding received_of closed_of close_last
answered_bodies none log body r c = rw (received-append log [], closed-append log [], r, c) refl
answered_bodies (some resp) log body r c =
    let closing = closed resp.body ∷ [] in
    rw (received-append log closing, closed-append log closing, r, c) refl

pub logs_join :
    (xs ys : List Event) (done : Done) → logged xs (logged ys done) ≡ logged (xs ++ ys) done
logs_join xs ys done = ap (λ log. record done { log = log }) (sym (append_assoc xs ys done.log))

pub finish_lem : (last : Option Response) (error : Option Error) → IsLeft last (finish last error)
unfolding finish
finish_lem (some resp) error = refl
finish_lem none (some error) = (error, refl)
finish_lem none none = (no_available, refl)
