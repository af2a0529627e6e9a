-- ===== src/Upstream/Sends.antt =====
-- The requests that the calls of Fetch send.
use mathlib.Core.List.{append_assoc, append-nil}
use apk_cache.Prelude.{
  ℕ, suc, ◌+◌, ◌≡◌, refl, ap, sym, ◌∙◌, String, Bytes, length, arith, ◌⊎◌, inl, inr, Option, none,
  some, List, [], ◌∷◌, ◌++◌, Option-cases, ⊎-cases,
}
use apk_cache.Upstream.{Server}
use apk_cache.Upstream.Headers.{Header, copy_end_to_end_headers}
use apk_cache.Upstream.Paths.{build_url}
use apk_cache.Upstream.Fetch.{
  Response, Event, requested, failed_over, sent, received, closed, close_last, Calls, received_by,
  ask,
}
use apk_cache.Upstream.Answers.{Asked}

-- A request, by its proxy, target and header.
abbrev pub Sent : Type 0
Sent = Bytes × Bytes × Header

unfoldable pub sent_of : List Event → List Sent
sent_of [] = []
sent_of (received b ∷ log) = sent_of log
sent_of (closed b ∷ log) = sent_of log
sent_of (sent p t h ∷ log) = (p, t, h) ∷ sent_of log
sent_of (requested ∷ log) = sent_of log
sent_of (failed_over ∷ log) = sent_of log

-- What one server is sent: nothing if its URL or the request is refused.
unfoldable pub request_of : Calls → Server → List Sent
request_of c server = elim (build_url c.parse c.print server.url c.path) [
  | inl e ↦ []
  | inr target ↦ elim (c.new_request target) [
    | some e ↦ []
    | none ↦ (server.proxy, target, copy_end_to_end_headers c.canonical (λ k. []) c.headers) ∷ []
  ]
]

-- One request for each of the servers, in their order.
unfoldable pub requests : Calls → (ℕ → Server) → List ℕ → List Sent
requests c objects [] = []
requests c objects (a ∷ rest) = request_of c (objects a) ++ requests c objects rest

-- The requests of the rounds from the attempt `idx` on.
unfoldable pub trials : Asked → ℕ → List ℕ → List Sent
trials asked idx [] = []
trials asked idx (a ∷ rest) = sent_of (asked idx a).0 ++ trials asked (suc idx) rest

pub sent-append : (xs ys : List Event) → sent_of (xs ++ ys) ≡ sent_of xs ++ sent_of ys
unfolding sent_of
sent-append [] ys = refl
sent-append (received b ∷ xs) ys = sent-append xs ys
sent-append (closed b ∷ xs) ys = sent-append xs ys
sent-append (sent p t h ∷ xs) ys = ap (◌∷◌ (p, t, h)) (sent-append xs ys)
sent-append (requested ∷ xs) ys = sent-append xs ys
sent-append (failed_over ∷ xs) ys = sent-append xs ys

-- A part of the log that sends nothing, after one that may.
pub sends_nothing_more : (xs ys : List Event) → sent_of ys ≡ [] → sent_of (xs ++ ys) ≡ sent_of xs
sends_nothing_more xs ys h = rw (sent-append xs ys, h) (append-nil (sent_of xs))

pub close_last-sends : (last : Option Response) → sent_of (close_last last) ≡ []
unfolding sent_of close_last
close_last-sends none = refl
close_last-sends (some resp) = refl

pub trials-last :
    (asked : Asked) (idx : ℕ) (before : List ℕ) (a : ℕ)
    → trials asked idx (before ++ (a ∷ []))
      ≡ trials asked idx before ++ sent_of (asked (length before + idx) a).0
unfolding trials
trials-last asked idx [] a =
    let here : 0 + idx ≡ idx = omega arith in rw here (append-nil (sent_of (asked idx a).0))
trials-last asked idx (b ∷ before) a =
    let moved : length before + suc idx ≡ suc (length before) + idx = omega arith in
    let rest = rw moved at (trials-last asked (suc idx) before a) in
    ap (λ xs. sent_of (asked idx b).0 ++ xs) rest
    ∙ sym (append_assoc (sent_of (asked idx b).0) (trials asked (suc idx) before) _)

ask_sends :
    (c : Calls) (idx : ℕ) (server : Server) → sent_of (ask c idx server).0 ≡ request_of c server
unfolding ask sent_of received_by request_of
ask_sends c idx server = elim (⊎-cases (build_url c.parse c.print server.url c.path)) [
  | inl (e, h) ↦ rw (h, ask, request_of) refl
  | inr (target, h) ↦ elim (Option-cases (c.new_request target)) [
    | inr (e, h2) ↦ rw (h, h2, ask, request_of) refl
    | inl h2 ↦
        let header = copy_end_to_end_headers c.canonical (λ k. []) c.headers in
        rw (h, h2, ask, request_of)
          (ap (◌∷◌ (server.proxy, target, header))
            (receives (c.exchange idx server.proxy target header)))
  ]
]
  where
    receives : (answer : String ⊎ Response) → sent_of (received_by answer) ≡ []
    receives (inl e) = refl
    receives (inr resp) = refl

pub trials-eq-requests :
    (c : Calls) (objects : ℕ → Server) (idx : ℕ) (order : List ℕ)
    → trials (λ i a. ask c i (objects a)) idx order ≡ requests c objects order
unfolding trials requests
trials-eq-requests c objects idx [] = refl
trials-eq-requests c objects idx (a ∷ rest) =
    rw (ask_sends c idx (objects a), trials-eq-requests c objects (suc idx) rest) refl
