-- ===== src/Console/Script.antt =====
-- An event handler of a page: what it does to the page's state, what it asks the server and the
-- user, and what it tells the user. `await api(…)` is `call`, `window.confirm` is `ask`, the toast
-- is `notify`, and a thrown error is `throw`; `send` sends a request whose answer a later `call` waits for. A handler waits where an input is missing, so a run on
-- a list of inputs covers every server, every user and every moment of the run.
use apk_cache.Prelude.{String, Bool, false, List, [], ◌∷◌}
use apk_cache.Console.Json.{Request}

-- How a promise of `api` settles.
pub data Reply (P : Type 0) : Type 0 where
  resolved : P → Reply P
  rejected : String → Reply P

pub data Script (S P : Type 0) : Type 0 where
  finish : Script S P
  throw : String → Script S P
  update : (S → S) → Script S P → Script S P
  notify : String → Bool → Script S P → Script S P
  send : Request → Script S P → Script S P
  call : Request → (Reply P → Script S P) → Script S P
  ask : String → (Bool → Script S P) → Script S P

pub data Input (P : Type 0) : Type 0 where
  reply : Reply P → Input P
  answer : Bool → Input P

pub data Ending : Type 0 where
  finished waiting : Ending
  threw : String → Ending

-- What a run leaves and what it sent and showed, in order.
pub record Trace (S P : Type 0) : Type 0 where
  pub state : S
  pub sent : List Request
  pub toasts : List (String × Bool)
  pub ending : Ending

module _ {S P : Type 0} where
  abbrev pub stop : S → Ending → Trace S P
  stop s e = record { state = s; sent = []; toasts = []; ending = e }

  abbrev pub sending : Request → Trace S P → Trace S P
  sending r t = record t { sent = r ∷ t.sent }

  abbrev pub telling : String → Bool → Trace S P → Trace S P
  telling m ok t = record t { toasts = (m, ok) ∷ t.toasts }

  -- An input of the other kind is no input for this wait.
  abbrev pub run : Script S P → List (Input P) → S → Trace S P
  run finish inputs s = stop s finished
  run (throw m) inputs s = stop s (threw m)
  run (update f k) inputs s = run k inputs (f s)
  run (notify m ok k) inputs s = telling m ok (run k inputs s)
  run (send r k) inputs s = sending r (run k inputs s)
  run (call r k) [] s = sending r (stop s waiting)
  run (call r k) (reply a ∷ inputs) s = sending r (run (k a) inputs s)
  run (call r k) (answer b ∷ inputs) s = sending r (stop s waiting)
  run (ask m k) [] s = stop s waiting
  run (ask m k) (answer b ∷ inputs) s = run (k b) inputs s
  run (ask m k) (reply a ∷ inputs) s = stop s waiting

  -- `await` outside `try`: a rejection is thrown on.
  abbrev pub awaiting : Request → (P → Script S P) → Script S P
  awaiting r k = call r (λ a. elim a [ resolved p ↦ k p | rejected m ↦ throw m ])

  -- `handler().catch(err => toast(err.message, false))`
  abbrev pub catching : Script S P → Script S P
  catching finish = finish
  catching (throw m) = notify m false finish
  catching (update f k) = update f (catching k)
  catching (notify m ok k) = notify m ok (catching k)
  catching (send r k) = send r (catching k)
  catching (call r k) = call r (λ a. catching (k a))
  catching (ask m k) = ask m (λ b. catching (k b))

  -- One handler after another, as `await load()` at the end of a handler.
  abbrev pub after : Script S P → Script S P → Script S P
  after finish l = l
  after (throw m) l = throw m
  after (update f k) l = update f (after k l)
  after (notify m ok k) l = notify m ok (after k l)
  after (send r k) l = send r (after k l)
  after (call r k) l = call r (λ a. after (k a) l)
  after (ask m k) l = ask m (λ b. after (k b) l)

  -- What is left of a handler once its first call is answered.
  abbrev pub resume : Script S P → Reply P → Script S P
  resume finish a = finish
  resume (throw m) a = throw m
  resume (update f k) a = resume k a
  resume (notify m ok k) a = resume k a
  resume (send r k) a = resume k a
  resume (call r k) a = k a
  resume (ask m k) a = finish
