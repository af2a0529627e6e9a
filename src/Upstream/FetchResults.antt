-- ===== src/Upstream/FetchResults.antt =====
-- Fetch as a whole, from the order of the servers to the result.
use mathlib.Core.List.{Perm}
use mathlib.Core.Path.{subst}
use apk_cache.Prelude.{
  ℕ, suc, ◌+◌, ◌<◌, ◌^◌, ◌≡◌, refl, ap, sym, ◌∙◌, inl, inr, String, Bool, false, ◌⊎◌, none, some,
  List, [], ◌∷◌, ◌++◌, length, length-append, ◌==◌, if◌then◌else◌, Bool-cases, arith,
}
use apk_cache.Upstream.{Manager, Server, no_configured}
use apk_cache.Upstream.Order.{ordered_servers}
use apk_cache.Upstream.OrderLaws.{each_once}
use apk_cache.Upstream.Fetch.{
  Response, Event, requested, returned, failed, Done, logged, Calls, ask, fetch_from, fetch,
}
use apk_cache.Upstream.Answers.{
  Asked, IsGood, is_ok_lem, IsBad, AllBad, latest, received_of, closed_of, body_of, is_among,
}
use apk_cache.Upstream.Sends.{sent_of, requests, trials, trials-eq-requests}
use apk_cache.Upstream.FetchLaws.{Good, Bad, Good-round, Bad-rounds}

-- What the servers answer to the call `c`.
abbrev pub answers : Calls → (ℕ → Server) → Asked
answers c objects idx a = ask c idx (objects a)

-- The server that gives the first good answer, its response, and the servers around it.
pub record FirstGood (asked : Asked) (order : List ℕ) : Type 0 where
  pub before : List ℕ
  pub server : ℕ
  pub after : List ℕ
  pub resp : Response
  pub same : order ≡ before ++ (server ∷ after)

abbrev IsFirst : (asked : Asked) (idx : ℕ) (order : List ℕ) → FirstGood asked order → Type 0
IsFirst asked idx order f =
    AllBad asked idx f.before
    × ((asked (length f.before + idx) f.server).1 ≡ inr f.resp)
    × IsGood f.resp

find_good :
    (asked : Asked) (idx : ℕ) (order : List ℕ)
    → ((f : FirstGood asked order) × IsFirst asked idx order f) ⊎ AllBad asked idx order
find_good asked idx [] = inr tt
find_good asked idx (a ∷ order) = go (asked idx a).1 refl (find_good asked (suc idx) order)
  where
    later :
        IsBad (asked idx a).1
        → ((f : FirstGood asked order) × IsFirst asked (suc idx) order f)
          ⊎ AllBad asked (suc idx) order
        → ((f : FirstGood asked (a ∷ order)) × IsFirst asked idx (a ∷ order) f)
          ⊎ AllBad asked idx (a ∷ order)
    later bad (inr rest) = inr (bad, rest)
    later bad (inl (f, (all, good, ok))) =
        let moved : length f.before + suc idx ≡ suc (length f.before) + idx = omega arith in
        inl (
          record {
            before = a ∷ f.before;
            server = f.server;
            after = f.after;
            resp = f.resp;
            same = ap (◌∷◌ a) f.same;
          },
          ((bad, all), rw moved at good, ok),
        )

    go :
        (answer : String ⊎ Response)
        → (asked idx a).1 ≡ answer
        → ((f : FirstGood asked order) × IsFirst asked (suc idx) order f)
          ⊎ AllBad asked (suc idx) order
        → ((f : FirstGood asked (a ∷ order)) × IsFirst asked idx (a ∷ order) f)
          ⊎ AllBad asked idx (a ∷ order)
    go (inl e) h rest = later (rw h tt) rest
    go (inr resp) h rest = elim (is_ok_lem resp) [
      | inr (bad, _) ↦ later (rw h bad) rest
      | inl (ok, _) ↦
          let here : 0 + idx ≡ idx = omega arith in
          inl (
            record { before = []; server = a; after = order; resp = resp; same = refl },
            (tt, rw here h, ok),
          )
    ]

-- The call of the hook changes nothing of what the loop did.
asked_first : Manager → List Event
asked_first m = if m.on_request then requested ∷ [] else []

first_events :
    (m : Manager) (log : List Event)
    → (received_of (asked_first m ++ log) ≡ received_of log)
      × (closed_of (asked_first m ++ log) ≡ closed_of log)
      × (sent_of (asked_first m ++ log) ≡ sent_of log)
unfolding asked_first received_of closed_of sent_of
first_events m log = elim (Bool-cases m.on_request) [
  | inl e ↦ rw e (refl, refl, refl)
  | inr e ↦ rw e (refl, refl, refl)
]

-- What Fetch does with an order of the servers, by the first good answer, if there is one, and the
-- requests that it sends.
abbrev pub Serves : Calls → Manager → List ℕ → Done → Type 0
Serves c m order done =
    let asked = answers c m.objects in
    ((f : FirstGood asked order) × AllBad asked 0 f.before
      × ((asked (length f.before) f.server).1 ≡ inr f.resp)
      × IsGood f.resp
      × Good c m.on_failover asked f.before f.server f.resp m.objects done
      × (sent_of done.log ≡ requests c m.objects (f.before ++ (f.server ∷ []))))
    ⊎ (AllBad asked 0 order
        × Bad c m.on_failover asked order m.objects done
        × (sent_of done.log ≡ requests c m.objects order))

Good-first :
    (c : Calls) (hook : Bool) (asked : Asked) (m : Manager) (before : List ℕ) (a : ℕ)
    (resp : Response) (done : Done)
    → Good c hook asked before a resp m.objects done
    → Good c hook asked before a resp m.objects (logged (asked_first m) done)
Good-first c hook asked m before a resp done g =
    let same = first_events m done.log in
    record {
      returns = g.returns;
      health = g.health;
      bodies =
          same.0
          ∙ g.bodies
          ∙ ap (λ xs. xs ++ (body_of (latest asked 0 none before) ++ (resp.body ∷ [])))
              (sym same.1);
      sends = same.2 ∙ g.sends;
    }

Bad-first :
    (c : Calls) (hook : Bool) (asked : Asked) (m : Manager) (order : List ℕ) (done : Done)
    → Bad c hook asked order m.objects done
    → Bad c hook asked order m.objects (logged (asked_first m) done)
Bad-first c hook asked m order done g =
    let same = first_events m done.log in
    record {
      returns = g.returns;
      health = g.health;
      bodies =
          same.0 ∙ g.bodies ∙ ap (λ xs. xs ++ body_of (latest asked 0 none order)) (sym same.1);
      sends = same.2 ∙ g.sends;
    }

-- The loop on an order serves it.
loop-Serves :
    (c : Calls) (m : Manager) (order : List ℕ)
    → Serves c m order
        (logged (asked_first m) (fetch_from c m.on_failover 0 order none none m.objects))
loop-Serves c m order =
    let asked = answers c m.objects in
    elim (find_good asked 0 order) [
      | inr all ↦
          let bad =
            Bad-first c m.on_failover asked m order _
              (Bad-rounds c m.on_failover asked order m.objects (λ idx a. refl) all) in
          inr (all, bad, bad.sends ∙ trials-eq-requests c m.objects 0 order)
      | inl (f, (all, good, ok)) ↦
          let here : length f.before + 0 ≡ length f.before = omega arith in
          let answer = rw here at good in
          let round =
            Good-round c m.on_failover asked f.before f.after f.server f.resp m.objects
              (λ idx a. refl) all answer ok in
          let good_round = Good-first c m.on_failover asked m f.before f.server f.resp _ (
            subst
              (λ o.
                Good c m.on_failover asked f.before f.server f.resp m.objects
                  (fetch_from c m.on_failover 0 o none none m.objects))
              (sym f.same) round) in
          inl (
            f,
            all,
            answer,
            ok,
            good_round,
            good_round.sends ∙ trials-eq-requests c m.objects 0 (f.before ++ (f.server ∷ [])),
          )
    ]

no_servers :
    (c : Calls) (m : Manager) (order : List ℕ)
    → length order ≡ 0
    → Serves c m order (record { objects = m.objects; log = []; result = failed no_configured })
unfolding received_of closed_of sent_of requests trials latest is_among
no_servers c m [] e = inr (
  tt,
  record { returns = (no_configured, refl); health = λ b. refl; bodies = refl; sends = refl },
  refl,
)
no_servers c m (a ∷ order) e = absurd (omega (arith, e))

-- Fetch, while less than 2^63 calls were made and no other call runs at the same time, returns. There
-- is an order that has every server once, and Fetch sends one request at most to each, in this order,
-- and none after a good answer (200 or 206). If some server gives one, the response of the first that
-- does is returned, that server is marked healthy, those before it not and the others are as they
-- were, and every body received is closed but for the one returned and the last one before it. If
-- none does, the last response is returned, or an error if there is none, every server is marked as
-- not healthy, and every body received is closed but for the one returned.
pub fetch_lem :
    (c : Calls) (m : Manager)
    → m.next < 2 ^ 63
    → (order : List ℕ) × (counter : ℕ) × (done : Done) × Perm order m.servers
      × (fetch c m
          ≡ some (record m { next = counter; objects = done.objects }, done.log, done.result))
      × Serves c m order done
unfolding fetch asked_first
fetch_lem c m h =
    let (order, counter, ordered, perm) = each_once m h in
    elim (Bool-cases (length order == 0)) [
      | inl e ↦ (
        order,
        counter,
        record { objects = m.objects; log = []; result = failed no_configured },
        perm,
        rw (ordered, e, fetch) refl,
        no_servers c m order (ground (arith, e)),
      )
      | inr e ↦ (
        order,
        counter,
        logged (asked_first m) (fetch_from c m.on_failover 0 order none none m.objects),
        perm,
        rw (ordered, e, fetch) refl,
        loop-Serves c m order,
      )
    ]

-- A response that is not good stays open when a later server gives a good one: if servers of the
-- order that do not give a good answer stand before one that does, and `last` is the last response of
-- them, Fetch returns the good response and closes every body that it received but for that one and
-- the body of `last`.
pub leaves_open :
    (c : Calls) (m : Manager) (counter : ℕ) (before after : List ℕ) (a : ℕ) (last resp : Response)
    → ordered_servers m ≡ some (before ++ (a ∷ after), record m { next = counter })
    → AllBad (answers c m.objects) 0 before
    → latest (answers c m.objects) 0 none before ≡ some last
    → (answers c m.objects (length before) a).1 ≡ inr resp
    → IsGood resp
    → (done : Done) × (fetch c m
        ≡ some (record m { next = counter; objects = done.objects }, done.log, returned resp))
      × (received_of done.log ≡ closed_of done.log ++ (last.body ∷ resp.body ∷ []))
unfolding fetch asked_first
leaves_open c m counter before after a last resp ordered all is_last answer ok =
    let asked = answers c m.objects in
    let round =
      Good-round c m.on_failover asked before after a resp m.objects (λ idx b. refl) all answer
        ok in
    let whole = Good-first c m.on_failover asked m before a resp _ round in
    let some_servers : (length (before ++ (a ∷ after)) == 0) ≡ false =
      ground (arith, length-append before (a ∷ after)) in
    (
      logged (asked_first m)
          (fetch_from c m.on_failover 0 (before ++ (a ∷ after)) none none m.objects),
      rw (ordered, some_servers, round.returns, fetch) refl,
      rw is_last at whole.bodies,
    )
