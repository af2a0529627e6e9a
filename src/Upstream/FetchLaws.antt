-- ===== src/Upstream/FetchLaws.antt =====
-- The loop of Fetch: what it returns, how it marks the servers, and which bodies it leaves open.
use mathlib.Core.List.{append-nil}
use apk_cache.Prelude.{
  ℕ, suc, ◌+◌, ◌≡◌, refl, ap, sym, ◌∙◌, ltb, Bool, true, false, ◌&&◌, inl, inr, Option, none, some,
  List, [], ◌∷◌, ◌++◌, length, ◌==◌, if◌then◌else◌, Bool-cases, ⊎-cases, arith,
}
use apk_cache.Upstream.{Error, library_error, status, status_returned, Server, mark}
use apk_cache.Upstream.Fetch.{
  Response, Event, returned, Done, is_ok, close_last, logged, failover, Calls, ask, fetch_from,
}
use apk_cache.Upstream.Answers.{
  Asked, AllBad, IsGood, is_ok_lem, or_answer, latest, is_among, received_of, closed_of, body_of,
  IsLeft, answer_body, ask-mark, received-append, closed-append, ask_bodies, chain_bodies,
  answered_bodies, logs_join, finish_lem,
}
use apk_cache.Upstream.Sends.{
  sent_of, trials, sends_nothing_more, close_last-sends, trials-last, sent-append,
}

is_good : (resp : Response) → IsGood resp → is_ok resp ≡ true
is_good resp h = elim (is_ok_lem resp) [ inl (_, e) ↦ e | inr (not_good, _) ↦ absurd (not_good h) ]

not_ok : (resp : Response) → ¬ IsGood resp → is_ok resp ≡ false
not_ok resp h = elim (is_ok_lem resp) [ inl (good, _) ↦ absurd (h good) | inr (_, e) ↦ e ]

module _ (c : Calls) (hook : Bool) (asked : Asked) where
  -- The servers are asked what `asked` says; marks do not change that.
  abbrev pub Asks : (ℕ → Server) → Type 0
  Asks objects = (idx a : ℕ) → ask c idx (objects a) ≡ asked idx a

  Asks-mark :
      (objects : ℕ → Server) (a : ℕ) (ok : Bool) (error : Option Error)
      → Asks objects
      → Asks (mark a ok error objects)
  Asks-mark objects a ok error h idx b = ask-mark c idx a ok error objects b ∙ h idx b

  -- `resp` is returned, its server is marked healthy and those before it are not, the others are as
  -- they were, what was received is closed but for `resp` and the last response before it, and only
  -- they are asked.
  pub record Good (before : List ℕ) (a : ℕ) (resp : Response) (objects : ℕ → Server) (done : Done)
      : Type 0 where
    pub returns : done.result ≡ returned resp
    pub health :
        (b : ℕ)
        → (done.objects b).healthy
          ≡ (if a == b then true else if is_among b before then false else (objects b).healthy)
    pub bodies :
        received_of done.log
        ≡ closed_of done.log ++ (body_of (latest asked 0 none before) ++ (resp.body ∷ []))
    pub sends : sent_of done.log ≡ trials asked 0 (before ++ (a ∷ []))

  -- The last response is returned, or an error; no server that was tried is marked healthy, the others
  -- are as they were, and what was received is closed but for what is returned.
  pub record Bad (order : List ℕ) (objects : ℕ → Server) (done : Done) : Type 0 where
    pub returns : IsLeft (latest asked 0 none order) done.result
    pub health :
        (b : ℕ)
        → (done.objects b).healthy ≡ (if is_among b order then false else (objects b).healthy)
    pub bodies : received_of done.log ≡ closed_of done.log ++ body_of (latest asked 0 none order)
    pub sends : sent_of done.log ≡ trials asked 0 order

  -- Servers that do not give a good answer are passed over.
  record Passes (idx : ℕ) (before rest : List ℕ) (last : Option Response) (objects : ℕ → Server)
      (done : Done) : Type 0 where
    last_err : Option Error
    marked : ℕ → Server
    log : List Event
    asks : Asks marked
    same :
        done
        ≡ logged log (
            fetch_from c hook
              (length before + idx)
              rest
              (latest asked idx last before)
              last_err
              marked)
    pub bodies :
        body_of last ++ received_of log ≡ closed_of log ++ body_of (latest asked idx last before)
    pub sends : sent_of log ≡ trials asked idx before
    pub health :
        (b : ℕ) → (marked b).healthy ≡ (if is_among b before then false else (objects b).healthy)

  -- One more server, tried before.
  later :
      (a : ℕ) (before rest : List ℕ) (idx : ℕ) (last : Option Response) (error : Option Error)
      (objects : ℕ → Server) (log : List Event) {done done' : Done}
      → done ≡ logged log done'
      → body_of last ++ received_of log ≡ closed_of log ++ body_of (or_answer last (asked idx a).1)
      → sent_of log ≡ sent_of (asked idx a).0
      → Passes
          (suc idx)
          before
          rest
          (or_answer last (asked idx a).1)
          (mark a false error objects)
          done'
      → Passes idx (a ∷ before) rest last objects done
  unfolding latest is_among mark trials
  later a before rest idx last error objects log same bodies sends p = record {
    last_err = p.last_err;
    marked = p.marked;
    log = log ++ p.log;
    asks = p.asks;
    same =
        let moved : length before + suc idx ≡ suc (length before) + idx = omega arith in
        let tail = rw moved at p.same in same ∙ ap (logged log) tail ∙ logs_join log p.log _;
    bodies =
        rw (received-append log p.log, closed-append log p.log)
          (chain_bodies (body_of last) (body_of (or_answer last (asked idx a).1)) _
            (received_of log) (received_of p.log) (closed_of log) (closed_of p.log) bodies
            p.bodies);
    sends = rw (sent-append log p.log, sends, p.sends) refl;
    health = λ b. ground (arith, p.health b);
  }

  -- The bodies of a round whose answer is not good.
  round_bodies :
      (idx a : ℕ) (objects : ℕ → Server)
      → Asks objects
      → (received_of (asked idx a).0 ≡ answer_body (asked idx a).1)
        × (closed_of (asked idx a).0 ≡ [])
  round_bodies idx a objects h = rw (h idx a) at (ask_bodies c idx (objects a))

  passes :
      (before rest : List ℕ) (idx : ℕ) (last : Option Response) (last_err : Option Error)
      (objects : ℕ → Server)
      → Asks objects
      → AllBad asked idx before
      → Passes idx before rest last objects
          (fetch_from c hook idx (before ++ rest) last last_err objects)
  unfolding latest is_among received_of closed_of sent_of trials fetch_from or_answer
  passes [] rest idx last last_err objects h bad = record {
    last_err = last_err;
    marked = objects;
    log = [];
    asks = h;
    same = let idx_same : 0 + idx ≡ idx = omega arith in rw idx_same refl;
    bodies = append-nil (body_of last);
    sends = refl;
    health = λ b. refl;
  }
  passes (a ∷ before) rest idx last last_err objects h bad = elim (⊎-cases (asked idx a).1) [
    | inl (e, he) ↦
        let error = some (library_error e) in
        let marked = mark a false error objects in
        let tail : Passes (suc idx) before rest (or_answer last (asked idx a).1) marked
            (fetch_from c hook (suc idx) (before ++ rest) last error marked) =
          rw he (
            passes before rest (suc idx) last error marked (Asks-mark objects a false error h)
              bad.1) in
        let bodies = rw he at (round_bodies idx a objects h) in
        later a before rest idx last error objects (asked idx a).0
          (rw (h idx a, he, fetch_from) (rw (h idx a) refl))
          (rw (bodies.0, bodies.1, he) (append-nil (body_of last))) refl tail
    | inr (resp, he) ↦
        let is_bad : is_ok resp ≡ false = not_ok resp (rw he at bad.0) in
        let error = some (status resp.status) in
        let marked = mark a false error objects in
        let tail : Passes (suc idx) before rest (or_answer last (asked idx a).1) marked (
            fetch_from c hook (suc idx) (before ++ rest) (some resp)
              (some (status_returned resp.status)) marked) =
          rw he (
            passes before rest (suc idx) (some resp) (some (status_returned resp.status)) marked
              (Asks-mark objects a false error h) bad.1) in
        let bodies = rw he at (round_bodies idx a objects h) in
        later a before rest idx last error objects ((asked idx a).0 ++ close_last last)
          (rw (h idx a, he, is_bad, fetch_from) (rw (h idx a) refl))
          (rw he (answered_bodies last (asked idx a).0 resp.body bodies.0 bodies.1))
          (sends_nothing_more (asked idx a).0 (close_last last) (close_last-sends last)) tail
  ]

  failover_bodies :
      (idx : ℕ)
      → (received_of (failover hook idx) ≡ [])
        × (closed_of (failover hook idx) ≡ [])
        × (sent_of (failover hook idx) ≡ [])
  unfolding received_of closed_of sent_of failover
  failover_bodies idx = elim (Bool-cases (ltb 0 idx && hook)) [
    | inl e ↦ rw e (refl, refl, refl)
    | inr e ↦ rw e (refl, refl, refl)
  ]

  good_bodies :
      (idx : ℕ) (kept : List ℕ) (log : List Event) (body : ℕ)
      → received_of log ≡ body ∷ []
      → closed_of log ≡ []
      → kept ++ received_of (log ++ failover hook idx)
        ≡ closed_of (log ++ failover hook idx) ++ (kept ++ (body ∷ []))
  good_bodies idx kept log body r k =
      let hooks = failover_bodies idx in
      rw
        (
          received-append log (failover hook idx),
          closed-append log (failover hook idx),
          hooks.0,
          hooks.1,
          r,
          k,
        )
        refl

  -- The loop when the server after some that give no good answer gives one.
  pub Good-round :
      (before after : List ℕ) (a : ℕ) (resp : Response) (objects : ℕ → Server)
      → Asks objects
      → AllBad asked 0 before
      → (asked (length before) a).1 ≡ inr resp
      → IsGood resp
      → Good before a resp objects (fetch_from c hook 0 (before ++ (a ∷ after)) none none objects)
  unfolding mark fetch_from
  Good-round before after a resp objects h bad good ok =
      let p = passes before (a ∷ after) 0 none none objects h bad in
      let idx = length before in
      let here : idx + 0 ≡ idx = omega arith in
      let last = latest asked 0 none before in
      let round : Done = record {
        objects = mark a true none p.marked;
        log = (asked idx a).0 ++ failover hook idx;
        result = returned resp;
      } in
      let step : fetch_from c hook idx (a ∷ after) last p.last_err p.marked ≡ round =
        rw (p.asks idx a, good, is_good resp ok, fetch_from) (rw (p.asks idx a) refl) in
      let whole = rw (here, step) at p.same in
      let bodies = rw good at (round_bodies idx a p.marked p.asks) in
      rw whole (record {
        returns = refl;
        health = λ b. ground (arith, p.health b);
        bodies =
            rw (received-append p.log round.log, closed-append p.log round.log)
              (chain_bodies [] (body_of last) _ (received_of p.log) (received_of round.log)
                (closed_of p.log) (closed_of round.log) p.bodies
                (good_bodies idx (body_of last) (asked idx a).0 resp.body bodies.0 bodies.1));
        sends =
            sent-append p.log round.log
            ∙ ap (λ xs. xs ++ sent_of round.log) p.sends
            ∙ ap (λ xs. trials asked 0 before ++ xs)
                (sends_nothing_more (asked idx a).0 (failover hook idx) (failover_bodies idx).2)
            ∙ sym (rw here at (trials-last asked 0 before a));
      })

  pub Bad-rounds :
      (order : List ℕ) (objects : ℕ → Server)
      → Asks objects
      → AllBad asked 0 order
      → Bad order objects (fetch_from c hook 0 order none none objects)
  unfolding fetch_from
  Bad-rounds order objects h bad =
      let p = passes order [] 0 none none objects h bad in
      let last = latest asked 0 none order in
      let whole = rw (append-nil order) at p.same in
      rw whole (record {
        returns = finish_lem last p.last_err;
        health = p.health;
        bodies = rw (append-nil p.log) p.bodies;
        sends = rw (append-nil p.log) p.sends;
      })
