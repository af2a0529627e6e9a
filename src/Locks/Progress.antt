-- ===== src/Locks/Progress.antt =====
-- Every thread can get the lock that it waits for and leave again.
use mathlib.Core.Path.{subst}
use apk_cache.Prelude.{
  ℕ, zero, suc, ◌<◌, ◌≡◌, ◌⊎◌, refl, sym, ap, inl, inr, String, false, none, List, [], ◌∷◌, ◌++◌,
  All, Option-cases, arith,
}
use apk_cache.Locks.{
  KeyLocks, Thread, idle, waiting, holding, leaving, Move, acquires, releases, leaves, System, Step,
  step, Reaches, here, next,
}
use apk_cache.Locks.Counts.{use_of, hold_of, total, total-append}
use apk_cache.Locks.Steps.{IsSound, Step-IsSound, IsIdle, total-idle, Comes, Comes-IsSound}

-- The steps that a thread has still to take until it is outside.
rank : Thread → ℕ
rank idle = 0
rank (leaving key a) = 1
rank (holding key a) = 2
rank (waiting key a) = 3

-- A thread that can step whatever the others do.
abbrev IsActive : Thread → Type 0
IsActive (holding key a) = Unit
IsActive (leaving key a) = Unit
IsActive t = ⊥

abbrev IsPassive : Thread → Type 0
IsPassive idle = Unit
IsPassive (waiting key a) = Unit
IsPassive t = ⊥

-- A place among the threads.
record Place (P : Thread → Type 0) (ts : List Thread) : Type 0 where
  before : List Thread
  thread : Thread
  after : List Thread
  fits : P thread
  same : ts ≡ before ++ (thread ∷ after)

later-Place : {P : Thread → Type 0} {ts : List Thread} (t : Thread) → Place P ts → Place P (t ∷ ts)
later-Place t p = record {
  before = t ∷ p.before;
  thread = p.thread;
  after = p.after;
  fits = p.fits;
  same = ap (◌∷◌ t) p.same;
}

find-IsActive : (ts : List Thread) → Place IsActive ts ⊎ All IsPassive ts
find-IsActive [] = inr tt
find-IsActive (t ∷ ts) = elim (find-IsActive ts) [
  | inl p ↦ inl (later-Place t p)
  | inr rest ↦ first t rest
]
  where
    first : (u : Thread) → All IsPassive ts → Place IsActive (u ∷ ts) ⊎ All IsPassive (u ∷ ts)
    first idle rest = inr (tt, rest)
    first (waiting key a) rest = inr (tt, rest)
    first (holding key a) rest =
        inl (record { before = []; thread = holding key a; after = ts; fits = tt; same = refl })
    first (leaving key a) rest =
        inl (record { before = []; thread = leaving key a; after = ts; fits = tt; same = refl })

-- A thread that waits.
abbrev IsWaiting : Thread → Type 0
IsWaiting (waiting key a) = Unit
IsWaiting t = ⊥

find-IsWaiting : (ts : List Thread) → All IsPassive ts → Place IsWaiting ts ⊎ All IsIdle ts
find-IsWaiting [] h = inr tt
find-IsWaiting (idle ∷ ts) h = elim (find-IsWaiting ts h.1) [
  | inl p ↦ inl (later-Place idle p)
  | inr rest ↦ inr (refl, rest)
]
find-IsWaiting (holding key a ∷ ts) h = absurd h.0
find-IsWaiting (leaving key a ∷ ts) h = absurd h.0
find-IsWaiting (waiting key a ∷ ts) h =
    inl (record { before = []; thread = waiting key a; after = ts; fits = tt; same = refl })

none_hold : (a : ℕ) (ts : List Thread) → All IsPassive ts → total (hold_of a) ts ≡ 0
unfolding total hold_of
none_hold a [] h = refl
none_hold a (idle ∷ ts) h = omega (arith, none_hold a ts h.1)
none_hold a (holding key b ∷ ts) h = absurd h.0
none_hold a (leaving key b ∷ ts) h = absurd h.0
none_hold a (waiting key b ∷ ts) h = omega (arith, none_hold a ts h.1)

-- A step after which less is left to do.
record Advances (l : KeyLocks) (ts : List Thread) : Type 0 where
  system : System
  taken : Step (record { shared = l; threads = ts }) system
  less : total rank system.threads < total rank ts

advance_at :
    {l l' : KeyLocks} (before after : List Thread) (t t' : Thread) {ts : List Thread}
    → ts ≡ before ++ (t ∷ after)
    → Move l t l' t'
    → rank t' < rank t
    → Advances l ts
advance_at {l} {l'} before after t t' same m h = subst (Advances l) (sym same) (record {
  system = record { shared = l'; threads = before ++ (t' ∷ after) };
  taken = step before after m;
  less = omega (arith, total-append rank before after t, total-append rank before after t');
})

advance_active : (l : KeyLocks) (ts : List Thread) → Place IsActive ts → Advances l ts
unfolding rank
advance_active l ts p = go p.thread p.fits p.same
  where
    go : (t : Thread) → IsActive t → ts ≡ p.before ++ (t ∷ p.after) → Advances l ts
    go idle h e = elim h [ ]
    go (waiting _ _) h e = elim h [ ]
    go (holding key a) h e =
        advance_at p.before p.after (holding key a) (leaving key a) e (releases l key a)
          (omega arith)
    go (leaving key a) h e =
        advance_at p.before p.after (leaving key a) idle e (leaves l key a) (omega arith)

advance_waiting :
    (l : KeyLocks) (ts : List Thread)
    → ((a : ℕ) → (l.objects a).held ≡ false)
    → Place IsWaiting ts
    → Advances l ts
unfolding rank
advance_waiting l ts free p = go p.thread p.fits p.same
  where
    go : (t : Thread) → IsWaiting t → ts ≡ p.before ++ (t ∷ p.after) → Advances l ts
    go idle h e = elim h [ ]
    go (holding _ _) h e = elim h [ ]
    go (leaving _ _) h e = elim h [ ]
    go (waiting key a) h e =
        advance_at p.before p.after (waiting key a) (holding key a) e (acquires l key a (free a))
          (omega arith)

-- No deadlock: unless every thread is outside, some thread can take a step towards it.
advance : (l : KeyLocks) (ts : List Thread) → IsSound l ts → Advances l ts ⊎ All IsIdle ts
advance l ts s = elim (find-IsActive ts) [
  | inl p ↦ inl (advance_active l ts p)
  | inr passive ↦ elim (find-IsWaiting ts passive) [
    | inl p ↦ inl (advance_waiting l ts (λ a. ground (arith, s.locked a, none_hold a ts passive)) p)
    | inr idle_all ↦ inr idle_all
  ]
]

first-Step : {s t u : System} → Step s t → Reaches t u → Reaches s u
first-Step st here = next here st
first-Step st (next r last) = next (first-Step st r) last

-- A state from which every thread is outside, with no entry left in the map.
abbrev pub Leaves : System → Type 0
Leaves s =
    (t : System) × Reaches s t × All IsIdle t.threads × ((key : String) → t.shared.locks key ≡ none)

no_entries :
    (l : KeyLocks) (ts : List Thread)
    → IsSound l ts
    → All IsIdle ts
    → (key : String) → l.locks key ≡ none
unfolding use_of
no_entries l ts s h key = elim (Option-cases (l.locks key)) [
  | inl e ↦ e
  | inr (a, e) ↦ absurd (omega (arith, s.used key a e, total-idle (use_of a) ts refl h))
]

runs_out : (n : ℕ) (s : System) → total rank s.threads < n → IsSound s.shared s.threads → Leaves s
runs_out zero s le h = absurd (omega arith)
runs_out (suc n) s le h = elim (advance s.shared s.threads h) [
  | inr all ↦ (s, here, all, no_entries s.shared s.threads h all)
  | inl next_state ↦
      let t = next_state.system in
      let (u, r, all, empty) =
        runs_out n t (omega (arith, next_state.less)) (Step-IsSound next_state.taken h) in
      (u, first-Step next_state.taken r, all, empty)
]

-- From every state that threads with new locks come to, there are steps after which every thread
-- has had its lock and is outside, and the map is empty.
pub all_leave : {ts : List Thread} {s : System} → Comes ts s → Leaves s
all_leave {ts} {s} came = runs_out (suc (total rank s.threads)) s (omega arith) (Comes-IsSound came)
