-- ===== src/Locks/Exclusion.antt =====
-- At most one holder of a lock, and the entries of the map.
use mathlib.Core.Path.{subst}
use apk_cache.Prelude.{
  ℕ, zero, suc, ◌+◌, ◌≤◌, ◌<◌, ◌≡◌, ◌↔◌, ◌⊎◌, refl, sym, ap, ◌∙◌, inl, inr, String, some, List, [],
  ◌∷◌, ◌==◌, All, get_elem?, Bool-cases, arith,
}
use apk_cache.Locks.{KeyLocks, Thread, idle, waiting, holding, leaving, System}
use apk_cache.Locks.Counts.{use_of, hold_of, total}
use apk_cache.Locks.Sound.{IsLinked}
use apk_cache.Locks.Steps.{IsSound, Comes, Comes-IsSound}

pub All_at :
    (P : Thread → Type 0) (ts : List Thread) (i : ℕ) (t : Thread)
    → All P ts
    → get_elem? ts i ≡ some t
    → P t
All_at P [] i t h e = cc
All_at P (u ∷ ts) zero t h e = let same : u ≡ t = cc in subst P same h.0
All_at P (u ∷ ts) (suc i) t h e = All_at P ts i t h.1 e

at-le-total :
    (w : Thread → ℕ) (ts : List Thread) (i : ℕ) (t : Thread)
    → get_elem? ts i ≡ some t
    → w t ≤ total w ts
unfolding total
at-le-total w [] i t e = cc
at-le-total w (u ∷ ts) zero t e = let same : u ≡ t = cc in omega (arith, ap w same)
at-le-total w (u ∷ ts) (suc i) t e = omega (arith, at-le-total w ts i t e)

two-le-total :
    (w : Thread → ℕ) (ts : List Thread) (i j : ℕ) (t u : Thread)
    → get_elem? ts i ≡ some t
    → get_elem? ts j ≡ some u
    → (i ≡ j) ⊎ (w t + w u ≤ total w ts)
unfolding total
two-le-total w [] i j t u e f = cc
two-le-total w (v ∷ ts) zero zero t u e f = inl refl
two-le-total w (v ∷ ts) zero (suc j) t u e f =
    let same : v ≡ t = cc in inr (omega (arith, ap w same, at-le-total w ts j u f))
two-le-total w (v ∷ ts) (suc i) zero t u e f =
    let same : v ≡ u = cc in inr (omega (arith, ap w same, at-le-total w ts i t e))
two-le-total w (v ∷ ts) (suc i) (suc j) t u e f = elim (two-le-total w ts i j t u e f) [
  | inl same ↦ inl (ap suc same)
  | inr le ↦ inr (omega arith)
]

-- The lock of a key has one holder: two threads that hold the lock of one key, in any state that
-- threads with new locks come to, are one thread.
pub one_holder :
    {ts : List Thread} {s : System} (came : Comes ts s) (key : String) (i j a b : ℕ)
    → get_elem? s.threads i ≡ some (holding key a)
    → get_elem? s.threads j ≡ some (holding key b)
    → i ≡ j
unfolding hold_of
one_holder {ts} {s} came key i j a b e f =
    let h = Comes-IsSound came in
    let la : s.shared.locks key ≡ some a =
      All_at (IsLinked s.shared) s.threads i (holding key a) h.linked e in
    let lb : s.shared.locks key ≡ some b =
      All_at (IsLinked s.shared) s.threads j (holding key b) h.linked f in
    let same : a ≡ b = cc in
    elim (two-le-total (hold_of a) s.threads i j (holding key a) (holding key b) e f) [
      | inl one ↦ one
      | inr two ↦ absurd (ground (arith, h.locked a))
    ]

-- A thread that waits for the lock of a key, holds it, or has not yet given its use back.
abbrev pub IsUser : String → Thread → Type 0
IsUser key idle = ⊥
IsUser key (waiting k a) = k ≡ key
IsUser key (holding k a) = k ≡ key
IsUser key (leaving k a) = k ≡ key

find_user :
    (a : ℕ) (ts : List Thread)
    → 0 < total (use_of a) ts
    → (i : ℕ) × (t : Thread) × (get_elem? ts i ≡ some t) × (0 < use_of a t)
unfolding total
find_user a [] h = absurd (omega arith)
find_user a (t ∷ ts) h = elim (Bool-cases (use_of a t == 0)) [
  | inl zero_use ↦ let (i, u, e, p) = find_user a ts (ground arith) in (suc i, u, e, p)
  | inr one_use ↦ (0, t, refl, ground arith)
]

used-IsUser :
    {l : KeyLocks} {ts : List Thread} (s : IsSound l ts) (key : String) (a : ℕ) (t : Thread)
    → l.locks key ≡ some a
    → IsLinked l t
    → 0 < use_of a t
    → IsUser key t
unfolding use_of
used-IsUser s key a idle e h p = absurd (omega arith)
used-IsUser s key a (waiting k b) e h p = s.one_key k key a (ground arith) e
used-IsUser s key a (holding k b) e h p = s.one_key k key a (ground arith) e
used-IsUser s key a (leaving k b) e h p = s.one_key k key a (ground arith) e

user_entry :
    (l : KeyLocks) (key : String) (t : Thread)
    → IsLinked l t
    → IsUser key t
    → (a : ℕ) × (l.locks key ≡ some a)
user_entry l key idle h u = absurd u
user_entry l key (waiting k a) h u = (a, ap l.locks (sym u) ∙ h)
user_entry l key (holding k a) h u = (a, ap l.locks (sym u) ∙ h)
user_entry l key (leaving k a) h u = (a, ap l.locks (sym u) ∙ h)

-- The map has an entry for a key exactly while some thread waits for its lock, holds it, or has not
-- yet given its use back, in every state that threads with new locks come to.
pub entry-iff-IsUser :
    {ts : List Thread} {s : System} (came : Comes ts s) (key : String)
    → ((a : ℕ) × (s.shared.locks key ≡ some a))
      ↔ ((i : ℕ) × (t : Thread) × (get_elem? s.threads i ≡ some t) × IsUser key t)
entry-iff-IsUser {ts} {s} came key =
    let h = Comes-IsSound came in
    (
      λ (a, e).
          let (i, t, at, p) = find_user a s.threads (h.used key a e) in
          (
            i,
            t,
            at,
            used-IsUser h key a t e (All_at (IsLinked s.shared) s.threads i t h.linked at) p,
          ),
      λ (i, t, at, u).
          user_entry s.shared key t (All_at (IsLinked s.shared) s.threads i t h.linked at) u,
    )
