-- ===== src/Locks/Counts.antt =====
-- How many threads use an object, and how many hold its lock.
use apk_cache.Prelude.{ℕ, ◌+◌, ◌≤◌, ◌≡◌, List, [], ◌∷◌, ◌++◌, ◌==◌, if◌then◌else◌, arith}
use apk_cache.Locks.{Thread, idle, waiting, holding, leaving}

unfoldable pub use_of : ℕ → Thread → ℕ
use_of a idle = 0
use_of a (waiting key b) = if b == a then 1 else 0
use_of a (holding key b) = if b == a then 1 else 0
use_of a (leaving key b) = if b == a then 1 else 0

unfoldable pub hold_of : ℕ → Thread → ℕ
hold_of a (holding key b) = if b == a then 1 else 0
hold_of a idle = 0
hold_of a (waiting key b) = 0
hold_of a (leaving key b) = 0

-- A sum over the threads.
unfoldable pub total : (Thread → ℕ) → List Thread → ℕ
total w [] = 0
total w (t ∷ ts) = w t + total w ts

pub total-append :
    (w : Thread → ℕ) (before after : List Thread) (t : Thread)
    → total w (before ++ (t ∷ after)) ≡ w t + (total w before + total w after)
unfolding total
total-append w [] after t = omega arith
total-append w (b ∷ before) after t = omega (arith, total-append w before after t)

hold-le-use : (a : ℕ) (t : Thread) → hold_of a t ≤ use_of a t
unfolding hold_of use_of
hold-le-use a idle = omega arith
hold-le-use a (waiting key b) = omega arith
hold-le-use a (holding key b) = omega arith
hold-le-use a (leaving key b) = omega arith

pub total_hold-le-use : (a : ℕ) (ts : List Thread) → total (hold_of a) ts ≤ total (use_of a) ts
unfolding total
total_hold-le-use a [] = omega arith
total_hold-le-use a (t ∷ ts) = omega (arith, hold-le-use a t, total_hold-le-use a ts)
