-- ===== src/Locks/Runs.antt =====
-- Two threads and the lock of one key.
use apk_cache.Prelude.{◌≡◌, ◌↔◌, refl, some, [], ◌∷◌, get_elem?, ℕ, List, true}
use apk_cache.Locks.{
  new_key_locks, Thread, idle, waiting, holding, enters, acquires, add_ref, set_held, System, step,
  here, next, put, write, address,
}
use apk_cache.Locks.Steps.{Comes}
use apk_cache.Locks.Exclusion.{one_holder, entry-iff-IsUser, IsUser}
use apk_cache.Locks.Progress.{all_leave, Leaves}

abbrev two_threads : List Thread
two_threads = idle ∷ idle ∷ []

-- The first thread has the lock and the second waits for it.
abbrev contended : System
contended = record {
  shared = add_ref "a" (set_held true 0 (add_ref "a" new_key_locks));
  threads = holding "a" 0 ∷ waiting "a" 0 ∷ [];
}

contended-Comes : Comes two_threads contended
unfolding add_ref set_held put write address
contended-Comes = (
  (refl, (refl, tt)),
  next
      (next (next here (step [] (idle ∷ []) (enters new_key_locks "a")))
        (step [] (idle ∷ []) (acquires (add_ref "a" new_key_locks) "a" 0 refl)))
      (step (holding "a" 0 ∷ []) [] (enters (set_held true 0 (add_ref "a" new_key_locks)) "a")),
)

abbrev first_place : ℕ
first_place = 0

one_holder_example : first_place ≡ first_place
one_holder_example =
    one_holder {ts = two_threads} {s = contended} contended-Comes "a" first_place first_place 0 0
      refl refl

entry-iff-IsUser_example :
    ((a : ℕ) × (contended.shared.locks "a" ≡ some a))
    ↔ ((i : ℕ) × (t : Thread) × (get_elem? contended.threads i ≡ some t) × IsUser "a" t)
entry-iff-IsUser_example = entry-iff-IsUser {ts = two_threads} {s = contended} contended-Comes "a"

all_leave_example : Leaves contended
all_leave_example = all_leave {ts = two_threads} {s = contended} contended-Comes
