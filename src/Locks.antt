-- ===== src/Locks.antt =====
-- internal/cache/cache.go, lines 210-244: KeyLocks, a lock for each key that is made when it is needed
-- and removed with its last user. The part of `Lock` and of the function that it returns which runs
-- under `l.mu` is one step; `lock.mu.Lock()` is a step that waits until the lock is free. A refLock is
-- an object, so the map holds addresses of the heap `objects`.
pub mod Counts
pub mod Sound
pub mod Steps
pub mod Exclusion
pub mod Progress
mod Runs
use apk_cache.Prelude.{
  ℕ, suc, ◌+◌, ◌-◌, ◌≡◌, String, Bool, true, false, Option, none, some, List, ◌∷◌, ◌++◌, ◌==◌,
  str_eq, if◌then◌else◌,
}

-- refLock: whether `mu` is locked, and the count of users
pub record RefLock : Type 0 where
  pub held : Bool
  pub refs : ℕ

-- The map and the objects; `next` is the address of the next object.
pub record KeyLocks : Type 0 where
  pub locks : String → Option ℕ
  pub objects : ℕ → RefLock
  pub next : ℕ

abbrev pub new_key_locks : KeyLocks
new_key_locks = record {
  locks = λ k. none;
  objects = λ a. record { held = false; refs = 0 };
  next = 0;
}

-- l.locks[key] = lock, or delete(l.locks, key) for `none`
unfoldable pub put : String → Option ℕ → (String → Option ℕ) → String → Option ℕ
put key lock locks k = if str_eq key k then lock else locks k

unfoldable pub write : ℕ → RefLock → (ℕ → RefLock) → ℕ → RefLock
write address object objects a = if address == a then object else objects a

-- The object that `Lock` finds or makes.
unfoldable pub address : String → KeyLocks → ℕ
address key l = elim (l.locks key) [ none ↦ l.next | some a ↦ a ]

-- Lock, up to l.mu.Unlock()
unfoldable pub add_ref : String → KeyLocks → KeyLocks
add_ref key l = elim (l.locks key) [
  | none ↦ record {
    locks = put key (some l.next) l.locks;
    objects = write l.next (record { held = false; refs = 1 }) l.objects;
    next = suc l.next;
  }
  | some a ↦ record l {
    objects = write a (record (l.objects a) { refs = (l.objects a).refs + 1 }) l.objects;
  }
]

-- lock.mu.Lock() and lock.mu.Unlock()
unfoldable pub set_held : Bool → ℕ → KeyLocks → KeyLocks
set_held held a l = record l { objects = write a (record (l.objects a) { held = held }) l.objects }

-- The end of the returned function, under l.mu; the count is not 0 where it runs.
unfoldable pub drop_ref : String → ℕ → KeyLocks → KeyLocks
drop_ref key a l =
    let refs = (l.objects a).refs - 1 in
    record l {
      objects = write a (record (l.objects a) { refs = refs }) l.objects;
      locks = if refs == 0 then put key none l.locks else l.locks;
    }

-- Where a thread stands: outside, before lock.mu.Lock() with its object in hand, with the lock, and
-- after lock.mu.Unlock().
pub data Thread : Type 0 where
  idle : Thread
  waiting holding leaving : String → ℕ → Thread

-- A step of one thread.
pub data Move : KeyLocks → Thread → KeyLocks → Thread → Type 0 where
  enters : (l : KeyLocks) (key : String) → Move l idle (add_ref key l) (waiting key (address key l))
  acquires :
      (l : KeyLocks) (key : String) (a : ℕ)
      → (l.objects a).held ≡ false
      → Move l (waiting key a) (set_held true a l) (holding key a)
  releases :
      (l : KeyLocks) (key : String) (a : ℕ)
      → Move l (holding key a) (set_held false a l) (leaving key a)
  leaves : (l : KeyLocks) (key : String) (a : ℕ) → Move l (leaving key a) (drop_ref key a l) idle

pub record System : Type 0 where
  pub shared : KeyLocks
  pub threads : List Thread

-- Some thread takes a step, and the others stand where they stood.
pub data Step : System → System → Type 0 where
  step :
      (before after : List Thread) {l l' : KeyLocks} {t t' : Thread}
      → Move l t l' t'
      → Step
          (record { shared = l; threads = before ++ (t ∷ after) })
          (record { shared = l'; threads = before ++ (t' ∷ after) })

-- What the steps lead to.
pub data Reaches (s : System) : System → Type 0 where
  here : Reaches s s
  next : {t u : System} → Reaches s t → Step t u → Reaches s u
