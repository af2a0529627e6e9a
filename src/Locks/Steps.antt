-- ===== src/Locks/Steps.antt =====
-- Every state of the locks and their threads: who holds which lock, and which entries the map has.
use apk_cache.Prelude.{
  ℕ, ◌+◌, ◌≤◌, ◌<◌, ◌≡◌, refl, sym, ◌∙◌, String, some, List, [], ◌∷◌, ◌++◌, All, if◌then◌else◌,
  arith,
}
use apk_cache.Locks.{
  KeyLocks, new_key_locks, Thread, idle, waiting, holding, leaving, System, Step, step, Reaches,
  here, next,
}
use apk_cache.Locks.Counts.{use_of, hold_of, total, total-append, total_hold-le-use}
use apk_cache.Locks.Sound.{IsLinked, Fits, Keeps, Move-Fits, Move-Keeps}

-- The objects, the map and the threads agree.
pub record IsSound (l : KeyLocks) (ts : List Thread) : Type 0 where
  pub counted : (a : ℕ) → (l.objects a).refs ≡ total (use_of a) ts
  pub locked : (a : ℕ) → (if (l.objects a).held then 1 else 0) ≡ total (hold_of a) ts
  pub linked : All (IsLinked l) ts
  pub used : (key : String) (a : ℕ) → l.locks key ≡ some a → 0 < total (use_of a) ts
  pub fresh : (a : ℕ) → l.next ≤ a → total (use_of a) ts ≡ 0
  pub one_key :
      (key key' : String) (a : ℕ) → l.locks key ≡ some a → l.locks key' ≡ some a → key ≡ key'

All-middle :
    (P : Thread → Type 0) (before after : List Thread) (t : Thread)
    → All P (before ++ (t ∷ after))
    → All P before × P t × All P after
All-middle P [] after t h = (tt, h.0, h.1)
All-middle P (b ∷ before) after t h =
    let rest = All-middle P before after t h.1 in ((h.0, rest.0), rest.1, rest.2)

All-around :
    (P : Thread → Type 0) (before after : List Thread) (t : Thread)
    → All P before
    → P t
    → All P after
    → All P (before ++ (t ∷ after))
All-around P [] after t hb ht ha = (ht, ha)
All-around P (b ∷ before) after t hb ht ha = (hb.0, All-around P before after t hb.1 ht ha)

-- The others stay linked over a step that keeps what they use.
still-IsLinked :
    (l l' : KeyLocks) (uses : ℕ → ℕ) (ts : List Thread)
    → Keeps l l' uses
    → ((a : ℕ) → total (use_of a) ts ≤ uses a)
    → All (IsLinked l) ts
    → All (IsLinked l') ts
unfolding total use_of
still-IsLinked l l' uses [] keeps le h = tt
still-IsLinked l l' uses (t ∷ ts) keeps le (h, hs) = (
  one t (λ a. omega (arith, le a)) h,
  still-IsLinked l l' uses ts keeps (λ a. omega (arith, le a)) hs,
)
  where
    one : (u : Thread) → ((a : ℕ) → use_of a u ≤ uses a) → IsLinked l u → IsLinked l' u
    one idle le_u h = tt
    one (waiting key a) le_u h = keeps key a h (ground (arith, le_u a))
    one (holding key a) le_u h = keeps key a h (ground (arith, le_u a))
    one (leaving key a) le_u h = keeps key a h (ground (arith, le_u a))

-- What the other threads of a step use and hold.
abbrev sum : (ℕ → Thread → ℕ) → List Thread → List Thread → ℕ → ℕ
sum w before after a = total (w a) before + total (w a) after

Fits-IsSound :
    (l : KeyLocks) (before after : List Thread) (t : Thread)
    → Fits l t (sum use_of before after) (sum hold_of before after)
    → All (IsLinked l) before
    → All (IsLinked l) after
    → IsSound l (before ++ (t ∷ after))
Fits-IsSound l before after t f hb ha = record {
  counted = λ a. f.counted a ∙ sym (total-append (use_of a) before after t);
  locked = λ a. f.locked a ∙ sym (total-append (hold_of a) before after t);
  linked = All-around (IsLinked l) before after t hb f.linked ha;
  used = λ key a h. omega (arith, f.used key a h, total-append (use_of a) before after t);
  fresh = λ a h. omega (arith, f.fresh a h, total-append (use_of a) before after t);
  one_key = f.one_key;
}

IsSound-Fits :
    (l : KeyLocks) (before after : List Thread) (t : Thread)
    → IsSound l (before ++ (t ∷ after))
    → Fits l t (sum use_of before after) (sum hold_of before after)
IsSound-Fits l before after t s = record {
  counted = λ a. s.counted a ∙ total-append (use_of a) before after t;
  locked = λ a. s.locked a ∙ total-append (hold_of a) before after t;
  linked = (All-middle (IsLinked l) before after t s.linked).1;
  used = λ key a h. omega (arith, s.used key a h, total-append (use_of a) before after t);
  fresh = λ a h. omega (arith, s.fresh a h, total-append (use_of a) before after t);
  below = λ a. omega (arith, total_hold-le-use a before, total_hold-le-use a after);
  one_key = s.one_key;
}

pub Step-IsSound :
    {s t : System} → Step s t → IsSound s.shared s.threads → IsSound t.shared t.threads
Step-IsSound (step before after {l} {l'} {t = u} {t' = u'} m) s =
    let fits = IsSound-Fits l before after u s in
    let linked = All-middle (IsLinked l) before after u s.linked in
    let uses = sum use_of before after in
    let keeps = Move-Keeps l l' u u' uses (sum hold_of before after) m fits in
    Fits-IsSound l' before after u' (Move-Fits l l' u u' uses (sum hold_of before after) m fits)
      (still-IsLinked l l' uses before keeps (λ a. omega arith) linked.0)
      (still-IsLinked l l' uses after keeps (λ a. omega arith) linked.2)

pub Reaches-IsSound :
    {s t : System} → IsSound s.shared s.threads → Reaches s t → IsSound t.shared t.threads
Reaches-IsSound h here = h
Reaches-IsSound h (next r st) = Step-IsSound st (Reaches-IsSound h r)

abbrev pub IsIdle : Thread → Type 0
IsIdle t = t ≡ idle

pub total-idle : (w : Thread → ℕ) (ts : List Thread) → w idle ≡ 0 → All IsIdle ts → total w ts ≡ 0
unfolding total
total-idle w [] e h = refl
total-idle w (t ∷ ts) e h = rw h.0 (omega (arith, total-idle w ts e h.1))

IsLinked-idle : (l : KeyLocks) (ts : List Thread) → All IsIdle ts → All (IsLinked l) ts
IsLinked-idle l [] h = tt
IsLinked-idle l (t ∷ ts) h = (rw h.0 tt, IsLinked-idle l ts h.1)

-- Threads that are all outside, with new locks.
pub new-IsSound : (ts : List Thread) → All IsIdle ts → IsSound new_key_locks ts
unfolding use_of hold_of
new-IsSound ts h = record {
  counted = λ a. sym (total-idle (use_of a) ts refl h);
  locked = λ a. sym (total-idle (hold_of a) ts refl h);
  linked = IsLinked-idle new_key_locks ts h;
  used = λ key a e. cc;
  fresh = λ a le. total-idle (use_of a) ts refl h;
  one_key = λ key key' a e e'. cc;
}

-- A state that threads with new locks can come to, in any order of their steps.
abbrev pub Comes : List Thread → System → Type 0
Comes ts s = All IsIdle ts × Reaches (record { shared = new_key_locks; threads = ts }) s

pub Comes-IsSound : {ts : List Thread} {s : System} → Comes ts s → IsSound s.shared s.threads
Comes-IsSound {ts} (h, r) = Reaches-IsSound (new-IsSound ts h) r
