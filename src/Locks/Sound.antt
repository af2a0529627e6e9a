-- ===== src/Locks/Sound.antt =====
-- What ties the objects and the map to the threads, and that a step of one thread keeps it beside
-- any others.
use apk_cache.Prelude.{
  ℕ, ◌+◌, ◌≤◌, ◌<◌, ◌≡◌, String, true, false, none, some, eq_iff, if◌then◌else◌, Option-cases, inl,
  inr, arith,
}
use apk_cache.Locks.{
  KeyLocks, put, write, address, add_ref, set_held, drop_ref, Thread, idle, waiting, holding,
  leaving, Move, enters, acquires, releases, leaves,
}
use apk_cache.Locks.Counts.{use_of, hold_of}

-- A thread's object is the one that the map has for its key.
abbrev pub IsLinked : KeyLocks → Thread → Type 0
IsLinked l idle = Unit
IsLinked l (waiting key a) = l.locks key ≡ some a
IsLinked l (holding key a) = l.locks key ≡ some a
IsLinked l (leaving key a) = l.locks key ≡ some a

-- One thread beside others, of which `uses` and `holds` count those of each object.
pub record Fits (l : KeyLocks) (t : Thread) (uses holds : ℕ → ℕ) : Type 0 where
  pub counted : (a : ℕ) → (l.objects a).refs ≡ use_of a t + uses a
  pub locked : (a : ℕ) → (if (l.objects a).held then 1 else 0) ≡ hold_of a t + holds a
  pub linked : IsLinked l t
  pub used : (key : String) (a : ℕ) → l.locks key ≡ some a → 0 < use_of a t + uses a
  pub fresh : (a : ℕ) → l.next ≤ a → use_of a t + uses a ≡ 0
  pub below : (a : ℕ) → holds a ≤ uses a
  pub one_key :
      (key key' : String) (a : ℕ) → l.locks key ≡ some a → l.locks key' ≡ some a → key ≡ key'

-- The objects that others use stay in the map.
abbrev pub Keeps : KeyLocks → KeyLocks → (ℕ → ℕ) → Type 0
Keeps l l' uses = (key : String) (a : ℕ) → l.locks key ≡ some a → 0 < uses a → l'.locks key ≡ some a

set_held-Fits :
    (l : KeyLocks) (key : String) (a : ℕ) (uses holds : ℕ → ℕ)
    → (l.objects a).held ≡ false
    → Fits l (waiting key a) uses holds
    → Fits (set_held true a l) (holding key a) uses holds
unfolding set_held write use_of hold_of
set_held-Fits l key a uses holds free f = record {
  counted = λ b. ground (arith, f.counted b);
  locked = λ b. ground (arith, f.locked b, f.locked a);
  linked = f.linked;
  used = λ k b h. f.used k b h;
  fresh = λ b h. f.fresh b h;
  below = f.below;
  one_key = f.one_key;
}

release-Fits :
    (l : KeyLocks) (key : String) (a : ℕ) (uses holds : ℕ → ℕ)
    → Fits l (holding key a) uses holds
    → Fits (set_held false a l) (leaving key a) uses holds
unfolding set_held write use_of hold_of
release-Fits l key a uses holds f = record {
  counted = λ b. ground (arith, f.counted b);
  locked = λ b. ground (arith, f.locked b, f.locked a);
  linked = f.linked;
  used = λ k b h. f.used k b h;
  fresh = λ b h. f.fresh b h;
  below = f.below;
  one_key = f.one_key;
}

-- A key that is new to the map gets the next object.
enter_new-Fits :
    (l : KeyLocks) (key : String) (uses holds : ℕ → ℕ)
    → l.locks key ≡ none
    → Fits l idle uses holds
    → Fits (add_ref key l) (waiting key (address key l)) uses holds
unfolding add_ref address put write use_of hold_of
enter_new-Fits l key uses holds e f =
    let unused : uses l.next ≡ 0 = omega (arith, f.fresh l.next (omega arith)) in
    rw (e, add_ref, address)
      (record {
        counted = λ b. ground (arith, f.counted b, unused);
        locked = λ b. ground (arith, f.locked b, f.locked l.next, f.below l.next, unused);
        linked = ground (arith, eq_iff key key);
        used = λ k b h. ground (arith, f.used k b, eq_iff key k, h);
        fresh = λ b h. ground (arith, f.fresh b, h);
        below = f.below;
        one_key = λ k k' b h h'. ground (
          arith,
          f.one_key k k' b,
          f.used k b,
          f.used k' b,
          f.fresh b,
          eq_iff key k,
          eq_iff key k',
          h,
          h',
        );
      })

-- A key that is in the map keeps its object.
enter_old-Fits :
    (l : KeyLocks) (key : String) (a : ℕ) (uses holds : ℕ → ℕ)
    → l.locks key ≡ some a
    → Fits l idle uses holds
    → Fits (add_ref key l) (waiting key (address key l)) uses holds
unfolding add_ref address write use_of hold_of
enter_old-Fits l key a uses holds e f =
    rw (e, add_ref, address)
      (record {
        counted = λ b. ground (arith, f.counted b, f.counted a);
        locked = λ b. ground (arith, f.locked b, f.locked a);
        linked = e;
        used = λ k b h. ground (arith, f.used k b h);
        fresh = λ b h. ground (arith, f.fresh b, f.used key a e, h);
        below = f.below;
        one_key = f.one_key;
      })

leave-Fits :
    (l : KeyLocks) (key : String) (a : ℕ) (uses holds : ℕ → ℕ)
    → Fits l (leaving key a) uses holds
    → Fits (drop_ref key a l) idle uses holds
unfolding drop_ref put write use_of hold_of
leave-Fits l key a uses holds f = record {
  counted = λ b. ground (arith, f.counted b, f.counted a);
  locked = λ b. ground (arith, f.locked b, f.locked a);
  linked = tt;
  used = λ k b h.
      ground
        (arith, f.used k b, f.counted a, f.one_key key k a, f.linked, still k b h, eq_iff key k, h);
  fresh = λ b h. ground (arith, f.fresh b);
  below = f.below;
  one_key = λ k k' b h h'. f.one_key k k' b (still k b h) (still k' b h');
}
  where
    still : (k : String) (b : ℕ) → (drop_ref key a l).locks k ≡ some b → l.locks k ≡ some b
    still k b h = ground (arith, h)

-- A step of a thread fits again, and keeps what the others use.
pub Move-Fits :
    (l l' : KeyLocks) (t t' : Thread) (uses holds : ℕ → ℕ)
    → Move l t l' t'
    → Fits l t uses holds
    → Fits l' t' uses holds
Move-Fits _ _ _ _ uses holds (enters l key) f = elim (Option-cases (l.locks key)) [
  | inl e ↦ enter_new-Fits l key uses holds e f
  | inr (a, e) ↦ enter_old-Fits l key a uses holds e f
]
Move-Fits _ _ _ _ uses holds (acquires l key a free) f = set_held-Fits l key a uses holds free f
Move-Fits _ _ _ _ uses holds (releases l key a) f = release-Fits l key a uses holds f
Move-Fits _ _ _ _ uses holds (leaves l key a) f = leave-Fits l key a uses holds f

add_ref-Keeps : (l : KeyLocks) (key : String) (uses : ℕ → ℕ) → Keeps l (add_ref key l) uses
unfolding add_ref put
add_ref-Keeps l key uses k b h p = elim (Option-cases (l.locks key)) [
  | inl e ↦ rw (e, add_ref, put) (ground (arith, eq_iff key k, h))
  | inr (a, e) ↦ rw (e, add_ref) h
]

drop_ref-Keeps :
    (l : KeyLocks) (key : String) (a : ℕ) (uses holds : ℕ → ℕ)
    → Fits l (leaving key a) uses holds
    → Keeps l (drop_ref key a l) uses
unfolding drop_ref put use_of
drop_ref-Keeps l key a uses holds f k b h p = ground (arith, f.counted a, f.linked, eq_iff key k, h)

pub Move-Keeps :
    (l l' : KeyLocks) (t t' : Thread) (uses holds : ℕ → ℕ)
    → Move l t l' t'
    → Fits l t uses holds
    → Keeps l l' uses
Move-Keeps _ _ _ _ uses holds (enters l key) f = add_ref-Keeps l key uses
Move-Keeps _ _ _ _ uses holds (acquires l key a free) f = λ k b h p. unfold set_held in h
Move-Keeps _ _ _ _ uses holds (releases l key a) f = λ k b h p. unfold set_held in h
Move-Keeps _ _ _ _ uses holds (leaves l key a) f = drop_ref-Keeps l key a uses holds f
