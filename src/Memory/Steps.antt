-- ===== src/Memory/Steps.antt =====
-- The life of a cache: the methods as steps. `Set` is a step here where its key is not there; `Drift`
-- is about the other case.
use mathlib.Core.Path.{subst}
use apk_cache.Prelude.{
  ℕ, ◌+◌, ◌≤◌, ◌≡◌, refl, ◌∙◌, ◌&&◌, String, Bool, Option, none, some, [], ◌∷◌, length, Bytes, ltb,
  arith, Bool-cases, Option-cases, inl, inr,
}
use apk_cache.Metrics.{Metrics}
use apk_cache.Memory.{
  Items, Memory, Header, lookup, report, new_memory, get, get_found, is_old, count_hit, count_miss,
  delete_locked, set, delete, clear, expire_each, delete_expired,
}
use apk_cache.Memory.Sizes.{total, total-without, total-replace, length-replace}
use apk_cache.Memory.Room.{IsValid, delete_locked-IsValid}
use apk_cache.Memory.Calls.{IsWithin, set_fresh}
use apk_cache.Memory.Reads.{get_keeps, delete_expired_lem}

-- No more is held, under the same limits.
record IsSmaller (c c' : Memory) : Type 0 where
  bytes : total c'.items ≤ total c.items
  count : length c'.items ≤ length c.items
  same_size : c'.max_size ≡ c.max_size
  same_count : c'.max_items ≡ c.max_items

IsSmaller-IsWithin : (c c' : Memory) → IsSmaller c c' → IsWithin c → IsWithin c'
IsSmaller-IsWithin c c' s w = record {
  bytes_fit = elim w.bytes_fit [
    | inl e ↦ inl (s.same_size ∙ e)
    | inr h ↦ inr (omega (arith, s.bytes, s.same_size))
  ];
  items_fit = elim w.items_fit [
    | inl e ↦ inl (s.same_count ∙ e)
    | inr h ↦ inr (omega (arith, s.count, s.same_count))
  ];
}

delete_locked-IsSmaller :
    (key : String) (c : Memory) → IsValid c → IsSmaller c (delete_locked key c)
unfolding delete_locked
delete_locked-IsSmaller key c v = elim (Option-cases (lookup key c.items)) [
  | inl e ↦
      rw (e, delete_locked)
        (record { bytes = omega arith; count = omega arith; same_size = refl; same_count = refl })
  | inr (item, e) ↦
      let (fewer, shorter) = total-without key c.items item v.distinct e in
      rw (e, delete_locked)
        (record { bytes = omega arith; count = omega arith; same_size = refl; same_count = refl })
]

IsSmaller-trans : (a b c : Memory) → IsSmaller a b → IsSmaller b c → IsSmaller a c
IsSmaller-trans a b c p q = record {
  bytes = omega (arith, p.bytes, q.bytes);
  count = omega (arith, p.count, q.count);
  same_size = q.same_size ∙ p.same_size;
  same_count = q.same_count ∙ p.same_count;
}

get-IsSmaller : (key : String) (now : ℕ) (c : Memory) → IsValid c → IsSmaller c (get key now c).0
unfolding get count_hit count_miss report
get-IsSmaller key now c v = elim (Option-cases (lookup key c.items)) [
  | inl missing ↦
      rw (missing, get)
        (record { bytes = omega arith; count = omega arith; same_size = refl; same_count = refl })
  | inr (item, h) ↦ elim (Bool-cases (ltb 0 c.ttl && is_old c.ttl now item)) [
    | inl old ↦
        let s = delete_locked-IsSmaller key c v in
        rw (h, get, old, get_found)
          (record {
            bytes = s.bytes;
            count = s.count;
            same_size = s.same_size;
            same_count = s.same_count;
          })
    | inr young ↦
        let touched = record item { accessed_at = now; access_count = item.access_count + 1 } in
        rw (h, get, young, get_found)
          (record {
            bytes = omega (arith, total-replace key c.items item touched h refl);
            count = omega (arith, length-replace key touched c.items);
            same_size = refl;
            same_count = refl;
          })
  ]
]

expire_each-IsSmaller :
    (items : Items) (now : ℕ) (c : Memory) → IsValid c → IsSmaller c (expire_each items now c)
unfolding expire_each
expire_each-IsSmaller [] now c v = record {
  bytes = omega arith;
  count = omega arith;
  same_size = refl;
  same_count = refl;
}
expire_each-IsSmaller ((key, item) ∷ rest) now c v = elim (Bool-cases (is_old c.ttl now item)) [
  | inl old ↦ rw old (
      IsSmaller-trans c (delete_locked key c) (expire_each rest now (delete_locked key c))
        (delete_locked-IsSmaller key c v)
        (expire_each-IsSmaller rest now (delete_locked key c) (delete_locked-IsValid key c v)))
  | inr young ↦ rw young (expire_each-IsSmaller rest now c v)
]

-- A call of a method.
pub data Step : Memory → Memory → Type 0 where
  reads : (c : Memory) (key : String) (now : ℕ) → Step c (get key now c).0
  deletes : (c : Memory) (key : String) → Step c (delete key c)
  clears : (c : Memory) → Step c (clear c)
  expires : (c : Memory) (now : ℕ) → Step c (delete_expired now c)
  sets :
      (c c' : Memory) (key : String) (body : Bytes) (headers : Header) (status mod_time now : ℕ)
      (stored : Bool)
      → lookup key c.items ≡ none
      → set key body headers status mod_time now c ≡ some (c', stored)
      → Step c c'

-- The caches that a new one can become.
pub data Reachable : Memory → Type 0 where
  start :
      (max_size max_items ttl : ℕ) (metrics : Option Metrics)
      → Reachable (new_memory max_size max_items ttl metrics)
  next : (c c' : Memory) → Reachable c → Step c c' → Reachable c'

abbrev pub IsSound : Memory → Type 0
IsSound c = IsValid c × IsWithin c

smaller-IsSound : (c c' : Memory) → IsValid c' → IsSmaller c c' → IsSound c → IsSound c'
smaller-IsSound c c' v s (_, w) = (v, IsSmaller-IsWithin c c' s w)

set-IsSound :
    (c c' : Memory) (key : String) (body : Bytes) (headers : Header) (status mod_time now : ℕ)
    (stored : Bool)
    → lookup key c.items ≡ none
    → set key body headers status mod_time now c ≡ some (c', stored)
    → IsSound c
    → IsSound c'
set-IsSound c c' key body headers status mod_time now stored fresh done (v, w) =
    elim (set_fresh key body headers status mod_time now c v fresh) [
      | inl (_, _, refused) ↦ let same : c ≡ c' = cc in subst IsSound same (v, w)
      | inr (_, (d, taken, facts)) ↦
          let same : d ≡ c' = cc in subst IsSound same (facts.valid, facts.within)
    ]

Step-IsSound : (c c' : Memory) → Step c c' → IsSound c → IsSound c'
Step-IsSound c c' (reads _ key now) (v, w) =
    smaller-IsSound c _ (get_keeps key now c v).0 (get-IsSmaller key now c v) (v, w)
Step-IsSound c c' (deletes _ key) (v, w) =
    let v' = delete_locked-IsValid key c v in
    let w' = IsSmaller-IsWithin c _ (delete_locked-IsSmaller key c v) w in
    unfold delete report in
    (
      record { distinct = v'.distinct; accurate = v'.accurate },
      record { bytes_fit = w'.bytes_fit; items_fit = w'.items_fit },
    )
Step-IsSound c c' (clears _) (v, w) =
    unfold clear report total in
    (
      record { distinct = tt; accurate = refl },
      record { bytes_fit = inr (omega arith); items_fit = inr (omega arith) },
    )
Step-IsSound c c' (expires _ now) (v, w) =
    let w' = IsSmaller-IsWithin c _ (expire_each-IsSmaller c.items now c v) w in
    (
      (delete_expired_lem now c v).1,
      unfold delete_expired report in record { bytes_fit = w'.bytes_fit; items_fit = w'.items_fit },
    )
Step-IsSound c c' (sets _ _ key body headers status mod_time now stored fresh done) h =
    set-IsSound c c' key body headers status mod_time now stored fresh done h

-- Every cache that a new one becomes by calls of its methods, each `Set` of a key that is not there,
-- counts the bytes that it holds, has one entry for a key, and keeps within its limits.
pub Reachable-IsSound : (c : Memory) → Reachable c → IsSound c
Reachable-IsSound _ (start max_size max_items ttl metrics) =
    unfold new_memory total in
    (
      record { distinct = tt; accurate = refl },
      record { bytes_fit = inr (omega arith); items_fit = inr (omega arith) },
    )
Reachable-IsSound _ (next c c' r step) = Step-IsSound c c' step (Reachable-IsSound c r)
