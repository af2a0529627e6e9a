-- ===== src/Memory/Reads.antt =====
-- `Get`, `Delete` and `deleteExpired`: what they return and what stays.
use text.Mathlib.TextPositions.{eq_refl}
use mathlib.Core.Path.{subst}
use apk_cache.Prelude.{
  ℕ, ◌+◌, ◌-◌, ◌≤◌, ◌<◌, ◌≡◌, ◌≢◌, ◌⊎◌, refl, sym, ap, ◌∙◌, ◌&&◌, str_eq, eq_iff, String, Bool,
  Option, none, some, [], ◌∷◌, length, Bytes, ltb, if◌then◌else◌, arith, Bool-cases, Option-cases,
  true, false, inl, inr,
}
use apk_cache.Prelude.Int.{pos}
use apk_cache.Memory.{
  Item, Items, Memory, Header, lookup, replace, new_item, insert, report, set_item, set, get,
  get_found, is_old, count_hit, count_miss, clone_item, delete_locked, expire_each, delete_expired,
  finish, Search, room, refused, stuck,
}
use apk_cache.Memory.Sizes.{
  Distinct, lookup-without, total-replace, lookup-replace, Distinct-replace,
}
use apk_cache.Memory.Room.{IsValid, delete_locked-IsValid}
use apk_cache.Memory.Calls.{lookup-store}

pub lookup-delete_locked :
    (key j : String) (c : Memory)
    → lookup j (delete_locked key c).items ≡ (if str_eq key j then none else lookup j c.items)
unfolding delete_locked
lookup-delete_locked key j c = ground (arith, lookup-without key j c.items, eq_iff key j)

report-IsValid : (c : Memory) → IsValid c → IsValid (report c)
unfolding report
report-IsValid c v = record { distinct = v.distinct; accurate = v.accurate }

-- An item is fresh at a time if there is no limit on its age or it is not older than that.
unfoldable pub is_fresh : Memory → ℕ → Item → Bool
is_fresh c now item = if ltb 0 c.ttl && is_old c.ttl now item then false else true

-- The entry of `key` in `c'` is `item` with a new time of use.
abbrev pub IsTouched : String → ℕ → Item → Memory → Type 0
IsTouched key now item c' =
    (item' : Item) × (lookup key c'.items ≡ some item')
    × (item'.body ≡ item.body)
    × (item'.created_at ≡ item.created_at)
    × (item'.accessed_at ≡ now)

abbrev pub Answers : String → ℕ → Memory → Item → Type 0
Answers key now c item =
    (is_fresh c now item ≡ true)
      × ((get key now c).1 ≡ some (clone_item item))
      × IsTouched key now item (get key now c).0
    ⊎ (is_fresh c now item ≡ false)
      × ((get key now c).1 ≡ none)
      × (lookup key (get key now c).0.items ≡ none)

-- `Get` of a key that is there. An item that is not older than `ttl` allows is returned as its clone
-- and found again, with its body and its age unchanged and `now` as its time of use; an older one is
-- not returned, and is gone.
pub get-answer :
    (key : String) (now : ℕ) (c : Memory) (item : Item)
    → lookup key c.items ≡ some item
    → Answers key now c item
unfolding get is_fresh clone_item count_hit count_miss report
get-answer key now c item h = elim (Bool-cases (ltb 0 c.ttl && is_old c.ttl now item)) [
  | inl old ↦ inr (
    rw old,
    rw (h, get, old, get_found),
    rw (h, get, old, get_found, lookup-delete_locked key key c, eq_refl key),
  )
  | inr young ↦
      let touched = record item { accessed_at = now; access_count = item.access_count + 1 } in
      inl (
        rw young,
        rw (h, get, young, get_found),
        (
          touched,
          rw (h, get, young, get_found, lookup-replace key key touched c.items item h, eq_refl key),
          refl,
          refl,
          refl,
        ),
      )
]

get_other :
    (key j : String) (now : ℕ) (c : Memory)
    → key ≢ j
    → lookup j (get key now c).0.items ≡ lookup j c.items
unfolding get get_found count_hit count_miss report
get_other key j now c other = elim (Option-cases (lookup key c.items)) [
  | inl missing ↦ rw (missing, get)
  | inr (item, h) ↦
      let touched = record item { accessed_at = now; access_count = item.access_count + 1 } in
      rw (h, get)
        (ground (
          arith,
          eq_iff key j,
          lookup-delete_locked key j c,
          lookup-replace key j touched c.items item h,
        ))
]

touch-IsValid :
    (key : String) (c : Memory) (old new : Item)
    → IsValid c
    → lookup key c.items ≡ some old
    → new.size ≡ old.size
    → IsValid (record c { items = replace key new c.items })
touch-IsValid key c old new v h e = record {
  distinct = Distinct-replace key new c.items v.distinct;
  accurate = v.accurate ∙ ap pos (sym (total-replace key c.items old new h e));
}

get-IsValid : (key : String) (now : ℕ) (c : Memory) → IsValid c → IsValid (get key now c).0
unfolding get count_hit count_miss report
get-IsValid key now c v = elim (Option-cases (lookup key c.items)) [
  | inl missing ↦ rw (missing, get) (record { distinct = v.distinct; accurate = v.accurate })
  | inr (item, h) ↦ elim (Bool-cases (ltb 0 c.ttl && is_old c.ttl now item)) [
    | inl old ↦
        let v' = delete_locked-IsValid key c v in
        rw (h, get, old, get_found) (record { distinct = v'.distinct; accurate = v'.accurate })
    | inr young ↦
        let touched = record item { accessed_at = now; access_count = item.access_count + 1 } in
        let v' = touch-IsValid key c item touched v h refl in
        rw (h, get, young, get_found) (record { distinct = v'.distinct; accurate = v'.accurate })
  ]
]

-- `Get` keeps a cache valid, whether it hits, misses or drops an old item, and leaves the item of
-- every other key as it is.
pub get_keeps :
    (key : String) (now : ℕ) (c : Memory)
    → IsValid c
    → IsValid (get key now c).0
      × ((j : String) → key ≢ j → lookup j (get key now c).0.items ≡ lookup j c.items)
get_keeps key now c v = (get-IsValid key now c v, λ j other. get_other key j now c other)

lookup-finish :
    (key : String) (item : Item) (r : Search) (c' : Memory)
    → finish key item r ≡ some (c', true)
    → lookup key c'.items ≡ some item
unfolding insert report
lookup-finish key item (room d) c' e =
    let same : insert key item d ≡ c' = cc in
    subst (λ (x : Memory). lookup key x.items ≡ some item) same (lookup-store key item d.items)
lookup-finish key item (refused d) c' e = cc
lookup-finish key item stuck c' e = cc

lookup-set :
    (key : String) (body : Bytes) (headers : Header) (status mod_time now : ℕ) (c c' : Memory)
    → set key body headers status mod_time now c ≡ some (c', true)
    → lookup key c'.items ≡ some (new_item body headers status mod_time now)
unfolding set set_item
lookup-set key body headers status mod_time now c c' done =
    elim (Bool-cases (ltb 0 c.max_size && ltb c.max_size (length body))) [
      | inl long ↦ absurd (cc (rw long at done))
      | inr fits ↦ lookup-finish key _ _ c' (rw fits at done)
    ]

-- `Get` returns an item with this content.
abbrev pub Returns : String → ℕ → Memory → Bytes → Header → ℕ → ℕ → Type 0
Returns key now c body headers status mod_time =
    (item : Item) × ((get key now c).1 ≡ some item)
    × (item.body ≡ body)
    × (item.headers ≡ headers)
    × (item.status_code ≡ status)
    × (item.mod_time ≡ mod_time)

-- After a `Set` that returned true, on any cache, a `Get` no later than the limit on age returns the
-- body, the headers, the status and the modification time that were set.
pub get-set :
    (key : String) (body : Bytes) (headers : Header) (status mod_time now later : ℕ) (c c' : Memory)
    → set key body headers status mod_time now c ≡ some (c', true)
    → (0 < c'.ttl → later - now ≤ c'.ttl)
    → Returns key later c' body headers status mod_time
unfolding get get_found clone_item is_old
get-set key body headers status mod_time now later c c' done young =
    let item = new_item body headers status mod_time now in
    let found = lookup-set key body headers status mod_time now c c' done in
    (clone_item item, rw (found, get) (ground arith), refl, refl, refl, refl)

expire_each-IsValid :
    (items : Items) (now : ℕ) (c : Memory) → IsValid c → IsValid (expire_each items now c)
unfolding expire_each
expire_each-IsValid [] now c v = v
expire_each-IsValid ((key, item) ∷ rest) now c v =
    expire_each-IsValid rest now _ (step (is_old c.ttl now item))
  where
    step : (b : Bool) → IsValid (if b then delete_locked key c else c)
    step true = delete_locked-IsValid key c v
    step false = v

delete_expired-IsValid : (now : ℕ) (c : Memory) → IsValid c → IsValid (delete_expired now c)
unfolding delete_expired
delete_expired-IsValid now c v = report-IsValid _ (expire_each-IsValid c.items now c v)

-- What the loop leaves of a key's entry: its listed item decides.
drop_old : ℕ → ℕ → Option Item → Option Item → Option Item
drop_old ttl now none current = current
drop_old ttl now (some item) current = if is_old ttl now item then none else current

ttl-delete_locked : (key : String) (c : Memory) → (delete_locked key c).ttl ≡ c.ttl
unfolding delete_locked
ttl-delete_locked key c = ground arith

lookup-expire_each :
    (items : Items) (now : ℕ) (j : String) (c : Memory)
    → Distinct items
    → lookup j (expire_each items now c).items
      ≡ drop_old c.ttl now (lookup j items) (lookup j c.items)
unfolding expire_each lookup drop_old
lookup-expire_each [] now j c d = refl
lookup-expire_each ((k, v) ∷ l) now j c d = elim (Bool-cases (is_old c.ttl now v)) [
  | inr young ↦ ground (arith, lookup-expire_each l now j c d.1, eq_iff k j, d.0)
  | inl old ↦ ground (
    arith,
    lookup-expire_each l now j (delete_locked k c) d.1,
    lookup-delete_locked k j c,
    ttl-delete_locked k c,
    eq_iff k j,
    d.0,
  )
]

-- What is left of an entry at the time `now`.
abbrev pub unexpired : ℕ → ℕ → Option Item → Option Item
unexpired ttl now none = none
unexpired ttl now (some item) = if ltb ttl (now - item.created_at) then none else some item

lookup-delete_expired :
    (now : ℕ) (j : String) (c : Memory)
    → IsValid c
    → lookup j (delete_expired now c).items ≡ unexpired c.ttl now (lookup j c.items)
unfolding delete_expired report drop_old is_old
lookup-delete_expired now j c v = ground (arith, lookup-expire_each c.items now j c v.distinct)

-- `deleteExpired` on a valid cache removes exactly the items older than the limit, leaves every
-- other item as it is, and keeps the cache valid.
pub delete_expired_lem :
    (now : ℕ) (c : Memory)
    → IsValid c
    → ((j : String)
        → lookup j (delete_expired now c).items ≡ unexpired c.ttl now (lookup j c.items))
      × IsValid (delete_expired now c)
delete_expired_lem now c v = (λ j. lookup-delete_expired now j c v, delete_expired-IsValid now c v)
