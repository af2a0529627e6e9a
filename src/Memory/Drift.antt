-- ===== src/Memory/Drift.antt =====
-- `Set` of a key that is there already, whose size is taken off before the loop.
use text.Mathlib.TextPositions.{eq_refl}
use mathlib.Core.Path.{subst}
use apk_cache.Prelude.{
  ℕ, zero, suc, ◌+◌, ◌<◌, ◌≡◌, ◌∙◌, ap, ◌⊎◌, refl, ◌&&◌, str_eq, String, none, some, [], ◌∷◌,
  length, Bytes, ltb, arith, Bool-cases, Option-cases, true, false, inl, inr,
}
use apk_cache.Prelude.Int.{ℤ, pos, ltb_ℤ, ◌+ℤ◌, ◌-ℤ◌}
use apk_cache.Memory.{
  Item, Items, Memory, Header, lookup, store, new_item, insert, report, discount, set_item, set,
  new_item, delete_locked, needs_space, make_room, evict_one, count_eviction, room, oldest,
}
use apk_cache.Memory.Sizes.{
  total, Distinct, Distinct-without, total-without, lookup-without, without_absent, oldest-IsEntry,
}
use apk_cache.Memory.Room.{IsValid}
use apk_cache.Memory.Calls.{lookup-store}
use apk_cache.Memory.Reads.{lookup-delete_locked}

-- `current_size` is short of the bytes held by `drift`.
pub record IsShort (drift : ℕ) (c : Memory) : Type 0 where
  pub distinct : Distinct c.items
  pub counted : c.current_size +ℤ pos drift ≡ pos (total c.items)

-- `key` is there with the item it had, or is gone.
abbrev IsKept : String → Item → Memory → Type 0
IsKept key item c = (lookup key c.items ≡ some item) ⊎ (lookup key c.items ≡ none)

less_after_removal :
    (current : ℤ) {before after : ℕ} (drift size : ℕ)
    → current +ℤ pos drift ≡ pos before
    → after + size ≡ before
    → current -ℤ pos size +ℤ pos drift ≡ pos after
unfolding ◌+ℤ◌ ◌-ℤ◌
less_after_removal current drift size e h = ground arith

delete_locked-IsShort :
    (drift : ℕ) (key : String) (c : Memory) → IsShort drift c → IsShort drift (delete_locked key c)
unfolding delete_locked
delete_locked-IsShort drift key c s = elim (Option-cases (lookup key c.items)) [
  | inl e ↦ rw (e, delete_locked) s
  | inr (item, e) ↦
      rw (e, delete_locked)
        (record {
          distinct = Distinct-without key c.items s.distinct;
          counted =
              less_after_removal c.current_size drift item.size s.counted
                (total-without key c.items item s.distinct e).0;
        })
]

delete_locked-IsKept :
    (j key : String) (item : Item) (c : Memory)
    → IsKept key item c
    → IsKept key item (delete_locked j c)
delete_locked-IsKept j key item c (inl h) = elim (Bool-cases (str_eq j key)) [
  | inl e ↦ inr (rw (lookup-delete_locked j key c, e) refl)
  | inr e ↦ inl (rw (lookup-delete_locked j key c, e) h)
]
delete_locked-IsKept j key item c (inr h) = inr (ground (arith, lookup-delete_locked j key c))

-- An eviction is the removal of some entry, unless there is none.
abbrev EvictsSome : Memory → Type 0
EvictsSome c =
    (c.items ≡ []) × (evict_one c ≡ none)
    ⊎ ((j : String) × (item : Item) × (lookup j c.items ≡ some item)
        × (evict_one c ≡ some (count_eviction (delete_locked j c))))

evict_one_cases : (c : Memory) → Distinct c.items → EvictsSome c
unfolding evict_one
evict_one_cases c distinct = go c.items refl
  where
    go : (items : Items) → c.items ≡ items → EvictsSome c
    go [] e = inl (e, simp (e, evict_one))
    go (first ∷ rest) e =
        let victim = oldest first rest in
        let found : lookup victim.0 c.items ≡ some victim.1 =
          rw e (oldest-IsEntry first rest (subst Distinct e distinct)) in
        inr (victim.0, victim.1, found, simp (e, evict_one))

-- The removal of an entry leaves one fewer, and the limits.
fewer_items :
    (j : String) (item : Item) (c : Memory)
    → Distinct c.items
    → lookup j c.items ≡ some item
    → (suc (length (count_eviction (delete_locked j c)).items) ≡ length c.items)
      × ((count_eviction (delete_locked j c)).max_size ≡ c.max_size)
unfolding delete_locked count_eviction
fewer_items j item c distinct e =
    rw (e, delete_locked, count_eviction) ((total-without j c.items item distinct e).1, refl)

no_bytes_needed :
    (current : ℤ) (drift size max : ℕ)
    → current +ℤ pos drift ≡ pos 0
    → ((ltb 0 max && ltb max size) ≡ false)
    → ((ltb 0 max && ltb_ℤ (pos max) (current +ℤ pos size)) ≡ false)
unfolding ◌+ℤ◌
no_bytes_needed current drift size max e fits = ground arith

-- A cache without items has room for what fits at all, also if its count is short.
empty_has_room :
    (drift size : ℕ) (c : Memory)
    → IsShort drift c
    → c.items ≡ []
    → ((ltb 0 c.max_size && ltb c.max_size size) ≡ false)
    → needs_space c size ≡ false
unfolding needs_space total
empty_has_room drift size c s e fits =
    let nothing : c.current_size +ℤ pos drift ≡ pos 0 = s.counted ∙ ap (λ l. pos (total l)) e in
    rw (e, no_bytes_needed c.current_size drift size c.max_size nothing fits) (ground arith)

IsShort-count_eviction :
    (drift : ℕ) (c : Memory) → IsShort drift c → IsShort drift (count_eviction c)
unfolding count_eviction
IsShort-count_eviction drift c s = record { distinct = s.distinct; counted = s.counted }

IsKept-count_eviction :
    (key : String) (item : Item) (c : Memory)
    → IsKept key item c
    → IsKept key item (count_eviction c)
unfolding count_eviction
IsKept-count_eviction key item c k = k

-- The loop ends with room, and with the shortfall that it began with, whatever it evicts.
abbrev EndsShort : ℕ → ℕ → ℕ → String → Item → Memory → Type 0
EndsShort fuel size drift key item c =
    (d : Memory) × (make_room fuel size c ≡ room d) × IsShort drift d × IsKept key item d

make_room-EndsShort :
    (fuel size drift : ℕ) (key : String) (item : Item) (c : Memory)
    → IsShort drift c
    → IsKept key item c
    → length c.items < fuel
    → ((ltb 0 c.max_size && ltb c.max_size size) ≡ false)
    → EndsShort fuel size drift key item c
unfolding make_room
make_room-EndsShort zero size drift key item c s k enough fits = absurd (omega arith)
make_room-EndsShort (suc fuel) size drift key item c s k enough fits =
    elim (Bool-cases (needs_space c size)) [
      | inr done ↦ (c, rw (done, make_room) refl, s, k)
      | inl more ↦ elim (evict_one_cases c s.distinct) [
        | inl (e, _) ↦ cc (empty_has_room drift size c s e fits)
        | inr (j, victim, found, evicted) ↦
            let (fewer, same) = fewer_items j victim c s.distinct found in
            let (d, ends, s', k') =
              make_room-EndsShort fuel size drift key item (count_eviction (delete_locked j c))
                (IsShort-count_eviction drift _ (delete_locked-IsShort drift j c s))
                (IsKept-count_eviction key item _ (delete_locked-IsKept j key item c k))
                (omega arith) (rw same fits) in
            (d, rw (more, evicted, make_room) ends, s', k')
      ]
    ]

-- The sums at the end of `Set`: with the old item still among `before`, and without it.
exact_sum :
    (current : ℤ) {before : ℕ} (after old new : ℕ)
    → current +ℤ pos old ≡ pos before
    → after + old ≡ before
    → current +ℤ pos new ≡ pos (new + after)
unfolding ◌+ℤ◌
exact_sum current after old new e h = ground arith

short_sum :
    (current : ℤ) {before : ℕ} (old new : ℕ)
    → current +ℤ pos old ≡ pos before
    → current +ℤ pos new +ℤ pos old ≡ pos (new + before)
unfolding ◌+ℤ◌
short_sum current old new e = ground arith

-- The new item goes in. An old one that is still there is taken out, and the sum is right again; one
-- that is gone leaves the shortfall.
insert_over :
    (key : String) (old item : Item) (d : Memory)
    → IsShort old.size d
    → IsKept key old d
    → (lookup key d.items ≡ some old) × IsValid (insert key item d)
      ⊎ (lookup key d.items ≡ none) × IsShort old.size (insert key item d)
unfolding insert report store total
insert_over key old item d s (inl h) = inl (
  h,
  record {
    distinct =
        (rw (lookup-without key key d.items, eq_refl key), Distinct-without key d.items s.distinct);
    accurate =
        exact_sum d.current_size _ old.size item.size s.counted
          (total-without key d.items old s.distinct h).0;
  },
)
insert_over key old item d s (inr h) =
    let same = without_absent key d.items h in
    inr (
      h,
      record {
        distinct = rw same (h, s.distinct);
        counted = rw same (short_sum d.current_size old.size item.size s.counted);
      },
    )

back_to_total :
    {current : ℤ} {before : ℕ} (old : ℕ)
    → current ≡ pos before
    → current -ℤ pos old +ℤ pos old ≡ pos before
unfolding ◌+ℤ◌ ◌-ℤ◌
back_to_total old e = rw e (ground arith)

discount-IsShort :
    (key : String) (c : Memory) (old : Item)
    → IsValid c
    → lookup key c.items ≡ some old
    → IsShort old.size (discount key c)
unfolding discount
discount-IsShort key c old v h =
    rw (h, discount) (record { distinct = v.distinct; counted = back_to_total old.size v.accurate })

items-discount : (key : String) (c : Memory) → (discount key c).items ≡ c.items
unfolding discount
items-discount key c = ground arith

size-discount : (key : String) (c : Memory) → (discount key c).max_size ≡ c.max_size
unfolding discount
size-discount key c = ground arith

-- The cache `c'` that a `Set` over `old` leaves, after a loop that ended in `d`: valid, or short of
-- the bytes held by the old item's size.
abbrev pub Overwrites : String → Bytes → Header → ℕ → ℕ → ℕ → Memory → Item → Type 0
Overwrites key body headers status mod_time now c old =
    (d : Memory) × (c' : Memory) × (make_room (suc (length c.items)) (length body) (discount key c)
      ≡ room d)
    × (set key body headers status mod_time now c ≡ some (c', true))
    × (lookup key c'.items ≡ some (new_item body headers status mod_time now))
    × ((lookup key d.items ≡ some old) × IsValid c'
        ⊎ (lookup key d.items ≡ none) × (c'.current_size +ℤ pos old.size ≡ pos (total c'.items)))

-- `Set` of a key that is there, on a valid cache, with a body that the limit allows, ends and stores
-- the item. If the loop left the old item, the cache is valid again. If it evicted the old item,
-- `currentSize` is from then on less than the bytes held by the old item's size, which was taken off
-- twice.
pub set_over :
    (key : String) (body : Bytes) (headers : Header) (status mod_time now : ℕ) (c : Memory)
    (old : Item)
    → IsValid c
    → lookup key c.items ≡ some old
    → ((ltb 0 c.max_size && ltb c.max_size (length body)) ≡ false)
    → Overwrites key body headers status mod_time now c old
unfolding set set_item
set_over key body headers status mod_time now c old v h fits =
    let item = new_item body headers status mod_time now in
    let fuel = suc (length c.items) in
    let kept : IsKept key old (discount key c) = inl (rw (items-discount key c) h) in
    let (d, ends, s, k) =
      make_room-EndsShort fuel (length body) old.size key old (discount key c)
        (discount-IsShort key c old v h) kept (rw (items-discount key c) (omega arith))
        (rw (size-discount key c) fits) in
    (
      d,
      insert key item d,
      ends,
      simp (fits, items-discount key c, ends),
      unfold insert report in lookup-store key item d.items,
      elim (insert_over key old item d s k) [
        | inl right ↦ inl right
        | inr (gone, short) ↦ inr (gone, short.counted)
      ],
    )
