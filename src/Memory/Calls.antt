-- ===== src/Memory/Calls.antt =====
-- What `Set` of a new key does to a valid cache.
use text.Mathlib.TextPositions.{eq_refl}
use apk_cache.Prelude.{
  ℕ, suc, ◌+◌, ◌≤◌, ◌<◌, ◌≡◌, ◌≢◌, ◌⊎◌, ◌&&◌, eq_iff, String, none, some, length, Bytes, ltb, arith,
  Bool-cases, true, false, inl, inr,
}
use apk_cache.Prelude.Int.{ℤ, pos, ◌+ℤ◌}
use apk_cache.Memory.{
  Item, Items, Memory, Header, lookup, without, store, new_item, insert, report, discount, set_item,
  set, needs_space,
}
use apk_cache.Memory.Sizes.{total, lookup-without, without_absent, NoneBefore}
use apk_cache.Memory.Room.{IsValid, IsTrimmed, make_room-FindsRoom}

-- The cache keeps within its limits; 0 is no limit.
pub record IsWithin (c : Memory) : Type 0 where
  pub bytes_fit : (c.max_size ≡ 0) ⊎ (total c.items ≤ c.max_size)
  pub items_fit : (c.max_items ≡ 0) ⊎ (length c.items ≤ c.max_items)

-- What a `Set` of a new key leaves: the item is there, the limits hold, and an entry that was
-- dropped was used no later than any other entry that stays.
pub record Stored (key : String) (item : Item) (c c' : Memory) : Type 0 where
  pub valid : IsValid c'
  pub within : IsWithin c'
  pub present : lookup key c'.items ≡ some item
  pub newest :
      (j : String) (old : Item)
      → lookup j c.items ≡ some old
      → (lookup j c'.items ≡ some old)
        ⊎ ((lookup j c'.items ≡ none) × NoneBefore old.accessed_at (without key c'.items))

pub lookup-store :
    (key : String) (item : Item) (items : Items) → lookup key (store key item items) ≡ some item
unfolding lookup store
lookup-store key item items = rw (eq_refl key)

lookup-store_ne :
    (key j : String) (item : Item) (items : Items)
    → key ≢ j
    → lookup j (store key item items) ≡ lookup j items
unfolding lookup store
lookup-store_ne key j item items h = ground (arith, eq_iff key j, lookup-without key j items)

without-store :
    (key : String) (item : Item) (items : Items)
    → lookup key items ≡ none
    → without key (store key item items) ≡ items
unfolding store without
without-store key item items h =
    let same = without_absent key items h in rw (eq_refl key, same) same

-- The sum that `insert` keeps.
size_after_insert :
    {current : ℤ} {before : ℕ} (size : ℕ)
    → current ≡ pos before
    → current +ℤ pos size ≡ pos (size + before)
unfolding ◌+ℤ◌
size_after_insert size e = rw e (ground arith)

room_for_bytes :
    (d : Memory) (size : ℕ)
    → IsValid d
    → needs_space d size ≡ false
    → ((d.max_size ≡ 0) ⊎ (size + total d.items ≤ d.max_size))
      × ((d.max_items ≡ 0) ⊎ (suc (length d.items) ≤ d.max_items))
unfolding needs_space ◌+ℤ◌
room_for_bytes d size v roomy = let roomy' = rw v.accurate at roomy in (ground arith, ground arith)

-- An insert where there is room, of a key that is not there.
insert-Stored :
    (key : String) (item : Item) (c d : Memory)
    → lookup key c.items ≡ none
    → IsTrimmed c d
    → needs_space d item.size ≡ false
    → Stored key item c (insert key item d)
unfolding insert report
insert-Stored key item c d fresh t roomy =
    let gone = t.absent key fresh in
    let same = without_absent key d.items gone in
    let fits = room_for_bytes d item.size t.valid roomy in
    record {
      valid = record {
        distinct = unfold store in rw same (gone, t.valid.distinct);
        accurate = unfold store total in rw same (size_after_insert item.size t.valid.accurate);
      };
      within = record {
        bytes_fit = unfold store total in rw same fits.0;
        items_fit = unfold store in rw same fits.1;
      };
      present = lookup-store key item d.items;
      newest = λ j old h.
          let other : key ≢ j = λ e. cc in
          rw (lookup-store_ne key j item d.items other, without-store key item d.items gone)
            (t.newest j old h);
    }

-- `Set` either refuses a body longer than the limit and changes nothing, or stores one that fits.
abbrev pub Refuses : String → Bytes → Header → ℕ → ℕ → ℕ → Memory → Type 0
Refuses key body headers status mod_time now c =
    (0 < c.max_size)
    × (c.max_size < length body)
    × (set key body headers status mod_time now c ≡ some (c, false))

abbrev pub Stores : String → Bytes → Header → ℕ → ℕ → ℕ → Memory → Type 0
Stores key body headers status mod_time now c =
    ((c.max_size ≡ 0) ⊎ (length body ≤ c.max_size))
    × ((c' : Memory) × (set key body headers status mod_time now c ≡ some (c', true))
        × Stored key (new_item body headers status mod_time now) c c')

-- `Set` of a key that is not there, on a valid cache, ends. It refuses exactly a body longer than the
-- limit, and then changes nothing. Otherwise it stores the item: the cache is valid and within its
-- limits, the item is found, and an entry that was dropped was used no later than any other entry
-- that stays.
pub set_fresh :
    (key : String) (body : Bytes) (headers : Header) (status mod_time now : ℕ) (c : Memory)
    → IsValid c
    → lookup key c.items ≡ none
    → Refuses key body headers status mod_time now c ⊎ Stores key body headers status mod_time now c
unfolding set set_item discount
set_fresh key body headers status mod_time now c v fresh =
    let item = new_item body headers status mod_time now in
    elim (Bool-cases (ltb 0 c.max_size && ltb c.max_size (length body))) [
      | inl long ↦ inl (ground arith, ground arith, rw long)
      | inr fits ↦
          let (d, found, trimmed, roomy) =
            make_room-FindsRoom (suc (length c.items)) (length body) c v (omega arith) fits in
          inr (
            ground arith,
            (
              insert key item d,
              rw (fits, fresh, discount, found),
              insert-Stored key item c d fresh trimmed roomy,
            ),
          )
    ]
