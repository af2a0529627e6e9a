-- ===== src/Memory/Room.antt =====
-- The loop of `Set` that evicts until there is room.
use mathlib.Core.Path.{subst}
use apk_cache.Prelude.{
  ℕ, zero, suc, ◌+◌, ◌≤◌, ◌<◌, ◌≡◌, ◌⊎◌, refl, sym, ap, ◌∙◌, ◌&&◌, str_eq, eq_iff, String, none,
  some, [], ◌∷◌, length, ltb, arith, Bool-cases, Option-cases, false, inl, inr,
}
use apk_cache.Prelude.Int.{ℤ, pos, ◌+ℤ◌, ◌-ℤ◌}
use apk_cache.Memory.{
  Item, Items, Memory, room, lookup, without, delete_locked, needs_space, oldest, evict_one,
  count_eviction, make_room,
}
use apk_cache.Memory.Sizes.{
  total, Distinct, Distinct-without, total-without, lookup-without, NoneBefore, oldest-IsEntry,
  oldest-NoneBefore,
}

-- The keys differ, and the size is that of the items.
pub record IsValid (c : Memory) : Type 0 where
  pub distinct : Distinct c.items
  pub accurate : c.current_size ≡ pos (total c.items)

size_after_removal :
    {current : ℤ} {before after : ℕ} (size : ℕ)
    → current ≡ pos before
    → after + size ≡ before
    → current -ℤ pos size ≡ pos after
unfolding ◌-ℤ◌
size_after_removal size e h = rw e (ground arith)

pub delete_locked-IsValid : (key : String) (c : Memory) → IsValid c → IsValid (delete_locked key c)
unfolding delete_locked
delete_locked-IsValid key c v = elim (Option-cases (lookup key c.items)) [
  | inl e ↦ rw (e, delete_locked) v
  | inr (item, e) ↦
      rw (e, delete_locked)
        (record {
          distinct = Distinct-without key c.items v.distinct;
          accurate =
              size_after_removal item.size v.accurate
                (total-without key c.items item v.distinct e).0;
        })
]

-- An entry of `c` is kept as it was, or is gone and was used no later than any that is left.
abbrev pub KeepsNewest : Memory → Memory → Type 0
KeepsNewest c c' =
    (key : String) (item : Item)
    → lookup key c.items ≡ some item
    → (lookup key c'.items ≡ some item)
      ⊎ ((lookup key c'.items ≡ none) × NoneBefore item.accessed_at c'.items)

-- `c'` is `c` less some of its least recently used items; the limits are the same.
pub record IsTrimmed (c c' : Memory) : Type 0 where
  pub valid : IsValid c'
  pub shorter : length c'.items ≤ length c.items
  pub smaller : total c'.items ≤ total c.items
  pub same_max : c'.max_size ≡ c.max_size
  pub same_count : c'.max_items ≡ c.max_items
  pub same_ttl : c'.ttl ≡ c.ttl
  pub newest : KeepsNewest c c'
  pub absent : (key : String) → lookup key c.items ≡ none → lookup key c'.items ≡ none
  pub bound : (t : ℕ) → NoneBefore t c.items → NoneBefore t c'.items

IsTrimmed-refl : (c : Memory) → IsValid c → IsTrimmed c c
IsTrimmed-refl c v = record {
  valid = v;
  shorter = omega arith;
  smaller = omega arith;
  same_max = refl;
  same_count = refl;
  same_ttl = refl;
  newest = λ key item h. inl h;
  absent = λ key h. h;
  bound = λ t h. h;
}

IsTrimmed-trans : (a b c : Memory) → IsTrimmed a b → IsTrimmed b c → IsTrimmed a c
IsTrimmed-trans a b c p q = record {
  valid = q.valid;
  shorter = omega arith;
  smaller = omega arith;
  same_max = q.same_max ∙ p.same_max;
  same_count = q.same_count ∙ p.same_count;
  same_ttl = q.same_ttl ∙ p.same_ttl;
  newest = λ key item h. elim (p.newest key item h) [
    | inl kept ↦ q.newest key item kept
    | inr gone ↦ inr (q.absent key gone.0, q.bound item.accessed_at gone.1)
  ];
  absent = λ key h. q.absent key (p.absent key h);
  bound = λ t h. q.bound t (p.bound t h);
}

NoneBefore-without :
    (key : String) (t : ℕ) (items : Items) → NoneBefore t items → NoneBefore t (without key items)
unfolding without
NoneBefore-without key t [] h = tt
NoneBefore-without key t ((k, v) ∷ l) h = elim (Bool-cases (str_eq k key)) [
  | inl e ↦ rw e (NoneBefore-without key t l h.1)
  | inr e ↦ rw e (h.0, NoneBefore-without key t l h.1)
]

-- A removal of an item that nothing was used before.
remove_oldest-IsTrimmed :
    (key : String) (c : Memory) (item : Item)
    → IsValid c
    → lookup key c.items ≡ some item
    → NoneBefore item.accessed_at c.items
    → IsTrimmed c (count_eviction (delete_locked key c))
      × (suc (length (count_eviction (delete_locked key c)).items) ≡ length c.items)
unfolding delete_locked count_eviction
remove_oldest-IsTrimmed key c item v e least =
    let facts = total-without key c.items item v.distinct e in
    let items' = without key c.items in
    let keeps : (j : String) (old : Item)
        → lookup j c.items ≡ some old
        → (lookup j items' ≡ some old)
          ⊎ ((lookup j items' ≡ none) × NoneBefore old.accessed_at items') =
      λ j old h. elim (Bool-cases (str_eq key j)) [
        | inr other ↦ inl (rw (lookup-without key j c.items, other) h)
        | inl here ↦
            let same : item ≡ old = ground (arith, eq_iff key j) in
            inr (
              rw (lookup-without key j c.items, here) refl,
              NoneBefore-without key old.accessed_at c.items (rw (← same) least),
            )
      ] in
    rw (e, delete_locked, count_eviction)
      (
        record {
          valid = record {
            distinct = Distinct-without key c.items v.distinct;
            accurate = size_after_removal item.size v.accurate facts.0;
          };
          shorter = omega arith;
          smaller = omega arith;
          same_max = refl;
          same_count = refl;
          same_ttl = refl;
          newest = keeps;
          absent = λ j h. rw (lookup-without key j c.items) (ground (arith, h));
          bound = λ t h. NoneBefore-without key t c.items h;
        },
        facts.1,
      )

-- An eviction fails on an empty cache only, and else removes one least recently used item.
abbrev pub EvictsOne : Memory → Type 0
EvictsOne c =
    (c.items ≡ []) × (evict_one c ≡ none)
    ⊎ ((c' : Memory) × (evict_one c ≡ some c')
        × IsTrimmed c c'
        × (suc (length c'.items) ≡ length c.items))

pub evict_one-EvictsOne : (c : Memory) → IsValid c → EvictsOne c
unfolding evict_one
evict_one-EvictsOne c v = go c.items refl
  where
    go : (items : Items) → c.items ≡ items → EvictsOne c
    go [] e = inl (e, rw (e, evict_one))
    go (first ∷ rest) e =
        let victim = oldest first rest in
        let found : lookup victim.0 c.items ≡ some victim.1 =
          rw e (oldest-IsEntry first rest (subst Distinct e v.distinct)) in
        let least : NoneBefore victim.1.accessed_at c.items =
          subst (NoneBefore victim.1.accessed_at) (sym e) (oldest-NoneBefore first rest) in
        let (trimmed, fewer) = remove_oldest-IsTrimmed victim.0 c victim.1 v found least in
        inr (count_eviction (delete_locked victim.0 c), simp (e, evict_one), trimmed, fewer)

-- The loop's result on a valid cache.
abbrev pub FindsRoom : ℕ → ℕ → Memory → Type 0
FindsRoom fuel size c =
    (c' : Memory) × (make_room fuel size c ≡ room c')
    × IsTrimmed c c'
    × (needs_space c' size ≡ false)

-- An empty valid cache has room for what fits at all.
empty_has_room :
    (c : Memory) (size : ℕ)
    → IsValid c
    → c.items ≡ []
    → ((ltb 0 c.max_size && ltb c.max_size size) ≡ false)
    → needs_space c size ≡ false
unfolding needs_space total ◌+ℤ◌
empty_has_room c size v e fits =
    let zero_size : c.current_size ≡ pos 0 = v.accurate ∙ ap (λ l. pos (total l)) e in
    rw (e, zero_size) (ground arith)

-- With as much fuel as `set_item` gives, the loop ends with room for anything that fits at all.
pub make_room-FindsRoom :
    (fuel size : ℕ) (c : Memory)
    → IsValid c
    → length c.items < fuel
    → ((ltb 0 c.max_size && ltb c.max_size size) ≡ false)
    → FindsRoom fuel size c
unfolding make_room
make_room-FindsRoom zero size c v enough fits = absurd (omega arith)
make_room-FindsRoom (suc fuel) size c v enough fits = elim (Bool-cases (needs_space c size)) [
  | inr done ↦ (c, rw (done, make_room), IsTrimmed-refl c v, done)
  | inl more ↦ elim (evict_one-EvictsOne c v) [
    | inl (e, _) ↦ cc (empty_has_room c size v e fits)
    | inr (c', evicted, trimmed, fewer) ↦
        let (d, found, trimmed', roomy) =
          make_room-FindsRoom fuel size c' trimmed.valid (omega arith)
            (rw (trimmed.same_max) fits) in
        (d, rw (more, evicted, make_room) found, IsTrimmed-trans c c' d trimmed trimmed', roomy)
  ]
]
