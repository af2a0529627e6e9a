-- ===== src/Memory.antt =====
-- internal/cache/cache.go: `Memory`, the in-memory cache. The map of items is an association list
-- whose keys differ; the clock's reading is an argument; the mutex makes each method one step.
-- Sizes are lengths of byte slices, and `maxSize`, `maxItems` and `ttl` are not negative, with 0
-- for no limit; the sums are taken not to reach 2^63. The goroutine of `NewMemory` calls
-- `deleteExpired` every minute, which is `delete_expired` here at any time.
pub mod Sizes
pub mod Room
pub mod Calls
pub mod Reads
pub mod Drift
pub mod Steps
mod Runs
use mathlib.Core.Option
use apk_cache.Prelude.{
  ℕ, zero, suc, ◌+◌, ◌-◌, String, Bool, true, false, ◌&&◌, ◌||◌, Option, none, some, List, [], ◌∷◌,
  Bytes, length, ltb, leb, str_eq, if◌then◌else◌,
}
use apk_cache.Prelude.Int.{ℤ, pos, ltb_ℤ, ◌+ℤ◌, ◌-ℤ◌}
use apk_cache.Metrics.{Metrics, update_memory}

-- http.Header: names with their values.
abbrev pub Header : Type 0
Header = List (String × List String)

-- Item. `access_count` is written and read by nothing else.
pub record Item : Type 0 where
  pub body : Bytes
  pub headers : Header
  pub status_code : ℕ
  pub mod_time : ℕ
  pub size : ℕ
  pub created_at : ℕ
  pub accessed_at : ℕ
  pub access_count : ℕ

abbrev pub Items : Type 0
Items = List (String × Item)

pub record Memory : Type 0 where
  pub items : Items
  pub max_size : ℕ
  pub max_items : ℕ
  pub ttl : ℕ
  pub current_size : ℤ
  pub metrics : Option Metrics

-- c.items[key]
unfoldable pub lookup : String → Items → Option Item
lookup key [] = none
lookup key ((k, item) ∷ rest) = if str_eq k key then some item else lookup key rest

-- delete(c.items, key)
unfoldable pub without : String → Items → Items
without key [] = []
without key ((k, item) ∷ rest) =
    let kept = without key rest in if str_eq k key then kept else (k, item) ∷ kept

-- Writes a changed item back under its key: the map holds pointers.
unfoldable pub replace : String → Item → Items → Items
replace key new [] = []
replace key new ((k, item) ∷ rest) =
    if str_eq k key then (k, new) ∷ rest else (k, item) ∷ replace key new rest

-- c.metrics.UpdateMemory(c.currentSize, c.maxSize, len(c.items)), if there are metrics
unfoldable pub report : Memory → Memory
report c = record c {
  metrics =
      Option.map (λ m. update_memory m c.current_size (pos c.max_size) (length c.items)) c.metrics;
}

unfoldable pub count_miss : Memory → Memory
count_miss c = record c {
  metrics =
      Option.map (λ (m : Metrics). record m { memory_misses = m.memory_misses + 1 }) c.metrics;
}

unfoldable pub count_hit : Memory → Memory
count_hit c = record c {
  metrics = Option.map (λ (m : Metrics). record m { memory_hits = m.memory_hits + 1 }) c.metrics;
}

unfoldable pub count_eviction : Memory → Memory
count_eviction c = record c {
  metrics =
      Option.map (λ (m : Metrics). record m { memory_evictions = m.memory_evictions + 1 })
        c.metrics;
}

unfoldable pub new_memory : ℕ → ℕ → ℕ → Option Metrics → Memory
new_memory max_size max_items ttl metrics = record {
  items = [];
  max_size = max_size;
  max_items = max_items;
  ttl = ttl;
  current_size = pos 0;
  metrics = Option.map (λ m. update_memory m (pos 0) (pos max_size) 0) metrics;
}

-- time.Since(item.createdAt) > c.ttl, at the time `now`
unfoldable pub is_old : ℕ → ℕ → Item → Bool
is_old ttl now item = ltb ttl (now - item.created_at)

-- deleteLocked
unfoldable pub delete_locked : String → Memory → Memory
delete_locked key c = elim (lookup key c.items) [
  | none ↦ c
  | some item ↦ record c {
    items = without key c.items;
    current_size = c.current_size -ℤ pos item.size;
  }
]

-- cloneItem: the copy keeps neither the times nor the count
unfoldable pub clone_item : Item → Item
clone_item item = record item { created_at = 0; accessed_at = 0; access_count = 0 }

-- The part of Get for a key that is there.
unfoldable pub get_found : String → ℕ → Memory → Item → Memory × Option Item
get_found key now c item =
    if ltb 0 c.ttl && is_old c.ttl now item
    then (report (count_miss (delete_locked key c)), none)
    else let touched = record item { accessed_at = now; access_count = item.access_count + 1 } in
      (count_hit (record c { items = replace key touched c.items }), some (clone_item touched))

unfoldable pub get : String → ℕ → Memory → Memory × Option Item
unfolding get_found
get key now c = elim (lookup key c.items) [
  | none ↦ (count_miss c, none)
  | some item ↦ get_found key now c item
]

-- needsSpaceLocked
unfoldable pub needs_space : Memory → ℕ → Bool
needs_space c new_size =
    ltb 0 c.max_size && ltb_ℤ (pos c.max_size) (c.current_size +ℤ pos new_size)
    || ltb 0 c.max_items && leb c.max_items (length c.items)

-- The first key after the sort by accessedAt. Among equal times Go's choice is unspecified (the map
-- is walked in random order); here it is the first of the list.
unfoldable pub older : String × Item → String × Item → String × Item
older best entry = if ltb entry.1.accessed_at best.1.accessed_at then entry else best

unfoldable pub oldest : String × Item → Items → String × Item
oldest best [] = best
oldest best (entry ∷ rest) = oldest (older best entry) rest

-- evictOneLocked; `none` is its `false`
unfoldable pub evict_one : Memory → Option Memory
unfolding oldest
evict_one c = elim c.items [
  | [] ↦ none
  | entry ∷ rest ↦ some (count_eviction (delete_locked (oldest entry rest).0 c))
]

-- How the loop of Set ends: with room, by its `return false`, or with no fuel left.
pub data Search : Type 0 where
  room : Memory → Search
  refused : Memory → Search
  stuck : Search

-- for c.needsSpaceLocked(size) { if !c.evictOneLocked() { return false } }
unfoldable pub make_room : ℕ → ℕ → Memory → Search
make_room zero size c = stuck
make_room (suc fuel) size c = elim (needs_space c size) [
  | false ↦ room c
  | true ↦ elim (evict_one c) [ none ↦ refused c | some c' ↦ make_room fuel size c' ]
]

-- c.items[key] = item
unfoldable pub store : String → Item → Items → Items
store key item items = (key, item) ∷ without key items

abbrev pub new_item : Bytes → Header → ℕ → ℕ → ℕ → Item
new_item body headers status_code mod_time now = record {
  body = body;
  headers = headers;
  status_code = status_code;
  mod_time = mod_time;
  size = length body;
  created_at = now;
  accessed_at = now;
  access_count = 1;
}

-- if existing, ok := c.items[key]; ok { c.currentSize -= existing.size }
unfoldable pub discount : String → Memory → Memory
discount key c = elim (lookup key c.items) [
  | none ↦ c
  | some existing ↦ record c { current_size = c.current_size -ℤ pos existing.size }
]

-- The end of Set, once there is room.
unfoldable pub insert : String → Item → Memory → Memory
insert key item c =
    report
      (record c { items = store key item c.items; current_size = c.current_size +ℤ pos item.size })

abbrev finish : String → Item → Search → Option (Memory × Bool)
finish key item (room c) = some (insert key item c, true)
finish key item (refused c) = some (c, false)
finish key item stuck = none

-- Set past its first test, on an item that is built already. Each eviction drops an item, so one
-- round more than there are items is enough fuel; `none` would be a loop that needs more.
unfoldable pub set_item : String → Item → Memory → Option (Memory × Bool)
set_item key item c =
    let start = discount key c in
    finish key item (make_room (suc (length start.items)) item.size start)

unfoldable pub set : String → Bytes → Header → ℕ → ℕ → ℕ → Memory → Option (Memory × Bool)
set key body headers status_code mod_time now c =
    if ltb 0 c.max_size && ltb c.max_size (length body)
    then some (c, false)
    else set_item key (new_item body headers status_code mod_time now) c

unfoldable pub delete : String → Memory → Memory
delete key c = report (delete_locked key c)

unfoldable pub clear : Memory → Memory
clear c = report (record c { items = []; current_size = pos 0 })

unfoldable pub stats : Memory → ℤ × ℕ × ℕ
stats c = (c.current_size, c.max_size, length c.items)

-- The loop of deleteExpired over the entries.
unfoldable pub expire_each : Items → ℕ → Memory → Memory
expire_each [] now c = c
expire_each ((key, item) ∷ rest) now c =
    expire_each rest now (if is_old c.ttl now item then delete_locked key c else c)

unfoldable pub delete_expired : ℕ → Memory → Memory
unfolding expire_each
delete_expired now c = report (expire_each c.items now c)
