-- ===== src/Memory/Runs.antt =====
-- The memory cache on concrete inputs, and the theorems at them.
use apk_cache.Prelude.{◌≡◌, ◌⊎◌, refl, String, true, none, some, [], ◌∷◌, arith}
use apk_cache.Prelude.Int.{pos, ◌+ℤ◌, ◌-ℤ◌}
use apk_cache.Memory.{
  Item, Memory, new_memory, lookup, without, new_item, set, get, delete_locked, discount, set_item,
  make_room, needs_space, evict_one, oldest, older, insert, store, report, count_eviction,
  delete_expired,
}
use apk_cache.Memory.Sizes.{total}
use apk_cache.Memory.Room.{IsValid}
use apk_cache.Memory.Calls.{Refuses, Stores, set_fresh}
use apk_cache.Memory.Reads.{Answers, Returns, unexpired, get-answer, get-set, delete_expired_lem}
use apk_cache.Memory.Steps.{Reachable, start, next, sets, reads, IsSound, Reachable-IsSound}
use apk_cache.Memory.Drift.{Overwrites, set_over}

abbrev item_a : Item
item_a = new_item (1 ∷ 2 ∷ 3 ∷ []) [] 200 0 5

abbrev item_b : Item
item_b = new_item (9 ∷ []) [] 200 0 7

-- Two items, four bytes; at most six bytes, and items live for 10.
abbrev two : Memory
two = record {
  items = ("a", item_a) ∷ ("b", item_b) ∷ [];
  max_size = 6;
  max_items = 0;
  ttl = 10;
  current_size = pos 4;
  metrics = none;
}

two-IsValid : IsValid two
unfolding lookup total
two-IsValid = record { distinct = (refl, (refl, tt)); accurate = refl }

set_fresh_example :
    Refuses "c" (1 ∷ 1 ∷ 1 ∷ 1 ∷ []) [] 200 0 8 two ⊎ Stores "c" (1 ∷ 1 ∷ 1 ∷ 1 ∷ []) [] 200 0 8 two
unfolding lookup
set_fresh_example = set_fresh "c" (1 ∷ 1 ∷ 1 ∷ 1 ∷ []) [] 200 0 8 two two-IsValid refl

get-answer_example : Answers "b" 30 two item_b
unfolding lookup
get-answer_example = get-answer "b" 30 two item_b refl

-- The cache after a third item of four bytes: the oldest one was evicted.
abbrev three : Memory
three = record two {
  items = ("c", new_item (1 ∷ 1 ∷ 1 ∷ 1 ∷ []) [] 200 0 8) ∷ ("b", item_b) ∷ [];
  current_size = pos 5;
}

set_evicts : set "c" (1 ∷ 1 ∷ 1 ∷ 1 ∷ []) [] 200 0 8 two ≡ some (three, true)
unfolding set set_item discount make_room needs_space evict_one oldest older delete_locked lookup
    without insert store report count_eviction ◌+ℤ◌ ◌-ℤ◌
set_evicts = refl

get-set_example : Returns "c" 12 three (1 ∷ 1 ∷ 1 ∷ 1 ∷ []) [] 200 0
get-set_example =
    get-set "c" (1 ∷ 1 ∷ 1 ∷ 1 ∷ []) [] 200 0 8 12 two three set_evicts (λ h. omega arith)

delete_expired_lem_example :
    ((j : String)
      → lookup j (delete_expired 16 two).items ≡ unexpired two.ttl 16 (lookup j two.items))
    × IsValid (delete_expired 16 two)
delete_expired_lem_example = delete_expired_lem 16 two two-IsValid

-- A larger body for `a`: the loop evicts `a` itself, the oldest.
set_over_example : Overwrites "a" (1 ∷ 2 ∷ 3 ∷ 4 ∷ 5 ∷ 6 ∷ []) [] 200 0 8 two item_a
unfolding lookup
set_over_example =
    set_over "a" (1 ∷ 2 ∷ 3 ∷ 4 ∷ 5 ∷ 6 ∷ []) [] 200 0 8 two item_a two-IsValid refl refl

-- Seven bytes are held, the limit is six, and the cache counts four.
over_limit :
    set "a" (1 ∷ 2 ∷ 3 ∷ 4 ∷ 5 ∷ 6 ∷ []) [] 200 0 8 two
    ≡ some (
      record two {
        items = ("a", new_item (1 ∷ 2 ∷ 3 ∷ 4 ∷ 5 ∷ 6 ∷ []) [] 200 0 8) ∷ ("b", item_b) ∷ [];
        current_size = pos 4;
      },
      true,
    )
unfolding set set_item discount make_room needs_space evict_one oldest older delete_locked lookup
    without insert store report count_eviction ◌+ℤ◌ ◌-ℤ◌
over_limit = refl

-- A new cache, and the cache after `a` was stored in it.
abbrev one_item : Memory
one_item = record two { items = ("a", item_a) ∷ []; current_size = pos 3 }

set_first : set "a" (1 ∷ 2 ∷ 3 ∷ []) [] 200 0 5 (new_memory 6 0 10 none) ≡ some (one_item, true)
unfolding set set_item discount make_room needs_space lookup without insert store report new_memory
    ◌+ℤ◌
set_first = refl

one_item-Reachable : Reachable one_item
one_item-Reachable = next (new_memory 6 0 10 none) one_item (start 6 0 10 none) (
    sets (new_memory 6 0 10 none) one_item "a" (1 ∷ 2 ∷ 3 ∷ []) [] 200 0 5 true
      (unfold lookup new_memory in refl) set_first)

Reachable-IsSound_example : IsSound (get "a" 9 one_item).0
Reachable-IsSound_example =
    Reachable-IsSound (get "a" 9 one_item).0
      (next one_item (get "a" 9 one_item).0 one_item-Reachable (reads one_item "a" 9))
