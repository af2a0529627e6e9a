-- ===== src/Upstream/Order.antt =====
-- upstream.go, lines 166-187: orderedServers, the order in which Fetch tries the servers. An int has
-- 64 bits, and `none` is a panic. The call is read as one step: each loop of the source reads the
-- health of a server anew, and here both read the same, that is, no other Fetch marks a server between
-- them.
use apk_cache.Prelude.{
  ℕ, zero, suc, ◌+◌, ◌-◌, ◌%◌, ◌^◌, Bool, true, false, not, Option, none, some, List, [], ◌∷◌, ◌++◌,
  length, get_elem?, ltb, ◌==◌, if◌then◌else◌,
}
use apk_cache.Upstream.{Server, Manager}

-- `int(atomic.AddUint64(&m.next, 1)-1) % len(m.servers)` for the counter before the call, as the first
-- index: a negative remainder, of a counter from 2^63 on, is no index.
unfoldable pub first_index : ℕ → ℕ → Option ℕ
first_index counter n =
    if ltb counter (2 ^ 63)
    then some (counter % n)
    else if ((2 ^ 64 - counter) % n) == 0
    then some 0
    else none

unfoldable pub is_wanted : Bool → Server → Bool
is_wanted wanted server = if wanted then server.healthy else not server.healthy

-- One of the two loops from `i` on, with `left` rounds left: the servers whose health is the wanted.
unfoldable pub pick : Bool → (ℕ → Server) → List ℕ → ℕ → ℕ → ℕ → Option (List ℕ)
pick wanted objects servers start i zero = some []
pick wanted objects servers start i (suc left) =
    let rest = pick wanted objects servers start (suc i) left in
    elim (get_elem? servers ((start + i) % length servers)) [
      | none ↦ none
      | some a ↦ elim rest [
        | none ↦ none
        | some picked ↦ some (if is_wanted wanted (objects a) then a ∷ picked else picked)
      ]
    ]

unfoldable pub in_turn : (ℕ → Server) → List ℕ → ℕ → Option (List ℕ)
in_turn objects servers start = elim (pick true objects servers start 0 (length servers)) [
  | none ↦ none
  | some healthy ↦ elim (pick false objects servers start 0 (length servers)) [
    | none ↦ none
    | some unhealthy ↦ some (healthy ++ unhealthy)
  ]
]

-- The order and the manager with its counter, which wraps, moved on.
unfoldable pub ordered_servers : Manager → Option (List ℕ × Manager)
ordered_servers m =
    if length m.servers == 0 then some ([], m) else elim (first_index m.next (length m.servers)) [
      | none ↦ none
      | some start ↦ elim (in_turn m.objects m.servers start) [
        | none ↦ none
        | some order ↦ some (order, record m { next = (m.next + 1) % 2 ^ 64 })
      ]
    ]
