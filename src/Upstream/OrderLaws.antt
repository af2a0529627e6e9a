-- ===== src/Upstream/OrderLaws.antt =====
-- The order of the servers: a rotation of the list, with the healthy ones moved to the front.
use native.Mathlib.Nat.{mod-eq_of_lt, mod-eq-sub-mod, mod-lt}
use mathlib.Core.List.Perm
use mathlib.Core.List.{Perm, perm_middle, perm_append_comm}
use apk_cache.Prelude.{
  ℕ, zero, suc, ◌+◌, ◌-◌, ◌%◌, ◌^◌, ◌≤◌, ◌<◌, ◌≡◌, refl, ap, sym, ◌∙◌, inl, inr, Bool, true, false,
  some, List, [], ◌∷◌, ◌++◌, length, take, drop, get_elem?, ltb, ◌==◌, if◌then◌else◌, Bool-cases,
  length-append, length-take, length-drop, take-append-drop, arith,
}
use apk_cache.Upstream.{Server, Manager}
use apk_cache.Upstream.Order.{first_index, is_wanted, pick, in_turn, ordered_servers}

-- The addresses of the servers whose health is the wanted.
unfoldable pub keep : Bool → (ℕ → Server) → List ℕ → List ℕ
keep wanted objects [] = []
keep wanted objects (a ∷ rest) =
    let kept = keep wanted objects rest in if is_wanted wanted (objects a) then a ∷ kept else kept

-- The list from a place on, and then its start.
abbrev pub rotate : ℕ → List ℕ → List ℕ
rotate start xs = drop start xs ++ take start xs

pick_follows :
    (wanted : Bool) (objects : ℕ → Server) (xs : List ℕ) (start i : ℕ) (ys : List ℕ)
    → ((k : ℕ) → k < length ys → get_elem? xs ((start + (i + k)) % length xs) ≡ get_elem? ys k)
    → pick wanted objects xs start i (length ys) ≡ some (keep wanted objects ys)
unfolding pick keep
pick_follows wanted objects xs start i [] h = refl
pick_follows wanted objects xs start i (y ∷ ys) h =
    let rest = pick_follows wanted objects xs start (suc i) ys (λ k le.
      let same : start + (suc i + k) ≡ start + (i + suc k) = omega arith in
      rw same (h (suc k) (omega arith))) in
    let here : get_elem? xs ((start + i) % length xs) ≡ some y =
      let same : start + i ≡ start + (i + 0) = omega arith in rw same (h 0 (omega arith)) in
    rw (here, rest, pick, keep) refl

get_elem?-append-left :
    (xs ys : List ℕ) (k : ℕ) → k < length xs → get_elem? (xs ++ ys) k ≡ get_elem? xs k
get_elem?-append-left [] ys k h = absurd (omega arith)
get_elem?-append-left (x ∷ xs) ys zero h = refl
get_elem?-append-left (x ∷ xs) ys (suc k) h = get_elem?-append-left xs ys k (omega arith)

get_elem?-append-right :
    (xs ys : List ℕ) (k : ℕ) → length xs ≤ k → get_elem? (xs ++ ys) k ≡ get_elem? ys (k - length xs)
get_elem?-append-right [] ys k h = ap (get_elem? ys) (omega arith)
get_elem?-append-right (x ∷ xs) ys zero h = absurd (omega arith)
get_elem?-append-right (x ∷ xs) ys (suc k) h =
    get_elem?-append-right xs ys k (omega arith) ∙ ap (get_elem? ys) (omega arith)

get_elem?-drop : (n : ℕ) (xs : List ℕ) (k : ℕ) → get_elem? (drop n xs) k ≡ get_elem? xs (n + k)
get_elem?-drop zero xs k = ap (get_elem? xs) (omega arith)
get_elem?-drop (suc n) [] k = refl
get_elem?-drop (suc n) (x ∷ xs) k =
    let same : suc n + k ≡ suc (n + k) = omega arith in rw same (get_elem?-drop n xs k)

get_elem?-take : (n : ℕ) (xs : List ℕ) (k : ℕ) → k < n → get_elem? (take n xs) k ≡ get_elem? xs k
get_elem?-take zero xs k h = absurd (omega arith)
get_elem?-take (suc n) [] k h = refl
get_elem?-take (suc n) (x ∷ xs) zero h = refl
get_elem?-take (suc n) (x ∷ xs) (suc k) h = get_elem?-take n xs k (omega arith)

length-rotate : (start : ℕ) (xs : List ℕ) → length (rotate start xs) ≡ length xs
length-rotate start xs = omega (
  arith,
  length-append (drop start xs) (take start xs),
  length-take start xs,
  length-drop start xs,
)

get_elem?-rotate :
    (xs : List ℕ) (start k : ℕ)
    → start < length xs
    → k < length xs
    → get_elem? xs ((start + k) % length xs) ≡ get_elem? (rotate start xs) k
get_elem?-rotate xs start k hs hk = elim (Bool-cases (ltb (start + k) (length xs))) [
  | inl low ↦
      ap (get_elem? xs) (mod-eq_of_lt {n = start + k} {m = length xs} (ground (arith, low)))
      ∙ sym (
          get_elem?-append-left (drop start xs) (take start xs) k
            (ground (arith, length-drop start xs, low))
          ∙ get_elem?-drop start xs k)
  | inr high ↦
      ap (get_elem? xs) (
        mod-eq-sub-mod {n = start + k} {m = length xs} (ground (arith, high))
        ∙ mod-eq_of_lt {n = start + k - length xs} {m = length xs} (ground (arith, high))
        ∙ omega (arith, length-drop start xs))
      ∙ sym (
          get_elem?-append-right (drop start xs) (take start xs) k
            (ground (arith, length-drop start xs, high))
          ∙ get_elem?-take start xs (k - length (drop start xs))
              (ground (arith, length-drop start xs, high)))
]

-- Both loops together, from any place of the list.
in_turn-eq :
    (objects : ℕ → Server) (xs : List ℕ) (start : ℕ)
    → start < length xs
    → in_turn objects xs start
      ≡ some (keep true objects (rotate start xs) ++ keep false objects (rotate start xs))
unfolding in_turn
in_turn-eq objects xs start h =
    let loop = λ (wanted : Bool).
      pick_follows wanted objects xs start 0 (rotate start xs)
        (λ (k : ℕ) (le : k < length (rotate start xs)).
          let same : 0 + k ≡ k = omega arith in
          rw same (get_elem?-rotate xs start k h (omega (arith, length-rotate start xs)))) in
    let healthy = rw (length-rotate start xs) at loop true in
    let unhealthy = rw (length-rotate start xs) at loop false in
    rw (healthy, unhealthy, in_turn) refl

first_index_lem : (counter n : ℕ) → counter < 2 ^ 63 → first_index counter n ≡ some (counter % n)
unfolding first_index
first_index_lem counter n h = ground (arith, h)

-- While less than 2^63 calls were made, and if no other call marks a server meanwhile, the order is
-- the rotation of the servers that begins at the counter modulo their number, first the healthy ones
-- of it and then the others, and the counter is one more.
pub ordered_servers-eq :
    (m : Manager)
    → m.next < 2 ^ 63
    → 0 < length m.servers
    → ordered_servers m
      ≡ some (
        keep true m.objects (rotate (m.next % length m.servers) m.servers)
            ++ keep false m.objects (rotate (m.next % length m.servers) m.servers),
        record m { next = m.next + 1 },
      )
unfolding ordered_servers
ordered_servers-eq m h pos =
    let first = first_index_lem m.next (length m.servers) h in
    let turn = in_turn-eq m.objects m.servers (m.next % length m.servers) (mod-lt m.next pos) in
    let counter : (m.next + 1) % 2 ^ 64 ≡ m.next + 1 =
      mod-eq_of_lt {n = m.next + 1} {m = 2 ^ 64} (omega (arith, h)) in
    ground (arith, first, turn, counter, pos)

keep-Perm :
    (objects : ℕ → Server) (xs : List ℕ) → Perm (keep true objects xs ++ keep false objects xs) xs
unfolding keep is_wanted
keep-Perm objects [] = Perm.nil
keep-Perm objects (a ∷ xs) = elim (Bool-cases (objects a).healthy) [
  | inl e ↦ rw e (Perm.cons a (keep-Perm objects xs))
  | inr e ↦ rw e (
      Perm.trans (perm_middle (keep true objects xs) (keep false objects xs))
        (Perm.cons a (keep-Perm objects xs)))
]

rotate-Perm : (start : ℕ) (xs : List ℕ) → Perm (rotate start xs) xs
rotate-Perm start xs =
    let swapped : Perm (rotate start xs) (take start xs ++ drop start xs) =
      perm_append_comm (drop start xs) (take start xs) in
    rw (take-append-drop start xs) at swapped

-- While less than 2^63 calls were made, a call gives every server of the list exactly once (as often
-- as the list has it), and only moves the counter.
pub each_once :
    (m : Manager)
    → m.next < 2 ^ 63
    → (order : List ℕ) × (counter : ℕ) × (ordered_servers m
        ≡ some (order, record m { next = counter }))
      × Perm order m.servers
unfolding ordered_servers
each_once m h = elim (Bool-cases (length m.servers == 0)) [
  | inl e ↦ ([], m.next, ground (arith, e), empty_Perm m.servers (ground (arith, e)))
  | inr e ↦
      let start = m.next % length m.servers in
      let rotated = rotate start m.servers in
      (
        keep true m.objects rotated ++ keep false m.objects rotated,
        m.next + 1,
        ordered_servers-eq m h (ground (arith, e)),
        Perm.trans (keep-Perm m.objects rotated) (rotate-Perm start m.servers),
      )
]
  where
    empty_Perm : (xs : List ℕ) → length xs ≡ 0 → Perm [] xs
    empty_Perm [] e = Perm.nil
    empty_Perm (x ∷ xs) e = absurd (omega (arith, e))
