-- ===== src/Memory/Sizes.antt =====
-- The association list of items: what a removal does to lookups, sizes and distinct keys, and
-- which entry `oldest` picks.
use text.Mathlib.TextPositions.{eq_refl}
use mathlib.Core.Path.{subst}
use apk_cache.Prelude.{
  ℕ, suc, ◌+◌, ◌≤◌, ◌≡◌, refl, sym, ◌∙◌, String, none, some, [], ◌∷◌, length, All, ◌⊎◌, ltb, str_eq,
  eq_iff, if◌then◌else◌, arith, Bool-cases, inl, inr,
}
use apk_cache.Memory.{Item, Items, lookup, without, replace, older, oldest}

-- The bytes that the items hold.
unfoldable pub total : Items → ℕ
total [] = 0
total ((_, item) ∷ rest) = item.size + total rest

-- A Go map holds a key once.
abbrev pub Distinct : Items → Type 0
Distinct [] = Unit
Distinct ((k, _) ∷ rest) = (lookup k rest ≡ none) × Distinct rest

pub lookup-without :
    (k j : String) (items : Items)
    → lookup j (without k items) ≡ (if str_eq k j then none else lookup j items)
unfolding lookup without
lookup-without k j [] = ground arith
lookup-without k j ((i, v) ∷ l) =
    ground (arith, lookup-without k j l, eq_iff i k, eq_iff i j, eq_iff k j)

pub without_absent : (k : String) (items : Items) → lookup k items ≡ none → without k items ≡ items
unfolding lookup without
without_absent k [] h = refl
without_absent k ((i, v) ∷ l) h = ground (arith, without_absent k l)

pub Distinct-without : (k : String) (items : Items) → Distinct items → Distinct (without k items)
unfolding without
Distinct-without k [] h = tt
Distinct-without k ((i, v) ∷ l) h = elim (Bool-cases (str_eq i k)) [
  | inl e ↦ rw e (Distinct-without k l h.1)
  | inr e ↦ rw e (ground (arith, lookup-without k i l, h.0), Distinct-without k l h.1)
]

-- With distinct keys a removal takes the item's bytes and one entry.
pub total-without :
    (k : String) (items : Items) (item : Item)
    → Distinct items
    → lookup k items ≡ some item
    → (total (without k items) + item.size ≡ total items)
      × (suc (length (without k items)) ≡ length items)
unfolding lookup without total
total-without k [] item d h = cc
total-without k ((i, v) ∷ l) item d h = elim (Bool-cases (str_eq i k)) [
  | inl e ↦
      let i≡k : i ≡ k = (eq_iff i k).0 e in
      let absent : without k l ≡ l = without_absent k l (ground (arith, d.0)) in ground arith
  | inr e ↦ ground (arith, total-without k l item d.1)
]

-- A write under the same key with the same size.
pub total-replace :
    (k : String) (items : Items) (old new : Item)
    → lookup k items ≡ some old
    → new.size ≡ old.size
    → total (replace k new items) ≡ total items
unfolding lookup replace total
total-replace k [] old new h e = refl
total-replace k ((i, v) ∷ l) old new h e = ground (arith, total-replace k l old new)

pub lookup-replace :
    (k j : String) (new : Item) (items : Items) (old : Item)
    → lookup k items ≡ some old
    → lookup j (replace k new items) ≡ (if str_eq k j then some new else lookup j items)
unfolding lookup replace
lookup-replace k j new [] old h = cc
lookup-replace k j new ((i, v) ∷ l) old h =
    ground (arith, lookup-replace k j new l old, eq_iff i k, eq_iff i j, eq_iff k j)

lookup-replace_absent :
    (k j : String) (new : Item) (items : Items)
    → lookup j items ≡ none
    → lookup j (replace k new items) ≡ none
unfolding lookup replace
lookup-replace_absent k j new [] h = refl
lookup-replace_absent k j new ((i, v) ∷ l) h = ground (arith, lookup-replace_absent k j new l)

pub Distinct-replace :
    (k : String) (new : Item) (items : Items) → Distinct items → Distinct (replace k new items)
unfolding replace
Distinct-replace k new [] d = tt
Distinct-replace k new ((i, v) ∷ l) d = elim (Bool-cases (str_eq i k)) [
  | inl e ↦ rw e d
  | inr e ↦ rw e (lookup-replace_absent k i new l d.0, Distinct-replace k new l d.1)
]

pub length-replace :
    (k : String) (new : Item) (items : Items) → length (replace k new items) ≡ length items
unfolding replace
length-replace k new [] = refl
length-replace k new ((i, v) ∷ l) = ground (arith, length-replace k new l)

abbrev IsEntry : String × Item → Items → Type 0
IsEntry e items = lookup e.0 items ≡ some e.1

IsEntry-cons :
    (e f : String × Item) (items : Items)
    → lookup f.0 items ≡ none
    → IsEntry e items
    → IsEntry e (f ∷ items)
unfolding lookup
IsEntry-cons (k, v) (j, w) l fresh h = ground (arith, eq_iff j k)

older_cases : (best e : String × Item) → (older best e ≡ best) ⊎ (older best e ≡ e)
unfolding older
older_cases best e = elim (Bool-cases (ltb e.1.accessed_at best.1.accessed_at)) [
  | inl h ↦ inr (rw h refl)
  | inr h ↦ inl (rw h refl)
]

older-le :
    (best e : String × Item)
    → ((older best e).1.accessed_at ≤ best.1.accessed_at)
      × ((older best e).1.accessed_at ≤ e.1.accessed_at)
unfolding older
older-le best e = ground arith

IsEntry-self : (e : String × Item) (items : Items) → IsEntry e (e ∷ items)
unfolding lookup
IsEntry-self (k, v) items = rw (eq_refl k)

oldest_cases :
    (best : String × Item) (items : Items)
    → Distinct items
    → (oldest best items ≡ best) ⊎ IsEntry (oldest best items) items
unfolding oldest
oldest_cases best [] d = inl refl
oldest_cases best (e ∷ l) d = elim (oldest_cases (older best e) l d.1) [
  | inr p ↦ inr (IsEntry-cons _ e l d.0 p)
  | inl p ↦ elim (older_cases best e) [
    | inl q ↦ inl (p ∙ q)
    | inr q ↦ inr (subst (λ x. IsEntry x (e ∷ l)) (sym (p ∙ q)) (IsEntry-self e l))
  ]
]

-- `oldest` is one of the entries it is given.
pub oldest-IsEntry :
    (first : String × Item) (items : Items)
    → Distinct (first ∷ items)
    → lookup (oldest first items).0 (first ∷ items) ≡ some (oldest first items).1
oldest-IsEntry first items d = elim (oldest_cases first items d.1) [
  | inl p ↦ subst (λ x. IsEntry x (first ∷ items)) (sym p) (IsEntry-self first items)
  | inr p ↦ IsEntry-cons _ first items d.0 p
]

abbrev pub NoneBefore : ℕ → Items → Type 0
NoneBefore t = All (λ (e : String × Item). t ≤ e.1.accessed_at)

NoneBefore-le : (s t : ℕ) (items : Items) → s ≤ t → NoneBefore t items → NoneBefore s items
NoneBefore-le s t [] h a = tt
NoneBefore-le s t (e ∷ l) h a = (omega arith, NoneBefore-le s t l h a.1)

-- No entry was used earlier than the one that `oldest` picks.
oldest_least :
    (best : String × Item) (items : Items)
    → ((oldest best items).1.accessed_at ≤ best.1.accessed_at)
      × NoneBefore (oldest best items).1.accessed_at items
unfolding oldest
oldest_least best [] = (omega arith, tt)
oldest_least best (e ∷ l) =
    let (p, q) = oldest_least (older best e) l in
    let (r, t) = older-le best e in (omega arith, (omega arith, q))

pub oldest-NoneBefore :
    (first : String × Item) (items : Items)
    → NoneBefore (oldest first items).1.accessed_at (first ∷ items)
oldest-NoneBefore first items = oldest_least first items
