-- ===== src/HashStore/MemoryDb.antt =====
-- An ordered database in memory, the log of its writes.
use mathlib.Core.Path.{subst}
use mathlib.Core.Option.{some-injective}
use apk_cache.Prelude.{
  ◌≡◌, ◌⊎◌, ◌<◌, refl, sym, ap, ◌∙◌, inl, inr, Bool, true, not, ◌&&◌, Option, none, some, List, [],
  ◌∷◌, ◌++◌, Bytes, String, bytes_eq, bytes_eq_iff, Bool-cases, All, ltb, arith, if◌then◌else◌,
}
use apk_cache.HashStore.Actuals.{
  Found, found, not_found, get_failed, Write, put, remove, written, Db,
}
use apk_cache.HashStore.Ordered.{Rows, Has, scanned, OrderedDb}
use apk_cache.HashStore.Range.{is_before, is_below}
use apk_cache.HashStore.Writes.{written-append}

abbrev pub log_get : List Write → Bytes → Found
log_get log key = written log key not_found

abbrev pub log_db : Db
log_db = record {
  State = List Write;
  get = log_get;
  commit = λ log writes. some (log ++ writes);
  get-commit = λ s t writes key e.
      ap (λ log. log_get log key) (sym (some-injective _ _ e))
      ∙ written-append s writes key not_found;
}

abbrev pub only_bytes : Bytes → Bool
only_bytes [] = true
only_bytes (b ∷ key) = ltb b 256 && only_bytes key

only_bytes→ : (key : Bytes) → only_bytes key ≡ true → All (λ b. b < 256) key
only_bytes→ [] h = tt
only_bytes→ (b ∷ key) h = (ground (arith, h), only_bytes→ key (ground (arith, h)))

→only_bytes : (key : Bytes) → All (λ b. b < 256) key → only_bytes key ≡ true
→only_bytes [] h = refl
→only_bytes (b ∷ key) (small, h) = ground (arith, →only_bytes key h)

module _ (log : List Write) (lower : Bytes) (upper : Option Bytes) where
  abbrev pub in_bounds : Bytes → Bool
  in_bounds key = not (is_before key lower) && is_below upper key

  abbrev pub row_at : Bytes → Found → Rows → Rows
  row_at key (found value) rest = (key, value) ∷ rest
  row_at key not_found rest = rest
  row_at key (get_failed e) rest = rest

  abbrev pub collect : List Write → Rows
  collect [] = []
  collect (remove key ∷ writes) = collect writes
  collect (put key value ∷ writes) =
      let rest = collect writes in
      if in_bounds key && only_bytes key then row_at key (log_get log key) rest else rest

  abbrev pub Listed : Bytes → Bytes → Type 0
  Listed key value =
      (log_get log key ≡ found value) × (in_bounds key ≡ true) × All (λ b. b < 256) key

  Has-row_at :
      (k key value : Bytes) (f : Found) (rest : Rows)
      → log_get log k ≡ f
      → Has key value (row_at k f rest)
      → ((k ≡ key) × (log_get log k ≡ found value)) ⊎ Has key value rest
  Has-row_at k key value (found v) rest e (inl (p, q)) = inl (p, e ∙ ap found q)
  Has-row_at k key value (found v) rest e (inr h) = inr h
  Has-row_at k key value not_found rest e h = inr h
  Has-row_at k key value (get_failed x) rest e h = inr h

  pub collect_sound :
      (writes : List Write) (key value : Bytes) → Has key value (collect writes) → Listed key value
  collect_sound [] key value h = elim h [ ]
  collect_sound (remove k ∷ writes) key value h = collect_sound writes key value h
  collect_sound (put k v ∷ writes) key value h = elim (Bool-cases (in_bounds k && only_bytes k)) [
    | inr e ↦ collect_sound writes key value (rw e at h)
    | inl e ↦ elim (Has-row_at k key value (log_get log k) (collect writes) refl (rw e at h)) [
      | inr rest ↦ collect_sound writes key value rest
      | inl (same, there) ↦ (
        ap (log_get log) (sym same) ∙ there,
        ap in_bounds (sym same) ∙ ground (arith, e),
        only_bytes→ key (ap only_bytes (sym same) ∙ ground (arith, e)),
      )
    ]
  ]

  Has-front :
      (k key value : Bytes) (f : Found) (rest : Rows)
      → Has key value rest
      → Has key value (row_at k f rest)
  Has-front k key value (found v) rest h = inr h
  Has-front k key value not_found rest h = h
  Has-front k key value (get_failed e) rest h = h

  pub collect_complete :
      (writes : List Write) (key value : Bytes) (old : Found)
      → written writes key old ≡ found value
      → old ≡ not_found
      → (there : Bytes) → Listed key there
      → Has key there (collect writes)
  unfolding written
  collect_complete [] key value old h empty there listed = absurd (cc)
  collect_complete (remove k ∷ writes) key value old h empty there listed =
      collect_complete writes key value _ h
        (elim (Bool-cases (bytes_eq k key)) [ inl e ↦ rw e refl | inr e ↦ rw (e, empty) refl ])
        there listed
  collect_complete (put k v ∷ writes) key value old h empty there listed =
      elim (Bool-cases (bytes_eq k key)) [
        | inl e ↦
            let same = (bytes_eq_iff k key).0 e in
            let passes : (in_bounds k && only_bytes k) ≡ true =
              ap (λ x. in_bounds x && only_bytes x) same
              ∙ ground (arith, listed.1, →only_bytes key listed.2) in
            rw passes (rw (ap (log_get log) same ∙ listed.0) (inl (same, refl)))
        | inr e ↦
            let rest = collect_complete writes key value old (rw e at h) empty there listed in
            elim (Bool-cases (in_bounds k && only_bytes k)) [
              | inl y ↦ rw y (Has-front k key there (log_get log k) (collect writes) rest)
              | inr n ↦ rw n rest
            ]
      ]

pub rows_eq : {a b : Rows} {e f : Option String} → scanned a e ≡ scanned b f → a ≡ b
rows_eq h = cc

abbrev pub memory_db : OrderedDb
memory_db = record {
  db = log_db;
  scan = λ log lower upper. scanned (collect log lower upper log) none;
  scan-get = λ log lower upper rows e key value.
      let same : collect log lower upper log ≡ rows = rows_eq e in
      (
        (λ has. collect_sound log lower upper log key value (subst (Has key value) (sym same) has)),
        (λ listed.
            subst (Has key value) same (
              collect_complete log lower upper log key value not_found listed.0 refl value listed)),
      );
}
