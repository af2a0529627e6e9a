-- ===== src/HashStore/ActualRows.antt =====
-- The hashes of files as a table by kind and id, which the operations on the database implement.
use apk_cache.Prelude.{
  ℕ, ◌≡◌, refl, sym, ap, ◌∙◌, inl, inr, Bool, true, false, ◌&&◌, Option, none, some, [], ◌∷◌, Bytes,
  bytes_eq, bytes_eq_iff, ◌==◌, if◌then◌else◌, Bool-cases, arith,
}
use apk_cache.Prelude.Int.{ℤ, eq_of_parts}
use apk_cache.HashStore.Kinds.{HashKind, Result, ok, err}
use apk_cache.HashStore.Values.{Actual, encode_actual, decode_actual}
use apk_cache.HashStore.Keys.{actual_key}
use apk_cache.HashStore.KeyLaws.{actual, IsKind, key_of_eq}
use apk_cache.HashStore.Actuals.{
  StoreError, Found, found, not_found, get_failed, put, written, Db, Store, Outcome, done, fails,
  Config, File, same_ℤ, is_fresh, hit, miss, broken, look_at, look, get_row,
}

-- The table: the row of a kind and an id, if it is there and can be read.
abbrev pub Table : Type 0
Table = HashKind → Bytes → Option Actual

abbrev pub row_of : Outcome (Option Actual) → Option Actual
row_of (done row) = row
row_of (fails e) = none

abbrev pub put_row : HashKind → Bytes → Actual → Table → Table
put_row kind id row table k i = if k == kind && bytes_eq i id then some row else table k i

abbrev pub remove_rows : Bytes → Table → Table
remove_rows id table k i = if bytes_eq i id then none else table k i

module _ (db : Db) (c : Config) where
  abbrev pub view : Store db → Table
  view st kind id = row_of (get_row db c st kind id)

  -- The store has this table, for the two kinds.
  abbrev pub Shows : Store db → Table → Type 0
  Shows st table = (k : HashKind) (i : Bytes) → IsKind k → view st k i ≡ table k i

  -- What GetOrComputeActual may do to a table, for a file of this size and time.
  pub data Serves (kind : HashKind) (id : Bytes) (size mtime : ℤ) (file : File) (table : Table)
      : Table → Outcome (Actual × Bool) → Type 0 where
    hit_old :
        (row : Actual)
        → table kind id ≡ some row
        → row.size_bytes ≡ size
        → row.mtime ≡ mtime
        → Serves kind id size mtime file table table (done (row, true))
    hash_new :
        (sum : Bytes)
        → file.hash ≡ inr sum
        → Serves kind id size mtime file table
            (put_row kind id
              (record {
                hash_kind = kind;
                size_bytes = size;
                mtime = mtime;
                actual_hash = sum;
                computed = file.computed_at;
              })
              table)
            (done (
              record {
                hash_kind = kind;
                size_bytes = size;
                mtime = mtime;
                actual_hash = sum;
                computed = file.computed_at;
              },
              false,
            ))
    refuses : (e : StoreError) → Serves kind id size mtime file table table (fails e)

  same_ℤ→≡ : (a b : ℤ) → same_ℤ a b ≡ true → a ≡ b
  unfolding same_ℤ
  same_ℤ→≡ a b h = eq_of_parts a b (ground (arith, h))

  bool_ext : (a b : Bool) → (a ≡ true → b ≡ true) → (b ≡ true → a ≡ true) → a ≡ b
  bool_ext true b f g = sym (f refl)
  bool_ext false true f g = g refl
  bool_ext false false f g = refl

  pub same_key :
      (k k' : HashKind) (i i' : Bytes)
      → IsKind k
      → IsKind k'
      → bytes_eq (actual_key k i) (actual_key k' i') ≡ (k' == k && bytes_eq i' i)
  same_key k k' i i' h h' =
      bool_ext (bytes_eq (actual_key k i) (actual_key k' i')) (k' == k && bytes_eq i' i)
        (λ e.
          let same : actual k i ≡ actual k' i' =
            key_of_eq (actual k i) (actual k' i') h h'
              ((bytes_eq_iff (actual_key k i) (actual_key k' i')).0 e) in
          let kinds : k' ≡ k = cc in
          let ids : i' ≡ i = cc in ground (arith, kinds, (bytes_eq_iff i' i).1 ids))
        (λ e.
          let kinds : k ≡ k' = ground (arith, e) in
          let ids : i ≡ i' = sym ((bytes_eq_iff i' i).0 (ground (arith, e))) in
          (bytes_eq_iff (actual_key k i) (actual_key k' i')).1
            (ap (λ x. actual_key x i) kinds ∙ ap (actual_key k') ids))

  get_row_found :
      (st : Store db) (kind : HashKind) (id value : Bytes) (row : Actual)
      → Db.get db st.rows (actual_key kind id) ≡ found value
      → decode_actual value kind ≡ ok row
      → view st kind id ≡ some row
  unfolding get_row
  get_row_found st kind id value row e d = rw (e, d, get_row) refl

  look_at-hit :
      (a row : Actual) (size mtime now : ℤ)
      → look_at db c a size mtime now ≡ hit row
      → (a ≡ row) × (a.size_bytes ≡ size) × (a.mtime ≡ mtime)
  unfolding look_at
  look_at-hit a row size mtime now h =
      elim (Bool-cases
        (same_ℤ a.size_bytes size && same_ℤ a.mtime mtime && is_fresh c now a.computed)) [
          | inr e ↦ absurd (let no : miss ≡ hit row = rw (e, look_at) at h in cc)
          | inl e ↦
              let yes : hit a ≡ hit row = rw (e, look_at) at h in
              (
                cc,
                same_ℤ→≡ a.size_bytes size (ground (arith, e)),
                same_ℤ→≡ a.mtime mtime (ground (arith, e)),
              )
        ]

  pub look-hit :
      (st : Store db) (kind : HashKind) (id : Bytes) (size mtime now : ℤ) (row : Actual)
      → look db c st kind id size mtime now ≡ hit row
      → (view st kind id ≡ some row) × (row.size_bytes ≡ size) × (row.mtime ≡ mtime)
  unfolding look
  look-hit st kind id size mtime now row h = elim (Bool-cases c.trust_file_stat) [
    | inr e ↦ absurd (let no : miss ≡ hit row = rw (e, look) at h in cc)
    | inl e ↦ go e (Db.get db st.rows (actual_key kind id)) refl
  ]
    where
      decoded :
          (value : Bytes)
          → c.trust_file_stat ≡ true
          → Db.get db st.rows (actual_key kind id) ≡ found value
          → (r : Result Actual) → decode_actual value kind ≡ r
          → (view st kind id ≡ some row) × (row.size_bytes ≡ size) × (row.mtime ≡ mtime)
      decoded value e f (err x) d =
          absurd (let no : broken _ ≡ hit row = rw (e, f, d, look) at h in cc)
      decoded value e f (ok a) d =
          let at : look_at db c a size mtime now ≡ hit row = rw (e, f, d, look) at h in
          let (same, sizes, times) = look_at-hit a row size mtime now at in
          (get_row_found st kind id value a f d ∙ ap some same, rw same at sizes, rw same at times)

      go :
          c.trust_file_stat ≡ true
          → (f : Found) → Db.get db st.rows (actual_key kind id) ≡ f
          → (view st kind id ≡ some row) × (row.size_bytes ≡ size) × (row.mtime ≡ mtime)
      go e not_found f = absurd (let no : miss ≡ hit row = rw (e, f, look) at h in cc)
      go e (get_failed m) f = absurd (let no : broken _ ≡ hit row = rw (e, f, look) at h in cc)
      go e (found value) f = decoded value e f (decode_actual value kind) refl

  -- A row that is written is read back, and the other rows are as they were.
  pub put-Shows :
      (st : Store db) (rows : Db.State db) (computed : ℕ) (kind : HashKind) (id : Bytes)
      (row : Actual)
      → IsKind kind
      → decode_actual (encode_actual row) kind ≡ ok row
      → Db.commit db st.rows (put (actual_key kind id) (encode_actual row) ∷ []) ≡ some rows
      → Shows
          (record st { rows = rows; actual_computes = computed })
          (put_row kind id row (view st))
  unfolding get_row written
  put-Shows st rows computed kind id row is_kind back e k i h =
      let read =
        Db.get-commit db st.rows rows (put (actual_key kind id) (encode_actual row) ∷ [])
          (actual_key k i) e in
      let key = same_key kind k id i is_kind h in
      elim (Bool-cases (k == kind && bytes_eq i id)) [
        | inl same ↦
            let kinds : k ≡ kind = ground (arith, same) in
            let new : Db.get db rows (actual_key k i) ≡ found (encode_actual row) =
              read ∙ rw (key, same, written) refl in
            rw (same, new, rw (sym kinds) at back, get_row) refl
        | inr other ↦
            let old : Db.get db rows (actual_key k i) ≡ Db.get db st.rows (actual_key k i) =
              read ∙ rw (key, other, written) refl in
            rw (other, old, get_row) refl
      ]
