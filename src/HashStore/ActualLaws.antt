-- ===== src/HashStore/ActualLaws.antt =====
-- GetOrComputeActual and DeleteActual implement operations on a table of rows.
use mathlib.Core.Path.{subst}
use apk_cache.Prelude.{
  suc, ◌≡◌, ◌⊎◌, refl, sym, ap, ◌∙◌, inl, inr, Bool, true, false, some, [], ◌∷◌, Bytes, bytes_eq,
  length, ◌==◌, Bool-cases, Option-cases, ⊎-cases, arith,
}
use apk_cache.Prelude.Int.{ℤ}
use apk_cache.HashStore.Kinds.{HashKind, sha1, sha256, digest_len}
use apk_cache.HashStore.Varint.{IsI64}
use apk_cache.HashStore.Values.{Actual, encode_actual}
use apk_cache.HashStore.ValueLaws.{decode_actual-encode_actual}
use apk_cache.HashStore.Keys.{actual_key}
use apk_cache.HashStore.KeyLaws.{IsKind}
use apk_cache.HashStore.Actuals.{
  library_error, not_found, put, remove, written, Db, Store, Outcome, done, fails, Config, File,
  Look, hit, miss, broken, look, recompute, get_or_compute_actual, get_row, delete_actual,
}
use apk_cache.HashStore.ActualRows.{
  Table, put_row, remove_rows, view, Shows, Serves, hit_old, hash_new, refuses, look-hit, same_key,
  put-Shows,
}

module _ (db : Db) (c : Config) where
  known_kind : (kind : HashKind) → IsKind kind → (digest_len kind == 0) ≡ false
  unfolding digest_len
  known_kind kind (inl e) = rw e refl
  known_kind kind (inr e) = rw e refl

  -- What a call leaves and answers: the table that the store shows then, and how it came about.
  abbrev pub Implements :
      HashKind → Bytes → ℤ → ℤ → File → Store db → Store db × Outcome (Actual × Bool) → Type 0
  Implements kind id size mtime file st r =
      (after : Table) × Shows db c r.0 after
      × Serves db c kind id size mtime file (view db c st) after r.1

  recompute-Implements :
      (st : Store db) (kind : HashKind) (id : Bytes) (size mtime : ℤ) (file : File)
      → IsKind kind
      → IsI64 size
      → IsI64 mtime
      → IsI64 file.computed_at
      → ((sum : Bytes) → file.hash ≡ inr sum → length sum ≡ digest_len kind)
      → Implements kind id size mtime file st (recompute db c st kind id size mtime file)
  unfolding recompute
  recompute-Implements st kind id size mtime file is_kind fs fm fc len = elim (⊎-cases file.hash) [
    | inl (e, h) ↦ rw (h, recompute) (view db c st, (λ k i _. refl), refuses (library_error e))
    | inr (sum, h) ↦
        let row : Actual = record {
          hash_kind = kind;
          size_bytes = size;
          mtime = mtime;
          actual_hash = sum;
          computed = file.computed_at;
        } in
        elim (Option-cases
          (Db.commit db st.rows (put (actual_key kind id) (encode_actual row) ∷ []))) [
            | inl e ↦
                rw (h, e, recompute) (view db c st, (λ k i _. refl), refuses (library_error "set"))
            | inr (rows, e) ↦
                let whole : recompute db c st kind id size mtime file ≡ (
                  record st { rows = rows; actual_computes = suc st.actual_computes },
                  done (row, false),
                ) =
                  rw (h, e, recompute) refl in
                subst (Implements kind id size mtime file st) (sym whole) (
                  put_row kind id row (view db c st),
                  put-Shows db c st rows (suc st.actual_computes) kind id row is_kind
                      (decode_actual-encode_actual row (len sum h) fs fm fc) e,
                  hash_new sum h,
                )
          ]
  ]

  -- GetOrComputeActual does to the table what it may do, for a path with a key and a file with a size and
  -- a time: it answers with the row of the path, if that has the file's size and time, or it hashes the
  -- file, answers with the new row and puts it in place of the old, or it fails and changes no row. The
  -- kind is one of the two, the file's numbers fit an int64, and a hash has the kind's length.
  pub get_or_compute_actual-Implements :
      (st : Store db) (cache_path key : Bytes) (kind : HashKind) (size mtime : ℤ) (file : File)
      → IsKind kind
      → c.cache_key cache_path ≡ inr key
      → file.stat ≡ inr (size, mtime)
      → IsI64 size
      → IsI64 mtime
      → IsI64 file.computed_at
      → ((sum : Bytes) → file.hash ≡ inr sum → length sum ≡ digest_len kind)
      → Implements kind
          (c.path_id key)
          size
          mtime
          file
          st
          (get_or_compute_actual db c st cache_path kind file)
  unfolding get_or_compute_actual recompute
  get_or_compute_actual-Implements st cache_path key kind size mtime file is_kind has_key has_stat
        fs fm fc len =
      go (look db c st kind (c.path_id key) size mtime file.now) refl
    where
      go :
          (l : Look)
          → look db c st kind (c.path_id key) size mtime file.now ≡ l
          → Implements kind
              (c.path_id key)
              size
              mtime
              file
              st
              (get_or_compute_actual db c st cache_path kind file)
      go (hit row) e =
          let (seen, sizes, times) =
            look-hit db c st kind (c.path_id key) size mtime file.now row e in
          let whole : get_or_compute_actual db c st cache_path kind file
              ≡ (record st { actual_hits = suc st.actual_hits }, done (row, true)) =
            rw (known_kind kind is_kind, has_key, has_stat, e, get_or_compute_actual) refl in
          subst (Implements kind (c.path_id key) size mtime file st) (sym whole)
            (view db c st, (λ k i _. unfold get_row in refl), hit_old row seen sizes times)
      go (broken x) e =
          let whole : get_or_compute_actual db c st cache_path kind file ≡ (st, fails x) =
            rw (known_kind kind is_kind, has_key, has_stat, e, get_or_compute_actual) refl in
          subst (Implements kind (c.path_id key) size mtime file st) (sym whole)
            (view db c st, (λ k i _. refl), refuses x)
      go miss e =
          let whole : get_or_compute_actual db c st cache_path kind file
              ≡ recompute db c st kind (c.path_id key) size mtime file =
            rw (known_kind kind is_kind, has_key, has_stat, e, get_or_compute_actual) refl in
          subst (Implements kind (c.path_id key) size mtime file st) (sym whole)
            (recompute-Implements st kind (c.path_id key) size mtime file is_kind fs fm fc len)

  -- DeleteActual removes the rows of a path of both kinds and no other row, or it fails and removes none.
  pub delete_actual-Shows :
      (st : Store db) (cache_path key : Bytes)
      → c.cache_key cache_path ≡ inr key
      → ((delete_actual db c st cache_path).1 ≡ done tt
          × Shows db c
              (delete_actual db c st cache_path).0
              (remove_rows (c.path_id key) (view db c st)))
        ⊎ ((delete_actual db c st cache_path).0 ≡ st)
  unfolding delete_actual get_row
  delete_actual-Shows st cache_path key has_key =
      let id = c.path_id key in
      elim (Option-cases
        (Db.commit db st.rows (remove (actual_key sha1 id) ∷ remove (actual_key sha256 id) ∷ []))) [
          | inl e ↦ inr (rw (has_key, e, delete_actual) refl)
          | inr (rows, e) ↦
              let whole : delete_actual db c st cache_path ≡ (record st { rows = rows }, done tt) =
                rw (has_key, e, delete_actual) refl in
              inl (
                ap (λ r. r.1) whole,
                subst (λ r. Shows db c r.0 (remove_rows id (view db c st))) (sym whole)
                    (removed st rows id e),
              )
        ]
    where
      removed :
          (st : Store db) (rows : Db.State db) (id : Bytes)
          → Db.commit db st.rows (remove (actual_key sha1 id) ∷ remove (actual_key sha256 id) ∷ [])
            ≡ some rows
          → Shows db c (record st { rows = rows }) (remove_rows id (view db c st))
      removed st rows id e k i h =
          let writes = remove (actual_key sha1 id) ∷ remove (actual_key sha256 id) ∷ [] in
          let old = Db.get db st.rows (actual_key k i) in
          let read = Db.get-commit db st.rows rows writes (actual_key k i) e in
          let first = same_key db c sha1 k id i (inl refl) h in
          let second = same_key db c sha256 k id i (inr refl) h in
          elim (Bool-cases (bytes_eq i id)) [
            | inr other ↦
                let same : written writes (actual_key k i) old ≡ old =
                  unfold written in ground (arith, first, second, other) in
                let kept : Db.get db rows (actual_key k i) ≡ old = read ∙ same in
                rw (other, kept, get_row) refl
            | inl hit_id ↦
                let gone : written writes (actual_key k i) old ≡ not_found =
                  unfold written in ground (arith, first, second, hit_id, h) in
                let none_there : Db.get db rows (actual_key k i) ≡ not_found = read ∙ gone in
                rw (hit_id, none_there, get_row) refl
          ]
