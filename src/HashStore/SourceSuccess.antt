-- ===== src/HashStore/SourceSuccess.antt =====
-- When ReplaceSource and DeleteSource succeed.
use mathlib.Core.Path.{subst}
use apk_cache.Prelude.{
  ◌≡◌, ◌⊎◌, refl, sym, ap, ◌∙◌, inl, inr, ℕ, true, false, none, some, List, [], ◌∷◌, ◌++◌, Bytes,
  bytes_eq, bytes_eq_iff, length, Bool-cases, Option-cases, All,
}
use apk_cache.HashStore.Kinds.{digest_len, validate_hash}
use apk_cache.HashStore.Keys.{
  dict_by_id_key, dict_by_value_key, source_mapping_prefix, prefix_upper_bound,
}
use apk_cache.HashStore.KeyLaws.{IsKind}
use apk_cache.HashStore.Actuals.{found, not_found, Write, put, Db, Store, Outcome, done, Config}
use apk_cache.HashStore.Ordered.{checked, Rows, scanned, OrderedDb}
use apk_cache.HashStore.Sources.{
  Texts, SourceRecord, Pending, dict_kind_host, dict_kind_cache_path, normalize_host, find_pending,
  key_of_path, delete_rows, end_of_scan, get_dict_strict, ensure_dict, source_host,
  delete_source_records, put_host, put_record, put_records, replacement, deletion, committed,
  replace_source, delete_source,
}
use apk_cache.HashStore.DictLaws.{some_eq}
use apk_cache.HashStore.Success.{
  Succeeds, bind-Succeeds, Any, key_of_path-Succeeds, IsReadable, delete_rows-Succeeds,
  known_nonzero, valid_hash,
}

module _ (odb : OrderedDb) (c : Config) (t : Texts) (rows : Db.State odb.db)
    (name : ℕ → Bytes → Bytes) where
  -- The dictionary has for an id nothing or this name.
  abbrev pub IsNamed : Type 0
  IsNamed =
      (kind : ℕ) (id : Bytes)
      → (Db.get odb.db rows (dict_by_id_key kind id) ≡ not_found)
        ⊎ (Db.get odb.db rows (dict_by_id_key kind id) ≡ found (name kind id))

  abbrev IsAgreed : Pending → Type 0
  IsAgreed pending =
      (kind : ℕ) (id v : Bytes) → find_pending (kind ∷ id) pending ≡ some v → v ≡ name kind id

  module _ (named : IsNamed) where
    ensure_dict-Succeeds :
        (pending : Pending) (kind : ℕ) (value id : Bytes)
        → IsAgreed pending
        → name kind id ≡ value
        → Succeeds (ensure_dict odb c t rows pending kind value id) (λ r. IsAgreed r.0)
    unfolding ensure_dict get_dict_strict find_pending
    ensure_dict-Succeeds pending kind value id agreed is_name =
        elim (Option-cases (find_pending (kind ∷ id) pending)) [
          | inr (v, e) ↦
              let same : bytes_eq v value ≡ true =
                (bytes_eq_iff v value).1 (agreed kind id v e ∙ is_name) in
              ((pending, []), rw (e, same, ensure_dict) refl, agreed)
          | inl e ↦
              let after : Pending = (kind ∷ id, value) ∷ pending in
              let writes : List Write =
                put (dict_by_id_key kind id) value ∷ put (dict_by_value_key kind value) id ∷ [] in
              let agrees : IsAgreed after = λ k i v f.
                elim (Bool-cases (bytes_eq (kind ∷ id) (k ∷ i))) [
                  | inr other ↦ agreed k i v (rw other at f)
                  | inl same ↦
                      let both = (bytes_eq_iff (kind ∷ id) (k ∷ i)).0 same in
                      let kinds : kind ≡ k = cc in
                      let ids : id ≡ i = cc in
                      let texts : value ≡ v = some_eq (rw same at f) in
                      sym texts ∙ sym is_name ∙ ap (λ x. name x id) kinds ∙ ap (name k) ids
                ] in
              elim (named kind id) [
                | inl none_there ↦ ((after, writes), rw (e, none_there, ensure_dict) refl, agrees)
                | inr there ↦
                    let same : bytes_eq (name kind id) value ≡ true =
                      (bytes_eq_iff (name kind id) value).1 is_name in
                    ((after, writes), rw (e, there, same, ensure_dict) refl, agrees)
              ]
        ]

    -- A record that can be put into a batch: its target has a key, its hash the length of a known kind,
    -- and the ids of the key and of the host have these texts as their names.
    pub record IsWritable (r : SourceRecord) : Type 0 where
      pub key : Bytes
      pub has_key : c.cache_key r.target_path ≡ inr key
      pub is_kind : IsKind r.hash_kind
      pub is_digest : length r.value.expected_hash ≡ digest_len r.hash_kind
      pub key_named : name dict_kind_cache_path (c.path_id key) ≡ key
      pub host_named :
          bytes_eq r.by_hash_host [] ≡ false
          → name dict_kind_host (c.path_id (normalize_host t r.by_hash_host))
            ≡ normalize_host t r.by_hash_host

    put_host-Succeeds :
        (pending : Pending) (r : SourceRecord) (target_id : Bytes)
        → IsAgreed pending
        → IsWritable r
        → Succeeds (put_host odb c t rows pending r target_id) (λ q. IsAgreed q.0)
    unfolding put_host
    put_host-Succeeds pending r target_id agreed w =
        elim (Bool-cases (bytes_eq r.by_hash_host [])) [
          | inl e ↦ ((pending, []), rw (e, put_host) refl, agreed)
          | inr e ↦
              let host = normalize_host t r.by_hash_host in
              rw (e, put_host)
                (bind-Succeeds (λ q. IsAgreed q.0) (λ q. IsAgreed q.0)
                  (ensure_dict odb c t rows pending dict_kind_host host (c.path_id host)) _
                  (ensure_dict-Succeeds pending dict_kind_host host (c.path_id host) agreed
                    (w.host_named e))
                  (λ q a. (_, refl, a)))
        ]

    put_record-Succeeds :
        (source_id : Bytes) (pending : Pending) (r : SourceRecord)
        → IsAgreed pending
        → IsWritable r
        → Succeeds (put_record odb c t rows source_id pending r) (λ q. IsAgreed q.0)
    unfolding put_record
    put_record-Succeeds source_id pending r agreed w =
        let id = c.path_id w.key in
        rw (known_nonzero r.hash_kind w.is_kind, put_record)
          (bind-Succeeds Any (λ q. IsAgreed q.0)
            (checked (validate_hash r.hash_kind r.value.expected_hash)) _
            (tt, ap checked (valid_hash r.hash_kind _ w.is_kind w.is_digest), tt)
            (λ _ _.
              bind-Succeeds (λ k. k ≡ w.key) (λ q. IsAgreed q.0) (key_of_path c r.target_path) _
                (key_of_path-Succeeds c r.target_path w.key w.has_key)
                (λ k same.
                  bind-Succeeds (λ q. IsAgreed q.0) (λ q. IsAgreed q.0)
                    (ensure_dict odb c t rows pending dict_kind_cache_path k (c.path_id k)) _
                    (ensure_dict-Succeeds pending dict_kind_cache_path k (c.path_id k) agreed (
                      ap (λ x. name dict_kind_cache_path (c.path_id x)) same
                      ∙ w.key_named
                      ∙ sym same))
                    (λ q a.
                      bind-Succeeds (λ q. IsAgreed q.0) (λ q. IsAgreed q.0)
                        (put_host odb c t rows q.0 r (c.path_id k)) _
                        (put_host-Succeeds q.0 r (c.path_id k) a w) (λ p b. (_, refl, b))))))

    put_records-Succeeds :
        (source_id : Bytes) (pending : Pending) (records : List SourceRecord)
        → IsAgreed pending
        → All IsWritable records
        → Succeeds (put_records odb c t rows source_id pending records) Any
    unfolding put_records
    put_records-Succeeds source_id pending [] agreed h = ([], refl, tt)
    put_records-Succeeds source_id pending (r ∷ records) agreed (w, rest) =
        bind-Succeeds (λ q. IsAgreed q.0) Any (put_record odb c t rows source_id pending r) _
          (put_record-Succeeds source_id pending r agreed w)
          (λ q a.
            bind-Succeeds Any Any (put_records odb c t rows source_id q.0 records) _
              (put_records-Succeeds source_id q.0 records a rest)
              (λ more _. (q.1 ++ more, refl, tt)))

  -- The iterator of a source ends without an error, and its rows can be decoded.
  pub record IsScanned (source_id : Bytes) : Type 0 where
    pub found_rows : Rows
    pub gave :
        OrderedDb.scan odb rows
          (source_mapping_prefix source_id)
          (prefix_upper_bound (source_mapping_prefix source_id))
        ≡ scanned found_rows none
    pub readable : All IsReadable found_rows

  delete_source_records-Succeeds :
      (source_id : Bytes)
      → IsScanned source_id
      → Succeeds (delete_source_records odb c t rows source_id) Any
  unfolding delete_source_records end_of_scan
  delete_source_records-Succeeds source_id s =
      rw (s.gave, delete_source_records)
        (bind-Succeeds Any Any
          (delete_rows c.path_id (source_host odb c t rows source_id) s.found_rows) _
          (delete_rows-Succeeds c.path_id (source_host odb c t rows source_id) s.found_rows
            s.readable)
          (λ ws _. (ws, refl, tt)))

  replacement-Succeeds :
      (source_path source_key : Bytes) (records : List SourceRecord)
      → c.cache_key source_path ≡ inr source_key
      → name dict_kind_cache_path (c.path_id source_key) ≡ source_key
      → (named : IsNamed) → All (IsWritable named) records
      → IsScanned (c.path_id source_key)
      → Succeeds (replacement odb c t rows source_path records) Any
  unfolding replacement find_pending
  replacement-Succeeds source_path source_key records has_key is_name named writable s =
      bind-Succeeds (λ k. k ≡ source_key) Any (key_of_path c source_path) _
        (key_of_path-Succeeds c source_path source_key has_key)
        (λ k same.
          bind-Succeeds (λ q. IsAgreed q.0) Any
            (ensure_dict odb c t rows [] dict_kind_cache_path k (c.path_id k)) _
            (ensure_dict-Succeeds named [] dict_kind_cache_path k (c.path_id k)
              (λ kind id v f. absurd (cc))
              (ap (λ x. name dict_kind_cache_path (c.path_id x)) same ∙ is_name ∙ sym same))
            (λ q a.
              bind-Succeeds Any Any (delete_source_records odb c t rows (c.path_id k)) _
                (delete_source_records-Succeeds (c.path_id k)
                  (subst (λ x. IsScanned (c.path_id x)) (sym same) s))
                (λ gone _.
                  bind-Succeeds Any Any (put_records odb c t rows (c.path_id k) q.0 records) _
                    (put_records-Succeeds named (c.path_id k) q.0 records a writable)
                    (λ new _. (_, refl, tt)))))

module _ (odb : OrderedDb) (c : Config) (t : Texts) (st : Store odb.db)
    (commits : (ws : List Write)
      → (rows : Db.State odb.db) × (Db.commit odb.db st.rows ws ≡ some rows)) where
  committed-done :
      (o : Outcome (List Write))
      → Succeeds o Any
      → (st' : Store odb.db) × (committed odb c t st o ≡ (st', done tt))
  unfolding committed
  committed-done o (ws, e, _) =
      let (rows, made) = commits ws in
      (record st { rows = rows }, ap (committed odb c t st) e ∙ rw (made, committed) refl)

  -- ReplaceSource succeeds if its path and those of its records have keys, each record has a hash of
  -- the length of a known kind, there is a naming of ids that the dictionary and the texts that the
  -- call uses agree with (no two of them have one id), the iterator of the source gives its rows, they
  -- can be decoded, and the database commits.
  pub replace_source-succeeds :
      (name : ℕ → Bytes → Bytes) (source_path source_key : Bytes) (records : List SourceRecord)
      → c.cache_key source_path ≡ inr source_key
      → name dict_kind_cache_path (c.path_id source_key) ≡ source_key
      → (named : IsNamed odb c t st.rows name) → All (IsWritable odb c t st.rows name named) records
      → IsScanned odb c t st.rows name (c.path_id source_key)
      → (st' : Store odb.db) × (replace_source odb c t st source_path records ≡ (st', done tt))
  unfolding replace_source
  replace_source-succeeds name source_path source_key records has_key is_name named writable s =
      committed-done (replacement odb c t st.rows source_path records) (
        replacement-Succeeds odb c t st.rows name source_path source_key records has_key is_name
          named writable s)

  -- DeleteSource succeeds if its path has a key, the iterator of the source gives its rows, they can be
  -- decoded, and the database commits.
  pub delete_source-succeeds :
      (name : ℕ → Bytes → Bytes) (source_path source_key : Bytes)
      → c.cache_key source_path ≡ inr source_key
      → IsScanned odb c t st.rows name (c.path_id source_key)
      → (st' : Store odb.db) × (delete_source odb c t st source_path ≡ (st', done tt))
  unfolding delete_source deletion
  delete_source-succeeds name source_path source_key has_key s =
      committed-done (deletion odb c t st.rows source_path) (
        bind-Succeeds (λ k. k ≡ source_key) Any (key_of_path c source_path) _
          (key_of_path-Succeeds c source_path source_key has_key)
          (λ k same.
            delete_source_records-Succeeds odb c t st.rows name (c.path_id k)
              (subst (λ x. IsScanned odb c t st.rows name (c.path_id x)) (sym same) s)))
