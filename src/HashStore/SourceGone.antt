-- ===== src/HashStore/SourceGone.antt =====
-- What deleteSourceRecords does to the rows of expected records and of mappings.
use apk_cache.Prelude.{
  ◌≡◌, ◌≢◌, refl, ap, ◌∙◌, Bool, none, some, List, Bytes, bytes_eq, length, if◌then◌else◌,
}
use apk_cache.HashStore.Kinds.{HashKind}
use apk_cache.HashStore.Keys.{
  expected_key, source_mapping_key, source_mapping_prefix, decode_source_mapping_key,
  prefix_upper_bound,
}
use apk_cache.HashStore.KeyLaws.{source_mapping, IsRecord, IsKind}
use apk_cache.HashStore.Actuals.{Found, not_found, Write, written, Db, Store, done, fails, Config}
use apk_cache.HashStore.Ordered.{Rows, Scan, no_iterator, scanned, OrderedDb}
use apk_cache.HashStore.Sources.{
  Texts, delete_rows, end_of_scan, source_host, delete_source_records,
}
use apk_cache.HashStore.SourceParts.{>>=-eq-done}
use apk_cache.HashStore.SourceRows.{
  IsId, maps_to, any_row, delete_row-expected, delete_row-mapping, delete_rows-any,
}
use apk_cache.HashStore.SourceScan.{is_found, AreBytes, any_row-maps_to, any_row-own, any_row-other}

-- PathID gives 16 bytes.
abbrev pub GivesIds : Config → Type 0
GivesIds c = (text : Bytes) → (length (c.path_id text) ≡ 16) × AreBytes (c.path_id text)

-- The row of a key in the database.
abbrev pub row : (odb : OrderedDb) → Store odb.db → Bytes → Found
row odb st key = Db.get odb.db st.rows key

-- What a deleted source leaves of an expected record, and of a mapping of its own.
abbrev pub unless_mapped : Found → Found → Found
unless_mapped mapping old = if is_found mapping then not_found else old

module _ (odb : OrderedDb) (c : Config) (t : Texts) (ids : GivesIds c) where
  pub is_id : IsId c.path_id
  is_id text = (ids text).0

  -- A successful deletion came from an iterator without an error.
  pub record IsGone (rows : Db.State odb.db) (source_id : Bytes) (ws : List Write) : Type 0 where
    pub rows_found : Rows
    pub gave :
        OrderedDb.scan odb rows
          (source_mapping_prefix source_id)
          (prefix_upper_bound (source_mapping_prefix source_id))
        ≡ scanned rows_found none
    pub deleted : delete_rows c.path_id (source_host odb c t rows source_id) rows_found ≡ done ws

  pub delete_source_records-IsGone :
      (rows : Db.State odb.db) (source_id : Bytes) (ws : List Write)
      → delete_source_records odb c t rows source_id ≡ done ws
      → IsGone rows source_id ws
  unfolding delete_source_records end_of_scan
  delete_source_records-IsGone rows source_id ws h = go _ refl
    where
      go :
          (s : Scan)
          → OrderedDb.scan odb rows
              (source_mapping_prefix source_id)
              (prefix_upper_bound (source_mapping_prefix source_id))
            ≡ s
          → IsGone rows source_id ws
      go (no_iterator e) g =
          absurd (let no : fails _ ≡ done ws = rw (g, delete_source_records) at h in cc)
      go (scanned found_rows (some e)) g =
          let (w, d, end) =
            >>=-eq-done (delete_rows c.path_id (source_host odb c t rows source_id) found_rows) _ ws
              (rw (g, delete_source_records) at h) in
          absurd (let no : fails _ ≡ done ws = end in cc)
      go (scanned found_rows none) g =
          let (w, d, end) =
            >>=-eq-done (delete_rows c.path_id (source_host odb c t rows source_id) found_rows) _ ws
              (rw (g, delete_source_records) at h) in
          let same : done w ≡ done ws = end in
          record { rows_found = found_rows; gave = g; deleted = d ∙ same }

  module _ (rows : Db.State odb.db) (text : Bytes) (ws : List Write)
      (gone : IsGone rows (c.path_id text) ws) where
    pub gone-expected :
        (k : HashKind) (i : Bytes) (old : Found)
        → IsKind k
        → length i ≡ 16
        → AreBytes i
        → written ws (expected_key k i) old
          ≡ unless_mapped (Db.get odb.db rows (source_mapping_key (c.path_id text) i k)) old
    gone-expected k i old is_kind long small =
        delete_rows-any c.path_id is_id (source_host odb c t rows (c.path_id text))
          (expected_key k i) (λ key. maps_to k i (decode_source_mapping_key key))
          (λ key value w o d.
            delete_row-expected c.path_id is_id (source_host odb c t rows (c.path_id text)) key
              value w k i o is_kind d)
          gone.rows_found ws old gone.deleted
        ∙ ap (λ (b : Bool). if b then not_found else old)
            (any_row-maps_to odb rows (c.path_id text) gone.rows_found (ids text).0 (ids text).1
              gone.gave i k is_kind long small)

    gone-mapping :
        (s i : Bytes) (k : HashKind) (old : Found)
        → IsRecord (source_mapping s i k)
        → written ws (source_mapping_key s i k) old ≡ (
            if any_row (λ key. bytes_eq key (source_mapping_key s i k)) gone.rows_found
            then not_found
            else old)
    gone-mapping s i k old is_record =
        delete_rows-any c.path_id is_id (source_host odb c t rows (c.path_id text))
          (source_mapping_key s i k) (λ key. bytes_eq key (source_mapping_key s i k))
          (λ key value w o d.
            delete_row-mapping c.path_id is_id (source_host odb c t rows (c.path_id text)) key value
              w s i k o is_record d)
          gone.rows_found ws old gone.deleted

    pub gone-own :
        (i : Bytes) (k : HashKind) (old : Found)
        → IsKind k
        → length i ≡ 16
        → AreBytes i
        → written ws (source_mapping_key (c.path_id text) i k) old
          ≡ unless_mapped (Db.get odb.db rows (source_mapping_key (c.path_id text) i k)) old
    gone-own i k old is_kind long small =
        gone-mapping (c.path_id text) i k old ((ids text).0, long)
        ∙ ap (λ (b : Bool). if b then not_found else old)
            (any_row-own odb rows (c.path_id text) gone.rows_found (ids text).0 (ids text).1
              gone.gave i k is_kind small)

    pub gone-other :
        (s i : Bytes) (k : HashKind) (old : Found)
        → IsRecord (source_mapping s i k)
        → c.path_id text ≢ s
        → written ws (source_mapping_key s i k) old ≡ old
    gone-other s i k old is_record other =
        gone-mapping s i k old is_record
        ∙ ap (λ (b : Bool). if b then not_found else old)
            (any_row-other odb rows (c.path_id text) gone.rows_found (ids text).0 (ids text).1
              gone.gave s i k is_record.0 other)
