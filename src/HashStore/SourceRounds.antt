-- ===== src/HashStore/SourceRounds.antt =====
-- Calls of ReplaceSource, DeleteSource and GetExpected after each other.
use mathlib.Core.Path.{subst}
use apk_cache.Prelude.{
  ◌≡◌, ◌≢◌, refl, sym, ap, ◌∙◌, inl, inr, Bool, true, ◌&&◌, some, List, Bytes, bytes_eq_refl,
  if◌then◌else◌, arith,
}
use apk_cache.HashStore.Kinds.{HashKind, digest_len, index_unavailable}
use apk_cache.HashStore.Varint.{IsI64}
use apk_cache.HashStore.Values.{encode_expected, encode_source}
use apk_cache.HashStore.Keys.{expected_key, source_mapping_key}
use apk_cache.HashStore.KeyLaws.{IsKind}
use apk_cache.HashStore.Actuals.{found, not_found, Store, done, fails, store_error, Config}
use apk_cache.HashStore.Ordered.{OrderedDb}
use apk_cache.HashStore.Sources.{Texts, SourceRecord, key_of_path, replace_source, delete_source}
use apk_cache.HashStore.Queries.{expected_row, get_expected}
use apk_cache.HashStore.SourcePuts.{describes, after_each}
use apk_cache.HashStore.SourceScan.{is_found}
use apk_cache.HashStore.SourceGone.{GivesIds, row, unless_mapped}
use apk_cache.HashStore.SourceLaws.{Deletes, delete_source_lem}
use apk_cache.HashStore.ReplaceLaws.{Replaces, Batch, replace_source-Batch, parts-Replaces}
use apk_cache.HashStore.DictTotal.{Enters, parts-Enters}
use apk_cache.HashStore.SourceReads.{
  last_that, last_that-All, after_each-last, found_or, answer, known_kind, get_expected-found,
}

module _ (odb : OrderedDb) (c : Config) (t : Texts) (ids : GivesIds c) where
  Batch-Replaces :
      (st st' : Store odb.db) (text : Bytes) (records : List SourceRecord)
      → Batch odb c t ids st st' text records
      → Replaces odb c t ids st st' (c.path_id text) records
  Batch-Replaces st st' text records b =
      let r = parts-Replaces odb c t ids st st'.rows text records b.writes b.parts b.commits in
      record {
        expected_rows = r.expected_rows;
        own_mappings = r.own_mappings;
        other_mappings = r.other_mappings;
      }

  -- ReplaceSource that succeeded leaves an id that was in the dictionary with its text, and the paths of
  -- the source and of all targets in the dictionary under their ids; every record has a hash of the length of its kind.
  pub replace_source-Enters :
      (st st' : Store odb.db) (source_path source_key : Bytes) (records : List SourceRecord)
      → c.cache_key source_path ≡ inr source_key
      → replace_source odb c t st source_path records ≡ (st', done tt)
      → Enters odb c t ids st.rows st'.rows source_key records
  replace_source-Enters st st' source_path source_key records has_key h =
      let b = replace_source-Batch odb c t ids st st' source_path source_key records has_key h in
      parts-Enters odb c t ids st.rows st'.rows source_key records b.writes b.parts b.commits

  -- After ReplaceSource that succeeded, GetExpected of a target answers with the last record that
  -- describes the target with this kind of hash: its type, hash, size and time, and the source's path,
  -- for a known kind and numbers that fit an int64.
  pub get_expected-replace_source :
      (st st' : Store odb.db) (source_path source_key target_path target_key : Bytes)
      (kind : HashKind) (records : List SourceRecord) (r : SourceRecord)
      → c.cache_key source_path ≡ inr source_key
      → c.cache_key target_path ≡ inr target_key
      → IsKind kind
      → last_that (describes c kind (c.path_id target_key)) records ≡ some r
      → IsI64 r.value.expected_size
      → IsI64 r.encoded_at
      → replace_source odb c t st source_path records ≡ (st', done tt)
      → get_expected odb c t st' target_path kind ≡ done (answer c t source_key target_path kind r)
  get_expected-replace_source st st' source_path source_key target_path target_key kind records r
        has_source has_target is_kind last size time h =
      let id = c.path_id target_key in
      let b = replace_source-Batch odb c t ids st st' source_path source_key records has_source h in
      let all = Batch-Replaces st st' source_key records b in
      let entered = replace_source-Enters st st' source_path source_key records has_source h in
      let ((key, k, d, long), test) =
        last_that-All _ (describes c kind id) records r entered.targets last in
      let kinds : r.hash_kind ≡ kind = ground (arith, test) in
      let there =
        all.expected_rows kind id is_kind (ids target_key).0 (ids target_key).1
        ∙ after_each-last (describes c kind id)
            (λ q. encode_expected q.value (c.path_id source_key) q.encoded_at) records _
        ∙ ap (found_or _ _) last in
      get_expected-found odb c t ids st' source_key target_path target_key kind r is_kind has_target
        (long ∙ ap digest_len kinds) size time there entered.source

  -- A mapping that a record of the source describes is there.
  pub replace_source-mapping :
      (st st' : Store odb.db) (source_path source_key : Bytes) (target_key : Bytes)
      (kind : HashKind) (records : List SourceRecord) (r : SourceRecord)
      → c.cache_key source_path ≡ inr source_key
      → IsKind kind
      → last_that (describes c kind (c.path_id target_key)) records ≡ some r
      → replace_source odb c t st source_path records ≡ (st', done tt)
      → row odb st' (source_mapping_key (c.path_id source_key) (c.path_id target_key) kind)
        ≡ found (encode_source r.value)
  replace_source-mapping st st' source_path source_key target_key kind records r has_source is_kind
        last h =
      let id = c.path_id target_key in
      let s = c.path_id source_key in
      let b = replace_source-Batch odb c t ids st st' source_path source_key records has_source h in
      let all = Batch-Replaces st st' source_key records b in
      let before = row odb st (source_mapping_key s id kind) in
      all.own_mappings kind id is_kind (ids target_key).0 (ids target_key).1
      ∙ ap
          (λ (own : Bool).
            after_each
              (λ q o. if own && describes c kind id q then found (encode_source q.value) else o)
              records (unless_mapped before before))
          (bytes_eq_refl s)
      ∙ after_each-last (describes c kind id) (λ q. encode_source q.value) records _
      ∙ ap (found_or _ _) last

  get_expected-not_found :
      (st : Store odb.db) (target_path target_key : Bytes) (kind : HashKind)
      → IsKind kind
      → c.cache_key target_path ≡ inr target_key
      → row odb st (expected_key kind (c.path_id target_key)) ≡ not_found
      → get_expected odb c t st target_path kind ≡ fails (store_error index_unavailable)
  unfolding get_expected key_of_path expected_row
  get_expected-not_found st target_path target_key kind is_kind has_key there =
      rw (known_kind kind is_kind, has_key, get_expected, key_of_path, there, expected_row) refl

  deleted :
      (st st' : Store odb.db) (source_path source_key : Bytes)
      → c.cache_key source_path ≡ inr source_key
      → delete_source odb c t st source_path ≡ (st', done tt)
      → Deletes odb c t ids st st' (c.path_id source_key)
  deleted st st' source_path source_key has_key h =
      elim (delete_source_lem odb c t ids st source_path source_key has_key) [
        | inl (ok, d) ↦
            subst (λ x. Deletes odb c t ids st x (c.path_id source_key)) (ap (λ r. r.0) h) d
        | inr (e, refused) ↦
            absurd (let no : fails e ≡ done tt = ap (λ r. r.1) (sym refused ∙ h) in cc)
      ]

  -- After DeleteSource that succeeded, GetExpected finds no record of a target that the source had a
  -- mapping to, for a known kind, also if another source has a mapping to it, which stays.
  pub delete_source-takes_shared :
      (st st' : Store odb.db) (source_path source_key other target_path target_key : Bytes)
      (kind : HashKind)
      → c.cache_key source_path ≡ inr source_key
      → c.cache_key target_path ≡ inr target_key
      → IsKind kind
      → c.path_id source_key ≢ c.path_id other
      → is_found
          (row odb st (source_mapping_key (c.path_id source_key) (c.path_id target_key) kind))
        ≡ true
      → is_found (row odb st (source_mapping_key (c.path_id other) (c.path_id target_key) kind))
        ≡ true
      → delete_source odb c t st source_path ≡ (st', done tt)
      → (get_expected odb c t st' target_path kind ≡ fails (store_error index_unavailable))
        × (is_found (row odb st' (source_mapping_key (c.path_id other) (c.path_id target_key) kind))
            ≡ true)
  delete_source-takes_shared st st' source_path source_key other target_path target_key kind
        has_source has_target is_kind differ own shared h =
      let id = c.path_id target_key in
      let d = deleted st st' source_path source_key has_source h in
      (
        get_expected-not_found st' target_path target_key kind is_kind has_target
            (d.expected_rows kind id is_kind (ids target_key).0 (ids target_key).1 ∙ rw own refl),
        ap is_found (
              d.other_mappings (c.path_id other) id kind ((ids other).0, (ids target_key).0) differ)
            ∙ shared,
      )

  -- A source that is replaced and then deleted, both with success, leaves no expected record of a target
  -- that its records describe with this known kind of hash.
  pub delete_source-replace_source :
      (st st' st'' : Store odb.db) (source_path source_key target_path target_key : Bytes)
      (kind : HashKind) (records : List SourceRecord) (r : SourceRecord)
      → c.cache_key source_path ≡ inr source_key
      → c.cache_key target_path ≡ inr target_key
      → IsKind kind
      → last_that (describes c kind (c.path_id target_key)) records ≡ some r
      → replace_source odb c t st source_path records ≡ (st', done tt)
      → delete_source odb c t st' source_path ≡ (st'', done tt)
      → get_expected odb c t st'' target_path kind ≡ fails (store_error index_unavailable)
  delete_source-replace_source st st' st'' source_path source_key target_path target_key kind
        records r has_source has_target is_kind last h h' =
      let mapping =
        replace_source-mapping st st' source_path source_key target_key kind records r has_source
          is_kind last h in
      let d = deleted st' st'' source_path source_key has_source h' in
      get_expected-not_found st'' target_path target_key kind is_kind has_target (
        d.expected_rows kind (c.path_id target_key) is_kind (ids target_key).0 (ids target_key).1
        ∙ rw mapping refl)
