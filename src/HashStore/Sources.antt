-- ===== src/HashStore/Sources.antt =====
-- hashstore.go, lines 298-366, 699-781 and 965-979: what a source, such as a signed index, says
-- about other files: ReplaceSource and DeleteSource, with the dictionary of ids. All that they read is
-- read before the batch is committed. A record's path of the source is not kept, so it is left out;
-- `encoded_at` is the time at which its value is made. Putting a write into a batch does not fail.
use apk_cache.Prelude.{
  not, ℕ, String, Option, none, some, List, [], ◌∷◌, ◌++◌, inl, inr, Bytes, bytes_eq, codes, ◌==◌,
  if◌then◌else◌,
}
use apk_cache.Prelude.Int.{ℤ}
use apk_cache.HashStore.Kinds.{HashKind, validate_hash, unsupported_hash_kind, path_collision}
use apk_cache.HashStore.Values.{ExpectedRecord, encode_expected, encode_source, decode_source}
use apk_cache.HashStore.Keys.{
  expected_key, expected_by_hash_key, apt_by_hash_key, source_mapping_key, source_mapping_prefix,
  decode_source_mapping_key, dict_by_id_key, dict_by_value_key, prefix_upper_bound,
}
use apk_cache.HashStore.Actuals.{
  found, not_found, get_failed, Write, put, remove, Db, Store, Outcome, done, fails, Config,
  store_error, library_error,
}
use apk_cache.HashStore.Ordered.{◌>>=◌, ◌>>◌, checked, Rows, no_iterator, scanned, OrderedDb}

abbrev pub dict_kind_cache_path : ℕ
dict_kind_cache_path = 0x01

abbrev pub dict_kind_host : ℕ
dict_kind_host = 0x02

-- strings.TrimSpace, strings.ToLower, and the path of a key under the root of the cache
-- (filepath.Join(s.cacheRoot, filepath.FromSlash(key)))
pub record Texts : Type 0 where
  pub trim_space : Bytes → Bytes
  pub to_lower : Bytes → Bytes
  pub under_root : Bytes → Bytes

unfoldable pub normalize_host : Texts → Bytes → Bytes
normalize_host t host = t.to_lower (t.trim_space host)

-- The text after a prefix, and the text before the first slash if there is one.
unfoldable pub after_prefix : Bytes → Bytes → Option Bytes
after_prefix [] text = some text
after_prefix (b ∷ p) [] = none
after_prefix (b ∷ p) (c ∷ text) = let rest = after_prefix p text in if b == c then rest else none

unfoldable pub before_slash : Bytes → Option Bytes
before_slash [] = none
before_slash (c ∷ text) = elim (before_slash text) [
  | none ↦ if c == b'/' then some [] else none
  | some host ↦ if c == b'/' then some [] else some (c ∷ host)
]

unfoldable pub apt_host_from_cache_key : Texts → Bytes → Option Bytes
unfolding after_prefix before_slash
apt_host_from_cache_key t cache_key = elim (after_prefix (codes "apt/") cache_key) [
  | none ↦ none
  | some rest ↦ elim (before_slash rest) [
    | none ↦ none
    | some [] ↦ none
    | some (c ∷ host) ↦ some (normalize_host t (c ∷ host))
  ]
]

pub record SourceRecord : Type 0 where
  pub target_path : Bytes
  pub hash_kind : HashKind
  pub value : ExpectedRecord
  pub by_hash_host : Bytes
  pub encoded_at : ℤ

-- pending: the ids that this batch has put into the dictionary
abbrev pub Pending : Type 0
Pending = List (Bytes × Bytes)

unfoldable pub find_pending : Bytes → Pending → Option Bytes
find_pending key [] = none
find_pending key ((k, v) ∷ rest) = if bytes_eq k key then some v else find_pending key rest

-- s.CacheKey
unfoldable pub key_of_path : Config → Bytes → Outcome Bytes
key_of_path c path = elim (c.cache_key path) [
  | inl e ↦ fails (library_error e)
  | inr key ↦ done key
]

-- The part under `if aptHostID != nil`.
unfoldable pub host_row : (Bytes → Bytes) → Option Bytes → HashKind → Bytes → List Write
host_row path_id none kind expected_hash = []
host_row path_id (some host) kind expected_hash =
    remove (apt_by_hash_key kind (path_id host) expected_hash) ∷ []

-- deleteSourceRecords, for one row of the iterator
unfoldable pub delete_row : (Bytes → Bytes) → Option Bytes → Bytes × Bytes → Outcome (List Write)
delete_row path_id apt_host (key, value) = do
  (target_id, kind) ← checked (decode_source_mapping_key key)
  (record_type, expected_hash) ← checked (decode_source value kind)
  done (
      remove (expected_key kind target_id)
        ∷ remove (expected_by_hash_key kind expected_hash target_id)
        ∷ host_row path_id apt_host kind expected_hash
      ++ remove key ∷ [])

unfoldable pub delete_rows : (Bytes → Bytes) → Option Bytes → Rows → Outcome (List Write)
delete_rows path_id apt_host [] = done []
delete_rows path_id apt_host (row ∷ rows) = do
  writes ← delete_row path_id apt_host row
  more ← delete_rows path_id apt_host rows
  done (writes ++ more)

unfoldable pub end_of_scan : Option String → List Write → Outcome (List Write)
end_of_scan none writes = done writes
end_of_scan (some e) writes = fails (library_error e)

module _ (odb : OrderedDb) (c : Config) (t : Texts) where
  unfoldable pub get_dict_strict : Db.State odb.db → ℕ → Bytes → Outcome (Option Bytes)
  get_dict_strict rows kind id = elim (Db.get odb.db rows (dict_by_id_key kind id)) [
    | not_found ↦ done none
    | get_failed e ↦ fails (library_error e)
    | found value ↦ done (some value)
  ]

  unfoldable pub get_dict : Db.State odb.db → ℕ → Bytes → Option Bytes
  get_dict rows kind id = elim (get_dict_strict rows kind id) [
    | fails e ↦ none
    | done value ↦ value
  ]

  -- ensureDict: the map of pending ids and what is put into the batch.
  unfoldable pub ensure_dict :
      Db.State odb.db → Pending → ℕ → Bytes → Bytes → Outcome (Pending × List Write)
  ensure_dict rows pending kind value id =
      let new : Outcome (Pending × List Write) = done (
        (kind ∷ id, value) ∷ pending,
        put (dict_by_id_key kind id) value ∷ put (dict_by_value_key kind value) id ∷ [],
      ) in
      elim (find_pending (kind ∷ id) pending) [
        | some existing ↦
            if not (bytes_eq existing value)
            then fails (store_error path_collision)
            else done (pending, [])
        | none ↦ elim (get_dict_strict rows kind id) [
          | fails e ↦ fails e
          | done none ↦ new
          | done (some current) ↦
              if not (bytes_eq current value) then fails (store_error path_collision) else new
        ]
      ]

  -- The host of the source, if it is an index of APT.
  unfoldable pub source_host : Db.State odb.db → Bytes → Option Bytes
  source_host rows source_id = elim (get_dict rows dict_kind_cache_path source_id) [
    | none ↦ none
    | some source_key ↦ apt_host_from_cache_key t source_key
  ]

  unfoldable pub delete_source_records : Db.State odb.db → Bytes → Outcome (List Write)
  delete_source_records rows source_id =
      let prefix = source_mapping_prefix source_id in
      elim (OrderedDb.scan odb rows prefix (prefix_upper_bound prefix)) [
        | no_iterator e ↦ fails (library_error e)
        | scanned found_rows error ↦ do
          writes ← delete_rows c.path_id (source_host rows source_id) found_rows
          end_of_scan error writes
      ]

  -- The part under `if record.ByHashHost != ""`.
  unfoldable pub put_host :
      Db.State odb.db → Pending → SourceRecord → Bytes → Outcome (Pending × List Write)
  put_host rows pending r target_id = if bytes_eq r.by_hash_host [] then done (pending, []) else do
    let host = normalize_host t r.by_hash_host
    let host_id = c.path_id host
    (pending, dict) ← ensure_dict rows pending dict_kind_host host host_id
    let row = put (apt_by_hash_key r.hash_kind host_id r.value.expected_hash) target_id
    done (pending, dict ++ row ∷ [])

  -- One round of the loop of ReplaceSource.
  unfoldable pub put_record :
      Db.State odb.db → Bytes → Pending → SourceRecord → Outcome (Pending × List Write)
  put_record rows source_id pending r =
      if r.hash_kind == 0 then fails (store_error unsupported_hash_kind) else do
        checked (validate_hash r.hash_kind r.value.expected_hash)
        target_key ← key_of_path c r.target_path
        let target_id = c.path_id target_key
        (pending, dict) ← ensure_dict rows pending dict_kind_cache_path target_key target_id
        (pending, by_host) ← put_host rows pending r target_id
        done (
          pending,
          dict
              ++ put (expected_key r.hash_kind target_id)
                  (encode_expected r.value source_id r.encoded_at)
                ∷ put (expected_by_hash_key r.hash_kind r.value.expected_hash target_id)
                    (r.value.record_type ∷ [])
                ∷ put (source_mapping_key source_id target_id r.hash_kind) (encode_source r.value)
                ∷ by_host,
        )

  unfoldable pub put_records :
      Db.State odb.db → Bytes → Pending → List SourceRecord → Outcome (List Write)
  put_records rows source_id pending [] = done []
  put_records rows source_id pending (r ∷ records) = do
    (pending, writes) ← put_record rows source_id pending r
    more ← put_records rows source_id pending records
    done (writes ++ more)

  -- What ReplaceSource and DeleteSource put into their batches.
  unfoldable pub replacement : Db.State odb.db → Bytes → List SourceRecord → Outcome (List Write)
  replacement rows source_path records = do
    source_key ← key_of_path c source_path
    let source_id = c.path_id source_key
    (pending, dict) ← ensure_dict rows [] dict_kind_cache_path source_key source_id
    gone ← delete_source_records rows source_id
    new ← put_records rows source_id pending records
    done (dict ++ gone ++ new)

  unfoldable pub deletion : Db.State odb.db → Bytes → Outcome (List Write)
  deletion rows source_path = do
    source_key ← key_of_path c source_path
    delete_source_records rows (c.path_id source_key)

  -- batch.Commit, of a batch that was made without an error
  unfoldable pub committed : Store odb.db → Outcome (List Write) → Store odb.db × Outcome (Unit {0})
  committed st (fails e) = (st, fails e)
  committed st (done writes) = elim (Db.commit odb.db st.rows writes) [
    | none ↦ (st, fails (library_error "commit"))
    | some rows ↦ (record st { rows = rows }, done tt)
  ]

  unfoldable pub replace_source :
      Store odb.db → Bytes → List SourceRecord → Store odb.db × Outcome (Unit {0})
  replace_source st source_path records = committed st (replacement st.rows source_path records)

  unfoldable pub delete_source : Store odb.db → Bytes → Store odb.db × Outcome (Unit {0})
  delete_source st source_path = committed st (deletion st.rows source_path)
