-- ===== src/HashStore/SourceRuns.antt =====
-- A source with one record, over the database in memory.
use apk_cache.Prelude.{
  ◌≡◌, ◌≢◌, ◌⊎◌, refl, sym, ap, ◌∙◌, inl, inr, ℕ, zero, suc, ◌%◌, true, false, [], ◌∷◌, ◌++◌, Bytes,
  codes, length, bytes_eq, bytes_eq_iff, arith,
}
use apk_cache.Prelude.Int.{pos}
use apk_cache.HashStore.Kinds.{
  sha1, digest_len, index_unavailable, validate_hash, expected_namespace,
  expected_by_hash_namespace, apt_by_hash_namespace,
}
use apk_cache.HashStore.Actuals.{Store, Config, done, fails, written, StoreError, store_error}
use apk_cache.HashStore.Sources.{
  Texts, SourceRecord, normalize_host, find_pending, key_of_path, delete_row, delete_rows,
  end_of_scan, get_dict_strict, ensure_dict, delete_source_records, put_host, put_record,
  put_records, replacement, deletion, committed, replace_source, delete_source,
}
use apk_cache.HashStore.Queries.{get_expected}
use apk_cache.HashStore.SourceGone.{GivesIds, row}
use apk_cache.HashStore.SourceScan.{AreBytes, is_found}
use apk_cache.HashStore.Keys.{
  expected_key, expected_by_hash_key, apt_by_hash_key, source_mapping_key, source_mapping_prefix,
  decode_source_mapping_key, dict_by_id_key, dict_by_value_key, prefix_upper_bound,
}
use apk_cache.HashStore.Values.{decode_source, encode_source}
use apk_cache.HashStore.Range.{is_before, is_below}
use apk_cache.HashStore.SourceLaws.{Deletes, delete_source_lem}
use apk_cache.HashStore.ReplaceLaws.{Replaces, replace_source_lem}
use apk_cache.HashStore.DictTotal.{Enters}
use apk_cache.HashStore.SourceReads.{answer}
use apk_cache.HashStore.SourceRounds.{
  replace_source-Enters, get_expected-replace_source, delete_source-takes_shared,
}
use apk_cache.HashStore.SourceSuccess.{replace_source-succeeds}
use apk_cache.HashStore.MemoryDb.{memory_db, log_db}

-- Ids of 16 bytes: the text, cut off or filled up.
abbrev padded : ℕ → Bytes → Bytes
padded zero text = []
padded (suc n) [] = 0 ∷ padded n []
padded (suc n) (b ∷ text) = (b % 256) ∷ padded n text

abbrev config : Config
config = record {
  trust_file_stat = true;
  revalidate_interval = pos 0;
  cache_key = λ path. inr path;
  path_id = padded 16;
}

abbrev texts : Texts
texts = record {
  trim_space = λ text. text;
  to_lower = λ text. text;
  under_root = λ key. b'/' ∷ key;
}

padded-length : (n : ℕ) (text : Bytes) → length (padded n text) ≡ n
padded-length zero text = refl
padded-length (suc n) [] = ap suc (padded-length n [])
padded-length (suc n) (b ∷ text) = ap suc (padded-length n text)

padded-AreBytes : (n : ℕ) (text : Bytes) → AreBytes (padded n text)
padded-AreBytes zero text = tt
padded-AreBytes (suc n) [] = (omega arith, padded-AreBytes n [])
padded-AreBytes (suc n) (b ∷ text) = (omega arith, padded-AreBytes n text)

ids : GivesIds config
ids text = (padded-length 16 text, padded-AreBytes 16 text)

abbrev empty_store : Store log_db
empty_store = record { rows = []; actual_hits = 0; actual_computes = 0 }

abbrev index_path : Bytes
index_path = codes "apt/index"

abbrev package_path : Bytes
package_path = codes "package"

abbrev entry : SourceRecord
entry = record {
  target_path = package_path;
  hash_kind = sha1;
  value = record {
    record_type = 1;
    expected_hash = codes "0123456789" ++ codes "0123456789";
    expected_size = pos 7;
  };
  by_hash_host = codes "host";
  encoded_at = pos 9;
}

abbrev indexed : Store log_db
indexed = (replace_source memory_db config texts empty_store index_path (entry ∷ [])).0

indexed-done :
    replace_source memory_db config texts empty_store index_path (entry ∷ []) ≡ (indexed, done tt)
unfolding replace_source committed replacement key_of_path ensure_dict get_dict_strict find_pending
    delete_source_records delete_rows end_of_scan put_records put_record put_host validate_hash
    digest_len normalize_host written bytes_eq
indexed-done = refl

replace_source_lem_example :
    (((replace_source memory_db config texts empty_store index_path (entry ∷ [])).1 ≡ done tt)
      × Replaces memory_db config texts ids empty_store indexed
          (config.path_id index_path)
          (entry ∷ []))
    ⊎ ((e : StoreError) × (replace_source memory_db config texts empty_store index_path (entry ∷ [])
          ≡ (empty_store, fails e)))
replace_source_lem_example =
    replace_source_lem memory_db config texts ids empty_store index_path index_path (entry ∷ [])
      refl

replace_source-Enters_example :
    Enters memory_db config texts ids empty_store.rows indexed.rows index_path (entry ∷ [])
replace_source-Enters_example =
    replace_source-Enters memory_db config texts ids empty_store indexed index_path index_path
      (entry ∷ []) refl indexed-done

get_expected-replace_source_example :
    get_expected memory_db config texts indexed package_path sha1
    ≡ done (answer config texts index_path package_path sha1 entry)
unfolding bytes_eq
get_expected-replace_source_example =
    get_expected-replace_source memory_db config texts ids empty_store indexed index_path index_path
      package_path package_path sha1 (entry ∷ []) entry refl refl (inl refl) refl (omega arith)
      (omega arith) indexed-done

unpadded : Bytes → Bytes
unpadded [] = []
unpadded (zero ∷ rest) = []
unpadded (suc b ∷ rest) = suc b ∷ unpadded rest

replace_source-succeeds_example :
    (st' : Store log_db) × (replace_source memory_db config texts empty_store index_path
        (entry ∷ [])
      ≡ (st', done tt))
unfolding unpadded digest_len written normalize_host
replace_source-succeeds_example =
    replace_source-succeeds memory_db config texts empty_store (λ ws. (ws, refl))
      (λ kind id. unpadded id) index_path index_path (entry ∷ []) refl refl (λ kind id. inl refl)
      (
        record {
          key = package_path;
          has_key = refl;
          is_kind = inl refl;
          is_digest = refl;
          key_named = refl;
          host_named = λ e. refl;
        },
        tt,
      )
      (record { found_rows = []; gave = refl; readable = tt })

abbrev cleared : Store log_db
cleared = (delete_source memory_db config texts indexed index_path).0

cleared-done : delete_source memory_db config texts indexed index_path ≡ (cleared, done tt)
unfolding delete_source deletion replace_source committed replacement key_of_path ensure_dict
    get_dict_strict find_pending delete_source_records delete_rows delete_row end_of_scan
    put_records put_record put_host validate_hash digest_len normalize_host written bytes_eq
    is_before is_below dict_by_id_key dict_by_value_key source_mapping_prefix source_mapping_key
    prefix_upper_bound expected_key expected_namespace expected_by_hash_key
    expected_by_hash_namespace apt_by_hash_key apt_by_hash_namespace decode_source_mapping_key
    decode_source encode_source
cleared-done = refl

delete_source_lem_example :
    (((delete_source memory_db config texts indexed index_path).1 ≡ done tt)
      × Deletes memory_db config texts ids indexed cleared (config.path_id index_path))
    ⊎ ((e : StoreError) × (delete_source memory_db config texts indexed index_path
          ≡ (indexed, fails e)))
delete_source_lem_example =
    delete_source_lem memory_db config texts ids indexed index_path index_path refl

abbrev other_path : Bytes
other_path = codes "apt/other"

-- The same record from two sources.
abbrev shared : Store log_db
shared = (replace_source memory_db config texts indexed other_path (entry ∷ [])).0

abbrev unshared : Store log_db
unshared = (delete_source memory_db config texts shared index_path).0

unshared-done : delete_source memory_db config texts shared index_path ≡ (unshared, done tt)
unfolding delete_source deletion replace_source committed replacement key_of_path ensure_dict
    get_dict_strict find_pending delete_source_records delete_rows delete_row end_of_scan
    put_records put_record put_host validate_hash digest_len normalize_host written bytes_eq
    is_before is_below dict_by_id_key dict_by_value_key source_mapping_prefix source_mapping_key
    prefix_upper_bound expected_key expected_namespace expected_by_hash_key
    expected_by_hash_namespace apt_by_hash_key apt_by_hash_namespace decode_source_mapping_key
    decode_source encode_source
unshared-done = refl

differ : bytes_eq (config.path_id index_path) (config.path_id other_path) ≡ false
unfolding bytes_eq
differ = refl

other_id : config.path_id index_path ≢ config.path_id other_path
other_id e =
    let same : true ≡ false =
      sym ((bytes_eq_iff (config.path_id index_path) (config.path_id other_path)).1 e) ∙ differ in
    cc

delete_source-takes_shared_example :
    (get_expected memory_db config texts unshared package_path sha1
      ≡ fails (store_error index_unavailable))
    × (is_found (
          row memory_db unshared
            (source_mapping_key (config.path_id other_path) (config.path_id package_path) sha1))
        ≡ true)
unfolding delete_source deletion replace_source committed replacement key_of_path ensure_dict
    get_dict_strict find_pending delete_source_records delete_rows delete_row end_of_scan
    put_records put_record put_host validate_hash digest_len normalize_host written bytes_eq
    is_before is_below dict_by_id_key dict_by_value_key source_mapping_prefix source_mapping_key
    prefix_upper_bound expected_key expected_namespace expected_by_hash_key
    expected_by_hash_namespace apt_by_hash_key apt_by_hash_namespace decode_source_mapping_key
    decode_source encode_source
delete_source-takes_shared_example =
    delete_source-takes_shared memory_db config texts ids shared unshared index_path index_path
      other_path package_path package_path sha1 refl refl (inl refl) other_id refl refl
      unshared-done
