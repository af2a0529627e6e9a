-- ===== src/HashStore/Queries.antt =====
-- hashstore.go, lines 368-499, 597-643 and 686-697: what is asked of the records of sources:
-- GetExpected, GetExpectedAny, ListExpected, FindExpectedByHash, FindAPTByHash, Empty and the count of a
-- prefix. An expected record has no path, the empty text, where the dictionary has none.
use apk_cache.Prelude.{
  not, ℕ, suc, ◌+◌, Bool, true, false, Option, none, some, List, [], ◌∷◌, ◌++◌, String, Bytes,
  length, take, drop, ◌==◌, if◌then◌else◌,
}
use apk_cache.HashStore.Kinds.{
  HashKind, sha1, sha256, digest_len, validate_hash, expected_namespace, expected_by_hash_namespace,
  unsupported_hash_kind, corrupted_value, index_unavailable,
}
use apk_cache.HashStore.Values.{DecodedExpected, decode_expected}
use apk_cache.HashStore.Keys.{version, expected_key, apt_by_hash_key, prefix_upper_bound}
use apk_cache.HashStore.Actuals.{
  Found, found, not_found, get_failed, Db, Store, Outcome, done, fails, Config, store_error,
  library_error,
}
use apk_cache.HashStore.Ordered.{◌>>=◌, ◌>>◌, checked, Rows, no_iterator, scanned, OrderedDb}
use apk_cache.HashStore.Sources.{Texts, dict_kind_cache_path, normalize_host, key_of_path, get_dict}

pub record Expected : Type 0 where
  pub target_path : Bytes
  pub source_path : Bytes
  pub hash_kind : HashKind
  pub decoded : DecodedExpected

unfoldable pub path_or_empty : Texts → Option Bytes → Bytes
path_or_empty t none = []
path_or_empty t (some key) = t.under_root key

-- The loop's end: iter.Error()
unfoldable pub unless_error : {A : Type 0} → Option String → A → Outcome A
unless_error none a = done a
unless_error (some e) a = fails (library_error e)

module _ (odb : OrderedDb) (c : Config) (t : Texts) where
  unfoldable pub path_of_id : Db.State odb.db → Bytes → Bytes
  path_of_id rows id = path_or_empty t (get_dict odb c t rows dict_kind_cache_path id)

  unfoldable pub expected_of : Db.State odb.db → Bytes → HashKind → DecodedExpected → Expected
  expected_of rows target_path kind decoded = record {
    target_path = target_path;
    source_path = path_of_id rows decoded.source_id;
    hash_kind = kind;
    decoded = decoded;
  }

  -- GetExpected from the row on
  unfoldable pub expected_row : Store odb.db → Bytes → HashKind → Found → Outcome Expected
  expected_row st target_path kind not_found = fails (store_error index_unavailable)
  expected_row st target_path kind (get_failed e) = fails (library_error e)
  expected_row st target_path kind (found value) = do
    decoded ← checked (decode_expected value kind)
    done (expected_of st.rows target_path kind decoded)

  unfoldable pub get_expected : Store odb.db → Bytes → HashKind → Outcome Expected
  get_expected st target_path kind =
      if digest_len kind == 0 then fails (store_error unsupported_hash_kind) else do
        target_key ← key_of_path c target_path
        expected_row st target_path kind
            (Db.get odb.db st.rows (expected_key kind (c.path_id target_key)))

  unfoldable pub get_expected_any : Store odb.db → Bytes → Outcome Expected
  get_expected_any st target_path = elim (get_expected st target_path sha256) [
    | done expected ↦ done expected
    | fails (store_error index_unavailable) ↦ get_expected st target_path sha1
    | fails e ↦ fails e
  ]

  -- One row of the iterator in FindExpectedByHash; `none` is the `continue`.
  unfoldable pub found_by_hash : Store odb.db → HashKind → Bytes × Bytes → Outcome (Option Expected)
  found_by_hash st kind (key, value) =
      if not (length key == 2 + digest_len kind + 16)
      then fails (store_error corrupted_value)
      else let target_id = take 16 (drop (2 + digest_len kind) key) in
        elim (Db.get odb.db st.rows (expected_key kind target_id)) [
          | not_found ↦ done none
          | get_failed e ↦ fails (library_error e)
          | found row ↦ do
            decoded ← checked (decode_expected row kind)
            done (some (expected_of st.rows (path_of_id st.rows target_id) kind decoded))
        ]

  unfoldable pub prepend : Option Expected → List Expected → List Expected
  prepend none rest = rest
  prepend (some expected) rest = expected ∷ rest

  unfoldable pub all_by_hash : Store odb.db → HashKind → Rows → Outcome (List Expected)
  all_by_hash st kind [] = done []
  all_by_hash st kind (row ∷ rows) = do
    first ← found_by_hash st kind row
    rest ← all_by_hash st kind rows
    done (prepend first rest)

  unfoldable pub find_expected_by_hash : Store odb.db → HashKind → Bytes → Outcome (List Expected)
  find_expected_by_hash st kind expected_hash = do
    checked (validate_hash kind expected_hash)
    let prefix = expected_by_hash_namespace kind ∷ version ∷ expected_hash
    elim (OrderedDb.scan odb st.rows prefix (prefix_upper_bound prefix)) [
      | no_iterator e ↦ fails (library_error e)
      | scanned rows error ↦ do out ← all_by_hash st kind rows; unless_error error out
    ]

  -- One row of an iterator in ListExpected
  unfoldable pub listed : Store odb.db → HashKind → Bytes × Bytes → Outcome Expected
  listed st kind (key, value) =
      if not (length key == 18) then fails (store_error corrupted_value) else do
        let target_id = drop 2 key
        decoded ← checked (decode_expected value kind)
        elim (get_dict odb c t st.rows dict_kind_cache_path target_id) [
          | none ↦ fails (store_error corrupted_value)
          | some target_key ↦ done (expected_of st.rows (t.under_root target_key) kind decoded)
        ]

  unfoldable pub all_listed : Store odb.db → HashKind → Rows → Outcome (List Expected)
  all_listed st kind [] = done []
  all_listed st kind (row ∷ rows) = do
    first ← listed st kind row
    rest ← all_listed st kind rows
    done (first ∷ rest)

  unfoldable pub list_kind : Store odb.db → HashKind → Outcome (List Expected)
  list_kind st kind =
      let prefix = expected_namespace kind ∷ version ∷ [] in
      elim (OrderedDb.scan odb st.rows prefix (prefix_upper_bound prefix)) [
        | no_iterator e ↦ fails (library_error e)
        | scanned rows error ↦ do out ← all_listed st kind rows; unless_error error out
      ]

  unfoldable pub list_expected : Store odb.db → Outcome (List Expected)
  list_expected st = do
    first ← list_kind st sha1
    second ← list_kind st sha256
    done (first ++ second)

  unfoldable pub find_apt_by_hash : Store odb.db → Bytes → HashKind → Bytes → Outcome (Option Bytes)
  find_apt_by_hash st host kind expected_hash = do
    checked (validate_hash kind expected_hash)
    let host_id = c.path_id (normalize_host t host)
    elim (Db.get odb.db st.rows (apt_by_hash_key kind host_id expected_hash)) [
      | not_found ↦ done none
      | get_failed e ↦ fails (library_error e)
      | found value ↦
          if not (length value == 16)
          then fails (store_error corrupted_value)
          else elim (get_dict odb c t st.rows dict_kind_cache_path value) [
            | none ↦ fails (store_error corrupted_value)
            | some cache_key ↦ done (some (t.under_root cache_key))
          ]
    ]

  -- iter.First(), which is false too where the iterator meets an error
  unfoldable pub has_first : Rows → Bool
  has_first [] = false
  has_first (row ∷ rows) = true

  unfoldable pub any_row : Store odb.db → ℕ → Outcome Bool
  any_row st ns =
      elim (OrderedDb.scan odb st.rows (ns ∷ version ∷ []) (some (ns ∷ suc version ∷ []))) [
        | no_iterator e ↦ fails (library_error e)
        | scanned rows error ↦ done (has_first rows)
      ]

  -- Empty
  unfoldable pub is_empty : Store odb.db → Outcome Bool
  is_empty st = do
    first ← any_row st (expected_namespace sha1)
    if first
        then done false
        else do second ← any_row st (expected_namespace sha256); done (not second)

  unfoldable pub count_prefix : Store odb.db → Bytes → Outcome ℕ
  count_prefix st prefix = elim (OrderedDb.scan odb st.rows prefix (prefix_upper_bound prefix)) [
    | no_iterator e ↦ fails (library_error e)
    | scanned rows error ↦ unless_error error (length rows)
  ]
