-- ===== src/HashStore/SourceReads.antt =====
-- What is read back after ReplaceSource and DeleteSource.
use mathlib.Core.Path.{subst}
use apk_cache.Prelude.{
  ◌≡◌, refl, ◌∙◌, inl, inr, Bool, true, false, Option, none, some, List, [], ◌∷◌, Bytes, length,
  Bool-cases, Option-cases, All, ◌==◌, if◌then◌else◌,
}
use apk_cache.HashStore.Kinds.{HashKind, digest_len}
use apk_cache.HashStore.Varint.{IsI64}
use apk_cache.HashStore.Values.{encode_expected}
use apk_cache.HashStore.ValueLaws.{decode_expected-encode_expected}
use apk_cache.HashStore.Keys.{dict_by_id_key, expected_key}
use apk_cache.HashStore.KeyLaws.{IsKind}
use apk_cache.HashStore.Actuals.{Found, found, Db, Store, done, Config}
use apk_cache.HashStore.Ordered.{OrderedDb}
use apk_cache.HashStore.Sources.{
  Texts, SourceRecord, dict_kind_cache_path, key_of_path, get_dict, get_dict_strict,
}
use apk_cache.HashStore.Queries.{
  Expected, path_or_empty, path_of_id, expected_of, expected_row, get_expected,
}
use apk_cache.HashStore.SourcePuts.{after_each}
use apk_cache.HashStore.SourceGone.{GivesIds, row}
use apk_cache.HashStore.DictLaws.{some_eq}

-- The last record that passes a test.
abbrev pub last_that : (SourceRecord → Bool) → List SourceRecord → Option SourceRecord
last_that test [] = none
last_that test (r ∷ records) = elim (last_that test records) [
  | some later ↦ some later
  | none ↦ if test r then some r else none
]

abbrev pub found_or : (SourceRecord → Bytes) → Found → Option SourceRecord → Found
found_or value old none = old
found_or value old (some r) = found (value r)

-- Of the records that write a row, the last one counts.
pub after_each-last :
    (test : SourceRecord → Bool) (value : SourceRecord → Bytes) (records : List SourceRecord)
    (old : Found)
    → after_each (λ r o. if test r then found (value r) else o) records old
      ≡ found_or value old (last_that test records)
after_each-last test value [] old = refl
after_each-last test value (r ∷ records) old =
    let ih = after_each-last test value records (if test r then found (value r) else old) in
    elim (Option-cases (last_that test records)) [
      | inl e ↦ elim (Bool-cases (test r)) [
        | inl y ↦ rw (e, y) (rw (e, y) at ih)
        | inr n ↦ rw (e, n) (rw (e, n) at ih)
      ]
      | inr (later, e) ↦ rw e (rw e at ih)
    ]

pub last_that-All {ℓ} :
    (P : SourceRecord → Type ℓ) (test : SourceRecord → Bool) (records : List SourceRecord)
    (r : SourceRecord)
    → All P records
    → last_that test records ≡ some r
    → P r × (test r ≡ true)
last_that-All P test [] r all h = absurd (let no : none ≡ some r = h in cc)
last_that-All P test (q ∷ records) r (first, rest) h =
    elim (Option-cases (last_that test records)) [
      | inr (later, e) ↦ last_that-All P test records r rest (e ∙ (rw e at h))
      | inl e ↦ elim (Bool-cases (test q)) [
        | inl y ↦
            let same : some q ≡ some r = rw (e, y) at h in
            subst (λ x. P x × (test x ≡ true)) (some_eq same) (first, y)
        | inr n ↦ absurd (let no : none ≡ some r = rw (e, n) at h in cc)
      ]
    ]

pub known_kind : (kind : HashKind) → IsKind kind → (digest_len kind == 0) ≡ false
unfolding digest_len
known_kind kind (inl e) = rw e refl
known_kind kind (inr e) = rw e refl

-- The answer of GetExpected for a record of a source.
abbrev pub answer : Config → Texts → Bytes → Bytes → HashKind → SourceRecord → Expected
answer c t source_key target_path kind r = record {
  target_path = target_path;
  source_path = t.under_root source_key;
  hash_kind = kind;
  decoded = record {
    record_type = r.value.record_type;
    expected_hash = r.value.expected_hash;
    expected_size = r.value.expected_size;
    source_id = c.path_id source_key;
    updated = r.encoded_at;
  };
}

module _ (odb : OrderedDb) (c : Config) (t : Texts) (ids : GivesIds c) where
  path_of_id-found :
      (rows : Db.State odb.db) (key : Bytes)
      → Db.get odb.db rows (dict_by_id_key dict_kind_cache_path (c.path_id key)) ≡ found key
      → path_of_id odb c t rows (c.path_id key) ≡ t.under_root key
  unfolding path_of_id get_dict get_dict_strict path_or_empty
  path_of_id-found rows key h = rw (h, path_of_id, get_dict, get_dict_strict) refl

  pub get_expected-found :
      (st : Store odb.db) (source_key target_path target_key : Bytes) (kind : HashKind)
      (r : SourceRecord)
      → IsKind kind
      → c.cache_key target_path ≡ inr target_key
      → length r.value.expected_hash ≡ digest_len kind
      → IsI64 r.value.expected_size
      → IsI64 r.encoded_at
      → row odb st (expected_key kind (c.path_id target_key))
        ≡ found (encode_expected r.value (c.path_id source_key) r.encoded_at)
      → row odb st (dict_by_id_key dict_kind_cache_path (c.path_id source_key)) ≡ found source_key
      → get_expected odb c t st target_path kind ≡ done (answer c t source_key target_path kind r)
  unfolding get_expected key_of_path expected_row expected_of
  get_expected-found st source_key target_path target_key kind r is_kind has_key long size time
        there source =
      let decoded =
        decode_expected-encode_expected kind r.value (c.path_id source_key) r.encoded_at long
          (ids source_key).0 size time in
      let path = path_of_id-found st.rows source_key source in
      rw
        (
          known_kind kind is_kind,
          has_key,
          get_expected,
          key_of_path,
          there,
          expected_row,
          decoded,
          expected_of,
          path,
        )
        refl
