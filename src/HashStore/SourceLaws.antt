-- ===== src/HashStore/SourceLaws.antt =====
-- What ReplaceSource and DeleteSource do to the rows of expected records and of mappings.
use mathlib.Core.Path.{subst}
use apk_cache.Prelude.{
  ◌≡◌, ◌≢◌, ◌⊎◌, refl, sym, ap, ◌∙◌, inl, inr, false, some, List, Bytes, length, Option-cases,
}
use apk_cache.HashStore.Kinds.{HashKind}
use apk_cache.HashStore.Keys.{expected_key, source_mapping_key}
use apk_cache.HashStore.KeyLaws.{source_mapping, IsRecord, IsKind}
use apk_cache.HashStore.Actuals.{
  Found, found, not_found, get_failed, Write, Db, Store, Outcome, done, fails, Config, StoreError,
  library_error,
}
use apk_cache.HashStore.Ordered.{OrderedDb}
use apk_cache.HashStore.Sources.{
  Texts, key_of_path, delete_source_records, deletion, committed, delete_source,
}
use apk_cache.HashStore.SourceParts.{>>=-eq-done, key_of_path-eq-done}
use apk_cache.HashStore.SourceGone.{
  GivesIds, row, unless_mapped, IsGone, delete_source_records-IsGone, gone-expected, gone-own,
  gone-other,
}
use apk_cache.HashStore.SourceScan.{is_found, AreBytes}

pub inr_eq {ℓ κ} : {A : Type ℓ} {B : Type κ} {a b : B} → ◌≡◌ {A = A ⊎ B} (inr a) (inr b) → a ≡ b
inr_eq h = cc

unless_mapped_self : (f : Found) → is_found (unless_mapped f f) ≡ false
unless_mapped_self (found v) = refl
unless_mapped_self not_found = refl
unless_mapped_self (get_failed e) = refl

module _ (odb : OrderedDb) (c : Config) (t : Texts) (ids : GivesIds c) where
  -- A batch that was put together is committed, or the store stays as it was.
  pub committed-cases :
      (st : Store odb.db) (o : Outcome (List Write))
      → ((ws : List Write) × (rows : Db.State odb.db) × (o ≡ done ws)
          × (Db.commit odb.db st.rows ws ≡ some rows)
          × (committed odb c t st o ≡ (record st { rows = rows }, done tt)))
        ⊎ ((e : StoreError) × (committed odb c t st o ≡ (st, fails e)))
  unfolding committed
  committed-cases st (fails e) = inr (e, refl)
  committed-cases st (done ws) = elim (Option-cases (Db.commit odb.db st.rows ws)) [
    | inl e ↦ inr (library_error "commit", rw (e, committed) refl)
    | inr (rows, e) ↦ inl (ws, rows, refl, e, rw (e, committed) refl)
  ]

  -- DeleteSource, as a change of the rows.
  pub record Deletes (st st' : Store odb.db) (source_id : Bytes) : Type 0 where
    pub expected_rows :
        (k : HashKind) (i : Bytes)
        → IsKind k
        → length i ≡ 16
        → AreBytes i
        → row odb st' (expected_key k i)
          ≡ unless_mapped
              (row odb st (source_mapping_key source_id i k))
              (row odb st (expected_key k i))
    pub own_mappings :
        (k : HashKind) (i : Bytes)
        → IsKind k
        → length i ≡ 16
        → AreBytes i
        → is_found (row odb st' (source_mapping_key source_id i k)) ≡ false
    pub other_mappings :
        (s i : Bytes) (k : HashKind)
        → IsRecord (source_mapping s i k)
        → source_id ≢ s
        → row odb st' (source_mapping_key s i k) ≡ row odb st (source_mapping_key s i k)

  gone-Deletes :
      (st : Store odb.db) (rows : Db.State odb.db) (text : Bytes) (ws : List Write)
      → IsGone odb c t ids st.rows (c.path_id text) ws
      → Db.commit odb.db st.rows ws ≡ some rows
      → Deletes st (record st { rows = rows }) (c.path_id text)
  gone-Deletes st rows text ws gone e = record {
    expected_rows = λ k i is_kind long small.
        Db.get-commit odb.db st.rows rows ws (expected_key k i) e
        ∙ gone-expected odb c t ids st.rows text ws gone k i _ is_kind long small;
    own_mappings = λ k i is_kind long small.
        ap is_found (
          Db.get-commit odb.db st.rows rows ws (source_mapping_key (c.path_id text) i k) e
          ∙ gone-own odb c t ids st.rows text ws gone i k _ is_kind long small)
        ∙ unless_mapped_self (Db.get odb.db st.rows (source_mapping_key (c.path_id text) i k));
    other_mappings = λ s i k is_record other.
        Db.get-commit odb.db st.rows rows ws (source_mapping_key s i k) e
        ∙ gone-other odb c t ids st.rows text ws gone s i k _ is_record other;
  }

  -- DeleteSource, for a path with a key, removes the expected record of every target that the source
  -- has a mapping to, whichever source wrote that record, and all mappings of the source, and changes no
  -- other expected record and no mapping of another source; or it fails and changes nothing.
  pub delete_source_lem :
      (st : Store odb.db) (source_path source_key : Bytes)
      → c.cache_key source_path ≡ inr source_key
      → (((delete_source odb c t st source_path).1 ≡ done tt)
          × Deletes st (delete_source odb c t st source_path).0 (c.path_id source_key))
        ⊎ ((e : StoreError) × (delete_source odb c t st source_path ≡ (st, fails e)))
  unfolding delete_source deletion
  delete_source_lem st source_path source_key has_key =
      elim (committed-cases st (deletion odb c t st.rows source_path)) [
        | inr refused ↦ inr refused
        | inl (ws, rows, made, e, whole) ↦
            let (key, k, d) =
              >>=-eq-done (key_of_path c source_path)
                (λ key. delete_source_records odb c t st.rows (c.path_id key)) ws made in
            let same : key ≡ source_key = inr_eq (sym (key_of_path-eq-done c _ _ k) ∙ has_key) in
            let gone =
              delete_source_records-IsGone odb c t ids st.rows (c.path_id source_key) ws
                (ap (λ x. delete_source_records odb c t st.rows (c.path_id x)) (sym same) ∙ d) in
            inl (
              ap (λ r. r.1) whole,
              subst (λ r. Deletes st r.0 (c.path_id source_key)) (sym whole)
                  (gone-Deletes st rows source_key ws gone e),
            )
      ]
