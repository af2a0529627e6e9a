-- ===== src/HashStore/ReplaceLaws.antt =====
-- What ReplaceSource does to the rows of expected records and of mappings.
use mathlib.Core.Path.{subst}
use apk_cache.Prelude.{
  ◌≡◌, ◌≢◌, ◌⊎◌, refl, sym, ap, ◌∙◌, inl, inr, ℕ, ◌∷◌, some, List, [], ◌++◌, Bytes, length,
}
use apk_cache.HashStore.Kinds.{HashKind}
use apk_cache.HashStore.Keys.{expected_key, source_mapping_key}
use apk_cache.HashStore.KeyLaws.{
  Record, expected, source_mapping, dict_by_id, dict_by_value, IsRecord, IsKind, key_of,
}
use apk_cache.HashStore.Actuals.{Found, Write, written, Db, Store, done, fails, Config, StoreError}
use apk_cache.HashStore.Ordered.{OrderedDb}
use apk_cache.HashStore.Sources.{
  Texts, SourceRecord, Pending, dict_kind_cache_path, key_of_path, ensure_dict,
  delete_source_records, put_records, replacement, replace_source,
}
use apk_cache.HashStore.Writes.{written-append, bytes_eq-ne}
use apk_cache.HashStore.SourceParts.{>>=-eq-done, key_of_path-eq-done, ensure_dict-AreEntry}
use apk_cache.HashStore.SourceRows.{entry-Misses}
use apk_cache.HashStore.SourcePuts.{
  after_each, expect, mapped, put_records-expected, put_records-mapping,
}
use apk_cache.HashStore.SourceGone.{
  GivesIds, row, unless_mapped, is_id, IsGone, delete_source_records-IsGone, gone-expected,
  gone-own, gone-other,
}
use apk_cache.HashStore.SourceScan.{AreBytes}
use apk_cache.HashStore.SourceLaws.{inr_eq, committed-cases}

done_eq : {A : Type 0} {a b : A} → done a ≡ done b → b ≡ a
done_eq h = cc

module _ (odb : OrderedDb) (c : Config) (t : Texts) (ids : GivesIds c) where
  -- The three parts of the batch of ReplaceSource.
  pub record HasParts (rows : Db.State odb.db) (text : Bytes) (records : List SourceRecord)
      (ws : List Write) : Type 0 where
    pub dict : List Write
    pub removed : List Write
    pub added : List Write
    pub pending : Pending
    pub are_writes : ws ≡ dict ++ removed ++ added
    pub entered :
        ensure_dict odb c t rows [] dict_kind_cache_path text (c.path_id text)
        ≡ done (pending, dict)
    pub gone : IsGone odb c t ids rows (c.path_id text) removed
    pub put : put_records odb c t rows (c.path_id text) pending records ≡ done added

  pub replacement-HasParts :
      (rows : Db.State odb.db) (source_path source_key : Bytes) (records : List SourceRecord)
      (ws : List Write)
      → c.cache_key source_path ≡ inr source_key
      → replacement odb c t rows source_path records ≡ done ws
      → HasParts rows source_key records ws
  unfolding replacement
  replacement-HasParts rows source_path source_key records ws has_key h =
      let (key, k, h₁) = >>=-eq-done (key_of_path c source_path) _ ws h in
      let same : key ≡ source_key = inr_eq (sym (key_of_path-eq-done c _ _ k) ∙ has_key) in
      let ((pending, dict), d, h₂) =
        >>=-eq-done (ensure_dict odb c t rows [] dict_kind_cache_path key (c.path_id key)) _ ws
          h₁ in
      let (removed, g, h₃) =
        >>=-eq-done (delete_source_records odb c t rows (c.path_id key)) _ ws h₂ in
      let (added, p, h₄) =
        >>=-eq-done (put_records odb c t rows (c.path_id key) pending records) _ ws h₃ in
      subst (λ x. HasParts rows x records ws) same
        (record {
          dict = dict;
          removed = removed;
          added = added;
          pending = pending;
          are_writes = done_eq h₄;
          entered = d;
          gone = delete_source_records-IsGone odb c t ids rows (c.path_id key) removed g;
          put = p;
        })

  module _ (rows : Db.State odb.db) (text : Bytes) (records : List SourceRecord) (ws : List Write)
      (p : HasParts rows text records ws) where
    -- The dictionary's writes, then the removals, then the records.
    in_parts :
        (R : Record) (old : Found)
        → IsRecord R
        → ((kind : ℕ) (x : Bytes) → (R ≢ dict_by_id kind x) × (R ≢ dict_by_value kind x))
        → written ws (key_of R) old ≡ written p.added (key_of R) (written p.removed (key_of R) old)
    in_parts R old is_record no_dict =
        let entry =
          ensure_dict-AreEntry odb c t rows [] p.pending dict_kind_cache_path text (c.path_id text)
            p.dict p.entered in
        let missed =
          entry-Misses R dict_kind_cache_path text (c.path_id text) p.dict is_record
            (no_dict dict_kind_cache_path (c.path_id text)).0 (no_dict dict_kind_cache_path text).1
            entry in
        ap (λ (w : List Write). written w (key_of R) old) p.are_writes
        ∙ written-append (p.dict ++ p.removed) p.added (key_of R) old
        ∙ ap (written p.added (key_of R)) (
            written-append p.dict p.removed (key_of R) old
            ∙ ap (written p.removed (key_of R)) (missed old))

  -- ReplaceSource, as a change of the rows: the old records of the source go, the new ones come, the
  -- last one for a target counts.
  pub record Replaces (st st' : Store odb.db) (source_id : Bytes) (records : List SourceRecord)
      : Type 0 where
    pub expected_rows :
        (k : HashKind) (i : Bytes)
        → IsKind k
        → length i ≡ 16
        → AreBytes i
        → row odb st' (expected_key k i)
          ≡ after_each (expect c source_id k i) records (
              unless_mapped
                (row odb st (source_mapping_key source_id i k))
                (row odb st (expected_key k i)))
    pub own_mappings :
        (k : HashKind) (i : Bytes)
        → IsKind k
        → length i ≡ 16
        → AreBytes i
        → row odb st' (source_mapping_key source_id i k)
          ≡ after_each (mapped c source_id source_id k i) records (
              unless_mapped
                (row odb st (source_mapping_key source_id i k))
                (row odb st (source_mapping_key source_id i k)))
    pub other_mappings :
        (s i : Bytes) (k : HashKind)
        → IsRecord (source_mapping s i k)
        → source_id ≢ s
        → row odb st' (source_mapping_key s i k) ≡ row odb st (source_mapping_key s i k)

  mapped_other :
      (source_id s i : Bytes) (k : HashKind) (records : List SourceRecord) (old : Found)
      → source_id ≢ s
      → after_each (mapped c source_id s k i) records old ≡ old
  mapped_other source_id s i k [] old other = refl
  mapped_other source_id s i k (r ∷ records) old other =
      let differ = bytes_eq-ne source_id s other in
      ap (after_each (mapped c source_id s k i) records) (rw differ refl)
      ∙ mapped_other source_id s i k records old other

  pub parts-Replaces :
      (st : Store odb.db) (rows : Db.State odb.db) (text : Bytes) (records : List SourceRecord)
      (ws : List Write)
      → HasParts st.rows text records ws
      → Db.commit odb.db st.rows ws ≡ some rows
      → Replaces st (record st { rows = rows }) (c.path_id text) records
  parts-Replaces st rows text records ws p e =
      let id = c.path_id text in
      let sized = (ids text).0 in
      record {
        expected_rows = λ k i is_kind long small.
            Db.get-commit odb.db st.rows rows ws (expected_key k i) e
            ∙ in_parts st.rows text records ws p (expected k i) _ is_kind
                (λ kind x. ((λ q. cc), (λ q. cc)))
            ∙ put_records-expected odb c t (is_id odb c t ids) st.rows id p.pending records p.added
                k i _ is_kind sized p.put
            ∙ ap (after_each (expect c id k i) records)
                (gone-expected odb c t ids st.rows text p.removed p.gone k i _ is_kind long small);
        own_mappings = λ k i is_kind long small.
            Db.get-commit odb.db st.rows rows ws (source_mapping_key id i k) e
            ∙ in_parts st.rows text records ws p (source_mapping id i k) _ (sized, long)
                (λ kind x. ((λ q. cc), (λ q. cc)))
            ∙ put_records-mapping odb c t (is_id odb c t ids) st.rows id p.pending records p.added
                id i k _ (sized, long) sized p.put
            ∙ ap (after_each (mapped c id id k i) records)
                (gone-own odb c t ids st.rows text p.removed p.gone i k _ is_kind long small);
        other_mappings = λ s i k is_record other.
            Db.get-commit odb.db st.rows rows ws (source_mapping_key s i k) e
            ∙ in_parts st.rows text records ws p (source_mapping s i k) _ is_record
                (λ kind x. ((λ q. cc), (λ q. cc)))
            ∙ put_records-mapping odb c t (is_id odb c t ids) st.rows id p.pending records p.added s
                i k _ is_record sized p.put
            ∙ mapped_other id s i k records _ other
            ∙ gone-other odb c t ids st.rows text p.removed p.gone s i k _ is_record other;
      }

  -- ReplaceSource, for a path with a key, takes away the expected records of the targets that the
  -- source had mappings to, and those mappings, and puts those of the given records in their place, the
  -- last one that describes a target; it changes no other expected record and no mapping of another
  -- source; or it fails and changes nothing.
  pub replace_source_lem :
      (st : Store odb.db) (source_path source_key : Bytes) (records : List SourceRecord)
      → c.cache_key source_path ≡ inr source_key
      → (((replace_source odb c t st source_path records).1 ≡ done tt)
          × Replaces st
              (replace_source odb c t st source_path records).0
              (c.path_id source_key)
              records)
        ⊎ ((e : StoreError) × (replace_source odb c t st source_path records ≡ (st, fails e)))
  unfolding replace_source
  replace_source_lem st source_path source_key records has_key =
      elim (committed-cases odb c t ids st (replacement odb c t st.rows source_path records)) [
        | inr refused ↦ inr refused
        | inl (ws, rows, made, e, whole) ↦
            let p = replacement-HasParts st.rows source_path source_key records ws has_key made in
            inl (
              ap (λ r. r.1) whole,
              subst (λ r. Replaces st r.0 (c.path_id source_key) records) (sym whole)
                  (parts-Replaces st rows source_key records ws p e),
            )
      ]

  -- The batch of a call that succeeded.
  pub record Batch (st st' : Store odb.db) (text : Bytes) (records : List SourceRecord)
      : Type 0 where
    pub writes : List Write
    pub parts : HasParts st.rows text records writes
    pub commits : Db.commit odb.db st.rows writes ≡ some st'.rows

  pub replace_source-Batch :
      (st st' : Store odb.db) (source_path source_key : Bytes) (records : List SourceRecord)
      → c.cache_key source_path ≡ inr source_key
      → replace_source odb c t st source_path records ≡ (st', done tt)
      → Batch st st' source_key records
  unfolding replace_source
  replace_source-Batch st st' source_path source_key records has_key h =
      elim (committed-cases odb c t ids st (replacement odb c t st.rows source_path records)) [
        | inr (e, refused) ↦
            absurd (let no : fails e ≡ done tt = ap (λ r. r.1) (sym refused ∙ h) in cc)
        | inl (ws, rows, made, e, whole) ↦ record {
          writes = ws;
          parts = replacement-HasParts st.rows source_path source_key records ws has_key made;
          commits = e ∙ ap (λ r. some (Store.rows r.0)) (sym whole ∙ h);
        }
      ]
