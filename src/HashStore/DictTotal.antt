-- ===== src/HashStore/DictTotal.antt =====
-- What ReplaceSource leaves in the dictionary of ids.
use mathlib.Core.Path.{subst}
use apk_cache.Prelude.{
  ◌≡◌, refl, sym, ap, ◌∙◌, inr, ℕ, Bool, false, Option, some, List, [], ◌∷◌, ◌++◌, Bytes, length,
  All, All-map, if◌then◌else◌,
}
use apk_cache.HashStore.Kinds.{digest_len}
use apk_cache.HashStore.Keys.{dict_by_id_key, expected_key, expected_by_hash_key}
use apk_cache.HashStore.KeyLaws.{expected, expected_by_hash, source_mapping, dict_by_id}
use apk_cache.HashStore.Actuals.{Found, found, not_found, Write, remove, written, Db, done, Config}
use apk_cache.HashStore.Ordered.{Rows, OrderedDb}
use apk_cache.HashStore.Sources.{
  Texts, SourceRecord, dict_kind_cache_path, find_pending, host_row, source_host, delete_rows,
}
use apk_cache.HashStore.Writes.{written-append, apart}
use apk_cache.HashStore.Mappings.{decode-IsMapping}
use apk_cache.HashStore.SourceParts.{IsDeleted}
use apk_cache.HashStore.SourceRows.{
  IsId, host_row-Misses, decode_source-eq-ok, any_row, delete_rows-any,
}
use apk_cache.HashStore.SourceGone.{GivesIds, is_id}
use apk_cache.HashStore.ReplaceLaws.{HasParts}
use apk_cache.HashStore.DictLaws.{Holds, ensure_dict-Entry, Entry-find}
use apk_cache.HashStore.DictRounds.{
  Advances, Entry-Advances, Advances-append, misses-Advances, put_records-Advances,
}

no_row : (rows : Rows) → any_row (λ key. false) rows ≡ false
no_row [] = refl
no_row ((k, v) ∷ rows) = no_row rows

module _ (path_id : Bytes → Bytes) (ids : IsId path_id) (host : Option Bytes) where
  delete_row-dict :
      (k : ℕ) (i key value : Bytes) (ws : List Write) (old : Found)
      → IsDeleted path_id host key value ws
      → written ws (dict_by_id_key k i) old ≡ old
  unfolding written
  delete_row-dict k i key value ws old d =
      let m = decode-IsMapping key d.target_id d.kind d.key_decoded in
      let long = decode_source-eq-ok value d.kind d.record_type d.hash d.value_decoded in
      let R = dict_by_id k i in
      let first = apart (expected d.kind d.target_id) R m.is_kind tt (λ e. cc) in
      let second =
        apart (expected_by_hash d.kind d.hash d.target_id) R (m.is_kind, long) tt (λ e. cc) in
      let third = host_row-Misses path_id ids R host d.kind d.hash tt m.is_kind (λ id e. cc) in
      let last =
        apart (source_mapping m.source_id d.target_id d.kind) R (m.source_length, m.target_length)
          tt (λ e. cc) in
      let front =
        remove (expected_key d.kind d.target_id)
        ∷ remove (expected_by_hash_key d.kind d.hash d.target_id)
        ∷ host_row path_id host d.kind d.hash in
      ap (λ (w : List Write). written w (dict_by_id_key k i) old) d.are_writes
      ∙ written-append front (remove key ∷ []) (dict_by_id_key k i) old
      ∙ rw (third, m.is_key, last, first, second) refl

  delete_rows-dict :
      (k : ℕ) (i : Bytes) (rows : Rows) (ws : List Write) (old : Found)
      → delete_rows path_id host rows ≡ done ws
      → written ws (dict_by_id_key k i) old ≡ old
  delete_rows-dict k i rows ws old h =
      delete_rows-any path_id ids host (dict_by_id_key k i) (λ key. false)
        (λ key value w o d. delete_row-dict k i key value w o d) rows ws old h
      ∙ ap (λ (b : Bool). if b then not_found else old) (no_row rows)

module _ (odb : OrderedDb) (c : Config) (t : Texts) (ids : GivesIds c) where
  -- What the dictionary is after a batch: it has the source and the targets of the records, and an id
  -- that it had keeps its text.
  pub record Enters (before after : Db.State odb.db) (source_key : Bytes)
      (records : List SourceRecord) : Type 0 where
    pub source :
        Db.get odb.db after (dict_by_id_key dict_kind_cache_path (c.path_id source_key))
        ≡ found source_key
    pub targets :
        All
          (λ r.
            (key : Bytes) × (c.cache_key r.target_path ≡ inr key)
            × (Db.get odb.db after (dict_by_id_key dict_kind_cache_path (c.path_id key))
                ≡ found key)
            × (length r.value.expected_hash ≡ digest_len r.hash_kind))
          records
    pub keeps :
        (k : ℕ) (i v : Bytes)
        → Db.get odb.db before (dict_by_id_key k i) ≡ found v
        → Db.get odb.db after (dict_by_id_key k i) ≡ found v

  pub parts-Enters :
      (before after : Db.State odb.db) (text : Bytes) (records : List SourceRecord)
      (ws : List Write)
      → HasParts odb c t ids before text records ws
      → Db.commit odb.db before ws ≡ some after
      → Enters before after text records
  parts-Enters before after text records ws p e =
      let id = c.path_id text in
      let entry =
        ensure_dict-Entry odb c t before [] p.pending dict_kind_cache_path text id p.dict
          p.entered in
      let first =
        Entry-Advances odb c t before [] p.pending dict_kind_cache_path text id p.dict entry in
      let (final, rest, entered) =
        put_records-Advances odb c t before (is_id odb c t ids) id p.pending records p.added
          (ids text).0 p.put in
      let second : Advances odb c t before p.pending p.pending p.removed =
        misses-Advances odb c t before p.pending p.removed (λ k i old.
          delete_rows-dict c.path_id (is_id odb c t ids) (source_host odb c t before id) k i
            p.gone.rows_found p.removed old p.gone.deleted) in
      let all : Advances odb c t before [] final ws =
        subst (Advances odb c t before [] final) (sym p.are_writes) (
          Advances-append odb c t before [] p.pending final (p.dict ++ p.removed) p.added
            (Advances-append odb c t before [] p.pending p.pending p.dict p.removed first second)
            rest) in
      let has : Holds final (λ key old. written ws key old) =
        all.holds (λ key old. old) (λ k i v old f. absurd (unfold find_pending in cc)) in
      let read : (i v : Bytes)
          → find_pending (dict_kind_cache_path ∷ i) final ≡ some v
          → Db.get odb.db after (dict_by_id_key dict_kind_cache_path i) ≡ found v =
        λ i v f.
          Db.get-commit odb.db before after ws (dict_by_id_key dict_kind_cache_path i) e
          ∙ has dict_kind_cache_path i v _ f in
      record {
        source =
            read id text
              (rest.extends _ _ (Entry-find odb c t before [] dict_kind_cache_path text id entry));
        targets = All-map (λ r h. (h.0, h.1, read (c.path_id h.0) h.0 h.2, h.3)) records entered;
        keeps = λ k i v g.
            Db.get-commit odb.db before after ws (dict_by_id_key k i) e
            ∙ ap (written ws (dict_by_id_key k i)) g
            ∙ all.keeps k i v g;
      }
