-- ===== src/HashStore/DictRounds.antt =====
-- The dictionary through a whole batch of ReplaceSource.
use mathlib.Core.Path.{subst}
use apk_cache.Prelude.{
  ◌≡◌, ◌≢◌, refl, sym, ap, ◌∙◌, inl, inr, ℕ, some, List, [], ◌∷◌, ◌++◌, Bytes, bytes_eq, length,
  Bool-cases, All,
}
use apk_cache.HashStore.Kinds.{digest_len}
use apk_cache.HashStore.Values.{encode_expected, encode_source}
use apk_cache.HashStore.Keys.{dict_by_id_key}
use apk_cache.HashStore.KeyLaws.{
  Record, expected, expected_by_hash, source_mapping, apt_by_hash, dict_by_id, IsRecord, IsKind,
  key_of,
}
use apk_cache.HashStore.Actuals.{Found, found, Write, put, written, Db, done, Config}
use apk_cache.HashStore.Ordered.{OrderedDb}
use apk_cache.HashStore.Sources.{
  Texts, SourceRecord, Pending, dict_kind_host, dict_kind_cache_path, normalize_host, find_pending,
  ensure_dict, put_host, put_record, put_records,
}
use apk_cache.HashStore.Writes.{written-append, apart}
use apk_cache.HashStore.SourceParts.{IsPut, put_record-IsPut, >>=-eq-done}
use apk_cache.HashStore.SourceRows.{IsId}
use apk_cache.HashStore.DictLaws.{
  Extends, Holds, Entry, ensure_dict-Entry, Entry-Extends, Entry-find, Entry-Holds, Entry-keeps,
  done_eq,
}

module _ (odb : OrderedDb) (c : Config) (t : Texts) (rows : Db.State odb.db) where
  -- What a part of a batch does to the dictionary and the map of pending ids.
  pub record Advances (pending after : Pending) (ws : List Write) : Type 0 where
    pub extends : Extends pending after
    pub holds :
        (change : Bytes → Found → Found)
        → Holds pending change
        → Holds after (λ key old. written ws key (change key old))
    pub keeps :
        (k : ℕ) (i v : Bytes)
        → Db.get odb.db rows (dict_by_id_key k i) ≡ found v
        → written ws (dict_by_id_key k i) (found v) ≡ found v

  pub Entry-Advances :
      (pending after : Pending) (kind : ℕ) (value id : Bytes) (ws : List Write)
      → Entry odb c t rows pending kind value id after ws
      → Advances pending after ws
  Entry-Advances pending after kind value id ws e = record {
    extends = Entry-Extends odb c t rows pending kind value id e;
    holds = λ change. Entry-Holds odb c t rows pending kind value id change e;
    keeps = Entry-keeps odb c t rows pending kind value id e;
  }

  -- One part after another.
  pub Advances-append :
      (p q r : Pending) (ws vs : List Write)
      → Advances p q ws
      → Advances q r vs
      → Advances p r (ws ++ vs)
  Advances-append p q r ws vs a b = record {
    extends = λ key v e. b.extends key v (a.extends key v e);
    holds = λ change h k i v old e.
        written-append ws vs (dict_by_id_key k i) (change (dict_by_id_key k i) old)
        ∙ b.holds (λ key o. written ws key (change key o)) (a.holds change h) k i v old e;
    keeps = λ k i v g.
        written-append ws vs (dict_by_id_key k i) (found v)
        ∙ ap (written vs (dict_by_id_key k i)) (a.keeps k i v g)
        ∙ b.keeps k i v g;
  }

  -- Writes that no row of the dictionary is among.
  pub misses-Advances :
      (p : Pending) (ws : List Write)
      → ((k : ℕ) (i : Bytes) (old : Found) → written ws (dict_by_id_key k i) old ≡ old)
      → Advances p p ws
  misses-Advances p ws misses = record {
    extends = λ key v e. e;
    holds = λ change h k i v old e. misses k i (change (dict_by_id_key k i) old) ∙ h k i v old e;
    keeps = λ k i v g. misses k i (found v);
  }

  put-Advances :
      (p : Pending) (R : Record) (value : Bytes)
      → IsRecord R
      → ((k : ℕ) (i : Bytes) → R ≢ dict_by_id k i)
      → Advances p p (put (key_of R) value ∷ [])
  unfolding written
  put-Advances p R value is_record other =
      misses-Advances p (put (key_of R) value ∷ [])
        (λ k i old. rw (apart R (dict_by_id k i) is_record tt (other k i)) refl)

  nothing-Advances : (p : Pending) → Advances p p []
  unfolding written
  nothing-Advances p = misses-Advances p [] (λ k i old. refl)

  module _ (is_id : IsId c.path_id) where
    put_host-Advances :
        (pending after : Pending) (r : SourceRecord) (target_id : Bytes) (ws : List Write)
        → IsKind r.hash_kind
        → put_host odb c t rows pending r target_id ≡ done (after, ws)
        → Advances pending after ws
    unfolding put_host
    put_host-Advances pending after r target_id ws is_kind h =
        elim (Bool-cases (bytes_eq r.by_hash_host [])) [
          | inl e ↦
              subst (λ q. Advances pending q.0 q.1)
                (done_eq (pending, []) (after, ws) (rw (e, put_host) at h))
                (nothing-Advances pending)
          | inr e ↦
              let host = normalize_host t r.by_hash_host in
              let ((p, dict), d, h') =
                >>=-eq-done (ensure_dict odb c t rows pending dict_kind_host host (c.path_id host))
                  _ (after, ws) (rw (e, put_host) at h) in
              let entry = Entry-Advances pending p dict_kind_host host (c.path_id host) dict (
                ensure_dict-Entry odb c t rows pending p dict_kind_host host (c.path_id host) dict
                  d) in
              let row =
                put-Advances p (apt_by_hash r.hash_kind (c.path_id host) r.value.expected_hash)
                  target_id (is_kind, is_id host) (λ k i q. cc) in
              subst (λ q. Advances pending q.0 q.1) (done_eq _ (after, ws) h')
                (Advances-append pending p p dict _ entry row)
        ]

    put_record-Advances :
        (source_id : Bytes) (pending after : Pending) (r : SourceRecord) (ws : List Write)
        → length source_id ≡ 16
        → IsPut odb c t rows source_id pending after r ws
        → Advances pending after ws
    put_record-Advances source_id pending after r ws sized p =
        let id = c.path_id p.target_key in
        let q = p.middle in
        let entry = Entry-Advances pending q dict_kind_cache_path p.target_key id p.dict (
          ensure_dict-Entry odb c t rows pending q dict_kind_cache_path p.target_key id p.dict
            p.entered) in
        let first =
          put-Advances q (expected r.hash_kind id) (encode_expected r.value source_id r.encoded_at)
            p.is_kind (λ k i e. cc) in
        let second =
          put-Advances q (expected_by_hash r.hash_kind r.value.expected_hash id)
            (r.value.record_type ∷ []) (p.is_kind, p.is_digest) (λ k i e. cc) in
        let third =
          put-Advances q (source_mapping source_id id r.hash_kind) (encode_source r.value)
            (sized, is_id p.target_key) (λ k i e. cc) in
        let last = put_host-Advances q after r id p.by_host p.is_kind p.put_by_host in
        let rest =
          Advances-append q q after _ _ first
            (Advances-append q q after _ _ second (Advances-append q q after _ _ third last)) in
        subst (Advances pending after) (sym p.are_writes)
          (Advances-append pending q after p.dict _ entry rest)

    put_record-find :
        (source_id : Bytes) (pending after : Pending) (r : SourceRecord) (ws : List Write)
        → (p : IsPut odb c t rows source_id pending after r ws)
        → find_pending (dict_kind_cache_path ∷ c.path_id p.target_key) after ≡ some p.target_key
    put_record-find source_id pending after r ws p =
        let id = c.path_id p.target_key in
        let entry =
          ensure_dict-Entry odb c t rows pending p.middle dict_kind_cache_path p.target_key id
            p.dict p.entered in
        (put_host-Advances p.middle after r id p.by_host p.is_kind p.put_by_host).extends _ _
          (Entry-find odb c t rows pending dict_kind_cache_path p.target_key id entry)

    -- The target of every record is in the map, and its hash has the length of its kind.
    abbrev pub AreEntered : List SourceRecord → Pending → Type 0
    AreEntered records pending =
        All
          (λ r.
            (key : Bytes) × (c.cache_key r.target_path ≡ inr key)
            × (find_pending (dict_kind_cache_path ∷ c.path_id key) pending ≡ some key)
            × (length r.value.expected_hash ≡ digest_len r.hash_kind))
          records

    -- All records, up to the map of pending ids at the end.
    pub put_records-Advances :
        (source_id : Bytes) (pending : Pending) (records : List SourceRecord) (ws : List Write)
        → length source_id ≡ 16
        → put_records odb c t rows source_id pending records ≡ done ws
        → (after : Pending) × Advances pending after ws × AreEntered records after
    unfolding put_records
    put_records-Advances source_id pending [] ws sized h =
        (pending, subst (Advances pending pending) (done_eq [] ws h) (nothing-Advances pending), tt)
    put_records-Advances source_id pending (r ∷ records) ws sized h =
        let ((middle, first), d, h₁) =
          >>=-eq-done (put_record odb c t rows source_id pending r) _ ws h in
        let (more, e, h₂) =
          >>=-eq-done (put_records odb c t rows source_id middle records) _ ws h₁ in
        let p = put_record-IsPut odb c t rows source_id pending middle r first d in
        let (after, rest, entered) = put_records-Advances source_id middle records more sized e in
        (
          after,
          subst (Advances pending after) (done_eq (first ++ more) ws h₂) (
              Advances-append pending middle after first more
                (put_record-Advances source_id pending middle r first sized p) rest),
          (
            (
              p.target_key,
              p.has_key,
              rest.extends _ _ (put_record-find source_id pending middle r first p),
              p.is_digest,
            ),
            entered,
          ),
        )
