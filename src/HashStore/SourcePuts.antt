-- ===== src/HashStore/SourcePuts.antt =====
-- What the records of a source put into a batch does to the rows of expected records and of mappings.
use apk_cache.Prelude.{
  ◌≡◌, ◌≢◌, refl, sym, ap, ◌∙◌, inl, inr, ℕ, Bool, false, ◌&&◌, List, [], ◌∷◌, ◌++◌, Bytes,
  bytes_eq, length, ◌==◌, if◌then◌else◌,
}
use apk_cache.HashStore.Kinds.{HashKind}
use apk_cache.HashStore.Values.{encode_expected, encode_source}
use apk_cache.HashStore.Keys.{expected_key, source_mapping_key}
use apk_cache.HashStore.KeyLaws.{
  Record, expected, expected_by_hash, apt_by_hash, source_mapping, dict_by_id, dict_by_value,
  IsRecord, IsKind, key_of,
}
use apk_cache.HashStore.Actuals.{Found, found, Write, written, Db, done, Config}
use apk_cache.HashStore.Ordered.{OrderedDb}
use apk_cache.HashStore.Sources.{
  Texts, SourceRecord, Pending, dict_kind_host, dict_kind_cache_path, put_record, put_records,
  normalize_host,
}
use apk_cache.HashStore.Writes.{written-append, apart, same_expected, same_mapping}
use apk_cache.HashStore.SourceRows.{Misses, entry-Misses, IsId}
use apk_cache.HashStore.SourceParts.{IsPut, put_record-IsPut, >>=-eq-done, IsHosted}

-- Whether a record describes this target with this kind of hash.
abbrev pub describes : Config → HashKind → Bytes → SourceRecord → Bool
describes c kind id r =
    r.hash_kind == kind
    && elim (c.cache_key r.target_path) [ inl e ↦ false | inr key ↦ bytes_eq (c.path_id key) id ]

-- What a key has after the records of a source, from what each of them does to it.
abbrev pub after_each : (SourceRecord → Found → Found) → List SourceRecord → Found → Found
after_each effect [] old = old
after_each effect (r ∷ records) old = after_each effect records (effect r old)

-- A record replaces the expected record of its target, and the mapping of its source to its target.
abbrev pub expect : Config → Bytes → HashKind → Bytes → SourceRecord → Found → Found
expect c source_id kind id r old =
    if describes c kind id r then found (encode_expected r.value source_id r.encoded_at) else old

abbrev pub mapped : Config → Bytes → Bytes → HashKind → Bytes → SourceRecord → Found → Found
mapped c source_id other kind id r old =
    if bytes_eq source_id other && describes c kind id r then found (encode_source r.value) else old

module _ (odb : OrderedDb) (c : Config) (t : Texts) (is_id : IsId c.path_id) where
  hosted-Misses :
      (R : Record) (r : SourceRecord) (target_id : Bytes) (ws : List Write)
      → IsRecord R
      → IsKind r.hash_kind
      → ((kind : ℕ) (x : Bytes) → (R ≢ dict_by_id kind x) × (R ≢ dict_by_value kind x))
      → ((k : HashKind) (h x : Bytes) → R ≢ apt_by_hash k h x)
      → IsHosted odb c t r target_id ws
      → Misses (key_of R) ws
  unfolding written
  hosted-Misses R r target_id ws is_record is_kind no_dict no_apt (inl e) old = rw e refl
  hosted-Misses R r target_id ws is_record is_kind no_dict no_apt (inr (dict, entry, e)) old =
      let host = normalize_host t r.by_hash_host in
      let first =
        entry-Misses R dict_kind_host host (c.path_id host) dict is_record
          (no_dict dict_kind_host (c.path_id host)).0 (no_dict dict_kind_host host).1 entry in
      let second =
        apart (apt_by_hash r.hash_kind (c.path_id host) r.value.expected_hash) R
          (is_kind, is_id host) is_record (λ q. no_apt _ _ _ (sym q)) in
      ap (λ (w : List Write). written w (key_of R) old) e
      ∙ written-append dict _ (key_of R) old
      ∙ rw (first, second) refl

  put_record-expected :
      (rows : Db.State odb.db) (source_id : Bytes) (before after : Pending) (r : SourceRecord)
      (ws : List Write) (k : HashKind) (i : Bytes) (old : Found)
      → IsKind k
      → length source_id ≡ 16
      → IsPut odb c t rows source_id before after r ws
      → written ws (expected_key k i) old ≡ expect c source_id k i r old
  unfolding written
  put_record-expected rows source_id before after r ws k i old is_kind sized p =
      let R = expected k i in
      let id = c.path_id p.target_key in
      let first =
        entry-Misses R dict_kind_cache_path p.target_key id p.dict is_kind (λ e. cc) (λ e. cc)
          p.is_entry in
      let own = same_expected r.hash_kind k id i p.is_kind is_kind in
      let second =
        apart (expected_by_hash r.hash_kind r.value.expected_hash id) R (p.is_kind, p.is_digest)
          is_kind (λ e. cc) in
      let third =
        apart (source_mapping source_id id r.hash_kind) R (sized, is_id p.target_key) is_kind
          (λ e. cc) in
      let last =
        hosted-Misses R r id p.by_host is_kind p.is_kind (λ k x. ((λ e. cc), (λ e. cc)))
          (λ k h x e. cc) p.hosted in
      ap (λ (w : List Write). written w (expected_key k i) old) p.are_writes
      ∙ written-append p.dict _ (expected_key k i) old
      ∙ rw (first, last, third, second, own, p.has_key) refl

  put_record-mapping :
      (rows : Db.State odb.db) (source_id : Bytes) (before after : Pending) (r : SourceRecord)
      (ws : List Write) (s i : Bytes) (k : HashKind) (old : Found)
      → IsRecord (source_mapping s i k)
      → length source_id ≡ 16
      → IsPut odb c t rows source_id before after r ws
      → written ws (source_mapping_key s i k) old ≡ mapped c source_id s k i r old
  unfolding written
  put_record-mapping rows source_id before after r ws s i k old is_record sized p =
      let R = source_mapping s i k in
      let id = c.path_id p.target_key in
      let first =
        entry-Misses R dict_kind_cache_path p.target_key id p.dict is_record (λ e. cc) (λ e. cc)
          p.is_entry in
      let second = apart (expected r.hash_kind id) R p.is_kind is_record (λ e. cc) in
      let third =
        apart (expected_by_hash r.hash_kind r.value.expected_hash id) R (p.is_kind, p.is_digest)
          is_record (λ e. cc) in
      let own = same_mapping source_id s id i r.hash_kind k (sized, is_id p.target_key) is_record in
      let last =
        hosted-Misses R r id p.by_host is_record p.is_kind (λ k x. ((λ e. cc), (λ e. cc)))
          (λ k h x e. cc) p.hosted in
      ap (λ (w : List Write). written w (source_mapping_key s i k) old) p.are_writes
      ∙ written-append p.dict _ (source_mapping_key s i k) old
      ∙ rw (first, last, own, third, second, p.has_key) refl

  -- All records, for a key on which a record has this effect.
  put_records-after_each :
      (rows : Db.State odb.db) (source_id K : Bytes) (effect : SourceRecord → Found → Found)
      → ((before after : Pending) (r : SourceRecord) (ws : List Write) (old : Found)
          → IsPut odb c t rows source_id before after r ws
          → written ws K old ≡ effect r old)
      → (pending : Pending) (records : List SourceRecord) (ws : List Write) (old : Found)
      → put_records odb c t rows source_id pending records ≡ done ws
      → written ws K old ≡ after_each effect records old
  unfolding put_records written
  put_records-after_each rows source_id K effect each pending [] ws old h =
      let same : [] ≡ ws = cc in ap (λ (w : List Write). written w K old) (sym same)
  put_records-after_each rows source_id K effect each pending (r ∷ records) ws old h =
      let ((after, first), d, h₁) =
        >>=-eq-done (put_record odb c t rows source_id pending r) _ ws h in
      let (more, e, h₂) = >>=-eq-done (put_records odb c t rows source_id after records) _ ws h₁ in
      let one =
        each pending after r first old
          (put_record-IsPut odb c t rows source_id pending after r first d) in
      let rest =
        put_records-after_each rows source_id K effect each after records more (written first K old)
          e in
      let whole : first ++ more ≡ ws = cc in
      ap (λ (w : List Write). written w K old) (sym whole)
      ∙ written-append first more K old
      ∙ rest
      ∙ ap (after_each effect records) one

  pub put_records-expected :
      (rows : Db.State odb.db) (source_id : Bytes) (pending : Pending) (records : List SourceRecord)
      (ws : List Write) (k : HashKind) (i : Bytes) (old : Found)
      → IsKind k
      → length source_id ≡ 16
      → put_records odb c t rows source_id pending records ≡ done ws
      → written ws (expected_key k i) old ≡ after_each (expect c source_id k i) records old
  put_records-expected rows source_id pending records ws k i old is_kind sized h =
      put_records-after_each rows source_id (expected_key k i) (expect c source_id k i)
        (λ before after r w o p.
          put_record-expected rows source_id before after r w k i o is_kind sized p)
        pending records ws old h

  pub put_records-mapping :
      (rows : Db.State odb.db) (source_id : Bytes) (pending : Pending) (records : List SourceRecord)
      (ws : List Write) (s i : Bytes) (k : HashKind) (old : Found)
      → IsRecord (source_mapping s i k)
      → length source_id ≡ 16
      → put_records odb c t rows source_id pending records ≡ done ws
      → written ws (source_mapping_key s i k) old
        ≡ after_each (mapped c source_id s k i) records old
  put_records-mapping rows source_id pending records ws s i k old is_record sized h =
      put_records-after_each rows source_id (source_mapping_key s i k) (mapped c source_id s k i)
        (λ before after r w o p.
          put_record-mapping rows source_id before after r w s i k o is_record sized p)
        pending records ws old h
