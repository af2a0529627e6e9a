-- ===== src/HashStore/SourceRows.antt =====
-- What the batches of ReplaceSource and DeleteSource leave in the rows of expected records and of the
-- source's mappings.
use apk_cache.Prelude.{
  ◌≡◌, ◌≢◌, refl, sym, ap, ◌∙◌, inl, inr, ℕ, Bool, false, not, ◌&&◌, ◌||◌, Option, none, some, List,
  [], ◌∷◌, ◌++◌, ◌+◌, Bytes, bytes_eq, length, ◌==◌, Bool-cases, arith, if◌then◌else◌,
}
use apk_cache.HashStore.Kinds.{HashKind, digest_len, Result, ok, err, corrupted_value}
use apk_cache.HashStore.Values.{decode_source}
use apk_cache.HashStore.Keys.{
  expected_key, expected_by_hash_key, source_mapping_key, decode_source_mapping_key,
}
use apk_cache.HashStore.KeyLaws.{
  Record, expected, expected_by_hash, apt_by_hash, source_mapping, dict_by_id, dict_by_value,
  IsRecord, IsKind, key_of,
}
use apk_cache.HashStore.Actuals.{Found, not_found, Write, remove, written, done}
use apk_cache.HashStore.Ordered.{Rows}
use apk_cache.HashStore.Sources.{delete_row, delete_rows, host_row}
use apk_cache.HashStore.Mappings.{decode-IsMapping}
use apk_cache.HashStore.Writes.{written-append, apart, same_expected}
use apk_cache.HashStore.SourceParts.{AreEntry, IsDeleted, delete_row-IsDeleted, >>=-eq-done}

-- The writes leave this key as it was.
abbrev pub Misses : Bytes → List Write → Type 0
Misses key writes = (old : Found) → written writes key old ≡ old

pub entry-Misses :
    (r : Record) (kind : ℕ) (value id : Bytes) (writes : List Write)
    → IsRecord r
    → r ≢ dict_by_id kind id
    → r ≢ dict_by_value kind value
    → AreEntry kind value id writes
    → Misses (key_of r) writes
unfolding written
entry-Misses r kind value id writes h a b (inl e) old = rw e refl
entry-Misses r kind value id writes h a b (inr e) old =
    let first = apart (dict_by_id kind id) r tt h (λ q. a (sym q)) in
    let second = apart (dict_by_value kind value) r tt h (λ q. b (sym q)) in
    rw e (ground (arith, first, second))

-- An id has the 16 bytes of the source's array.
abbrev pub IsId : (Bytes → Bytes) → Type 0
IsId path_id = (text : Bytes) → length (path_id text) ≡ 16

module _ (path_id : Bytes → Bytes) (is_id : IsId path_id) where
  pub host_row-Misses :
      (r : Record) (host : Option Bytes) (kind : HashKind) (hash : Bytes)
      → IsRecord r
      → IsKind kind
      → ((id : Bytes) → r ≢ apt_by_hash kind id hash)
      → Misses (key_of r) (host_row path_id host kind hash)
  unfolding host_row written
  host_row-Misses r none kind hash h is_kind other old = refl
  host_row-Misses r (some host) kind hash h is_kind other old =
      rw
        (apart (apt_by_hash kind (path_id host) hash) r (is_kind, is_id host) h
          (λ q. other (path_id host) (sym q)))
        refl

-- Whether a row of the iterator maps the source to this target with this kind of hash.
abbrev pub maps_to : HashKind → Bytes → Result (Bytes × HashKind) → Bool
maps_to kind id (ok (target_id, k)) = k == kind && bytes_eq target_id id
maps_to kind id (err e) = false

abbrev pub any_row : (Bytes → Bool) → Rows → Bool
any_row test [] = false
any_row test ((key, value) ∷ rows) = test key || any_row test rows

pub decode_source-eq-ok :
    (value : Bytes) (kind : HashKind) (t : ℕ) (hash : Bytes)
    → decode_source value kind ≡ ok (t, hash)
    → length hash ≡ digest_len kind
unfolding decode_source
decode_source-eq-ok [] kind t hash h =
    absurd (let no : err corrupted_value ≡ ok (t, hash) = h in cc)
decode_source-eq-ok (u ∷ rest) kind t hash h =
    elim (Bool-cases (not (length (u ∷ rest) == 1 + digest_len kind))) [
      | inl e ↦
          absurd (let no : err corrupted_value ≡ ok (t, hash) = rw (e, decode_source) at h in cc)
      | inr e ↦
          let both : ◌≡◌ {A = Result (ℕ × Bytes)} (ok (u, rest)) (ok (t, hash)) =
            rw (e, decode_source) at h in
          let same : rest ≡ hash = cc in
          let long : length rest ≡ digest_len kind = ground (arith, e) in
          ap length (sym same) ∙ long
    ]

module _ (path_id : Bytes → Bytes) (is_id : IsId path_id) (host : Option Bytes) where
  pub delete_row-expected :
      (key value : Bytes) (ws : List Write) (k : HashKind) (i : Bytes) (old : Found)
      → IsKind k
      → IsDeleted path_id host key value ws
      → written ws (expected_key k i) old
        ≡ (if maps_to k i (decode_source_mapping_key key) then not_found else old)
  unfolding written
  delete_row-expected key value ws k i old is_kind d =
      let m = decode-IsMapping key d.target_id d.kind d.key_decoded in
      let long = decode_source-eq-ok value d.kind d.record_type d.hash d.value_decoded in
      let first = same_expected d.kind k d.target_id i m.is_kind is_kind in
      let second =
        apart (expected_by_hash d.kind d.hash d.target_id) (expected k i) (m.is_kind, long) is_kind
          (λ e. cc) in
      let third =
        host_row-Misses path_id is_id (expected k i) host d.kind d.hash is_kind m.is_kind
          (λ id e. cc) in
      let last =
        apart (source_mapping m.source_id d.target_id d.kind) (expected k i)
          (m.source_length, m.target_length) is_kind (λ e. cc) in
      let by_host = host_row path_id host d.kind d.hash in
      let front =
        remove (expected_key d.kind d.target_id)
        ∷ remove (expected_by_hash_key d.kind d.hash d.target_id)
        ∷ by_host in
      ap (λ (w : List Write). written w (expected_key k i) old) d.are_writes
      ∙ written-append front (remove key ∷ []) (expected_key k i) old
      ∙ rw (third, d.key_decoded, m.is_key, last, first, second) refl

  pub delete_row-mapping :
      (key value : Bytes) (ws : List Write) (s i : Bytes) (k : HashKind) (old : Found)
      → IsRecord (source_mapping s i k)
      → IsDeleted path_id host key value ws
      → written ws (source_mapping_key s i k) old
        ≡ (if bytes_eq key (source_mapping_key s i k) then not_found else old)
  unfolding written
  delete_row-mapping key value ws s i k old is_record d =
      let m = decode-IsMapping key d.target_id d.kind d.key_decoded in
      let long = decode_source-eq-ok value d.kind d.record_type d.hash d.value_decoded in
      let first =
        apart (expected d.kind d.target_id) (source_mapping s i k) m.is_kind is_record (λ e. cc) in
      let second =
        apart (expected_by_hash d.kind d.hash d.target_id) (source_mapping s i k) (m.is_kind, long)
          is_record (λ e. cc) in
      let third =
        host_row-Misses path_id is_id (source_mapping s i k) host d.kind d.hash is_record m.is_kind
          (λ id e. cc) in
      let by_host = host_row path_id host d.kind d.hash in
      let front =
        remove (expected_key d.kind d.target_id)
        ∷ remove (expected_by_hash_key d.kind d.hash d.target_id)
        ∷ by_host in
      ap (λ (w : List Write). written w (source_mapping_key s i k) old) d.are_writes
      ∙ written-append front (remove key ∷ []) (source_mapping_key s i k) old
      ∙ rw (third, first, second) refl

  -- All rows of the iterator, for a key on which the deletion of a row has this effect.
  pub delete_rows-any :
      (K : Bytes) (test : Bytes → Bool)
      → ((key value : Bytes) (ws : List Write) (old : Found)
          → IsDeleted path_id host key value ws
          → written ws K old ≡ (if test key then not_found else old))
      → (rows : Rows) (ws : List Write) (old : Found) → delete_rows path_id host rows ≡ done ws
      → written ws K old ≡ (if any_row test rows then not_found else old)
  unfolding delete_rows written
  delete_rows-any K test each [] ws old h =
      let same : [] ≡ ws = cc in ap (λ (w : List Write). written w K old) (sym same)
  delete_rows-any K test each ((key, value) ∷ rows) ws old h =
      let (first, d, h₁) = >>=-eq-done (delete_row path_id host (key, value)) _ ws h in
      let (more, e, h₂) = >>=-eq-done (delete_rows path_id host rows) _ ws h₁ in
      let one = each key value first old (delete_row-IsDeleted path_id host key value first d) in
      let rest = delete_rows-any K test each rows more (written first K old) e in
      let whole : first ++ more ≡ ws = cc in
      ap (λ (w : List Write). written w K old) (sym whole)
      ∙ written-append first more K old
      ∙ rest
      ∙ rw one (ground arith)
