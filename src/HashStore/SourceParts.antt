-- ===== src/HashStore/SourceParts.antt =====
-- What the parts of ReplaceSource and DeleteSource put into a batch, when they succeed.
use apk_cache.Prelude.{
  ◌≡◌, ◌⊎◌, refl, ap, ◌∙◌, inl, inr, ℕ, Option, List, [], ◌∷◌, ◌++◌, Bytes, bytes_eq, length, ◌==◌,
  Bool-cases, ⊎-cases, arith,
}
use apk_cache.HashStore.Kinds.{HashKind, digest_len, validate_hash, Result, ok, err}
use apk_cache.HashStore.Values.{encode_expected, encode_source, decode_source}
use apk_cache.HashStore.Keys.{
  expected_key, expected_by_hash_key, apt_by_hash_key, source_mapping_key, dict_by_id_key,
  dict_by_value_key, decode_source_mapping_key,
}
use apk_cache.HashStore.KeyLaws.{IsKind}
use apk_cache.HashStore.Actuals.{Write, put, remove, Db, Outcome, done, fails, Config}
use apk_cache.HashStore.Ordered.{◌>>=◌, checked, OrderedDb}
use apk_cache.HashStore.Sources.{
  Texts, SourceRecord, Pending, dict_kind_cache_path, dict_kind_host, normalize_host, key_of_path,
  host_row, delete_row, ensure_dict, put_host, put_record,
}

-- A chain that succeeded had a first step that did.
pub >>=-eq-done :
    {A B : Type 0} (m : Outcome A) (f : A → Outcome B) (b : B)
    → (m >>= f) ≡ done b
    → (a : A) × (m ≡ done a) × (f a ≡ done b)
>>=-eq-done (done a) f b h = (a, refl, h)
>>=-eq-done (fails e) f b h = absurd (cc)

second_eq :
    {A B : Type 0} {a a' : A} {b b' : B}
    → ◌≡◌ {A = Outcome (A × B)} (done (a, b)) (done (a', b'))
    → b' ≡ b
second_eq h = cc

first_eq :
    {A B : Type 0} {a a' : A} {b b' : B}
    → ◌≡◌ {A = Outcome (A × B)} (done (a, b)) (done (a', b'))
    → a ≡ a'
first_eq h = cc

pub checked-eq-done : {A : Type 0} (r : Result A) (a : A) → checked r ≡ done a → r ≡ ok a
checked-eq-done (ok a) b h = cc
checked-eq-done (err e) b h = absurd (cc)

pub key_of_path-eq-done :
    (c : Config) (path key : Bytes) → key_of_path c path ≡ done key → c.cache_key path ≡ inr key
unfolding key_of_path
key_of_path-eq-done c path key h = elim (⊎-cases (c.cache_key path)) [
  | inl (e, p) ↦ absurd (let no : fails _ ≡ done key = rw (p, key_of_path) at h in cc)
  | inr (k, p) ↦ let same : done k ≡ done key = rw (p, key_of_path) at h in p ∙ ap inr (cc)
]

pub validate_hash-eq-ok :
    (kind : HashKind) (digest : Bytes)
    → validate_hash kind digest ≡ ok tt
    → IsKind kind × (length digest ≡ digest_len kind)
unfolding validate_hash digest_len
validate_hash-eq-ok kind digest h = elim (Bool-cases (kind == 1)) [
  | inl e ↦ (inl (ground (arith, e)), ground (arith, h, e))
  | inr other ↦ elim (Bool-cases (kind == 2)) [
    | inl e ↦ (inr (ground (arith, e)), ground (arith, h, e, other))
    | inr none_of ↦ absurd (ground (arith, h, other, none_of))
  ]
]

-- What a row that is deleted was decoded to, and what its deletion writes.
pub record IsDeleted (path_id : Bytes → Bytes) (apt_host : Option Bytes) (key value : Bytes)
    (writes : List Write) : Type 0 where
  pub target_id : Bytes
  pub kind : HashKind
  pub record_type : ℕ
  pub hash : Bytes
  pub key_decoded : decode_source_mapping_key key ≡ ok (target_id, kind)
  pub value_decoded : decode_source value kind ≡ ok (record_type, hash)
  pub are_writes :
      writes
      ≡ remove (expected_key kind target_id)
          ∷ remove (expected_by_hash_key kind hash target_id)
          ∷ host_row path_id apt_host kind hash
        ++ remove key ∷ []

pub delete_row-IsDeleted :
    (path_id : Bytes → Bytes) (apt_host : Option Bytes) (key value : Bytes) (writes : List Write)
    → delete_row path_id apt_host (key, value) ≡ done writes
    → IsDeleted path_id apt_host key value writes
unfolding delete_row
delete_row-IsDeleted path_id apt_host key value writes h =
    let ((target_id, kind), k, h') =
      >>=-eq-done (checked (decode_source_mapping_key key)) _ writes h in
    let ((record_type, hash), v, h'') =
      >>=-eq-done (checked (decode_source value kind)) _ writes h' in
    record {
      target_id = target_id;
      kind = kind;
      record_type = record_type;
      hash = hash;
      key_decoded = checked-eq-done _ _ k;
      value_decoded = checked-eq-done _ _ v;
      are_writes = cc;
    }

-- The writes of a new entry of the dictionary, or none where the batch has it already.
abbrev pub AreEntry : ℕ → Bytes → Bytes → List Write → Type 0
AreEntry kind value id writes =
    (writes ≡ [])
    ⊎ (writes ≡ put (dict_by_id_key kind id) value ∷ put (dict_by_value_key kind value) id ∷ [])

module _ (odb : OrderedDb) (c : Config) (t : Texts) where
  pub ensure_dict-AreEntry :
      (rows : Db.State odb.db) (pending after : Pending) (kind : ℕ) (value id : Bytes)
      (writes : List Write)
      → ensure_dict odb c t rows pending kind value id ≡ done (after, writes)
      → AreEntry kind value id writes
  unfolding ensure_dict
  ensure_dict-AreEntry rows pending after kind value id writes h = ground (arith, h)

  -- The row of a record's host, if it has one, after a new entry of the dictionary.
  abbrev pub IsHosted : SourceRecord → Bytes → List Write → Type 0
  IsHosted r target_id writes =
      (writes ≡ [])
      ⊎ ((dict : List Write) × AreEntry dict_kind_host (normalize_host t r.by_hash_host)
            (c.path_id (normalize_host t r.by_hash_host)) dict
          × (writes
              ≡ dict
                ++ put
                    (apt_by_hash_key r.hash_kind (c.path_id (normalize_host t r.by_hash_host))
                      r.value.expected_hash)
                    target_id
                  ∷ []))

  -- What putting a record into the batch wrote, and which checks it had passed.
  pub record IsPut (rows : Db.State odb.db) (source_id : Bytes) (pending after : Pending)
      (r : SourceRecord) (writes : List Write) : Type 0 where
    pub target_key : Bytes
    pub has_key : c.cache_key r.target_path ≡ inr target_key
    pub is_kind : IsKind r.hash_kind
    pub is_digest : length r.value.expected_hash ≡ digest_len r.hash_kind
    pub dict : List Write
    pub is_entry : AreEntry dict_kind_cache_path target_key (c.path_id target_key) dict
    pub middle : Pending
    pub entered :
        ensure_dict odb c t rows pending dict_kind_cache_path target_key (c.path_id target_key)
        ≡ done (middle, dict)
    pub by_host : List Write
    pub put_by_host : put_host odb c t rows middle r (c.path_id target_key) ≡ done (after, by_host)
    pub hosted : IsHosted r (c.path_id target_key) by_host
    pub are_writes :
        writes
        ≡ dict
          ++ put
              (expected_key r.hash_kind (c.path_id target_key))
              (encode_expected r.value source_id r.encoded_at)
            ∷ put
                (expected_by_hash_key r.hash_kind r.value.expected_hash (c.path_id target_key))
                (r.value.record_type ∷ [])
            ∷ put
                (source_mapping_key source_id (c.path_id target_key) r.hash_kind)
                (encode_source r.value)
            ∷ by_host

  pub put_host-IsHosted :
      (rows : Db.State odb.db) (pending after : Pending) (r : SourceRecord) (target_id : Bytes)
      (writes : List Write)
      → put_host odb c t rows pending r target_id ≡ done (after, writes)
      → IsHosted r target_id writes
  unfolding put_host
  put_host-IsHosted rows pending after r target_id writes h =
      elim (Bool-cases (bytes_eq r.by_hash_host [])) [
        | inl e ↦ ground (arith, h, e)
        | inr e ↦
            let host = normalize_host t r.by_hash_host in
            let ((p, dict), d, h') =
              >>=-eq-done (ensure_dict odb c t rows pending dict_kind_host host (c.path_id host)) _
                (after, writes) (rw (e, put_host) at h) in
            inr (
              dict,
              ensure_dict-AreEntry rows pending p dict_kind_host host (c.path_id host) dict d,
              cc,
            )
      ]

  pub put_record-IsPut :
      (rows : Db.State odb.db) (source_id : Bytes) (pending after : Pending) (r : SourceRecord)
      (writes : List Write)
      → put_record odb c t rows source_id pending r ≡ done (after, writes)
      → IsPut rows source_id pending after r writes
  unfolding put_record
  put_record-IsPut rows source_id pending after r writes h = elim (Bool-cases (r.hash_kind == 0)) [
    | inl e ↦ absurd (let no : fails _ ≡ done (after, writes) = rw (e, put_record) at h in cc)
    | inr e ↦
        let (u, v, h₁) =
          >>=-eq-done (checked (validate_hash r.hash_kind r.value.expected_hash)) _ (after, writes)
            (rw (e, put_record) at h) in
        let (target_key, k, h₂) = >>=-eq-done (key_of_path c r.target_path) _ (after, writes) h₁ in
        let target_id = c.path_id target_key in
        let ((p, dict), d, h₃) =
          >>=-eq-done (ensure_dict odb c t rows pending dict_kind_cache_path target_key target_id) _
            (after, writes) h₂ in
        let ((q, by_host), g, h₄) =
          >>=-eq-done (put_host odb c t rows p r target_id) _ (after, writes) h₃ in
        let valid = validate_hash-eq-ok r.hash_kind r.value.expected_hash (checked-eq-done _ _ v) in
        record {
          target_key = target_key;
          has_key = key_of_path-eq-done c r.target_path target_key k;
          is_kind = valid.0;
          is_digest = valid.1;
          dict = dict;
          is_entry =
              ensure_dict-AreEntry rows pending p dict_kind_cache_path target_key target_id dict d;
          middle = p;
          entered = d;
          by_host = by_host;
          put_by_host = g ∙ ap (λ (x : Pending). done (x, by_host)) (first_eq h₄);
          hosted = put_host-IsHosted rows p q r target_id by_host g;
          are_writes = second_eq h₄;
        }
  ]
