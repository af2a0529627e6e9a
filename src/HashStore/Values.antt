-- ===== src/HashStore/Values.antt =====
-- hashstore.go, lines 83-111, 859-943 and 958-963: the values of the three kinds of record, to bytes and back.
-- The fields of Expected and Actual that a decoder leaves empty, and its callers fill from the key, are
-- not in these records. The time of encoding is the argument `now`.
use apk_cache.Prelude.{
  ℕ, suc, ◌+◌, not, Option, none, some, [], ◌∷◌, ◌++◌, Bytes, length, take, drop, ltb, ◌==◌,
  if◌then◌else◌,
}
use apk_cache.Prelude.Int.{ℤ}
use apk_cache.HashStore.Kinds.{HashKind, digest_len, corrupted_value, Result, ok, err}
use apk_cache.HashStore.Varint.{append_uvarint, uvarint, append_varint, varint, to_u64, to_i64}

-- What encodeExpectedValue reads of an ExpectedRecord.
pub record ExpectedRecord : Type 0 where
  pub record_type : ℕ
  pub expected_hash : Bytes
  pub expected_size : ℤ

-- decodedExpected
pub record DecodedExpected : Type 0 where
  pub record_type : ℕ
  pub expected_hash : Bytes
  pub expected_size : ℤ
  pub source_id : Bytes
  pub updated : ℤ

pub record Actual : Type 0 where
  pub hash_kind : HashKind
  pub size_bytes : ℤ
  pub mtime : ℤ
  pub actual_hash : Bytes
  pub computed : ℤ

unfoldable pub encode_expected : ExpectedRecord → Bytes → ℤ → Bytes
encode_expected r source_id now =
    append_varint
      (append_uvarint (r.record_type ∷ []) (to_u64 r.expected_size) ++ r.expected_hash ++ source_id)
      now

-- decodeExpectedValue from its second number on, and from its first number on.
unfoldable pub expected_end : ℕ → ℕ → Bytes → Bytes → Option (ℤ × Bytes) → Result DecodedExpected
expected_end t size hash source_id none = err corrupted_value
expected_end t size hash source_id (some (updated, rest)) = ok (record {
  record_type = t;
  expected_hash = hash;
  expected_size = to_i64 size;
  source_id = source_id;
  updated = updated;
})

unfoldable pub expected_body : HashKind → ℕ → Option (ℕ × Bytes) → Result DecodedExpected
unfolding expected_end
expected_body kind t none = err corrupted_value
expected_body kind t (some (size, rest)) =
    let len = digest_len kind in
    if ltb (length rest) (len + 16)
    then err corrupted_value
    else expected_end t size (take len rest) (take 16 (drop len rest))
        (varint (drop 16 (drop len rest)))

unfoldable pub decode_expected : Bytes → HashKind → Result DecodedExpected
unfolding expected_body
decode_expected [] kind = err corrupted_value
decode_expected (t ∷ rest) kind = expected_body kind t (uvarint rest)

unfoldable pub encode_actual : Actual → Bytes
encode_actual a =
    append_varint (append_varint (append_uvarint [] (to_u64 a.size_bytes)) a.mtime ++ a.actual_hash)
      a.computed

unfoldable pub actual_end : HashKind → ℕ → ℤ → Bytes → Option (ℤ × Bytes) → Result Actual
actual_end kind size mtime hash none = err corrupted_value
actual_end kind size mtime hash (some (computed, rest)) = ok (record {
  hash_kind = kind;
  size_bytes = to_i64 size;
  mtime = mtime;
  actual_hash = hash;
  computed = computed;
})

unfoldable pub actual_hash_of : HashKind → ℕ → Option (ℤ × Bytes) → Result Actual
unfolding actual_end
actual_hash_of kind size none = err corrupted_value
actual_hash_of kind size (some (mtime, rest)) =
    let len = digest_len kind in
    if ltb (length rest) len
    then err corrupted_value
    else actual_end kind size mtime (take len rest) (varint (drop len rest))

unfoldable pub actual_body : HashKind → Option (ℕ × Bytes) → Result Actual
unfolding actual_hash_of
actual_body kind none = err corrupted_value
actual_body kind (some (size, rest)) = actual_hash_of kind size (varint rest)

unfoldable pub decode_actual : Bytes → HashKind → Result Actual
unfolding actual_body
decode_actual value kind = actual_body kind (uvarint value)

unfoldable pub encode_source : ExpectedRecord → Bytes
encode_source r = r.record_type ∷ r.expected_hash

-- decodeSourceMappingValue: the length is 1 + kind.DigestLen(), so the value is not empty.
unfoldable pub decode_source : Bytes → HashKind → Result (ℕ × Bytes)
decode_source [] kind = err corrupted_value
decode_source (t ∷ hash) kind =
    if not (suc (length hash) == 1 + digest_len kind) then err corrupted_value else ok (t, hash)
