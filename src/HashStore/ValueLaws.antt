-- ===== src/HashStore/ValueLaws.antt =====
-- Reading the values of the hash store back.
use apk_cache.Prelude.{
  ℕ, ◌+◌, ◌≡◌, refl, ap, sym, ◌∙◌, some, [], ◌∷◌, ◌++◌, Bytes, length, ◌==◌, length-append, arith,
  ◌↔◌, inl, inr, Bool-cases,
}
use apk_cache.Prelude.Int.{ℤ}
use apk_cache.HashStore.Kinds.{HashKind, digest_len, ok}
use apk_cache.HashStore.Varint.{
  IsI64, append_uvarint, append_varint, varint, to_u64, uvarint-append, varint-append,
  to_i64-to_u64, to_u64-lt, append_uvarint_lem, append_varint_lem,
}
use apk_cache.HashStore.Values.{
  ExpectedRecord, Actual, encode_expected, expected_end, expected_body, decode_expected,
  encode_actual, actual_end, actual_hash_of, actual_body, decode_actual, encode_source,
  decode_source,
}
use apk_cache.HashStore.Parts.{append_nil, append_assoc, take_part, drop_part, not_short}

varint_end : (x : ℤ) → IsI64 x → varint (append_varint [] x) ≡ some (x, [])
varint_end x h = ap varint (sym (append_nil (append_varint [] x))) ∙ varint-append x [] h

expected_parts :
    (r : ExpectedRecord) (source_id : Bytes) (now : ℤ)
    → encode_expected r source_id now
      ≡ r.record_type
        ∷ (append_uvarint [] (to_u64 r.expected_size)
            ++ (r.expected_hash ++ (source_id ++ append_varint [] now)))
unfolding encode_expected
expected_parts r source_id now =
    let size = append_uvarint [] (to_u64 r.expected_size) in
    let last = append_varint [] now in
    append_varint_lem _ now
    ∙ ap (λ (b : Bytes). ((b ++ r.expected_hash) ++ source_id) ++ last)
        (append_uvarint_lem (r.record_type ∷ []) (to_u64 r.expected_size))
    ∙ ap (◌∷◌ r.record_type) (
        append_assoc (size ++ r.expected_hash) source_id last
        ∙ append_assoc size r.expected_hash (source_id ++ last))

actual_parts :
    (a : Actual)
    → encode_actual a
      ≡ append_uvarint [] (to_u64 a.size_bytes)
        ++ (append_varint [] a.mtime ++ (a.actual_hash ++ append_varint [] a.computed))
unfolding encode_actual
actual_parts a =
    let size = append_uvarint [] (to_u64 a.size_bytes) in
    let mid = append_varint [] a.mtime in
    let last = append_varint [] a.computed in
    append_varint_lem _ a.computed
    ∙ ap (λ (b : Bytes). (b ++ a.actual_hash) ++ last) (append_varint_lem size a.mtime)
    ∙ append_assoc (size ++ mid) a.actual_hash last
    ∙ append_assoc size mid (a.actual_hash ++ last)

body_lem :
    (kind : HashKind) (t size : ℕ) (hash source_id tail : Bytes)
    → length hash ≡ digest_len kind
    → length source_id ≡ 16
    → expected_body kind t (some (size, hash ++ (source_id ++ tail)))
      ≡ expected_end t size hash source_id (varint tail)
unfolding expected_body
body_lem kind t size hash source_id tail h i =
    let long =
      not_short (digest_len kind + 16) (hash ++ (source_id ++ tail))
        (omega (arith, length-append hash (source_id ++ tail), length-append source_id tail)) in
    rw
      (
        long,
        take_part (digest_len kind) hash (source_id ++ tail) h,
        drop_part (digest_len kind) hash (source_id ++ tail) h,
        take_part 16 source_id tail i,
        drop_part 16 source_id tail i,
      )
      refl

-- An expected record is read back from its value: its type, its size, its hash, the id of its source
-- and the time, for a hash of the kind's length, an id of 16 bytes, and numbers that fit an int64.
pub decode_expected-encode_expected :
    (kind : HashKind) (r : ExpectedRecord) (source_id : Bytes) (now : ℤ)
    → length r.expected_hash ≡ digest_len kind
    → length source_id ≡ 16
    → IsI64 r.expected_size
    → IsI64 now
    → decode_expected (encode_expected r source_id now) kind
      ≡ ok (record {
        record_type = r.record_type;
        expected_hash = r.expected_hash;
        expected_size = r.expected_size;
        source_id = source_id;
        updated = now;
      })
unfolding decode_expected expected_end
decode_expected-encode_expected kind r source_id now h i fits time =
    ap (λ (b : Bytes). decode_expected b kind) (expected_parts r source_id now)
    ∙ ap (expected_body kind r.record_type)
        (uvarint-append (to_u64 r.expected_size) _ (to_u64-lt r.expected_size fits))
    ∙ body_lem kind r.record_type _ r.expected_hash source_id (append_varint [] now) h i
    ∙ ap (expected_end r.record_type _ r.expected_hash source_id) (varint_end now time)
    ∙ ap
        (λ (size : ℤ). ok (record {
          record_type = r.record_type;
          expected_hash = r.expected_hash;
          expected_size = size;
          source_id = source_id;
          updated = now;
        }))
        (to_i64-to_u64 r.expected_size fits)

hash_lem :
    (kind : HashKind) (size : ℕ) (mtime : ℤ) (hash tail : Bytes)
    → length hash ≡ digest_len kind
    → actual_hash_of kind size (some (mtime, hash ++ tail))
      ≡ actual_end kind size mtime hash (varint tail)
unfolding actual_hash_of
hash_lem kind size mtime hash tail h =
    let long =
      not_short (digest_len kind) (hash ++ tail) (omega (arith, length-append hash tail)) in
    rw (long, take_part (digest_len kind) hash tail h, drop_part (digest_len kind) hash tail h) refl

-- An actual hash is read back from its value with the size and the two times, if the hash has the
-- length of its kind and the three numbers fit in an int64.
pub decode_actual-encode_actual :
    (a : Actual)
    → length a.actual_hash ≡ digest_len a.hash_kind
    → IsI64 a.size_bytes
    → IsI64 a.mtime
    → IsI64 a.computed
    → decode_actual (encode_actual a) a.hash_kind ≡ ok a
unfolding decode_actual actual_body actual_end
decode_actual-encode_actual a h fits time done =
    let kind = a.hash_kind in
    ap (λ (b : Bytes). decode_actual b kind) (actual_parts a)
    ∙ ap (actual_body kind) (uvarint-append (to_u64 a.size_bytes) _ (to_u64-lt a.size_bytes fits))
    ∙ ap (actual_hash_of kind _) (varint-append a.mtime _ time)
    ∙ hash_lem kind _ a.mtime a.actual_hash (append_varint [] a.computed) h
    ∙ ap (actual_end kind _ a.mtime a.actual_hash) (varint_end a.computed done)
    ∙ ap
        (λ (size : ℤ). ok (record {
          hash_kind = kind;
          size_bytes = size;
          mtime = a.mtime;
          actual_hash = a.actual_hash;
          computed = a.computed;
        }))
        (to_i64-to_u64 a.size_bytes fits)

-- A source mapping is read back exactly if its hash has the kind's length: otherwise the decoder
-- reports corruption.
pub decode_source-encode_source :
    (kind : HashKind) (r : ExpectedRecord)
    → (decode_source (encode_source r) kind ≡ ok (r.record_type, r.expected_hash))
      ↔ (length r.expected_hash ≡ digest_len kind)
unfolding decode_source encode_source
decode_source-encode_source kind r = elim (Bool-cases (length r.expected_hash == digest_len kind)) [
  | inl same ↦ (λ e. ground arith, λ e. ground arith)
  | inr differ ↦ (λ e. ground arith, λ e. ground arith)
]
