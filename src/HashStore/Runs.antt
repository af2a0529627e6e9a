-- ===== src/HashStore/Runs.antt =====
-- The hash store's encodings on concrete inputs, and the theorems at them.
use apk_cache.Prelude.{◌≡◌, ◌≢◌, refl, inl, ◌&&◌, not, some, [], ◌∷◌, Bytes, ◌++◌, arith}
use apk_cache.Prelude.Int.{pos, negsuc}
use apk_cache.HashStore.Kinds.{sha1, digest_len, ok}
use apk_cache.HashStore.Varint.{append_varint, append_uvarint, put_groups, zigzag}
use apk_cache.HashStore.Values.{ExpectedRecord, Actual, encode_actual, decode_actual}
use apk_cache.HashStore.ValueLaws.{decode_actual-encode_actual}
use apk_cache.HashStore.Keys.{prefix_upper_bound}
use apk_cache.HashStore.KeyLaws.{expected_by_hash, apt_by_hash, key_of, key_of_injective}
use apk_cache.HashStore.Range.{has_prefix, is_before, is_below, has_prefix-eq}

abbrev id16 : Bytes
id16 = 1 ∷ 2 ∷ 3 ∷ 4 ∷ 5 ∷ 6 ∷ 7 ∷ 8 ∷ 9 ∷ 10 ∷ 11 ∷ 12 ∷ 13 ∷ 14 ∷ 15 ∷ 16 ∷ []

abbrev digest : Bytes
digest = id16 ++ 0 ∷ 128 ∷ 255 ∷ 7 ∷ []

abbrev record_a : ExpectedRecord
record_a = record { record_type = 1; expected_hash = digest; expected_size = pos 300 }

abbrev file_hash : Actual
file_hash = record {
  hash_kind = sha1;
  size_bytes = pos 300;
  mtime = negsuc 63;
  actual_hash = digest;
  computed = pos 9;
}

key_of_injective_example :
    key_of (expected_by_hash sha1 digest id16) ≢ key_of (apt_by_hash sha1 id16 digest)
unfolding digest_len
key_of_injective_example =
    key_of_injective (expected_by_hash sha1 digest id16) (apt_by_hash sha1 id16 digest)
      (inl refl, refl) (inl refl, refl) (λ e. cc)

has_prefix-eq_example : has_prefix (3 ∷ 255 ∷ []) (3 ∷ 255 ∷ 9 ∷ []) ≡ (
    not (is_before (3 ∷ 255 ∷ 9 ∷ []) (3 ∷ 255 ∷ []))
    && is_below (prefix_upper_bound (3 ∷ 255 ∷ [])) (3 ∷ 255 ∷ 9 ∷ []))
has_prefix-eq_example =
    has_prefix-eq (3 ∷ 255 ∷ []) (3 ∷ 255 ∷ 9 ∷ []) (omega arith, (omega arith, (omega arith, tt)))

-- The bound of 3, 255 is 4: the last byte that can grow is counted up and the rest is cut.
bound : prefix_upper_bound (3 ∷ 255 ∷ []) ≡ some (4 ∷ [])
unfolding prefix_upper_bound
bound = refl

decode_actual-encode_actual_example : decode_actual (encode_actual file_hash) sha1 ≡ ok file_hash
unfolding digest_len
decode_actual-encode_actual_example =
    decode_actual-encode_actual file_hash refl (omega arith) (omega arith) (omega arith)

encoded : append_varint (append_uvarint [] 300) (negsuc 63) ≡ 172 ∷ 2 ∷ 127 ∷ []
unfolding append_varint append_uvarint put_groups zigzag
encoded = refl
