-- ===== src/HashStore/Keys.antt =====
-- hashstore.go, lines 22-39, 804-857 and 945-956: the keys of the records, the decoder of a source
-- mapping's key and the upper bound of a prefix. An id is a list of bytes; the source's array has 16.
use apk_cache.Prelude.{
  ℕ, suc, Bool, false, not, ◌||◌, Option, none, some, [], ◌∷◌, ◌++◌, Bytes, length, take, drop,
  get_elem?, ◌==◌, if◌then◌else◌,
}
use apk_cache.HashStore.Kinds.{
  HashKind, digest_len, expected_namespace, actual_namespace, expected_by_hash_namespace,
  apt_by_hash_namespace, corrupted_value, Result, ok, err,
}

abbrev pub version : ℕ
version = 0x01

abbrev pub ns_source_mapping : ℕ
ns_source_mapping = 0x03

abbrev pub ns_dict_by_id : ℕ
ns_dict_by_id = 0x10

abbrev pub ns_dict_by_value : ℕ
ns_dict_by_value = 0x11

unfoldable pub expected_key : HashKind → Bytes → Bytes
expected_key kind target_id = expected_namespace kind ∷ version ∷ target_id

unfoldable pub actual_key : HashKind → Bytes → Bytes
actual_key kind cache_id = actual_namespace kind ∷ version ∷ cache_id

unfoldable pub expected_by_hash_key : HashKind → Bytes → Bytes → Bytes
expected_by_hash_key kind expected_hash target_id =
    expected_by_hash_namespace kind ∷ version ∷ expected_hash ++ target_id

unfoldable pub source_mapping_key : Bytes → Bytes → HashKind → Bytes
source_mapping_key source_id target_id kind =
    ns_source_mapping ∷ version ∷ source_id ++ target_id ++ kind ∷ []

unfoldable pub source_mapping_prefix : Bytes → Bytes
source_mapping_prefix source_id = ns_source_mapping ∷ version ∷ source_id

unfoldable pub apt_by_hash_key : HashKind → Bytes → Bytes → Bytes
apt_by_hash_key kind host_id expected_hash =
    apt_by_hash_namespace kind ∷ version ∷ host_id ++ expected_hash

unfoldable pub dict_by_id_key : ℕ → Bytes → Bytes
dict_by_id_key kind id = ns_dict_by_id ∷ version ∷ kind ∷ id

unfoldable pub dict_by_value_key : ℕ → Bytes → Bytes
dict_by_value_key kind value = ns_dict_by_value ∷ version ∷ kind ∷ value

-- `key[i] == b`, for an index within the key
unfoldable pub byte_is : Bytes → ℕ → ℕ → Bool
byte_is key i b = elim (get_elem? key i) [ none ↦ false | some c ↦ c == b ]

-- decodeSourceMappingKey, once the length and the first bytes are right: key[34] is the kind.
unfoldable pub decoded_key : Bytes → Option HashKind → Result (Bytes × HashKind)
decoded_key key none = err corrupted_value
decoded_key key (some kind) =
    if digest_len kind == 0 then err corrupted_value else ok (take 16 (drop 18 key), kind)

unfoldable pub decode_source_mapping_key : Bytes → Result (Bytes × HashKind)
unfolding decoded_key byte_is
decode_source_mapping_key key =
    if not (length key == 35)
      || not (byte_is key 0 ns_source_mapping)
      || not (byte_is key 1 version)
    then err corrupted_value
    else decoded_key key (get_elem? key 34)

-- prefixUpperBound: the loop goes from the last byte to the first, so the bytes after `b` are looked
-- at before `b`; `none` is the result nil, which sets no bound.
unfoldable pub prefix_upper_bound : Bytes → Option Bytes
prefix_upper_bound [] = none
prefix_upper_bound (b ∷ rest) = elim (prefix_upper_bound rest) [
  | some bound ↦ some (b ∷ bound)
  | none ↦ if not (b == 0xff) then some (suc b ∷ []) else none
]
