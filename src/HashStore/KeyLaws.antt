-- ===== src/HashStore/KeyLaws.antt =====
-- Which records share a key, and reading a source mapping's key back.
use apk_cache.Prelude.{
  ℕ, ◌≡◌, ◌≢◌, refl, ap, sym, ◌∙◌, inl, inr, ◌⊎◌, Option, none, some, [], ◌∷◌, ◌++◌, Bytes, length,
  take, drop, get_elem?, ◌==◌, if◌then◌else◌, length-append, arith,
}
use apk_cache.HashStore.Kinds.{
  HashKind, sha1, sha256, digest_len, expected_namespace, actual_namespace,
  expected_by_hash_namespace, apt_by_hash_namespace, ok,
}
use apk_cache.HashStore.Keys.{
  expected_key, actual_key, expected_by_hash_key, source_mapping_key, apt_by_hash_key,
  dict_by_id_key, dict_by_value_key, byte_is, decoded_key, decode_source_mapping_key,
}
use apk_cache.HashStore.Parts.{append_assoc, take_part, drop_part, last_elem}

-- The records of the store, by what their keys are made of.
pub data Record : Type 0 where
  expected actual : HashKind → Bytes → Record
  expected_by_hash apt_by_hash : HashKind → Bytes → Bytes → Record
  source_mapping : Bytes → Bytes → HashKind → Record
  dict_by_id dict_by_value : ℕ → Bytes → Record

abbrev pub key_of : Record → Bytes
key_of (expected kind id) = expected_key kind id
key_of (actual kind id) = actual_key kind id
key_of (expected_by_hash kind hash id) = expected_by_hash_key kind hash id
key_of (apt_by_hash kind host hash) = apt_by_hash_key kind host hash
key_of (source_mapping source target kind) = source_mapping_key source target kind
key_of (dict_by_id kind id) = dict_by_id_key kind id
key_of (dict_by_value kind value) = dict_by_value_key kind value

abbrev pub IsKind : HashKind → Type 0
IsKind kind = (kind ≡ sha1) ⊎ (kind ≡ sha256)

-- A kind is one of the two; an id before another part has 16 bytes, a hash before an id its kind's
-- length.
abbrev pub IsRecord : Record → Type 0
IsRecord (expected kind id) = IsKind kind
IsRecord (actual kind id) = IsKind kind
IsRecord (expected_by_hash kind hash id) = IsKind kind × (length hash ≡ digest_len kind)
IsRecord (apt_by_hash kind host hash) = IsKind kind × (length host ≡ 16)
IsRecord (source_mapping source target kind) = (length source ≡ 16) × (length target ≡ 16)
IsRecord (dict_by_id kind id) = Unit
IsRecord (dict_by_value kind value) = Unit

-- The record that a key belongs to.
by_namespace : ℕ → Bytes → Option Record
by_namespace ns rest =
    if ns == 0x21
    then some (expected sha1 rest)
    else if ns == 0x22
    then some (expected sha256 rest)
    else if ns == 0x23
    then some (actual sha1 rest)
    else if ns == 0x24
    then some (actual sha256 rest)
    else if ns == 0x25
    then some (expected_by_hash sha1 (take 20 rest) (drop 20 rest))
    else if ns == 0x26
    then some (expected_by_hash sha256 (take 32 rest) (drop 32 rest))
    else if ns == 0x27
    then some (apt_by_hash sha1 (take 16 rest) (drop 16 rest))
    else if ns == 0x28
    then some (apt_by_hash sha256 (take 16 rest) (drop 16 rest))
    else none

dict_record : ℕ → Bytes → Option Record
dict_record ns [] = none
dict_record ns (kind ∷ rest) =
    if ns == 0x10 then some (dict_by_id kind rest) else some (dict_by_value kind rest)

source_record : Bytes → Bytes → Bytes → Option Record
source_record source target [] = none
source_record source target (kind ∷ rest) = some (source_mapping source target kind)

record_of : Bytes → Option Record
unfolding by_namespace dict_record source_record
record_of [] = none
record_of (ns ∷ []) = none
record_of (ns ∷ v ∷ rest) =
    if ns == 0x10
    then dict_record ns rest
    else if ns == 0x11
    then dict_record ns rest
    else if ns == 0x03
    then source_record (take 16 rest) (take 16 (drop 16 rest)) (drop 16 (drop 16 rest))
    else by_namespace ns rest

record_of-key_of : (r : Record) → IsRecord r → record_of (key_of r) ≡ some r
unfolding record_of by_namespace dict_record source_record expected_key actual_key
    expected_by_hash_key source_mapping_key apt_by_hash_key dict_by_id_key dict_by_value_key
    expected_namespace actual_namespace expected_by_hash_namespace apt_by_hash_namespace digest_len
record_of-key_of (expected kind id) (inl e) = rw e refl
record_of-key_of (expected kind id) (inr e) = rw e refl
record_of-key_of (actual kind id) (inl e) = rw e refl
record_of-key_of (actual kind id) (inr e) = rw e refl
record_of-key_of (expected_by_hash kind hash id) (inl e, h) =
    let n : length hash ≡ 20 = h ∙ ap digest_len e in
    rw (e, take_part 20 hash id n, drop_part 20 hash id n) refl
record_of-key_of (expected_by_hash kind hash id) (inr e, h) =
    let n : length hash ≡ 32 = h ∙ ap digest_len e in
    rw (e, take_part 32 hash id n, drop_part 32 hash id n) refl
record_of-key_of (apt_by_hash kind host hash) (inl e, h) =
    rw (e, take_part 16 host hash h, drop_part 16 host hash h) refl
record_of-key_of (apt_by_hash kind host hash) (inr e, h) =
    rw (e, take_part 16 host hash h, drop_part 16 host hash h) refl
record_of-key_of (source_mapping source target kind) (hs, ht) =
    let last = kind ∷ [] in
    rw
      (
        append_assoc source target last,
        take_part 16 source (target ++ last) hs,
        drop_part 16 source (target ++ last) hs,
        take_part 16 target last ht,
        drop_part 16 target last ht,
      )
      refl
record_of-key_of (dict_by_id kind id) h = refl
record_of-key_of (dict_by_value kind value) h = refl

some_eq : {r s : Record} → some r ≡ some s → r ≡ s
some_eq e = cc

-- Records with one key are one record.
pub key_of_eq : (r s : Record) → IsRecord r → IsRecord s → key_of r ≡ key_of s → r ≡ s
key_of_eq r s hr hs e =
    some_eq (sym (record_of-key_of r hr) ∙ ap record_of e ∙ record_of-key_of s hs)

-- Two different records have different keys, whatever their kinds, ids, hashes and values are: a
-- record is never written over by another one.
pub key_of_injective : (r s : Record) → IsRecord r → IsRecord s → r ≢ s → key_of r ≢ key_of s
key_of_injective r s hr hs differ e =
    let same : some r ≡ some s =
      sym (record_of-key_of r hr) ∙ ap record_of e ∙ record_of-key_of s hs in
    differ (some_eq same)

-- The decoder of a source mapping's key gives the target and the kind that the key was made of, for
-- ids of 16 bytes and a known kind.
pub decode-source_mapping_key :
    (source target : Bytes) (kind : HashKind)
    → IsRecord (source_mapping source target kind)
    → IsKind kind
    → decode_source_mapping_key (source_mapping_key source target kind) ≡ ok (target, kind)
unfolding decode_source_mapping_key source_mapping_key byte_is decoded_key digest_len
decode-source_mapping_key source target kind (hs, ht) k =
    let last = kind ∷ [] in
    let front : length (source ++ target) ≡ 32 = omega (arith, length-append source target) in
    let long : length (source ++ (target ++ last)) ≡ 33 =
      omega (arith, length-append source (target ++ last), length-append target last) in
    let at : get_elem? (source ++ (target ++ last)) 32 ≡ some kind =
      ap (λ (b : Bytes). get_elem? b 32) (sym (append_assoc source target last))
      ∙ last_elem 32 (source ++ target) kind front in
    rw
      (
        append_assoc source target last,
        long,
        at,
        decoded_key,
        append_assoc source target last,
        drop_part 16 source (target ++ last) hs,
        take_part 16 target last ht,
      )
      (elim k [ inl e ↦ rw e refl | inr e ↦ rw e refl ])
