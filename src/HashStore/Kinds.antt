-- ===== src/HashStore/Kinds.antt =====
-- hashstore.go, lines 41-53 and 238-285: the kinds of hash with their namespaces, and the checks on a
-- digest.
use apk_cache.Prelude.{ℕ, not, Bytes, length, ◌==◌, if◌then◌else◌}

-- `type HashKind byte`, with two named values
abbrev pub HashKind : Type 0
HashKind = ℕ

abbrev pub sha1 : HashKind
sha1 = 1

abbrev pub sha256 : HashKind
sha256 = 2

unfoldable pub digest_len : HashKind → ℕ
digest_len k = if k == sha1 then 20 else if k == sha256 then 32 else 0

-- `k == HashSHA1` decides; every other kind takes the namespaces of SHA-256.
unfoldable pub expected_namespace : HashKind → ℕ
expected_namespace k = if k == sha1 then 0x21 else 0x22

unfoldable pub actual_namespace : HashKind → ℕ
actual_namespace k = if k == sha1 then 0x23 else 0x24

unfoldable pub expected_by_hash_namespace : HashKind → ℕ
expected_by_hash_namespace k = if k == sha1 then 0x25 else 0x26

unfoldable pub apt_by_hash_namespace : HashKind → ℕ
apt_by_hash_namespace k = if k == sha1 then 0x27 else 0x28

pub data Error : Type 0 where
  unsupported_hash_kind corrupted_value path_collision index_unavailable : Error

pub data Result {ℓ} (A : Type ℓ) : Type ℓ where
  ok : A → Result A
  err : Error → Result A

-- ValidateHash: a kind without a length and a digest of another length are the same error.
unfoldable pub validate_hash : HashKind → Bytes → Result (Unit {0})
validate_hash kind digest =
    if digest_len kind == 0
    then err unsupported_hash_kind
    else if not (length digest == digest_len kind)
    then err unsupported_hash_kind
    else ok tt
