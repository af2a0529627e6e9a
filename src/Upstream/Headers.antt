-- ===== src/Upstream/Headers.antt =====
-- upstream.go, lines 241-263: which headers of a request go on to a server. The argument is the
-- entries of the header map in the order that the range visits them; the request's own header is a
-- map from a key to its values. Keys are ASCII, so ToLower maps the letters A to Z.
use apk_cache.Prelude.{
  ℕ, ◌+◌, Bool, false, ◌&&◌, ◌||◌, List, [], ◌∷◌, ◌++◌, map, Bytes, codes, bytes_eq, leb,
  if◌then◌else◌,
}

unfoldable lower_byte : ℕ → ℕ
lower_byte b = if leb 65 b && leb b 90 then b + 32 else b

unfoldable pub to_lower : Bytes → Bytes
unfolding lower_byte
to_lower = map lower_byte

unfoldable is_one_of : List Bytes → Bytes → Bool
is_one_of [] key = false
is_one_of (name ∷ names) key = bytes_eq name key || is_one_of names key

abbrev pub hop_by_hop : List Bytes
hop_by_hop =
    codes "connection"
    ∷ codes "proxy-connection"
    ∷ codes "keep-alive"
    ∷ codes "proxy-authenticate"
    ∷ codes "proxy-authorization"
    ∷ codes "te"
    ∷ codes "trailer"
    ∷ codes "transfer-encoding"
    ∷ codes "upgrade"
    ∷ []

unfoldable pub is_hop_by_hop_header : Bytes → Bool
unfolding is_one_of
is_hop_by_hop_header key = is_one_of hop_by_hop (to_lower key)

abbrev pub Header : Type 0
Header = Bytes → List Bytes

module _ (canonical : Bytes → Bytes) where
  -- Header.Add: the value after those of the key in its canonical spelling
  unfoldable pub add_value : Bytes → Bytes → Header → Header
  add_value key value dst k = if bytes_eq (canonical key) k then dst k ++ (value ∷ []) else dst k

  unfoldable pub add_values : Bytes → List Bytes → Header → Header
  add_values key [] dst = dst
  add_values key (value ∷ values) dst = add_values key values (add_value key value dst)

  unfoldable pub copy_end_to_end_headers : Header → List (Bytes × List Bytes) → Header
  copy_end_to_end_headers dst [] = dst
  copy_end_to_end_headers dst ((key, values) ∷ src) =
      copy_end_to_end_headers (if is_hop_by_hop_header key then dst else add_values key values dst)
        src
