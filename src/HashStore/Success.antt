-- ===== src/HashStore/Success.antt =====
-- Operations that succeed, and the parts of ReplaceSource and DeleteSource that need no database.
use apk_cache.Prelude.{
  ◌≡◌, refl, ap, ◌∙◌, inl, inr, ℕ, false, Option, [], ◌∷◌, ◌++◌, Bytes, length, ◌==◌, All, arith,
}
use apk_cache.HashStore.Kinds.{HashKind, digest_len, validate_hash, ok, Result}
use apk_cache.HashStore.Values.{decode_source}
use apk_cache.HashStore.Keys.{decode_source_mapping_key}
use apk_cache.HashStore.KeyLaws.{IsKind}
use apk_cache.HashStore.Actuals.{Outcome, done, Config}
use apk_cache.HashStore.Ordered.{◌>>=◌, checked, Rows}
use apk_cache.HashStore.Sources.{key_of_path, delete_row, delete_rows}
use apk_cache.HashStore.SourceReads.{known_kind}

-- The operation succeeds, with such a result.
abbrev pub Succeeds : {A : Type 0} → Outcome A → (A → Type 0) → Type 0
Succeeds {A} m P = (a : A) × (m ≡ done a) × P a

pub bind-Succeeds :
    {A B : Type 0} (P : A → Type 0) (Q : B → Type 0) (m : Outcome A) (f : A → Outcome B)
    → Succeeds m P
    → ((a : A) → P a → Succeeds (f a) Q)
    → Succeeds (m >>= f) Q
bind-Succeeds P Q m f (a, e, p) then_f =
    let (b, g, q) = then_f a p in (b, ap (λ x. x >>= f) e ∙ g, q)

abbrev pub Any : {A : Type 0} → A → Type 0
Any a = Unit

pub checked-Succeeds :
    {A : Type 0} (r : Result A) (a : A) → r ≡ ok a → Succeeds (checked r) (λ x. x ≡ a)
checked-Succeeds r a h = (a, ap checked h, refl)

pub key_of_path-Succeeds :
    (c : Config) (path key : Bytes)
    → c.cache_key path ≡ inr key
    → Succeeds (key_of_path c path) (λ k. k ≡ key)
unfolding key_of_path
key_of_path-Succeeds c path key h = (key, rw (h, key_of_path) refl, refl)

-- A row of a source that can be decoded.
abbrev pub IsReadable : Bytes × Bytes → Type 0
IsReadable (key, value) =
    (target_id : Bytes) × (kind : HashKind) × (record_type : ℕ) × (hash : Bytes)
    × (decode_source_mapping_key key ≡ ok (target_id, kind))
    × (decode_source value kind ≡ ok (record_type, hash))

delete_row-Succeeds :
    (path_id : Bytes → Bytes) (host : Option Bytes) (row : Bytes × Bytes)
    → IsReadable row
    → Succeeds (delete_row path_id host row) Any
unfolding delete_row
delete_row-Succeeds path_id host (key, value) (i, k, u, x, dk, dv) =
    bind-Succeeds (λ p. p ≡ (i, k)) Any (checked (decode_source_mapping_key key)) _
      (checked-Succeeds (decode_source_mapping_key key) (i, k) dk)
      (λ p e.
        bind-Succeeds Any Any (checked (decode_source value p.1)) _
          ((u, x), ap checked (ap (λ (q : Bytes × HashKind). decode_source value q.1) e ∙ dv), tt)
          (λ q _. (_, refl, tt)))

pub delete_rows-Succeeds :
    (path_id : Bytes → Bytes) (host : Option Bytes) (rows : Rows)
    → All IsReadable rows
    → Succeeds (delete_rows path_id host rows) Any
unfolding delete_rows
delete_rows-Succeeds path_id host [] h = ([], refl, tt)
delete_rows-Succeeds path_id host (row ∷ rows) (readable, rest) =
    bind-Succeeds Any Any (delete_row path_id host row) _
      (delete_row-Succeeds path_id host row readable)
      (λ first _.
        bind-Succeeds Any Any (delete_rows path_id host rows) _
          (delete_rows-Succeeds path_id host rows rest) (λ more _. (first ++ more, refl, tt)))

pub known_nonzero : (kind : HashKind) → IsKind kind → (kind == 0) ≡ false
known_nonzero kind (inl e) = rw e refl
known_nonzero kind (inr e) = rw e refl

pub valid_hash :
    (kind : HashKind) (digest : Bytes)
    → IsKind kind
    → length digest ≡ digest_len kind
    → validate_hash kind digest ≡ ok tt
unfolding validate_hash
valid_hash kind digest is_kind h = rw (known_kind kind is_kind) (ground (arith, h))
