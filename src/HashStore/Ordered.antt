-- ===== src/HashStore/Ordered.antt =====
-- The database as an ordered one, whose iterators run over the rows between two bounds, and chains of
-- operations that may fail.
use apk_cache.Prelude.{
  ◌<◌, ◌≡◌, ◌↔◌, ◌⊎◌, String, true, not, ◌&&◌, Option, none, List, [], ◌∷◌, Bytes, All,
}
use apk_cache.HashStore.Kinds.{Result, ok, err}
use apk_cache.HashStore.Actuals.{found, Db, Outcome, done, fails, store_error}
use apk_cache.HashStore.Range.{is_before, is_below}

infixl 5 ◌>>=◌ ◌>>◌
abbrev pub ◌>>=◌ : {A B : Type 0} → Outcome A → (A → Outcome B) → Outcome B
done a >>= f = f a
fails e >>= f = fails e

abbrev pub ◌>>◌ : {B : Type 0} → Outcome (Unit {0}) → Outcome B → Outcome B
m >> k = m >>= λ _. k

-- A step of the part of the store that has no database.
abbrev pub checked : {A : Type 0} → Result A → Outcome A
checked (ok a) = done a
checked (err e) = fails (store_error e)

abbrev pub Rows : Type 0
Rows = List (Bytes × Bytes)

-- What an iterator comes to: it cannot be opened, or it gives these rows and then this error, if any.
pub data Scan : Type 0 where
  no_iterator : String → Scan
  scanned : Rows → Option String → Scan

-- The rows have this one.
abbrev pub Has : Bytes → Bytes → Rows → Type 0
Has key value [] = ⊥
Has key value ((k, v) ∷ rows) = ((k ≡ key) × (v ≡ value)) ⊎ Has key value rows

-- An iterator without an error gives exactly the rows whose keys are not before the lower bound and
-- below the upper one, and keys are bytes.
pub record OrderedDb : Type 1 where
  pub db : Db
  pub scan : Db.State db → Bytes → Option Bytes → Scan
  pub scan-get :
      (s : Db.State db) (lower : Bytes) (upper : Option Bytes) (rows : Rows)
      → scan s lower upper ≡ scanned rows none
      → (key value : Bytes)
      → Has key value rows ↔ (
          (Db.get db s key ≡ found value)
          × ((not (is_before key lower) && is_below upper key) ≡ true)
          × All (λ b. b < 256) key)
