-- ===== src/HashStore/Actuals.antt =====
-- hashstore.go, lines 501-595: the hashes of cached files, GetOrComputeActual, GetActual and
-- DeleteActual. The database, a file's size and times, its hash, and the id of a path are parameters;
-- times are integers, whose differences are taken to fit a Duration.
use apk_cache.Prelude.{
  ℕ, suc, ◌≡◌, String, Bool, true, false, not, ◌&&◌, ◌||◌, ◌⊎◌, inl, inr, Option, none, some, List,
  [], ◌∷◌, Bytes, bytes_eq, ◌==◌, if◌then◌else◌,
}
use apk_cache.Prelude.Int.{ℤ, pos, ltb_ℤ, ◌-ℤ◌}
use apk_cache.HashStore.Kinds.{
  HashKind, sha1, sha256, digest_len, Error, unsupported_hash_kind, ok, err,
}
use apk_cache.HashStore.Values.{Actual, encode_actual, decode_actual}
use apk_cache.HashStore.Keys.{actual_key}

pub data StoreError : Type 0 where
  store_error : Error → StoreError
  library_error : String → StoreError

pub data Found : Type 0 where
  found : Bytes → Found
  not_found : Found
  get_failed : String → Found

pub data Write : Type 0 where
  put : Bytes → Bytes → Write
  remove : Bytes → Write

-- What a key has after some writes, the last of which counts.
unfoldable pub written : List Write → Bytes → Found → Found
written [] key old = old
written (put k v ∷ ws) key old = written ws key (if bytes_eq k key then found v else old)
written (remove k ∷ ws) key old = written ws key (if bytes_eq k key then not_found else old)

-- The database: a committed batch is read back whole. Set is a batch of one write.
pub record Db : Type 1 where
  pub State : Type 0
  pub get : State → Bytes → Found
  pub commit : State → List Write → Option State
  pub get-commit :
      (s t : State) (ws : List Write) (key : Bytes)
      → commit s ws ≡ some t
      → get t key ≡ written ws key (get s key)

pub record Store (db : Db) : Type 0 where
  pub rows : Db.State db
  pub actual_hits : ℕ
  pub actual_computes : ℕ

pub data Outcome (A : Type 0) : Type 0 where
  done : A → Outcome A
  fails : StoreError → Outcome A

-- The configuration of the store, and CacheKey and PathID.
pub record Config : Type 0 where
  pub trust_file_stat : Bool
  pub revalidate_interval : ℤ
  pub cache_key : Bytes → String ⊎ Bytes
  pub path_id : Bytes → Bytes

-- os.Stat, computeHash and the clock: at the look at the old row, and when the hash is computed.
pub record File : Type 0 where
  pub stat : String ⊎ (ℤ × ℤ)
  pub hash : String ⊎ Bytes
  pub now : ℤ
  pub computed_at : ℤ

unfoldable pub same_ℤ : ℤ → ℤ → Bool
same_ℤ a b = not (ltb_ℤ a b) && not (ltb_ℤ b a)

-- freshEnough
unfoldable pub is_fresh : Config → ℤ → ℤ → Bool
is_fresh c now computed =
    not (ltb_ℤ (pos 0) c.revalidate_interval) || not (ltb_ℤ c.revalidate_interval (now -ℤ computed))

pub data Look : Type 0 where
  hit : Actual → Look
  miss : Look
  broken : StoreError → Look

module _ (db : Db) (c : Config) where
  unfoldable pub look_at : Actual → ℤ → ℤ → ℤ → Look
  look_at actual size mtime now =
      if same_ℤ actual.size_bytes size
        && same_ℤ actual.mtime mtime
        && is_fresh c now actual.computed
      then hit actual
      else miss

  -- The part under `if s.trustFileStat`.
  unfoldable pub look : Store db → HashKind → Bytes → ℤ → ℤ → ℤ → Look
  look st kind id size mtime now =
      if c.trust_file_stat
      then elim (Db.get db st.rows (actual_key kind id)) [
        | not_found ↦ miss
        | get_failed e ↦ broken (library_error e)
        | found value ↦ elim (decode_actual value kind) [
          | err e ↦ broken (store_error e)
          | ok actual ↦ look_at actual size mtime now
        ]
      ]
      else miss

  unfoldable pub recompute :
      Store db → HashKind → Bytes → ℤ → ℤ → File → Store db × Outcome (Actual × Bool)
  recompute st kind id size mtime file = elim file.hash [
    | inl e ↦ (st, fails (library_error e))
    | inr sum ↦
        let actual : Actual = record {
          hash_kind = kind;
          size_bytes = size;
          mtime = mtime;
          actual_hash = sum;
          computed = file.computed_at;
        } in
        elim (Db.commit db st.rows (put (actual_key kind id) (encode_actual actual) ∷ [])) [
          | none ↦ (st, fails (library_error "set"))
          | some rows ↦ (
            record st { rows = rows; actual_computes = suc st.actual_computes },
            done (actual, false),
          )
        ]
  ]

  -- GetOrComputeActual; the flag is CacheHit.
  unfoldable pub get_or_compute_actual :
      Store db → Bytes → HashKind → File → Store db × Outcome (Actual × Bool)
  get_or_compute_actual st cache_path kind file =
      if digest_len kind == 0
      then (st, fails (store_error unsupported_hash_kind))
      else elim (c.cache_key cache_path) [
        | inl e ↦ (st, fails (library_error e))
        | inr key ↦ elim file.stat [
          | inl e ↦ (st, fails (library_error e))
          | inr (size, mtime) ↦ elim (look st kind (c.path_id key) size mtime file.now) [
            | hit actual ↦ (record st { actual_hits = suc st.actual_hits }, done (actual, true))
            | broken e ↦ (st, fails e)
            | miss ↦ recompute st kind (c.path_id key) size mtime file
          ]
        ]
      ]

  -- GetActual from the id on; `none` is the result false.
  unfoldable pub get_row : Store db → HashKind → Bytes → Outcome (Option Actual)
  get_row st kind id = elim (Db.get db st.rows (actual_key kind id)) [
    | not_found ↦ done none
    | get_failed e ↦ fails (library_error e)
    | found value ↦ elim (decode_actual value kind) [
      | err e ↦ fails (store_error e)
      | ok actual ↦ done (some actual)
    ]
  ]

  unfoldable pub get_actual : Store db → Bytes → HashKind → Outcome (Option Actual)
  get_actual st cache_path kind =
      if digest_len kind == 0
      then fails (store_error unsupported_hash_kind)
      else elim (c.cache_key cache_path) [
        | inl e ↦ fails (library_error e)
        | inr key ↦ get_row st kind (c.path_id key)
      ]

  unfoldable pub delete_actual : Store db → Bytes → Store db × Outcome (Unit {0})
  delete_actual st cache_path = elim (c.cache_key cache_path) [
    | inl e ↦ (st, fails (library_error e))
    | inr key ↦
        let id = c.path_id key in
        elim (Db.commit db st.rows
          (remove (actual_key sha1 id) ∷ remove (actual_key sha256 id) ∷ [])) [
            | none ↦ (st, fails (library_error "commit"))
            | some rows ↦ (record st { rows = rows }, done tt)
          ]
  ]
