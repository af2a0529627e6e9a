-- ===== src/HashStore/ActualRuns.antt =====
-- The hashes of files over a database in memory.
use mathlib.Core.Option.{some-injective}
use apk_cache.Prelude.{
  ◌≡◌, refl, sym, ap, ◌∙◌, inl, inr, true, some, ◌++◌, Bytes, codes, length, arith,
}
use apk_cache.Prelude.Int.{pos}
use apk_cache.HashStore.Kinds.{sha1, digest_len}
use apk_cache.HashStore.Actuals.{
  Found, not_found, written, Db, Store, Config, File, get_or_compute_actual,
}
use apk_cache.HashStore.ActualLaws.{Implements, get_or_compute_actual-Implements}

abbrev memory_db : Db
memory_db = record {
  State = Bytes → Found;
  get = λ rows key. rows key;
  commit = λ rows writes. some (λ key. written writes key (rows key));
  get-commit = λ s t writes key e. ap (λ rows. rows key) (sym (some-injective _ _ e));
}

abbrev config : Config
config = record {
  trust_file_stat = true;
  revalidate_interval = pos 0;
  cache_key = λ path. inr path;
  path_id = λ path. path;
}

abbrev empty_store : Store memory_db
empty_store = record { rows = λ key. not_found; actual_hits = 0; actual_computes = 0 }

abbrev digest : Bytes
digest = codes "0123456789" ++ codes "0123456789"

abbrev small_file : File
small_file = record {
  stat = inr (pos 3, pos 5);
  hash = inr digest;
  now = pos 7;
  computed_at = pos 8;
}

digest-length : length digest ≡ digest_len sha1
unfolding digest_len
digest-length = refl

get_or_compute_actual-Implements_example :
    Implements memory_db config sha1
      (codes "/c")
      (pos 3)
      (pos 5)
      small_file
      empty_store
      (get_or_compute_actual memory_db config empty_store (codes "/c") sha1 small_file)
get_or_compute_actual-Implements_example =
    get_or_compute_actual-Implements memory_db config empty_store (codes "/c") (codes "/c") sha1
      (pos 3) (pos 5) small_file (inl refl) refl refl (omega arith) (omega arith) (omega arith)
      (λ sum e. let same : sum ≡ digest = cc in ap length same ∙ digest-length)
