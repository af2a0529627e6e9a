-- ===== src/Metrics.antt =====
-- internal/metrics/metrics.go: the counters that the cache and the server keep. A Prometheus
-- counter is a number that grows, a gauge the last value set. Registration is not modelled.
use apk_cache.Prelude.{ℕ, ◌+◌, if◌then◌else◌}
use apk_cache.Prelude.Int.{ℤ, pos, pos_part, ltb_ℤ}

-- Metrics, without the registry; MemorySize is the gauge's two labels.
pub record Metrics : Type 0 where
  pub cache_hits : ℕ
  pub cache_misses : ℕ
  pub download_bytes : ℕ
  pub response_bytes : ℕ
  pub upstream_requests : ℕ
  pub upstream_failovers : ℕ
  pub validation_failures : ℕ
  pub apk_hash_failures : ℕ
  pub apk_sign_failures : ℕ
  pub apk_bypass_responses : ℕ
  pub memory_hits : ℕ
  pub memory_misses : ℕ
  pub memory_evictions : ℕ
  pub memory_size_current : ℤ
  pub memory_size_max : ℤ
  pub memory_items : ℕ

-- New: every counter at 0.
abbrev pub new_metrics : Metrics
new_metrics = record {
  cache_hits = 0;
  cache_misses = 0;
  download_bytes = 0;
  response_bytes = 0;
  upstream_requests = 0;
  upstream_failovers = 0;
  validation_failures = 0;
  apk_hash_failures = 0;
  apk_sign_failures = 0;
  apk_bypass_responses = 0;
  memory_hits = 0;
  memory_misses = 0;
  memory_evictions = 0;
  memory_size_current = pos 0;
  memory_size_max = pos 0;
  memory_items = 0;
}

-- A counter rejects a negative amount, so each caller tests `size > 0`.
add_positive : ℕ → ℤ → ℕ
add_positive counter size = if ltb_ℤ (pos 0) size then counter + pos_part size else counter

unfoldable pub record_cache_hit : Metrics → ℤ → Metrics
unfolding add_positive
record_cache_hit m size = record m {
  cache_hits = m.cache_hits + 1;
  response_bytes = add_positive m.response_bytes size;
}

unfoldable pub record_cache_miss : Metrics → ℤ → Metrics
unfolding add_positive
record_cache_miss m size = record m {
  cache_misses = m.cache_misses + 1;
  download_bytes = add_positive m.download_bytes size;
}

unfoldable pub record_response_bytes : Metrics → ℤ → Metrics
unfolding add_positive
record_response_bytes m size = record m { response_bytes = add_positive m.response_bytes size }

unfoldable pub update_memory : Metrics → ℤ → ℤ → ℕ → Metrics
update_memory m current max items = record m {
  memory_size_current = current;
  memory_size_max = max;
  memory_items = items;
}
