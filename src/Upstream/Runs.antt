-- ===== src/Upstream/Runs.antt =====
-- Two servers, of which the first answers 404 and the second 200.
use mathlib.Core.List.{Perm}
use apk_cache.Prelude.{
  ℕ, ◌≤◌, ◌%◌, ◌≡◌, refl, inl, inr, true, false, none, some, List, [], ◌∷◌, ◌++◌, Bytes, codes,
  length, ◌==◌, if◌then◌else◌, arith,
}
use apk_cache.Upstream.{Manager, new_server}
use apk_cache.Upstream.Order.{ordered_servers, first_index, in_turn, pick, is_wanted}
use apk_cache.Upstream.OrderLaws.{keep, rotate, ordered_servers-eq}
use apk_cache.Upstream.Headers.{copy_end_to_end_headers, is_hop_by_hop_header}
use apk_cache.Upstream.HeaderLaws.{values_of, end_to_end}
use apk_cache.Upstream.Paths.{combined, build_url}
use apk_cache.Upstream.PathLaws.{Joins, combined-IsShortest}
use apk_cache.Upstream.Fetch.{Response, returned, Done, Calls, ask, fetch}
use apk_cache.Upstream.Answers.{IsGood, AllBad, latest, or_answer, received_of, closed_of}
use apk_cache.Upstream.FetchResults.{Serves, fetch_lem, leaves_open}

abbrev two_servers : Manager
two_servers = record {
  servers = 0 ∷ 1 ∷ [];
  objects = λ a. new_server (if a == 0 then codes "/a" else codes "/b") [] [];
  next = 4;
  on_request = true;
  on_failover = true;
}

abbrev first_missing : Calls
first_missing = record {
  parse = λ url. inr (record { path = url; raw_path = []; raw_query = []; others = [] });
  print = λ url. url.path;
  new_request = λ target. none;
  canonical = λ key. key;
  exchange = λ idx proxy target header.
      inr (record { status = if idx == 0 then 404 else 200; body = idx });
  path = codes "/x";
  headers = [];
}

ordered_servers-eq_example :
    ordered_servers two_servers
    ≡ some (
      keep true two_servers.objects (rotate (4 % 2) (0 ∷ 1 ∷ []))
          ++ keep false two_servers.objects (rotate (4 % 2) (0 ∷ 1 ∷ [])),
      record two_servers { next = 5 },
    )
ordered_servers-eq_example = ordered_servers-eq two_servers (omega arith) (omega arith)

fetch_lem_example :
    (order : List ℕ) × (counter : ℕ) × (done : Done) × Perm order (0 ∷ 1 ∷ [])
    × (fetch first_missing two_servers
        ≡ some
            (record two_servers { next = counter; objects = done.objects }, done.log, done.result))
    × Serves first_missing two_servers order done
fetch_lem_example = fetch_lem first_missing two_servers (omega arith)

abbrev missing : Response
missing = record { status = 404; body = 0 }

abbrev found : Response
found = record { status = 200; body = 1 }

ordered : ordered_servers two_servers ≡ some (0 ∷ 1 ∷ [], record two_servers { next = 5 })
unfolding ordered_servers first_index in_turn pick is_wanted new_server
ordered = refl

missing_answer : (ask first_missing 0 (two_servers.objects 0)).1 ≡ inr missing
unfolding ask build_url
missing_answer = refl

found_answer : (ask first_missing 1 (two_servers.objects 1)).1 ≡ inr found
unfolding ask build_url
found_answer = refl

missing-latest :
    latest (λ idx a. ask first_missing idx (two_servers.objects a)) 0 none (0 ∷ []) ≡ some missing
unfolding latest or_answer ask build_url
missing-latest = refl

missing_bad : AllBad (λ idx a. ask first_missing idx (two_servers.objects a)) 0 (0 ∷ [])
unfolding ask build_url
missing_bad = (λ good. omega (arith, good), tt)

found-IsGood : IsGood found
found-IsGood = inl refl

leaves_open_example :
    (done : Done) × (fetch first_missing two_servers
      ≡ some (record two_servers { next = 5; objects = done.objects }, done.log, returned found))
    × (received_of done.log ≡ closed_of done.log ++ (0 ∷ 1 ∷ []))
leaves_open_example =
    leaves_open first_missing two_servers 5 (0 ∷ []) [] 1 missing found ordered missing_bad
      missing-latest found_answer found-IsGood

abbrev base_path : List Bytes
base_path = codes "alpine" ∷ codes "v3" ∷ []

abbrev request_path : List Bytes
request_path = codes "v3" ∷ codes "main" ∷ []

combined-IsShortest_example :
    Joins base_path request_path (combined base_path request_path)
    × ((xs : List Bytes)
        → Joins base_path request_path xs
        → length (combined base_path request_path) ≤ length xs)
combined-IsShortest_example = combined-IsShortest base_path request_path

abbrev some_headers : List (Bytes × List Bytes)
some_headers = (codes "Te", codes "gzip" ∷ []) ∷ (codes "Range", codes "bytes=0-" ∷ []) ∷ []

end_to_end_example :
    copy_end_to_end_headers (λ key. key) (λ k. []) some_headers (codes "Te")
    ≡ (if is_hop_by_hop_header (codes "Te") then [] else values_of (codes "Te") some_headers)
end_to_end_example = end_to_end (λ key. key) some_headers (codes "Te") (refl, (refl, tt))
