-- ===== src/Upstream/Fetch.antt =====
-- upstream.go, lines 104-164: Fetch. Parsing and printing of URLs, the check of NewRequest, the
-- canonical spelling of a header's key and the exchange with a server (Do, by the number of the
-- attempt) are parameters. A body is an object, of which a response has the address. Lines to the log
-- are not modelled.
use apk_cache.Prelude.{
  ℕ, suc, ltb, String, Bool, true, false, ◌||◌, ◌&&◌, ◌⊎◌, inl, inr, Option, none, some, List, [],
  ◌∷◌, ◌++◌, Bytes, length, ◌==◌, if◌then◌else◌,
}
use apk_cache.Upstream.{
  Error, library_error, status, status_returned, no_configured, no_available, Server, Manager, mark,
}
use apk_cache.Upstream.Order.{ordered_servers}
use apk_cache.Upstream.Headers.{Header, copy_end_to_end_headers}
use apk_cache.Upstream.Paths.{Url, build_url}

pub record Response : Type 0 where
  pub status : ℕ
  pub body : ℕ

-- The calls that Fetch makes: the hooks, a request with its proxy, target and header, a body that is
-- received, and one that is read to its end and closed.
pub data Event : Type 0 where
  requested failed_over : Event
  sent : Bytes → Bytes → Header → Event
  received closed : ℕ → Event

pub data Result : Type 0 where
  returned : Response → Result
  failed : Error → Result

pub record Done : Type 0 where
  pub objects : ℕ → Server
  pub log : List Event
  pub result : Result

unfoldable pub is_ok : Response → Bool
is_ok resp = resp.status == 200 || resp.status == 206

-- What is left when no server is: the last response, or the last error.
unfoldable pub finish : Option Response → Option Error → Result
finish (some resp) last_err = returned resp
finish none (some error) = failed error
finish none none = failed no_available

-- lastResp.Body.Close(), if there is a last response
unfoldable pub close_last : Option Response → List Event
close_last none = []
close_last (some resp) = closed resp.body ∷ []

abbrev pub logged : List Event → Done → Done
logged events done = record done { log = events ++ done.log }

-- m.onFailover(), if another server was tried before
unfoldable pub failover : Bool → ℕ → List Event
failover hook idx = if ltb 0 idx && hook then failed_over ∷ [] else []

-- The arguments of Fetch, and the packages that it calls.
pub record Calls : Type 0 where
  pub parse : Bytes → String ⊎ Url
  pub print : Url → Bytes
  pub new_request : Bytes → Option String
  pub canonical : Bytes → Bytes
  pub exchange : ℕ → Bytes → Bytes → Header → String ⊎ Response
  pub path : Bytes
  pub headers : List (Bytes × List Bytes)

unfoldable pub received_by : String ⊎ Response → List Event
received_by (inl e) = []
received_by (inr resp) = received resp.body ∷ []

-- One round up to the answer: each of the three errors is handled in the same way.
unfoldable pub ask : Calls → ℕ → Server → List Event × (String ⊎ Response)
ask c idx server = elim (build_url c.parse c.print server.url c.path) [
  | inl e ↦ ([], inl e)
  | inr target ↦ elim (c.new_request target) [
    | some e ↦ ([], inl e)
    | none ↦
        let header = copy_end_to_end_headers c.canonical (λ k. []) c.headers in
        let answer = c.exchange idx server.proxy target header in
        (sent server.proxy target header ∷ received_by answer, answer)
  ]
]

-- The loop, from the server number `idx` on; `hook` says whether there is an onFailover.
unfoldable pub fetch_from :
    Calls → Bool → ℕ → List ℕ → Option Response → Option Error → (ℕ → Server) → Done
fetch_from c hook idx [] last_resp last_err objects = record {
  objects = objects;
  log = [];
  result = finish last_resp last_err;
}
fetch_from c hook idx (a ∷ rest) last_resp last_err objects = elim (ask c idx (objects a)).1 [
  | inl e ↦ logged (ask c idx (objects a)).0 (
      fetch_from c hook (suc idx) rest last_resp (some (library_error e))
        (mark a false (some (library_error e)) objects))
  | inr resp ↦ elim (is_ok resp) [
    | true ↦ record {
      objects = mark a true none objects;
      log = (ask c idx (objects a)).0 ++ failover hook idx;
      result = returned resp;
    }
    | false ↦ logged ((ask c idx (objects a)).0 ++ close_last last_resp) (
        fetch_from c hook (suc idx) rest (some resp) (some (status_returned resp.status))
          (mark a false (some (status resp.status)) objects))
  ]
]

-- Fetch: the manager that it leaves, its calls and its result; `none` is a panic of the order.
unfoldable pub fetch : Calls → Manager → Option (Manager × List Event × Result)
fetch c m = elim (ordered_servers m) [
  | none ↦ none
  | some (order, m1) ↦
      let done = fetch_from c m1.on_failover 0 order none none m1.objects in
      if length order == 0
      then some (m1, [], failed no_configured)
      else some (
        record m1 { objects = done.objects },
        (if m1.on_request then requested ∷ [] else []) ++ done.log,
        done.result,
      )
]
