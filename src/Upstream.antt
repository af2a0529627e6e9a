-- ===== src/Upstream.antt =====
-- internal/upstream/upstream.go: the servers that packages are fetched from. A *Server is an object,
-- so the manager's list holds addresses of the heap `objects`; the hooks are there or not.
pub mod Order
pub mod OrderLaws
pub mod Headers
pub mod HeaderLaws
pub mod Paths
pub mod PathLaws
pub mod Fetch
pub mod Answers
pub mod Sends
pub mod FetchLaws
pub mod FetchResults
mod Runs
use apk_cache.Prelude.{
  ℕ, suc, ◌+◌, String, Bool, true, false, Option, none, some, List, [], ◌∷◌, ◌++◌, Bytes, length,
  ◌==◌, if◌then◌else◌,
}

-- The errors that a server is marked with and that Fetch returns; those of a library are texts.
pub data Error : Type 0 where
  library_error : String → Error
  status status_returned : ℕ → Error
  no_configured no_available : Error

-- `last_err` is none for nil and for "", which LastError does not tell apart.
pub record Server : Type 0 where
  pub name : Bytes
  pub url : Bytes
  pub proxy : Bytes
  pub healthy : Bool
  pub last_err : Option Error

unfoldable pub new_server : Bytes → Bytes → Bytes → Server
new_server url proxy name = record {
  name = name;
  url = url;
  proxy = proxy;
  healthy = true;
  last_err = none;
}

pub record Manager : Type 0 where
  pub servers : List ℕ
  pub objects : ℕ → Server
  pub next : ℕ
  pub on_request : Bool
  pub on_failover : Bool

-- Server.mark, of the server at an address
unfoldable pub mark : ℕ → Bool → Option Error → (ℕ → Server) → ℕ → Server
mark address ok error objects a =
    if address == a then record (objects a) { healthy = ok; last_err = error } else objects a

-- Add
unfoldable pub add : ℕ → Manager → Manager
add server m = record m { servers = m.servers ++ (server ∷ []) }

unfoldable pub count : Manager → ℕ
count m = length m.servers

unfoldable count_healthy : List ℕ → (ℕ → Server) → ℕ
count_healthy [] objects = 0
count_healthy (a ∷ rest) objects =
    let counted = count_healthy rest objects in if (objects a).healthy then suc counted else counted

unfoldable pub healthy_count : Manager → ℕ
unfolding count_healthy
healthy_count m = count_healthy m.servers m.objects

-- Servers: a copy of the list
unfoldable pub servers_of : Manager → List ℕ
servers_of m = m.servers

unfoldable pub set_metrics_hooks : Bool → Bool → Manager → Manager
set_metrics_hooks on_request on_failover m = record m {
  on_request = on_request;
  on_failover = on_failover;
}
