-- ===== src/Api/Metered.antt =====
-- backend/api/api.go: `GetCatalog` and `GetConnections` with what they count, and requests of both one
-- after the other.
pub mod Tallies
pub mod Bounds
use alma_backend_task.Prelude.{
  ℕ, suc, ◌+◌, String, Bool, true, false, Option, none, some, List, [], ◌∷◌,
}
use alma_backend_task.Metrics.{Counters, add_at_label}
use alma_backend_task.Cache.{get_catalog, get_connections}
use alma_backend_task.Api.Types.{CatalogResponse, ConnectionResponse, Answer}
use alma_backend_task.Api.Backend.{ApiBackend, request_catalog, request_connections}

-- A hit is counted at once. A miss is, and the deferred function observes the duration of the query,
-- whatever becomes of it.
unfoldable pub count_request : String → Bool → Counters → Counters
count_request endpoint true c = record c {
  cache_hits_total = add_at_label endpoint 1 c.cache_hits_total;
}
count_request endpoint false c = record c {
  cache_misses_total = add_at_label endpoint 1 c.cache_misses_total;
  api_query_duration = add_at_label endpoint 1 c.api_query_duration;
}

-- `cached != nil`
abbrev pub is_held : {A : Type 0} → Option A → Bool
is_held none = false
is_held (some v) = true

unfoldable pub metered_catalog :
    ApiBackend → Counters → (Answer CatalogResponse × ApiBackend) × Counters
metered_catalog a c =
    let (cached, gen) = get_catalog a.cache in
    (request_catalog a, count_request "catalog" (is_held cached) c)

unfoldable pub metered_connections :
    ApiBackend → Counters → (Answer (List ConnectionResponse) × ApiBackend) × Counters
metered_connections a c =
    let (cached, gen, ok) = get_connections a.cache in
    (request_connections a, count_request "connections" ok c)

pub data Endpoint : Type 0 where
  catalog connections : Endpoint

-- One request, for what it leaves.
unfoldable pub request_at : Endpoint → ApiBackend × Counters → ApiBackend × Counters
request_at catalog (a, c) = let (out, c') = metered_catalog a c in (out.1, c')
request_at connections (a, c) = let (out, c') = metered_connections a c in (out.1, c')

unfoldable pub requests : List Endpoint → ApiBackend × Counters → ApiBackend × Counters
requests [] s = s
requests (e ∷ es) s = requests es (request_at e s)
