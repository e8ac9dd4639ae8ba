-- ===== src/Api/Metered/Bounds.antt =====
-- backend/api/api.go: how often requests miss the cache.
use alma_backend_task.Prelude.{
  ℕ, ◌+◌, ◌≤◌, String, Bool, true, false, ◌≡◌, refl, ◌∙◌, ap, List, [], ◌∷◌, ok, ite, arith,
  String-discrete,
}
use alma_backend_task.Metrics.{Counters}
use alma_backend_task.Cache.{get_catalog, get_connections}
use alma_backend_task.Api.Types.{CatalogResponse, ConnectionResponse}
use alma_backend_task.Api.Catalog.{fetch_catalog}
use alma_backend_task.Api.Connections.{fetch_connections}
use alma_backend_task.Api.Backend.{ApiBackend, request_catalog, request_connections}
use alma_backend_task.Api.Cached.{IsFresh, request_catalog-Serves, request_connections-Serves}
use alma_backend_task.Api.Metered.{
  is_held, metered_catalog, metered_connections, Endpoint, request_at, requests,
}
use alma_backend_task.Api.Metered.Tallies.{
  label, hits, misses, queries, asked, owe, held, missed, missed-zero, Tallies,
  count_request-Tallies, catalog_answered, connections_answered,
}

-- One request: what it costs each endpoint, and what it leaves for the next.
module _ (v : CatalogResponse) (vs : List ConnectionResponse) where
  record IsUp (a : ApiBackend) : Type 0 where
    fresh : IsFresh a
    catalog : fetch_catalog a.db ≡ ok v
    connections : fetch_connections a.db ≡ ok vs

  request_at-IsUp :
      (e : Endpoint) (a : ApiBackend) (c : Counters) → IsUp a → IsUp (request_at e (a, c)).0
  unfolding request_at metered_catalog metered_connections
  request_at-IsUp Endpoint.catalog a c u =
      let s = request_catalog-Serves a u.fresh in
      record {
        fresh = s.fresh;
        catalog = ap fetch_catalog s.db ∙ u.catalog;
        connections = ap fetch_connections s.db ∙ u.connections;
      }
  request_at-IsUp Endpoint.connections a c u =
      let s = request_connections-Serves a u.fresh in
      record {
        fresh = s.fresh;
        catalog = ap fetch_catalog s.db ∙ u.catalog;
        connections = ap fetch_connections s.db ∙ u.connections;
      }

  request_at-owe :
      (e t : Endpoint) (a : ApiBackend) (c : Counters)
      → IsUp a
      → owe (held t a)
        ≡ owe (held t (request_at e (a, c)).0)
          + missed (held e a) (ite (String-discrete (label e) (label t)) 1 0)
  unfolding request_at metered_catalog metered_connections request_catalog request_connections
      get_catalog get_connections String-discrete
  request_at-owe Endpoint.catalog Endpoint.catalog a c u =
      (catalog_answered a v vs u.catalog u.connections a.cache.catalog refl).0
  request_at-owe Endpoint.catalog Endpoint.connections a c u = omega (
    arith,
    ap owe (catalog_answered a v vs u.catalog u.connections a.cache.catalog refl).1,
    missed-zero (is_held a.cache.catalog),
  )
  request_at-owe Endpoint.connections Endpoint.catalog a c u = omega (
    arith,
    ap (λ o. owe (is_held o))
        (connections_answered a v vs u.catalog u.connections a.cache.connections_cached refl).1,
    missed-zero a.cache.connections_cached,
  )
  request_at-owe Endpoint.connections Endpoint.connections a c u =
      (connections_answered a v vs u.catalog u.connections a.cache.connections_cached refl).0

  request_at-Tallies :
      (e t : Endpoint) (a : ApiBackend) (c : Counters)
      → IsUp a
      → Tallies
          (label t)
          (ite (String-discrete (label e) (label t)) 1 0)
          (owe (held t a))
          (owe (held t (request_at e (a, c)).0))
          c
          (request_at e (a, c)).1
  unfolding request_at metered_catalog metered_connections get_catalog get_connections
  request_at-Tallies Endpoint.catalog t a c u =
      count_request-Tallies "catalog" (label t) (is_held a.cache.catalog) c (owe (held t a)) _
        (request_at-owe Endpoint.catalog t a c u)
  request_at-Tallies Endpoint.connections t a c u =
      count_request-Tallies "connections" (label t) a.cache.connections_cached c (owe (held t a)) _
        (request_at-owe Endpoint.connections t a c u)

  requests-Tallies :
      (es : List Endpoint) (t : Endpoint) (a : ApiBackend) (c : Counters)
      → IsUp a
      → Tallies
          (label t)
          (asked (label t) es)
          (owe (held t a))
          (owe (held t (requests es (a, c)).0))
          c
          (requests es (a, c)).1
  unfolding requests asked
  requests-Tallies [] t a c u = record { answered = omega arith; missing = refl; observed = refl }
  requests-Tallies (e ∷ es) t a c u =
      let one = request_at-Tallies e t a c u in
      let rest =
        requests-Tallies es t (request_at e (a, c)).0 (request_at e (a, c)).1
          (request_at-IsUp e a c u) in
      record {
        answered = omega (arith, one.answered, rest.answered);
        missing = omega (arith, one.missing, rest.missing);
        observed = omega (arith, one.observed, rest.observed);
      }

owe-le : (b : Bool) → owe b ≤ 1
owe-le true = omega arith
owe-le false = omega arith

-- What requests count at an endpoint: each is a hit or a miss, at most one misses, and each miss is a
-- query that is timed.
pub record Bounded (t : String) (n : ℕ) (c c' : Counters) : Type 0 where
  pub answered : hits t c' + misses t c' ≡ hits t c + misses t c + n
  pub missing : misses t c' ≤ misses t c + 1
  pub observed : queries t c' + misses t c ≡ queries t c + misses t c'

-- If what the cache holds is what a fetch gives, and both fetches return, then any requests, one after
-- the other and with no invalidation between them, count a hit or a miss of their endpoint each, at
-- most one miss of each endpoint, and the duration of a query for each miss.
pub requests-Bounded :
    (es : List Endpoint) (t : Endpoint) (a : ApiBackend) (c : Counters) (v : CatalogResponse)
    (vs : List ConnectionResponse)
    → IsFresh a
    → fetch_catalog a.db ≡ ok v
    → fetch_connections a.db ≡ ok vs
    → Bounded (label t) (asked (label t) es) c (requests es (a, c)).1
requests-Bounded es t a c v vs h f g =
    let k = requests-Tallies v vs es t a c (record { fresh = h; catalog = f; connections = g }) in
    record {
      answered = k.answered;
      missing = omega (arith, k.missing, owe-le (held t a));
      observed = k.observed;
    }
