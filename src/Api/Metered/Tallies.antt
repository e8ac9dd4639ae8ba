-- ===== src/Api/Metered/Tallies.antt =====
-- backend/api/api.go: what one request counts, and what it leaves in the cache.
use alma_backend_task.Prelude.{
  ℕ, ◌+◌, String, Bool, true, false, ◌≡◌, refl, Option, none, some, List, [], ◌∷◌, ok, ite, arith,
  String-discrete,
}
use alma_backend_task.Metrics.{Counters, or_zero}
use alma_backend_task.Metrics.Sums.{at-add_at_label}
use alma_backend_task.Db.Types.{at}
use alma_backend_task.Api.Types.{CatalogResponse, ConnectionResponse}
use alma_backend_task.Api.Catalog.{fetch_catalog}
use alma_backend_task.Api.Connections.{fetch_connections}
use alma_backend_task.Api.Backend.{ApiBackend, answer_catalog, answer_connections}
use alma_backend_task.Api.Cached.{new_catalog, new_connections}
use alma_backend_task.Api.Metered.{count_request, is_held, Endpoint}

abbrev pub label : Endpoint → String
label Endpoint.catalog = "catalog"
label Endpoint.connections = "connections"

abbrev pub hits : String → Counters → ℕ
hits t c = or_zero (at t c.cache_hits_total)

abbrev pub misses : String → Counters → ℕ
misses t c = or_zero (at t c.cache_misses_total)

abbrev pub queries : String → Counters → ℕ
queries t c = or_zero (at t c.api_query_duration)

-- The requests of the endpoint.
unfoldable pub asked : String → List Endpoint → ℕ
asked t [] = 0
asked t (e ∷ es) = let rest = asked t es in ite (String-discrete (label e) t) 1 0 + rest

-- The misses that are still to come: one, if the cache does not hold the response.
abbrev pub owe : Bool → ℕ
owe true = 0
owe false = 1

abbrev pub held : Endpoint → ApiBackend → Bool
held Endpoint.catalog a = is_held a.cache.catalog
held Endpoint.connections a = a.cache.connections_cached

abbrev pub missed : Bool → ℕ → ℕ
missed true n = 0
missed false n = n

pub missed-zero : (b : Bool) → missed b 0 ≡ 0
missed-zero true = refl
missed-zero false = refl

pub record Tallies (t : String) (n owed owed' : ℕ) (c c' : Counters) : Type 0 where
  pub answered : hits t c' + misses t c' ≡ hits t c + misses t c + n
  pub missing : misses t c' + owed' ≡ misses t c + owed
  pub observed : queries t c' + misses t c ≡ queries t c + misses t c'

pub count_request-Tallies :
    (endpoint t : String) (cached : Bool) (c : Counters) (owed owed' : ℕ)
    → owed ≡ owed' + missed cached (ite (String-discrete endpoint t) 1 0)
    → Tallies t
        (ite (String-discrete endpoint t) 1 0)
        owed
        owed'
        c
        (count_request endpoint cached c)
unfolding count_request
count_request-Tallies endpoint t true c owed owed' e =
    let h = at-add_at_label endpoint t c.cache_hits_total in
    record { answered = omega (arith, h); missing = omega (arith, e); observed = refl }
count_request-Tallies endpoint t false c owed owed' e =
    let m = at-add_at_label endpoint t c.cache_misses_total in
    let q = at-add_at_label endpoint t c.api_query_duration in
    record {
      answered = omega (arith, m);
      missing = omega (arith, e, m);
      observed = omega (arith, m, q);
    }

module _ (a : ApiBackend) (v : CatalogResponse) (vs : List ConnectionResponse)
    (f : fetch_catalog a.db ≡ ok v) (g : fetch_connections a.db ≡ ok vs) where
  pub catalog_answered :
      (o : Option CatalogResponse)
      → a.cache.catalog ≡ o
      → (owe (is_held o)
          ≡ owe (is_held (answer_catalog (o, a.cache.generation) a).1.cache.catalog)
            + missed (is_held o) 1)
        × ((answer_catalog (o, a.cache.generation) a).1.cache.connections_cached
            ≡ a.cache.connections_cached)
  catalog_answered (some c) e = (rw e refl, refl)
  catalog_answered none e = rw (f, new_catalog a.cache v e) (refl, refl)

  pub connections_answered :
      (b : Bool)
      → a.cache.connections_cached ≡ b
      → (owe b
          ≡ owe
              (answer_connections
                (a.cache.connections, a.cache.generation, b)
                a).1.cache.connections_cached
            + missed b 1)
        × ((answer_connections (a.cache.connections, a.cache.generation, b) a).1.cache.catalog
            ≡ a.cache.catalog)
  connections_answered true e = (rw e refl, refl)
  connections_answered false e = rw (g, new_connections a.cache vs e) (refl, refl)
