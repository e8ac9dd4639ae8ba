-- ===== src/Api/Cached.antt =====
-- backend/api/api.go: a request by the cache, beside a fetch from the database.
use alma_backend_task.Prelude.{
  Bool, true, false, ◌≡◌, refl, sym, subst, arith, Option, none, some, List, ok, err, panic, inl,
  inr, Option-cases, Bool-cases,
}
use alma_backend_task.Db.Types.{Db}
use alma_backend_task.Cache.{
  ResponseCache, empty, get_catalog, set_catalog, get_connections, set_connections, invalidate,
}
use alma_backend_task.Api.Types.{CatalogResponse, ConnectionResponse, Answer}
use alma_backend_task.Api.Catalog.{fetch_catalog}
use alma_backend_task.Api.Connections.{fetch_connections}
use alma_backend_task.Api.Backend.{
  ApiBackend, new_backend, invalidate_cache, store_fetched_catalog, answer_catalog, request_catalog,
  store_fetched_connections, answer_connections, request_connections,
}

-- What the cache holds, a fetch from the database gives.
pub record IsFresh (a : ApiBackend) : Type 0 where
  pub catalog : (c : CatalogResponse) → a.cache.catalog ≡ some c → fetch_catalog a.db ≡ ok c
  pub connections :
      a.cache.connections_cached ≡ true → fetch_connections a.db ≡ ok a.cache.connections

-- The answer is the one that a fetch gives, and the backend after it is fresh, with the same database.
pub record Serves {A : Type 0} (fetch : Db → Answer A) (a : ApiBackend)
    (out : Answer A × ApiBackend) : Type 0 where
  pub answer : out.0 ≡ fetch a.db
  pub db : out.1.db ≡ a.db
  pub fresh : IsFresh out.1

-- A backend that is new, and one whose cache has been invalidated, over any database.
pub new_backend-IsFresh : (db : Db) → IsFresh (new_backend db)
unfolding new_backend empty
new_backend-IsFresh db = record { catalog = λ c e. cc; connections = λ e. cc }

pub invalidate_cache-IsFresh : (a : ApiBackend) → IsFresh (invalidate_cache a)
unfolding invalidate_cache invalidate
invalidate_cache-IsFresh a = record { catalog = λ c e. cc; connections = λ e. cc }

abbrev Cached : Type 0
Cached = ResponseCache CatalogResponse ConnectionResponse

kept_catalog :
    (c : Cached) (v old : CatalogResponse) → c.catalog ≡ some old → set_catalog c.generation v c ≡ c
unfolding set_catalog
kept_catalog c v old e = ground (arith, e)

kept_connections :
    (c : Cached) (v : List ConnectionResponse)
    → c.connections_cached ≡ true
    → set_connections c.generation v c ≡ c
unfolding set_connections
kept_connections c v e = ground (arith, e)

pub new_catalog :
    (c : Cached) (v : CatalogResponse)
    → c.catalog ≡ none
    → set_catalog c.generation v c ≡ record c { catalog = some v }
unfolding set_catalog
new_catalog c v e = ground (arith, e)

pub new_connections :
    (c : Cached) (v : List ConnectionResponse)
    → c.connections_cached ≡ false
    → set_connections c.generation v c ≡ record c { connections = v; connections_cached = true }
unfolding set_connections
new_connections c v e = ground (arith, e)

module _ (a : ApiBackend) (h : IsFresh a) where
  with_cache :
      (c c' : Cached)
      → c' ≡ c
      → IsFresh (record a { cache = c })
      → IsFresh (record a { cache = c' })
  with_cache c c' e k = subst (λ x. IsFresh (record a { cache = x })) (sym e) k

  stored_catalog :
      (v : CatalogResponse)
      → fetch_catalog a.db ≡ ok v
      → IsFresh (record a { cache = set_catalog a.cache.generation v a.cache })
  stored_catalog v f = elim (Option-cases a.cache.catalog) [
    | inl e ↦ with_cache _ _ (new_catalog a.cache v e) (record {
      catalog = λ c p. let same : v ≡ c = cc p in subst (λ x. fetch_catalog a.db ≡ ok x) same f;
      connections = h.connections;
    })
    | inr (old, e) ↦ with_cache a.cache _ (kept_catalog a.cache v old e) h
  ]

  stored_connections :
      (v : List ConnectionResponse)
      → fetch_connections a.db ≡ ok v
      → IsFresh (record a { cache = set_connections a.cache.generation v a.cache })
  stored_connections v f = elim (Bool-cases a.cache.connections_cached) [
    | inl e ↦ with_cache a.cache _ (kept_connections a.cache v e) h
    | inr e ↦
        with_cache _ _ (new_connections a.cache v e)
          (record { catalog = h.catalog; connections = λ p. f })
  ]

  fetched_catalog-Serves :
      (fetched : Answer CatalogResponse)
      → fetch_catalog a.db ≡ fetched
      → Serves fetch_catalog a (store_fetched_catalog a.cache.generation fetched a)
  fetched_catalog-Serves (ok c) f = record { answer = sym f; db = refl; fresh = stored_catalog c f }
  fetched_catalog-Serves (err e) f = record { answer = sym f; db = refl; fresh = h }
  fetched_catalog-Serves panic f = record { answer = sym f; db = refl; fresh = h }

  fetched_connections-Serves :
      (fetched : Answer (List ConnectionResponse))
      → fetch_connections a.db ≡ fetched
      → Serves fetch_connections a (store_fetched_connections a.cache.generation fetched a)
  fetched_connections-Serves (ok cs) f = record {
    answer = sym f;
    db = refl;
    fresh = stored_connections cs f;
  }
  fetched_connections-Serves (err e) f = record { answer = sym f; db = refl; fresh = h }
  fetched_connections-Serves panic f = record { answer = sym f; db = refl; fresh = h }

  answer_catalog-Serves :
      (held : Option CatalogResponse)
      → a.cache.catalog ≡ held
      → Serves fetch_catalog a (answer_catalog (held, a.cache.generation) a)
  answer_catalog-Serves none e = fetched_catalog-Serves (fetch_catalog a.db) refl
  answer_catalog-Serves (some c) e = record { answer = sym (h.catalog c e); db = refl; fresh = h }

  answer_connections-Serves :
      (cached : Bool)
      → a.cache.connections_cached ≡ cached
      → Serves fetch_connections a
          (answer_connections (a.cache.connections, a.cache.generation, cached) a)
  answer_connections-Serves true e = record { answer = sym (h.connections e); db = refl; fresh = h }
  answer_connections-Serves false e = fetched_connections-Serves (fetch_connections a.db) refl

  -- If what the cache holds is what a fetch from the database gives, `GetCatalog` answers what a fetch
  -- gives, its errors included, the database stays, and what the cache then holds is what a fetch
  -- gives.
  pub request_catalog-Serves : Serves fetch_catalog a (request_catalog a)
  unfolding request_catalog get_catalog
  request_catalog-Serves = answer_catalog-Serves a.cache.catalog refl

  -- If what the cache holds is what a fetch from the database gives, `GetConnections` answers what a
  -- fetch gives, its errors included, the database stays, and what the cache then holds is what a
  -- fetch gives.
  pub request_connections-Serves : Serves fetch_connections a (request_connections a)
  unfolding request_connections get_connections
  request_connections-Serves = answer_connections-Serves a.cache.connections_cached refl
