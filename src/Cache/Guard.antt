-- ===== src/Cache/Guard.antt =====
-- backend/api/cache.go: what a later reader finds after a store, with an invalidation before it or not.
use alma_backend_task.Prelude.{◌<◌, ◌≡◌, true, false, none, some, List, arith}
use alma_backend_task.Cache.{
  ResponseCache, generations, get_catalog, set_catalog, get_connections, set_connections,
  invalidate,
}

module _ {Catalog Connection : Type 0} where
  -- With a generation below 2^64: after an invalidation, `setCatalog` with the generation from before
  -- it changes nothing that `getCatalog` gives, and with the present generation and no catalog cached,
  -- `getCatalog` then gives the catalog.
  pub set_catalog_guarded :
      (c : ResponseCache Catalog Connection) (v : Catalog)
      → c.generation < generations
      → (get_catalog (set_catalog c.generation v (invalidate c)) ≡ get_catalog (invalidate c))
        × (c.catalog ≡ none → get_catalog (set_catalog c.generation v c) ≡ (some v, c.generation))
  unfolding get_catalog set_catalog invalidate
  set_catalog_guarded c v small = (ground arith, λ h. ground arith)

  -- With a generation below 2^64: after an invalidation, `setConnections` with the generation from
  -- before it changes nothing that `getConnections` gives, and with the present generation and none
  -- cached, `getConnections` then gives the connections, as cached.
  pub set_connections_guarded :
      (c : ResponseCache Catalog Connection) (v : List Connection)
      → c.generation < generations
      → (get_connections (set_connections c.generation v (invalidate c))
          ≡ get_connections (invalidate c))
        × (c.connections_cached ≡ false
            → get_connections (set_connections c.generation v c) ≡ (v, c.generation, true))
  unfolding get_connections set_connections invalidate
  set_connections_guarded c v small = (ground arith, λ h. ground arith)
