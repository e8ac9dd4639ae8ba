-- ===== src/Tests/Caches.antt =====
-- The response cache, on results that are the number of the writes which they show.
use alma_backend_task.Prelude.{
  ℕ, ◌≤◌, ◌≡◌, refl, true, false, none, some, List, [], ◌∷◌, arith, ℕ_discrete,
}
use alma_backend_task.Cache.{
  ResponseCache, empty, get_catalog, set_catalog, get_connections, invalidate,
}
use alma_backend_task.Cache.Protocol.{
  idle, missed_catalog, fetched_catalog, System, start, set_request, miss_catalog, fetch_catalog,
  store_catalog, write, drop_cache, Reach, here, next,
}
use alma_backend_task.Cache.Freshness.{hit_is_fresh}
use alma_backend_task.Cache.Guard.{set_catalog_guarded}

abbrev shown : List ℕ → ℕ
shown [] = 0
shown (n ∷ ns) = n

-- A write and its invalidation, then a request that stores what it read.
abbrev written : System ℕ ℕ
written = record start { writes = 1 }

abbrev dropped : System ℕ ℕ
dropped = record written { cache = invalidate written.cache; epoch = 1; covered = 1 }

abbrev missed : System ℕ ℕ
missed = record dropped { requests = set_request 0 (missed_catalog 1 1 1) dropped.requests }

abbrev fetched : System ℕ ℕ
fetched = record missed { requests = set_request 0 (fetched_catalog 1 1 1) missed.requests }

abbrev stored : System ℕ ℕ
stored = record fetched {
  cache = set_catalog 1 1 fetched.cache;
  requests = set_request 0 idle fetched.requests;
}

stored-Reach : Reach (λ n. n) shown stored
unfolding get_catalog invalidate empty ℕ_discrete
stored-Reach =
    next
      (next (next (next (next here (write refl)) (drop_cache refl)) (miss_catalog 0 1 refl refl))
        (fetch_catalog 0 1 1 1 1 refl (omega arith) refl))
      (store_catalog 0 1 1 1 refl refl)

hit_is_fresh_example :
    ((v : ℕ) (gen : ℕ) → get_catalog stored.cache ≡ (some v, gen) → stored.covered ≤ v)
    × ((cs : List ℕ) (gen : ℕ)
        → get_connections stored.cache ≡ (cs, gen, true)
        → stored.covered ≤ shown cs)
hit_is_fresh_example = hit_is_fresh (λ n. n) shown stored-Reach (omega arith)

abbrev fresh : ResponseCache ℕ ℕ
fresh = record { generation = 3; catalog = none; connections = []; connections_cached = false }

set_catalog_guarded_example :
    (get_catalog (set_catalog 3 7 (invalidate fresh)) ≡ get_catalog (invalidate fresh))
    × (fresh.catalog ≡ none → get_catalog (set_catalog 3 7 fresh) ≡ (some 7, 3))
set_catalog_guarded_example = set_catalog_guarded fresh 7 (omega arith)
