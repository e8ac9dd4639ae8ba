-- ===== src/Cache.antt =====
-- backend/api/cache.go: the response cache, over any type of catalog and of connections. Each method
-- holds the lock for the whole of its body, so it is one step.
pub mod Protocol
pub mod Freshness
pub mod Guard
use alma_backend_task.Prelude.{
  ℕ, ◌+◌, ◌%◌, ◌^◌, Bool, true, false, not, ◌&&◌, Option, none, some, List, [], ite, ℕ_discrete,
  if◌then◌else◌,
}

-- The range of `uint64`.
abbrev pub generations : ℕ
generations = 2 ^ 64

module _ (Catalog Connection : Type 0) where
  pub record ResponseCache : Type 0 where
    pub generation : ℕ
    pub catalog : Option Catalog
    pub connections : List Connection
    pub connections_cached : Bool

module _ {Catalog Connection : Type 0} where
  -- The zero value.
  unfoldable pub empty : ResponseCache Catalog Connection
  empty = record { generation = 0; catalog = none; connections = []; connections_cached = false }

  unfoldable pub get_catalog : ResponseCache Catalog Connection → Option Catalog × ℕ
  get_catalog c = (c.catalog, c.generation)

  abbrev store_catalog :
      Option Catalog → Catalog → ResponseCache Catalog Connection → ResponseCache Catalog Connection
  store_catalog none v c = record c { catalog = some v }
  store_catalog (some old) v c = c

  -- `if c.generation == gen && c.catalog == nil { c.catalog = v }`
  unfoldable pub set_catalog :
      ℕ → Catalog → ResponseCache Catalog Connection → ResponseCache Catalog Connection
  set_catalog gen v c = ite (ℕ_discrete c.generation gen) (store_catalog c.catalog v c) c

  unfoldable pub get_connections : ResponseCache Catalog Connection → List Connection × ℕ × Bool
  get_connections c = (c.connections, c.generation, c.connections_cached)

  unfoldable pub set_connections :
      ℕ → List Connection → ResponseCache Catalog Connection → ResponseCache Catalog Connection
  set_connections gen v c =
      ite (ℕ_discrete c.generation gen)
        (if c.connections_cached
          then c
          else record c { connections = v; connections_cached = true })
        c

  unfoldable pub invalidate : ResponseCache Catalog Connection → ResponseCache Catalog Connection
  invalidate c = record {
    generation = (c.generation + 1) % generations;
    catalog = none;
    connections = [];
    connections_cached = false;
  }
