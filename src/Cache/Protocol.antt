-- ===== src/Cache/Protocol.antt =====
-- backend/api/api.go and cache.go: any number of requests and invalidations, interleaved. A request
-- that misses reads the database with no lock held, and stores its result later. The database is
-- seen by the number of its writes so far; a result carries how many of them it shows.
use alma_backend_task.Prelude.{ℕ, ◌+◌, ◌≤◌, ◌≡◌, false, none, List, ite, ℕ_discrete}
use alma_backend_task.Cache.{
  ResponseCache, empty, get_catalog, set_catalog, get_connections, set_connections, invalidate,
}

module _ (Catalog Connection : Type 0) where
  -- Where a request stands. `missed gen epoch start`: it read generation `gen` after `epoch`
  -- invalidations and `start` writes. `fetched gen epoch v`: it has its result.
  pub data Request : Type 0 where
    idle : Request
    missed_catalog missed_connections : ℕ → ℕ → ℕ → Request
    fetched_catalog : ℕ → ℕ → Catalog → Request
    fetched_connections : ℕ → ℕ → List Connection → Request

  -- `writes` done so far, `covered` by the last of the `epoch` invalidations.
  pub record System : Type 0 where
    pub cache : ResponseCache Catalog Connection
    pub requests : ℕ → Request
    pub epoch : ℕ
    pub writes : ℕ
    pub covered : ℕ

module _ {Catalog Connection : Type 0} where
  abbrev pub set_request :
      ℕ
      → Request Catalog Connection
      → (ℕ → Request Catalog Connection)
      → ℕ
      → Request Catalog Connection
  set_request i r f j = ite (ℕ_discrete i j) r (f j)

  abbrev pub start : System Catalog Connection
  start = record { cache = empty; requests = λ i. idle; epoch = 0; writes = 0; covered = 0 }

module _ {Catalog Connection : Type 0} (shows : Catalog → ℕ) (shows_all : List Connection → ℕ) where
  pub data Step (s t : System Catalog Connection) : Type 0 where
    miss_catalog :
        (i : ℕ) (gen : ℕ)
        → get_catalog s.cache ≡ (none, gen)
        → t ≡ record s { requests = set_request i (missed_catalog gen s.epoch s.writes) s.requests }
        → Step s t
    miss_connections :
        (i : ℕ) (gen : ℕ) (stale : List Connection)
        → get_connections s.cache ≡ (stale, gen, false)
        → t ≡ record s {
          requests = set_request i (missed_connections gen s.epoch s.writes) s.requests;
        }
        → Step s t
    fetch_catalog :
        (i gen epoch begun : ℕ) (v : Catalog)
        → s.requests i ≡ missed_catalog gen epoch begun
        → begun ≤ shows v
        → t ≡ record s { requests = set_request i (fetched_catalog gen epoch v) s.requests }
        → Step s t
    fetch_connections :
        (i gen epoch begun : ℕ) (v : List Connection)
        → s.requests i ≡ missed_connections gen epoch begun
        → begun ≤ shows_all v
        → t ≡ record s { requests = set_request i (fetched_connections gen epoch v) s.requests }
        → Step s t
    store_catalog :
        (i gen epoch : ℕ) (v : Catalog)
        → s.requests i ≡ fetched_catalog gen epoch v
        → t
          ≡ record s { cache = set_catalog gen v s.cache; requests = set_request i idle s.requests }
        → Step s t
    store_connections :
        (i gen epoch : ℕ) (v : List Connection)
        → s.requests i ≡ fetched_connections gen epoch v
        → t ≡ record s {
          cache = set_connections gen v s.cache;
          requests = set_request i idle s.requests;
        }
        → Step s t
    write : t ≡ record s { writes = s.writes + 1 } → Step s t
    drop_cache :
        t ≡ record s { cache = invalidate s.cache; epoch = s.epoch + 1; covered = s.writes }
        → Step s t

  pub data Reach : System Catalog Connection → Type 0 where
    here : Reach start
    next : {s t : System Catalog Connection} → Reach s → Step s t → Reach t
