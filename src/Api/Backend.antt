-- ===== src/Api/Backend.antt =====
-- backend/api/api.go: `APIBackend` with its cache. Each method gives its answer and the backend after
-- it. Logs are left out, and Api/Metered has the metrics.
use alma_backend_task.Prelude.{ℕ, Bool, true, false, Option, none, some, List, ok, err, panic}
use alma_backend_task.Db.Types.{Db}
use alma_backend_task.Cache.{
  ResponseCache, empty, get_catalog, set_catalog, get_connections, set_connections, invalidate,
}
use alma_backend_task.Api.Types.{CatalogResponse, ConnectionResponse, Answer}
use alma_backend_task.Api.Catalog.{fetch_catalog}
use alma_backend_task.Api.Connections.{fetch_connections}

pub record ApiBackend : Type 0 where
  pub db : Db
  pub cache : ResponseCache CatalogResponse ConnectionResponse

unfoldable pub new_backend : Db → ApiBackend
new_backend db = record { db = db; cache = empty }

unfoldable pub invalidate_cache : ApiBackend → ApiBackend
invalidate_cache a = record a { cache = invalidate a.cache }

-- The end of a request that missed: an error leaves the cache as it was.
abbrev pub store_fetched_catalog :
    ℕ → Answer CatalogResponse → ApiBackend → Answer CatalogResponse × ApiBackend
store_fetched_catalog gen (ok c) a = (ok c, record a { cache = set_catalog gen c a.cache })
store_fetched_catalog gen (err e) a = (err e, a)
store_fetched_catalog gen panic a = (panic, a)

abbrev pub answer_catalog :
    Option CatalogResponse × ℕ → ApiBackend → Answer CatalogResponse × ApiBackend
answer_catalog (some c, gen) a = (ok c, a)
answer_catalog (none, gen) a = store_fetched_catalog gen (fetch_catalog a.db) a

unfoldable pub request_catalog : ApiBackend → Answer CatalogResponse × ApiBackend
request_catalog a = answer_catalog (get_catalog a.cache) a

abbrev pub store_fetched_connections :
    ℕ
    → Answer (List ConnectionResponse)
    → ApiBackend
    → Answer (List ConnectionResponse) × ApiBackend
store_fetched_connections gen (ok cs) a =
    (ok cs, record a { cache = set_connections gen cs a.cache })
store_fetched_connections gen (err e) a = (err e, a)
store_fetched_connections gen panic a = (panic, a)

abbrev pub answer_connections :
    List ConnectionResponse × ℕ × Bool → ApiBackend → Answer (List ConnectionResponse) × ApiBackend
answer_connections (cs, gen, true) a = (ok cs, a)
answer_connections (cs, gen, false) a = store_fetched_connections gen (fetch_connections a.db) a

unfoldable pub request_connections : ApiBackend → Answer (List ConnectionResponse) × ApiBackend
request_connections a = answer_connections (get_connections a.cache) a
