-- ===== src/Processor/Batches.antt =====
-- backend/processor/processor.go: the four batches of `flush`, each on a database with its table.
use alma_backend_task.Prelude.{◌≡◌, none, [], ok, Option-cases, inl, inr, String-discrete}
use alma_backend_task.GoMap
use alma_backend_task.GoMap.{Map}
use alma_backend_task.Schema
use alma_backend_task.Db.Types.{Db, Outcome, at}
use alma_backend_task.Db.Index.{contains}
use alma_backend_task.Db.Validity.Rows.{merged}
use alma_backend_task.Db.Validity.Databases.{upsert_batch-Performs}
use alma_backend_task.Db.Validity.Conflicts.{joined, insert_batch_on_conflict-Performs}
use alma_backend_task.Processor.Accumulate.{Accumulator}
use alma_backend_task.Processor.Flush.{
  do_nothing, merge_ids, Flushed, flush_items, flush_components, flush_piis, flush_connections,
}
use alma_backend_task.Processor.Options.{do_nothing-Resolves, merge_ids-Resolves}
use alma_backend_task.Processor.Served.{Holds, Stores, Suited-BatchFits, run_batch-Stores}
use alma_backend_task.Processor.Suited.{IsReady}

-- No error, and databases in that relation.
abbrev pub Stored : Db → (Db → Db → Type 0) → Outcome Flushed → Type 0
Stored db P out = (db' : Db) × (out ≡ ok (db', [])) × P db db'

-- The batch of one goroutine, on a database with its table.
pub flush_items-Stores :
    (acc : Accumulator) (db : Db)
    → IsReady acc
    → Holds "app_items" Schema.app_items db
    → Stored db
        (Stores "app_items" Schema.app_items merged (GoMap.values acc.app_items))
        (flush_items acc db)
unfolding flush_items
flush_items-Stores acc db r h = run_batch-Stores h merged _ _ (GoMap.values acc.app_items) (
    upsert_batch-Performs "app_items" db h.table h.found (GoMap.values acc.app_items) h.valid
      (Suited-BatchFits h (GoMap.values acc.app_items) r.app_items))

-- The batch of one goroutine, on a database with its table.
pub flush_components-Stores :
    (acc : Accumulator) (db : Db)
    → IsReady acc
    → Holds "components" Schema.components db
    → Stored db
        (Stores "components" Schema.components merged (GoMap.values acc.components))
        (flush_components acc db)
unfolding flush_components
flush_components-Stores acc db r h = run_batch-Stores h merged _ _ (GoMap.values acc.components) (
    upsert_batch-Performs "components" db h.table h.found (GoMap.values acc.components) h.valid
      (Suited-BatchFits h (GoMap.values acc.components) r.components))

-- The batch of one goroutine, on a database with its table.
pub flush_piis-Stores :
    (acc : Accumulator) (db : Db)
    → IsReady acc
    → Holds "component_piis" Schema.component_piis db
    → Stored db
        (Stores "component_piis" Schema.component_piis (joined do_nothing) (GoMap.values acc.piis))
        (flush_piis acc db)
unfolding flush_piis
flush_piis-Stores acc db r h = run_batch-Stores h (joined do_nothing) _ _ (GoMap.values acc.piis) (
    insert_batch_on_conflict-Performs "component_piis" db h.table h.found do_nothing
      (GoMap.values acc.piis) h.valid (do_nothing-Resolves h.table.indexes)
      (Suited-BatchFits h (GoMap.values acc.piis) r.piis))

-- The field that the processor merges is not indexed.
ids_free :
    {db : Db} (h : Holds "connections" Schema.connections db)
    → at "component_ids" h.table.indexes ≡ none
unfolding contains Schema.connections String-discrete
ids_free h = elim (Option-cases (at "component_ids" h.table.indexes)) [
  | inl e ↦ e
  | inr (idx, a) ↦ cc (h.indexed "component_ids" (λ e. cc (a, e)))
]

-- The batch of one goroutine, on a database with its table.
pub flush_connections-Stores :
    (acc : Accumulator) (db : Db)
    → IsReady acc
    → Holds "connections" Schema.connections db
    → Stored db
        (Stores "connections" Schema.connections (joined merge_ids) (GoMap.values acc.connections))
        (flush_connections acc db)
unfolding flush_connections
flush_connections-Stores acc db r h =
    run_batch-Stores h (joined merge_ids) _ _ (GoMap.values acc.connections) (
      insert_batch_on_conflict-Performs "connections" db h.table h.found merge_ids
        (GoMap.values acc.connections) h.valid (merge_ids-Resolves h.table.indexes (ids_free h))
        (Suited-BatchFits h (GoMap.values acc.connections) r.connections))
