-- ===== src/Processor/Flush.antt =====
-- backend/processor/processor.go: `flush`. The two batches of a wave run in two
-- goroutines on different tables: here in the order of the source, app_items before components and
-- component_piis before connections. Logs are left out, and Processor/Metered has the metrics.
use alma_backend_task.Prelude.{String, List, [], ◌∷◌, ◌++◌, ok, err, panic, ◌>>=◌}
use alma_backend_task.GoMap
use alma_backend_task.GoMap.{Map}
use alma_backend_task.Db.Types.{
  Record, Db, Error, Outcome, ConflictOptions, conflict_do_nothing, conflict_do_update,
}
use alma_backend_task.Db.Batch.{upsert_batch}
use alma_backend_task.Db.Conflict.{insert_batch_on_conflict}
use alma_backend_task.Processor.Accumulate.{Accumulator, merge_unique_strings}

unfoldable pub do_nothing : ConflictOptions
do_nothing = record { action = conflict_do_nothing; update_fields = []; merge_funcs = [] }

unfoldable pub merge_ids : ConflictOptions
merge_ids = record {
  action = conflict_do_update;
  update_fields = "component_ids" ∷ [];
  merge_funcs = ("component_ids", merge_unique_strings) ∷ [];
}

-- `fmt.Errorf("batch upsert app_items: %w", err)` and its like.
pub data FlushError : Type 0 where
  batch : String → Error → FlushError

-- What `flush` gives back: the database, and the errors that `errors.Join` collects. The database is
-- that of the batches that went through, also beside an error.
abbrev pub Flushed : Type 0
Flushed = Db × List FlushError

-- One goroutine: an empty map is skipped, and a failed batch leaves its error.
settled : String → Db → Outcome Db → Outcome Flushed
settled label db (ok db') = ok (db', [])
settled label db (err e) = ok (db, batch label e ∷ [])
settled label db panic = panic

unfoldable pub run_batch :
    String → (List Record → Db → Outcome Db) → List Record → Db → Outcome Flushed
unfolding settled
run_batch label write [] db = ok (db, [])
run_batch label write (r ∷ rs) db = settled label db (write (r ∷ rs) db)

-- Both goroutines of a wave run to their end; the errors are joined after `wg.Wait`.
unfoldable pub wave : (Db → Outcome Flushed) → (Db → Outcome Flushed) → Db → Outcome Flushed
wave first second db = do
  (db₁, errors₁) ← first db
  (db₂, errors₂) ← second db₁
  ok (db₂, errors₁ ++ errors₂)

unfoldable pub flush_items : Accumulator → Db → Outcome Flushed
flush_items acc =
    run_batch "batch upsert app_items" (upsert_batch "app_items") (GoMap.values acc.app_items)

unfoldable pub flush_components : Accumulator → Db → Outcome Flushed
flush_components acc =
    run_batch "batch upsert components" (upsert_batch "components") (GoMap.values acc.components)

unfoldable pub flush_piis : Accumulator → Db → Outcome Flushed
flush_piis acc =
    run_batch "batch insert component_piis" (insert_batch_on_conflict "component_piis" do_nothing)
      (GoMap.values acc.piis)

unfoldable pub flush_connections : Accumulator → Db → Outcome Flushed
flush_connections acc =
    run_batch "batch insert connections" (insert_batch_on_conflict "connections" merge_ids)
      (GoMap.values acc.connections)

-- The second wave runs only if the first had no error.
unfoldable pub next_wave : Accumulator → Flushed → Outcome Flushed
next_wave acc (db, []) = wave (flush_piis acc) (flush_connections acc) db
next_wave acc (db, e ∷ es) = ok (db, e ∷ es)

unfoldable pub flush : Accumulator → Db → Outcome Flushed
flush acc db = do first ← wave (flush_items acc) (flush_components acc) db; next_wave acc first
