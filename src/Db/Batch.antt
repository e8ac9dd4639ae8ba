-- ===== src/Db/Batch.antt =====
-- db/memory.go: `InsertBatch` and `UpsertBatch`. A batch is validated whole before the first write.
use alma_backend_task.Prelude.{ℕ, suc, String, Option, none, some, List, [], ◌∷◌, ok, err, ◌>>=◌}
use alma_backend_task.Value.{Value, nil, sprint}
use alma_backend_task.Db.Types.{Record, Table, Db, Outcome, no_primary_key_at, at}
use alma_backend_task.Db.Tables.{update_table}
use alma_backend_task.Db.Insert.{store_new, unindex}
use alma_backend_task.Db.Upsert.{upsert_at}

-- A missing key reads as the nil interface.
abbrev pub or_nil : Option Value → Value
or_nil none = nil
or_nil (some v) = v

-- `pkStr := fmt.Sprintf("%v", record[table.schema.PrimaryKey])`
abbrev pub batch_key : Table → Record → String
batch_key t r = sprint (or_nil (at t.schema.primary_key r))

-- The loop of the checks, from the record numbered `i`.
unfoldable pub validate : String → ℕ → List Record → Outcome Unit
validate field i [] = ok tt
validate field i (r ∷ rs) = elim (at field r) [
  | none ↦ err (no_primary_key_at i field)
  | some _ ↦ validate field (suc i) rs
]

-- `for _, record := range records { … }`
unfoldable pub each_record : (Record → Table → Outcome Table) → List Record → Table → Outcome Table
each_record body [] t = ok t
each_record body (r ∷ rs) t = do t' ← body r t; each_record body rs t'

-- One record of `InsertBatch`: an existing one is overwritten.
unfoldable pub overwrite_row : Record → Table → Outcome Table
overwrite_row r t = do t' ← unindex (batch_key t r) t; store_new (batch_key t r) r t'

-- One record of `UpsertBatch`.
unfoldable pub upsert_batch_row : Record → Table → Outcome Table
upsert_batch_row r t = upsert_at (batch_key t r) r t

unfoldable pub batch_rows : (Record → Table → Outcome Table) → List Record → Table → Outcome Table
batch_rows body rs t = do _ ← validate t.schema.primary_key 0 rs; each_record body rs t

-- An empty batch returns before the table is looked up.
unfoldable pub insert_batch : String → List Record → Db → Outcome Db
insert_batch name [] db = ok db
insert_batch name (r ∷ rs) db = update_table name (batch_rows overwrite_row (r ∷ rs)) db

unfoldable pub upsert_batch : String → List Record → Db → Outcome Db
upsert_batch name [] db = ok db
upsert_batch name (r ∷ rs) db = update_table name (batch_rows upsert_batch_row (r ∷ rs)) db
