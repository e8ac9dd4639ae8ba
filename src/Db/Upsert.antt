-- ===== src/Db/Upsert.antt =====
-- db/memory.go: `Upsert`.
use alma_backend_task.Prelude.{String, none, some, [], ◌∷◌, ok, ◌>>=◌}
use alma_backend_task.Value.{sprint}
use alma_backend_task.Db.Types.{Record, Table, Db, Outcome, at, set_at}
use alma_backend_task.Db.Index.{each_index, move_field}
use alma_backend_task.Db.Tables.{update_table}
use alma_backend_task.Db.Insert.{primary_key, store_new}

-- `for k, v := range record { existing[k] = v }`
unfoldable pub overlay : Record → Record → Record
overlay existing [] = existing
overlay existing ((k, v) ∷ r) = set_at k v (overlay existing r)

-- The branch on a record that exists.
unfoldable pub merge_into : String → Record → Record → Table → Outcome Table
merge_into pk existing r t = do
  idxs ← each_index (move_field existing r pk) t.indexes
  ok (record t { records = set_at pk (overlay existing r) t.records; indexes = idxs })

unfoldable pub upsert_at : String → Record → Table → Outcome Table
upsert_at pk r t = elim (at pk t.records) [
  | some existing ↦ merge_into pk existing r t
  | none ↦ store_new pk r t
]

unfoldable pub upsert_row : Record → Table → Outcome Table
upsert_row r t = do pk ← primary_key t r; upsert_at (sprint pk) r t

unfoldable pub upsert : String → Record → Db → Outcome Db
upsert name r = update_table name (upsert_row r)
