-- ===== src/Db/Insert.antt =====
-- db/memory.go: `Insert`, `Delete` and `Get`.
use alma_backend_task.Prelude.{String, none, some, ok, err, ◌>>=◌}
use alma_backend_task.Value.{Value, sprint}
use alma_backend_task.Db.Types.{
  Record, Table, Db, Outcome, no_primary_key, not_found, at, set_at, drop_at,
}
use alma_backend_task.Db.Index.{each_index, add_field, drop_field}
use alma_backend_task.Db.Tables.{find_table, update_table}

-- `pk, ok := record[table.schema.PrimaryKey]`
unfoldable pub primary_key : Table → Record → Outcome Value
primary_key t r = elim (at t.schema.primary_key r) [
  | none ↦ err (no_primary_key t.schema.primary_key)
  | some pk ↦ ok pk
]

-- `table.records[pkStr] = record` and the loop over the indexes below it. The source stores the
-- caller's map itself.
unfoldable pub store_new : String → Record → Table → Outcome Table
store_new pk r t = do
  idxs ← each_index (add_field r pk) t.indexes
  ok (record t { records = set_at pk r t.records; indexes = idxs })

unfoldable pub insert_row : Record → Table → Outcome Table
insert_row r t = do pk ← primary_key t r; store_new (sprint pk) r t

unfoldable pub insert : String → Record → Db → Outcome Db
insert name r = update_table name (insert_row r)

-- Takes the entries of a stored record out of the indexes, if there is one.
unfoldable pub unindex : String → Table → Outcome Table
unindex pk t = elim (at pk t.records) [
  | none ↦ ok t
  | some existing ↦ do
    idxs ← each_index (drop_field existing pk) t.indexes
    ok (record t { indexes = idxs })
]

unfoldable pub delete_row : Value → Table → Outcome Table
delete_row pk t = do
  t' ← unindex (sprint pk) t
  ok (record t' { records = drop_at (sprint pk) t'.records })

unfoldable pub delete : String → Value → Db → Outcome Db
delete name pk = update_table name (delete_row pk)

unfoldable pub get_row : Value → Table → Outcome Record
get_row pk t = elim (at (sprint pk) t.records) [ none ↦ err (not_found pk) | some r ↦ ok r ]

unfoldable pub get : String → Value → Db → Outcome Record
get name pk db = do t ← find_table name db; get_row pk t
