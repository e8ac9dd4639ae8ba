-- ===== src/Db/Tables.antt =====
-- db/memory.go: making, dropping and finding tables.
pub mod Order
use alma_backend_task.Prelude.{String, Bool, true, false, none, some, List, [], ◌∷◌, ok, err, ◌>>=◌}
use alma_backend_task.Db.Types.{
  TableSchema, Indexes, Table, Db, Outcome, table_exists, no_table, at, set_at, drop_at,
}

unfoldable pub new : Db
new = record { tables = [] }

-- The loop over `schema.Indexes`: an empty index for each.
unfoldable pub empty_indexes : List String → Indexes → Indexes
empty_indexes [] made = made
empty_indexes (f ∷ fs) made = empty_indexes fs (set_at f [] made)

unfoldable pub new_table : TableSchema → Table
new_table schema = record {
  schema = schema;
  records = [];
  indexes = empty_indexes schema.indexes [];
}

unfoldable pub create_table : TableSchema → Db → Outcome Db
create_table schema db = elim (at schema.name db.tables) [
  | some _ ↦ err (table_exists schema.name)
  | none ↦ ok (record { tables = set_at schema.name (new_table schema) db.tables })
]

unfoldable pub drop_table : String → Db → Outcome Db
drop_table name db = elim (at name db.tables) [
  | none ↦ err (no_table name)
  | some _ ↦ ok (record { tables = drop_at name db.tables })
]

unfoldable pub clear : Db → Db
clear db = record { tables = [] }

unfoldable pub has_table : String → Db → Bool
has_table name db = elim (at name db.tables) [ none ↦ false | some _ ↦ true ]

-- `table, exists := db.tables[tableName]; if !exists { return … }`
unfoldable pub find_table : String → Db → Outcome Table
find_table name db = elim (at name db.tables) [ none ↦ err (no_table name) | some t ↦ ok t ]

-- The table is changed in place, behind its pointer.
unfoldable pub update_table : String → (Table → Outcome Table) → Db → Outcome Db
update_table name change db = do
  t ← find_table name db
  t' ← change t
  ok (record { tables = set_at name t' db.tables })
