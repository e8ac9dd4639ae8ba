-- ===== src/Schema.antt =====
-- schema/schema.go: the four tables, and their creation in order.
use alma_backend_task.Prelude.{String, false, Option, none, some, [], ◌∷◌, ok, err, panic, ◌>>=◌}
use alma_backend_task.Db.Types.{FieldType, string, json, Field, TableSchema, Db, Error, Outcome}
use alma_backend_task.Db.Tables.{create_table}

abbrev pub plain : String → FieldType → Field
plain name type = record { name = name; type = type; nullable = false }

unfoldable pub app_items : TableSchema
app_items = record {
  name = "app_items";
  fields = plain "name" string ∷ plain "type" string ∷ [];
  primary_key = "name";
  indexes = "type" ∷ [];
}

unfoldable pub components : TableSchema
components = record {
  name = "components";
  fields =
      plain "id" string
      ∷ plain "app_item_name" string
      ∷ plain "component_type" string
      ∷ plain "value" string
      ∷ [];
  primary_key = "id";
  indexes = "app_item_name" ∷ "component_type" ∷ [];
}

unfoldable pub component_piis : TableSchema
component_piis = record {
  name = "component_piis";
  fields = plain "id" string ∷ plain "component_id" string ∷ plain "pii_type" string ∷ [];
  primary_key = "id";
  indexes = "component_id" ∷ "pii_type" ∷ [];
}

unfoldable pub connections : TableSchema
connections = record {
  name = "connections";
  fields =
      plain "id" string
      ∷ plain "source" string
      ∷ plain "destination" string
      ∷ plain "component_ids" json
      ∷ [];
  primary_key = "id";
  indexes = "source" ∷ "destination" ∷ [];
}

-- `fmt.Errorf("create app_items table: %w", err)` and its like, by the table's name.
pub data SchemaError : Type 0 where
  create : String → Error → SchemaError

-- The database as it is left, and the error that ended it.
abbrev pub Created : Type 0
Created = Db × Option SchemaError

attempted : String → Db → Outcome Db → Outcome Created
attempted label db (ok db') = ok (db', none)
attempted label db (err e) = ok (db, some (create label e))
attempted label db panic = panic

-- One `if err := database.CreateTable(…); err != nil { return … }`: the tables made before an error
-- stay.
unfoldable pub then_create : TableSchema → Created → Outcome Created
unfolding attempted
then_create schema (db, some e) = ok (db, some e)
then_create schema (db, none) = attempted schema.name db (create_table schema db)

unfoldable pub create_schema : Db → Outcome Created
unfolding app_items components component_piis connections
create_schema db = do
  first ← then_create app_items (db, none)
  second ← then_create components first
  third ← then_create component_piis second
  then_create connections third
