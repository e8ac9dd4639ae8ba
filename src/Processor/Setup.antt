-- ===== src/Processor/Setup.antt =====
-- schema/schema.go: `CreateSchema` makes the tables that the processor needs.
use alma_backend_task.Prelude.{
  String, ◌≡◌, ◌≢◌, refl, ◌∙◌, ap, none, ok, String-discrete, if_pos, if_neg,
}
use alma_backend_task.GoMap
use alma_backend_task.GoMap.{get-put}
use alma_backend_task.Db.Types.{TableSchema, Db, Outcome, at, set_at}
use alma_backend_task.Db.Tables.{new, new_table, create_table}
use alma_backend_task.Db.Validity.Schemas.{new_table-IsValid, new_table-IndexedBy}
use alma_backend_task.Schema
use alma_backend_task.Schema.{SchemaError, create, Created, then_create, create_schema}
use alma_backend_task.Processor.Served.{Holds, records_of, Holds-same, records_of-same}
use alma_backend_task.Processor.Waves.{IsServed}

-- The table of that name has no record.
abbrev pub IsBare : String → Db → Type 0
IsBare name db = (q : String) → records_of name db q ≡ none

-- One table more, and the others as they were.
record Adds (schema : TableSchema) (db db' : Db) : Type 0 where
  holds : Holds schema.name schema db'
  bare : IsBare schema.name db'
  others : (other : String) → schema.name ≢ other → at other db'.tables ≡ at other db.tables

abbrev pub Made : (Db → Type 0) → Outcome Created → Type 0
Made P out = (db' : Db) × (out ≡ ok (db', none)) × P db'

then_create-Adds :
    (schema : TableSchema) (db : Db)
    → at schema.name db.tables ≡ none
    → Made (Adds schema db) (then_create schema (db, none))
unfolding then_create create_table new_table GoMap.get
then_create-Adds schema db free = (
  record { tables = set_at schema.name (new_table schema) db.tables },
  rw (free, create_table) refl,
  record {
    holds = record {
      table = new_table schema;
      found = rw (get-put, if_pos (String-discrete schema.name schema.name) refl) refl;
      valid = new_table-IsValid schema;
      made_by = refl;
      indexed = new_table-IndexedBy schema;
    };
    bare = λ q. rw (get-put, if_pos (String-discrete schema.name schema.name) refl) refl;
    others = λ other n. rw (get-put, if_neg (String-discrete schema.name other) n) refl;
  },
)

-- None of the four names is taken.
pub record IsVacant (db : Db) : Type 0 where
  pub app_items : at "app_items" db.tables ≡ none
  pub components : at "components" db.tables ≡ none
  pub piis : at "component_piis" db.tables ≡ none
  pub connections : at "connections" db.tables ≡ none

pub new-IsVacant : IsVacant new
unfolding new GoMap.get
new-IsVacant = record { app_items = refl; components = refl; piis = refl; connections = refl }

create_schema_steps :
    (db db₁ db₂ db₃ db₄ : Db)
    → then_create Schema.app_items (db, none) ≡ ok (db₁, none)
    → then_create Schema.components (db₁, none) ≡ ok (db₂, none)
    → then_create Schema.component_piis (db₂, none) ≡ ok (db₃, none)
    → then_create Schema.connections (db₃, none) ≡ ok (db₄, none)
    → create_schema db ≡ ok (db₄, none)
unfolding create_schema
create_schema_steps db db₁ db₂ db₃ db₄ e₁ e₂ e₃ e₄ = rw (e₁, e₂, e₃) e₄

-- The four tables are there, well formed, with no record.
pub record IsBlank (db : Db) : Type 0 where
  pub served : IsServed db
  pub app_items : IsBare "app_items" db
  pub components : IsBare "components" db
  pub piis : IsBare "component_piis" db
  pub connections : IsBare "connections" db

bare-same :
    (name : String) (db db' : Db)
    → at name db'.tables ≡ at name db.tables
    → IsBare name db
    → IsBare name db'
bare-same name db db' e b q = ap (λ l. l q) (records_of-same name db db' e) ∙ b q

blank :
    (db db₁ db₂ db₃ db₄ : Db)
    → Adds Schema.app_items db db₁
    → Adds Schema.components db₁ db₂
    → Adds Schema.component_piis db₂ db₃
    → Adds Schema.connections db₃ db₄
    → IsBlank db₄
unfolding Schema.app_items Schema.components Schema.component_piis Schema.connections
blank db db₁ db₂ db₃ db₄ a b c d =
    let items : at "app_items" db₄.tables ≡ at "app_items" db₁.tables =
      d.others "app_items" (λ e. cc)
      ∙ (c.others "app_items" (λ e. cc) ∙ b.others "app_items" (λ e. cc)) in
    let comps : at "components" db₄.tables ≡ at "components" db₂.tables =
      d.others "components" (λ e. cc) ∙ c.others "components" (λ e. cc) in
    let piis = d.others "component_piis" (λ e. cc) in
    record {
      served = record {
        app_items = Holds-same items a.holds;
        components = Holds-same comps b.holds;
        piis = Holds-same piis c.holds;
        connections = d.holds;
      };
      app_items = bare-same "app_items" db₁ db₄ items a.bare;
      components = bare-same "components" db₂ db₄ comps b.bare;
      piis = bare-same "component_piis" db₃ db₄ piis c.bare;
      connections = d.bare;
    }

-- `CreateSchema` on a database that has none of the four tables returns without an error, and the
-- database then has the four, well formed and with no record.
pub create_schema-IsBlank : (db : Db) → IsVacant db → Made IsBlank (create_schema db)
unfolding Schema.app_items Schema.components Schema.component_piis Schema.connections
create_schema-IsBlank db v =
    let (db₁, e₁, a) = then_create-Adds Schema.app_items db v.app_items in
    let (db₂, e₂, b) =
      then_create-Adds Schema.components db₁ (a.others "components" (λ e. cc) ∙ v.components) in
    let (db₃, e₃, c) =
      then_create-Adds Schema.component_piis db₂
        (b.others "component_piis" (λ e. cc) ∙ (a.others "component_piis" (λ e. cc) ∙ v.piis)) in
    let (db₄, e₄, d) = then_create-Adds Schema.connections db₃ (
      c.others "connections" (λ e. cc)
      ∙ (b.others "connections" (λ e. cc) ∙ (a.others "connections" (λ e. cc) ∙ v.connections))) in
    (db₄, create_schema_steps db db₁ db₂ db₃ db₄ e₁ e₂ e₃ e₄, blank db db₁ db₂ db₃ db₄ a b c d)
