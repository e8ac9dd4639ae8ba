-- ===== src/Service/Types.antt =====
-- schema/schema.go and backend/processor: the fields of a schema and their declared types, which the
-- database does not check.
pub mod Stored
use alma_backend_task.Prelude.{
  ℕ, String, Bool, ◌≡◌, refl, Option, some, List, [], ◌∷◌, All, String-discrete, Option-cases, inl,
  inr,
}
use Prim.Native.String.{◌++◌}
use alma_backend_task.GoMap
use alma_backend_task.GoMap.{Map, get-put}
use alma_backend_task.GoMap.Entries.{put-All, get-All}
use alma_backend_task.Value.{ℤ, Value, str, int, bool, strs}
use alma_backend_task.Schema
use alma_backend_task.Models.{RawSpan}
use alma_backend_task.Db.Types.{FieldType, time, json, Field, TableSchema, Record, Db, at, set_at}
use alma_backend_task.Db.Validity.Replays.{Everywhere}
use alma_backend_task.Processor.Handlers.{Handlers, PiiDetector}
use alma_backend_task.Processor.Accumulate.{
  Accumulator, new_accumulator, app_item_record, component_record, pii_record, connection_record,
  add_connection, accumulate_span,
}
use alma_backend_task.Processor.Served.{records_of}
use alma_backend_task.Processor.Tied.{add_piis-All}

-- What the field holds is of the type. The JSON of this program is a list of texts, and no value of
-- the model is a time.
abbrev pub HasType : FieldType → Option Value → Type 0
HasType FieldType.string o = (s : String) × (o ≡ some (str s))
HasType FieldType.int o = (n : ℤ) × (o ≡ some (int n))
HasType FieldType.bool o = (b : Bool) × (o ≡ some (bool b))
HasType time o = ⊥
HasType json o = (ss : List String) × (o ≡ some (strs ss))

-- Each field of the schema is there, with a value of its type.
abbrev pub Conforms : TableSchema → Record → Type 0
Conforms schema r = All (λ (f : Field). HasType f.type (at f.name r)) schema.fields

abbrev AllConform : TableSchema → Map String Record → Type 0
AllConform schema = All (λ e. Conforms schema e.1)

record HasTypes (acc : Accumulator) : Type 0 where
  app_items : AllConform Schema.app_items acc.app_items
  components : AllConform Schema.components acc.components
  piis : AllConform Schema.component_piis acc.piis
  connections : AllConform Schema.connections acc.connections

-- Every record of the four tables conforms to its schema.
pub record IsTyped (db : Db) : Type 0 where
  pub app_items : Everywhere (λ _ r. Conforms Schema.app_items r) (records_of "app_items" db)
  pub components : Everywhere (λ _ r. Conforms Schema.components r) (records_of "components" db)
  pub piis : Everywhere (λ _ r. Conforms Schema.component_piis r) (records_of "component_piis" db)
  pub connections : Everywhere (λ _ r. Conforms Schema.connections r) (records_of "connections" db)

app_item-Conforms : (name : String) (t : _) → Conforms Schema.app_items (app_item_record name t)
unfolding app_item_record Schema.app_items GoMap.get String-discrete
app_item-Conforms name t = ((_, refl), ((_, refl), tt))

component-Conforms : (id d t v : String) → Conforms Schema.components (component_record id d t v)
unfolding component_record Schema.components GoMap.get String-discrete
component-Conforms id d t v = ((_, refl), ((_, refl), ((_, refl), ((_, refl), tt))))

pii-Conforms : (id c t : String) → Conforms Schema.component_piis (pii_record id c t)
unfolding pii_record Schema.component_piis GoMap.get String-discrete
pii-Conforms id c t = ((_, refl), ((_, refl), ((_, refl), tt)))

connection-Conforms :
    (id s d : String) (ids : List String)
    → Conforms Schema.connections (connection_record id s d ids)
unfolding connection_record Schema.connections GoMap.get String-discrete
connection-Conforms id s d ids = ((_, refl), ((_, refl), ((_, refl), ((_, refl), tt))))

ids-Conforms :
    (ids : List String) (r : Record)
    → Conforms Schema.connections r
    → Conforms Schema.connections (set_at "component_ids" (strs ids) r)
unfolding Schema.connections String-discrete
ids-Conforms ids r h =
    rw (get-put, get-put, get-put, get-put) (h.0, (h.1.0, (h.1.1.0, ((ids, refl), tt))))

add_connection-AllConform :
    (source destination id : String) (m : Map String Record)
    → AllConform Schema.connections m
    → AllConform Schema.connections (add_connection source destination id m)
unfolding add_connection
add_connection-AllConform source destination id m h =
    let key = source ++ (":" ++ destination) in
    elim (Option-cases (at key m)) [
      | inl a ↦
          rw (a, add_connection)
            (put-All String-discrete (λ e. Conforms Schema.connections e.1) key _ m
              (connection-Conforms key source destination (id ∷ [])) h)
      | inr (existing, a) ↦
          rw (a, add_connection)
            (put-All String-discrete (λ e. Conforms Schema.connections e.1) key _ m
              (ids-Conforms _ existing
                (get-All String-discrete (λ e. Conforms Schema.connections e.1) key existing m h a))
              h)
    ]

new_accumulator-HasTypes : HasTypes new_accumulator
unfolding new_accumulator
new_accumulator-HasTypes = record { app_items = tt; components = tt; piis = tt; connections = tt }

accumulate_span-HasTypes :
    (handlers : Handlers) (detectors : List PiiDetector) (span : RawSpan) (acc : Accumulator)
    → HasTypes acc
    → HasTypes (accumulate_span handlers detectors span acc)
unfolding accumulate_span
accumulate_span-HasTypes handlers detectors span acc h = record {
  app_items =
      put-All String-discrete (λ e. Conforms Schema.app_items e.1) _ _ _ (app_item-Conforms _ _)
        (put-All String-discrete (λ e. Conforms Schema.app_items e.1) _ _ acc.app_items
          (app_item-Conforms _ _) h.app_items);
  components =
      put-All String-discrete (λ e. Conforms Schema.components e.1) _ _ acc.components
        (component-Conforms _ _ _ _) h.components;
  piis =
      add_piis-All (λ e. Conforms Schema.component_piis e.1) pii-Conforms detectors _ _ acc.piis
        h.piis;
  connections = add_connection-AllConform _ _ _ acc.connections h.connections;
}
