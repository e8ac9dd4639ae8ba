-- ===== src/Processor/Suited.antt =====
-- backend/processor/processor.go: the records of the accumulator can be written to their tables.
use alma_backend_task.Prelude.{
  String, ◌≡◌, refl, Option, some, List, [], ◌∷◌, All, String-discrete, Option-cases, inl, inr,
  if_pos, if_neg, subst,
}
use Prim.Native.String.{◌++◌}
use alma_backend_task.GoMap
use alma_backend_task.GoMap.{Map, get-put}
use alma_backend_task.Value.{Value, hashable}
use alma_backend_task.Db.Types.{Record, TableSchema, at, set_at}
use alma_backend_task.Schema
use alma_backend_task.Models.{RawSpan, PiiType, pii_type}
use alma_backend_task.Processor.Handlers.{Handlers, PiiDetector, detect_piis}
use alma_backend_task.Processor.Accumulate.{
  Accumulator, new_accumulator, app_item_record, component_record, pii_record, connection_record,
  add_pii, add_pii_types, add_piis, add_connection, accumulate_span,
}
use alma_backend_task.Processor.Served.{Suited}

abbrev pub AllSuited : TableSchema → Map String Record → Type 0
AllSuited schema m = All (Suited schema) (GoMap.values m)

pub record IsReady (acc : Accumulator) : Type 0 where
  pub app_items : AllSuited Schema.app_items acc.app_items
  pub components : AllSuited Schema.components acc.components
  pub piis : AllSuited Schema.component_piis acc.piis
  pub connections : AllSuited Schema.connections acc.connections

set_at-AllSuited :
    (schema : TableSchema) (k : String) (r : Record) (m : Map String Record)
    → Suited schema r
    → AllSuited schema m
    → AllSuited schema (set_at k r m)
unfolding GoMap.put
set_at-AllSuited schema k r [] s h = (s, tt)
set_at-AllSuited schema k r ((j, w) ∷ m) s h = elim (String-discrete j k) [
  | yes e ↦ rw (if_pos (String-discrete j k) e) (s, h.1)
  | no n ↦ rw (if_neg (String-discrete j k) n) (h.0, set_at-AllSuited schema k r m s h.1)
]

some_eq : {r w : Record} → ◌≡◌ {A = Option Record} (some w) (some r) → w ≡ r
some_eq e = cc e

at-Suited :
    (schema : TableSchema) (k : String) (r : Record) (m : Map String Record)
    → AllSuited schema m
    → at k m ≡ some r
    → Suited schema r
unfolding GoMap.get
at-Suited schema k r [] h e = cc
at-Suited schema k r ((j, w) ∷ m) h e = elim (String-discrete j k) [
  | yes p ↦ subst (Suited schema) (some_eq (rw (if_pos (String-discrete j k) p) at e)) h.0
  | no n ↦ at-Suited schema k r m h.1 (rw (if_neg (String-discrete j k) n) at e)
]

app_item-Suited : (name : String) (t : _) → Suited Schema.app_items (app_item_record name t)
unfolding app_item_record Schema.app_items GoMap.get hashable String-discrete
app_item-Suited name t = (((_, refl, refl), tt), λ e. cc)

component-Suited :
    (id destination type value : String)
    → Suited Schema.components (component_record id destination type value)
unfolding component_record Schema.components GoMap.get hashable String-discrete
component-Suited id destination type value = (((_, refl, refl), ((_, refl, refl), tt)), λ e. cc)

pii-Suited :
    (id component_id type : String) → Suited Schema.component_piis (pii_record id component_id type)
unfolding pii_record Schema.component_piis GoMap.get hashable String-discrete
pii-Suited id component_id type = (((_, refl, refl), ((_, refl, refl), tt)), λ e. cc)

connection-Suited :
    (id source destination : String) (ids : List String)
    → Suited Schema.connections (connection_record id source destination ids)
unfolding connection_record Schema.connections GoMap.get hashable String-discrete
connection-Suited id source destination ids = (((_, refl, refl), ((_, refl, refl), tt)), λ e. cc)

-- The merge writes a field that is neither indexed nor the key.
merged-Suited :
    (r : Record) (v : Value)
    → Suited Schema.connections r
    → Suited Schema.connections (set_at "component_ids" v r)
unfolding Schema.connections String-discrete
merged-Suited r v s = rw (get-put, get-put, get-put) s

add_pii-AllSuited :
    (id : String) (t : PiiType) (m : Map String Record)
    → AllSuited Schema.component_piis m
    → AllSuited Schema.component_piis (add_pii id t m)
unfolding add_pii
add_pii-AllSuited id t m h =
    let key = id ++ (":" ++ pii_type t) in
    elim (Option-cases (at key m)) [
      | inl a ↦
          rw (a, add_pii)
            (set_at-AllSuited Schema.component_piis key (pii_record key id (pii_type t)) m
              (pii-Suited key id (pii_type t)) h)
      | inr (_, a) ↦ rw (a, add_pii) h
    ]

add_pii_types-AllSuited :
    (id : String) (ts : List PiiType) (m : Map String Record)
    → AllSuited Schema.component_piis m
    → AllSuited Schema.component_piis (add_pii_types id ts m)
unfolding add_pii_types
add_pii_types-AllSuited id [] m h = h
add_pii_types-AllSuited id (t ∷ ts) m h =
    add_pii_types-AllSuited id ts (add_pii id t m) (add_pii-AllSuited id t m h)

add_piis-AllSuited :
    (detectors : List PiiDetector) (id : String) (texts : List String) (m : Map String Record)
    → AllSuited Schema.component_piis m
    → AllSuited Schema.component_piis (add_piis detectors id texts m)
unfolding add_piis
add_piis-AllSuited detectors id [] m h = h
add_piis-AllSuited detectors id (text ∷ texts) m h =
    add_piis-AllSuited detectors id texts (add_pii_types id (detect_piis detectors text) m)
      (add_pii_types-AllSuited id (detect_piis detectors text) m h)

add_connection-AllSuited :
    (source destination id : String) (m : Map String Record)
    → AllSuited Schema.connections m
    → AllSuited Schema.connections (add_connection source destination id m)
unfolding add_connection
add_connection-AllSuited source destination id m h =
    let key = source ++ (":" ++ destination) in
    elim (Option-cases (at key m)) [
      | inl a ↦
          rw (a, add_connection)
            (set_at-AllSuited Schema.connections key
              (connection_record key source destination (id ∷ [])) m
              (connection-Suited key source destination (id ∷ [])) h)
      | inr (existing, a) ↦
          rw (a, add_connection)
            (set_at-AllSuited Schema.connections key _ m
              (merged-Suited existing _ (at-Suited Schema.connections key existing m h a)) h)
    ]

pub new_accumulator-IsReady : IsReady new_accumulator
unfolding new_accumulator
new_accumulator-IsReady = record { app_items = tt; components = tt; piis = tt; connections = tt }

pub accumulate_span-IsReady :
    (handlers : Handlers) (detectors : List PiiDetector) (span : RawSpan) (acc : Accumulator)
    → IsReady acc
    → IsReady (accumulate_span handlers detectors span acc)
unfolding accumulate_span
accumulate_span-IsReady handlers detectors span acc h = record {
  app_items =
      set_at-AllSuited Schema.app_items _ _ _ (app_item-Suited _ _)
        (set_at-AllSuited Schema.app_items _ _ acc.app_items (app_item-Suited _ _) h.app_items);
  components =
      set_at-AllSuited Schema.components _ _ acc.components (component-Suited _ _ _ _) h.components;
  piis = add_piis-AllSuited detectors _ _ acc.piis h.piis;
  connections = add_connection-AllSuited _ _ _ acc.connections h.connections;
}
