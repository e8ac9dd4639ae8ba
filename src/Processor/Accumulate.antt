-- ===== src/Processor/Accumulate.antt =====
-- backend/processor/processor.go: the accumulator, and what one span adds to it.
use Prim.Native.String.{◌++◌}
use alma_backend_task.Prelude.{
  ℕ, String, Bool, ◌||◌, none, some, List, [], ◌∷◌, ite, leb, length, String-discrete,
  if◌then◌else◌,
}
use mathlib.Core.List
use alma_backend_task.GoMap.{Map}
use alma_backend_task.Value.{Value, str, strs, as_strs}
use alma_backend_task.Db.Types.{Record, at, set_at}
use alma_backend_task.Db.Batch.{or_nil}
use alma_backend_task.Db.Index.{contains}
use alma_backend_task.Models.{
  RawSpan, attr_span_type, attr_source, attr_destination, AppItemType, internet, service,
  app_item_type, component_type, PiiType, pii_type,
}
use alma_backend_task.Processor.Handlers.{attr, Handlers, handler_for, PiiDetector, detect_piis}

pub record Accumulator : Type 0 where
  pub app_items : Map String Record
  pub components : Map String Record
  pub piis : Map String Record
  pub connections : Map String Record

unfoldable pub new_accumulator : Accumulator
new_accumulator = record { app_items = []; components = []; piis = []; connections = [] }

-- `acc.reset()` puts new maps in place of the four.
abbrev pub reset : Accumulator → Accumulator
reset acc = new_accumulator

unfoldable pub exceeds_threshold : ℕ → Accumulator → Bool
exceeds_threshold threshold a =
    leb threshold (length a.app_items)
    || leb threshold (length a.components)
    || leb threshold (length a.piis)
    || leb threshold (length a.connections)

unfoldable pub source_app_item_type : String → AppItemType
source_app_item_type source = ite (String-discrete source "internet") internet service

-- The loop of `mergeUniqueStrings`: `seen` is made of the existing texts alone, before it.
unfoldable pub append_unseen : List String → List String → List String → List String
append_unseen seen [] out = out
append_unseen seen (id ∷ ids) out =
    append_unseen seen ids (if contains id seen then out else List.◌++◌ out (id ∷ []))

unfoldable pub merge_unique : List String → List String → List String
merge_unique existing incoming = append_unseen existing incoming existing

unfoldable pub merge_unique_strings : Value → Value → Value
merge_unique_strings existing incoming = strs (merge_unique (as_strs existing) (as_strs incoming))

unfoldable pub app_item_record : String → AppItemType → Record
app_item_record name type = ("name", str name) ∷ ("type", str (app_item_type type)) ∷ []

unfoldable pub component_record : String → String → String → String → Record
component_record id destination type value =
    ("id", str id)
    ∷ ("app_item_name", str destination)
    ∷ ("component_type", str type)
    ∷ ("value", str value)
    ∷ []

unfoldable pub pii_record : String → String → String → Record
pii_record id component_id type =
    ("id", str id) ∷ ("component_id", str component_id) ∷ ("pii_type", str type) ∷ []

unfoldable pub connection_record : String → String → String → List String → Record
connection_record id source destination ids =
    ("id", str id)
    ∷ ("source", str source)
    ∷ ("destination", str destination)
    ∷ ("component_ids", strs ids)
    ∷ []

-- `if _, exists := acc.piis[piiID]; !exists { … }`
unfoldable pub add_pii : String → PiiType → Map String Record → Map String Record
add_pii component_id type piis =
    let id = component_id ++ (":" ++ pii_type type) in
    elim (at id piis) [
      | some _ ↦ piis
      | none ↦ set_at id (pii_record id component_id (pii_type type)) piis
    ]

unfoldable pub add_pii_types : String → List PiiType → Map String Record → Map String Record
add_pii_types component_id [] piis = piis
add_pii_types component_id (t ∷ ts) piis =
    add_pii_types component_id ts (add_pii component_id t piis)

-- The loop over the texts of a span, and over what is found in each.
unfoldable pub add_piis :
    List PiiDetector → String → List String → Map String Record → Map String Record
add_piis detectors component_id [] piis = piis
add_piis detectors component_id (text ∷ texts) piis =
    add_piis detectors component_id texts
      (add_pii_types component_id (detect_piis detectors text) piis)

-- A known connection gains the component; a new one starts with it.
unfoldable pub add_connection : String → String → String → Map String Record → Map String Record
add_connection source destination component_id connections =
    let id = source ++ (":" ++ destination) in
    elim (at id connections) [
      | some existing ↦
          let ids =
            merge_unique (as_strs (or_nil (at "component_ids" existing))) (component_id ∷ []) in
          set_at id (set_at "component_ids" (strs ids) existing) connections
      | none ↦ set_at id (connection_record id source destination (component_id ∷ [])) connections
    ]

unfoldable pub component_id_of : String → String → String → String
component_id_of type destination value = type ++ (":" ++ (destination ++ (":" ++ value)))

unfoldable pub accumulate_span : Handlers → List PiiDetector → RawSpan → Accumulator → Accumulator
accumulate_span handlers detectors span acc =
    let attrs = span.attributes in
    let source = attr attr_source attrs in
    let destination = attr attr_destination attrs in
    let handler = handler_for (attr attr_span_type attrs) handlers in
    let (type, value) = handler.component_info attrs in
    let id = component_id_of (component_type type) destination value in
    record {
      app_items =
          set_at destination (app_item_record destination handler.destination_app_item_type)
            (set_at source (app_item_record source (source_app_item_type source)) acc.app_items);
      components =
          set_at id (component_record id destination (component_type type) value) acc.components;
      piis = add_piis detectors id (handler.pii_fields attrs) acc.piis;
      connections = add_connection source destination id acc.connections;
    }
