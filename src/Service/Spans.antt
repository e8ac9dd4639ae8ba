-- ===== src/Service/Spans.antt =====
-- backend/processor/processor.go: what a span stands for in the database.
use alma_backend_task.Prelude.{String, ◌≢◌, none, List}
use Prim.Native.String.{◌++◌ as ◌+++◌}
use alma_backend_task.Db.Types.{Db}
use alma_backend_task.Models.{
  RawSpan, attr_span_type, attr_source, attr_destination, component_type,
}
use alma_backend_task.Processor.Handlers.{attr, Handlers, PiiDetector, handler_for}
use alma_backend_task.Processor.Accumulate.{component_id_of}
use alma_backend_task.Processor.Served.{records_of}
use alma_backend_task.Processor.Mentions.{Mentions}
use alma_backend_task.Processor.Detections.{Found}

abbrev pub source_of : RawSpan → String
source_of span = attr attr_source span.attributes

abbrev pub destination_of : RawSpan → String
destination_of span = attr attr_destination span.attributes

abbrev pub link_of : RawSpan → String
link_of span = source_of span +++ (":" +++ destination_of span)

-- The id of the component that a span names.
abbrev pub component_of : Handlers → RawSpan → String
component_of handlers span =
    let attrs = span.attributes in
    let (type, value) = (handler_for (attr attr_span_type attrs) handlers).component_info attrs in
    component_id_of (component_type type) (destination_of span) value

-- The texts of a span in which PIIs are looked for.
abbrev pub texts_of : Handlers → RawSpan → List String
texts_of handlers span =
    let attrs = span.attributes in
    (handler_for (attr attr_span_type attrs) handlers).pii_fields attrs

abbrev pub PiiStored : Db → String → Type 0
PiiStored db q = records_of "component_piis" db q ≢ none

-- The database has the two app items of the span, its component, a connection under the key of the
-- two that lists the component, and each PII that a detector finds in a text of the span.
pub record Covers (handlers : Handlers) (detectors : List PiiDetector) (db : Db) (span : RawSpan)
    : Type 0 where
  pub source : records_of "app_items" db (source_of span) ≢ none
  pub destination : records_of "app_items" db (destination_of span) ≢ none
  pub component : records_of "components" db (component_of handlers span) ≢ none
  pub connection :
      Mentions (component_of handlers span) (records_of "connections" db (link_of span))
  pub piis : Found (PiiStored db) detectors (component_of handlers span) (texts_of handlers span)
