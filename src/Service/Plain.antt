-- ===== src/Service/Plain.antt =====
-- backend/processor: what `Process` stores of spans whose names and values have no colon.
use alma_backend_task.Prelude.{
  true, ◌≡◌, ◌∙◌, ap, some, List, [], ◌∷◌, ◌++◌, All, Option-cases, inl, inr,
}
use alma_backend_task.Value.{str}
use alma_backend_task.Db.Types.{Record, Db, at}
use alma_backend_task.Db.Index.{contains}
use alma_backend_task.Models.{RawSpan, ComponentType, endpoint, query, component_type}
use alma_backend_task.Api.Connections.{ids_of}
use alma_backend_task.Processor.Handlers.{Handlers, PiiDetector}
use alma_backend_task.Processor.Accumulate.{component_id_of}
use alma_backend_task.Processor.Process.{SpanProcessor, process}
use alma_backend_task.Processor.Runs.{Returns, Returns-map}
use alma_backend_task.Processor.Served.{records_of}
use alma_backend_task.Service.Collisions.{info_of}
use alma_backend_task.Service.Links.{IsWhole}
use alma_backend_task.Service.Spans.{source_of, destination_of, link_of, component_of, Covers}
use alma_backend_task.Service.Splits.{NoColon, split_once, split_twice}
use alma_backend_task.Service.Covers.{process-Covers}

-- The span's source, destination and value have no colon.
pub record IsPlain (handlers : Handlers) (span : RawSpan) : Type 0 where
  pub source : NoColon (source_of span)
  pub destination : NoColon (destination_of span)
  pub value : NoColon (info_of handlers span).1

-- The component is that of the span: its type, its app item and its value.
pub record HoldsComponent (handlers : Handlers) (db : Db) (span : RawSpan) : Type 0 where
  pub component : Record
  pub stored : records_of "components" db (component_of handlers span) ≡ some component
  pub type : at "component_type" component ≡ some (str (component_type (info_of handlers span).0))
  pub app_item : at "app_item_name" component ≡ some (str (destination_of span))
  pub value : at "value" component ≡ some (str (info_of handlers span).1)

-- The connection goes from the span's source to its destination, and lists the component.
pub record HoldsConnection (handlers : Handlers) (db : Db) (span : RawSpan) : Type 0 where
  pub connection : Record
  pub stored : records_of "connections" db (link_of span) ≡ some connection
  pub source : at "source" connection ≡ some (str (source_of span))
  pub destination : at "destination" connection ≡ some (str (destination_of span))
  pub lists : contains (component_of handlers span) (ids_of connection) ≡ true

endpoint-NoColon : NoColon "ENDPOINT"
endpoint-NoColon = (
  (λ e. cc),
  ((λ e. cc), ((λ e. cc), ((λ e. cc), ((λ e. cc), ((λ e. cc), ((λ e. cc), ((λ e. cc), tt))))))),
)

queue-NoColon : NoColon "QUEUE"
queue-NoColon = ((λ e. cc), ((λ e. cc), ((λ e. cc), ((λ e. cc), ((λ e. cc), tt)))))

query-NoColon : NoColon "QUERY"
query-NoColon = ((λ e. cc), ((λ e. cc), ((λ e. cc), ((λ e. cc), ((λ e. cc), tt)))))

component_type-NoColon : (t : ComponentType) → NoColon (component_type t)
unfolding component_type
component_type-NoColon endpoint = endpoint-NoColon
component_type-NoColon ComponentType.queue = queue-NoColon
component_type-NoColon query = query-NoColon

module _ (handlers : Handlers) (detectors : List PiiDetector) (db : Db) (w : IsWhole db)
    (span : RawSpan) (plain : IsPlain handlers span) (h : Covers handlers detectors db span) where
  covered-HoldsConnection : HoldsConnection handlers db span
  covered-HoldsConnection =
      let (r, e, lists) = h.connection in
      let ends = w.linked.ends (link_of span) r e in
      let (a, b) =
        split_once (source_of span) (destination_of span) ends.source ends.destination plain.source
          plain.destination ends.joined in
      record {
        connection = r;
        stored = e;
        source = ends.from ∙ ap (λ s. some (str s)) a;
        destination = ends.to ∙ ap (λ s. some (str s)) b;
        lists = lists;
      }

  component-HoldsComponent :
      (r : Record)
      → records_of "components" db (component_of handlers span) ≡ some r
      → HoldsComponent handlers db span
  unfolding component_id_of
  component-HoldsComponent r e =
      let parts = w.linked.parts (component_of handlers span) r e in
      let (type, value) = info_of handlers span in
      let (a, (b, c)) =
        split_twice (component_type type) (destination_of span) value parts.type parts.app_item
          parts.value (component_type-NoColon type) plain.destination plain.value parts.joined in
      record {
        component = r;
        stored = e;
        type = parts.kind ∙ ap (λ s. some (str s)) a;
        app_item = parts.owner ∙ ap (λ s. some (str s)) b;
        value = parts.content ∙ ap (λ s. some (str s)) c;
      }

  covered-HoldsComponent : HoldsComponent handlers db span
  covered-HoldsComponent =
      elim (Option-cases (records_of "components" db (component_of handlers span))) [
        | inl e ↦ absurd (h.component e)
        | inr (r, e) ↦ component-HoldsComponent r e
      ]

All-between :
    (P : RawSpan → Type 0) (earlier later : List RawSpan) (span : RawSpan)
    → All P (earlier ++ span ∷ later)
    → P span
All-between P [] later span h = h.0
All-between P (first ∷ earlier) later span h = All-between P earlier later span h.1

-- On a whole database, `Process` of a span whose source, destination and value have no colon, among
-- any spans, with any handlers, detectors and threshold, returns without an error. The database then
-- has a component with the type, the destination and the value of the span as its type, app item and
-- value, and a connection from the source of the span to its destination, which lists the component.
pub process-Holds :
    (p : SpanProcessor) (earlier later : List RawSpan) (span : RawSpan) (db : Db)
    → IsWhole db
    → IsPlain p.handlers span
    → Returns
        (λ db'. HoldsComponent p.handlers db' span × HoldsConnection p.handlers db' span)
        p
        (earlier ++ span ∷ later)
        (process p (earlier ++ span ∷ later) db)
process-Holds p earlier later span db w plain =
    Returns-map p (earlier ++ span ∷ later) (process p (earlier ++ span ∷ later) db)
      (λ d (whole, covers).
        let h = All-between (Covers p.handlers p.pii_detectors d) earlier later span covers in
        (
          covered-HoldsComponent p.handlers p.pii_detectors d whole span plain h,
          covered-HoldsConnection p.handlers p.pii_detectors d whole span plain h,
        ))
      (process-Covers p (earlier ++ span ∷ later) db w)
