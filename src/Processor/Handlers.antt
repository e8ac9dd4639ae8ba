-- ===== src/Processor/Handlers.antt =====
-- backend/processor/span_handler.go and pii.go: how a span of each type is read. A handler is one of
-- the built-in structs or one that `WithSpanHandler` registered; a detector's pattern is a predicate
-- on texts, since matching is the `regexp` package's.
use alma_backend_task.Prelude.{String, Bool, Option, none, some, List, [], ◌∷◌, if◌then◌else◌}
use alma_backend_task.GoMap.{Map}
use alma_backend_task.Db.Types.{at, set_at}
use alma_backend_task.Models.{
  AppItemType, service, database, ComponentType, endpoint, query, PiiType, attr_http_path,
  attr_db_query, attr_queue_topic, attr_http_req_body, attr_http_resp_body, attr_db_query_values,
  attr_queue_payload,
}

abbrev pub Attributes : Type 0
Attributes = Map String String

-- A missing key reads as the empty text.
abbrev pub or_blank : Option String → String
or_blank none = ""
or_blank (some s) = s

-- `attrs[k]`
abbrev pub attr : String → Attributes → String
attr k attrs = or_blank (at k attrs)

-- The interface `SpanTypeHandler`.
pub record SpanTypeHandler : Type 0 where
  pub destination_app_item_type : AppItemType
  pub component_info : Attributes → ComponentType × String
  pub pii_fields : Attributes → List String

unfoldable pub network_handler : SpanTypeHandler
network_handler = record {
  destination_app_item_type = service;
  component_info = λ attrs. (endpoint, attr attr_http_path attrs);
  pii_fields = λ attrs. attr attr_http_req_body attrs ∷ attr attr_http_resp_body attrs ∷ [];
}

unfoldable pub query_handler : SpanTypeHandler
query_handler = record {
  destination_app_item_type = database;
  component_info = λ attrs. (query, attr attr_db_query attrs);
  pii_fields = λ attrs. attr attr_db_query_values attrs ∷ [];
}

unfoldable pub message_handler : SpanTypeHandler
message_handler = record {
  destination_app_item_type = AppItemType.queue;
  component_info = λ attrs. (ComponentType.queue, attr attr_queue_topic attrs);
  pii_fields = λ attrs. attr attr_queue_payload attrs ∷ [];
}

abbrev pub Handlers : Type 0
Handlers = Map String SpanTypeHandler

unfoldable pub default_handlers : Handlers
unfolding network_handler query_handler message_handler
default_handlers =
    ("NETWORK", network_handler) ∷ ("QUERY", query_handler) ∷ ("MESSAGE", message_handler) ∷ []

-- `WithSpanHandler`
unfoldable pub with_span_handler : String → SpanTypeHandler → Handlers → Handlers
with_span_handler span_type handler handlers = set_at span_type handler handlers

abbrev or_network : Option SpanTypeHandler → SpanTypeHandler
or_network none = network_handler
or_network (some h) = h

unfoldable pub handler_for : String → Handlers → SpanTypeHandler
handler_for span_type handlers = or_network (at span_type handlers)

pub record PiiDetector : Type 0 where
  pub type : PiiType
  pub matches : String → Bool

-- The types of the detectors that match, in their order.
unfoldable pub detect_piis : List PiiDetector → String → List PiiType
detect_piis [] text = []
detect_piis (d ∷ ds) text =
    let rest = detect_piis ds text in if d.matches text then d.type ∷ rest else rest
