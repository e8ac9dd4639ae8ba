-- ===== src/Models.antt =====
-- models/models.go: the span and the vocabulary of the catalogue.
use alma_backend_task.Prelude.{String, List}
use alma_backend_task.GoMap.{Map}

abbrev pub attr_span_type : String
attr_span_type = "ebpf.span.type"

abbrev pub attr_source : String
attr_source = "ebpf.source"

abbrev pub attr_destination : String
attr_destination = "ebpf.destination"

abbrev pub attr_http_path : String
attr_http_path = "ebpf.http.path"

abbrev pub attr_queue_topic : String
attr_queue_topic = "ebpf.queue.topic"

abbrev pub attr_db_query : String
attr_db_query = "ebpf.db.query"

abbrev pub attr_http_req_body : String
attr_http_req_body = "ebpf.http.req_body"

abbrev pub attr_http_resp_body : String
attr_http_resp_body = "ebpf.http.resp_body"

abbrev pub attr_queue_payload : String
attr_queue_payload = "ebpf.queue.payload"

abbrev pub attr_db_query_values : String
attr_db_query_values = "ebpf.db.query.values"

-- The times of a span, which nothing reads, are left out.
pub record RawSpan : Type 0 where
  pub id : String
  pub kind : String
  pub name : String
  pub attributes : Map String String

-- The file of the agent.
pub record RawSpansFile : Type 0 where
  pub spans : List RawSpan

pub data AppItemType : Type 0 where
  internet service database queue : AppItemType

-- `string(t)`
unfoldable pub app_item_type : AppItemType → String
app_item_type internet = "INTERNET"
app_item_type service = "SERVICE"
app_item_type database = "DATABASE"
app_item_type AppItemType.queue = "QUEUE"

pub data ComponentType : Type 0 where
  endpoint queue query : ComponentType

unfoldable pub component_type : ComponentType → String
component_type endpoint = "ENDPOINT"
component_type ComponentType.queue = "QUEUE"
component_type query = "QUERY"

pub data PiiType : Type 0 where
  email credit_card ssn phone ip_address : PiiType

unfoldable pub pii_type : PiiType → String
pii_type email = "EMAIL"
pii_type credit_card = "CREDIT_CARD"
pii_type ssn = "SSN"
pii_type phone = "PHONE"
pii_type ip_address = "IP_ADDRESS"

-- The catalogue as the model has it, which the API's own responses stand in for.
pub record Component : Type 0 where
  pub id : String
  pub app_item_name : String
  pub component_type : ComponentType
  pub value : String
  pub piis : List PiiType

pub record AppItem : Type 0 where
  pub name : String
  pub type : AppItemType
  pub components : List Component

pub record Connection : Type 0 where
  pub source : String
  pub destination : String
  pub components : List Component

pub record Catalog : Type 0 where
  pub app_items : List AppItem
