-- ===== src/Metrics/Registry.antt =====
-- metrics/metrics.go: the metrics with their names and labels, and their registration.
use alma_backend_task.Prelude.{String, List, [], ◌∷◌}

pub data Kind : Type 0 where
  counter counter_vec gauge gauge_vec histogram histogram_vec : Kind

pub record Metric : Type 0 where
  pub kind : Kind
  pub name : String
  pub help : String
  pub labels : List String

abbrev pub spans_processed_total_metric : Metric
spans_processed_total_metric = record {
  kind = counter;
  name = "spans_processed_total";
  help = "Total number of spans processed.";
  labels = [];
}

abbrev pub spans_errors_total_metric : Metric
spans_errors_total_metric = record {
  kind = counter;
  name = "spans_errors_total";
  help = "Total number of span processing errors.";
  labels = [];
}

abbrev pub pii_detections_total_metric : Metric
pii_detections_total_metric = record {
  kind = counter_vec;
  name = "pii_detections_total";
  help = "Total number of PII detections by type.";
  labels = "type" ∷ [];
}

abbrev pub db_operations_total_metric : Metric
db_operations_total_metric = record {
  kind = counter_vec;
  name = "db_operations_total";
  help = "Total number of database operations by table and operation.";
  labels = "table" ∷ "operation" ∷ [];
}

abbrev pub span_processing_duration_metric : Metric
span_processing_duration_metric = record {
  kind = histogram;
  name = "span_processing_duration_seconds";
  help = "Duration of span processing in seconds.";
  labels = [];
}

abbrev pub api_query_duration_metric : Metric
api_query_duration_metric = record {
  kind = histogram_vec;
  name = "api_query_duration_seconds";
  help = "Duration of API queries in seconds.";
  labels = "endpoint" ∷ [];
}

abbrev pub app_items_total_metric : Metric
app_items_total_metric = record {
  kind = gauge_vec;
  name = "app_items_total";
  help = "Total number of app items by type.";
  labels = "type" ∷ [];
}

abbrev pub components_total_metric : Metric
components_total_metric = record {
  kind = gauge_vec;
  name = "components_total";
  help = "Total number of components by type.";
  labels = "type" ∷ [];
}

abbrev pub connections_total_metric : Metric
connections_total_metric = record {
  kind = gauge;
  name = "connections_total";
  help = "Total number of connections.";
  labels = [];
}

abbrev pub cache_hits_total_metric : Metric
cache_hits_total_metric = record {
  kind = counter_vec;
  name = "api_cache_hits_total";
  help = "Total number of API cache hits by endpoint.";
  labels = "endpoint" ∷ [];
}

abbrev pub cache_misses_total_metric : Metric
cache_misses_total_metric = record {
  kind = counter_vec;
  name = "api_cache_misses_total";
  help = "Total number of API cache misses by endpoint.";
  labels = "endpoint" ∷ [];
}

abbrev pub cache_invalidations_total_metric : Metric
cache_invalidations_total_metric = record {
  kind = counter;
  name = "api_cache_invalidations_total";
  help = "Total number of API cache invalidations.";
  labels = [];
}

-- The arguments of `MustRegister` in `Register`.
abbrev pub registered : List Metric
registered =
    spans_processed_total_metric ∷ spans_errors_total_metric ∷ pii_detections_total_metric
    ∷ db_operations_total_metric ∷ span_processing_duration_metric ∷ api_query_duration_metric
    ∷ app_items_total_metric ∷ components_total_metric ∷ connections_total_metric
    ∷ cache_hits_total_metric ∷ cache_misses_total_metric ∷ cache_invalidations_total_metric ∷ []
