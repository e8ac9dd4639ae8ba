-- ===== src/Metrics.antt =====
-- metrics/metrics.go: what the program counts and gauges. A metric with labels is a map from its label,
-- or from its labels in their order. A histogram is the number of its observations, as what it
-- observes is the clock's. A sum of float64s is a natural number. Prometheus itself is left out.
pub mod Registry
pub mod Sums
use alma_backend_task.Prelude.{ℕ, ◌+◌, String, Option, none, some, List, [], String-discrete}
use mathlib.Core.List.{List-discrete}
use alma_backend_task.GoMap
use alma_backend_task.GoMap.{Map}

pub record Gauges : Type 0 where
  pub app_items_total : Map String ℕ
  pub components_total : Map String ℕ
  pub connections_total : ℕ

unfoldable pub new_gauges : Gauges
new_gauges = record { app_items_total = []; components_total = []; connections_total = 0 }

pub record Counters : Type 0 where
  pub spans_processed_total : ℕ
  pub spans_errors_total : ℕ
  pub pii_detections_total : Map String ℕ
  pub db_operations_total : Map (List String) ℕ
  pub span_processing_duration : ℕ
  pub api_query_duration : Map String ℕ
  pub cache_hits_total : Map String ℕ
  pub cache_misses_total : Map String ℕ
  pub cache_invalidations_total : ℕ

unfoldable pub new_counters : Counters
new_counters = record {
  spans_processed_total = 0;
  spans_errors_total = 0;
  pii_detections_total = [];
  db_operations_total = [];
  span_processing_duration = 0;
  api_query_duration = [];
  cache_hits_total = [];
  cache_misses_total = [];
  cache_invalidations_total = 0;
}

pub record Metrics : Type 0 where
  pub counters : Counters
  pub gauges : Gauges

-- A missing label reads as 0.
abbrev pub or_zero : Option ℕ → ℕ
or_zero none = 0
or_zero (some n) = n

-- `counter.WithLabelValues(label).Add(n)`
unfoldable pub add_at : {L : Type 0} → Discrete L → L → ℕ → Map L ℕ → Map L ℕ
add_at dec label n counter = GoMap.put dec label (or_zero (GoMap.get dec label counter) + n) counter

abbrev pub add_at_label : String → ℕ → Map String ℕ → Map String ℕ
add_at_label = add_at String-discrete

abbrev pub add_at_labels : List String → ℕ → Map (List String) ℕ → Map (List String) ℕ
add_at_labels = add_at (List-discrete String-discrete)
