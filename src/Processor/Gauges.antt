-- ===== src/Processor/Gauges.antt =====
-- backend/processor/processor.go: `recordGaugesFromDB` and `recordGaugesFromAccumulator`. A count is a
-- natural number, where the code has a float64.
pub mod Counts
use alma_backend_task.Prelude.{
  ℕ, suc, ◌+◌, String, Option, none, some, List, [], ◌∷◌, ok, err, panic, ◌>>=◌, length,
}
use alma_backend_task.GoMap
use alma_backend_task.GoMap.{Map}
use alma_backend_task.Value.{ℤ, pos}
use alma_backend_task.Db.Types.{Record, Db, Outcome, at, set_at}
use alma_backend_task.Db.Query.{all}
use alma_backend_task.Metrics.{Gauges, or_zero}
use alma_backend_task.Processor.Accumulate.{Accumulator}
use alma_backend_task.Api.Types.{text_of}

-- `t, _ := rec[field].(string); counts[t]++` for each record
unfoldable pub count_types : String → List Record → Map String ℕ → Map String ℕ
count_types field [] counts = counts
count_types field (r ∷ rs) counts =
    let t = text_of field r in count_types field rs (set_at t (or_zero (at t counts) + 1) counts)

-- `for t, count := range counts { gauge.WithLabelValues(t).Set(count) }`
unfoldable pub set_counts : Map String ℕ → Map String ℕ → Map String ℕ
set_counts [] gauge = gauge
set_counts ((t, n) ∷ counts) gauge = set_counts counts (set_at t n gauge)

-- What both functions do with the three lists of records.
unfoldable pub record_gauges : List Record → List Record → ℕ → Gauges → Gauges
record_gauges items comps conns g = record {
  app_items_total = set_counts (count_types "type" items []) g.app_items_total;
  components_total = set_counts (count_types "component_type" comps []) g.components_total;
  connections_total = conns;
}

unfoldable pub record_gauges_from_accumulator : Accumulator → Gauges → Gauges
record_gauges_from_accumulator acc g =
    record_gauges (GoMap.values acc.app_items) (GoMap.values acc.components)
      (length acc.connections) g

-- `rows, _ := p.db.All(…)`: beside an error the rows are nil.
abbrev pub or_no_rows : Outcome (List Record) → Outcome (List Record)
or_no_rows (ok rs) = ok rs
or_no_rows (err e) = ok []
or_no_rows panic = panic

unfoldable pub record_gauges_from_db : Db → Gauges → Outcome Gauges
record_gauges_from_db db g = do
  items ← or_no_rows (all "app_items" db)
  comps ← or_no_rows (all "components" db)
  conns ← or_no_rows (all "connections" db)
  ok (record_gauges items comps (length conns) g)

-- `if p.batchFlushThreshold > 0 { … } else { … }` at the end of `Process`
unfoldable pub record_totals : ℤ → Accumulator → Db → Gauges → Outcome Gauges
record_totals (pos (suc n)) acc db g = record_gauges_from_db db g
record_totals _ acc db g = ok (record_gauges_from_accumulator acc g)
