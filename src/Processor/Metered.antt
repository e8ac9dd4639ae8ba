-- ===== src/Processor/Metered.antt =====
-- backend/processor/processor.go: `accumulateSpan`, `flush` and `Process` with what they count, beside
-- the functions of the same code in Accumulate, Flush, Process and Gauges.
pub mod Forgotten
pub mod Written
pub mod Counted
pub mod Sightings
pub mod Totals
use alma_backend_task.Prelude.{
  ℕ, suc, ◌+◌, String, Bool, true, false, List, [], ◌∷◌, ◌++◌, ok, ◌>>=◌, length,
}
use alma_backend_task.GoMap
use alma_backend_task.GoMap.{Map}
use alma_backend_task.Db.Types.{Record, Db, Outcome}
use alma_backend_task.Models.{RawSpan, attr_span_type, PiiType, pii_type}
use alma_backend_task.Metrics.{Gauges, Counters, Metrics, add_at_label, add_at_labels}
use alma_backend_task.Processor.Handlers.{attr, handler_for, PiiDetector, detect_piis}
use alma_backend_task.Processor.Accumulate.{Accumulator, new_accumulator, reset, accumulate_span}
use alma_backend_task.Processor.Flush.{
  FlushError, Flushed, flush_items, flush_components, flush_piis, flush_connections,
}
use alma_backend_task.Processor.Process.{SpanProcessor, flush_due, Progress, Processed, conclude}
use alma_backend_task.Processor.Gauges.{record_totals}

abbrev pub Metered : Type 0 → Type 0
Metered A = Outcome (A × Counters)

-- `metrics.PIIDetectionsTotal.WithLabelValues(string(piiType)).Inc()` for each detection
unfoldable pub count_detections : List PiiType → Map String ℕ → Map String ℕ
count_detections [] counter = counter
count_detections (t ∷ ts) counter = count_detections ts (add_at_label (pii_type t) 1 counter)

-- What is detected in the texts of a span, in the order of the two loops.
unfoldable pub found_in : List PiiDetector → List String → List PiiType
found_in detectors [] = []
found_in detectors (text ∷ texts) = detect_piis detectors text ++ found_in detectors texts

unfoldable pub found_of : SpanProcessor → RawSpan → List PiiType
found_of p span =
    let attrs = span.attributes in
    found_in p.pii_detectors ((handler_for (attr attr_span_type attrs) p.handlers).pii_fields attrs)

-- One round of the loop over the spans: the detections, and `metrics.SpansProcessedTotal.Inc()`.
unfoldable pub count_span : SpanProcessor → RawSpan → Counters → Counters
count_span p span c = record c {
  spans_processed_total = c.spans_processed_total + 1;
  pii_detections_total = count_detections (found_of p span) c.pii_detections_total;
}

-- A goroutine counts its records if there are some and they were written.
unfoldable pub count_batch : String → String → List Record → List FlushError → Counters → Counters
count_batch table operation [] errors c = c
count_batch table operation (r ∷ rs) (e ∷ es) c = c
count_batch table operation (r ∷ rs) [] c = record c {
  db_operations_total =
      add_at_labels (table ∷ operation ∷ []) (length (r ∷ rs)) c.db_operations_total;
}

unfoldable pub metered_batch :
    String → String → List Record → (Db → Outcome Flushed) → Db → Counters → Metered Flushed
metered_batch table operation rs run db c = do
  (db', errors) ← run db
  ok ((db', errors), count_batch table operation rs errors c)

unfoldable pub metered_wave :
    (Db → Counters → Metered Flushed)
    → (Db → Counters → Metered Flushed)
    → Db
    → Counters
    → Metered Flushed
metered_wave first second db c = do
  (done₁, c₁) ← first db c
  (done₂, c₂) ← second done₁.0 c₁
  ok ((done₂.0, done₁.1 ++ done₂.1), c₂)

unfoldable pub metered_first : Accumulator → Db → Counters → Metered Flushed
metered_first acc =
    metered_wave (metered_batch "app_items" "upsert" (GoMap.values acc.app_items) (flush_items acc))
      (metered_batch "components" "upsert" (GoMap.values acc.components) (flush_components acc))

unfoldable pub metered_second : Accumulator → Db → Counters → Metered Flushed
metered_second acc =
    metered_wave (metered_batch "component_piis" "insert" (GoMap.values acc.piis) (flush_piis acc))
      (metered_batch "connections" "upsert" (GoMap.values acc.connections) (flush_connections acc))

unfoldable pub metered_next : Accumulator → Flushed → Counters → Metered Flushed
metered_next acc (db, []) c = metered_second acc db c
metered_next acc (db, e ∷ es) c = ok ((db, e ∷ es), c)

unfoldable pub metered_flush : Accumulator → Db → Counters → Metered Flushed
metered_flush acc db c = do (first, c₁) ← metered_first acc db c; metered_next acc first c₁

unfoldable pub metered_resume :
    Accumulator
    → (Accumulator → Db → Counters → Metered Progress)
    → Flushed
    → Counters
    → Metered Progress
metered_resume acc rest (db, []) c = rest (reset acc) db c
metered_resume acc rest (db, e ∷ es) c = ok (record { acc = acc; db = db; errors = e ∷ es }, c)

unfoldable pub metered_spans :
    SpanProcessor → List RawSpan → Accumulator → Db → Counters → Metered Progress
metered_spans p [] acc db c = ok (record { acc = acc; db = db; errors = [] }, c)
metered_spans p (span ∷ spans) acc db c =
    let acc' = accumulate_span p.handlers p.pii_detectors span acc in
    let c' = count_span p span c in
    elim (flush_due p.batch_flush_threshold acc') [
      | true ↦ do
        (flushed, c₁) ← metered_flush acc' db c'
        metered_resume acc' (λ a d k. metered_spans p spans a d k) flushed c₁
      | false ↦ metered_spans p spans acc' db c'
    ]

-- `metrics.SpansErrorsTotal.Inc()`, on both returns of an error
abbrev pub count_error : Metrics → Counters → Metrics
count_error m c = record m { counters = record c { spans_errors_total = c.spans_errors_total + 1 } }

-- The end of `Process` after its last flush. The invalidator is an `APIBackend`, which counts.
abbrev pub count_invalidated : Bool → ℕ → ℕ
count_invalidated true n = n + 1
count_invalidated false n = n

unfoldable pub metered_end :
    SpanProcessor
    → List RawSpan
    → Accumulator
    → Metrics
    → Flushed
    → Counters
    → Outcome (Processed × Metrics)
metered_end p spans acc m (db, e ∷ es) c = ok (conclude p spans (db, e ∷ es), count_error m c)
metered_end p spans acc m (db, []) c = do
  gauges ← record_totals p.batch_flush_threshold acc db m.gauges
  let done = conclude p spans (db, []) in
      ok (
        done,
        record {
          counters = record c {
            span_processing_duration = c.span_processing_duration + 1;
            cache_invalidations_total =
                count_invalidated done.invalidated c.cache_invalidations_total;
          };
          gauges = gauges;
        },
      )

unfoldable pub metered_last :
    SpanProcessor
    → List RawSpan
    → Metrics
    → Progress
    → List FlushError
    → Counters
    → Outcome (Processed × Metrics)
metered_last p spans m progress (e ∷ es) c =
    ok (record { db = progress.db; errors = e ∷ es; invalidated = false }, count_error m c)
metered_last p spans m progress [] c = do
  (flushed, c₁) ← metered_flush progress.acc progress.db c
  metered_end p spans progress.acc m flushed c₁

unfoldable pub metered_process :
    SpanProcessor → List RawSpan → Db → Metrics → Outcome (Processed × Metrics)
metered_process p spans db m = do
  (progress, c) ← metered_spans p spans new_accumulator db m.counters
  metered_last p spans m progress progress.errors c
