-- ===== src/Processor/Metered/Totals.antt =====
-- backend/processor/processor.go: what a whole `Process` counts.
use alma_backend_task.Prelude.{
  zero, suc, ◌+◌, ◌&&◌, ◌≡◌, refl, ◌∙◌, ap, subst, List, [], ◌∷◌, ok, err, panic, length, ℕ, String,
  Bool, true, false, arith, if◌then◌else◌,
}
use alma_backend_task.Db.Types.{Db, Outcome, at}
use alma_backend_task.Models.{RawSpan}
use alma_backend_task.Value.{ℤ, pos, negsuc}
use alma_backend_task.Processor.Gauges.{record_gauges_from_db, record_totals}
use alma_backend_task.Metrics.{Gauges, Counters, Metrics, or_zero}
use alma_backend_task.Processor.Accumulate.{Accumulator, new_accumulator}
use alma_backend_task.Processor.Flush.{FlushError, Flushed}
use alma_backend_task.Processor.Process.{
  SpanProcessor, Progress, Processed, is_nonempty, conclude, process,
}
use alma_backend_task.Processor.Waves.{IsServed}
use alma_backend_task.Processor.Runs.{process-Succeeds}
use alma_backend_task.Processor.Metered.{
  metered_flush, metered_spans, count_invalidated, metered_end, metered_last, metered_process,
}
use alma_backend_task.Processor.Metered.Written.{Gives, Gives-then, Flushes, metered_flush-Flushes}
use alma_backend_task.Processor.Metered.Counted.{
  Adds, found_all, Adds-Writes, Rests, Rests-trans, Writes-Rests, Loops, spans-Loops,
}
use alma_backend_task.Processor.Metered.Sightings.{
  sightings, invalidates, invalidates_lem, found_all-sightings,
}
use alma_backend_task.Processor.Metered.Forgotten.{forget, totals-made, process-forgotten}

-- With a threshold, the gauges are those of the database.
abbrev pub GaugesFrom : ℤ → Db → Gauges → Gauges → Type 0
GaugesFrom (pos (suc n)) db g g' = record_gauges_from_db db g ≡ ok g'
GaugesFrom threshold db g g' = Unit

totals-GaugesFrom :
    (threshold : ℤ) (acc : Accumulator) (db : Db) (g g' : Gauges)
    → record_totals threshold acc db g ≡ ok g'
    → GaugesFrom threshold db g g'
unfolding record_totals
totals-GaugesFrom (pos zero) acc db g g' e = tt
totals-GaugesFrom (pos (suc n)) acc db g g' e = e
totals-GaugesFrom (negsuc n) acc db g g' e = tt

-- A run: it gave no error and invalidated as it should. It counted its spans, what is found in them,
-- one run more, no error more, an invalidation if there was one, and set the gauges.
pub record Counts (p : SpanProcessor) (spans : List RawSpan) (m : Metrics) (done : Processed)
    (m' : Metrics) : Type 0 where
  pub succeeded : done.errors ≡ []
  pub invalidated : done.invalidated ≡ invalidates p.invalidator spans
  pub processed :
      m'.counters.spans_processed_total ≡ m.counters.spans_processed_total + length spans
  pub detected :
      (t : String)
      → or_zero (at t m'.counters.pii_detections_total)
        ≡ or_zero (at t m.counters.pii_detections_total) + sightings t p spans
  pub errors : m'.counters.spans_errors_total ≡ m.counters.spans_errors_total
  pub runs : m'.counters.span_processing_duration ≡ m.counters.span_processing_duration + 1
  pub invalidations :
      m'.counters.cache_invalidations_total
      ≡ m.counters.cache_invalidations_total + (if invalidates p.invalidator spans then 1 else 0)
  pub gauges : GaugesFrom p.batch_flush_threshold done.db m.gauges m'.gauges

counted_once :
    (b : Bool) (spans : List RawSpan) (n : ℕ)
    → count_invalidated (b && is_nonempty spans) n ≡ n + (if invalidates b spans then 1 else 0)
counted_once true [] n = omega arith
counted_once true (span ∷ spans) n = refl
counted_once false [] n = omega arith
counted_once false (span ∷ spans) n = omega arith

module _ (p : SpanProcessor) (spans : List RawSpan) (m : Metrics) where
  abbrev Ends : Processed → Metrics → Type 0
  Ends done m' = done.errors ≡ [] → Counts p spans m done m'

  end-Ends :
      (acc : Accumulator) (flushed : Flushed) (c : Counters)
      → Rests m.counters c
      → Adds (length spans) (found_all p spans) m.counters c
      → Gives Ends (metered_end p spans acc m flushed c)
  unfolding metered_end conclude
  end-Ends acc (db, e ∷ es) c r a = λ q. cc q
  end-Ends acc (db, []) c r a =
      let (g, e) = totals-made p.batch_flush_threshold acc db m.gauges in
      rw e (λ q. record {
        succeeded = refl;
        invalidated = invalidates_lem p.invalidator spans;
        processed = a.processed;
        detected = λ t. omega (arith, a.detected t, found_all-sightings t p spans);
        errors = r.errors;
        runs = ap (λ n. n + 1) r.runs;
        gauges = totals-GaugesFrom p.batch_flush_threshold acc db m.gauges g e;
        invalidations =
            ap (count_invalidated (p.invalidator && is_nonempty spans)) r.invalidations
            ∙ counted_once p.invalidator spans m.counters.cache_invalidations_total;
      })

  last-Ends :
      (progress : Progress) (errors : List FlushError) (c : Counters)
      → progress.errors ≡ errors
      → Loops (length spans) (found_all p spans) m.counters progress c
      → Gives Ends (metered_last p spans m progress errors c)
  unfolding metered_last
  last-Ends progress (e ∷ es) c q l = λ r. cc r
  last-Ends progress [] c q l =
      Gives-then (Flushes c) Ends (metered_flush progress.acc progress.db c) _
        (metered_flush-Flushes progress.acc progress.db c)
        (λ flushed c₁ w.
          end-Ends progress.acc flushed c₁ (Rests-trans l.rests (Writes-Rests c c₁ w))
            (Adds-Writes (length spans) (found_all p spans) m.counters c c₁ (l.adds q) w))

  process-Ends : (db : Db) → Gives Ends (metered_process p spans db m)
  unfolding metered_process
  process-Ends db =
      Gives-then (Loops (length spans) (found_all p spans) m.counters) Ends
        (metered_spans p spans new_accumulator db m.counters) _
        (spans-Loops p spans new_accumulator db m.counters)
        (λ progress c l. last-Ends progress progress.errors c refl l)

forget-ok :
    {A C : Type 0} (x : Outcome (A × C)) (a : A) → forget x ≡ ok a → (c : C) × (x ≡ ok (a, c))
forget-ok (ok (b, c)) a e = (c, cc e)
forget-ok (err why) a e = cc e
forget-ok panic a e = cc e

-- On a database with the four tables, well formed, `Process` of any spans, with any handlers, detectors
-- and threshold, returns without an error, and invalidates the cache exactly if there is an
-- invalidator and a span. It then has counted each span once, and each type of PII once for each text
-- of a span and detector of the type that matches it. It has counted one run, no error, and one
-- invalidation exactly if it invalidated. With a threshold the gauges are those that
-- `recordGaugesFromDB` sets from the database that it leaves.
pub metered_process-Counts :
    (p : SpanProcessor) (spans : List RawSpan) (db : Db) (m : Metrics)
    → IsServed db
    → (done : Processed) × (m' : Metrics) × (metered_process p spans db m ≡ ok (done, m'))
      × (process p spans db ≡ ok done)
      × Counts p spans m done m'
metered_process-Counts p spans db m served =
    let (db', e, s) = process-Succeeds p spans db served in
    let (m', e') =
      forget-ok (metered_process p spans db m) _ (process-forgotten p spans db m ∙ e) in
    (_, m', e', e, subst (Gives (Ends p spans m)) e' (process-Ends p spans m db) refl)
