-- ===== src/Processor/Process.antt =====
-- backend/processor/processor.go: `SpanProcessor` and `Process`. Logs are left out, and Processor/Metered
-- has the metrics.
use alma_backend_task.Prelude.{suc, Bool, true, false, List, [], ◌∷◌, ok, ◌>>=◌, ◌&&◌}
use alma_backend_task.Value.{ℤ, pos}
use alma_backend_task.Db.Types.{Db, Outcome}
use alma_backend_task.Models.{RawSpan}
use alma_backend_task.Processor.Handlers.{Handlers, PiiDetector}
use alma_backend_task.Processor.Accumulate.{
  Accumulator, new_accumulator, reset, exceeds_threshold, accumulate_span,
}
use alma_backend_task.Processor.Flush.{FlushError, Flushed, flush}

-- The options of `New`; `invalidator` says whether there is a cache to invalidate.
pub record SpanProcessor : Type 0 where
  pub handlers : Handlers
  pub pii_detectors : List PiiDetector
  pub batch_flush_threshold : ℤ
  pub invalidator : Bool

-- `p.batchFlushThreshold > 0 && acc.exceedsThreshold(p.batchFlushThreshold)`
unfoldable pub flush_due : ℤ → Accumulator → Bool
flush_due (pos (suc n)) acc = exceeds_threshold (suc n) acc
flush_due _ acc = false

-- What the loop over the spans leaves: the accumulator, the database, and the errors that ended it.
pub record Progress : Type 0 where
  pub acc : Accumulator
  pub db : Db
  pub errors : List FlushError

-- After a flush in the loop: an error ends `Process`, and otherwise the accumulator is reset.
unfoldable pub resume :
    Accumulator → (Accumulator → Db → Outcome Progress) → Flushed → Outcome Progress
resume acc rest (db, []) = rest (reset acc) db
resume acc rest (db, e ∷ es) = ok (record { acc = acc; db = db; errors = e ∷ es })

unfoldable pub accumulate_spans : SpanProcessor → List RawSpan → Accumulator → Db → Outcome Progress
accumulate_spans p [] acc db = ok (record { acc = acc; db = db; errors = [] })
accumulate_spans p (span ∷ spans) acc db =
    let acc' = accumulate_span p.handlers p.pii_detectors span acc in
    elim (flush_due p.batch_flush_threshold acc') [
      | true ↦ do flushed ← flush acc' db; resume acc' (λ a d. accumulate_spans p spans a d) flushed
      | false ↦ accumulate_spans p spans acc' db
    ]

-- What `Process` leaves: the database, the error that it returns, if any, and whether it invalidated
-- the cache.
pub record Processed : Type 0 where
  pub db : Db
  pub errors : List FlushError
  pub invalidated : Bool

abbrev pub is_nonempty : List RawSpan → Bool
is_nonempty [] = false
is_nonempty (s ∷ ss) = true

unfoldable pub conclude : SpanProcessor → List RawSpan → Flushed → Processed
conclude p spans (db, []) = record {
  db = db;
  errors = [];
  invalidated = p.invalidator && is_nonempty spans;
}
conclude p spans (db, e ∷ es) = record { db = db; errors = e ∷ es; invalidated = false }

-- The flush after the loop, of what is left.
unfoldable pub last_flush :
    SpanProcessor → List RawSpan → Progress → List FlushError → Outcome Processed
last_flush p spans progress [] = do
  flushed ← flush progress.acc progress.db
  ok (conclude p spans flushed)
last_flush p spans progress (e ∷ es) =
    ok (record { db = progress.db; errors = e ∷ es; invalidated = false })

unfoldable pub process : SpanProcessor → List RawSpan → Db → Outcome Processed
process p spans db = do
  progress ← accumulate_spans p spans new_accumulator db
  last_flush p spans progress progress.errors
