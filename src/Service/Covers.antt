-- ===== src/Service/Covers.antt =====
-- backend/processor: the records of every span, over a run of `Process`.
use alma_backend_task.Prelude.{List, [], ◌∷◌, All}
use alma_backend_task.GoMap.Entries.{All-map}
use alma_backend_task.Db.Types.{Db}
use alma_backend_task.Models.{RawSpan}
use alma_backend_task.Processor.Accumulate.{Accumulator}
use alma_backend_task.Processor.Flush.{flush}
use alma_backend_task.Processor.Process.{SpanProcessor, process}
use alma_backend_task.Processor.Batches.{Stored}
use alma_backend_task.Processor.Runs.{Keeps, Returns, onto, process-Returns, Returns-map}
use alma_backend_task.Service.Links.{
  IsWhole, Sound, new_accumulator-IsSound, accumulate_span-IsSound, flush-IsWhole,
}
use alma_backend_task.Service.Spans.{Covers}
use alma_backend_task.Service.Held.{
  IsHeld, flushed-Covers, covered-IsHeld, held-Covers, accumulate_span-old, accumulate_span-new,
}

onto-All :
    (P : RawSpan → Type 0) (spans done : List RawSpan)
    → All P (onto spans done)
    → All P spans × All P done
unfolding onto
onto-All P [] done h = (tt, h)
onto-All P (span ∷ spans) done h = let (a, b) = onto-All P spans (span ∷ done) h in ((b.0, a), b.1)

module _ (p : SpanProcessor) where
  -- Each span that was read is in the accumulator or in the database.
  abbrev HeldAll : List RawSpan → Accumulator → Db → Type 0
  HeldAll done acc db = Sound acc db × All (IsHeld p.handlers p.pii_detectors acc db) done

  abbrev pub CoversAll : List RawSpan → Db → Type 0
  CoversAll done db = IsWhole db × All (Covers p.handlers p.pii_detectors db) done

  flush-HeldAll :
      (done : List RawSpan) (acc : Accumulator) (db : Db)
      → HeldAll done acc db
      → Stored db (λ _ db'. CoversAll done db') (flush acc db)
  flush-HeldAll done acc db (s, held) =
      let (db', e, (f, w)) = flush-IsWhole acc db s in
      (
        db',
        e,
        (
          w,
          All-map (λ span h. flushed-Covers p.handlers p.pii_detectors acc db db' span s.0.tied f h)
              done held,
        ),
      )

  held-Keeps : Keeps p HeldAll
  held-Keeps = record {
    spans = λ span done acc db (s, held). (
      (accumulate_span-IsSound p.handlers p.pii_detectors span acc s.0, s.1),
      (
        accumulate_span-new p.handlers p.pii_detectors span acc db,
        All-map (accumulate_span-old p.handlers p.pii_detectors span acc db) done held,
      ),
    );
    flushes = λ done acc db k.
        let (db', e, (w, c)) = flush-HeldAll done acc db k in
        (
          db',
          e,
          (
            (new_accumulator-IsSound, w),
            All-map (covered-IsHeld p.handlers p.pii_detectors db') done c,
          ),
        );
  }

  -- On a whole database, `Process` of any spans, with any handlers, detectors and threshold, returns
  -- without an error and leaves the database whole: among others, the key of each component is its
  -- type, its app item and its value, and the key of each connection its source and its destination,
  -- joined by colons. For each span the database then has the two app items, the component under the
  -- key of the span's type, destination and value, under the key of the span's source and destination
  -- a connection that lists the component, and each PII that a detector finds in a text of the span.
  pub process-Covers :
      (spans : List RawSpan) (db : Db)
      → IsWhole db
      → Returns (CoversAll spans) p spans (process p spans db)
  process-Covers spans db w =
      Returns-map p spans (process p spans db)
        (λ d (s, held). (
          s.1,
          (onto-All (Covers p.handlers p.pii_detectors d) spans [] (
              All-map (λ span h. held-Covers p.handlers p.pii_detectors d span h) (onto spans [])
                held)).0,
        ))
        (process-Returns p HeldAll held-Keeps spans db ((new_accumulator-IsSound, w), tt))
