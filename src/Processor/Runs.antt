-- ===== src/Processor/Runs.antt =====
-- backend/processor/processor.go: `Process` on a database with the four tables of schema/schema.go.
use alma_backend_task.Prelude.{◌≡◌, refl, ◌&&◌, List, [], ◌∷◌, ok, ◌>>=◌, Bool-cases, inl, inr}
use alma_backend_task.Db.Types.{Db, Outcome}
use alma_backend_task.Models.{RawSpan}
use alma_backend_task.Processor.Accumulate.{Accumulator, new_accumulator, accumulate_span}
use alma_backend_task.Processor.Flush.{flush}
use alma_backend_task.Processor.Process.{
  SpanProcessor, flush_due, Progress, resume, accumulate_spans, Processed, is_nonempty, conclude,
  last_flush, process,
}
use alma_backend_task.Processor.Suited.{IsReady, new_accumulator-IsReady, accumulate_span-IsReady}
use alma_backend_task.Processor.Batches.{Stored}
use alma_backend_task.Processor.Waves.{IsServed, flush-Flushes}

-- `Process` has returned without an error, and leaves a database with the property.
abbrev pub Returns : (Db → Type 0) → SpanProcessor → List RawSpan → Outcome Processed → Type 0
Returns D p spans o =
    (db' : Db) × (o
      ≡ ok (record { db = db'; errors = []; invalidated = p.invalidator && is_nonempty spans }))
    × D db'

-- The spans in the order in which they come, each put before those that came earlier.
unfoldable pub onto : List RawSpan → List RawSpan → List RawSpan
onto [] done = done
onto (span ∷ spans) done = onto spans (span ∷ done)

-- What a run of the processor keeps: a property of the spans that were read, the accumulator and the
-- database, which each span and each flush keeps, with no error.
pub record Keeps (p : SpanProcessor) (K : List RawSpan → Accumulator → Db → Type 0) : Type 0 where
  pub spans :
      (span : RawSpan) (done : List RawSpan) (acc : Accumulator) (db : Db)
      → K done acc db
      → K (span ∷ done) (accumulate_span p.handlers p.pii_detectors span acc) db
  pub flushes :
      (done : List RawSpan) (acc : Accumulator) (db : Db)
      → K done acc db
      → Stored db (λ _ db'. K done new_accumulator db') (flush acc db)

module _ (p : SpanProcessor) (K : List RawSpan → Accumulator → Db → Type 0)
    (keeps : Keeps p K) where
  -- The loop came to its end without an error.
  record HasRun (done : List RawSpan) (out : Progress) : Type 0 where
    errors : out.errors ≡ []
    kept : K done out.acc out.db

  abbrev Runs : List RawSpan → Outcome Progress → Type 0
  Runs done o = (out : Progress) × (o ≡ ok out) × HasRun done out

  -- The flush in the loop, and then the rest of the spans.
  resumed :
      (done end : List RawSpan) (acc : Accumulator) (db : Db)
      (rest : Accumulator → Db → Outcome Progress)
      → Stored db (λ _ db'. K done new_accumulator db') (flush acc db)
      → ((d : Db) → K done new_accumulator d → Runs end (rest new_accumulator d))
      → Runs end (flush acc db >>= λ flushed. resume acc rest flushed)
  unfolding resume
  resumed done end acc db rest (db', e, f) k = rw e (k db' f)

  accumulate_spans-Runs :
      (spans done : List RawSpan) (acc : Accumulator) (db : Db)
      → K done acc db
      → Runs (onto spans done) (accumulate_spans p spans acc db)
  unfolding accumulate_spans onto
  accumulate_spans-Runs [] done acc db k =
      (record { acc = acc; db = db; errors = [] }, refl, record { errors = refl; kept = k })
  accumulate_spans-Runs (span ∷ spans) done acc db k =
      let acc' = accumulate_span p.handlers p.pii_detectors span acc in
      let k' = keeps.spans span done acc db k in
      elim (Bool-cases (flush_due p.batch_flush_threshold acc')) [
        | inl due ↦
            rw (due, accumulate_spans)
              (resumed (span ∷ done) (onto spans (span ∷ done)) acc' db
                (λ a d. accumulate_spans p spans a d) (keeps.flushes (span ∷ done) acc' db k')
                (λ d t. accumulate_spans-Runs spans (span ∷ done) new_accumulator d t))
        | inr not_due ↦
            rw (not_due, accumulate_spans) (accumulate_spans-Runs spans (span ∷ done) acc' db k')
      ]

  finished :
      (spans done : List RawSpan) (acc : Accumulator) (db : Db)
      → Stored db (λ _ db'. K done new_accumulator db') (flush acc db)
      → Returns
          (K done new_accumulator)
          p
          spans
          (flush acc db >>= λ flushed. ok (conclude p spans flushed))
  unfolding conclude
  finished spans done acc db (db', e, f) = (db', rw e refl, f)

  process-of :
      (spans done : List RawSpan) (db : Db)
      → Runs done (accumulate_spans p spans new_accumulator db)
      → Returns (K done new_accumulator) p spans (process p spans db)
  unfolding process last_flush
  process-of spans done db (out, e, h) =
      rw (e, h.errors)
        (finished spans done out.acc out.db (keeps.flushes done out.acc out.db h.kept))

  -- What every span and every flush keeps, `Process` keeps, and it returns without an error.
  pub process-Returns :
      (spans : List RawSpan) (db : Db)
      → K [] new_accumulator db
      → Returns (K (onto spans []) new_accumulator) p spans (process p spans db)
  process-Returns spans db k =
      process-of spans (onto spans []) db (accumulate_spans-Runs spans [] new_accumulator db k)

-- What is true of the database in a property, at the end of a run.
pub Returns-map :
    {D E : Db → Type 0} (p : SpanProcessor) (spans : List RawSpan) (o : Outcome Processed)
    → ((db : Db) → D db → E db)
    → Returns D p spans o
    → Returns E p spans o
Returns-map p spans o f (db', e, d) = (db', e, f db' d)

-- `Process` has returned without an error, and the tables are well formed.
abbrev pub Succeeds : SpanProcessor → List RawSpan → Outcome Processed → Type 0
Succeeds = Returns IsServed

-- The accumulator suits its tables, and the tables are well formed.
abbrev Ready : List RawSpan → Accumulator → Db → Type 0
Ready done acc db = IsReady acc × IsServed db

flush-IsServed :
    (done : List RawSpan) (acc : Accumulator) (db : Db)
    → Ready done acc db
    → Stored db (λ _ db'. Ready done new_accumulator db') (flush acc db)
flush-IsServed done acc db (r, s) =
    let (db', e, f) = flush-Flushes acc db r s in (db', e, (new_accumulator-IsReady, f.served))

Ready-Keeps : (p : SpanProcessor) → Keeps p Ready
Ready-Keeps p = record {
  spans =
      λ span done acc db (r, s). (accumulate_span-IsReady p.handlers p.pii_detectors span acc r, s);
  flushes = flush-IsServed;
}

-- `Process` of any spans, with any handlers, detectors and threshold, on a database with the four
-- tables, well formed, returns without an error and leaves them well formed. It invalidates the cache
-- if there is one and there was a span.
pub process-Succeeds :
    (p : SpanProcessor) (spans : List RawSpan) (db : Db)
    → IsServed db
    → Succeeds p spans (process p spans db)
process-Succeeds p spans db s =
    Returns-map p spans (process p spans db) (λ d k. k.1)
      (process-Returns p Ready (Ready-Keeps p) spans db (new_accumulator-IsReady, s))
