-- ===== src/Processor/Metered/Counted.antt =====
-- backend/processor/processor.go: what `Process` counts.
use alma_backend_task.Prelude.{
  ℕ, suc, ◌+◌, String, ◌≡◌, refl, ◌∙◌, ap, List, [], ◌∷◌, ◌++◌, map, ok, err, panic, inl, inr,
  Bool-cases, arith, count, count-cons, length, String-discrete,
}
use alma_backend_task.GoMap.{Map}
use alma_backend_task.Db.Types.{Db, at}
use alma_backend_task.Models.{RawSpan, PiiType, pii_type}
use alma_backend_task.Metrics.{Counters, or_zero, add_at_label}
use alma_backend_task.Metrics.Sums.{at-add_at_label}
use alma_backend_task.Processor.Accumulate.{Accumulator, new_accumulator, accumulate_span}
use alma_backend_task.Processor.Flush.{Flushed}
use alma_backend_task.Processor.Process.{SpanProcessor, flush_due, Progress}
use alma_backend_task.Processor.Metered.{
  Metered, count_detections, found_of, count_span, metered_flush, metered_resume, metered_spans,
}
use alma_backend_task.Processor.Metered.Written.{
  Gives, Gives-then, Writes, Flushes, metered_flush-Flushes,
}

-- So many spans more, and each type of PII as often more as it is found.
pub record Adds (n : ℕ) (found : List PiiType) (c c' : Counters) : Type 0 where
  pub processed : c'.spans_processed_total ≡ c.spans_processed_total + n
  pub detected :
      (t : String)
      → or_zero (at t c'.pii_detections_total)
        ≡ or_zero (at t c.pii_detections_total) + count String-discrete t (map pii_type found)

-- What is found in the spans, in their order.
unfoldable pub found_all : SpanProcessor → List RawSpan → List PiiType
found_all p [] = []
found_all p (span ∷ spans) = found_of p span ++ found_all p spans

at-count_detections :
    (ts : List PiiType) (m : Map String ℕ) (t : String)
    → or_zero (at t (count_detections ts m))
      ≡ or_zero (at t m) + count String-discrete t (map pii_type ts)
unfolding count_detections
at-count_detections [] m t = unfold count in omega arith
at-count_detections (u ∷ us) m t = omega (
  arith,
  at-count_detections us (add_at_label (pii_type u) 1 m) t,
  at-add_at_label (pii_type u) t m,
  count-cons String-discrete t (pii_type u) (map pii_type us),
)

pub count-found :
    (t : String) (xs ys : List PiiType)
    → count String-discrete t (map pii_type (xs ++ ys))
      ≡ count String-discrete t (map pii_type xs) + count String-discrete t (map pii_type ys)
unfolding count
count-found t [] ys = omega arith
count-found t (x ∷ xs) ys = ground (arith, count-found t xs ys)

pub Adds-then :
    (n k l : ℕ) (found more : List PiiType) (c c₁ c₂ : Counters)
    → l ≡ n + k
    → Adds n found c c₁
    → Adds k more c₁ c₂
    → Adds l (found ++ more) c c₂
Adds-then n k l found more c c₁ c₂ sum a b = record {
  processed = omega (arith, a.processed, b.processed, sum);
  detected = λ t. omega (arith, a.detected t, b.detected t, count-found t found more);
}

count_span-Adds :
    (p : SpanProcessor) (span : RawSpan) (c : Counters)
    → Adds 1 (found_of p span) c (count_span p span c)
unfolding count_span
count_span-Adds p span c = record {
  processed = refl;
  detected = at-count_detections (found_of p span) c.pii_detections_total;
}

-- The counters that a flush leaves alone.
pub record Rests (c c' : Counters) : Type 0 where
  pub errors : c'.spans_errors_total ≡ c.spans_errors_total
  pub runs : c'.span_processing_duration ≡ c.span_processing_duration
  pub invalidations : c'.cache_invalidations_total ≡ c.cache_invalidations_total

pub Writes-Rests : (c c' : Counters) → Writes c c' → Rests c c'
Writes-Rests c c' e = record {
  errors = ap (λ (k : Counters). k.spans_errors_total) e;
  runs = ap (λ (k : Counters). k.span_processing_duration) e;
  invalidations = ap (λ (k : Counters). k.cache_invalidations_total) e;
}

pub Writes-Adds : (c c' : Counters) → Writes c c' → Adds 0 [] c c'
Writes-Adds c c' e = record {
  processed = omega (arith, ap (λ (k : Counters). k.spans_processed_total) e);
  detected = λ t.
      unfold count in omega (arith, ap (λ (k : Counters). or_zero (at t k.pii_detections_total)) e);
}

pub Adds-Writes :
    (n : ℕ) (found : List PiiType) (c c₁ c₂ : Counters)
    → Adds n found c c₁
    → Writes c₁ c₂
    → Adds n found c c₂
Adds-Writes n found c c₁ c₂ a e = record {
  processed = ap (λ (k : Counters). k.spans_processed_total) e ∙ a.processed;
  detected = λ t. ap (λ (k : Counters). or_zero (at t k.pii_detections_total)) e ∙ a.detected t;
}

-- The loop over the spans, if no flush fails.
pub record Loops (n : ℕ) (found : List PiiType) (c : Counters) (progress : Progress) (c' : Counters)
    : Type 0 where
  pub rests : Rests c c'
  pub adds : progress.errors ≡ [] → Adds n found c c'

pub Rests-trans : {c c₁ c₂ : Counters} → Rests c c₁ → Rests c₁ c₂ → Rests c c₂
Rests-trans a b = record {
  errors = b.errors ∙ a.errors;
  runs = b.runs ∙ a.runs;
  invalidations = b.invalidations ∙ a.invalidations;
}

-- One more span at the start, and a flush after it.
module _ (p : SpanProcessor) (span : RawSpan) (spans : List RawSpan) (c c₁ : Counters)
    (w : Writes (count_span p span c) c₁) where
  span-Rests : Rests c c₁
  span-Rests =
      Rests-trans {c₁ = count_span p span c}
        (unfold count_span in record { errors = refl; runs = refl; invalidations = refl })
        (Writes-Rests (count_span p span c) c₁ w)

  span-Adds :
      (c₂ : Counters)
      → Adds (length spans) (found_all p spans) c₁ c₂
      → Adds (suc (length spans)) (found_all p (span ∷ spans)) c c₂
  unfolding found_all
  span-Adds c₂ a =
      let c' = count_span p span c in
      Adds-then 1 (length spans) (suc (length spans)) (found_of p span) (found_all p spans) c c' c₂
        (omega arith) (count_span-Adds p span c)
        (Adds-then 0 (length spans) (length spans) [] (found_all p spans) c' c₁ c₂ (omega arith)
          (Writes-Adds c' c₁ w) a)

  spans-after :
      (x : Metered Progress)
      → Gives (Loops (length spans) (found_all p spans) c₁) x
      → Gives (Loops (suc (length spans)) (found_all p (span ∷ spans)) c) x
  spans-after (ok (progress, c₂)) l = record {
    rests = Rests-trans span-Rests l.rests;
    adds = λ e. span-Adds c₂ (l.adds e);
  }
  spans-after (err why) l = tt
  spans-after panic l = tt

  resume-Loops :
      (acc : Accumulator) (rest : Accumulator → Db → Counters → Metered Progress) (done : Flushed)
      → ((d : Db) → Gives (Loops (length spans) (found_all p spans) c₁) (rest new_accumulator d c₁))
      → Gives
          (Loops (suc (length spans)) (found_all p (span ∷ spans)) c)
          (metered_resume acc rest done c₁)
  unfolding metered_resume
  resume-Loops acc rest (db, []) h = spans-after (rest new_accumulator db c₁) (h db)
  resume-Loops acc rest (db, e ∷ es) h = record { rests = span-Rests; adds = λ q. cc q }

pub spans-Loops :
    (p : SpanProcessor) (spans : List RawSpan) (acc : Accumulator) (db : Db) (c : Counters)
    → Gives (Loops (length spans) (found_all p spans) c) (metered_spans p spans acc db c)
unfolding metered_spans found_all
spans-Loops p [] acc db c = record {
  rests = Writes-Rests c c refl;
  adds = λ e. Writes-Adds c c refl;
}
spans-Loops p (span ∷ spans) acc db c =
    let acc' = accumulate_span p.handlers p.pii_detectors span acc in
    let c' = count_span p span c in
    elim (Bool-cases (flush_due p.batch_flush_threshold acc')) [
      | inr not_due ↦
          rw (not_due, metered_spans)
            (spans-after p span spans c c' refl (metered_spans p spans acc' db c')
              (spans-Loops p spans acc' db c'))
      | inl due ↦
          rw (due, metered_spans)
            (Gives-then (Flushes c') (Loops (suc (length spans)) (found_all p (span ∷ spans)) c)
              (metered_flush acc' db c') _ (metered_flush-Flushes acc' db c')
              (λ done c₁ w.
                resume-Loops p span spans c c₁ w acc' (λ a d k. metered_spans p spans a d k) done
                  (λ d. spans-Loops p spans new_accumulator d c₁)))
    ]
