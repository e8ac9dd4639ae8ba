-- ===== src/Processor/Metered/Forgotten.antt =====
-- backend/processor/processor.go: what `Process` does, whatever it counts.
use alma_backend_task.Prelude.{
  zero, suc, ◌≡◌, refl, ◌∙◌, ap, List, [], ◌∷◌, ◌++◌, ok, err, panic, ◌>>=◌, inl, inr, Bool-cases,
  length, Option-cases, String,
}
use alma_backend_task.GoMap
use alma_backend_task.Db.Types.{Record, Db, Outcome, at}
use alma_backend_task.Db.Query.{all}
use alma_backend_task.Models.{RawSpan}
use alma_backend_task.Metrics.{Gauges, Counters, Metrics}
use alma_backend_task.Processor.Accumulate.{Accumulator, new_accumulator, accumulate_span}
use alma_backend_task.Processor.Flush.{
  FlushError, Flushed, wave, next_wave, flush, flush_items, flush_components, flush_piis,
  flush_connections,
}
use alma_backend_task.Processor.Process.{
  SpanProcessor, flush_due, Progress, resume, accumulate_spans, conclude, last_flush, process,
}
use alma_backend_task.Processor.Gauges.{
  or_no_rows, record_gauges, record_gauges_from_db, record_totals,
}
use alma_backend_task.Value.{ℤ, pos, negsuc}
use alma_backend_task.Db.Query.Whole.{all-missing, all-found}
use alma_backend_task.Processor.Metered.{
  Metered, count_span, count_batch, metered_batch, metered_wave, metered_first, metered_second,
  metered_next, metered_flush, metered_resume, metered_spans, metered_end, metered_last,
  metered_process,
}

abbrev pub forget : {A B : Type 0} → Outcome (A × B) → Outcome A
forget (ok (a, b)) = ok a
forget (err e) = err e
forget panic = panic

module _ {A B C D : Type 0} where
  pub forget-then :
      (x : Outcome (A × C)) (k : A × C → Outcome (B × D)) (k' : A → Outcome B)
      → ((a : A) (c : C) → forget (k (a, c)) ≡ k' a)
      → forget (x >>= k) ≡ (forget x >>= k')
  forget-then (ok (a, c)) k k' h = h a c
  forget-then (err e) k k' h = refl
  forget-then panic k k' h = refl

abbrev counted_by : String → String → List Record → Counters → Flushed → Metered Flushed
counted_by table operation rs c done = ok (done, count_batch table operation rs done.1 c)

done-forgotten :
    (table operation : String) (rs : List Record) (c : Counters) (o : Outcome Flushed)
    → forget (o >>= counted_by table operation rs c) ≡ o
done-forgotten table operation rs c (ok done) = refl
done-forgotten table operation rs c (err e) = refl
done-forgotten table operation rs c panic = refl

batch-forgotten :
    (table operation : String) (rs : List Record) (run : Db → Outcome Flushed) (db : Db)
    (c : Counters)
    → forget (metered_batch table operation rs run db c) ≡ run db
unfolding metered_batch
batch-forgotten table operation rs run db c = done-forgotten table operation rs c (run db)

wave-forgotten :
    (first second : Db → Counters → Metered Flushed) (f g : Db → Outcome Flushed)
    → ((db : Db) (c : Counters) → forget (first db c) ≡ f db)
    → ((db : Db) (c : Counters) → forget (second db c) ≡ g db)
    → (db : Db) (c : Counters) → forget (metered_wave first second db c) ≡ wave f g db
unfolding metered_wave wave
wave-forgotten first second f g hf hg db c =
    forget-then (first db c) _ (λ done. g done.0 >>= λ more. ok (more.0, done.1 ++ more.1))
      (λ done c₁.
        forget-then (second done.0 c₁) _ (λ more. ok (more.0, done.1 ++ more.1)) (λ more c₂. refl)
        ∙ ap (λ o. o >>= λ more. ok (more.0, done.1 ++ more.1)) (hg done.0 c₁))
    ∙ ap (λ o. o >>= λ done. g done.0 >>= λ more. ok (more.0, done.1 ++ more.1)) (hf db c)

next-forgotten :
    (acc : Accumulator) (first : Flushed) (c : Counters)
    → forget (metered_next acc first c) ≡ next_wave acc first
unfolding metered_next metered_second next_wave
next-forgotten acc (db, e ∷ es) c = refl
next-forgotten acc (db, []) c =
    wave-forgotten _ _ (flush_piis acc) (flush_connections acc)
      (λ d k.
        batch-forgotten "component_piis" "insert" (GoMap.values acc.piis) (flush_piis acc) d k)
      (λ d k.
        batch-forgotten "connections" "upsert" (GoMap.values acc.connections)
          (flush_connections acc) d k)
      db c

flush-forgotten :
    (acc : Accumulator) (db : Db) (c : Counters) → forget (metered_flush acc db c) ≡ flush acc db
unfolding metered_flush metered_first metered_second flush
flush-forgotten acc db c =
    forget-then (metered_first acc db c) _ (next_wave acc) (next-forgotten acc)
    ∙ ap (λ o. o >>= next_wave acc)
        (wave-forgotten _ _ (flush_items acc) (flush_components acc)
          (λ d k.
            batch-forgotten "app_items" "upsert" (GoMap.values acc.app_items) (flush_items acc) d k)
          (λ d k.
            batch-forgotten "components" "upsert" (GoMap.values acc.components)
              (flush_components acc) d k)
          db c)

resume-forgotten :
    (acc : Accumulator) (rest : Accumulator → Db → Counters → Metered Progress)
    (bare : Accumulator → Db → Outcome Progress)
    → ((d : Db) (k : Counters) → forget (rest new_accumulator d k) ≡ bare new_accumulator d)
    → (flushed : Flushed) (c : Counters)
    → forget (metered_resume acc rest flushed c) ≡ resume acc bare flushed
unfolding metered_resume resume
resume-forgotten acc rest bare h (db, []) c = h db c
resume-forgotten acc rest bare h (db, e ∷ es) c = refl

spans-forgotten :
    (p : SpanProcessor) (spans : List RawSpan) (acc : Accumulator) (db : Db) (c : Counters)
    → forget (metered_spans p spans acc db c) ≡ accumulate_spans p spans acc db
unfolding metered_spans accumulate_spans
spans-forgotten p [] acc db c = refl
spans-forgotten p (span ∷ spans) acc db c =
    let acc' = accumulate_span p.handlers p.pii_detectors span acc in
    elim (Bool-cases (flush_due p.batch_flush_threshold acc')) [
      | inr not_due ↦
          rw (not_due, accumulate_spans, metered_spans)
            (spans-forgotten p spans acc' db (count_span p span c))
      | inl due ↦
          rw (due, accumulate_spans, metered_spans)
            (forget-then (metered_flush acc' db (count_span p span c)) _
                (resume acc' (λ a d. accumulate_spans p spans a d))
                (λ flushed c₁.
                  resume-forgotten acc' _ _ (λ d k. spans-forgotten p spans new_accumulator d k)
                    flushed c₁)
              ∙ ap (λ o. o >>= resume acc' (λ a d. accumulate_spans p spans a d))
                  (flush-forgotten acc' db (count_span p span c)))
    ]

-- The gauges are always made.
rows-made : (name : String) (db : Db) → (rs : List Record) × (or_no_rows (all name db) ≡ ok rs)
rows-made name db = elim (Option-cases (at name db.tables)) [
  | inl e ↦ ([], rw (all-missing name db e) refl)
  | inr (t, e) ↦ (GoMap.values t.records, rw (all-found name db t e) refl)
]

pub totals-made :
    (threshold : ℤ) (acc : Accumulator) (db : Db) (g : Gauges)
    → (g' : Gauges) × (record_totals threshold acc db g ≡ ok g')
unfolding record_totals record_gauges_from_db
totals-made (pos zero) acc db g = (_, refl)
totals-made (negsuc n) acc db g = (_, refl)
totals-made (pos (suc n)) acc db g =
    let (items, e) = rows-made "app_items" db in
    let (comps, e') = rows-made "components" db in
    let (conns, e'') = rows-made "connections" db in
    (record_gauges items comps (length conns) g, rw (e, e', e'') refl)

end-forgotten :
    (p : SpanProcessor) (spans : List RawSpan) (acc : Accumulator) (m : Metrics) (flushed : Flushed)
    (c : Counters)
    → forget (metered_end p spans acc m flushed c) ≡ ok (conclude p spans flushed)
unfolding metered_end
end-forgotten p spans acc m (db, e ∷ es) c = refl
end-forgotten p spans acc m (db, []) c =
    let (g, e) = totals-made p.batch_flush_threshold acc db m.gauges in rw e refl

last-forgotten :
    (p : SpanProcessor) (spans : List RawSpan) (m : Metrics) (progress : Progress)
    (errors : List FlushError) (c : Counters)
    → forget (metered_last p spans m progress errors c) ≡ last_flush p spans progress errors
unfolding metered_last last_flush
last-forgotten p spans m progress (e ∷ es) c = refl
last-forgotten p spans m progress [] c =
    forget-then (metered_flush progress.acc progress.db c) _
      (λ flushed. ok (conclude p spans flushed)) (end-forgotten p spans progress.acc m)
    ∙ ap (λ o. o >>= λ flushed. ok (conclude p spans flushed))
        (flush-forgotten progress.acc progress.db c)

-- `Process` gives back the same, an error or a panic included, and leaves the same database, whatever
-- the metrics were.
pub process-forgotten :
    (p : SpanProcessor) (spans : List RawSpan) (db : Db) (m : Metrics)
    → forget (metered_process p spans db m) ≡ process p spans db
unfolding metered_process process
process-forgotten p spans db m =
    forget-then (metered_spans p spans new_accumulator db m.counters) _
      (λ progress. last_flush p spans progress progress.errors)
      (λ progress c. last-forgotten p spans m progress progress.errors c)
    ∙ ap (λ o. o >>= λ progress. last_flush p spans progress progress.errors)
        (spans-forgotten p spans new_accumulator db m.counters)
