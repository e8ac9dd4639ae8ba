-- ===== src/Processor/Metered/Written.antt =====
-- backend/processor/processor.go: what a flush counts.
use alma_backend_task.Prelude.{String, ◌≡◌, refl, ◌∙◌, ap, List, [], ◌∷◌, ok, err, panic, ◌>>=◌}
use alma_backend_task.Db.Types.{Record, Db, Outcome}
use alma_backend_task.Metrics.{Counters}
use alma_backend_task.Processor.Accumulate.{Accumulator}
use alma_backend_task.Processor.Flush.{
  FlushError, Flushed, flush_items, flush_components, flush_piis, flush_connections,
}
use alma_backend_task.Processor.Metered.{
  Metered, count_batch, metered_batch, metered_wave, metered_first, metered_second, metered_next,
  metered_flush,
}

-- What holds of a result and its counters, if there is one.
abbrev pub Gives : {A C : Type 0} → (A → C → Type 0) → Outcome (A × C) → Type 0
Gives P (ok (a, c)) = P a c
Gives P _ = Unit

pub Gives-then :
    {A B C D : Type 0} (P : A → C → Type 0) (Q : B → D → Type 0) (x : Outcome (A × C))
    (k : A × C → Outcome (B × D))
    → Gives P x
    → ((a : A) (c : C) → P a c → Gives Q (k (a, c)))
    → Gives Q (x >>= k)
Gives-then P Q (ok (a, c)) k h f = f a c h
Gives-then P Q (err e) k h f = tt
Gives-then P Q panic k h f = tt

-- All but the operations of the database is as it was.
abbrev pub Writes : Counters → Counters → Type 0
Writes c c' = c' ≡ record c { db_operations_total = c'.db_operations_total }

Writes-trans : (c c₁ c₂ : Counters) → Writes c c₁ → Writes c₁ c₂ → Writes c c₂
Writes-trans c c₁ c₂ e e' =
    e' ∙ ap (λ (k : Counters). record k { db_operations_total = c₂.db_operations_total }) e

abbrev pub Flushes : Counters → Flushed → Counters → Type 0
Flushes c done c' = Writes c c'

count_batch-Writes :
    (table operation : String) (rs : List Record) (errors : List FlushError) (c : Counters)
    → Writes c (count_batch table operation rs errors c)
unfolding count_batch
count_batch-Writes table operation [] errors c = refl
count_batch-Writes table operation (r ∷ rs) [] c = refl
count_batch-Writes table operation (r ∷ rs) (e ∷ es) c = refl

ran-Flushes :
    (table operation : String) (rs : List Record) (c : Counters) (o : Outcome Flushed)
    → Gives (Flushes c) (o >>= λ done. ok (done, count_batch table operation rs done.1 c))
ran-Flushes table operation rs c (ok done) = count_batch-Writes table operation rs done.1 c
ran-Flushes table operation rs c (err e) = tt
ran-Flushes table operation rs c panic = tt

abbrev pub Batch : (Db → Counters → Metered Flushed) → Type 0
Batch run = (db : Db) (c : Counters) → Gives (Flushes c) (run db c)

metered_batch-Flushes :
    (table operation : String) (rs : List Record) (run : Db → Outcome Flushed)
    → Batch (metered_batch table operation rs run)
unfolding metered_batch
metered_batch-Flushes table operation rs run db c = ran-Flushes table operation rs c (run db)

metered_wave-Flushes :
    (first second : Db → Counters → Metered Flushed)
    → Batch first
    → Batch second
    → Batch (metered_wave first second)
unfolding metered_wave
metered_wave-Flushes first second f g db c =
    Gives-then (Flushes c) (Flushes c) (first db c) _ (f db c) (λ done c₁ e.
      Gives-then (Flushes c₁) (Flushes c) (second done.0 c₁) _ (g done.0 c₁)
        (λ more c₂ e'. Writes-trans c c₁ c₂ e e'))

further :
    (x : Metered Flushed) (c c₁ : Counters)
    → Writes c c₁
    → Gives (Flushes c₁) x
    → Gives (Flushes c) x
further (ok (done, c₂)) c c₁ e e' = Writes-trans c c₁ c₂ e e'
further (err why) c c₁ e e' = tt
further panic c c₁ e e' = tt

next-Flushes :
    (acc : Accumulator) (first : Flushed) (c c₁ : Counters)
    → Writes c c₁
    → Gives (Flushes c) (metered_next acc first c₁)
unfolding metered_next metered_second
next-Flushes acc (db, f ∷ fs) c c₁ e = e
next-Flushes acc (db, []) c c₁ e = further (metered_wave _ _ db c₁) c c₁ e (
    metered_wave-Flushes _ _ (metered_batch-Flushes "component_piis" "insert" _ (flush_piis acc))
      (metered_batch-Flushes "connections" "upsert" _ (flush_connections acc)) db c₁)

pub metered_flush-Flushes : (acc : Accumulator) → Batch (metered_flush acc)
unfolding metered_flush
metered_flush-Flushes acc db c =
    Gives-then (Flushes c) (Flushes c) (metered_first acc db c) _
      (unfold metered_first in
        metered_wave-Flushes _ _ (metered_batch-Flushes "app_items" "upsert" _ (flush_items acc))
          (metered_batch-Flushes "components" "upsert" _ (flush_components acc)) db c)
      (λ first c₁ e. next-Flushes acc first c c₁ e)
