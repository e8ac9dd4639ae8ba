-- ===== src/Service/Types/Stored.antt =====
-- backend/processor: the types of what `Process` stores.
use alma_backend_task.Prelude.{
  String, ◌≡◌, refl, sym, ◌∙◌, Option, none, some, List, String-discrete, Option-cases, inl, inr,
}
use alma_backend_task.GoMap
use alma_backend_task.GoMap.{Map}
use alma_backend_task.GoMap.Entries.{All-map, values-All}
use alma_backend_task.Value.{Value}
use alma_backend_task.Schema
use alma_backend_task.Models.{RawSpan}
use alma_backend_task.Db.Types.{FieldType, time, json, Field, TableSchema, Record, Db, at}
use alma_backend_task.Db.Coherence.{Lookup}
use alma_backend_task.Db.Index.Rounds.{or_else}
use alma_backend_task.Db.Validity.Rows.{merged, at-overlay}
use alma_backend_task.Db.Validity.Batches.{replayed}
use alma_backend_task.Db.Validity.Conflicts.{joined}
use alma_backend_task.Db.Validity.Replays.{Everywhere, replayed-Everywhere}
use alma_backend_task.Db.Validity.Updates.{fields_result}
use alma_backend_task.Processor.Accumulate.{Accumulator, new_accumulator, merge_unique_strings}
use alma_backend_task.Processor.Flush.{do_nothing, merge_ids, flush}
use alma_backend_task.Processor.Process.{SpanProcessor, process}
use alma_backend_task.Processor.Suited.{IsReady, new_accumulator-IsReady, accumulate_span-IsReady}
use alma_backend_task.Processor.Batches.{Stored}
use alma_backend_task.Processor.Setup.{IsBlank}
use alma_backend_task.Processor.Waves.{IsServed, Flushes, flush-Flushes}
use alma_backend_task.Processor.Runs.{Keeps, Returns, process-Returns, Returns-map}
use alma_backend_task.Service.Types.{
  HasType, Conforms, AllConform, HasTypes, IsTyped, ids-Conforms, new_accumulator-HasTypes,
  accumulate_span-HasTypes,
}

nothing-HasType : (t : FieldType) {P : Type 0} → HasType t none → P
nothing-HasType FieldType.string (s, e) = cc e
nothing-HasType FieldType.int (s, e) = cc e
nothing-HasType FieldType.bool (s, e) = cc e
nothing-HasType time h = absurd h
nothing-HasType json (s, e) = cc e

or_else-HasType :
    (t : FieldType) (new old : Option Value) → HasType t new → HasType t (or_else new old)
or_else-HasType t none old h = nothing-HasType t h
or_else-HasType t (some v) old h = h

-- What a batch leaves of records that conform, whatever the join.
KeepsTypes : TableSchema → (Option Record → Record → Record) → Type 0
KeepsTypes schema join =
    (r : Record)
    → Conforms schema r
    → (o : Option Record) → ((s : Record) → o ≡ some s → Conforms schema s)
    → Conforms schema (join o r)

merged-Conforms : (schema : TableSchema) → KeepsTypes schema merged
unfolding KeepsTypes
merged-Conforms schema r h none k = h
merged-Conforms schema r h (some s) k =
    All-map (λ (f : Field) t. rw at-overlay (or_else-HasType f.type (at f.name r) (at f.name s) t))
      schema.fields h

nothing-Conforms : (schema : TableSchema) → KeepsTypes schema (joined do_nothing)
unfolding KeepsTypes do_nothing
nothing-Conforms schema r h none k = h
nothing-Conforms schema r h (some s) k = k s refl

merge_ids-Conforms : KeepsTypes Schema.connections (joined merge_ids)
unfolding KeepsTypes merge_ids fields_result GoMap.get String-discrete merge_unique_strings
merge_ids-Conforms r h none k = h
merge_ids-Conforms r h (some s) k = elim (Option-cases (at "component_ids" r)) [
  | inl n ↦ rw n (k s refl)
  | inr (new, n) ↦ rw n (ids-Conforms _ s (k s refl))
]

flushed-Conforms :
    (schema : TableSchema) (join : Option Record → Record → Record)
    → KeepsTypes schema join
    → (key : String) (m : Map String Record) (look look' : Lookup) → AllConform schema m
    → Everywhere (λ _ r. Conforms schema r) look
    → ((q : String) → look' q ≡ replayed key join (GoMap.values m) look q)
    → Everywhere (λ _ r. Conforms schema r) look'
unfolding KeepsTypes
flushed-Conforms schema join keeps key m look look' h hs e q s a =
    replayed-Everywhere key join (λ _ r. Conforms schema r) (Conforms schema) keeps (GoMap.values m)
      look (values-All (λ e. Conforms schema e.1) (Conforms schema) (λ e u. u) m h) hs q s
      (sym (e q) ∙ a)

flushed-IsTyped :
    (acc : Accumulator) (db db' : Db) → HasTypes acc → IsTyped db → Flushes acc db db' → IsTyped db'
flushed-IsTyped acc db db' t h f = record {
  app_items =
      flushed-Conforms Schema.app_items merged (merged-Conforms Schema.app_items) "name"
        acc.app_items _ _ t.app_items h.app_items f.app_items;
  components =
      flushed-Conforms Schema.components merged (merged-Conforms Schema.components) "id"
        acc.components _ _ t.components h.components f.components;
  piis =
      flushed-Conforms Schema.component_piis (joined do_nothing)
        (nothing-Conforms Schema.component_piis) "id" acc.piis _ _ t.piis h.piis f.piis;
  connections =
      flushed-Conforms Schema.connections (joined merge_ids) merge_ids-Conforms "id" acc.connections
        _ _ t.connections h.connections f.connections;
}

abbrev Typed : List RawSpan → Accumulator → Db → Type 0
Typed done acc db = (IsReady acc × HasTypes acc) × (IsServed db × IsTyped db)

flush-Typed :
    (done : List RawSpan) (acc : Accumulator) (db : Db)
    → Typed done acc db
    → Stored db (λ _ db'. Typed done new_accumulator db') (flush acc db)
flush-Typed done acc db ((r, t), (s, h)) =
    let (db', e, f) = flush-Flushes acc db r s in
    (
      db',
      e,
      (
        (new_accumulator-IsReady, new_accumulator-HasTypes),
        (f.served, flushed-IsTyped acc db db' t h f),
      ),
    )

Typed-Keeps : (p : SpanProcessor) → Keeps p Typed
Typed-Keeps p = record {
  spans = λ span done acc db ((r, t), d). (
    (
      accumulate_span-IsReady p.handlers p.pii_detectors span acc r,
      accumulate_span-HasTypes p.handlers p.pii_detectors span acc t,
    ),
    d,
  );
  flushes = flush-Typed;
}

-- On a database with the four tables, well formed, whose records have every field of their schema
-- with a value of its type, `Process` of any spans, with any handlers, detectors and threshold,
-- returns without an error and leaves such a database. The type JSON stands for a list of texts.
pub process-IsTyped :
    (p : SpanProcessor) (spans : List RawSpan) (db : Db)
    → IsServed db
    → IsTyped db
    → Returns (λ db'. IsServed db' × IsTyped db') p spans (process p spans db)
process-IsTyped p spans db s h =
    Returns-map p spans (process p spans db) (λ d k. k.1)
      (process-Returns p Typed (Typed-Keeps p) spans db
        ((new_accumulator-IsReady, new_accumulator-HasTypes), (s, h)))

-- Tables with no record are typed.
pub blank-IsTyped : (db : Db) → IsBlank db → IsTyped db
blank-IsTyped db b = record {
  app_items = λ q s e. cc (b.app_items q, e);
  components = λ q s e. cc (b.components q, e);
  piis = λ q s e. cc (b.piis q, e);
  connections = λ q s e. cc (b.connections q, e);
}
