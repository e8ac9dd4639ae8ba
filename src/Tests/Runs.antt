-- ===== src/Tests/Runs.antt =====
-- The processor on a fresh database.
use alma_backend_task.Prelude.{
  ◌≡◌, refl, subst, true, false, none, [], ◌∷◌, ok, ite, String-discrete, count, ◌+◌, if◌then◌else◌,
}
use alma_backend_task.GoMap
use alma_backend_task.Value.{pos}
use alma_backend_task.Schema.{
  app_items, components, component_piis, connections, then_create, create_schema,
}
use alma_backend_task.Db.Types.{Db}
use alma_backend_task.Db.Tables.{new, new_table, create_table}
use alma_backend_task.Db.Index.{contains}
use alma_backend_task.Models.{RawSpan, email}
use alma_backend_task.Processor.Handlers.{PiiDetector, default_handlers}
use alma_backend_task.Processor.Accumulate.{
  Accumulator, new_accumulator, accumulate_span, merge_unique,
}
use alma_backend_task.Processor.Process.{SpanProcessor, process}
use alma_backend_task.Processor.Waves.{IsServed}
use alma_backend_task.Processor.Runs.{Succeeds, process-Succeeds}
use alma_backend_task.Processor.Merge.{merge_unique_lem}
use alma_backend_task.Processor.Setup.{Made, IsBlank, new-IsVacant, create_schema-IsBlank}

create_schema-IsBlank_example : Made IsBlank (create_schema new)
create_schema-IsBlank_example = create_schema-IsBlank new new-IsVacant

abbrev pub fresh : Db
fresh = record {
  tables =
      ("app_items", new_table app_items)
      ∷ ("components", new_table components)
      ∷ ("component_piis", new_table component_piis)
      ∷ ("connections", new_table connections)
      ∷ [];
}

fresh_made : create_schema new ≡ ok (fresh, none)
unfolding create_schema then_create create_table new app_items components component_piis connections
    GoMap.get GoMap.put String-discrete
fresh_made = refl

create_schema-Made :
    (db : Db) → Made IsBlank (create_schema new) → create_schema new ≡ ok (db, none) → IsBlank db
create_schema-Made db (db', e, s) h = let same : db' ≡ db = cc in subst IsBlank same s

pub fresh-IsBlank : IsBlank fresh
fresh-IsBlank = create_schema-Made fresh (create_schema-IsBlank new new-IsVacant) fresh_made

pub fresh-IsServed : IsServed fresh
fresh-IsServed = fresh-IsBlank.served

abbrev pub span : RawSpan
span = record {
  id = "1";
  kind = "client";
  name = "select";
  attributes =
      ("ebpf.span.type", "QUERY")
      ∷ ("ebpf.source", "web")
      ∷ ("ebpf.destination", "db")
      ∷ ("ebpf.db.query", "select 1")
      ∷ ("ebpf.db.query.values", "a@b.io")
      ∷ [];
}

abbrev pub detector : PiiDetector
detector = record { type = email; matches = λ text. ite (String-discrete text "a@b.io") true false }

abbrev pub processor : SpanProcessor
processor = record {
  handlers = default_handlers;
  pii_detectors = detector ∷ [];
  batch_flush_threshold = pos 1;
  invalidator = true;
}

abbrev one_span : Accumulator
one_span = accumulate_span default_handlers (detector ∷ []) span new_accumulator

process-Succeeds_example :
    Succeeds processor (span ∷ span ∷ []) (process processor (span ∷ span ∷ []) fresh)
process-Succeeds_example = process-Succeeds processor (span ∷ span ∷ []) fresh fresh-IsServed

merge_unique_lem_example :
    count String-discrete "b" (merge_unique ("a" ∷ []) ("b" ∷ "a" ∷ "b" ∷ []))
    ≡ count String-discrete "b" ("a" ∷ [])
      + (if contains "b" ("a" ∷ []) then 0 else count String-discrete "b" ("b" ∷ "a" ∷ "b" ∷ []))
merge_unique_lem_example = merge_unique_lem ("a" ∷ []) ("b" ∷ "a" ∷ "b" ∷ []) "b"
