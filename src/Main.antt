-- ===== src/Main.antt =====
-- main.go: the start of the program, up to the servers, and why it ends before them.
pub mod Servers
use alma_backend_task.Prelude.{
  suc, String, Bool, true, Option, none, some, List, [], ◌∷◌, Result, ok, err, panic, ◌>>=◌,
  if◌then◌else◌,
}
use alma_backend_task.Value.{ℤ, pos}
use alma_backend_task.Db.Types.{Db, Outcome}
use alma_backend_task.Db.Tables.{new}
use alma_backend_task.Config.{Config, load_config}
use alma_backend_task.Schema.{SchemaError, Created, create_schema}
use alma_backend_task.Models.{RawSpan, RawSpansFile}
use alma_backend_task.Agent.{AgentError, new_ebpf_agent, get_spans}
use alma_backend_task.Processor.Flush.{FlushError}
use alma_backend_task.Processor.Process.{Processed, process}
use alma_backend_task.Processor.Builder.{
  ProcessorOption, with_cache_invalidator, with_batch_flush_threshold, new_processor,
}
use alma_backend_task.Api.Types.{CatalogResponse, ConnectionResponse, ApiError, Answer}
use alma_backend_task.Api.Backend.{
  ApiBackend, new_backend, invalidate_cache, request_catalog, request_connections,
}

-- What the program takes from its surroundings: the environment, `strconv.Atoi`, the `regexp` package,
-- the file system and the JSON decoder.
pub record Platform (Bytes Failure : Type 0) : Type 0 where
  pub getenv : String → String
  pub atoi : String → Option ℤ
  pub compile : String → String → Bool
  pub read_file : String → Result Failure Bytes
  pub unmarshal : Bytes → Result Failure RawSpansFile

-- The error before an `os.Exit(1)`.
pub data Exit (Failure : Type 0) : Type 0 where
  schema_failed : SchemaError → Exit Failure
  spans_failed : AgentError Failure → Exit Failure
  process_failed : List FlushError → Exit Failure
  catalog_failed connections_failed : ApiError → Exit Failure

-- The program as it starts its servers, with what it printed.
pub record Serving : Type 0 where
  pub config : Config
  pub backend : ApiBackend
  pub catalog : CatalogResponse
  pub connections : List ConnectionResponse

-- The backend holds the database that the processor writes, and is its invalidator.
abbrev pub written : ApiBackend → Processed → ApiBackend
written a done =
    let a' : ApiBackend = record a { db = done.db } in
    if done.invalidated then invalidate_cache a' else a'

module _ {Failure : Type 0} where
  -- The errors of `CreateSchema` and `Process` are in their results, and `err` is not one of these.
  abbrev pub schema_created : Outcome Created → Result (Exit Failure) Db
  schema_created (ok (db, none)) = ok db
  schema_created (ok (db, some e)) = err (schema_failed e)
  schema_created _ = panic

  abbrev pub spans_loaded :
      Result (AgentError Failure) (List RawSpan) → Result (Exit Failure) (List RawSpan)
  spans_loaded (ok spans) = ok spans
  spans_loaded (err e) = err (spans_failed e)
  spans_loaded panic = panic

  abbrev pub settle : ApiBackend → Processed → List FlushError → Result (Exit Failure) ApiBackend
  settle a done [] = ok (written a done)
  settle a done (e ∷ es) = err (process_failed (e ∷ es))

  abbrev pub processed : ApiBackend → Outcome Processed → Result (Exit Failure) ApiBackend
  processed a (ok done) = settle a done done.errors
  processed a _ = panic

  abbrev pub answered :
      {A : Type 0}
      → (ApiError → Exit Failure)
      → Answer A × ApiBackend
      → Result (Exit Failure) (A × ApiBackend)
  answered failed (ok v, a) = ok (v, a)
  answered failed (err e, a) = err (failed e)
  answered failed (panic, a) = panic

-- `if cfg.BatchFlushThreshold > 0 { processorOpts = append(…) }`
unfoldable pub threshold_option : ℤ → List ProcessorOption
threshold_option (pos (suc n)) = with_batch_flush_threshold (pos (suc n)) ∷ []
threshold_option _ = []

unfoldable pub processor_options : Config → List ProcessorOption
unfolding threshold_option
processor_options cfg = with_cache_invalidator true ∷ threshold_option cfg.batch_flush_threshold

-- `main` up to the servers.
unfoldable pub boot :
    {Bytes Failure : Type 0} → Platform Bytes Failure → Result (Exit Failure) Serving
unfolding processor_options
boot pf =
    let cfg = load_config pf.getenv pf.atoi in
    do
      db ← schema_created (create_schema new)
      spans ← spans_loaded (get_spans pf.read_file pf.unmarshal (new_ebpf_agent cfg.data_path))
      first ←
          processed (new_backend db)
            (process (new_processor pf.compile (processor_options cfg)) spans db)
      (catalog, second) ← answered catalog_failed (request_catalog first)
      (connections, third) ← answered connections_failed (request_connections second)
      ok (record { config = cfg; backend = third; catalog = catalog; connections = connections })
