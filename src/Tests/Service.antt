-- ===== src/Tests/Service.antt =====
-- The program on two spans, from its start to its replies.
use alma_backend_task.Prelude.{
  String, ◌≡◌, refl, ite, true, false, none, some, List, [], ◌∷◌, map, ok, err, length,
  String-discrete,
}
use Prim.Native.String.{◌++◌}
use alma_backend_task.GoMap
use alma_backend_task.Db.Types.{Db, at}
use alma_backend_task.Models.{RawSpan, query, component_type}
use alma_backend_task.Metrics.{Gauges, new_gauges}
use alma_backend_task.Agent.{parsing_json}
use alma_backend_task.Processor.Handlers.{default_handlers, handler_for, query_handler}
use alma_backend_task.Processor.Accumulate.{new_accumulator, component_record, accumulate_span}
use alma_backend_task.Processor.Process.{process}
use alma_backend_task.Processor.Runs.{Returns}
use alma_backend_task.Processor.Served.{records_of}
use alma_backend_task.Processor.Gauges.{record_gauges_from_db}
use alma_backend_task.Processor.Gauges.Counts.{Gauged, record_gauges_from_db-Gauged}
use alma_backend_task.Api.Types.{CatalogResponse}
use alma_backend_task.Api.Catalog.{fetch_catalog}
use alma_backend_task.Api.Connections.{fetch_connections}
use alma_backend_task.Api.Backend.{ApiBackend, new_backend, request_catalog, request_connections}
use alma_backend_task.Api.Cached.{
  Serves, new_backend-IsFresh, request_catalog-Serves, request_connections-Serves,
}
use alma_backend_task.Main.{Platform, Serving, spans_failed, boot}
use alma_backend_task.Service.Links.{IsWhole}
use alma_backend_task.Service.Reads.{rows}
use alma_backend_task.Service.Spans.{component_of}
use alma_backend_task.Service.Covers.{CoversAll, process-Covers}
use alma_backend_task.Service.Plain.{IsPlain, HoldsComponent, HoldsConnection, process-Holds}
use alma_backend_task.Service.Connections.{linked_response, fetch_connections-ok}
use alma_backend_task.Service.Catalog.{IsCatalog, fetch_catalog-ok}
use alma_backend_task.Service.Collisions.{accumulate_span-collision}
use alma_backend_task.Service.Boot.{
  blank-IsWhole, Loads, booted_processor, IsServing, boot-IsServing, boot-err,
}
use alma_backend_task.Processor.Waves.{IsServed}
use alma_backend_task.Service.Types.{IsTyped}
use alma_backend_task.Service.Types.Stored.{process-IsTyped, blank-IsTyped}
use alma_backend_task.Tests.Runs.{fresh, fresh-IsBlank, fresh-IsServed, span, processor}

pub fresh-IsWhole : IsWhole fresh
fresh-IsWhole = blank-IsWhole fresh fresh-IsBlank

abbrev pub spans : List RawSpan
spans = span ∷ span ∷ []

process-Covers_example :
    Returns (CoversAll processor spans) processor spans (process processor spans fresh)
process-Covers_example = process-Covers processor spans fresh fresh-IsWhole

-- The span has no colon in its two ends and its query.
plain : IsPlain processor.handlers span
unfolding default_handlers query_handler handler_for GoMap.get String-discrete
plain = record {
  source = ((λ e. cc), ((λ e. cc), ((λ e. cc), tt)));
  destination = ((λ e. cc), ((λ e. cc), tt));
  value = (
    (λ e. cc),
    ((λ e. cc), ((λ e. cc), ((λ e. cc), ((λ e. cc), ((λ e. cc), ((λ e. cc), ((λ e. cc), tt))))))),
  );
}

process-Holds_example :
    Returns
      (λ db. HoldsComponent processor.handlers db span × HoldsConnection processor.handlers db span)
      processor
      (span ∷ span ∷ [])
      (process processor (span ∷ span ∷ []) fresh)
process-Holds_example = process-Holds processor (span ∷ []) [] span fresh fresh-IsWhole plain

process-IsTyped_example :
    Returns (λ db. IsServed db × IsTyped db) processor spans (process processor spans fresh)
process-IsTyped_example =
    process-IsTyped processor spans fresh fresh-IsServed (blank-IsTyped fresh fresh-IsBlank)

pub ran : Returns (CoversAll processor spans) processor spans (process processor spans fresh)
ran = process-Covers processor spans fresh fresh-IsWhole

-- The database that the two spans leave.
abbrev pub served : Db
served = ran.0

pub served-IsWhole : IsWhole served
served-IsWhole = ran.2.0

fetch_catalog-ok_example :
    (c : CatalogResponse) × (fetch_catalog served ≡ ok c) × IsCatalog served served-IsWhole c
fetch_catalog-ok_example = fetch_catalog-ok served served-IsWhole

fetch_connections-ok_example :
    fetch_connections served
    ≡ ok (
        map
          (linked_response (records_of "components" served))
          (rows served-IsWhole.served.connections))
fetch_connections-ok_example = fetch_connections-ok served served-IsWhole

abbrev pub backend : ApiBackend
backend = new_backend served

-- The first request misses, and the second is served from the cache.
request_catalog-Serves_example :
    Serves fetch_catalog (request_catalog backend).1 (request_catalog (request_catalog backend).1)
request_catalog-Serves_example =
    request_catalog-Serves (request_catalog backend).1
      (request_catalog-Serves backend (new_backend-IsFresh served)).fresh

request_connections-Serves_example :
    Serves fetch_connections
      (request_connections backend).1
      (request_connections (request_connections backend).1)
request_connections-Serves_example =
    request_connections-Serves (request_connections backend).1
      (request_connections-Serves backend (new_backend-IsFresh served)).fresh

record_gauges_from_db-Gauged_example :
    (g : Gauges) × (record_gauges_from_db served new_gauges ≡ ok g)
    × Gauged
        (rows served-IsWhole.served.app_items)
        (rows served-IsWhole.served.components)
        (length (rows served-IsWhole.served.connections))
        new_gauges
        g
record_gauges_from_db-Gauged_example =
    record_gauges_from_db-Gauged served served-IsWhole.served new_gauges

-- An agent with a file, and one whose file is no JSON.
abbrev pub platform : Platform String String
platform = record {
  getenv = λ k. "";
  atoi = λ text. none;
  compile = λ pattern text. ite (String-discrete text "a@b.io") true false;
  read_file = λ path. ok "spans";
  unmarshal = λ contents. ok (record { spans = spans });
}

abbrev bad_file : Platform String String
bad_file = record platform { unmarshal = λ contents. err "no JSON" }

pub loads : Loads platform spans
loads = ("spans", refl, refl)

boot-IsServing_example :
    (s : Serving) × (boot platform ≡ ok s) × IsServing (booted_processor platform spans) spans s
boot-IsServing_example = boot-IsServing platform spans loads

boot-err_example : boot bad_file ≡ err (spans_failed (parsing_json "no JSON"))
boot-err_example = boot-err bad_file (parsing_json "no JSON") ("spans", refl, refl)

-- The queries `a:b` of the item `db` and `b` of the item `db:a`.
abbrev query_of : String → String → RawSpan
query_of destination text = record {
  id = "1";
  kind = "client";
  name = "select";
  attributes =
      ("ebpf.span.type", "QUERY")
      ∷ ("ebpf.source", "web")
      ∷ ("ebpf.destination", destination)
      ∷ ("ebpf.db.query", text)
      ∷ [];
}

accumulate_span-collision_example :
    (component_of default_handlers (query_of "db" ("a" ++ (":" ++ "b")))
      ≡ component_of default_handlers (query_of ("db" ++ (":" ++ "a")) "b"))
    × (at
          (component_of default_handlers (query_of "db" ("a" ++ (":" ++ "b"))))
          (accumulate_span default_handlers [] (query_of ("db" ++ (":" ++ "a")) "b") (
            accumulate_span default_handlers []
              (query_of "db" ("a" ++ (":" ++ "b")))
              new_accumulator)).components
        ≡ some (
            component_record
              (component_of default_handlers (query_of ("db" ++ (":" ++ "a")) "b"))
              ("db" ++ (":" ++ "a"))
              (component_type query)
              "b"))
unfolding default_handlers query_handler handler_for GoMap.get String-discrete
accumulate_span-collision_example =
    accumulate_span-collision default_handlers [] (query_of "db" ("a" ++ (":" ++ "b")))
      (query_of ("db" ++ (":" ++ "a")) "b") new_accumulator query "db" "a" "b" refl refl refl refl

-- A port that is no number, and nothing else.
abbrev bad_port : String → String
bad_port k = ite (String-discrete k "HTTP_PORT") "http" ""
