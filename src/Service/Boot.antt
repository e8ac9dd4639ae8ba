-- ===== src/Service/Boot.antt =====
-- main.go: the start of the program, from its surroundings to its servers.
use alma_backend_task.Prelude.{
  Bool, true, false, ◌&&◌, ◌≡◌, refl, sym, ◌∙◌, ap, subst, none, some, Option, String, All, ◌≢◌,
  List, [], map, ok, err,
}
use alma_backend_task.GoMap.Entries.{All-map}
use alma_backend_task.Db.Types.{Record, Db, at}
use alma_backend_task.Db.Tables.{new}
use alma_backend_task.Config.{Config, load_config}
use alma_backend_task.Schema.{create_schema}
use alma_backend_task.Models.{RawSpan}
use alma_backend_task.Agent.{AgentError, reading_file, parsing_json, new_ebpf_agent, get_spans}
use alma_backend_task.Processor.Process.{SpanProcessor, is_nonempty, process}
use alma_backend_task.Processor.Builder.{new_processor}
use alma_backend_task.Processor.Served.{records_of}
use alma_backend_task.Processor.Setup.{IsBlank, new-IsVacant, create_schema-IsBlank}
use alma_backend_task.Api.Types.{CatalogResponse, ConnectionResponse}
use alma_backend_task.Api.Catalog.{fetch_catalog}
use alma_backend_task.Api.Connections.{fetch_connections}
use alma_backend_task.Api.Backend.{
  ApiBackend, new_backend, invalidate_cache, request_catalog, request_connections,
}
use alma_backend_task.Api.Cached.{
  IsFresh, new_backend-IsFresh, invalidate_cache-IsFresh, request_catalog-Serves,
  request_connections-Serves,
}
use alma_backend_task.Server.{json, reply, handle_catalog, handle_connections}
use alma_backend_task.Main.{Platform, spans_failed, Serving, written, processor_options, boot}
use alma_backend_task.Service.Links.{IsWhole}
use alma_backend_task.Service.Spans.{source_of, destination_of, Covers}
use alma_backend_task.Service.Covers.{CoversAll, process-Covers}
use alma_backend_task.Service.Reads.{rows, mapped}
use alma_backend_task.Service.Connections.{linked_response, fetch_connections-ok}
use alma_backend_task.Service.Catalog.{described, IsCatalog, fetch_catalog-ok}

-- Tables with no record are whole.
pub blank-IsWhole : (db : Db) → IsBlank db → IsWhole db
blank-IsWhole db b = record {
  served = b.served;
  linked = record {
    app_items = λ q s e. cc (b.app_items q, e);
    components = λ q s e. cc (b.components q, e);
    owners = λ q s e. cc (b.components q, e);
    parts = λ q s e. cc (b.components q, e);
    ends = λ q s e. cc (b.connections q, e);
    carriers = λ q s e. cc (b.piis q, e);
    connections = λ q s e. cc (b.connections q, e);
  };
}

-- The connections that the API gives of a whole database.
unfoldable pub linked_responses : (db : Db) → IsWhole db → List ConnectionResponse
linked_responses db w =
    map (linked_response (records_of "components" db)) (rows w.served.connections)

-- The catalog has the two app items of the span.
abbrev pub Lists : CatalogResponse → RawSpan → Type 0
Lists c span =
    (at (source_of span) c.app_items ≢ none) × (at (destination_of span) c.app_items ≢ none)

-- The program serves a whole database that covers the spans. What it printed is what the database
-- has, the catalog lists the app items of the spans, the servers reply with it, and the cache is
-- fresh.
pub record IsServing (p : SpanProcessor) (spans : List RawSpan) (s : Serving) : Type 0 where
  pub whole : IsWhole s.backend.db
  pub covers : All (Covers p.handlers p.pii_detectors s.backend.db) spans
  pub catalog : IsCatalog s.backend.db whole s.catalog
  pub lists : All (Lists s.catalog) spans
  pub connections : s.connections ≡ linked_responses s.backend.db whole
  pub fresh : IsFresh s.backend
  pub replies_catalog : (handle_catalog s.backend).0 ≡ json s.catalog
  pub replies_connections : (handle_connections s.backend).0 ≡ json s.connections

mapped-there : {V : Type 0} (f : Record → V) (o : Option Record) → o ≢ none → mapped f o ≢ none
mapped-there f none h e = h refl
mapped-there f (some r) h e = cc e

covered-Lists :
    (p : SpanProcessor) (db : Db) (w : IsWhole db) (c : CatalogResponse)
    → IsCatalog db w c
    → (span : RawSpan) → Covers p.handlers p.pii_detectors db span
    → Lists c span
covered-Lists p db w c k span h =
    let entry : (q : String) → records_of "app_items" db q ≢ none → at q c.app_items ≢ none =
      λ q there.
        subst (λ o. o ≢ none) (sym (k.reads q))
          (mapped-there (described k.comps_of k.piis_of) (records_of "app_items" db q) there) in
    (entry (source_of span) h.source, entry (destination_of span) h.destination)

written-IsFresh :
    (db db' : Db) (invalidated : Bool)
    → IsFresh
        (written (new_backend db) (record { db = db'; errors = []; invalidated = invalidated }))
unfolding new_backend
written-IsFresh db db' true = invalidate_cache-IsFresh _
written-IsFresh db db' false = unfold new_backend in new_backend-IsFresh db'

written-db :
    (db db' : Db) (invalidated : Bool)
    → (written (new_backend db) (record { db = db'; errors = []; invalidated = invalidated })).db
      ≡ db'
unfolding new_backend invalidate_cache
written-db db db' true = refl
written-db db db' false = refl

-- The two requests before the servers, on a whole database with a fresh cache.
record Answers (p : SpanProcessor) (spans : List RawSpan) (cfg : Config) (first : ApiBackend)
    : Type 0 where
  catalog : CatalogResponse
  connections : List ConnectionResponse
  first_answer : (request_catalog first).0 ≡ ok catalog
  second_answer : (request_connections (request_catalog first).1).0 ≡ ok connections
  serving : IsServing p spans (record {
    config = cfg;
    backend = (request_connections (request_catalog first).1).1;
    catalog = catalog;
    connections = connections;
  })

replies_json :
    (a : ApiBackend) (c : CatalogResponse) (cs : List ConnectionResponse)
    → IsFresh a
    → fetch_catalog a.db ≡ ok c
    → fetch_connections a.db ≡ ok cs
    → ((handle_catalog a).0 ≡ json c) × ((handle_connections a).0 ≡ json cs)
unfolding handle_catalog handle_connections
replies_json a c cs h e f = (
  ap reply ((request_catalog-Serves a h).answer ∙ e),
  ap reply ((request_connections-Serves a h).answer ∙ f),
)

whole-Answers :
    (p : SpanProcessor) (spans : List RawSpan) (cfg : Config) (first : ApiBackend)
    → CoversAll p spans first.db
    → IsFresh first
    → Answers p spans cfg first
unfolding linked_responses
whole-Answers p spans cfg first w h =
    let s = request_catalog-Serves first h in
    let t = request_connections-Serves (request_catalog first).1 s.fresh in
    let same = t.db ∙ s.db in
    let last = (request_connections (request_catalog first).1).1 in
    let (whole, covers) : CoversAll p spans last.db = subst (CoversAll p spans) (sym same) w in
    let (c, e, k) = fetch_catalog-ok last.db whole in
    let f = fetch_connections-ok last.db whole in
    let (r, q) = replies_json last c (linked_responses last.db whole) t.fresh e f in
    record {
      catalog = c;
      connections = linked_responses last.db whole;
      first_answer = s.answer ∙ (ap fetch_catalog (sym same) ∙ e);
      second_answer = t.answer ∙ (ap fetch_connections (sym t.db) ∙ f);
      serving = record {
        whole = whole;
        covers = covers;
        catalog = k;
        lists = All-map (covered-Lists p last.db whole c k) spans covers;
        connections = refl;
        fresh = t.fresh;
        replies_catalog = r;
        replies_connections = q;
      };
    }

module _ {Bytes Failure : Type 0} (pf : Platform Bytes Failure) (spans : List RawSpan) where
  -- The file at the path of the configuration is read, and parsed to these spans.
  abbrev pub Loads : Type 0
  Loads =
      (contents : Bytes) × (pf.read_file (load_config pf.getenv pf.atoi).data_path ≡ ok contents)
      × (pf.unmarshal contents ≡ ok (record { spans = spans }))

  get_spans-ok :
      Loads
      → get_spans pf.read_file pf.unmarshal
          (new_ebpf_agent (load_config pf.getenv pf.atoi).data_path)
        ≡ ok spans
  unfolding get_spans new_ebpf_agent
  get_spans-ok (contents, h, k) = rw (h, k) refl

  -- The processor that `main` makes.
  abbrev pub booted_processor : SpanProcessor
  booted_processor = new_processor pf.compile (processor_options (load_config pf.getenv pf.atoi))

  boot_steps :
      (db db' : Db) (invalidated : Bool)
      (ans : Answers booted_processor spans
        (load_config pf.getenv pf.atoi)
        (written (new_backend db) (record { db = db'; errors = []; invalidated = invalidated })))
      → create_schema new ≡ ok (db, none)
      → Loads
      → process booted_processor spans db
        ≡ ok (record { db = db'; errors = []; invalidated = invalidated })
      → (s : Serving) × (boot pf ≡ ok s) × IsServing booted_processor spans s
  unfolding boot
  boot_steps db db' invalidated ans made loads ran = (
    _,
    (rw (made, get_spans-ok loads, ran, ans.first_answer, ans.second_answer) refl),
    ans.serving,
  )

  -- If the file at the path of the configuration is read and parsed to some spans, whatever the
  -- environment sets, the program comes to its servers without an exit. The database is then whole:
  -- among others, the key of each component is its type, its app item and its value, and the key of
  -- each connection its source and its destination, joined by colons. For each span the database has
  -- its two app items, the component under the key of the span's type, destination and value, under
  -- the key of the span's source and destination a connection that lists the component, and each PII
  -- that is found in the span. The catalog and the connections that it printed are those of the
  -- database, the catalog lists the app items of each span, the two handlers reply with them as JSON,
  -- and what the cache holds is what a fetch gives.
  pub boot-IsServing : Loads → (s : Serving) × (boot pf ≡ ok s) × IsServing booted_processor spans s
  boot-IsServing loads =
      let (db, made, b) = create_schema-IsBlank new new-IsVacant in
      let (db', ran, w) = process-Covers booted_processor spans db (blank-IsWhole db b) in
      let flag = booted_processor.invalidator && is_nonempty spans in
      boot_steps db db' flag
        (whole-Answers booted_processor spans _ _
          (subst (CoversAll booted_processor spans) (sym (written-db db db' flag)) w)
          (written-IsFresh db db' flag))
        made loads ran

-- The agent fails so: its file cannot be read, or it is read and cannot be parsed.
abbrev pub Fails : {Bytes Failure : Type 0} → Platform Bytes Failure → AgentError Failure → Type 0
Fails pf (reading_file f) = pf.read_file (load_config pf.getenv pf.atoi).data_path ≡ err f
Fails {Bytes = Bytes} pf (parsing_json f) =
    (contents : Bytes) × (pf.read_file (load_config pf.getenv pf.atoi).data_path ≡ ok contents)
    × (pf.unmarshal contents ≡ err f)

get_spans-err :
    {Bytes Failure : Type 0} (pf : Platform Bytes Failure) (e : AgentError Failure)
    → Fails pf e
    → get_spans pf.read_file pf.unmarshal (new_ebpf_agent (load_config pf.getenv pf.atoi).data_path)
      ≡ err e
unfolding get_spans new_ebpf_agent
get_spans-err pf (reading_file f) h = rw h refl
get_spans-err pf (parsing_json f) (contents, h, k) = rw (h, k) refl

-- If the file at the path of the configuration cannot be read, the program exits with the failure of
-- the reading, as an error of reading the file. If it can be read and its contents cannot be parsed,
-- the program exits with the failure of the parsing, as an error of parsing JSON.
pub boot-err :
    {Bytes Failure : Type 0} (pf : Platform Bytes Failure) (e : AgentError Failure)
    → Fails pf e
    → boot pf ≡ err (spans_failed e)
unfolding boot
boot-err pf e failed =
    let (db, made, b) = create_schema-IsBlank new new-IsVacant in
    rw (made, get_spans-err pf e failed) refl
