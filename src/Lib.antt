-- ===== src/Lib.antt =====
-- The backend of a service catalogue. A span processor turns the spans of an eBPF agent into
-- records, and writes them in batches to an in-memory database with secondary indexes. An HTTP API
-- reads the database behind a response cache, which the processor invalidates.
--
-- The parts and their files:
--   db/memory.go: Db.antt and below it. Db/Types has the structs; Db/Tables CreateTable, DropTable,
--     Clear and TableExists; Db/Index the loops over the indexes and removeFromIndex; Db/Insert
--     Insert, Delete and Get; Db/Upsert Upsert; Db/Batch InsertBatch and UpsertBatch; Db/Conflict
--     InsertOnConflict and InsertBatchOnConflict; Db/Query the query builder, Execute, All, Count
--     and AllGroupedBy; Db/Join the join builder and its Execute. A method is the function of its
--     name in snake case. The `any` values of a record are Value.antt, and Go's maps are
--     GoMap.antt.
--   backend/api: Cache.antt is cache.go, and Cache/Protocol the interleavings of requests with the
--     processor. Of api.go, Api/Types has the responses, Api/Catalog and Api/Connections what
--     GetCatalog and GetConnections fetch and build, Api/Backend both with the cache, New and
--     InvalidateCache, and Api/Metered what both count.
--   schema/schema.go: Schema.antt. models/models.go: Models.antt. config/config.go: Config.antt,
--     with Config/Defaults on what the environment leaves unset. metrics/metrics.go: Metrics.antt,
--     what is counted and gauged, and Metrics/Registry, the metrics that are registered.
--     ebpf_agent/ebpf.go: Agent.antt. server/server.go and server/metrics.go: Server.antt, the
--     handlers and their patterns. main.go: Main.antt, where `boot` is main up to the servers, and
--     Main/Servers, its steps from there to its end. db/interface.go: Db/Interface.antt, the
--     interface as a record, `DB` as one, and the calls of the methods that write.
--   backend/processor: Processor/Handlers (span_handler.go and pii.go), Processor/Builder (New, its
--     options and the default detectors), Processor/Accumulate (the accumulator and
--     accumulateSpan), Processor/Flush (flush), Processor/Process (Process), Processor/Gauges (the
--     gauges) and Processor/Metered (the same code once more, with what it counts; of the modules
--     below it, Sightings says how often a type is to be counted, Forgotten relates the code to
--     that without the counters, and the others are about what is counted). Processor/Options,
--     Served, Suited, Batches, Waves, Runs, Setup and Merge are proofs: the conflict options, what
--     a batch does to a database with its table, the records of the accumulator, the four batches,
--     the two waves, the whole of Process, CreateSchema, and the merge of component ids. So are
--     Tied, Mentions and Detections, about how the records of the accumulator fit together and what
--     it keeps.
--   The proofs about the whole program are in Service: Links is about how the records of the four
--     tables fit together, Spans about what a span stands for in the database, Held, Lasting and
--     Covers about what a run stores of it, Splits and Plain about the same where no name or value
--     has a colon, Types about the types of the stored values, Reads, Catalog and Connections about
--     what the API reads, Boot about the start of the program, Responses, Logs and Lifetime about
--     the requests and the log from there to its end, and Collisions about the ids of components.
--     Api/Cached relates a request to a fetch, and Api/Metered/* is about hits and misses.
--   The proofs about the database: Db/Index/* count the references of an index, Db/Coherence
--     relates indexes and records, and Db/Validity/* say what each method makes of a well-formed
--     table, of its groups (Groups and Grouped) and of what a key has (Replays and Carries).
--     Db/Join/Loops has the nested loops that a join is compared with, and Db/Join/Nested the
--     comparison. Db/Interface/Contents is the abstract database, a schema and a map from keys to
--     records under each name, with what each method promises of it and what it asks;
--     Db/Interface/Refinement says when a method and a promise agree, and Actions, Keyed, Batched,
--     Memory and Runs are about `DB` beside the contents. GoMap/Distinct has the keys of a map,
--     GoMap/Entries what holds of all its entries, Cache/Freshness and Cache/Guard are about the
--     cache, and Tests/* hold the examples.
--
-- How the code is read. A database is a value, and a method that writes gives the new database or
-- the error of the source; an error of a method leaves the database as it was. A Go panic, as of a
-- slice used as a map key, is a result of its own. The locks make each method one step on its
-- table, but for InsertBatchOnConflict with ConflictError: it checks for conflicts under a read
-- lock, gives it back and then takes the lock for writing, so that another writer can come between,
-- and the model makes the two one step. A record that is stored is the caller's map itself, which
-- Upsert and the conflict updates then change in place: the model stores a copy, and a caller that
-- keeps its map and reads or changes it after the call is outside it (in this program none does). A
-- ConflictAction is an int of the source, whose values beside the three constants insert: the model
-- has the three. reflect.DeepEqual, which filters compare by, tells a nil slice from an empty one:
-- they are one value in the model. A map is an association list, and a loop over one visits it in
-- the order of the list. The two goroutines of a wave of `flush` work on different tables and are
-- run one after the other; Db/Tables/Order has the other order. Generations of the cache are
-- natural numbers modulo 2^64. The servers are a step relation (Main/Servers, Step): a request is
-- one step, and a step can be taken as long as the program has not ended, also after a shutdown has
-- begun. What ServeMux picks, what ListenAndServe and Shutdown return, and the signal are arguments
-- of the steps. The program's start takes its surroundings (the environment, strconv.Atoi, regexp,
-- the file system and the JSON decoder) from a record, Platform. The processor and the API share
-- one database: `boot` hands the database that Process leaves to the API. Every loop of the source
-- is over a list or a map, and its function recurs on the list. One function runs on fuel,
-- `decimal` (Value/Format), which stands for the digits of an integer in `%v`: its fuel is the
-- number itself, and a number has no more digits than that after its first.
--
-- A table is well formed (Db/Validity.antt, IsValid) if each index lists a key under a value
-- exactly once when the record of the key has the value and otherwise not, if every record has
-- every indexed field with a value that can be a map key, and if no key is there twice, nor a value
-- in an index. A record fits a table (Fits) if it has every indexed field with such a value, and a
-- batch fits it (BatchFits) if its records do and have the primary key.
--
-- A database is whole (Service/Links.antt, IsWhole) if the four tables of the schema are there,
-- well formed, every app item and every component holds its key in its record, every component has
-- a type, an app item and a value that make its key when colons join them, every connection a
-- source and a destination that do, every PII names a component by a text, and every component id
-- of a connection is the key of a component.
--
-- Not modelled: simulated latency, logs and contexts; what a histogram observes, which is the
-- clock's, so that it is the number of its observations; floats and times as values, a gauge being
-- a natural number; what a pattern matches; the choice of a route, the encoding of replies and the
-- sockets, which are the standard library's, and what the metrics server replies, which is
-- Prometheus's; what main prints, but for the values. `boot` is put together from the functions
-- without their counts.
pub mod Prelude
pub mod GoMap
pub mod Value
pub mod Db
pub mod Cache
pub mod Models
pub mod Schema
pub mod Metrics
pub mod Config
pub mod Processor
pub mod Api
pub mod Agent
pub mod Server
pub mod Main
pub mod Service
pub mod Tests
