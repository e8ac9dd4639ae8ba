-- ===== src/Db/Validity.antt =====
-- db/memory.go: when a table is well formed, and what an operation makes of one, read as a map from
-- keys to records.
pub mod Rows
pub mod Batches
pub mod Fields
pub mod Updates
pub mod Conflicts
pub mod Queries
pub mod Gaps
pub mod Schemas
pub mod Databases
pub mod RoundTrips
pub mod Limits
pub mod Refusals
pub mod Fresh
pub mod Replays
pub mod Carries
pub mod Groups
pub mod Grouped
use alma_backend_task.Prelude.{String, ◌≡◌, ◌≢◌, none, some, Result, String-discrete}
use alma_backend_task.GoMap.Distinct.{IsMap}
use alma_backend_task.Db.Types.{Record, Indexes, Table, Outcome, at}
use alma_backend_task.Db.Index.Returns.{HasKey}
use alma_backend_task.Db.Coherence.{Lookup, IsCoherent}

abbrev pub Indexed : Indexes → String → Type 0
Indexed idxs f = at f idxs ≢ none

-- The record has every indexed field, with a value that can be a map key.
pub record Fits (idxs : Indexes) (r : Record) : Type 0 where
  pub has : (f : String) → Indexed idxs f → HasKey (at f r)

abbrev pub look_of : Table → Lookup
look_of t q = at q t.records

pub record IsValid (t : Table) : Type 0 where
  pub coherent : IsCoherent (look_of t) t.indexes
  pub complete : (pk : String) (r : Record) → at pk t.records ≡ some r → Fits t.indexes r
  pub distinct : IsMap String-discrete t.records

-- The table that an operation makes: well formed, with the same schema and no new index, and with
-- the records that are looked up in it.
pub record Becomes (t : Table) (look : Lookup) (t' : Table) : Type 0 where
  pub valid : IsValid t'
  pub schema : t'.schema ≡ t.schema
  pub indexed : (f : String) → Indexed t'.indexes f → Indexed t.indexes f
  pub reads : (q : String) → at q t'.records ≡ look q

-- The operation returns, and makes that table.
abbrev pub Makes : Table → Lookup → Outcome Table → Type 0
Makes t look out = (t' : Table) × (out ≡ Result.ok t') × Becomes t look t'
