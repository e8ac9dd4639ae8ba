-- ===== src/Processor/Served.antt =====
-- backend/processor/processor.go: what one batch of `flush` does to a database that has its table.
use alma_backend_task.Prelude.{
  String, ◌≡◌, ◌≢◌, refl, sym, ◌∙◌, ap, subst, Option, none, some, List, [], ◌∷◌, ok, All,
}
use alma_backend_task.Db.Types.{Record, TableSchema, Table, Db, Outcome, at}
use alma_backend_task.Db.Coherence.{Lookup}
use alma_backend_task.Db.Validity.{Fits, look_of, IsValid}
use alma_backend_task.Db.Validity.Batches.{replayed, HasPrimary}
use alma_backend_task.Db.Validity.Databases.{Changes, Performs, BatchFits}
use alma_backend_task.Db.Validity.Schemas.{IndexedBy, Suits, Suits-Fits}
use alma_backend_task.Processor.Flush.{run_batch}

-- The database has a well-formed table of that name, made by the schema.
pub record Holds (name : String) (schema : TableSchema) (db : Db) : Type 0 where
  pub table : Table
  pub found : at name db.tables ≡ some table
  pub valid : IsValid table
  pub made_by : table.schema ≡ schema
  pub indexed : IndexedBy schema table.indexes

abbrev look_in : Option Table → Lookup
look_in none q = none
look_in (some t) q = at q t.records

-- The records of the table of that name, by their keys.
abbrev pub records_of : String → Db → Lookup
records_of name db = look_in (at name db.tables)

-- The record can be written to a table of the schema.
abbrev pub Suited : TableSchema → Record → Type 0
Suited schema r = Suits schema r × HasPrimary schema.primary_key r

-- The batch has been joined into the table of that name, and the other tables are as they were.
pub record Stores (name : String) (schema : TableSchema) (join : Option Record → Record → Record)
    (rs : List Record) (db db' : Db) : Type 0 where
  pub reads :
      (q : String)
      → records_of name db' q ≡ replayed schema.primary_key join rs (records_of name db) q
  pub holds : Holds name schema db'
  pub others : (other : String) → name ≢ other → at other db'.tables ≡ at other db.tables

pub Holds-same :
    {name : String} {schema : TableSchema} {db db' : Db}
    → at name db'.tables ≡ at name db.tables
    → Holds name schema db
    → Holds name schema db'
Holds-same e h = record {
  table = h.table;
  found = e ∙ h.found;
  valid = h.valid;
  made_by = h.made_by;
  indexed = h.indexed;
}

pub records_of-same :
    (name : String) (db db' : Db)
    → at name db'.tables ≡ at name db.tables
    → records_of name db' ≡ records_of name db
records_of-same name db db' e = ap look_in e

module _ {name : String} {schema : TableSchema} {db : Db} (h : Holds name schema db) where
  rows-Fits : (rs : List Record) → All (Suited schema) rs → All (Fits h.table.indexes) rs
  rows-Fits [] s = tt
  rows-Fits (r ∷ rs) s = (Suits-Fits schema h.table.indexes r h.indexed s.0.0, rows-Fits rs s.1)

  rows-HasPrimary :
      (rs : List Record) → All (Suited schema) rs → All (HasPrimary h.table.schema.primary_key) rs
  rows-HasPrimary [] s = tt
  rows-HasPrimary (r ∷ rs) s = (
    subst (λ (k : TableSchema). HasPrimary k.primary_key r) (sym h.made_by) s.0.1,
    rows-HasPrimary rs s.1,
  )

  pub Suited-BatchFits :
      (rs : List Record) → All (Suited schema) rs → BatchFits name db h.table h.found rs
  Suited-BatchFits rs s = (rows-Fits rs s, rows-HasPrimary rs s)

  module _ (join : Option Record → Record → Record) where
    changed-Stores :
        (rs : List Record) (db' : Db)
        → Changes name h.table
            (replayed h.table.schema.primary_key join rs (look_of h.table))
            db
            db'
        → Stores name schema join rs db db'
    changed-Stores rs db' c = record {
      reads = λ q. rw (c.found, h.found, ← h.made_by) (c.becomes.reads q);
      holds = record {
        table = c.table;
        found = c.found;
        valid = c.becomes.valid;
        made_by = c.becomes.schema ∙ h.made_by;
        indexed = λ f p. h.indexed f (c.becomes.indexed f p);
      };
      others = c.others;
    }

    -- A goroutine of `flush` gives no error if its batch performs.
    pub run_batch-Stores :
        (label : String) (write : List Record → Db → Outcome Db) (rs : List Record)
        → Performs name h.table
            (replayed h.table.schema.primary_key join rs (look_of h.table))
            db
            (write rs db)
        → (db' : Db) × (run_batch label write rs db ≡ ok (db', []))
          × Stores name schema join rs db db'
    unfolding run_batch replayed
    run_batch-Stores label write [] p =
        (db, refl, record { reads = λ q. refl; holds = h; others = λ other n. refl })
    run_batch-Stores label write (r ∷ rs) (db', e, c) =
        (db', rw e refl, changed-Stores (r ∷ rs) db' c)
