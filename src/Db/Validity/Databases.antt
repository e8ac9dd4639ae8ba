-- ===== src/Db/Validity/Databases.antt =====
-- db/memory.go: the exported methods on a database of well-formed tables. Each returns, changes its
-- own table as the map from keys to records says, and leaves the other tables as they were.
use alma_backend_task.Prelude.{
  String, ◌≡◌, ◌≢◌, refl, Option, none, some, List, [], ◌∷◌, ◌++◌, ok, err, arith, All, length,
  String-discrete, if_pos, if_neg,
}
use alma_backend_task.GoMap.{get-put}
use alma_backend_task.Value.{Value, sprint}
use alma_backend_task.Db.Types.{Record, Table, Db, Outcome, Error, at, set_at, no_primary_key_at}
use alma_backend_task.Db.Tables.{find_table, update_table}
use alma_backend_task.Db.Coherence.{Lookup, updated}
use alma_backend_task.Db.Insert.{primary_key, insert_row, insert, delete_row, delete}
use alma_backend_task.Db.Upsert.{upsert_row, upsert}
use alma_backend_task.Db.Batch.{
  insert_batch, upsert_batch, batch_rows, overwrite_row, upsert_batch_row,
}
use alma_backend_task.Db.Validity.{Fits, look_of, IsValid, Becomes, Makes}
use alma_backend_task.Db.Validity.Rows.{merged, store_new-Makes, upsert_at-Makes, delete_row-Makes}
use alma_backend_task.Db.Validity.Batches.{
  replayed, overwritten, RowMakes, Always, HasPrimary, Becomes-refl, batch_rows-Makes,
  batch_rows-err, overwrite_row-RowMakes, upsert_batch_row-RowMakes,
}

-- Only the table of that name is another, and it has become the one with those records.
pub record Changes (name : String) (t : Table) (look : Lookup) (db db' : Db) : Type 0 where
  pub table : Table
  pub found : at name db'.tables ≡ some table
  pub becomes : Becomes t look table
  pub others : (other : String) → name ≢ other → at other db'.tables ≡ at other db.tables

abbrev pub Performs : String → Table → Lookup → Db → Outcome Db → Type 0
Performs name t look db out = (db' : Db) × (out ≡ ok db') × Changes name t look db db'

module _ (name : String) (db : Db) (t : Table) (here : at name db.tables ≡ some t) where
  pub update_table-Performs :
      (look : Lookup) (change : Table → Outcome Table)
      → Makes t look (change t)
      → Performs name t look db (update_table name change db)
  unfolding update_table find_table
  update_table-Performs look change (t', e, b) = (
    record { tables = set_at name t' db.tables },
    ground (arith, here, e),
    record {
      table = t';
      found = rw (get-put, if_pos (String-discrete name name) refl) refl;
      becomes = b;
      others = λ other n. rw (get-put, if_neg (String-discrete name other) n) refl;
    },
  )

  pub update_table-err :
      (change : Table → Outcome Table) (e : Error)
      → change t ≡ err e
      → update_table name change db ≡ err e
  unfolding update_table find_table
  update_table-err change e h = ground (arith, here)

  -- The record's key, as the methods read it.
  module _ (r : Record) (pk : Value) (keyed : at t.schema.primary_key r ≡ some pk) where
    pub primary_key-ok : primary_key t r ≡ ok pk
    unfolding primary_key
    primary_key-ok = ground (arith, keyed)

    -- On a well-formed table, and a fitting record under a primary key that the table does not have,
    -- `Insert` returns no error. The new table is well formed and has the record at its key and all
    -- else as before, and no other table changes.
    pub insert-Performs :
        IsValid t
        → Fits t.indexes r
        → at (sprint pk) t.records ≡ none
        → Performs name t (updated (sprint pk) (some r) (look_of t)) db (insert name r db)
    unfolding insert insert_row
    insert-Performs v fit new =
        update_table-Performs (updated (sprint pk) (some r) (look_of t)) (insert_row r)
          (rw primary_key-ok (store_new-Makes (sprint pk) r t v fit new))

    -- On a well-formed table, and a fitting record with a primary key, `Upsert` returns no error. The
    -- new table is well formed and has at the key the record merged into the one that was there, if
    -- any, and all else as before, and no other table changes.
    pub upsert-Performs :
        IsValid t
        → Fits t.indexes r
        → Performs name t
            (updated (sprint pk) (some (merged (at (sprint pk) t.records) r)) (look_of t))
            db
            (upsert name r db)
    unfolding upsert upsert_row
    upsert-Performs v fit =
        update_table-Performs
          (updated (sprint pk) (some (merged (at (sprint pk) t.records) r)) (look_of t))
          (upsert_row r) (rw primary_key-ok (upsert_at-Makes (sprint pk) r t v fit))

  -- On a well-formed table, `Delete` of any key returns no error. The new table is well formed and has
  -- nothing at the key and all else as before, and no other table changes.
  pub delete-Performs :
      (pk : Value)
      → IsValid t
      → Performs name t (updated (sprint pk) none (look_of t)) db (delete name pk db)
  unfolding delete
  delete-Performs pk v =
      update_table-Performs (updated (sprint pk) none (look_of t)) (delete_row pk)
        (delete_row-Makes (sprint pk) t v pk refl)

  -- An empty batch leaves the database as it was.
  pub nothing-Performs : IsValid t → Performs name t (look_of t) db (ok db)
  nothing-Performs v = (
    db,
    refl,
    record { table = t; found = here; becomes = Becomes-refl t v; others = λ other n. refl },
  )

  -- The names of a batch's hypotheses: every record fits, and has the primary key.
  abbrev pub BatchFits : List Record → Type 0
  BatchFits rs = All (Fits t.indexes) rs × All (HasPrimary t.schema.primary_key) rs

  batch-Performs :
      (join : Option Record → Record → Record) (body : Record → Table → Outcome Table)
      → RowMakes Always join body
      → (rs : List Record) → IsValid t
      → BatchFits rs
      → Performs name t
          (replayed t.schema.primary_key join rs (look_of t))
          db
          (update_table name (batch_rows body rs) db)
  batch-Performs join body row rs v h =
      update_table-Performs (replayed t.schema.primary_key join rs (look_of t)) (batch_rows body rs)
        (batch_rows-Makes join body row rs t v h.0 h.1)

  -- On a well-formed table and a batch that fits it, `InsertBatch` returns no error. The new table is
  -- well formed and reads as the old one with each record in turn put at its key, in place of what was
  -- there, and no other table changes.
  pub insert_batch-Performs :
      (rs : List Record)
      → IsValid t
      → BatchFits rs
      → Performs name t
          (replayed t.schema.primary_key overwritten rs (look_of t))
          db
          (insert_batch name rs db)
  unfolding insert_batch replayed
  insert_batch-Performs [] v h = nothing-Performs v
  insert_batch-Performs (r ∷ rs) v h =
      batch-Performs overwritten overwrite_row overwrite_row-RowMakes (r ∷ rs) v h

  -- On a well-formed table and a batch that fits it, `UpsertBatch` returns no error. The new table is
  -- well formed and reads as the old one with each record in turn merged into what was at its key, and
  -- no other table changes.
  pub upsert_batch-Performs :
      (rs : List Record)
      → IsValid t
      → BatchFits rs
      → Performs name t
          (replayed t.schema.primary_key merged rs (look_of t))
          db
          (upsert_batch name rs db)
  unfolding upsert_batch replayed
  upsert_batch-Performs [] v h = nothing-Performs v
  upsert_batch-Performs (r ∷ rs) v h =
      batch-Performs merged upsert_batch_row upsert_batch_row-RowMakes (r ∷ rs) v h

  -- A batch with a record that lacks the primary key, after records that have it, is refused by
  -- `InsertBatch` and by `UpsertBatch`, and the error has the number of that record.
  pub batches_refused :
      (rs rest : List Record) (r : Record)
      → All (HasPrimary t.schema.primary_key) rs
      → at t.schema.primary_key r ≡ none
      → (insert_batch name (rs ++ r ∷ rest) db
          ≡ err (no_primary_key_at (length rs) t.schema.primary_key))
        × (upsert_batch name (rs ++ r ∷ rest) db
            ≡ err (no_primary_key_at (length rs) t.schema.primary_key))
  unfolding insert_batch upsert_batch
  batches_refused [] rest r keyed bad = (
    update_table-err _ _ (batch_rows-err overwrite_row t [] rest r keyed bad),
    update_table-err _ _ (batch_rows-err upsert_batch_row t [] rest r keyed bad),
  )
  batches_refused (s ∷ rs) rest r keyed bad = (
    update_table-err _ _ (batch_rows-err overwrite_row t (s ∷ rs) rest r keyed bad),
    update_table-err _ _ (batch_rows-err upsert_batch_row t (s ∷ rs) rest r keyed bad),
  )
