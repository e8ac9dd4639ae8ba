-- ===== src/Db/Validity/Conflicts.antt =====
-- db/memory.go: `InsertOnConflict` and `InsertBatchOnConflict` on a well-formed table.
use alma_backend_task.Prelude.{
  String, ◌≡◌, ◌≢◌, refl, Option, none, some, List, [], ◌∷◌, ok, err, arith, Option-cases, inl, inr,
}
use alma_backend_task.Value.{Value, sprint}
use alma_backend_task.Db.Types.{
  Record, Indexes, Table, Db, ConflictAction, conflict_error, conflict_do_nothing,
  conflict_do_update, ConflictOptions, already_exists, at,
}
use alma_backend_task.Db.Batch.{batch_key}
use alma_backend_task.Db.Conflict.{
  on_existing, conflict_at, conflict_row, insert_on_conflict, check_first, on_existing_in_batch,
  conflict_batch_row, conflict_rows, insert_batch_on_conflict,
}
use alma_backend_task.Db.Coherence.{updated}
use alma_backend_task.Db.Validity.{Fits, look_of, IsValid, Becomes, Makes}
use alma_backend_task.Db.Validity.Rows.{store_new-Makes}
use alma_backend_task.Db.Validity.Batches.{
  replayed, RowMakes, Persists, each_record-Makes, validate-ok,
}
use alma_backend_task.Db.Validity.Updates.{chosen, fields_result, KeepsKeys, do_update-Makes}
use alma_backend_task.Db.Validity.Databases.{
  Performs, update_table-Performs, update_table-err, BatchFits, nothing-Performs, primary_key-ok,
}

-- What a conflict leaves under the key: the record that was there, or that record updated.
abbrev pub resolved : ConflictAction → ConflictOptions → Record → Record → Record
resolved conflict_do_update opts existing r =
    fields_result opts r (chosen opts.update_fields r) existing
resolved _ opts existing r = existing

abbrev pub joined : ConflictOptions → Option Record → Record → Record
joined opts none r = r
joined opts (some existing) r = resolved opts.action opts existing r

-- The record that was there is written again.
kept-Becomes :
    (pk : String) (existing : Record) (t : Table)
    → IsValid t
    → at pk t.records ≡ some existing
    → Becomes t (updated pk (some existing) (look_of t)) t
kept-Becomes pk existing t v old = record {
  valid = v;
  schema = refl;
  indexed = λ f p. p;
  reads = λ q. ground (arith, old);
}

-- The options resolve conflicts, and their merge functions make map keys where those are wanted.
pub record Resolves (opts : ConflictOptions) (idxs : Indexes) : Type 0 where
  pub acts : opts.action ≢ conflict_error
  pub keeps : KeepsKeys idxs opts

Resolves-Persists : (opts : ConflictOptions) → Persists (Resolves opts)
Resolves-Persists opts idxs out fewer h = record {
  acts = h.acts;
  keeps = λ f m p. h.keeps f m (fewer f p);
}

resolved-Makes :
    (action : ConflictAction) (opts : ConflictOptions) (pk : String) (existing r : Record)
    (t : Table)
    → action ≢ conflict_error
    → IsValid t
    → Fits t.indexes r
    → KeepsKeys t.indexes opts
    → at pk t.records ≡ some existing
    → Makes t
        (updated pk (some (resolved action opts existing r)) (look_of t))
        (on_existing_in_batch action opts pk existing r t)
unfolding on_existing_in_batch
resolved-Makes conflict_error opts pk existing r t act v fit keeps old = absurd (act refl)
resolved-Makes conflict_do_nothing opts pk existing r t act v fit keeps old =
    (t, refl, kept-Becomes pk existing t v old)
resolved-Makes conflict_do_update opts pk existing r t act v fit keeps old =
    do_update-Makes opts pk existing r t v fit keeps old

conflict_batch_row-RowMakes :
    (opts : ConflictOptions) → RowMakes (Resolves opts) (joined opts) (conflict_batch_row opts)
unfolding conflict_batch_row
conflict_batch_row-RowMakes opts r t v h fit = elim (Option-cases (at (batch_key t r) t.records)) [
  | inl new ↦ rw (new, conflict_batch_row) (store_new-Makes (batch_key t r) r t v fit new)
  | inr (existing, old) ↦
      rw (old, conflict_batch_row)
        (resolved-Makes opts.action opts (batch_key t r) existing r t h.acts v fit h.keeps old)
]

on_existing-eq-in_batch :
    (action : ConflictAction) (opts : ConflictOptions) (pk : Value) (existing r : Record)
    (t : Table)
    → action ≢ conflict_error
    → on_existing action opts pk existing r t
      ≡ on_existing_in_batch action opts (sprint pk) existing r t
unfolding on_existing on_existing_in_batch
on_existing-eq-in_batch conflict_error opts pk existing r t h = absurd (h refl)
on_existing-eq-in_batch conflict_do_nothing opts pk existing r t h = refl
on_existing-eq-in_batch conflict_do_update opts pk existing r t h = refl

check_first-ok :
    (action : ConflictAction) (rs : List Record) (t : Table)
    → action ≢ conflict_error
    → check_first action rs t ≡ ok tt
unfolding check_first
check_first-ok conflict_error rs t h = absurd (h refl)
check_first-ok _ rs t h = refl

module _ (name : String) (db : Db) (t : Table) (here : at name db.tables ≡ some t)
    (opts : ConflictOptions) where
  conflict_rows-Makes :
      (rs : List Record)
      → IsValid t
      → Resolves opts t.indexes
      → BatchFits name db t here rs
      → Makes t
          (replayed t.schema.primary_key (joined opts) rs (look_of t))
          (conflict_rows opts rs t)
  unfolding conflict_rows
  conflict_rows-Makes rs v h fits =
      rw (validate-ok t.schema.primary_key 0 rs fits.1, check_first-ok opts.action rs t h.acts)
        (each_record-Makes (Resolves-Persists opts) (joined opts) (conflict_batch_row opts)
          (conflict_batch_row-RowMakes opts) rs t v h fits.0)

  -- On a well-formed table and a batch that fits it, with an action that is not `ConflictError` and
  -- merge functions that make map keys of map keys on the indexed fields, `InsertBatchOnConflict`
  -- returns no error. The new table is well formed and reads as the old one with each record in turn
  -- joined to what was at its key, as the action says, and no other table changes.
  pub insert_batch_on_conflict-Performs :
      (rs : List Record)
      → IsValid t
      → Resolves opts t.indexes
      → BatchFits name db t here rs
      → Performs name t
          (replayed t.schema.primary_key (joined opts) rs (look_of t))
          db
          (insert_batch_on_conflict name opts rs db)
  unfolding insert_batch_on_conflict replayed
  insert_batch_on_conflict-Performs [] v h fits = nothing-Performs name db t here v
  insert_batch_on_conflict-Performs (r ∷ rs) v h fits =
      update_table-Performs name db t here
        (replayed t.schema.primary_key (joined opts) (r ∷ rs) (look_of t))
        (conflict_rows opts (r ∷ rs)) (conflict_rows-Makes (r ∷ rs) v h fits)

  module _ (r : Record) (pk : Value) (keyed : at t.schema.primary_key r ≡ some pk) where
    -- On a well-formed table and a fitting record with a primary key, with an action that is not
    -- `ConflictError` and merge functions that make map keys of map keys on the indexed fields,
    -- `InsertOnConflict` returns no error. The new table is well formed and has at the key the record
    -- joined to what was there, as the action says, and all else as before, and no other table changes.
    pub insert_on_conflict-Performs :
        IsValid t
        → Resolves opts t.indexes
        → Fits t.indexes r
        → Performs name t
            (updated (sprint pk) (some (joined opts (at (sprint pk) t.records) r)) (look_of t))
            db
            (insert_on_conflict name opts r db)
    unfolding insert_on_conflict conflict_row conflict_at
    insert_on_conflict-Performs v h fit =
        update_table-Performs name db t here
          (updated (sprint pk) (some (joined opts (at (sprint pk) t.records) r)) (look_of t))
          (conflict_row opts r)
          (rw (primary_key-ok name db t here r pk keyed)
            (elim (Option-cases (at (sprint pk) t.records)) [
              | inl new ↦ rw (new, conflict_at) (store_new-Makes (sprint pk) r t v fit new)
              | inr (existing, old) ↦
                  rw
                    (
                      old,
                      conflict_at,
                      on_existing-eq-in_batch opts.action opts pk existing r t h.acts,
                    )
                    (resolved-Makes opts.action opts (sprint pk) existing r t h.acts v fit h.keeps
                      old)
            ]))

    -- With `ConflictError`, a record under a key that the table has is refused, and the error names
    -- the key.
    pub insert_on_conflict-err :
        (existing : Record)
        → at (sprint pk) t.records ≡ some existing
        → opts.action ≡ conflict_error
        → insert_on_conflict name opts r db ≡ err (already_exists pk)
    unfolding insert_on_conflict conflict_row conflict_at on_existing
    insert_on_conflict-err existing old act =
        update_table-err name db t here (conflict_row opts r) (already_exists pk)
          (rw (primary_key-ok name db t here r pk keyed, old, act) refl)
