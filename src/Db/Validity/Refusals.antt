-- ===== src/Db/Validity/Refusals.antt =====
-- db/memory.go: `InsertBatchOnConflict` with `ConflictError`.
use alma_backend_task.Prelude.{
  ℕ, suc, ◌+◌, String, ◌≡◌, some, none, List, [], ◌∷◌, ◌++◌, err, arith, All, length,
}
use alma_backend_task.Db.Types.{
  Record, Table, Db, ConflictOptions, conflict_error, already_exists_at, at,
}
use alma_backend_task.Db.Batch.{or_nil, batch_key}
use alma_backend_task.Db.Conflict.{
  check_conflicts, check_first, conflict_rows, insert_batch_on_conflict,
}
use alma_backend_task.Db.Validity.Batches.{HasPrimary, validate-ok}
use alma_backend_task.Db.Validity.Databases.{update_table-err}

-- The table has no record under the key of this one.
abbrev pub IsNew : Table → Record → Type 0
IsNew t r = at (batch_key t r) t.records ≡ none

check_conflicts-err :
    (t : Table) (i : ℕ) (rs rest : List Record) (r existing : Record)
    → All (IsNew t) rs
    → at (batch_key t r) t.records ≡ some existing
    → check_conflicts t i (rs ++ r ∷ rest)
      ≡ err (already_exists_at (i + length rs) (or_nil (at t.schema.primary_key r)))
unfolding check_conflicts
check_conflicts-err t i [] rest r existing new old = ground (arith, old)
check_conflicts-err t i (s ∷ rs) rest r existing new old =
    ground (arith, new.0, check_conflicts-err t (suc i) rs rest r existing new.1 old)

module _ (name : String) (db : Db) (t : Table) (here : at name db.tables ≡ some t)
    (opts : ConflictOptions) where
  conflict_rows-err :
      (rs rest : List Record) (r existing : Record)
      → opts.action ≡ conflict_error
      → All (HasPrimary t.schema.primary_key) (rs ++ r ∷ rest)
      → All (IsNew t) rs
      → at (batch_key t r) t.records ≡ some existing
      → conflict_rows opts (rs ++ r ∷ rest) t
        ≡ err (already_exists_at (length rs) (or_nil (at t.schema.primary_key r)))
  unfolding conflict_rows check_first
  conflict_rows-err rs rest r existing act keyed new old =
      rw
        (
          validate-ok t.schema.primary_key 0 (rs ++ r ∷ rest) keyed,
          act,
          check_conflicts-err t 0 rs rest r existing new old,
        )
        (ground arith)

  -- With `ConflictError` and a batch whose records have the primary key, a record under a key that the
  -- table has, after records under keys that it lacks, is refused: the error has its number and key.
  pub insert_batch_on_conflict-err :
      (rs rest : List Record) (r existing : Record)
      → opts.action ≡ conflict_error
      → All (HasPrimary t.schema.primary_key) (rs ++ r ∷ rest)
      → All (IsNew t) rs
      → at (batch_key t r) t.records ≡ some existing
      → insert_batch_on_conflict name opts (rs ++ r ∷ rest) db
        ≡ err (already_exists_at (length rs) (or_nil (at t.schema.primary_key r)))
  unfolding insert_batch_on_conflict
  insert_batch_on_conflict-err [] rest r existing act keyed new old =
      update_table-err name db t here (conflict_rows opts (r ∷ rest)) _
        (conflict_rows-err [] rest r existing act keyed new old)
  insert_batch_on_conflict-err (s ∷ rs) rest r existing act keyed new old =
      update_table-err name db t here (conflict_rows opts (s ∷ rs ++ r ∷ rest)) _
        (conflict_rows-err (s ∷ rs) rest r existing act keyed new old)
