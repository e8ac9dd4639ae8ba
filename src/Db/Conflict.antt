-- ===== src/Db/Conflict.antt =====
-- db/memory.go: `InsertOnConflict` and `InsertBatchOnConflict`.
use alma_backend_task.Prelude.{ℕ, suc, String, Option, none, some, List, [], ◌∷◌, ok, err, ◌>>=◌}
use alma_backend_task.GoMap
use alma_backend_task.Value.{Value, sprint}
use alma_backend_task.Db.Types.{
  Record, Indexes, Table, Db, Outcome, ConflictAction, conflict_error, conflict_do_nothing,
  conflict_do_update, ConflictOptions, MergeFunc, already_exists, already_exists_at, at, set_at,
}
use alma_backend_task.Db.Index.{move_pk}
use alma_backend_task.Db.Tables.{update_table}
use alma_backend_task.Db.Insert.{primary_key, store_new}
use alma_backend_task.Db.Batch.{or_nil, batch_key, validate, each_record}

-- What the loop over the fields changes: the existing record and the indexes.
pub record Update : Type 0 where
  pub existing : Record
  pub indexes : Indexes

-- `if idx, isIndexed := table.indexes[field]; isIndexed { … }`
unfoldable pub move_in : String → Value → Value → String → Indexes → Outcome Indexes
move_in f old new pk idxs = elim (at f idxs) [
  | none ↦ ok idxs
  | some idx ↦ do idx' ← move_pk old new pk idx; ok (set_at f idx' idxs)
]

-- The branch of a field with a merge function: the old value may be missing, and reads as nil.
unfoldable pub merge_field : MergeFunc → String → String → Value → Update → Outcome Update
merge_field merge pk f new u =
    let old = or_nil (at f u.existing) in
    let final = merge old new in
    do
      idxs ← move_in f old final pk u.indexes
      ok (record { existing = set_at f final u.existing; indexes = idxs })

-- The branch of a field with none: the index is touched only if the record has the field.
unfoldable pub replace_field : Option Value → String → String → Value → Update → Outcome Update
replace_field none pk f new u = ok (record u { existing = set_at f new u.existing })
replace_field (some old) pk f new u = do
  idxs ← move_in f old new pk u.indexes
  ok (record { existing = set_at f new u.existing; indexes = idxs })

unfoldable pub write_field :
    Option Value → Option MergeFunc → String → String → Update → Outcome Update
write_field none merge pk f u = ok u
write_field (some new) (some merge) pk f u = merge_field merge pk f new u
write_field (some new) none pk f u = replace_field (at f u.existing) pk f new u

-- One round: `newVal, hasNew := record[field]`, `mergeFn, hasMerge := opts.MergeFuncs[field]`.
unfoldable pub update_field : ConflictOptions → String → Record → String → Update → Outcome Update
update_field opts pk r f u = write_field (at f r) (at f opts.merge_funcs) pk f u

unfoldable pub update_fields :
    ConflictOptions → String → Record → List String → Update → Outcome Update
update_fields opts pk r [] u = ok u
update_fields opts pk r (f ∷ fs) u = do
  u' ← update_field opts pk r f u
  update_fields opts pk r fs u'

-- No field named means every field of the new record.
unfoldable pub fields_to_update : List String → Record → List String
fields_to_update [] r = GoMap.keys r
fields_to_update (f ∷ fs) r = f ∷ fs

unfoldable pub do_update : ConflictOptions → String → Record → Record → Table → Outcome Table
do_update opts pk existing r t = do
  u ←
      update_fields opts pk r (fields_to_update opts.update_fields r)
        (record { existing = existing; indexes = t.indexes })
  ok (record t { records = set_at pk u.existing t.records; indexes = u.indexes })

-- The `switch` on a record that exists.
unfoldable pub on_existing :
    ConflictAction → ConflictOptions → Value → Record → Record → Table → Outcome Table
on_existing conflict_error opts pk existing r t = err (already_exists pk)
on_existing conflict_do_nothing opts pk existing r t = ok t
on_existing conflict_do_update opts pk existing r t = do_update opts (sprint pk) existing r t

-- `existing, exists := table.records[pkStr]; if exists { switch … }`, and the insertion below.
unfoldable pub conflict_at :
    Option Record → ConflictOptions → Value → Record → Table → Outcome Table
conflict_at none opts pk r t = store_new (sprint pk) r t
conflict_at (some existing) opts pk r t = on_existing opts.action opts pk existing r t

unfoldable pub conflict_row : ConflictOptions → Record → Table → Outcome Table
conflict_row opts r t = do pk ← primary_key t r; conflict_at (at (sprint pk) t.records) opts pk r t

unfoldable pub insert_on_conflict : String → ConflictOptions → Record → Db → Outcome Db
insert_on_conflict name opts r = update_table name (conflict_row opts r)

-- The check of `ConflictError` against the table, before the first write.
unfoldable pub check_conflicts : Table → ℕ → List Record → Outcome Unit
check_conflicts t i [] = ok tt
check_conflicts t i (r ∷ rs) = elim (at (batch_key t r) t.records) [
  | some _ ↦ err (already_exists_at i (or_nil (at t.schema.primary_key r)))
  | none ↦ check_conflicts t (suc i) rs
]

unfoldable pub check_first : ConflictAction → List Record → Table → Outcome Unit
check_first conflict_error rs t = check_conflicts t 0 rs
check_first _ rs t = ok tt

-- The `switch` in the loop has no case for `ConflictError`, and falls through to the insertion.
unfoldable pub on_existing_in_batch :
    ConflictAction → ConflictOptions → String → Record → Record → Table → Outcome Table
on_existing_in_batch conflict_error opts pk existing r t = store_new pk r t
on_existing_in_batch conflict_do_nothing opts pk existing r t = ok t
on_existing_in_batch conflict_do_update opts pk existing r t = do_update opts pk existing r t

unfoldable pub conflict_batch_row : ConflictOptions → Record → Table → Outcome Table
conflict_batch_row opts r t = elim (at (batch_key t r) t.records) [
  | some existing ↦ on_existing_in_batch opts.action opts (batch_key t r) existing r t
  | none ↦ store_new (batch_key t r) r t
]

-- One step, where the source checks for `ConflictError` under a read lock that it gives back before it
-- takes the lock for writing.
unfoldable pub conflict_rows : ConflictOptions → List Record → Table → Outcome Table
conflict_rows opts rs t = do
  _ ← validate t.schema.primary_key 0 rs
  _ ← check_first opts.action rs t
  each_record (conflict_batch_row opts) rs t

unfoldable pub insert_batch_on_conflict : String → ConflictOptions → List Record → Db → Outcome Db
insert_batch_on_conflict name opts [] db = ok db
insert_batch_on_conflict name opts (r ∷ rs) db = update_table name (conflict_rows opts (r ∷ rs)) db
