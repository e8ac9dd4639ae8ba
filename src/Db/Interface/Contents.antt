-- ===== src/Db/Interface/Contents.antt =====
-- db/interface.go: the abstract database. Each name has no table, or a schema and a map from keys to
-- records; indexes and the order of the rows are forgotten.
use alma_backend_task.Prelude.{
  String, Bool, true, false, ◌≡◌, ite, Option, none, some, List, [], ◌∷◌, ok, err, ◌>>=◌, All,
  String-discrete,
}
use alma_backend_task.Value.{Value, sprint, hashable}
use alma_backend_task.Db.Types.{
  Record, TableSchema, Table, Db, ConflictAction, conflict_error, ConflictOptions, MergeFunc,
  Outcome, table_exists, no_table, no_primary_key, already_exists, not_found, at,
}
use alma_backend_task.Db.Index.{contains}
use alma_backend_task.Db.Batch.{validate}
use alma_backend_task.Db.Coherence.{Lookup, updated}
use alma_backend_task.Db.Validity.Rows.{merged}
use alma_backend_task.Db.Validity.Batches.{replayed, overwritten}
use alma_backend_task.Db.Validity.Conflicts.{joined}
use alma_backend_task.Db.Validity.Fresh.{Apart, unclaimed}
use alma_backend_task.Db.Validity.Schemas.{Suits}
use alma_backend_task.Db.Interface.{
  Call, call_create_table, call_drop_table, call_clear, call_insert, call_upsert, call_delete,
  call_insert_batch, call_upsert_batch, call_insert_on_conflict, call_insert_batch_on_conflict,
}

pub record Sheet : Type 0 where
  pub schema : TableSchema
  pub look : Lookup

abbrev pub Contents : Type 0
Contents = String → Option Sheet

abbrev pub no_contents : Contents
no_contents name = none

abbrev pub sheet : Option Table → Option Sheet
sheet none = none
sheet (some t) = some (record { schema = t.schema; look = λ q. at q t.records })

abbrev pub view : Db → Contents
view db name = sheet (at name db.tables)

abbrev pub replaced : String → Option Sheet → Contents → Contents
replaced name o c other = ite (String-discrete name other) o (c other)

abbrev pub sheet_at : String → Option Sheet → Outcome Sheet
sheet_at name none = err (no_table name)
sheet_at name (some s) = ok s

-- A change of the records of one table.
unfoldable pub on_sheet : String → (Sheet → Outcome Lookup) → Contents → Outcome Contents
on_sheet name change c = do
  s ← sheet_at name (c name)
  look ← change s
  ok (replaced name (some (record s { look = look })) c)

-- A record is joined to what is under its key, unless that is refused.
abbrev pub at_key :
    (Value → Option Record → Outcome Record) → Record → Sheet → Option Value → Outcome Lookup
at_key join r s none = err (no_primary_key s.schema.primary_key)
at_key join r s (some pk) = do
  kept ← join pk (s.look (sprint pk))
  ok (updated (sprint pk) (some kept) s.look)

abbrev pub keyed : (Value → Option Record → Outcome Record) → Record → Sheet → Outcome Lookup
keyed join r s = at_key join r s (at s.schema.primary_key r)

-- A batch in which each record must have the primary key.
abbrev pub validated : List Record → (Sheet → Outcome Lookup) → Sheet → Outcome Lookup
validated rs change s = do _ ← validate s.schema.primary_key 0 rs; change s

-- Each record of the batch in turn.
abbrev pub batched : (Option Record → Record → Record) → List Record → Sheet → Outcome Lookup
batched join rs s = ok (replayed s.schema.primary_key join rs s.look)

-- With `ConflictError`, a record whose key is taken refuses the batch.
abbrev pub batch_conflicted :
    ConflictAction → ConflictOptions → List Record → Sheet → Outcome Lookup
batch_conflicted conflict_error opts rs s = do
  _ ← unclaimed s.schema.primary_key 0 rs s.look
  batched (joined opts) rs s
batch_conflicted action opts rs s = batched (joined opts) rs s

-- An empty batch is no call of the table.
abbrev pub unless_empty : List Record → Contents → Outcome Contents → Outcome Contents
unless_empty [] c out = ok c
unless_empty (r ∷ rs) c out = out

abbrev pub conflicted :
    ConflictAction → ConflictOptions → Record → Value → Option Record → Outcome Record
conflicted conflict_error opts r pk (some existing) = err (already_exists pk)
conflicted action opts r pk o = ok (joined opts o r)

abbrev pub created : TableSchema → Contents → Option Sheet → Outcome Contents
created schema c (some s) = err (table_exists schema.name)
created schema c none =
    ok (replaced schema.name (some (record { schema = schema; look = λ q. none })) c)

abbrev pub dropped : String → Contents → Option Sheet → Outcome Contents
dropped name c none = err (no_table name)
dropped name c (some s) = ok (replaced name none c)

-- What each method promises of the abstract database.
unfoldable pub promised : Call → Contents → Outcome Contents
promised (call_create_table schema) c = created schema c (c schema.name)
promised (call_drop_table name) c = dropped name c (c name)
promised call_clear c = ok no_contents
promised (call_insert name r) c = on_sheet name (keyed (λ pk o. ok (overwritten o r)) r) c
promised (call_upsert name r) c = on_sheet name (keyed (λ pk o. ok (merged o r)) r) c
promised (call_delete name pk) c = on_sheet name (λ s. ok (updated (sprint pk) none s.look)) c
promised (call_insert_batch name rs) c =
    unless_empty rs c (on_sheet name (validated rs (batched overwritten rs)) c)
promised (call_upsert_batch name rs) c =
    unless_empty rs c (on_sheet name (validated rs (batched merged rs)) c)
promised (call_insert_on_conflict name opts r) c =
    on_sheet name (keyed (conflicted opts.action opts r) r) c
promised (call_insert_batch_on_conflict name opts rs) c =
    unless_empty rs c (on_sheet name (validated rs (batch_conflicted opts.action opts rs)) c)

-- What the methods that read one record promise.
abbrev pub record_at : Value → Option Record → Outcome Record
record_at pk none = err (not_found pk)
record_at pk (some r) = ok r

unfoldable pub promised_get : String → Value → Contents → Outcome Record
promised_get name pk c = do s ← sheet_at name (c name); record_at pk (s.look (sprint pk))

abbrev pub is_there : Option Sheet → Bool
is_there none = false
is_there (some s) = true

-- Nothing is asked of a call on a table that is not there: it is refused.
abbrev pub OnSheet : Option Sheet → (Sheet → Type 0) → Type 0
OnSheet none P = Unit
OnSheet (some s) P = P s

abbrev pub IsUnused : Sheet → Option Value → Type 0
IsUnused s none = Unit
IsUnused s (some pk) = s.look (sprint pk) ≡ none

-- The merge functions of the fields that the schema indexes make map keys of map keys.
abbrev pub Merges : TableSchema → ConflictOptions → Type 0
Merges schema opts =
    (f : String) (merge : MergeFunc)
    → contains f schema.indexes ≡ true
    → at f opts.merge_funcs ≡ some merge
    → (old new : Value) → hashable old ≡ true
    → hashable new ≡ true
    → hashable (merge old new) ≡ true

-- With `ConflictError`, no two records of a batch have one key.
abbrev pub Resolvable : ConflictAction → String → List Record → Type 0
Resolvable conflict_error field rs = Apart field rs
Resolvable action field rs = Unit

-- What a call may ask of the database. The records have the indexed fields, with map keys in them,
-- `Insert` does not meet its key, and a batch that has `ConflictError` does not meet its own keys.
abbrev pub Admits : Call → Contents → Type 0
Admits (call_insert name r) c =
    OnSheet (c name) (λ s. Suits s.schema r × IsUnused s (at s.schema.primary_key r))
Admits (call_upsert name r) c = OnSheet (c name) (λ s. Suits s.schema r)
Admits (call_insert_batch name rs) c = OnSheet (c name) (λ s. All (Suits s.schema) rs)
Admits (call_upsert_batch name rs) c = OnSheet (c name) (λ s. All (Suits s.schema) rs)
Admits (call_insert_on_conflict name opts r) c =
    OnSheet (c name) (λ s. Suits s.schema r × Merges s.schema opts)
Admits (call_insert_batch_on_conflict name opts rs) c = OnSheet (c name) (λ s.
    All (Suits s.schema) rs × Merges s.schema opts × Resolvable opts.action s.schema.primary_key rs)
Admits _ c = Unit
