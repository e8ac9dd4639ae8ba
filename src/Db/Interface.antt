-- ===== src/Db/Interface.antt =====
-- db/interface.go: the interface that the other packages take for a database, `DB` as one, and the
-- calls of its methods that write. A context is not a part of a call: no method reads it.
pub mod Contents
pub mod Refinement
pub mod Actions
pub mod Keyed
pub mod Batched
pub mod Memory
pub mod Runs
use alma_backend_task.Prelude.{
  ℕ, String, Bool, Option, none, some, List, [], ◌∷◌, ok, err, panic, ◌>>=◌,
}
use alma_backend_task.Value.{Value}
use alma_backend_task.Db.Types.{Record, TableSchema, Db, ConflictOptions, Error, Outcome}
use alma_backend_task.Db.Tables.{create_table, drop_table, clear, has_table}
use alma_backend_task.Db.Insert.{insert, get, delete}
use alma_backend_task.Db.Upsert.{upsert}
use alma_backend_task.Db.Batch.{insert_batch, upsert_batch}
use alma_backend_task.Db.Conflict.{insert_on_conflict, insert_batch_on_conflict}
use alma_backend_task.Db.Query.{QueryBuilder, Groups, select, all, all_grouped_by, count}
use alma_backend_task.Db.Join.{JoinBuilder, join}

-- The state behind the interface is passed along. A method that only reads gives no state.
pub record Database (S : Type 0) : Type 0 where
  pub create_table_of : TableSchema → S → Outcome S
  pub drop_table_of : String → S → Outcome S
  pub table_exists_in : String → S → Bool
  pub clear_of : S → Outcome S
  pub insert_of : String → Record → S → Outcome S
  pub upsert_of : String → Record → S → Outcome S
  pub get_of : String → Value → S → Outcome Record
  pub delete_of : String → Value → S → Outcome S
  pub insert_batch_of : String → List Record → S → Outcome S
  pub upsert_batch_of : String → List Record → S → Outcome S
  pub insert_on_conflict_of : String → ConflictOptions → Record → S → Outcome S
  pub insert_batch_on_conflict_of : String → ConflictOptions → List Record → S → Outcome S
  pub select_of : String → QueryBuilder
  pub all_of : String → S → Outcome (List Record)
  pub all_grouped_by_of : String → String → S → Outcome Groups
  pub count_of : String → S → Outcome ℕ
  pub join_of : String → String → JoinBuilder

-- `var _ Database = (*DB)(nil)`
abbrev pub memory : Database Db
memory = record {
  create_table_of = create_table;
  drop_table_of = drop_table;
  table_exists_in = has_table;
  clear_of = λ db. ok (clear db);
  insert_of = insert;
  upsert_of = upsert;
  get_of = get;
  delete_of = delete;
  insert_batch_of = insert_batch;
  upsert_batch_of = upsert_batch;
  insert_on_conflict_of = insert_on_conflict;
  insert_batch_on_conflict_of = insert_batch_on_conflict;
  select_of = select;
  all_of = all;
  all_grouped_by_of = all_grouped_by;
  count_of = count;
  join_of = join;
}

-- A call of a method that writes, with its arguments.
pub data Call : Type 0 where
  call_create_table : TableSchema → Call
  call_drop_table : String → Call
  call_clear : Call
  call_insert call_upsert : String → Record → Call
  call_delete : String → Value → Call
  call_insert_batch call_upsert_batch : String → List Record → Call
  call_insert_on_conflict : String → ConflictOptions → Record → Call
  call_insert_batch_on_conflict : String → ConflictOptions → List Record → Call

unfoldable pub perform : {S : Type 0} → Database S → Call → S → Outcome S
perform d (call_create_table schema) s = d.create_table_of schema s
perform d (call_drop_table name) s = d.drop_table_of name s
perform d call_clear s = d.clear_of s
perform d (call_insert name r) s = d.insert_of name r s
perform d (call_upsert name r) s = d.upsert_of name r s
perform d (call_delete name pk) s = d.delete_of name pk s
perform d (call_insert_batch name rs) s = d.insert_batch_of name rs s
perform d (call_upsert_batch name rs) s = d.upsert_batch_of name rs s
perform d (call_insert_on_conflict name opts r) s = d.insert_on_conflict_of name opts r s
perform d (call_insert_batch_on_conflict name opts rs) s =
    d.insert_batch_on_conflict_of name opts rs s

-- What the caller sees of a call: the error, or that there was none. An error leaves the database.
abbrev pub replied : {S : Type 0} → S → Outcome S → Outcome (S × Option Error)
replied s panic = panic
replied s (err e) = ok (s, some e)
replied s (ok s') = ok (s', none)

-- One call after the other, and the replies.
unfoldable pub perform_all :
    {S : Type 0} → (Call → S → Outcome S) → List Call → S → Outcome (S × List (Option Error))
perform_all step [] s = ok (s, [])
perform_all step (c ∷ cs) s = do
  (s₁, reply) ← replied s (step c s)
  (s₂, replies) ← perform_all step cs s₁
  ok (s₂, reply ∷ replies)
