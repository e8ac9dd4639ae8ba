-- ===== src/Db/Types.antt =====
-- db/memory.go: the types, and the operations on whole tables. A method's error leaves the database
-- as it was, so an error comes back with no state.
use alma_backend_task.Prelude.{ℕ, String, Bool, List, Option, Result, String-discrete}
use alma_backend_task.GoMap
use alma_backend_task.GoMap.{Map}
use alma_backend_task.Value.{Value}

pub data FieldType : Type 0 where
  string int bool time json : FieldType

-- The three constants: a `ConflictAction` of the source is an int, and another value inserts.
pub data ConflictAction : Type 0 where
  conflict_error conflict_do_nothing conflict_do_update : ConflictAction

abbrev pub MergeFunc : Type 0
MergeFunc = Value → Value → Value

pub record ConflictOptions : Type 0 where
  pub action : ConflictAction
  pub update_fields : List String
  pub merge_funcs : Map String MergeFunc

pub record Field : Type 0 where
  pub name : String
  pub type : FieldType
  pub nullable : Bool

pub record TableSchema : Type 0 where
  pub name : String
  pub fields : List Field
  pub primary_key : String
  pub indexes : List String

abbrev pub Record : Type 0
Record = Map String Value

-- The primary keys under each value of an indexed field.
abbrev pub Index : Type 0
Index = Map Value (List String)

abbrev pub Indexes : Type 0
Indexes = Map String Index

pub record Table : Type 0 where
  pub schema : TableSchema
  pub records : Map String Record
  pub indexes : Indexes

pub record Db : Type 0 where
  pub tables : Map String Table

-- The errors that the methods make with `fmt.Errorf`.
pub data Error : Type 0 where
  table_exists no_table no_primary_key : String → Error
  already_exists not_found : Value → Error
  no_primary_key_at : ℕ → String → Error
  already_exists_at : ℕ → Value → Error

abbrev pub Outcome : Type 0 → Type 0
Outcome = Result Error

-- `m[k]`, `m[k] = v` and `delete(m, k)` at a text key.
abbrev pub at : {V : Type 0} → String → Map String V → Option V
at = GoMap.get String-discrete

abbrev pub set_at : {V : Type 0} → String → V → Map String V → Map String V
set_at = GoMap.put String-discrete

abbrev pub drop_at : {V : Type 0} → String → Map String V → Map String V
drop_at = GoMap.delete String-discrete
