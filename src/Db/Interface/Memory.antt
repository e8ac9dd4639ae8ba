-- ===== src/Db/Interface/Memory.antt =====
-- db/memory.go: the in-memory database behind the interface of db/interface.go.
use alma_backend_task.Prelude.{
  ℕ, String, length, ◌≡◌, ◌≢◌, refl, sym, ◌∙◌, ap, subst, Option, none, some, List, ok, err, inl,
  inr, Option-cases, String-discrete, if_pos, if_neg, arith,
}
use alma_backend_task.GoMap
use alma_backend_task.GoMap.{Map, get-put, get-delete}
use alma_backend_task.GoMap.Distinct.{IsMap}
use alma_backend_task.Value.{Value}
use alma_backend_task.Db.Types.{
  Record, TableSchema, Db, Outcome, table_exists, no_table, at, set_at, drop_at,
}
use alma_backend_task.Db.Tables.{create_table, new_table, drop_table, clear, has_table, find_table}
use alma_backend_task.Db.Insert.{get, get_row}
use alma_backend_task.Db.Query.{select, execute, all, count}
use alma_backend_task.Db.Query.Whole.{find_table-missing, all-found, count-found}
use alma_backend_task.Db.Validity.Schemas.{new_table-IsValid, new_table-IndexedBy}
use alma_backend_task.Db.Interface.{
  Database, memory, Call, call_create_table, call_drop_table, call_clear, call_insert, call_upsert,
  call_delete, call_insert_batch, call_upsert_batch, call_insert_on_conflict,
  call_insert_batch_on_conflict, perform,
}
use alma_backend_task.Db.Interface.Contents.{
  Sheet, Contents, sheet, view, promised, promised_get, is_there, Admits,
}
use alma_backend_task.Db.Interface.Refinement.{
  IsStored, IsSound, Agrees, AgreesDb, view-replaced, IsSound-replaced,
}
use alma_backend_task.Db.Interface.Keyed.{
  insert-Agrees, upsert-Agrees, insert_on_conflict-Agrees, delete-Agrees,
}
use alma_backend_task.Db.Interface.Batched.{
  insert_batch-Agrees, upsert_batch-Agrees, insert_batch_on_conflict-Agrees,
}

-- `All` gives the records of the contents, one for each key, and `Count` their number.
abbrev pub Listed : String → Option Sheet → Outcome (List Record) → Outcome ℕ → Type 0
Listed name none rows number = (rows ≡ err (no_table name)) × (number ≡ err (no_table name))
Listed name (some s) rows number =
    (es : Map String Record) × IsMap String-discrete es
    × ((pk : String) → at pk es ≡ s.look pk)
    × (rows ≡ ok (GoMap.values es))
    × (number ≡ ok (length (GoMap.values es)))

-- An implementation of the interface does what the methods promise of the contents that are seen.
pub record IsFaithful {S : Type 0} (d : Database S) (IsGood : S → Type 0) (seen : S → Contents)
    : Type 0 where
  pub writes :
      (c : Call) (s : S)
      → IsGood s
      → Admits c (seen s)
      → Agrees IsGood seen (perform d c s) (promised c (seen s))
  pub gets :
      (name : String) (pk : Value) (s : S) → d.get_of name pk s ≡ promised_get name pk (seen s)
  pub lists :
      (name : String) (s : S)
      → IsGood s
      → Listed name (seen s name) (d.all_of name s) (d.count_of name s)
  pub exists : (name : String) (s : S) → d.table_exists_in name s ≡ is_there (seen s name)

new_table-IsStored : (schema : TableSchema) → IsStored (new_table schema)
unfolding new_table
new_table-IsStored schema = record {
  valid = new_table-IsValid schema;
  indexed = new_table-IndexedBy schema;
}

new_table-sheet :
    (schema : TableSchema)
    → sheet (some (new_table schema)) ≡ some (record { schema = schema; look = λ q. none })
unfolding new_table GoMap.get
new_table-sheet schema = refl

create_table-Agrees :
    (schema : TableSchema) (db : Db)
    → IsSound db
    → AgreesDb (create_table schema db) (promised (call_create_table schema) (view db))
unfolding create_table promised
create_table-Agrees schema db sound = elim (Option-cases (at schema.name db.tables)) [
  | inl new ↦
      let db' : Db = record { tables = set_at schema.name (new_table schema) db.tables } in
      let here : at schema.name db'.tables ≡ some (new_table schema) =
        rw (get-put, if_pos (String-discrete schema.name schema.name) refl) refl in
      let others : (other : String)
          → schema.name ≢ other
          → at other db'.tables ≡ at other db.tables =
        λ other n. rw (get-put, if_neg (String-discrete schema.name other) n) refl in
      inl (
        db',
        rw (new, create_table) refl,
        rw
            (
              new,
              view-replaced schema.name (some (record { schema = schema; look = λ q. none })) db db'
                  (ap sheet here ∙ new_table-sheet schema) others,
            )
            refl,
        IsSound-replaced schema.name db db'
            (λ t p.
              let same : new_table schema ≡ t = cc (here, p) in
              subst IsStored same (new_table-IsStored schema))
            others sound,
      )
  | inr (t, old) ↦ inr (table_exists schema.name, rw (old, create_table) refl, rw old refl)
]

drop_table-Agrees :
    (name : String) (db : Db)
    → IsSound db
    → AgreesDb (drop_table name db) (promised (call_drop_table name) (view db))
unfolding drop_table promised
drop_table-Agrees name db sound = elim (Option-cases (at name db.tables)) [
  | inl e ↦ inr (no_table name, rw (e, drop_table) refl, rw e refl)
  | inr (t, old) ↦
      let db' : Db = record { tables = drop_at name db.tables } in
      let here : at name db'.tables ≡ none =
        rw (get-delete, if_pos (String-discrete name name) refl) refl in
      let others : (other : String) → name ≢ other → at other db'.tables ≡ at other db.tables =
        λ other n. rw (get-delete, if_neg (String-discrete name other) n) refl in
      inl (
        db',
        rw (old, drop_table) refl,
        rw (old, view-replaced name none db db' (ap sheet here) others) refl,
        IsSound-replaced name db db' (λ u p. cc (here, p)) others sound,
      )
]

clear-Agrees : (db : Db) → AgreesDb (perform memory call_clear db) (promised call_clear (view db))
unfolding clear perform promised GoMap.get
clear-Agrees db = inl (clear db, refl, refl, record { stored = λ name t p. cc })

-- Each method of `DB` that writes, on a sound database and a call that it may ask.
memory-Agrees :
    (c : Call) (db : Db)
    → IsSound db
    → Admits c (view db)
    → AgreesDb (perform memory c db) (promised c (view db))
memory-Agrees (call_create_table schema) db sound a =
    unfold perform in create_table-Agrees schema db sound
memory-Agrees (call_drop_table name) db sound a = unfold perform in drop_table-Agrees name db sound
memory-Agrees call_clear db sound a = clear-Agrees db
memory-Agrees (call_insert name r) db sound a = insert-Agrees name r db sound a
memory-Agrees (call_upsert name r) db sound a = upsert-Agrees name r db sound a
memory-Agrees (call_delete name pk) db sound a = delete-Agrees name pk db sound
memory-Agrees (call_insert_batch name rs) db sound a = insert_batch-Agrees name db sound rs a
memory-Agrees (call_upsert_batch name rs) db sound a = upsert_batch-Agrees name db sound rs a
memory-Agrees (call_insert_on_conflict name opts r) db sound a =
    insert_on_conflict-Agrees name r db sound opts a
memory-Agrees (call_insert_batch_on_conflict name opts rs) db sound a =
    insert_batch_on_conflict-Agrees name db sound opts rs a

get-promised :
    (name : String) (pk : Value) (db : Db) → get name pk db ≡ promised_get name pk (view db)
unfolding get get_row find_table promised_get
get-promised name pk db = elim (Option-cases (at name db.tables)) [
  | inl e ↦ rw (e, find_table) refl
  | inr (t, e) ↦ rw (e, find_table) refl
]

has_table-is_there : (name : String) (db : Db) → has_table name db ≡ is_there (view db name)
unfolding has_table
has_table-is_there name db = ground arith

memory-Listed :
    (name : String) (db : Db)
    → IsSound db
    → Listed name (view db name) (all name db) (count name db)
unfolding all execute select count
memory-Listed name db sound = elim (Option-cases (at name db.tables)) [
  | inl e ↦ rw (e, find_table-missing name db e) (refl, refl)
  | inr (t, e) ↦
      subst (λ o. Listed name (sheet o) (all name db) (count name db)) (sym e)
        (
          t.records,
          (sound.stored name t e).valid.distinct,
          (λ pk. refl),
          all-found name db t e,
          count-found name db t e,
        )
]

-- `DB` implements the interface.
pub memory-IsFaithful : IsFaithful memory IsSound view
memory-IsFaithful = record {
  writes = memory-Agrees;
  gets = get-promised;
  lists = memory-Listed;
  exists = has_table-is_there;
}
