-- ===== src/Db/Interface/Keyed.antt =====
-- db/memory.go: `Insert`, `Upsert`, `InsertOnConflict` and `Delete` against the abstract database.
use alma_backend_task.Prelude.{
  String, ◌≡◌, refl, subst, Option, none, some, ok, err, ◌>>=◌, inl, inr, Option-cases, arith,
}
use alma_backend_task.Value.{Value, sprint}
use alma_backend_task.Db.Types.{
  Record, Table, Db, ConflictOptions, Outcome, no_table, no_primary_key, already_exists, at,
}
use alma_backend_task.Db.Tables.{find_table, update_table}
use alma_backend_task.Db.Insert.{primary_key, insert_row, insert, delete_row, delete}
use alma_backend_task.Db.Upsert.{upsert_row, upsert}
use alma_backend_task.Db.Conflict.{conflict_at, conflict_row, insert_on_conflict}
use alma_backend_task.Db.Coherence.{updated}
use alma_backend_task.Db.Validity.{Fits, look_of}
use alma_backend_task.Db.Validity.Rows.{merged, store_new-Makes}
use alma_backend_task.Db.Validity.Batches.{overwritten}
use alma_backend_task.Db.Validity.Schemas.{Suits, Suits-Fits}
use alma_backend_task.Db.Validity.Updates.{KeepsKeys}
use alma_backend_task.Db.Validity.Databases.{
  Performs, update_table-Performs, update_table-err, primary_key-ok, insert-Performs,
  upsert-Performs, delete-Performs,
}
use alma_backend_task.Db.Validity.Conflicts.{
  joined, insert_on_conflict-Performs, insert_on_conflict-err,
}
use alma_backend_task.Db.Interface.{
  perform, memory, call_insert, call_upsert, call_delete, call_insert_on_conflict,
}
use alma_backend_task.Db.Interface.Contents.{
  Sheet, sheet, view, on_sheet, keyed, conflicted, Merges, OnSheet, IsUnused, Admits, promised,
}
use alma_backend_task.Db.Interface.Actions.{conflicted-new, conflicted-joined, is_error}
use alma_backend_task.Db.Interface.Refinement.{
  IsStored, IsSound, AgreesDb, AgreesAt, on_sheet-Agrees,
}

abbrev pub sheet_of : Table → Sheet
sheet_of t = record { schema = t.schema; look = look_of t }

pub update_table-missing :
    (name : String) (db : Db) (change : Table → Outcome Table)
    → at name db.tables ≡ none
    → update_table name change db ≡ err (no_table name)
unfolding update_table find_table
update_table-missing name db change e = ground (arith, e)

primary_key-err :
    (t : Table) (r : Record)
    → at t.schema.primary_key r ≡ none
    → primary_key t r ≡ err (no_primary_key t.schema.primary_key)
unfolding primary_key
primary_key-err t r e = ground (arith, e)

-- What is asked of a call on the table that is there.
pub asked :
    (name : String) (db : Db) (t : Table) (P : Sheet → Type 0)
    → at name db.tables ≡ some t
    → OnSheet (view db name) P
    → P (sheet_of t)
asked name db t P e a = subst (λ o. OnSheet (sheet o) P) e a

pub Merges-KeepsKeys :
    (t : Table) (opts : ConflictOptions)
    → IsStored t
    → Merges t.schema opts
    → KeepsKeys t.indexes opts
Merges-KeepsKeys t opts s h f merge p e old new ho hn = h f merge (s.indexed f p) e old new ho hn

module _ (name : String) (r : Record) (db : Db) (sound : IsSound db) where
  -- A method on a table and a record: without a primary key it is refused.
  keyed-Agrees :
      (row : Table → Outcome Table) (join : Value → Option Record → Outcome Record)
      → ((t : Table)
          → at t.schema.primary_key r ≡ none
          → row t ≡ err (no_primary_key t.schema.primary_key))
      → ((t : Table)
          → at name db.tables ≡ some t
          → IsStored t
          → (pk : Value) → at t.schema.primary_key r ≡ some pk
          → AgreesAt name db t (update_table name row db) (do
            kept ← join pk (at (sprint pk) t.records)
            ok (updated (sprint pk) (some kept) (look_of t))))
      → AgreesDb (update_table name row db) (on_sheet name (keyed join r) (view db))
  keyed-Agrees row join unkeyed there =
      on_sheet-Agrees name db (update_table name row db) (keyed join r) sound
        (update_table-missing name db row)
        (λ t e s. elim (Option-cases (at t.schema.primary_key r)) [
          | inl k ↦ inr (
            no_primary_key t.schema.primary_key,
            update_table-err name db t e row (no_primary_key t.schema.primary_key) (unkeyed t k),
            rw k refl,
          )
          | inr (pk, k) ↦ elim (there t e s pk k) [
            | inl (look, p, h) ↦ inl (look, p, rw k h)
            | inr (why, p, h) ↦ inr (why, p, rw k h)
          ]
        ])

  -- `InsertOnConflict` of a record with a primary key.
  module _ (opts : ConflictOptions) (t : Table) (e : at name db.tables ≡ some t) (s : IsStored t)
      (pk : Value) (k : at t.schema.primary_key r ≡ some pk) (fit : Fits t.indexes r) where
    new-Performs :
        at (sprint pk) t.records ≡ none
        → Performs name t
            (updated (sprint pk) (some r) (look_of t))
            db
            (insert_on_conflict name opts r db)
    unfolding insert_on_conflict conflict_row conflict_at
    new-Performs new =
        update_table-Performs name db t e (updated (sprint pk) (some r) (look_of t))
          (conflict_row opts r)
          (rw (primary_key-ok name db t e r pk k, new)
            (store_new-Makes (sprint pk) r t s.valid fit new))

    conflict-AgreesAt :
        KeepsKeys t.indexes opts
        → AgreesAt name db t (insert_on_conflict name opts r db) (do
          kept ← conflicted opts.action opts r pk (at (sprint pk) t.records)
          ok (updated (sprint pk) (some kept) (look_of t)))
    conflict-AgreesAt keeps = elim (Option-cases (at (sprint pk) t.records)) [
      | inl new ↦ inl (
        updated (sprint pk) (some r) (look_of t),
        new-Performs new,
        rw (new, conflicted-new opts.action opts r pk) refl,
      )
      | inr (existing, old) ↦ elim (is_error opts.action) [
        | yes act ↦ inr (
          already_exists pk,
          insert_on_conflict-err name db t e opts r pk k existing old act,
          rw (old, act) refl,
        )
        | no act ↦ inl (
          updated (sprint pk) (some (joined opts (at (sprint pk) t.records) r)) (look_of t),
          insert_on_conflict-Performs name db t e opts r pk k s.valid
              (record { acts = act; keeps = keeps }) fit,
          rw (conflicted-joined opts.action opts r pk (at (sprint pk) t.records) act) refl,
        )
      ]
    ]

  pub insert-Agrees :
      Admits (call_insert name r) (view db)
      → AgreesDb (perform memory (call_insert name r) db) (promised (call_insert name r) (view db))
  unfolding perform promised insert insert_row
  insert-Agrees a =
      keyed-Agrees (insert_row r) (λ pk o. ok (overwritten o r))
        (λ t k. rw (primary_key-err t r k) refl)
        (λ t e s pk k.
          let (suits, new) =
            asked name db t (λ s'. Suits s'.schema r × IsUnused s' (at s'.schema.primary_key r)) e
              a in
          let fit = Suits-Fits t.schema t.indexes r s.indexed suits in
          inl (
            updated (sprint pk) (some r) (look_of t),
            insert-Performs name db t e r pk k s.valid fit (subst (IsUnused (sheet_of t)) k new),
            refl,
          ))

  pub upsert-Agrees :
      Admits (call_upsert name r) (view db)
      → AgreesDb (perform memory (call_upsert name r) db) (promised (call_upsert name r) (view db))
  unfolding perform promised upsert upsert_row
  upsert-Agrees a =
      keyed-Agrees (upsert_row r) (λ pk o. ok (merged o r)) (λ t k. rw (primary_key-err t r k) refl)
        (λ t e s pk k.
          let fit =
            Suits-Fits t.schema t.indexes r s.indexed
              (asked name db t (λ s'. Suits s'.schema r) e a) in
          inl (
            updated (sprint pk) (some (merged (at (sprint pk) t.records) r)) (look_of t),
            upsert-Performs name db t e r pk k s.valid fit,
            refl,
          ))

  pub insert_on_conflict-Agrees :
      (opts : ConflictOptions)
      → Admits (call_insert_on_conflict name opts r) (view db)
      → AgreesDb
          (perform memory (call_insert_on_conflict name opts r) db)
          (promised (call_insert_on_conflict name opts r) (view db))
  unfolding perform promised insert_on_conflict conflict_row
  insert_on_conflict-Agrees opts a =
      keyed-Agrees (conflict_row opts r) (conflicted opts.action opts r)
        (λ t k. rw (primary_key-err t r k) refl)
        (λ t e s pk k.
          let (suits, merges) =
            asked name db t (λ s'. Suits s'.schema r × Merges s'.schema opts) e a in
          conflict-AgreesAt opts t e s pk k (Suits-Fits t.schema t.indexes r s.indexed suits)
            (Merges-KeepsKeys t opts s merges))

pub delete-Agrees :
    (name : String) (pk : Value) (db : Db)
    → IsSound db
    → AgreesDb (perform memory (call_delete name pk) db) (promised (call_delete name pk) (view db))
unfolding perform promised delete
delete-Agrees name pk db sound =
    on_sheet-Agrees name db (delete name pk db) (λ s. ok (updated (sprint pk) none s.look)) sound
      (λ e. update_table-missing name db (delete_row pk) e)
      (λ t e s.
        inl (updated (sprint pk) none (look_of t), delete-Performs name db t e pk s.valid, refl))
