-- ===== src/Db/Validity/Gaps.antt =====
-- db/memory.go: what the operations do where their conditions fail.
use alma_backend_task.Prelude.{
  ◌+◌, String, ◌≡◌, refl, none, some, ok, arith, >>=-eq-ok, String-discrete, Result, if_pos,
}
use alma_backend_task.GoMap.{get-put}
use alma_backend_task.Value.{Value, Value-discrete, sprint}
use alma_backend_task.Db.Types.{Record, Index, Table, at}
use alma_backend_task.Db.Index.{each_index, add_field, move_field, move_values}
use alma_backend_task.Db.Index.Refs.{refs}
use alma_backend_task.Db.Index.Loop.{each_index-some}
use alma_backend_task.Db.Index.Rounds.{weight, add_field-refs}
use alma_backend_task.Db.Coherence.{IsCoherent}
use alma_backend_task.Db.Insert.{primary_key, store_new, insert_row}
use alma_backend_task.Db.Upsert.{upsert_at, merge_into}
use alma_backend_task.Db.Validity.{look_of}
use alma_backend_task.Db.Validity.Rows.{at-overlay}

ok_eq : {E A : Type 0} {a b : A} → ◌≡◌ {A = Result E A} (ok a) (ok b) → a ≡ b
ok_eq e = cc e

primary_key_of :
    (t : Table) (r : Record) (pk : Value)
    → at t.schema.primary_key r ≡ some pk
    → primary_key t r ≡ ok pk
unfolding primary_key
primary_key_of t r pk h = ground (arith, h)

upsert_at_old :
    (t t' : Table) (existing r : Record) (pk : String)
    → at pk t.records ≡ some existing
    → upsert_at pk r t ≡ ok t'
    → merge_into pk existing r t ≡ ok t'
unfolding upsert_at
upsert_at_old t t' existing r pk old h = ground (arith, old, h)

skipped :
    (existing r : Record) (pk f : String) (idx : Index)
    → at f existing ≡ none
    → move_field existing r pk f idx ≡ ok idx
unfolding move_field move_values
skipped existing r pk f idx lacks = ground (arith, lacks)

module _ (t t' : Table) (coherent : IsCoherent (look_of t) t.indexes) (f : String) (idx' : Index)
    (after : at f t'.indexes ≡ some idx') where
  -- `Insert` over a key that is there adds the references of the new record to those of the old one,
  -- which stay: the key is listed twice under a value that both have, and under a value that is gone.
  pub insert_row_over_existing :
      (r : Record) (pk : Value) (v : Value)
      → at t.schema.primary_key r ≡ some pk
      → insert_row r t ≡ ok t'
      → refs idx' v (sprint pk) ≡ weight (at (sprint pk) t.records) f v + weight (some r) f v
  unfolding insert_row store_new
  insert_row_over_existing r pk v keyed h =
      let key = sprint pk in
      let (out, e, made) =
        >>=-eq-ok (each_index (add_field r key) t.indexes) _
          (rw (primary_key_of t r pk keyed) at h) in
      let same : at f out ≡ some idx' = rw (← (ok_eq made)) at after in
      let (idx, a, b) = each_index-some (add_field r key) t.indexes e f idx' same in
      rw
        (
          add_field-refs key key f v idx r b,
          if_pos (String-discrete key key) refl,
          coherent.counted f idx a v key,
        )
        refl

  -- An upsert that gives an existing record a field which it lacked leaves the index of that field
  -- without it: the record has the value, and the index does not list its key.
  pub upsert_at_new_field :
      (existing r : Record) (pk : String) (v : Value)
      → at pk t.records ≡ some existing
      → at f existing ≡ none
      → at f r ≡ some v
      → upsert_at pk r t ≡ ok t'
      → (refs idx' v pk ≡ 0) × (weight (at pk t'.records) f v ≡ 1)
  unfolding merge_into
  upsert_at_new_field existing r pk v old lacks has h =
      let (out, e, made) =
        >>=-eq-ok (each_index (move_field existing r pk) t.indexes) _
          (upsert_at_old t t' existing r pk old h) in
      let same : at f out ≡ some idx' = rw (← (ok_eq made)) at after in
      let (idx, a, b) = each_index-some (move_field existing r pk) t.indexes e f idx' same in
      let untouched : idx ≡ idx' = ok_eq (rw (skipped existing r pk f idx lacks) at b) in
      (
        rw (← untouched, coherent.counted f idx a v pk, old, lacks) refl,
        rw
            (
              ← (ok_eq made),
              get-put,
              if_pos (String-discrete pk pk) refl,
              at-overlay,
              has,
              if_pos (Value-discrete v v) refl,
            )
            refl,
      )
