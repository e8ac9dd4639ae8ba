-- ===== src/Db/Interface/Batched.antt =====
-- db/memory.go: `InsertBatch`, `UpsertBatch` and `InsertBatchOnConflict` against the abstract database.
use alma_backend_task.Prelude.{
  ℕ, suc, String, ◌≡◌, ◌⊎◌, refl, subst, ◌∙◌, some, List, [], ◌∷◌, err, inl, inr, Option-cases, All,
}
use alma_backend_task.Db.Types.{
  Record, Table, Db, conflict_error, ConflictOptions, Error, Outcome, at, no_primary_key_at,
}
use alma_backend_task.Db.Tables.{update_table}
use alma_backend_task.Db.Batch.{
  validate, overwrite_row, upsert_batch_row, batch_rows, insert_batch, upsert_batch,
}
use alma_backend_task.Db.Conflict.{conflict_rows, insert_batch_on_conflict}
use alma_backend_task.Db.Validity.{Fits, look_of}
use alma_backend_task.Db.Validity.Rows.{merged}
use alma_backend_task.Db.Validity.Batches.{replayed, overwritten, HasPrimary, validate-ok}
use alma_backend_task.Db.Validity.Schemas.{Suits, Suits-Fits}
use alma_backend_task.Db.Validity.Databases.{
  BatchFits, update_table-err, insert_batch-Performs, upsert_batch-Performs,
}
use alma_backend_task.Db.Validity.Conflicts.{joined, insert_batch_on_conflict-Performs}
use alma_backend_task.Db.Validity.Updates.{KeepsKeys}
use alma_backend_task.Db.Validity.Fresh.{
  unclaimed, unclaimed-cases, check_first-unclaimed, new_batch-Performs,
}
use alma_backend_task.Db.Coherence.{Lookup}
use alma_backend_task.Db.Interface.{
  perform, memory, Call, call_insert_batch, call_upsert_batch, call_insert_batch_on_conflict,
}
use alma_backend_task.Db.Interface.Contents.{
  Sheet, view, on_sheet, validated, batched, batch_conflicted, Resolvable, Merges, Admits, promised,
}
use alma_backend_task.Db.Interface.Actions.{
  is_error, batch_conflicted-free, batch_conflicted-err, batch_conflicted-joined,
}
use alma_backend_task.Db.Interface.Refinement.{
  IsStored, IsSound, AgreesDb, AgreesAt, on_sheet-Agrees,
}
use alma_backend_task.Db.Interface.Keyed.{sheet_of, update_table-missing, asked, Merges-KeepsKeys}

-- The checks of a batch pass, or they end with an error.
validate-cases :
    (field : String) (i : ℕ) (rs : List Record)
    → All (HasPrimary field) rs ⊎ ((e : Error) × (validate field i rs ≡ err e))
unfolding validate
validate-cases field i [] = inl tt
validate-cases field i (r ∷ rs) = elim (Option-cases (at field r)) [
  | inl e ↦ inr (no_primary_key_at i field, rw (e, validate) refl)
  | inr (v, e) ↦ elim (validate-cases field (suc i) rs) [
    | inl h ↦ inl ((λ n. cc), h)
    | inr (why, h) ↦ inr (why, rw (e, validate) h)
  ]
]

rows-Fit :
    (t : Table) (rs : List Record) → IsStored t → All (Suits t.schema) rs → All (Fits t.indexes) rs
rows-Fit t [] s h = tt
rows-Fit t (r ∷ rs) s h = (Suits-Fits t.schema t.indexes r s.indexed h.0, rows-Fit t rs s h.1)

module _ (name : String) (db : Db) (sound : IsSound db) where
  -- A method on a table and a batch: without a primary key in each record it is refused.
  validated-Agrees :
      (rs : List Record) (rows : Table → Outcome Table) (change : Sheet → Outcome Lookup)
      → ((t : Table) (e : Error) → validate t.schema.primary_key 0 rs ≡ err e → rows t ≡ err e)
      → ((t : Table)
          → at name db.tables ≡ some t
          → IsStored t
          → All (HasPrimary t.schema.primary_key) rs
          → AgreesAt name db t (update_table name rows db) (change (sheet_of t)))
      → AgreesDb (update_table name rows db) (on_sheet name (validated rs change) (view db))
  validated-Agrees rs rows change unkeyed there =
      on_sheet-Agrees name db (update_table name rows db) (validated rs change) sound
        (update_table-missing name db rows)
        (λ t e s. elim (validate-cases t.schema.primary_key 0 rs) [
          | inr (why, h) ↦
              inr (why, update_table-err name db t e rows why (unkeyed t why h), rw h refl)
          | inl keyed ↦
              let valid = validate-ok t.schema.primary_key 0 rs keyed in
              elim (there t e s keyed) [
                | inl (look, p, h) ↦ inl (look, p, rw valid h)
                | inr (why, p, h) ↦ inr (why, p, rw valid h)
              ]
        ])

  abbrev BatchAgrees : Call → Type 0
  BatchAgrees c = Admits c (view db) → AgreesDb (perform memory c db) (promised c (view db))

  pub insert_batch-Agrees : (rs : List Record) → BatchAgrees (call_insert_batch name rs)
  unfolding perform promised insert_batch batch_rows
  insert_batch-Agrees [] a = inl (db, refl, refl, sound)
  insert_batch-Agrees (r ∷ rs) a =
      validated-Agrees (r ∷ rs) (batch_rows overwrite_row (r ∷ rs)) (batched overwritten (r ∷ rs))
        (λ t e h. rw h refl)
        (λ t e s keyed. inl (
          replayed t.schema.primary_key overwritten (r ∷ rs) (look_of t),
          insert_batch-Performs name db t e (r ∷ rs) s.valid (
            rows-Fit t (r ∷ rs) s (asked name db t (λ v. All (Suits v.schema) (r ∷ rs)) e a),
            keyed,
          ),
          refl,
        ))

  pub upsert_batch-Agrees : (rs : List Record) → BatchAgrees (call_upsert_batch name rs)
  unfolding perform promised upsert_batch batch_rows
  upsert_batch-Agrees [] a = inl (db, refl, refl, sound)
  upsert_batch-Agrees (r ∷ rs) a =
      validated-Agrees (r ∷ rs) (batch_rows upsert_batch_row (r ∷ rs)) (batched merged (r ∷ rs))
        (λ t e h. rw h refl)
        (λ t e s keyed. inl (
          replayed t.schema.primary_key merged (r ∷ rs) (look_of t),
          upsert_batch-Performs name db t e (r ∷ rs) s.valid (
            rows-Fit t (r ∷ rs) s (asked name db t (λ v. All (Suits v.schema) (r ∷ rs)) e a),
            keyed,
          ),
          refl,
        ))

  -- The checks and the rows of `InsertBatchOnConflict`.
  module _ (opts : ConflictOptions) (t : Table) (e : at name db.tables ≡ some t) (s : IsStored t)
      (r : Record) (rs : List Record) (fits : BatchFits name db t e (r ∷ rs)) where
    claimed-err :
        (why : Error)
        → opts.action ≡ conflict_error
        → unclaimed t.schema.primary_key 0 (r ∷ rs) (look_of t) ≡ err why
        → insert_batch_on_conflict name opts (r ∷ rs) db ≡ err why
    unfolding insert_batch_on_conflict conflict_rows
    claimed-err why act h =
        let checked = check_first-unclaimed opts.action (r ∷ rs) t act ∙ h in
        update_table-err name db t e (conflict_rows opts (r ∷ rs)) why
          (rw (validate-ok t.schema.primary_key 0 (r ∷ rs) fits.1, checked) refl)

    conflicts-AgreesAt :
        KeepsKeys t.indexes opts
        → Resolvable opts.action t.schema.primary_key (r ∷ rs)
        → AgreesAt name db t
            (insert_batch_on_conflict name opts (r ∷ rs) db)
            (batch_conflicted opts.action opts (r ∷ rs) (sheet_of t))
    conflicts-AgreesAt keeps ready = elim (is_error opts.action) [
      | no act ↦ inl (
        replayed t.schema.primary_key (joined opts) (r ∷ rs) (look_of t),
        insert_batch_on_conflict-Performs name db t e opts (r ∷ rs) s.valid
            (record { acts = act; keeps = keeps }) fits,
        batch_conflicted-joined opts.action opts (r ∷ rs) (sheet_of t) act,
      )
      | yes act ↦
          let apart = subst (λ a. Resolvable a t.schema.primary_key (r ∷ rs)) act ready in
          elim (unclaimed-cases t.schema.primary_key 0 (r ∷ rs) (look_of t)) [
            | inl (new, free) ↦ inl (
              replayed t.schema.primary_key (joined opts) (r ∷ rs) (look_of t),
              new_batch-Performs name db t e opts act r rs s.valid fits apart new free,
              batch_conflicted-free opts.action opts (r ∷ rs) (sheet_of t) act free,
            )
            | inr (why, h) ↦ inr (
              why,
              claimed-err why act h,
              batch_conflicted-err opts.action opts (r ∷ rs) (sheet_of t) why act h,
            )
          ]
    ]

  pub insert_batch_on_conflict-Agrees :
      (opts : ConflictOptions) (rs : List Record)
      → BatchAgrees (call_insert_batch_on_conflict name opts rs)
  unfolding perform promised insert_batch_on_conflict conflict_rows
  insert_batch_on_conflict-Agrees opts [] a = inl (db, refl, refl, sound)
  insert_batch_on_conflict-Agrees opts (r ∷ rs) a =
      validated-Agrees (r ∷ rs) (conflict_rows opts (r ∷ rs))
        (batch_conflicted opts.action opts (r ∷ rs)) (λ t e h. rw h refl)
        (λ t e s keyed.
          let (suits, merges, ready) =
            asked name db t
              (λ v.
                All (Suits v.schema) (r ∷ rs)
                × Merges v.schema opts
                × Resolvable opts.action v.schema.primary_key (r ∷ rs))
              e a in
          conflicts-AgreesAt opts t e s r rs (rows-Fit t (r ∷ rs) s suits, keyed)
            (Merges-KeepsKeys t opts s merges) ready)
