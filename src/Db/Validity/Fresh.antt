-- ===== src/Db/Validity/Fresh.antt =====
-- db/memory.go: `InsertBatchOnConflict` with `ConflictError`, of records under new keys.
use alma_backend_task.Prelude.{
  ℕ, suc, String, ◌≡◌, ◌≢◌, ◌⊎◌, refl, sym, ap, ◌∙◌, arith, fun_ext, none, some, List, [], ◌∷◌, ok,
  err, String-discrete, if_neg, All, inl, inr, Option-cases,
}
use mathlib.Core.Path.{subst₂}
use alma_backend_task.Db.Types.{
  Record, Table, TableSchema, ConflictAction, Db, ConflictOptions, conflict_error, Error, Outcome,
  already_exists_at, at,
}
use alma_backend_task.Db.Batch.{or_nil, each_record, batch_key}
use alma_backend_task.Db.Conflict.{
  check_conflicts, check_first, conflict_batch_row, conflict_rows, insert_batch_on_conflict,
}
use alma_backend_task.Db.Coherence.{Lookup, updated}
use alma_backend_task.Db.Validity.{Fits, look_of, IsValid, Becomes, Makes}
use alma_backend_task.Db.Validity.Rows.{store_new-Makes}
use alma_backend_task.Db.Validity.Batches.{
  key_of, replayed, Becomes-refl, Becomes-trans, All-fewer, validate-ok,
}
use alma_backend_task.Db.Validity.Databases.{Performs, BatchFits, update_table-Performs}
use alma_backend_task.Db.Validity.Conflicts.{joined}

-- No two records of the batch have one key.
abbrev pub Apart : String → List Record → Type 0
Apart field [] = Unit
Apart field (r ∷ rs) = All (λ q. key_of field r ≢ key_of field q) rs × Apart field rs

abbrev pub IsUnder : String → Lookup → Record → Type 0
IsUnder field look r = look (key_of field r) ≡ none

-- Each record is under a key that is new when its turn comes.
abbrev Fresh : String → ConflictOptions → List Record → Lookup → Type 0
Fresh field opts [] look = Unit
Fresh field opts (r ∷ rs) look =
    IsUnder field look r
    × Fresh field opts rs
        (updated (key_of field r) (some (joined opts (look (key_of field r)) r)) look)

still-new :
    (field pk : String) (r : Record) (look : Lookup) (rs : List Record)
    → All (λ q. pk ≢ key_of field q) rs
    → All (IsUnder field look) rs
    → All (IsUnder field (updated pk (some r) look)) rs
still-new field pk r look [] apart new = tt
still-new field pk r look (q ∷ rs) apart new = (
  rw (if_neg (String-discrete pk (key_of field q)) apart.0) new.0,
  still-new field pk r look rs apart.1 new.1,
)

Apart-Fresh :
    (field : String) (opts : ConflictOptions) (rs : List Record) (look : Lookup)
    → Apart field rs
    → All (IsUnder field look) rs
    → Fresh field opts rs look
Apart-Fresh field opts [] look apart new = tt
Apart-Fresh field opts (r ∷ rs) look apart new = (
  new.0,
  Apart-Fresh field opts rs _ apart.1 (
      still-new field (key_of field r) (joined opts (look (key_of field r)) r) look rs apart.0
        new.1),
)

new_row-Makes :
    (opts : ConflictOptions) (r : Record) (t : Table)
    → IsValid t
    → Fits t.indexes r
    → at (batch_key t r) t.records ≡ none
    → Makes t
        (updated (batch_key t r) (some (joined opts (at (batch_key t r) t.records) r)) (look_of t))
        (conflict_batch_row opts r t)
unfolding conflict_batch_row
new_row-Makes opts r t v fit new =
    rw (new, conflict_batch_row) (store_new-Makes (batch_key t r) r t v fit new)

each_new-Makes :
    (opts : ConflictOptions) (rs : List Record) (t : Table)
    → IsValid t
    → All (Fits t.indexes) rs
    → Fresh t.schema.primary_key opts rs (look_of t)
    → Makes t
        (replayed t.schema.primary_key (joined opts) rs (look_of t))
        (each_record (conflict_batch_row opts) rs t)
unfolding replayed each_record
each_new-Makes opts [] t v fits fresh = (t, refl, Becomes-refl t v)
each_new-Makes opts (r ∷ rs) t v fits fresh =
    let (t₁, e, b) = new_row-Makes opts r t v fits.0 fresh.0 in
    let field : t₁.schema.primary_key ≡ t.schema.primary_key =
      ap (λ (s : TableSchema). s.primary_key) b.schema in
    let (t₂, e', b') =
      each_new-Makes opts rs t₁ b.valid (All-fewer rs b fits.1)
        (subst₂ (λ k look. Fresh k opts rs look) (sym field) (sym (fun_ext b.reads)) fresh.1) in
    (
      t₂,
      rw (e, e') refl,
      Becomes-trans b (
          subst₂ (λ k look. Becomes t₁ (replayed k (joined opts) rs look) t₂) field
            (fun_ext b.reads) b'),
    )

-- The check of a batch, read off the map from keys to records.
unfoldable pub unclaimed : String → ℕ → List Record → Lookup → Outcome Unit
unclaimed field i [] look = ok tt
unclaimed field i (r ∷ rs) look = elim (look (key_of field r)) [
  | some _ ↦ err (already_exists_at i (or_nil (at field r)))
  | none ↦ unclaimed field (suc i) rs look
]

check_conflicts-unclaimed :
    (t : Table) (i : ℕ) (rs : List Record)
    → check_conflicts t i rs ≡ unclaimed t.schema.primary_key i rs (look_of t)
unfolding check_conflicts unclaimed
check_conflicts-unclaimed t i [] = refl
check_conflicts-unclaimed t i (r ∷ rs) = ground (arith, check_conflicts-unclaimed t (suc i) rs)

pub unclaimed-cases :
    (field : String) (i : ℕ) (rs : List Record) (look : Lookup)
    → (All (IsUnder field look) rs × (unclaimed field i rs look ≡ ok tt))
      ⊎ ((e : Error) × (unclaimed field i rs look ≡ err e))
unfolding unclaimed
unclaimed-cases field i [] look = inl (tt, refl)
unclaimed-cases field i (r ∷ rs) look = elim (Option-cases (look (key_of field r))) [
  | inr (existing, old) ↦ inr (already_exists_at i (or_nil (at field r)), rw (old, unclaimed) refl)
  | inl new ↦ elim (unclaimed-cases field (suc i) rs look) [
    | inl (h, e) ↦ inl ((new, h), rw (new, unclaimed) e)
    | inr (why, e) ↦ inr (why, rw (new, unclaimed) e)
  ]
]

pub check_first-unclaimed :
    (action : ConflictAction) (rs : List Record) (t : Table)
    → action ≡ conflict_error
    → check_first action rs t ≡ unclaimed t.schema.primary_key 0 rs (look_of t)
unfolding check_first
check_first-unclaimed action rs t act = rw act (check_conflicts-unclaimed t 0 rs)

-- A batch that passes both checks goes through.
module _ (name : String) (db : Db) (t : Table) (here : at name db.tables ≡ some t)
    (opts : ConflictOptions) (act : opts.action ≡ conflict_error) where
  new_rows-Makes :
      (rs : List Record)
      → IsValid t
      → BatchFits name db t here rs
      → Apart t.schema.primary_key rs
      → All (IsUnder t.schema.primary_key (look_of t)) rs
      → check_first opts.action rs t ≡ ok tt
      → Makes t
          (replayed t.schema.primary_key (joined opts) rs (look_of t))
          (conflict_rows opts rs t)
  unfolding conflict_rows
  new_rows-Makes rs v fits apart new checked =
      rw (validate-ok t.schema.primary_key 0 rs fits.1, checked)
        (each_new-Makes opts rs t v fits.0
          (Apart-Fresh t.schema.primary_key opts rs (look_of t) apart new))

  pub new_batch-Performs :
      (r : Record) (rs : List Record)
      → IsValid t
      → BatchFits name db t here (r ∷ rs)
      → Apart t.schema.primary_key (r ∷ rs)
      → All (IsUnder t.schema.primary_key (look_of t)) (r ∷ rs)
      → unclaimed t.schema.primary_key 0 (r ∷ rs) (look_of t) ≡ ok tt
      → Performs name t
          (replayed t.schema.primary_key (joined opts) (r ∷ rs) (look_of t))
          db
          (insert_batch_on_conflict name opts (r ∷ rs) db)
  unfolding insert_batch_on_conflict
  new_batch-Performs r rs v fits apart new free =
      update_table-Performs name db t here
        (replayed t.schema.primary_key (joined opts) (r ∷ rs) (look_of t))
        (conflict_rows opts (r ∷ rs))
        (new_rows-Makes (r ∷ rs) v fits apart new
          (check_first-unclaimed opts.action (r ∷ rs) t act ∙ free))
