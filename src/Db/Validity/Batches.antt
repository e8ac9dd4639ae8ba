-- ===== src/Db/Validity/Batches.antt =====
-- db/memory.go: `InsertBatch` and `UpsertBatch` on a well-formed table.
use alma_backend_task.Prelude.{
  ℕ, suc, ◌+◌, String, ◌≡◌, ◌≢◌, refl, ap, fun_ext, Option, none, some, List, [], ◌∷◌, ◌++◌, ok,
  err, arith, All, length,
}
use mathlib.Core.Path.{subst₂}
use alma_backend_task.Value.{sprint}
use alma_backend_task.Db.Types.{
  Record, Indexes, Table, TableSchema, Outcome, no_primary_key_at, at, set_at,
}
use alma_backend_task.Db.Index.{add_field}
use alma_backend_task.Db.Index.Loop.{each_index-returns}
use alma_backend_task.Db.Index.Returns.{add_field-returns}
use alma_backend_task.Db.Coherence.{Lookup, updated, IsCoherent-ext, add-IsCoherent}
use alma_backend_task.Db.Insert.{store_new}
use alma_backend_task.Db.Batch.{
  or_nil, batch_key, validate, each_record, overwrite_row, upsert_batch_row, batch_rows,
}
use alma_backend_task.Db.Validity.{Indexed, Fits, look_of, IsValid, Becomes, Makes}
use alma_backend_task.Db.Validity.Rows.{
  merged, upsert_at-Makes, written, loop-Indexed, unindex_lem, Fits-fewer,
}

abbrev pub key_of : String → Record → String
key_of field r = sprint (or_nil (at field r))

-- What a batch makes of a map from keys to records: each record in turn, by a function of the
-- record that was there.
unfoldable pub replayed : String → (Option Record → Record → Record) → List Record → Lookup → Lookup
replayed field join [] look = look
replayed field join (r ∷ rs) look =
    replayed field join rs (updated (key_of field r) (some (join (look (key_of field r)) r)) look)

-- One after the other.
pub Becomes-trans :
    {t t₁ t₂ : Table} {look₁ look₂ : Lookup}
    → Becomes t look₁ t₁
    → Becomes t₁ look₂ t₂
    → Becomes t look₂ t₂
Becomes-trans a b = record {
  valid = b.valid;
  schema = rw b.schema a.schema;
  indexed = λ f p. a.indexed f (b.indexed f p);
  reads = b.reads;
}

pub Becomes-refl : (t : Table) → IsValid t → Becomes t (look_of t) t
Becomes-refl t v = record { valid = v; schema = refl; indexed = λ f p. p; reads = λ q. refl }

pub All-fewer :
    {t t' : Table} {look : Lookup} (rs : List Record)
    → Becomes t look t'
    → All (Fits t.indexes) rs
    → All (Fits t'.indexes) rs
All-fewer [] b fits = tt
All-fewer (r ∷ rs) b fits = (Fits-fewer b.indexed fits.0, All-fewer rs b fits.1)

-- The result of one record, as the loop needs it.
abbrev pub RowMakes :
    (Indexes → Type 0)
    → (Option Record → Record → Record)
    → (Record → Table → Outcome Table)
    → Type 0
RowMakes allowed join body =
    (r : Record) (t : Table)
    → IsValid t
    → allowed t.indexes
    → Fits t.indexes r
    → Makes t (updated (batch_key t r) (some (join (at (batch_key t r) t.records) r)) (look_of t))
        (body r t)

-- A condition on the indexes that a table with fewer of them meets too.
abbrev pub Persists : (Indexes → Type 0) → Type 0
Persists allowed =
    (idxs out : Indexes)
    → ((f : String) → Indexed out f → Indexed idxs f)
    → allowed idxs
    → allowed out

module _ {allowed : Indexes → Type 0} (persists : Persists allowed) where
  pub each_record-Makes :
      (join : Option Record → Record → Record) (body : Record → Table → Outcome Table)
      → RowMakes allowed join body
      → (rs : List Record) (t : Table) → IsValid t
      → allowed t.indexes
      → All (Fits t.indexes) rs
      → Makes t (replayed t.schema.primary_key join rs (look_of t)) (each_record body rs t)
  unfolding replayed each_record
  each_record-Makes join body row [] t v a fits = (t, refl, Becomes-refl t v)
  each_record-Makes join body row (r ∷ rs) t v a fits =
      let (t₁, e, b) = row r t v a fits.0 in
      let (t₂, e', b') =
        each_record-Makes join body row rs t₁ b.valid (persists t.indexes t₁.indexes b.indexed a)
          (All-fewer rs b fits.1) in
      (
        t₂,
        rw (e, e'),
        Becomes-trans b (
            subst₂ (λ field look. Becomes t₁ (replayed field join rs look) t₂)
              (ap (λ (s : TableSchema). s.primary_key) b.schema) (fun_ext b.reads) b'),
      )

-- No condition.
abbrev pub Always : Indexes → Type 0
Always idxs = Unit

pub Always-Persists : Persists Always
Always-Persists idxs out fewer a = tt

pub upsert_batch_row-RowMakes : RowMakes Always merged upsert_batch_row
unfolding upsert_batch_row
upsert_batch_row-RowMakes r t v a fit = upsert_at-Makes (batch_key t r) r t v fit

abbrev pub overwritten : Option Record → Record → Record
overwritten o r = r

pub overwrite_row-RowMakes : RowMakes Always overwritten overwrite_row
unfolding overwrite_row store_new
overwrite_row-RowMakes r t v a fit =
    let pk = batch_key t r in
    let (out, e, fewer, c) = unindex_lem pk t v in
    let t₁ : Table = record t { indexes = out } in
    let (out', h) =
      each_index-returns (add_field r pk) out
        (λ f idx p. add_field-returns pk f idx r (fit.has f (fewer f p))) in
    (
      record t { records = set_at pk r t.records; indexes = out' },
      rw (e, h),
      let fewer' = λ (f : String) (p : Indexed out' f).
            fewer f (loop-Indexed (add_field r pk) out h f p) in
          written t pk r out' v (Fits-fewer fewer' fit) fewer'
            (IsCoherent-ext (λ q. ground arith) (add-IsCoherent pk r h (ground arith) c)),
    )

-- Every record has the primary key.
abbrev pub HasPrimary : String → Record → Type 0
HasPrimary field r = at field r ≢ none

pub validate-ok :
    (field : String) (i : ℕ) (rs : List Record)
    → All (HasPrimary field) rs
    → validate field i rs ≡ ok tt
unfolding validate
validate-ok field i [] h = refl
validate-ok field i (r ∷ rs) h = ground (arith, validate-ok field (suc i) rs h.1)

pub validate-err :
    (field : String) (i : ℕ) (rs rest : List Record) (r : Record)
    → All (HasPrimary field) rs
    → at field r ≡ none
    → validate field i (rs ++ r ∷ rest) ≡ err (no_primary_key_at (i + length rs) field)
unfolding validate
validate-err field i [] rest r h bad = ground arith
validate-err field i (s ∷ rs) rest r h bad =
    ground (arith, validate-err field (suc i) rs rest r h.1 bad)

-- A batch in which every record has the primary key and fits goes through to the last record.
pub batch_rows-Makes :
    (join : Option Record → Record → Record) (body : Record → Table → Outcome Table)
    → RowMakes Always join body
    → (rs : List Record) (t : Table) → IsValid t
    → All (Fits t.indexes) rs
    → All (HasPrimary t.schema.primary_key) rs
    → Makes t (replayed t.schema.primary_key join rs (look_of t)) (batch_rows body rs t)
unfolding batch_rows
batch_rows-Makes join body row rs t v fits keyed =
    rw (validate-ok t.schema.primary_key 0 rs keyed)
      (each_record-Makes Always-Persists join body row rs t v tt fits)

-- One record without the primary key refuses the batch, and the error names the first such record.
pub batch_rows-err :
    (body : Record → Table → Outcome Table) (t : Table) (rs rest : List Record) (r : Record)
    → All (HasPrimary t.schema.primary_key) rs
    → at t.schema.primary_key r ≡ none
    → batch_rows body (rs ++ r ∷ rest) t ≡ err (no_primary_key_at (length rs) t.schema.primary_key)
unfolding batch_rows
batch_rows-err body t rs rest r keyed bad =
    rw (validate-err t.schema.primary_key 0 rs rest r keyed bad) (ground arith)
