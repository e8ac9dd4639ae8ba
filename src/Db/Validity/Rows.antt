-- ===== src/Db/Validity/Rows.antt =====
-- db/memory.go: `Insert`, `Upsert` and `Delete` on a well-formed table.
use alma_backend_task.Prelude.{
  String, ◌≡◌, refl, Option, none, some, [], ◌∷◌, ok, ite, arith, String-discrete, Option-cases,
  inl, inr, subst,
}
use alma_backend_task.GoMap.{get-put, get-delete}
use alma_backend_task.GoMap
use alma_backend_task.GoMap.Distinct.{put-IsMap, delete-IsMap}
use alma_backend_task.Value.{Value, sprint}
use alma_backend_task.Db.Types.{Record, Index, Indexes, Table, Outcome, at, set_at, drop_at}
use alma_backend_task.Db.Index.{each_index, add_field, drop_field, move_field}
use alma_backend_task.Db.Index.Loop.{each_index-some, each_index-returns}
use alma_backend_task.Db.Index.Returns.{
  add_field-returns, drop_field-returns, move_field-returns, HasKey,
}
use alma_backend_task.Db.Index.Rounds.{or_else}
use alma_backend_task.Db.Coherence.{
  IsCoherent, updated, IsCoherent-ext, add-IsCoherent, drop-IsCoherent, move-IsCoherent,
}
use alma_backend_task.Db.Insert.{store_new, unindex, delete_row}
use alma_backend_task.Db.Upsert.{overlay, merge_into, upsert_at}
use alma_backend_task.Db.Validity.{Indexed, Fits, look_of, IsValid, Becomes, Makes}

-- A loop over the indexes adds none.
pub loop-Indexed :
    (body : String → Index → Outcome Index) (idxs : Indexes) {out : Indexes}
    → each_index body idxs ≡ ok out
    → (f : String) → Indexed out f
    → Indexed idxs f
loop-Indexed body idxs {out} h f p e = elim (Option-cases (at f out)) [
  | inl n ↦ p n
  | inr (i, s) ↦ let (j, a, b) = each_index-some body idxs h f i s in ground (arith, a, e)
]

pub Fits-fewer :
    {idxs out : Indexes} {r : Record}
    → ((f : String) → Indexed out f → Indexed idxs f)
    → Fits idxs r
    → Fits out r
Fits-fewer sub h = record { has = λ f p. h.has f (sub f p) }

-- The merged record, on the keys of either.
pub at-overlay :
    (f : String) (existing r : Record)
    → at f (overlay existing r) ≡ or_else (at f r) (at f existing)
unfolding overlay GoMap.get
at-overlay f existing [] = refl
at-overlay f existing ((k, v) ∷ r) = rw get-put (ground (arith, at-overlay f existing r))

or_else-HasKey : (new old : Option Value) → HasKey new → HasKey (or_else new old)
or_else-HasKey none old (v, e, k) = cc
or_else-HasKey (some new) old h = h

overlay-Fits : (idxs : Indexes) (existing r : Record) → Fits idxs r → Fits idxs (overlay existing r)
overlay-Fits idxs existing r h = record {
  has = λ f p. rw at-overlay (or_else-HasKey (at f r) (at f existing) (h.has f p));
}

put-Fits :
    {P : Type 0} {idxs : Indexes} {r s : Record} (d : Dec P) (o : Option Record)
    → ite d (some r) o ≡ some s
    → Fits idxs r
    → (o ≡ some s → Fits idxs s)
    → Fits idxs s
put-Fits {idxs = idxs} (yes p) o e fit old = subst (Fits idxs) (cc e) fit
put-Fits (no n) o e fit old = old e

kept_some :
    {P : Type 0} (d : Dec P) (o : Option Record) {r : Record} → ite d none o ≡ some r → o ≡ some r
kept_some (yes p) o e = cc
kept_some (no n) o e = e

-- The table after a loop and a write of one key.
pub written :
    (t : Table) (pk : String) (r : Record) (out : Indexes)
    → IsValid t
    → Fits out r
    → ((f : String) → Indexed out f → Indexed t.indexes f)
    → IsCoherent (updated pk (some r) (look_of t)) out
    → Becomes t
        (updated pk (some r) (look_of t))
        (record t { records = set_at pk r t.records; indexes = out })
written t pk r out v fit fewer c = record {
  valid = record {
    coherent = IsCoherent-ext (λ q. get-put String-discrete pk q r t.records) c;
    complete = λ q s p.
        put-Fits (String-discrete pk q) (at q t.records) (rw get-put at p) fit
          (λ o. Fits-fewer fewer (v.complete q s o));
    distinct = put-IsMap String-discrete pk r t.records v.distinct;
  };
  schema = refl;
  indexed = fewer;
  reads = λ q. get-put String-discrete pk q r t.records;
}

-- The record that an upsert leaves under its key.
abbrev pub merged : Option Record → Record → Record
merged none r = r
merged (some existing) r = overlay existing r

module _ (pk : String) (r : Record) (t : Table) (v : IsValid t) (fit : Fits t.indexes r) where
  -- A record is stored under a key that had none.
  pub store_new-Makes :
      at pk t.records ≡ none → Makes t (updated pk (some r) (look_of t)) (store_new pk r t)
  unfolding store_new
  store_new-Makes new =
      let (out, h) =
        each_index-returns (add_field r pk) t.indexes
          (λ f idx p. add_field-returns pk f idx r (fit.has f p)) in
      (
        record t { records = set_at pk r t.records; indexes = out },
        rw h,
        let fewer = loop-Indexed (add_field r pk) t.indexes h in
            written t pk r out v (Fits-fewer fewer fit) fewer
              (add-IsCoherent pk r h new v.coherent),
      )

  -- A record is merged with the one under its key.
  pub merge_into-Makes :
      (existing : Record)
      → at pk t.records ≡ some existing
      → Makes t (updated pk (some (overlay existing r)) (look_of t)) (merge_into pk existing r t)
  unfolding merge_into
  merge_into-Makes existing old =
      let held = v.complete pk existing old in
      let (out, h) =
        each_index-returns (move_field existing r pk) t.indexes
          (λ f idx p. move_field-returns pk f idx existing r (held.has f p) (fit.has f p)) in
      let merged = overlay existing r in
      (
        record t { records = set_at pk merged t.records; indexes = out },
        rw h,
        let fewer = loop-Indexed (move_field existing r pk) t.indexes h in
            written t pk merged out v (Fits-fewer fewer (overlay-Fits t.indexes existing r fit))
              fewer
              (move-IsCoherent pk r existing merged h old (λ f. at-overlay f existing r)
                (λ f p e. let (w, e', k) = held.has f p in ground (arith, e, e')) v.coherent),
      )

  -- What an upsert leaves under the key.
  pub upsert_at-Makes :
      Makes t (updated pk (some (merged (at pk t.records) r)) (look_of t)) (upsert_at pk r t)
  unfolding upsert_at
  upsert_at-Makes = elim (Option-cases (at pk t.records)) [
    | inl new ↦ rw (new, upsert_at) (store_new-Makes new)
    | inr (existing, old) ↦ rw (old, upsert_at) (merge_into-Makes existing old)
  ]

module _ (pk : String) (t : Table) (v : IsValid t) where
  -- A key is taken out of the indexes.
  pub unindex_lem :
      (out : Indexes) × (unindex pk t ≡ ok (record t { indexes = out }))
      × ((f : String) → Indexed out f → Indexed t.indexes f)
      × IsCoherent (updated pk none (look_of t)) out
  unfolding unindex
  unindex_lem = elim (Option-cases (at pk t.records)) [
    | inl new ↦ (t.indexes, ground arith, λ f p. p, IsCoherent-ext (λ q. ground arith) v.coherent)
    | inr (existing, old) ↦
        let held = v.complete pk existing old in
        let (out, h) =
          each_index-returns (drop_field existing pk) t.indexes
            (λ f idx p. drop_field-returns pk f idx existing (held.has f p)) in
        (
          out,
          rw (old, unindex, h),
          loop-Indexed (drop_field existing pk) t.indexes h,
          drop-IsCoherent pk existing h old v.coherent,
        )
  ]

  -- The record of a key is deleted; a key with none is left out as before.
  pub delete_row-Makes :
      (key : Value) → sprint key ≡ pk → Makes t (updated pk none (look_of t)) (delete_row key t)
  unfolding delete_row
  delete_row-Makes key e =
      let (out, h, fewer, c) = unindex_lem in
      (
        record t { records = drop_at pk t.records; indexes = out },
        rw (e, h),
        record {
          valid = record {
            coherent = IsCoherent-ext (λ q. get-delete String-discrete pk q t.records) c;
            complete = λ q r p.
                Fits-fewer fewer
                  (v.complete q r (kept_some (String-discrete pk q) _ (rw get-delete at p)));
            distinct = delete-IsMap String-discrete pk t.records v.distinct;
          };
          schema = refl;
          indexed = fewer;
          reads = λ q. get-delete String-discrete pk q t.records;
        },
      )
