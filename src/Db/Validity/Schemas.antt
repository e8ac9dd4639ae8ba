-- ===== src/Db/Validity/Schemas.antt =====
-- db/memory.go: a new table is well formed, and indexes the fields that its schema names.
use alma_backend_task.Prelude.{
  String, ◌≡◌, ◌⊎◌, refl, true, some, List, [], ◌∷◌, arith, All, count, String-discrete, inl, inr,
  if_pos, if_neg,
}
use alma_backend_task.GoMap.{get-put}
use alma_backend_task.GoMap
use alma_backend_task.Db.Types.{Record, Index, Indexes, TableSchema, at, set_at}
use alma_backend_task.Db.Index.{contains}
use alma_backend_task.Db.Index.Refs.{refs}
use alma_backend_task.Db.Index.Returns.{HasKey}
use alma_backend_task.Db.Tables.{empty_indexes, new_table}
use alma_backend_task.Db.Validity.{Indexed, Fits, IsValid}

-- The indexed fields of a table are among those of a schema.
abbrev pub IndexedBy : TableSchema → Indexes → Type 0
IndexedBy schema idxs = (f : String) → Indexed idxs f → contains f schema.indexes ≡ true

-- The record has each of the fields that the schema indexes, with a value that can be a map key.
abbrev pub Suits : TableSchema → Record → Type 0
Suits schema r = All (λ f. HasKey (at f r)) schema.indexes

contains-HasKey :
    (r : Record) (fs : List String) (f : String)
    → All (λ g. HasKey (at g r)) fs
    → contains f fs ≡ true
    → HasKey (at f r)
unfolding contains
contains-HasKey r [] f h e = cc
contains-HasKey r (g ∷ fs) f h e = elim (String-discrete g f) [
  | yes p ↦ rw (← p) h.0
  | no n ↦ contains-HasKey r fs f h.1 (ground (arith, e))
]

pub Suits-Fits :
    (schema : TableSchema) (idxs : Indexes) (r : Record)
    → IndexedBy schema idxs
    → Suits schema r
    → Fits idxs r
Suits-Fits schema idxs r by h = record {
  has = λ f p. contains-HasKey r schema.indexes f h (by f p);
}

-- What the loop over the schema's indexes has made.
made-contains :
    (fs : List String) (made : Indexes) (f : String)
    → Indexed (empty_indexes fs made) f
    → (contains f fs ≡ true) ⊎ Indexed made f
unfolding empty_indexes contains
made-contains [] made f p = inr p
made-contains (g ∷ fs) made f p = elim (String-discrete g f) [
  | yes e ↦ inl (rw (if_pos (String-discrete g f) e) refl)
  | no n ↦ elim (made-contains fs (set_at g [] made) f p) [
    | inl h ↦ inl (rw (if_neg (String-discrete g f) n) h)
    | inr q ↦ inr (rw (get-put, if_neg (String-discrete g f) n) at q)
  ]
]

empty-put :
    (g k : String) (made : Indexes) (i : Index)
    → (at k made ≡ some i → i ≡ [])
    → at k (set_at g [] made) ≡ some i
    → i ≡ []
empty-put g k made i h q = elim (String-discrete g k) [
  | yes e ↦ cc (rw (get-put, if_pos (String-discrete g k) e) at q)
  | no n ↦ h (rw (get-put, if_neg (String-discrete g k) n) at q)
]

made-empty :
    (fs : List String) (made : Indexes)
    → ((f : String) (idx : Index) → at f made ≡ some idx → idx ≡ [])
    → (f : String) (idx : Index) → at f (empty_indexes fs made) ≡ some idx
    → idx ≡ []
unfolding empty_indexes
made-empty [] made h f idx p = h f idx p
made-empty (g ∷ fs) made h f idx p =
    made-empty fs (set_at g [] made) (λ k i q. empty-put g k made i (h k i) q) f idx p

pub new_table-IndexedBy : (schema : TableSchema) → IndexedBy schema (new_table schema).indexes
unfolding new_table
new_table-IndexedBy schema f p = elim (made-contains schema.indexes [] f p) [
  | inl h ↦ h
  | inr q ↦ absurd (q (unfold GoMap.get in refl))
]

-- The table that `CreateTable` makes of any schema is well formed.
pub new_table-IsValid : (schema : TableSchema) → IsValid (new_table schema)
unfolding new_table refs count GoMap.get
new_table-IsValid schema = record {
  coherent = record {
    counted = λ f idx p v pk. rw (made-empty schema.indexes [] (λ k i q. cc) f idx p) refl;
    maps = λ f idx p v. rw (made-empty schema.indexes [] (λ k i q. cc) f idx p) (omega arith);
  };
  complete = λ pk r p. cc;
  distinct = λ k. omega arith;
}
