-- ===== src/Db/Validity/Groups.antt =====
-- db/memory.go: the groups of `AllGroupedBy`, by an index and by a scan, and those of a join.
use mathlib.Core.List.{Perm, append_assoc, append-nil}
use alma_backend_task.Prelude.{
  ℕ, ◌≤◌, String, ◌≡◌, refl, sym, ◌∙◌, ap, true, Option, none, some, List, [], ◌∷◌, ◌++◌, ok, ite,
  arith, All, count, count-cons, String-discrete, Option-cases, inl, inr, if_pos, if_neg, gather,
}
use alma_backend_task.GoMap
use alma_backend_task.GoMap.{Map, get-put}
use alma_backend_task.GoMap.Distinct.{count-keys-some}
use alma_backend_task.Value.{Value, Value-discrete, hashable}
use alma_backend_task.Db.Types.{Record, Index, Table, at}
use alma_backend_task.Db.Index.{entry, or_empty}
use alma_backend_task.Db.Index.Distinct.{IsIndex}
use alma_backend_task.Db.Index.Refs.{refs}
use alma_backend_task.Db.Index.Rounds.{weight}
use alma_backend_task.Db.Query.{
  Groups, index_candidates, matches_filters, kept_at, from_candidates, scan, records_at, add_group,
  group_by_index, group_by_scan,
}
use alma_backend_task.Db.Validity.{IsValid}
use alma_backend_task.Db.Validity.Queries.{candidates-Perm}

-- The records with the value in the field, in their order.
abbrev pub rows_with : String → Value → List Record → List Record
rows_with f v rs = scan ((f, v) ∷ []) rs

-- What the field holds, if anything, can be a map key.
abbrev pub IsKey : Option Value → Type 0
IsKey o = (v : Value) → o ≡ some v → hashable v ≡ true

-- A group that more records are appended to.
abbrev pub extended : Option (List Record) → List Record → Option (List Record)
extended none [] = none
extended none (r ∷ rs) = some (r ∷ rs)
extended (some old) rs = some (old ++ rs)

extended-nil : (o : Option (List Record)) → extended o [] ≡ o
extended-nil none = refl
extended-nil (some old) = rw append-nil refl

extended_one :
    (o : Option (List Record)) (r : Record) (rs : List Record)
    → extended (some (or_empty o ++ r ∷ [])) rs ≡ extended o (r ∷ rs)
extended_one none r rs = refl
extended_one (some old) r rs = rw append_assoc refl

-- `rows_with` at a record that has the field.
rows_with-cons :
    (f : String) (v w : Value) (r : Record) (rs : List Record)
    → at f r ≡ some w
    → rows_with f v (r ∷ rs) ≡ ite (Value-discrete w v) (r ∷ rows_with f v rs) (rows_with f v rs)
unfolding scan matches_filters
rows_with-cons f v w r rs e = ground (arith, e)

rows_with-none :
    (f : String) (v : Value) (r : Record) (rs : List Record)
    → at f r ≡ none
    → rows_with f v (r ∷ rs) ≡ rows_with f v rs
unfolding scan matches_filters
rows_with-none f v r rs e = ground (arith, e)

scanned :
    (w v : Value) (groups : Groups) (r : Record) (rs tail : List Record) (d : Dec (w ≡ v))
    → extended
        (ite d
          (some (or_empty (GoMap.get Value-discrete w groups) ++ r ∷ []))
          (GoMap.get Value-discrete v groups))
        tail
      ≡ extended (GoMap.get Value-discrete v groups) (ite d (r ∷ tail) tail)
scanned w v groups r rs tail (yes e) =
    rw e (extended_one (GoMap.get Value-discrete v groups) r tail)
scanned w v groups r rs tail (no n) = refl

-- A scan groups every record under its value, in the order of the records.
pub group_by_scan-groups :
    (f : String) (rs : List Record) (groups : Groups)
    → All (λ r. IsKey (at f r)) rs
    → (out : Groups) × (group_by_scan f rs groups ≡ ok out)
      × ((v : Value)
          → GoMap.get Value-discrete v out
            ≡ extended (GoMap.get Value-discrete v groups) (rows_with f v rs))
unfolding group_by_scan
group_by_scan-groups f [] groups h =
    (groups, refl, λ v. unfold scan in sym (extended-nil (GoMap.get Value-discrete v groups)))
group_by_scan-groups f (r ∷ rs) groups h = elim (Option-cases (at f r)) [
  | inl e ↦
      let (out, p, q) = group_by_scan-groups f rs groups h.1 in
      (out, rw (e, group_by_scan) p, λ v. rw (rows_with-none f v r rs e) (q v))
  | inr (w, e) ↦
      let next =
        GoMap.put Value-discrete w (or_empty (GoMap.get Value-discrete w groups) ++ r ∷ [])
          groups in
      let (out, p, q) = group_by_scan-groups f rs next h.1 in
      (
        out,
        rw (e, group_by_scan, h.0 w e) p,
        λ v.
            q v
            ∙ rw (get-put, rows_with-cons f v w r rs e)
                (scanned w v groups r rs (rows_with f v rs) (Value-discrete w v)),
      )
]

get-add_group :
    (w v : Value) (rs : List Record) (groups : Groups) (d : Dec (w ≡ v))
    → (w ≡ v → or_empty (GoMap.get Value-discrete v groups) ≡ [])
    → or_empty (GoMap.get Value-discrete v (add_group w rs groups))
      ≡ ite d rs (or_empty (GoMap.get Value-discrete v groups))
get-add_group w v [] groups (yes e) h = h e
get-add_group w v [] groups (no n) h = refl
get-add_group w v (r ∷ rs) groups (yes e) h = rw (get-put, if_pos (Value-discrete w v) e) refl
get-add_group w v (r ∷ rs) groups (no n) h = rw (get-put, if_neg (Value-discrete w v) n) refl

fewer-IsIndex :
    (w : Value) (pks : List String) (idx : Index) → IsIndex ((w, pks) ∷ idx) → IsIndex idx
fewer-IsIndex w pks idx h v = omega (arith, h v, count-cons Value-discrete v w (GoMap.keys idx))

absent_later :
    (w v : Value) (pks : List String) (idx : Index)
    → IsIndex ((w, pks) ∷ idx)
    → w ≡ v
    → entry v idx ≡ []
absent_later w v pks idx h e = elim (Option-cases (GoMap.get Value-discrete v idx)) [
  | inl n ↦ rw n refl
  | inr (s, a) ↦ absurd (
      omega (
        arith,
        h v,
        count-cons Value-discrete v w (GoMap.keys idx),
        if_pos {C = ℕ} (Value-discrete w v) e 1 0,
        count-keys-some Value-discrete v s idx a,
      ))
]

entry-cons :
    (records : Map String Record) (w v : Value) (pks : List String) (idx : Index) (d : Dec (w ≡ v))
    → ite d (records_at records pks) (records_at records (entry v idx))
      ≡ records_at records (or_empty (ite d (some pks) (GoMap.get Value-discrete v idx)))
entry-cons records w v pks idx (yes e) = refl
entry-cons records w v pks idx (no n) = refl

-- The group of a value holds the records of the keys that the index lists under it.
pub group_by_index-records :
    (records : Map String Record) (idx : Index) (v : Value)
    → IsIndex idx
    → or_empty (GoMap.get Value-discrete v (group_by_index records idx))
      ≡ records_at records (entry v idx)
unfolding group_by_index GoMap.get
group_by_index-records records [] v h = unfold records_at in refl
group_by_index-records records ((w, pks) ∷ idx) v h =
    let ih = group_by_index-records records idx v (fewer-IsIndex w pks idx h) in
    get-add_group w v (records_at records pks) (group_by_index records idx) (Value-discrete w v)
      (λ e. ih ∙ rw (absent_later w v pks idx h e) (unfold records_at in refl))
    ∙ (ap (λ rest. ite (Value-discrete w v) (records_at records pks) rest) ih
        ∙ entry-cons records w v pks idx (Value-discrete w v))

gather-eq :
    (g h : String → Option Record) (pks : List String)
    → ((pk : String) → 1 ≤ count String-discrete pk pks → g pk ≡ h pk)
    → gather g pks ≡ gather h pks
unfolding gather count
gather-eq g h [] e = refl
gather-eq g h (pk ∷ pks) e =
    rw
      (
        e pk (
            omega (
              arith,
              count-cons String-discrete pk pk pks,
              if_pos {C = ℕ} (String-discrete pk pk) refl 1 0,
            )),
        gather-eq g h pks (λ q c. e q (omega (arith, c, count-cons String-discrete q pk pks))),
      )
      refl

weighed :
    (f : String) (v : Value) (o : Option Record) → 1 ≤ weight o f v → o ≡ kept_at ((f, v) ∷ []) o
unfolding matches_filters
weighed f v none h = refl
weighed f v (some r) h = ground arith

-- A key under a value has a record with the value.
listed-kept :
    (f : String) (v : Value) (t : Table) (idx : Index) (pk : String)
    → IsValid t
    → at f t.indexes ≡ some idx
    → 1 ≤ count String-discrete pk (entry v idx)
    → at pk t.records ≡ kept_at ((f, v) ∷ []) (at pk t.records)
unfolding refs
listed-kept f v t idx pk valid i h =
    weighed f v (at pk t.records) (omega (arith, h, valid.coherent.counted f idx i v pk))

pub index-Perm :
    (f : String) (v : Value) (t : Table) (idx : Index)
    → IsValid t
    → at f t.indexes ≡ some idx
    → hashable v ≡ true
    → Perm (records_at t.records (entry v idx)) (rows_with f v (GoMap.values t.records))
unfolding records_at from_candidates index_candidates
index-Perm f v t idx valid i h =
    rw
      (gather-eq (λ pk. at pk t.records) (λ pk. kept_at ((f, v) ∷ []) (at pk t.records))
        (entry v idx) (λ pk c. listed-kept f v t idx pk valid i c))
      (candidates-Perm ((f, v) ∷ []) t (entry v idx) valid (ground (arith, i, h)))
