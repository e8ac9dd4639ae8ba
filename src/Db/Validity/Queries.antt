-- ===== src/Db/Validity/Queries.antt =====
-- db/memory.go: a query by an index finds what a full scan finds.
use mathlib.Core.List.{Perm}
use mathlib.Core.List.Perm
use alma_backend_task.Prelude.{
  String, ◌≡◌, ◌≢◌, refl, true, Option, none, some, List, [], ◌∷◌, ok, arith, All, count,
  String-discrete, Option-cases, inl, inr, Bool-cases, if_pos, gather, gather-Perm,
}
use alma_backend_task.GoMap
use alma_backend_task.GoMap.{Map}
use alma_backend_task.GoMap.Distinct.{entries, count-keys-some}
use alma_backend_task.Value.{Value, Value-discrete, hashable}
use alma_backend_task.Db.Types.{Record, Index, Indexes, Table, Outcome, at}
use alma_backend_task.Db.Index.{entry}
use alma_backend_task.Db.Index.Refs.{refs}
use alma_backend_task.Db.Index.Rounds.{weight}
use alma_backend_task.Db.Query.{
  QueryBuilder, index_candidates, matches_filters, kept_at, from_candidates, scan, cut, found_rows,
  execute_on,
}
use alma_backend_task.Db.Validity.{IsValid}

-- What the candidates of a query are: the keys under the value of one of its filters.
record IsChoice (fs : Map String Value) (idxs : Indexes) (pks : List String) : Type 0 where
  field : String
  value : Value
  index : Index
  indexed : at field idxs ≡ some index
  keys : pks ≡ entry value index
  matched : (r : Record) → matches_filters fs r ≡ true → at field r ≡ some value

matches-cons :
    (f : String) (v : Value) (fs : Map String Value) (r : Record)
    → matches_filters ((f, v) ∷ fs) r ≡ true
    → (at f r ≡ some v) × (matches_filters fs r ≡ true)
unfolding matches_filters
matches-cons f v fs r h = ground arith

IsChoice-cons :
    (f : String) (v : Value) {fs : Map String Value} {idxs : Indexes} {pks : List String}
    → IsChoice fs idxs pks
    → IsChoice ((f, v) ∷ fs) idxs pks
IsChoice-cons f v {fs} c = record {
  field = c.field;
  value = c.value;
  index = c.index;
  indexed = c.indexed;
  keys = c.keys;
  matched = λ r h. c.matched r (matches-cons f v fs r h).1;
}

some_list :
    {xs ys : List String}
    → ◌≡◌ {A = Outcome (Option (List String))} (ok (some xs)) (ok (some ys))
    → xs ≡ ys
some_list e = cc e

index_candidates-IsChoice :
    (fs : Map String Value) (idxs : Indexes) (pks : List String)
    → index_candidates fs idxs ≡ ok (some pks)
    → IsChoice fs idxs pks
unfolding index_candidates
index_candidates-IsChoice [] idxs pks h = cc
index_candidates-IsChoice ((f, v) ∷ fs) idxs pks h = elim (Option-cases (at f idxs)) [
  | inl a ↦ IsChoice-cons f v (index_candidates-IsChoice fs idxs pks (ground (arith, a)))
  | inr (idx, a) ↦ record {
    field = f;
    value = v;
    index = idx;
    indexed = a;
    keys = ground (arith, a);
    matched = λ r m. (matches-cons f v fs r m).0;
  }
]

-- The scan goes over the keys as well as over the values.
scan-eq-gather :
    (fs : Map String Value) (m es : Map String Record)
    → All (λ (e : String × Record). at e.0 m ≡ some e.1) es
    → scan fs (GoMap.values es) ≡ gather (λ pk. kept_at fs (at pk m)) (GoMap.keys es)
unfolding scan gather
scan-eq-gather fs m [] h = refl
scan-eq-gather fs m ((k, r) ∷ es) h = rw (scan-eq-gather fs m es h.1, h.0) (ground arith)

kept_some :
    (fs : Map String Value) (o : Option Record)
    → kept_at fs o ≢ none
    → (r : Record) × (o ≡ some r) × (matches_filters fs r ≡ true)
kept_some fs none h = absurd (h refl)
kept_some fs (some r) h = elim (Bool-cases (matches_filters fs r)) [
  | inl m ↦ (r, refl, m)
  | inr m ↦ absurd (h (rw m refl))
]

-- A matching key is a candidate once, as it is a key of the table once.
candidate_once :
    (fs : Map String Value) (t : Table) (pks : List String)
    → IsValid t
    → IsChoice fs t.indexes pks
    → (pk : String) → kept_at fs (at pk t.records) ≢ none
    → count String-discrete pk pks ≡ count String-discrete pk (GoMap.keys t.records)
unfolding refs
candidate_once fs t pks v c pk k =
    let (r, held, m) = kept_some fs (at pk t.records) k in
    let value = c.matched r m in
    let listed : count String-discrete pk pks ≡ weight (at pk t.records) c.field c.value =
      rw c.keys (v.coherent.counted c.field c.index c.indexed c.value pk) in
    let one : weight (at pk t.records) c.field c.value ≡ 1 =
      rw (held, value, if_pos (Value-discrete c.value c.value) refl) refl in
    omega (arith, listed, one, v.distinct pk, count-keys-some String-discrete pk r t.records held)

-- The candidates' records are those of the scan, in some order.
pub candidates-Perm :
    (fs : Map String Value) (t : Table) (pks : List String)
    → IsValid t
    → index_candidates fs t.indexes ≡ ok (some pks)
    → Perm (from_candidates fs t.records pks) (scan fs (GoMap.values t.records))
unfolding from_candidates
candidates-Perm fs t pks v h =
    rw (scan-eq-gather fs t.records t.records (entries String-discrete t.records v.distinct)) (
      gather-Perm String-discrete (λ pk. kept_at fs (at pk t.records)) pks (GoMap.keys t.records)
        (candidate_once fs t pks v (index_candidates-IsChoice fs t.indexes pks h)))

-- The value of each filter can be a map key.
abbrev pub Searchable : Map String Value → Type 0
Searchable = All (λ (e : String × Value). hashable e.1 ≡ true)

index_candidates-returns :
    (fs : Map String Value) (idxs : Indexes)
    → Searchable fs
    → (c : Option (List String)) × (index_candidates fs idxs ≡ ok c)
unfolding index_candidates
index_candidates-returns [] idxs h = (none, refl)
index_candidates-returns ((f, v) ∷ fs) idxs h =
    let (c, e) = index_candidates-returns fs idxs h.1 in
    elim (Option-cases (at f idxs)) [
      | inl a ↦ (c, ground (arith, a, e))
      | inr (idx, a) ↦ (some (entry v idx), ground (arith, a, h.0))
    ]

rows-Perm :
    (fs : Map String Value) (t : Table) (c : Option (List String))
    → IsValid t
    → index_candidates fs t.indexes ≡ ok c
    → Perm (found_rows fs t c) (scan fs (GoMap.values t.records))
unfolding found_rows
rows-Perm fs t (some pks) v h = candidates-Perm fs t pks v h
rows-Perm fs t none v h = Perm.refl _

-- A query on a well-formed table returns, and but for the limit its rows are those of a full scan,
-- in some order, each as often.
pub execute_on-Perm :
    (q : QueryBuilder) (t : Table)
    → IsValid t
    → Searchable q.filters
    → (rows : List Record) × (execute_on q t ≡ ok (cut q.limit rows))
      × Perm rows (scan q.filters (GoMap.values t.records))
unfolding execute_on
execute_on-Perm q t v h =
    let (c, e) = index_candidates-returns q.filters t.indexes h in
    (found_rows q.filters t c, rw e refl, rows-Perm q.filters t c v e)
