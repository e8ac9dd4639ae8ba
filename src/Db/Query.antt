-- ===== src/Db/Query.antt =====
-- db/memory.go: `QueryBuilder`, `Select`, `Execute`, `All`, `AllGroupedBy` and `Count`.
pub mod Whole
use alma_backend_task.Prelude.{
  ℕ, suc, String, Bool, true, false, ◌&&◌, Option, none, some, List, [], ◌∷◌, ◌++◌, ok, panic,
  ◌>>=◌, ite, length, take, gather, ltb, if◌then◌else◌,
}
use alma_backend_task.GoMap
use alma_backend_task.GoMap.{Map}
use alma_backend_task.Value.{ℤ, pos, Value, Value-discrete, hashable}
use alma_backend_task.Db.Types.{Record, Index, Indexes, Table, Db, Outcome, at, set_at}
use alma_backend_task.Db.Index.{entry, or_empty}
use alma_backend_task.Db.Tables.{find_table}

pub record QueryBuilder : Type 0 where
  pub table_name : String
  pub filters : Map String Value
  pub order_by : String
  pub order_desc : Bool
  pub limit : ℤ

unfoldable pub select : String → QueryBuilder
select name = record {
  table_name = name;
  filters = [];
  order_by = "";
  order_desc = false;
  limit = pos 0;
}

unfoldable pub where_eq : String → Value → QueryBuilder → QueryBuilder
where_eq f v q = record q { filters = set_at f v q.filters }

unfoldable pub order : String → Bool → QueryBuilder → QueryBuilder
order f desc q = record q { order_by = f; order_desc = desc }

unfoldable pub limit_to : ℤ → QueryBuilder → QueryBuilder
limit_to n q = record q { limit = n }

-- `none` is the nil slice: no filter is on an indexed field.
unfoldable pub index_candidates : Map String Value → Indexes → Outcome (Option (List String))
index_candidates [] idxs = ok none
index_candidates ((f, v) ∷ fs) idxs =
    let rest = index_candidates fs idxs in
    elim (at f idxs) [
      | some idx ↦ if hashable v then ok (some (entry v idx)) else panic
      | none ↦ rest
    ]

-- `reflect.DeepEqual` on these values is equality, but that it tells a nil slice from an empty one,
-- which are one value here.
abbrev holds : Option Value → Value → Bool
holds none expected = false
holds (some actual) expected = ite (Value-discrete actual expected) true false

unfoldable pub matches_filters : Map String Value → Record → Bool
matches_filters [] r = true
matches_filters ((f, expected) ∷ fs) r =
    let rest = matches_filters fs r in holds (at f r) expected && rest

-- The record if it passes the filters.
abbrev pub kept : Map String Value → Record → Option Record
kept fs r = if matches_filters fs r then some r else none

abbrev pub kept_at : Map String Value → Option Record → Option Record
kept_at fs none = none
kept_at fs (some r) = kept fs r

-- The loop over the candidates of an index, and the full scan.
unfoldable pub from_candidates : Map String Value → Map String Record → List String → List Record
unfolding gather
from_candidates fs records pks = gather (λ pk. kept_at fs (at pk records)) pks

unfoldable pub scan : Map String Value → List Record → List Record
scan fs [] = []
scan fs (r ∷ rs) = let rest = scan fs rs in if matches_filters fs r then r ∷ rest else rest

-- `if q.limit > 0 && len(results) > q.limit { results = results[:q.limit] }`
unfoldable pub cut : ℤ → List Record → List Record
cut (pos (suc n)) rs = if ltb (suc n) (length rs) then take (suc n) rs else rs
cut _ rs = rs

unfoldable pub found_rows : Map String Value → Table → Option (List String) → List Record
found_rows fs t (some pks) = from_candidates fs t.records pks
found_rows fs t none = scan fs (GoMap.values t.records)

unfoldable pub execute_on : QueryBuilder → Table → Outcome (List Record)
execute_on q t = do
  candidates ← index_candidates q.filters t.indexes
  ok (cut q.limit (found_rows q.filters t candidates))

unfoldable pub execute : QueryBuilder → Db → Outcome (List Record)
execute q db = do t ← find_table q.table_name db; execute_on q t

unfoldable pub all : String → Db → Outcome (List Record)
all name db = execute (select name) db

unfoldable pub count : String → Db → Outcome ℕ
count name db = do t ← find_table name db; ok (length t.records)

abbrev pub Groups : Type 0
Groups = Map Value (List Record)

-- The records under the keys of one entry of an index, those that are there.
unfoldable pub records_at : Map String Record → List String → List Record
unfolding gather
records_at records pks = gather (λ pk. at pk records) pks

abbrev pub add_group : Value → List Record → Groups → Groups
add_group v [] groups = groups
add_group v (r ∷ rs) groups = GoMap.put Value-discrete v (r ∷ rs) groups

unfoldable pub group_by_index : Map String Record → Index → Groups
group_by_index records [] = []
group_by_index records ((v, pks) ∷ idx) =
    add_group v (records_at records pks) (group_by_index records idx)

-- `result[val] = append(result[val], rec)` for each record that has the field.
unfoldable pub group_by_scan : String → List Record → Groups → Outcome Groups
group_by_scan f [] groups = ok groups
group_by_scan f (r ∷ rs) groups = elim (at f r) [
  | none ↦ group_by_scan f rs groups
  | some v ↦
      if hashable v
      then group_by_scan f rs (
          GoMap.put Value-discrete v (or_empty (GoMap.get Value-discrete v groups) ++ r ∷ [])
            groups)
      else panic
]

unfoldable pub grouped : String → Table → Outcome Groups
grouped f t = elim (at f t.indexes) [
  | some idx ↦ ok (group_by_index t.records idx)
  | none ↦ group_by_scan f (GoMap.values t.records) []
]

unfoldable pub all_grouped_by : String → String → Db → Outcome Groups
all_grouped_by name f db = do t ← find_table name db; grouped f t
