-- ===== src/Db/Join.antt =====
-- db/memory.go: `JoinBuilder`. A selection of fields is stored and not used by the code.
pub mod Loops
pub mod Nested
use Prim.Native.String.{◌++◌}
use alma_backend_task.Prelude.{
  String, Bool, Option, none, some, List, [], ◌∷◌, ok, panic, ◌>>=◌, if◌then◌else◌,
}
use mathlib.Core.List
use alma_backend_task.GoMap
use alma_backend_task.GoMap.{Map}
use alma_backend_task.Value.{Value, Value-discrete, hashable}
use alma_backend_task.Db.Types.{Record, Table, Db, Outcome, at, set_at}
use alma_backend_task.Db.Tables.{find_table}
use alma_backend_task.Db.Query.{Groups, matches_filters, group_by_scan}

-- A `JoinType` is a text, and `other_join` is any but the two constants.
pub data JoinType : Type 0 where
  inner_join left_join other_join : JoinType

pub record JoinBuilder : Type 0 where
  pub left_table : String
  pub right_table : String
  pub left_field : String
  pub right_field : String
  pub join_type : JoinType
  pub filters : Map String Value
  pub select_fields : List String

unfoldable pub join : String → String → JoinBuilder
join left right = record {
  left_table = left;
  right_table = right;
  left_field = "";
  right_field = "";
  join_type = inner_join;
  filters = [];
  select_fields = [];
}

unfoldable pub on : String → String → JoinBuilder → JoinBuilder
on left right j = record j { left_field = left; right_field = right }

unfoldable pub of_type : JoinType → JoinBuilder → JoinBuilder
of_type t j = record j { join_type = t }

unfoldable pub join_where : String → Value → JoinBuilder → JoinBuilder
join_where f v j = record j { filters = set_at f v j.filters }

unfoldable pub fields : List String → JoinBuilder → JoinBuilder
fields fs j = record j { select_fields = fs }

-- One loop of `mergeRecords`: the fields under the name of their table.
unfoldable pub prefixed : String → Record → Record → Record
prefixed table [] result = result
prefixed table ((k, v) ∷ r) result = prefixed table r (set_at (table ++ ("." ++ k)) v result)

-- The right record is `none` where the code passes nil.
unfoldable pub merge_records : JoinBuilder → Record → Option Record → Record
merge_records j left none = prefixed j.left_table left []
merge_records j left (some right) = prefixed j.right_table right (prefixed j.left_table left [])

-- `matchesFilters` of a join compares as that of a query does.
unfoldable pub join_matches : JoinBuilder → Record → Bool
join_matches j r = matches_filters j.filters r

-- `if j.matchesFilters(merged) { results = append(results, merged) }`
abbrev pub kept_row : JoinBuilder → Record → List Record
kept_row j merged = if join_matches j merged then merged ∷ [] else []

-- A left record with no partner.
abbrev pub unmatched : JoinBuilder → JoinType → Record → List Record
unmatched j left_join left = kept_row j (merge_records j left none)
unmatched j _ left = []

unfoldable pub join_rows : JoinBuilder → Record → List Record → List Record
join_rows j left [] = []
join_rows j left (right ∷ rights) =
    List.◌++◌ (kept_row j (merge_records j left (some right))) (join_rows j left rights)

-- `rightRecs, found := rightIndex[leftVal]`
abbrev pub partners : JoinBuilder → Record → Option (List Record) → List Record
partners j left none = unmatched j j.join_type left
partners j left (some rights) = join_rows j left rights

unfoldable pub join_left : JoinBuilder → Groups → Record → Outcome (List Record)
join_left j right_index left = elim (at j.left_field left) [
  | none ↦ ok (unmatched j j.join_type left)
  | some v ↦
      if hashable v then ok (partners j left (GoMap.get Value-discrete v right_index)) else panic
]

-- The loop over the left records.
unfoldable pub join_all : JoinBuilder → Groups → List Record → Outcome (List Record)
join_all j right_index [] = ok []
join_all j right_index (left ∷ lefts) = do
  rows ← join_left j right_index left
  rest ← join_all j right_index lefts
  ok (List.◌++◌ rows rest)

unfoldable pub execute_join : JoinBuilder → Db → Outcome (List Record)
execute_join j db = do
  left ← find_table j.left_table db
  right ← find_table j.right_table db
  right_index ← group_by_scan j.right_field (GoMap.values right.records) []
  join_all j right_index (GoMap.values left.records)
