-- ===== src/Db/Join/Loops.antt =====
-- db/memory.go: what a join means, as two nested loops, apart from how `Execute` of `JoinBuilder`
-- finds its rows.
use Prim.Native.String.{◌++◌}
use alma_backend_task.Prelude.{
  String, Bool, true, false, Option, none, some, List, [], ◌∷◌, if◌then◌else◌,
}
use mathlib.Core.List
use alma_backend_task.GoMap.{Map}
use alma_backend_task.Value.{Value, Value-discrete}
use alma_backend_task.Db.Types.{Record, at, set_at}
use alma_backend_task.Db.Join.{JoinType, inner_join, left_join, other_join, JoinBuilder}

-- The fields of the record are put into the row, each as `table.field`.
unfoldable pub written_in : String → Record → Record → Record
written_in table [] row = row
written_in table (field ∷ r) row =
    written_in table r (set_at (table ++ ("." ++ field.0)) field.1 row)

-- Each field of the filters holds the filter's value.
unfoldable pub passes : Map String Value → Record → Bool
passes [] row = true
passes ((f, expected) ∷ fs) row =
    let rest = passes fs row in
    elim (at f row) [
      | none ↦ false
      | some actual ↦ elim (Value-discrete actual expected) [ yes _ ↦ rest | no _ ↦ false ]
    ]

abbrev pub kept_only : Map String Value → Record → List Record
kept_only fs row = if passes fs row then row ∷ [] else []

-- The rows of a left record beside each right one.
unfoldable pub pairs : JoinBuilder → Record → List Record → List Record
pairs j left [] = []
pairs j left (right ∷ rights) =
    List.◌++◌
      (kept_only j.filters (written_in j.right_table right (written_in j.left_table left [])))
      (pairs j left rights)

-- A left record beside nothing: only a left join has it.
abbrev pub alone : JoinBuilder → JoinType → Record → List Record
alone j inner_join left = []
alone j other_join left = []
alone j left_join left = kept_only j.filters (written_in j.left_table left [])

-- The right records whose field holds the value, if there is one.
unfoldable pub sharing : Option Value → String → List Record → List Record
sharing none f rights = []
sharing (some v) f [] = []
sharing (some v) f (right ∷ rights) =
    let rest = sharing (some v) f rights in
    elim (at f right) [
      | none ↦ rest
      | some w ↦ elim (Value-discrete w v) [ yes _ ↦ right ∷ rest | no _ ↦ rest ]
    ]

abbrev pub pairs_or_alone : JoinBuilder → Record → List Record → List Record
pairs_or_alone j left [] = alone j j.join_type left
pairs_or_alone j left (right ∷ rights) = pairs j left (right ∷ rights)

-- For each left record, the right ones are gone through anew.
unfoldable pub nested_loop : JoinBuilder → List Record → List Record → List Record
nested_loop j rights [] = []
nested_loop j rights (left ∷ lefts) =
    List.◌++◌ (pairs_or_alone j left (sharing (at j.left_field left) j.right_field rights))
      (nested_loop j rights lefts)
