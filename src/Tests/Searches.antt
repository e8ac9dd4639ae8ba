-- ===== src/Tests/Searches.antt =====
-- The queries, on the tables of Tests/Tables.antt.
use mathlib.Core.List.{Perm}
use alma_backend_task.Prelude.{
  ◌≡◌, ◌≤◌, refl, false, List, [], ◌∷◌, ok, length, gather, String, String-discrete,
}
use alma_backend_task.GoMap
use alma_backend_task.GoMap.{Map}
use alma_backend_task.Value.{Value, str, pos, hashable, Value-discrete}
use alma_backend_task.Db.Types.{Record}
use alma_backend_task.Db.Query.{
  QueryBuilder, scan, cut, execute_on, index_candidates, found_rows, from_candidates,
  matches_filters,
}
use alma_backend_task.Db.Validity.Limits.{length-execute_on}
use alma_backend_task.Db.Validity.Queries.{Searchable, execute_on-Perm}
use alma_backend_task.Tests.Tables.{item, items, items-IsValid}

-- By the indexed type and by the name, one row at most.
abbrev filters : Map String Value
filters = ("name", str "web") ∷ ("type", str "SERVICE") ∷ []

abbrev one_service : QueryBuilder
one_service = record {
  table_name = "app_items";
  filters = filters;
  order_by = "";
  order_desc = false;
  limit = pos 1;
}

filters-hashable : Searchable filters
unfolding hashable
filters-hashable = (refl, (refl, tt))

execute_on-Perm_example :
    (rows : List Record) × (execute_on one_service items ≡ ok (cut (pos 1) rows))
    × Perm rows (scan filters (GoMap.values items.records))
execute_on-Perm_example = execute_on-Perm one_service items items-IsValid filters-hashable

found : execute_on one_service items ≡ ok (item "web" "SERVICE" ∷ [])
unfolding execute_on index_candidates found_rows from_candidates matches_filters cut gather hashable
    GoMap.get String-discrete Value-discrete
found = refl

length-execute_on_example : length (item "web" "SERVICE" ∷ []) ≤ 1
length-execute_on_example =
    length-execute_on one_service items 0 (item "web" "SERVICE" ∷ []) refl found
