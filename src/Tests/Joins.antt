-- ===== src/Tests/Joins.antt =====
-- Groups and joins, on the tables of Tests/Tables.antt.
use alma_backend_task.Prelude.{◌≡◌, refl, [], ◌∷◌, ok, All, String-discrete}
use alma_backend_task.GoMap
use alma_backend_task.GoMap.Entries.{get-All}
use alma_backend_task.Db.Types.{Db, at}
use alma_backend_task.Db.Query.{Groups, grouped}
use alma_backend_task.Db.Join.{JoinBuilder, left_join, execute_join}
use alma_backend_task.Db.Join.Loops.{nested_loop}
use alma_backend_task.Db.Join.Nested.{HasBoth, execute_join-nested}
use alma_backend_task.Db.Validity.Groups.{IsKey}
use alma_backend_task.Db.Validity.Grouped.{HasKeys, IsGrouping, grouped-IsGrouping}
use alma_backend_task.Service.Catalog.{text-IsKey}
use alma_backend_task.Tests.Tables.{item, items, items-IsValid, link, links}

name-IsKey : IsKey (at "name" (item "web" "SERVICE"))
unfolding GoMap.get String-discrete
name-IsKey = text-IsKey "name" (item "web" "SERVICE") ("web", refl)

names-HasKeys : HasKeys "name" items
names-HasKeys pk r h =
    get-All String-discrete (λ e. IsKey (at "name" e.1)) pk r items.records (name-IsKey, tt) h

grouped-IsGrouping_example :
    (g : Groups) × (grouped "name" items ≡ ok g) × IsGrouping "name" items g
grouped-IsGrouping_example = grouped-IsGrouping "name" items items-IsValid names-HasKeys

-- App items with the connections that leave them.
abbrev both : Db
both = record { tables = ("app_items", items) ∷ ("connections", links) ∷ [] }

abbrev outgoing : JoinBuilder
outgoing = record {
  left_table = "app_items";
  right_table = "connections";
  left_field = "name";
  right_field = "source";
  join_type = left_join;
  filters = [];
  select_fields = [];
}

both-HasBoth : HasBoth outgoing both
unfolding GoMap.get String-discrete
both-HasBoth = record { left = items; right = links; left_found = refl; right_found = refl }

source-IsKey : IsKey (at "source" (link ("query:db:a" ∷ [])))
unfolding GoMap.get String-discrete
source-IsKey = text-IsKey "source" (link ("query:db:a" ∷ [])) ("web", refl)

left_keys : All (λ r. IsKey (at "name" r)) (GoMap.values both-HasBoth.left.records)
unfolding both-HasBoth
left_keys = (name-IsKey, tt)

right_keys : All (λ r. IsKey (at "source" r)) (GoMap.values both-HasBoth.right.records)
unfolding both-HasBoth
right_keys = (source-IsKey, tt)

execute_join-nested_example :
    execute_join outgoing both
    ≡ ok (nested_loop outgoing (GoMap.values links.records) (GoMap.values items.records))
unfolding both-HasBoth
execute_join-nested_example = execute_join-nested outgoing both both-HasBoth left_keys right_keys
