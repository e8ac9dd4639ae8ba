-- ===== src/Db/Query/Whole.antt =====
-- db/memory.go: `All` and `Count` of a table.
use alma_backend_task.Prelude.{
  suc, String, ◌≡◌, refl, ap, none, some, List, [], ◌∷◌, ok, err, length, arith,
}
use alma_backend_task.GoMap
use alma_backend_task.GoMap.{Map}
use alma_backend_task.Db.Types.{Record, Table, Db, no_table, at}
use alma_backend_task.Db.Tables.{find_table}
use alma_backend_task.Db.Tables.Order.{find_table-found}
use alma_backend_task.Db.Query.{
  select, matches_filters, scan, index_candidates, found_rows, cut, execute_on, execute, all, count,
}

scan-nil : (rs : List Record) → scan [] rs ≡ rs
unfolding scan matches_filters
scan-nil [] = refl
scan-nil (r ∷ rs) = rw (scan-nil rs) refl

pub all-found :
    (name : String) (db : Db) (t : Table)
    → at name db.tables ≡ some t
    → all name db ≡ ok (GoMap.values t.records)
unfolding all execute select execute_on index_candidates found_rows cut
all-found name db t here =
    rw (find_table-found name db t here) (ap (λ rs. ok rs) (scan-nil (GoMap.values t.records)))

length-values : (m : Map String Record) → length (GoMap.values m) ≡ length m
length-values [] = refl
length-values (e ∷ m) = ap suc (length-values m)

pub count-found :
    (name : String) (db : Db) (t : Table)
    → at name db.tables ≡ some t
    → count name db ≡ ok (length (GoMap.values t.records))
unfolding count
count-found name db t here = rw (find_table-found name db t here, length-values) refl

pub find_table-missing :
    (name : String) (db : Db) → at name db.tables ≡ none → find_table name db ≡ err (no_table name)
unfolding find_table
find_table-missing name db e = ground (arith, e)

pub all-missing :
    (name : String) (db : Db) → at name db.tables ≡ none → all name db ≡ err (no_table name)
unfolding all execute select
all-missing name db e = rw (find_table-missing name db e) refl
