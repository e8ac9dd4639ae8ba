-- ===== src/Db/Tables/Order.antt =====
-- db/memory.go: two methods on different tables, in either order, as two goroutines may run them.
use alma_backend_task.Prelude.{
  String, ◌≡◌, ◌≢◌, refl, sym, ◌∙◌, ap, some, ok, >>=-eq-ok, arith, ite, String-discrete, if_neg,
}
use alma_backend_task.GoMap.{Map, get-put}
use alma_backend_task.Db.Types.{Table, Db, Outcome, at, set_at}
use alma_backend_task.Db.Tables.{find_table, update_table}

-- What an operation that returned has done.
record Replaces (name : String) (change : Table → Outcome Table) (db db' : Db) : Type 0 where
  old : Table
  table : Table
  found : at name db.tables ≡ some old
  changed : change old ≡ ok table
  made : db' ≡ record { tables = set_at name table db.tables }

find_table-ok :
    (name : String) (db : Db) (t : Table) → find_table name db ≡ ok t → at name db.tables ≡ some t
unfolding find_table
find_table-ok name db t h = ground (arith, h)

update_table-Replaces :
    (name : String) (change : Table → Outcome Table) (db db' : Db)
    → update_table name change db ≡ ok db'
    → Replaces name change db db'
unfolding update_table
update_table-Replaces name change db db' h =
    let (t, e, h') = >>=-eq-ok (find_table name db) _ h in
    let (t', e', h'') = >>=-eq-ok (change t) _ h' in
    record { old = t; table = t'; found = find_table-ok name db t e; changed = e'; made = cc h'' }

update_table-ok :
    (name : String) (change : Table → Outcome Table) (db : Db) (t t' : Table)
    → at name db.tables ≡ some t
    → change t ≡ ok t'
    → update_table name change db ≡ ok (record { tables = set_at name t' db.tables })
unfolding update_table find_table
update_table-ok name change db t t' e h = ground (arith, e, h)

-- One name at most is the key.
crossed :
    {A : Type 0} (name other k : String) (x y z : A)
    → name ≢ other
    → (d : Dec (name ≡ k)) (e : Dec (other ≡ k)) → ite d x (ite e y z) ≡ ite e y (ite d x z)
crossed name other k x y z n (yes p) (yes q) = absurd (n (p ∙ sym q))
crossed name other k x y z n (yes p) (no m) = refl
crossed name other k x y z n (no m) e = refl

swapped :
    (name other k : String)
    → name ≢ other
    → (x y : Table) (m : Map String Table)
    → at k (set_at name x (set_at other y m)) ≡ at k (set_at other y (set_at name x m))
swapped name other k n x y m =
    rw (get-put, get-put, get-put, get-put)
      (crossed name other k (some x) (some y) (at k m) n (String-discrete name k)
        (String-discrete other k))

-- If two operations on different tables return, one after the other, they return in the other order
-- too, and the two databases have the same tables under the same names.
pub update_table_comm :
    (name other : String) (change change' : Table → Outcome Table) (db db₁ db₂ : Db)
    → name ≢ other
    → update_table name change db ≡ ok db₁
    → update_table other change' db₁ ≡ ok db₂
    → (db₃ : Db) × (db₄ : Db) × (update_table other change' db ≡ ok db₃)
      × (update_table name change db₃ ≡ ok db₄)
      × ((k : String) → at k db₄.tables ≡ at k db₂.tables)
update_table_comm name other change change' db db₁ db₂ n e₁ e₂ =
    let a = update_table-Replaces name change db db₁ e₁ in
    let b = update_table-Replaces other change' db₁ db₂ e₂ in
    let there : at other db.tables ≡ some b.old =
      rw (a.made, get-put, if_neg (String-discrete name other) n) at b.found in
    let db₃ : Db = record { tables = set_at other b.table db.tables } in
    let here : at name db₃.tables ≡ some a.old =
      rw (get-put, if_neg (String-discrete other name) (λ e. n (sym e))) a.found in
    (
      db₃,
      record { tables = set_at name a.table db₃.tables },
      update_table-ok other change' db b.old b.table there b.changed,
      update_table-ok name change db₃ a.old a.table here a.changed,
      λ k.
          swapped name other k n a.table b.table db.tables
          ∙ ap (λ (d : Db). at k d.tables)
              (sym (
                b.made
                ∙ ap (λ (d : Db). record { tables = set_at other b.table d.tables }) a.made)),
    )

pub find_table-found :
    (name : String) (db : Db) (t : Table) → at name db.tables ≡ some t → find_table name db ≡ ok t
unfolding find_table
find_table-found name db t h = rw (h, find_table) refl
