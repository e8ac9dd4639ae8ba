-- ===== src/Db/Join/Nested.antt =====
-- db/memory.go: the hash join of `Execute`, beside the two nested loops of Db/Join/Loops.antt.
use alma_backend_task.Prelude.{
  String, ◌≡◌, refl, ◌∙◌, ap, arith, Option, none, some, List, [], ◌∷◌, ok, All, Option-cases, inl,
  inr,
}
use Prim.Native.String.{◌++◌ as ◌+++◌}
use alma_backend_task.GoMap
use alma_backend_task.GoMap.{Map}
use alma_backend_task.Value.{Value, Value-discrete}
use alma_backend_task.Db.Types.{Record, Table, Db, at, set_at}
use alma_backend_task.Db.Tables.Order.{find_table-found}
use alma_backend_task.Db.Query.{Groups, matches_filters, scan}
use alma_backend_task.Db.Join.{
  JoinType, inner_join, left_join, other_join, JoinBuilder, prefixed, merge_records, join_matches,
  kept_row, unmatched, join_rows, partners, join_left, join_all, execute_join,
}
use alma_backend_task.Db.Join.Loops.{
  written_in, passes, kept_only, pairs, alone, sharing, pairs_or_alone, nested_loop,
}
use alma_backend_task.Db.Validity.Groups.{rows_with, IsKey, extended, group_by_scan-groups}

-- The rows of one left record, as the code makes them: with each record of its group, or alone.
abbrev pub rows_or_alone : JoinBuilder → Record → List Record → List Record
rows_or_alone j left [] = unmatched j j.join_type left
rows_or_alone j left (right ∷ rights) = join_rows j left (right ∷ rights)

abbrev pub rows_of_left : JoinBuilder → List Record → Record → Option Value → List Record
rows_of_left j rights left none = unmatched j j.join_type left
rows_of_left j rights left (some v) = rows_or_alone j left (rows_with j.right_field v rights)

row_of-prefixed :
    (table : String) (r result : Record) → prefixed table r result ≡ written_in table r result
unfolding prefixed written_in
row_of-prefixed table [] result = refl
row_of-prefixed table ((k, v) ∷ r) result =
    row_of-prefixed table r (set_at (table +++ ("." +++ k)) v result)

passes-matches : (fs : Map String Value) (r : Record) → matches_filters fs r ≡ passes fs r
unfolding matches_filters passes
passes-matches [] r = refl
passes-matches ((f, v) ∷ fs) r = elim (Option-cases (at f r)) [
  | inl e ↦ rw (e, passes) refl
  | inr (w, e) ↦ ground (arith, e, passes-matches fs r)
]

kept_row_lem :
    (j : JoinBuilder) (row row' : Record) → row ≡ row' → kept_row j row ≡ kept_only j.filters row'
unfolding join_matches
kept_row_lem j row row' e = rw (e, passes-matches) refl

join_rows_lem :
    (j : JoinBuilder) (left : Record) (rights : List Record)
    → join_rows j left rights ≡ pairs j left rights
unfolding join_rows pairs merge_records
join_rows_lem j left [] = refl
join_rows_lem j left (right ∷ rights) =
    rw
      (
        kept_row_lem j (merge_records j left (some right))
            (written_in j.right_table right (written_in j.left_table left []))
            (rw (row_of-prefixed, row_of-prefixed) refl),
        join_rows_lem j left rights,
      )
      refl

unmatched_lem :
    (j : JoinBuilder) (t : JoinType) (left : Record) → unmatched j t left ≡ alone j t left
unfolding merge_records
unmatched_lem j inner_join left = refl
unmatched_lem j other_join left = refl
unmatched_lem j left_join left =
    kept_row_lem j (merge_records j left none) (written_in j.left_table left [])
      (row_of-prefixed j.left_table left [])

rows_with-sharing :
    (f : String) (v : Value) (rights : List Record)
    → rows_with f v rights ≡ sharing (some v) f rights
unfolding scan matches_filters sharing
rows_with-sharing f v [] = refl
rows_with-sharing f v (r ∷ rs) = elim (Option-cases (at f r)) [
  | inl e ↦ rw (e, sharing) (rows_with-sharing f v rs)
  | inr (w, e) ↦ ground (arith, e, rows_with-sharing f v rs)
]

rows_or_alone_lem :
    (j : JoinBuilder) (left : Record) (rights : List Record)
    → rows_or_alone j left rights ≡ pairs_or_alone j left rights
rows_or_alone_lem j left [] = unmatched_lem j j.join_type left
rows_or_alone_lem j left (right ∷ rights) = join_rows_lem j left (right ∷ rights)

rows_of_left_lem :
    (j : JoinBuilder) (rights : List Record) (left : Record) (o : Option Value)
    → rows_of_left j rights left o ≡ pairs_or_alone j left (sharing o j.right_field rights)
unfolding sharing
rows_of_left_lem j rights left none = unmatched_lem j j.join_type left
rows_of_left_lem j rights left (some v) =
    rows_or_alone_lem j left (rows_with j.right_field v rights)
    ∙ ap (pairs_or_alone j left) (rows_with-sharing j.right_field v rights)

-- The groups are those of the right records.
abbrev GroupsOf : JoinBuilder → List Record → Groups → Type 0
GroupsOf j rights g =
    (v : Value) → GoMap.get Value-discrete v g ≡ extended none (rows_with j.right_field v rights)

partners-extended :
    (j : JoinBuilder) (left : Record) (rights : List Record)
    → partners j left (extended none rights) ≡ rows_or_alone j left rights
partners-extended j left [] = refl
partners-extended j left (right ∷ rights) = refl

join_left-rows :
    (j : JoinBuilder) (rights : List Record) (g : Groups) (left : Record) (o : Option Value)
    → GroupsOf j rights g
    → at j.left_field left ≡ o
    → IsKey o
    → join_left j g left ≡ ok (rows_of_left j rights left o)
unfolding join_left
join_left-rows j rights g left none h e k = rw (e, join_left) refl
join_left-rows j rights g left (some v) h e k =
    rw (e, join_left, k v refl, h v, partners-extended) refl

join_all-nested :
    (j : JoinBuilder) (rights : List Record) (g : Groups) (lefts : List Record)
    → GroupsOf j rights g
    → All (λ left. IsKey (at j.left_field left)) lefts
    → join_all j g lefts ≡ ok (nested_loop j rights lefts)
unfolding join_all nested_loop
join_all-nested j rights g [] h ks = refl
join_all-nested j rights g (left ∷ lefts) h ks =
    rw
      (
        join_left-rows j rights g left (at j.left_field left) h refl ks.0,
        rows_of_left_lem j rights left (at j.left_field left),
        join_all-nested j rights g lefts h ks.1,
      )
      refl

-- The tables of the join are there.
pub record HasBoth (j : JoinBuilder) (db : Db) : Type 0 where
  pub left : Table
  pub right : Table
  pub left_found : at j.left_table db.tables ≡ some left
  pub right_found : at j.right_table db.tables ≡ some right

-- On a database with the two tables, where the fields of the join hold map keys, a join of any type
-- with any filters returns the rows of two nested loops, in their order: each left record beside each
-- right record whose field of the join holds the same value, each field under the name of its table, a
-- dot and its own name. A left record without such a right one gives a row of its own fields in a left
-- join, and no row in another. A row is returned if every field of the filters holds the filter's
-- value in it.
pub execute_join-nested :
    (j : JoinBuilder) (db : Db) (b : HasBoth j db)
    → All (λ r. IsKey (at j.left_field r)) (GoMap.values b.left.records)
    → All (λ r. IsKey (at j.right_field r)) (GoMap.values b.right.records)
    → execute_join j db
      ≡ ok (nested_loop j (GoMap.values b.right.records) (GoMap.values b.left.records))
unfolding execute_join GoMap.get
execute_join-nested j db b ls rs =
    let rights = GoMap.values b.right.records in
    let (g, e, h) = group_by_scan-groups j.right_field rights [] rs in
    rw
      (
        find_table-found j.left_table db b.left b.left_found,
        find_table-found j.right_table db b.right b.right_found,
        e,
      )
      (join_all-nested j rights g (GoMap.values b.left.records) h ls)
