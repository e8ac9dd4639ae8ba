-- ===== src/Db/Validity/Limits.antt =====
-- db/memory.go: `Limit`.
use alma_backend_task.Prelude.{
  ℕ, suc, ◌≤◌, ◌≡◌, List, ok, >>=-eq-ok, arith, length, take, zero, [], ◌∷◌,
}
use alma_backend_task.Value.{pos}
use alma_backend_task.Db.Types.{Record, Table}
use alma_backend_task.Db.Query.{QueryBuilder, index_candidates, cut, found_rows, execute_on}

length-take : (n : ℕ) (rs : List Record) → length (take n rs) ≤ n
length-take zero rs = omega arith
length-take (suc n) [] = omega arith
length-take (suc n) (r ∷ rs) = omega (arith, length-take n rs)

length-cut : (n : ℕ) (rs : List Record) → length (cut (pos (suc n)) rs) ≤ suc n
unfolding cut
length-cut n rs = ground (arith, length-take (suc n) rs)

-- A query with a positive limit that returns gives at most so many rows.
pub length-execute_on :
    (q : QueryBuilder) (t : Table) (n : ℕ) (rows : List Record)
    → q.limit ≡ pos (suc n)
    → execute_on q t ≡ ok rows
    → length rows ≤ suc n
unfolding execute_on
length-execute_on q t n rows limited h =
    let (c, e, h') = >>=-eq-ok (index_candidates q.filters t.indexes) _ h in
    let same : cut q.limit (found_rows q.filters t c) ≡ rows = cc h' in
    rw (← same, limited) (length-cut n (found_rows q.filters t c))
