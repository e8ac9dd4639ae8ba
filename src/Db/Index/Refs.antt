-- ===== src/Db/Index/Refs.antt =====
-- db/memory.go: how often an index lists a key under a value, before and after one append or one
-- removal.
use alma_backend_task.Prelude.{
  ℕ, ◌+◌, ◌-◌, String, ◌≡◌, refl, false, List, [], ◌∷◌, ◌++◌, ite, arith, count, erase,
  count-append, count-erase, String-discrete,
}
use alma_backend_task.GoMap
use alma_backend_task.GoMap.{get-put, get-delete}
use alma_backend_task.Value.{Value, Value-discrete}
use alma_backend_task.Db.Types.{Index}
use alma_backend_task.Db.Index.{entry, contains, delete_if_empty, append_pk, remove_pk}

unfoldable pub refs : Index → Value → String → ℕ
refs idx v pk = count String-discrete pk (entry v idx)

-- 1 if the two pairs of a value and a key are one.
unfoldable pub hit : Value → String → Value → String → ℕ
hit w q v pk = ite (Value-discrete w v) (ite (String-discrete q pk) 1 0) 0

count-one : (pk q : String) → count String-discrete pk (q ∷ []) ≡ ite (String-discrete q pk) 1 0
unfolding count
count-one pk q = refl

entry-put :
    (w v : Value) (pks : List String) (idx : Index)
    → entry v (GoMap.put Value-discrete w pks idx) ≡ ite (Value-discrete w v) pks (entry v idx)
entry-put w v pks idx = rw get-put (ground arith)

entry-delete :
    (w v : Value) (idx : Index)
    → entry v (GoMap.delete Value-discrete w idx) ≡ ite (Value-discrete w v) [] (entry v idx)
entry-delete w v idx = rw get-delete (ground arith)

pub refs-append_pk :
    (w v : Value) (q pk : String) (idx : Index)
    → refs (append_pk w q idx) v pk ≡ refs idx v pk + hit w q v pk
unfolding refs append_pk hit
refs-append_pk w v q pk idx = ground (
  arith,
  entry-put w v (entry w idx ++ q ∷ []) idx,
  count-append String-discrete pk (entry w idx) (q ∷ []),
  count-one pk q,
)

contains-cases :
    (pk : String) (pks : List String) → contains pk pks ≡ false → erase String-discrete pk pks ≡ pks
unfolding contains erase
contains-cases pk [] h = refl
contains-cases pk (p ∷ ps) h = ground (arith, contains-cases pk ps)

entry-delete_if_empty :
    (w v : Value) (ps : List String) (idx : Index)
    → entry w idx ≡ ps
    → entry v (delete_if_empty w ps idx) ≡ entry v idx
entry-delete_if_empty w v [] idx h = rw entry-delete (ground arith)
entry-delete_if_empty w v (p ∷ ps) idx h = refl

-- A removal takes the first of the key out of the entry, and leaves the others.
pub entry-remove_pk :
    (w v : Value) (q : String) (idx : Index)
    → entry v (remove_pk w q idx)
      ≡ ite (Value-discrete w v) (erase String-discrete q (entry v idx)) (entry v idx)
unfolding remove_pk
entry-remove_pk w v q idx = ground (
  arith,
  contains-cases q (entry w idx),
  entry-put w v (erase String-discrete q (entry w idx)) idx,
  entry-delete_if_empty w v (entry w idx) idx refl,
  entry-delete_if_empty w v
      (entry w (GoMap.put Value-discrete w (erase String-discrete q (entry w idx)) idx))
      (GoMap.put Value-discrete w (erase String-discrete q (entry w idx)) idx) refl,
)

pub refs-remove_pk :
    (w v : Value) (q pk : String) (idx : Index)
    → refs (remove_pk w q idx) v pk ≡ refs idx v pk - hit w q v pk
unfolding refs hit
refs-remove_pk w v q pk idx =
    ground (arith, entry-remove_pk w v q idx, count-erase String-discrete pk q (entry v idx))
