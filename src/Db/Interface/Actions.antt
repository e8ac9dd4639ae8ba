-- ===== src/Db/Interface/Actions.antt =====
-- db/memory.go: the actions of `ConflictOptions` in the abstract database.
use alma_backend_task.Prelude.{◌≡◌, ◌≢◌, refl, Option, none, List, ok, err}
use alma_backend_task.Value.{Value}
use alma_backend_task.Db.Types.{
  Record, ConflictAction, conflict_error, conflict_do_nothing, conflict_do_update, ConflictOptions,
  Error,
}
use alma_backend_task.Db.Validity.Conflicts.{joined}
use alma_backend_task.Db.Validity.Fresh.{unclaimed}
use alma_backend_task.Db.Interface.Contents.{Sheet, batched, conflicted, batch_conflicted}

pub conflicted-new :
    (action : ConflictAction) (opts : ConflictOptions) (r : Record) (pk : Value)
    → conflicted action opts r pk none ≡ ok r
conflicted-new conflict_error opts r pk = refl
conflicted-new conflict_do_nothing opts r pk = refl
conflicted-new conflict_do_update opts r pk = refl

pub conflicted-joined :
    (action : ConflictAction) (opts : ConflictOptions) (r : Record) (pk : Value) (o : Option Record)
    → action ≢ conflict_error
    → conflicted action opts r pk o ≡ ok (joined opts o r)
conflicted-joined conflict_error opts r pk o n = absurd (n refl)
conflicted-joined conflict_do_nothing opts r pk o n = refl
conflicted-joined conflict_do_update opts r pk o n = refl

pub is_error : (action : ConflictAction) → Dec (action ≡ conflict_error)
is_error conflict_error = yes refl
is_error conflict_do_nothing = no (λ e. cc)
is_error conflict_do_update = no (λ e. cc)

module _ (action : ConflictAction) (opts : ConflictOptions) (rs : List Record) (s : Sheet) where
  pub batch_conflicted-free :
      action ≡ conflict_error
      → unclaimed s.schema.primary_key 0 rs s.look ≡ ok tt
      → batch_conflicted action opts rs s ≡ batched (joined opts) rs s
  batch_conflicted-free act free = rw (act, free) refl

  pub batch_conflicted-err :
      (why : Error)
      → action ≡ conflict_error
      → unclaimed s.schema.primary_key 0 rs s.look ≡ err why
      → batch_conflicted action opts rs s ≡ err why
  batch_conflicted-err why act h = rw (act, h) refl

pub batch_conflicted-joined :
    (action : ConflictAction) (opts : ConflictOptions) (rs : List Record) (s : Sheet)
    → action ≢ conflict_error
    → batch_conflicted action opts rs s ≡ batched (joined opts) rs s
batch_conflicted-joined conflict_error opts rs s n = absurd (n refl)
batch_conflicted-joined conflict_do_nothing opts rs s n = refl
batch_conflicted-joined conflict_do_update opts rs s n = refl
