-- ===== src/Tests/Interface.antt =====
-- Calls of the database interface, one after the other, from a new database.
use alma_backend_task.Prelude.{
  ◌≡◌, refl, Option, none, some, List, [], ◌∷◌, ok, err, panic, String-discrete,
}
use alma_backend_task.GoMap
use alma_backend_task.Value.{str, sprint}
use alma_backend_task.Schema.{app_items}
use alma_backend_task.Db.Types.{
  ConflictOptions, conflict_error, Error, Outcome, already_exists, no_table, table_exists,
}
use alma_backend_task.Db.Batch.{validate}
use alma_backend_task.Db.Validity.Batches.{replayed}
use alma_backend_task.Db.Validity.Fresh.{unclaimed}
use alma_backend_task.Db.Interface.{
  Call, call_create_table, call_drop_table, call_insert, call_upsert, call_delete,
  call_insert_batch, call_insert_on_conflict, call_insert_batch_on_conflict, perform_all,
}
use alma_backend_task.Db.Interface.Contents.{no_contents, on_sheet, promised}
use alma_backend_task.Db.Interface.Runs.{AdmitsAll, Keeps, memory_run-Keeps}
use alma_backend_task.Tests.Tables.{item, item-Suits}

abbrev refuse : ConflictOptions
refuse = record { action = conflict_error; update_fields = []; merge_funcs = [] }

-- Errors among the calls: a second table of the name, a key that is taken, and no table.
abbrev calls : List Call
calls =
    call_create_table app_items
    ∷ call_insert "app_items" (item "web" "SERVICE")
    ∷ call_create_table app_items
    ∷ call_upsert "app_items" (item "web" "QUEUE")
    ∷ call_insert_batch "app_items" (item "db" "DATABASE" ∷ item "db" "QUEUE" ∷ [])
    ∷ call_insert_on_conflict "app_items" refuse (item "db" "DATABASE")
    ∷ call_insert_batch_on_conflict "app_items" refuse
        (item "api" "SERVICE" ∷ item "mail" "SERVICE" ∷ [])
    ∷ call_delete "app_items" (str "web")
    ∷ call_drop_table "components"
    ∷ []

abbrev replies : List (Option Error)
replies =
    none
    ∷ none
    ∷ some (table_exists "app_items")
    ∷ none
    ∷ none
    ∷ some (already_exists (str "db"))
    ∷ none
    ∷ none
    ∷ some (no_table "components")
    ∷ []

calls-Admits : AdmitsAll calls no_contents
unfolding promised on_sheet app_items validate replayed unclaimed GoMap.get String-discrete sprint
calls-Admits = (
  tt,
  (
    (item-Suits "web" "SERVICE", refl),
    (
      tt,
      (
        item-Suits "web" "QUEUE",
        (
          (item-Suits "db" "DATABASE", (item-Suits "db" "QUEUE", tt)),
          (
            (item-Suits "db" "DATABASE", λ f merge p e. cc),
            (
              (
                (item-Suits "api" "SERVICE", (item-Suits "mail" "SERVICE", tt)),
                λ f merge p e. cc,
                (((λ e. cc), tt), (tt, tt)),
              ),
              (tt, (tt, tt)),
            ),
          ),
        ),
      ),
    ),
  ),
)

abbrev replies_of : {S : Type 0} → Outcome (S × List (Option Error)) → Outcome (List (Option Error))
replies_of (ok (s, made)) = ok made
replies_of (err e) = err e
replies_of panic = panic

calls_replied : replies_of (perform_all promised calls no_contents) ≡ ok replies
unfolding perform_all promised on_sheet app_items validate replayed unclaimed GoMap.get
    String-discrete sprint
calls_replied = refl

memory_run-Keeps_example : Keeps calls
memory_run-Keeps_example = memory_run-Keeps calls calls-Admits
