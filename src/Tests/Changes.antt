-- ===== src/Tests/Changes.antt =====
-- The methods that change a table, on the tables of Tests/Tables.antt.
use alma_backend_task.Prelude.{
  String, ◌≡◌, refl, ◌+◌, none, some, List, [], ◌∷◌, ok, err, String-discrete,
}
use alma_backend_task.GoMap
use alma_backend_task.Value.{str, sprint, hashable, Value-discrete}
use alma_backend_task.Schema.{app_items, connections}
use alma_backend_task.Db.Types.{
  Db, already_exists_at, Record, Table, ConflictOptions, conflict_error, at, no_primary_key_at,
  not_found,
}
use alma_backend_task.Db.Insert.{insert, insert_row, delete, store_new, primary_key, get}
use alma_backend_task.Db.Upsert.{upsert, upsert_at, merge_into, overlay}
use alma_backend_task.Db.Batch.{or_nil, batch_key, insert_batch, upsert_batch}
use alma_backend_task.Db.Conflict.{insert_on_conflict, insert_batch_on_conflict}
use alma_backend_task.Db.Index.{
  each_index, add_field, append_to_index, append_pk, move_field, move_values,
}
use alma_backend_task.Db.Index.Refs.{refs}
use alma_backend_task.Db.Index.Rounds.{weight}
use alma_backend_task.Db.Coherence.{updated}
use alma_backend_task.Db.Validity.{look_of}
use alma_backend_task.Db.Validity.Rows.{merged}
use alma_backend_task.Db.Validity.Batches.{HasPrimary, replayed, overwritten}
use alma_backend_task.Db.Validity.Databases.{
  Performs, BatchFits, insert-Performs, upsert-Performs, delete-Performs, insert_batch-Performs,
  upsert_batch-Performs, batches_refused,
}
use alma_backend_task.Db.Validity.Conflicts.{
  joined, Resolves, insert_batch_on_conflict-Performs, insert_on_conflict-Performs,
}
use alma_backend_task.Db.Validity.RoundTrips.{insert-get, upsert-get, delete-get}
use alma_backend_task.Db.Validity.Refusals.{IsNew, insert_batch_on_conflict-err}
use alma_backend_task.Db.Validity.Gaps.{insert_row_over_existing, upsert_at_new_field}
use alma_backend_task.Processor.Flush.{merge_ids}
use alma_backend_task.Processor.Options.{merge_ids-Resolves}
use alma_backend_task.Tests.Tables.{
  item, items, database, items-IsValid, item-Fits, link, links, links_database, links-IsValid,
  link-Fits, bare, bare-IsCoherent,
}

items_here : at "app_items" database.tables ≡ some items
unfolding GoMap.get String-discrete
items_here = refl

links_here : at "connections" links_database.tables ≡ some links
unfolding GoMap.get String-discrete
links_here = refl

item_key : (name type : String) → at items.schema.primary_key (item name type) ≡ some (str name)
unfolding GoMap.get String-discrete app_items
item_key name type = refl

link_key : (ids : List String) → at links.schema.primary_key (link ids) ≡ some (str "web:db")
unfolding GoMap.get String-discrete connections
link_key ids = refl

db_new : at (sprint (str "db")) items.records ≡ none
unfolding GoMap.get String-discrete sprint
db_new = refl

item_has : (name type : String) → HasPrimary items.schema.primary_key (item name type)
unfolding GoMap.get String-discrete app_items
item_has name type h = cc

link_has : (ids : List String) → HasPrimary links.schema.primary_key (link ids)
unfolding GoMap.get String-discrete connections
link_has ids h = cc

-- Two records of one key, and one of another.
abbrev batch : List Record
batch = item "db" "DATABASE" ∷ item "web" "INTERNET" ∷ item "db" "QUEUE" ∷ []

batch-Fits : BatchFits "app_items" database items items_here batch
batch-Fits = (
  (item-Fits "db" "DATABASE", (item-Fits "web" "INTERNET", (item-Fits "db" "QUEUE", tt))),
  (item_has "db" "DATABASE", (item_has "web" "INTERNET", (item_has "db" "QUEUE", tt))),
)

abbrev link_batch : List Record
link_batch = link ("query:db:b" ∷ []) ∷ link ("query:db:a" ∷ []) ∷ []

link_batch-Fits : BatchFits "connections" links_database links links_here link_batch
link_batch-Fits = (
  (link-Fits ("query:db:b" ∷ []), (link-Fits ("query:db:a" ∷ []), tt)),
  (link_has ("query:db:b" ∷ []), (link_has ("query:db:a" ∷ []), tt)),
)

links-Resolves : Resolves merge_ids links.indexes
unfolding GoMap.get String-discrete
links-Resolves = merge_ids-Resolves links.indexes refl

abbrev strict : ConflictOptions
strict = record { action = conflict_error; update_fields = []; merge_funcs = [] }

abbrev nameless : Record
nameless = ("type", str "SERVICE") ∷ []

nameless_key : at items.schema.primary_key nameless ≡ none
unfolding GoMap.get String-discrete app_items
nameless_key = refl

web_old : at (sprint (str "web")) items.records ≡ some (item "web" "SERVICE")
unfolding GoMap.get String-discrete sprint
web_old = refl

insert-Performs_example :
    Performs "app_items" items
      (updated (sprint (str "db")) (some (item "db" "DATABASE")) (look_of items))
      database
      (insert "app_items" (item "db" "DATABASE") database)
insert-Performs_example =
    insert-Performs "app_items" database items items_here (item "db" "DATABASE") (str "db")
      (item_key "db" "DATABASE") items-IsValid (item-Fits "db" "DATABASE") db_new

upsert-Performs_example :
    Performs "app_items" items
      (updated
        (sprint (str "web"))
        (some (merged (at (sprint (str "web")) items.records) (item "web" "INTERNET")))
        (look_of items))
      database
      (upsert "app_items" (item "web" "INTERNET") database)
upsert-Performs_example =
    upsert-Performs "app_items" database items items_here (item "web" "INTERNET") (str "web")
      (item_key "web" "INTERNET") items-IsValid (item-Fits "web" "INTERNET")

delete-Performs_example :
    Performs "app_items" items
      (updated (sprint (str "web")) none (look_of items))
      database
      (delete "app_items" (str "web") database)
delete-Performs_example =
    delete-Performs "app_items" database items items_here (str "web") items-IsValid

insert_batch-Performs_example :
    Performs "app_items" items
      (replayed items.schema.primary_key overwritten batch (look_of items))
      database
      (insert_batch "app_items" batch database)
insert_batch-Performs_example =
    insert_batch-Performs "app_items" database items items_here batch items-IsValid batch-Fits

upsert_batch-Performs_example :
    Performs "app_items" items
      (replayed items.schema.primary_key merged batch (look_of items))
      database
      (upsert_batch "app_items" batch database)
upsert_batch-Performs_example =
    upsert_batch-Performs "app_items" database items items_here batch items-IsValid batch-Fits

batches_refused_example :
    (insert_batch "app_items" (item "db" "QUEUE" ∷ nameless ∷ []) database
      ≡ err (no_primary_key_at 1 items.schema.primary_key))
    × (upsert_batch "app_items" (item "db" "QUEUE" ∷ nameless ∷ []) database
        ≡ err (no_primary_key_at 1 items.schema.primary_key))
batches_refused_example =
    batches_refused "app_items" database items items_here (item "db" "QUEUE" ∷ []) [] nameless
      (item_has "db" "QUEUE", tt) nameless_key

insert_batch_on_conflict-Performs_example :
    Performs "connections" links
      (replayed links.schema.primary_key (joined merge_ids) link_batch (look_of links))
      links_database
      (insert_batch_on_conflict "connections" merge_ids link_batch links_database)
insert_batch_on_conflict-Performs_example =
    insert_batch_on_conflict-Performs "connections" links_database links links_here merge_ids
      link_batch links-IsValid links-Resolves link_batch-Fits

insert_on_conflict-Performs_example :
    Performs "connections" links
      (updated
        (sprint (str "web:db"))
        (some
          (joined merge_ids (at (sprint (str "web:db")) links.records) (link ("query:db:b" ∷ []))))
        (look_of links))
      links_database
      (insert_on_conflict "connections" merge_ids (link ("query:db:b" ∷ [])) links_database)
insert_on_conflict-Performs_example =
    insert_on_conflict-Performs "connections" links_database links links_here merge_ids
      (link ("query:db:b" ∷ [])) (str "web:db") (link_key ("query:db:b" ∷ [])) links-IsValid
      links-Resolves (link-Fits ("query:db:b" ∷ []))

-- The table that `Insert` makes over the key `web`.
abbrev doubled : Table
doubled = record {
  schema = app_items;
  records = ("web", item "web" "SERVICE") ∷ [];
  indexes = ("type", (str "SERVICE", "web" ∷ "web" ∷ []) ∷ []) ∷ [];
}

doubled_index : at "type" doubled.indexes ≡ some ((str "SERVICE", "web" ∷ "web" ∷ []) ∷ [])
unfolding GoMap.get String-discrete
doubled_index = refl

doubled_made : insert_row (item "web" "SERVICE") items ≡ ok doubled
unfolding insert_row store_new primary_key sprint each_index add_field append_to_index append_pk
    app_items GoMap.get GoMap.put String-discrete Value-discrete hashable
doubled_made = refl

insert_row_over_existing_example :
    refs ((str "SERVICE", "web" ∷ "web" ∷ []) ∷ []) (str "SERVICE") (sprint (str "web"))
    ≡ weight (at (sprint (str "web")) items.records) "type" (str "SERVICE")
      + weight (some (item "web" "SERVICE")) "type" (str "SERVICE")
insert_row_over_existing_example =
    insert_row_over_existing items doubled items-IsValid.coherent "type"
      ((str "SERVICE", "web" ∷ "web" ∷ []) ∷ []) doubled_index (item "web" "SERVICE") (str "web")
      (str "SERVICE") (item_key "web" "SERVICE") doubled_made

-- The table that `Upsert` makes of the row without the indexed field.
abbrev unlisted : Table
unlisted = record {
  schema = app_items;
  records = ("web", item "web" "SERVICE") ∷ [];
  indexes = ("type", []) ∷ [];
}

unlisted_index : at "type" unlisted.indexes ≡ some []
unfolding GoMap.get String-discrete
unlisted_index = refl

unlisted_made : upsert_at "web" (item "web" "SERVICE") bare ≡ ok unlisted
unfolding upsert_at merge_into overlay each_index move_field move_values GoMap.get GoMap.put
    String-discrete
unlisted_made = refl

bare_old : at "web" bare.records ≡ some (("name", str "web") ∷ [])
unfolding GoMap.get String-discrete
bare_old = refl

bare_lacks : at "type" (("name", str "web") ∷ []) ≡ none
unfolding GoMap.get String-discrete
bare_lacks = refl

item_type : at "type" (item "web" "SERVICE") ≡ some (str "SERVICE")
unfolding GoMap.get String-discrete
item_type = refl

upsert_at_new_field_example :
    (refs [] (str "SERVICE") "web" ≡ 0)
    × (weight (at "web" unlisted.records) "type" (str "SERVICE") ≡ 1)
upsert_at_new_field_example =
    upsert_at_new_field bare unlisted bare-IsCoherent "type" [] unlisted_index
      (("name", str "web") ∷ []) (item "web" "SERVICE") "web" (str "SERVICE") bare_old bare_lacks
      item_type unlisted_made

insert-get_example :
    (db' : Db) × (insert "app_items" (item "db" "DATABASE") database ≡ ok db')
    × (get "app_items" (str "db") db' ≡ ok (item "db" "DATABASE"))
insert-get_example =
    insert-get "app_items" database items items_here (str "db") items-IsValid (item "db" "DATABASE")
      (item_key "db" "DATABASE") (item-Fits "db" "DATABASE") db_new

upsert-get_example :
    (db' : Db) × (upsert "app_items" (item "web" "INTERNET") database ≡ ok db')
    × (get "app_items" (str "web") db'
        ≡ ok (merged (at (sprint (str "web")) items.records) (item "web" "INTERNET")))
upsert-get_example =
    upsert-get "app_items" database items items_here (str "web") items-IsValid
      (item "web" "INTERNET") (item_key "web" "INTERNET") (item-Fits "web" "INTERNET")

delete-get_example :
    (db' : Db) × (delete "app_items" (str "web") database ≡ ok db')
    × (get "app_items" (str "web") db' ≡ err (not_found (str "web")))
delete-get_example = delete-get "app_items" database items items_here (str "web") items-IsValid

db_IsNew : IsNew items (item "db" "DATABASE")
unfolding GoMap.get String-discrete sprint app_items
db_IsNew = refl

web_held : at (batch_key items (item "web" "INTERNET")) items.records ≡ some (item "web" "SERVICE")
unfolding GoMap.get String-discrete sprint app_items
web_held = refl

insert_batch_on_conflict-err_example :
    insert_batch_on_conflict "app_items" strict
      (item "db" "DATABASE" ∷ item "web" "INTERNET" ∷ item "db" "QUEUE" ∷ [])
      database
    ≡ err (already_exists_at 1 (or_nil (at items.schema.primary_key (item "web" "INTERNET"))))
insert_batch_on_conflict-err_example =
    insert_batch_on_conflict-err "app_items" database items items_here strict
      (item "db" "DATABASE" ∷ []) (item "db" "QUEUE" ∷ []) (item "web" "INTERNET")
      (item "web" "SERVICE") refl batch-Fits.1 (db_IsNew, tt) web_held
