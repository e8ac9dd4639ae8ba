-- ===== src/Tests/Tables.antt =====
-- Tables with one row, as the code makes them from `schema.CreateSchema`'s tables.
use alma_backend_task.Prelude.{String, ◌≡◌, refl, subst, some, List, [], ◌∷◌, ok, String-discrete}
use alma_backend_task.GoMap
use alma_backend_task.Value.{str, strs, hashable}
use alma_backend_task.Db.Types.{Record, Table, Db, Outcome}
use alma_backend_task.Db.Tables.{empty_indexes, new_table}
use alma_backend_task.Db.Index.{each_index, add_field, append_to_index, append_pk}
use alma_backend_task.Db.Insert.{store_new}
use alma_backend_task.Db.Coherence.{Lookup, updated, IsCoherent, IsCoherent-ext, add-IsCoherent}
use alma_backend_task.Db.Validity.{Fits, look_of, IsValid, Becomes, Makes}
use alma_backend_task.Db.Validity.Rows.{store_new-Makes}
use alma_backend_task.Db.Validity.Schemas.{
  Suits, Suits-Fits, new_table-IndexedBy, new_table-IsValid,
}
use alma_backend_task.Schema.{app_items, connections}

abbrev pub item : String → String → Record
item name type = ("name", str name) ∷ ("type", str type) ∷ []

abbrev pub items : Table
items = record {
  schema = app_items;
  records = ("web", item "web" "SERVICE") ∷ [];
  indexes = ("type", (str "SERVICE", "web" ∷ []) ∷ []) ∷ [];
}

abbrev pub database : Db
database = record { tables = ("app_items", items) ∷ [] }

made :
    {t t' : Table} {look : Lookup} (out : Outcome Table)
    → Makes t look out
    → out ≡ ok t'
    → Becomes t look t'
made {t} {t'} {look} out (t₁, e, b) h = let same : t₁ ≡ t' = cc in subst (Becomes t look) same b

pub item-Suits : (name type : String) → Suits app_items (item name type)
unfolding app_items GoMap.get hashable String-discrete
item-Suits name type = ((str type, refl, refl), tt)

items-made :
    Becomes
      (new_table app_items)
      (updated "web" (some (item "web" "SERVICE")) (look_of (new_table app_items)))
      items
unfolding store_new each_index add_field append_to_index append_pk new_table empty_indexes app_items
    GoMap.get GoMap.put hashable String-discrete
items-made =
    made (store_new "web" (item "web" "SERVICE") (new_table app_items))
      (store_new-Makes "web" (item "web" "SERVICE") (new_table app_items)
        (new_table-IsValid app_items)
        (Suits-Fits app_items (new_table app_items).indexes (item "web" "SERVICE")
          (new_table-IndexedBy app_items) (item-Suits "web" "SERVICE"))
        refl)
      refl

pub items-IsValid : IsValid items
items-IsValid = items-made.valid

pub item-Fits : (name type : String) → Fits items.indexes (item name type)
item-Fits name type =
    Suits-Fits app_items items.indexes (item name type)
      (λ f p. new_table-IndexedBy app_items f (items-made.indexed f p)) (item-Suits name type)

-- A connection, of one component or more.
abbrev pub link : List String → Record
link ids =
    ("id", str "web:db")
    ∷ ("source", str "web")
    ∷ ("destination", str "db")
    ∷ ("component_ids", strs ids)
    ∷ []

abbrev pub links : Table
links = record {
  schema = connections;
  records = ("web:db", link ("query:db:a" ∷ [])) ∷ [];
  indexes =
      ("source", (str "web", "web:db" ∷ []) ∷ [])
      ∷ ("destination", (str "db", "web:db" ∷ []) ∷ [])
      ∷ [];
}

abbrev pub links_database : Db
links_database = record { tables = ("connections", links) ∷ [] }

link-Suits : (ids : List String) → Suits connections (link ids)
unfolding connections GoMap.get hashable String-discrete
link-Suits ids = ((str "web", refl, refl), ((str "db", refl, refl), tt))

links-made :
    Becomes
      (new_table connections)
      (updated "web:db" (some (link ("query:db:a" ∷ []))) (look_of (new_table connections)))
      links
unfolding store_new each_index add_field append_to_index append_pk new_table empty_indexes
    connections GoMap.get GoMap.put hashable String-discrete
links-made =
    made (store_new "web:db" (link ("query:db:a" ∷ [])) (new_table connections))
      (store_new-Makes "web:db" (link ("query:db:a" ∷ [])) (new_table connections)
        (new_table-IsValid connections)
        (Suits-Fits connections (new_table connections).indexes (link ("query:db:a" ∷ []))
          (new_table-IndexedBy connections) (link-Suits ("query:db:a" ∷ [])))
        refl)
      refl

pub links-IsValid : IsValid links
links-IsValid = links-made.valid

pub link-Fits : (ids : List String) → Fits links.indexes (link ids)
link-Fits ids =
    Suits-Fits connections links.indexes (link ids)
      (λ f p. new_table-IndexedBy connections f (links-made.indexed f p)) (link-Suits ids)

-- A row without the indexed field, as an upsert of the key alone makes it.
abbrev pub bare : Table
bare = record {
  schema = app_items;
  records = ("web", ("name", str "web") ∷ []) ∷ [];
  indexes = ("type", []) ∷ [];
}

pub bare-IsCoherent : IsCoherent (look_of bare) bare.indexes
unfolding each_index add_field new_table empty_indexes app_items GoMap.get GoMap.put String-discrete
bare-IsCoherent =
    IsCoherent-ext (λ q. refl)
      (add-IsCoherent "web" (("name", str "web") ∷ []) refl refl
        (new_table-IsValid app_items).coherent)
