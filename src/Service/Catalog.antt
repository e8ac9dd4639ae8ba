-- ===== src/Service/Catalog.antt =====
-- backend/api/api.go: `GetCatalog` on a whole database.
use mathlib.Core.List.{Perm}
use alma_backend_task.Prelude.{String, ◌≡◌, refl, subst, ◌∙◌, List, map, true, ok}
use alma_backend_task.Value.{str, as_str, hashable}
use alma_backend_task.Db.Types.{Record, TableSchema, Db, at}
use alma_backend_task.Db.Tables.Order.{find_table-found}
use alma_backend_task.Db.Query.{Groups, all_grouped_by}
use alma_backend_task.Db.Validity.Groups.{rows_with, IsKey}
use alma_backend_task.Db.Validity.Grouped.{IsGrouping, grouped-IsGrouping}
use alma_backend_task.Db.Validity.Replays.{Everywhere}
use alma_backend_task.Api.Types.{
  CatalogComponentResponse, AppItemResponse, CatalogResponse, text_of,
}
use alma_backend_task.Api.Catalog.{
  group_of, pii_types, catalog_component, app_item_response, build_catalog, fetch_catalog,
}
use alma_backend_task.Processor.Served.{Holds, records_of}
use alma_backend_task.Processor.Tied.{HasText}
use alma_backend_task.Service.Links.{HasOwn, IsWhole}
use alma_backend_task.Service.Reads.{rows, all-rows, records_of-rows, mapped, at-set_each-rows}

-- What the catalog says of a component with these PII records.
abbrev pub described_component : List Record → Record → CatalogComponentResponse
described_component piis r = record {
  component_type = text_of "component_type" r;
  value = text_of "value" r;
  piis = map (text_of "pii_type") piis;
}

-- What the catalog says of an app item, from the components of each name and the PIIs of each id.
unfoldable pub described :
    (String → List Record) → (String → List Record) → Record → AppItemResponse
described comps_of piis_of r = record {
  name = text_of "name" r;
  type = text_of "type" r;
  components =
      map (λ c. described_component (piis_of (text_of "id" c)) c) (comps_of (text_of "name" r));
}

-- The catalog has an entry for each app item of the table and no other. The entry has the components
-- whose `app_item_name` is the name, each with the types of the PIIs whose `component_id` is its id.
pub record IsCatalog (db : Db) (w : IsWhole db) (c : CatalogResponse) : Type 0 where
  pub comps_of : String → List Record
  pub piis_of : String → List Record
  pub owned :
      (name : String)
      → Perm (comps_of name) (rows_with "app_item_name" (str name) (rows w.served.components))
  pub carried :
      (id : String) → Perm (piis_of id) (rows_with "component_id" (str id) (rows w.served.piis))
  pub reads :
      (name : String)
      → at name c.app_items ≡ mapped (described comps_of piis_of) (records_of "app_items" db name)

pub text-IsKey : (f : String) (r : Record) → HasText f r → IsKey (at f r)
unfolding hashable
text-IsKey f r (s, e) v p =
    let same : str s ≡ v = cc (e, p) in subst (λ x. hashable x ≡ true) same refl

-- `AllGroupedBy` on a table whose records hold texts in the field.
all_grouped_by-ok :
    (f : String) {name : String} {schema : TableSchema} {db : Db} (h : Holds name schema db)
    → Everywhere (λ _ r. HasText f r) (records_of name db)
    → (g : Groups) × (all_grouped_by name f db ≡ ok g) × IsGrouping f h.table g
unfolding all_grouped_by
all_grouped_by-ok f {name} {db = db} h texts =
    let (g, e, k) =
      grouped-IsGrouping f h.table h.valid
        (λ pk r a. text-IsKey f r (texts pk r (records_of-rows h pk ∙ a))) in
    (g, rw (find_table-found name db h.table h.found) e, k)

own_name : (k : String) (r : Record) → HasOwn "name" k r → text_of "name" r ≡ k
unfolding as_str
own_name k r h = rw h refl

build_catalog-IsCatalog :
    (db : Db) (w : IsWhole db) (comps piis : Groups)
    → IsGrouping "app_item_name" w.served.components.table comps
    → IsGrouping "component_id" w.served.piis.table piis
    → IsCatalog db w (build_catalog (rows w.served.app_items) comps piis)
unfolding build_catalog hashable described app_item_response catalog_component pii_types
build_catalog-IsCatalog db w comps piis g h = record {
  comps_of = λ name. group_of name comps;
  piis_of = λ id. group_of id piis;
  owned = λ name. g (str name) refl;
  carried = λ id. h (str id) refl;
  reads = λ name.
      at-set_each-rows w.served.app_items (text_of "name") (app_item_response comps piis) name
        (λ k r e. own_name k r (w.linked.app_items k r e));
}

-- On a whole database `GetCatalog`, past the cache, returns a catalog without an error. The catalog
-- has an entry for each app item of the table and no other; the entry has the item's name and type
-- and, in some order, the components whose `app_item_name` is the name, and each of these its type,
-- its value and, in some order, the types of the PIIs whose `component_id` is the component's id.
pub fetch_catalog-ok :
    (db : Db) (w : IsWhole db)
    → (c : CatalogResponse) × (fetch_catalog db ≡ ok c) × IsCatalog db w c
unfolding fetch_catalog
fetch_catalog-ok db w =
    let (comps, e, g) = all_grouped_by-ok "app_item_name" w.served.components w.linked.owners in
    let (piis, f, h) = all_grouped_by-ok "component_id" w.served.piis w.linked.carriers in
    (
      build_catalog (rows w.served.app_items) comps piis,
      rw (all-rows w.served.app_items, e, f) refl,
      build_catalog-IsCatalog db w comps piis g h,
    )
