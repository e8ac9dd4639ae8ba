-- ===== src/Api/Catalog.antt =====
-- backend/api/api.go: what `GetCatalog` does after a cache miss.
use alma_backend_task.Prelude.{String, List, [], ◌++◌, map, ok, ◌>>=◌}
use alma_backend_task.GoMap
use alma_backend_task.GoMap.{Map}
use alma_backend_task.Value.{str, Value-discrete}
use alma_backend_task.Db.Types.{Record, Db}
use alma_backend_task.Db.Index.{or_empty}
use alma_backend_task.Db.Query.{Groups, all, all_grouped_by}
use alma_backend_task.Api.Types.{
  CatalogComponentResponse, AppItemResponse, CatalogResponse, Answer, text_of, fetched, none_of,
  set_each, build_catalog_component,
}

-- `groups[key]` at a text: a missing key reads as the nil slice.
abbrev pub group_of : String → Groups → List Record
group_of key groups = or_empty (GoMap.get Value-discrete (str key) groups)

unfoldable pub pii_types : List Record → List String
pii_types rs = map (text_of "pii_type") rs

unfoldable pub catalog_component : Groups → Record → CatalogComponentResponse
unfolding build_catalog_component pii_types
catalog_component piis r = build_catalog_component r (pii_types (group_of (text_of "id" r) piis))

unfoldable pub app_item_response : Groups → Groups → Record → AppItemResponse
app_item_response comps piis r = record {
  name = text_of "name" r;
  type = text_of "type" r;
  components = map (catalog_component piis) (group_of (text_of "name" r) comps);
}

-- The loop over the records of the app items.
unfoldable pub build_catalog : List Record → Groups → Groups → CatalogResponse
unfolding set_each
build_catalog items comps piis = record {
  app_items = set_each (text_of "name") (app_item_response comps piis) items [];
}

unfoldable pub fetch_catalog : Db → Answer CatalogResponse
fetch_catalog db = do
  items ← fetched (all "app_items" db)
  comps ← fetched (all_grouped_by "components" "app_item_name" db)
  piis ← fetched (all_grouped_by "component_piis" "component_id" db)
  _ ← none_of (items.1 ++ (comps.1 ++ piis.1))
  ok (build_catalog (or_empty items.0) (or_empty comps.0) (or_empty piis.0))
