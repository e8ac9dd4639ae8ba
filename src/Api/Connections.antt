-- ===== src/Api/Connections.antt =====
-- backend/api/api.go: what `GetConnections` does after a cache miss.
use alma_backend_task.Prelude.{String, Option, none, some, List, [], ◌∷◌, ◌++◌, ok, err, ◌>>=◌}
use alma_backend_task.GoMap.{Map}
use alma_backend_task.Value.{as_strs}
use alma_backend_task.Db.Types.{Record, Db, at}
use alma_backend_task.Db.Batch.{or_nil}
use alma_backend_task.Db.Index.{or_empty}
use alma_backend_task.Db.Query.{all}
use alma_backend_task.Api.Types.{
  ConnectionComponentResponse, ConnectionResponse, Answer, component_not_found, text_of, fetched,
  none_of, set_each, build_connection_component,
}

-- The loop that fills `compByID`.
unfoldable pub index_by_id : List Record → Map String Record
unfolding set_each
index_by_id rs = set_each (text_of "id") (λ r. r) rs []

abbrev pub found_component : String → Option Record → Answer Record
found_component id none = err (component_not_found id)
found_component id (some r) = ok r

-- The loop over the component ids of a connection: the first one that is missing ends the request.
unfoldable pub connection_components :
    Map String Record → List String → Answer (List ConnectionComponentResponse)
connection_components by_id [] = ok []
connection_components by_id (id ∷ ids) = do
  r ← found_component id (at id by_id)
  rest ← connection_components by_id ids
  ok (build_connection_component r ∷ rest)

-- `compIDs, _ := connRec["component_ids"].([]string)`
abbrev pub ids_of : Record → List String
ids_of r = as_strs (or_nil (at "component_ids" r))

unfoldable pub connection_response : Map String Record → Record → Answer ConnectionResponse
connection_response by_id r = do
  components ← connection_components by_id (ids_of r)
  ok (record {
    source = text_of "source" r;
    destination = text_of "destination" r;
    components = components;
  })

unfoldable pub build_connections :
    Map String Record → List Record → Answer (List ConnectionResponse)
build_connections by_id [] = ok []
build_connections by_id (r ∷ rs) = do
  c ← connection_response by_id r
  cs ← build_connections by_id rs
  ok (c ∷ cs)

unfoldable pub fetch_connections : Db → Answer (List ConnectionResponse)
fetch_connections db = do
  conns ← fetched (all "connections" db)
  comps ← fetched (all "components" db)
  _ ← none_of (conns.1 ++ comps.1)
  build_connections (index_by_id (or_empty comps.0)) (or_empty conns.0)
