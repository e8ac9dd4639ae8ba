-- ===== src/Service/Connections.antt =====
-- backend/api/api.go: `GetConnections` on a whole database.
use alma_backend_task.Prelude.{
  String, ◌≡◌, ◌≢◌, refl, ◌∙◌, Option, none, some, List, [], ◌∷◌, map, ok, All, Option-cases, inl,
  inr,
}
use alma_backend_task.GoMap
use alma_backend_task.GoMap.{Map, get-put}
use alma_backend_task.Value.{str, as_str}
use alma_backend_task.Db.Types.{Record, Db, at}
use alma_backend_task.Db.Coherence.{Lookup}
use alma_backend_task.Api.Types.{
  ConnectionResponse, ConnectionComponentResponse, text_of, build_connection_component,
}
use alma_backend_task.Api.Connections.{
  index_by_id, connection_components, ids_of, connection_response, build_connections,
  fetch_connections,
}
use alma_backend_task.Processor.Served.{records_of}
use alma_backend_task.Service.Links.{IsWhole}
use alma_backend_task.Service.Reads.{
  rows, all-rows, records_of-rows, at-set_each-rows, mapped-same, rows-All,
}

-- The record that is there, else an empty one.
abbrev pub or_blank_record : Option Record → Record
or_blank_record none = []
or_blank_record (some r) = r

-- The type and the value of the component record of an id.
unfoldable pub told : Lookup → String → ConnectionComponentResponse
told comps id =
    let r = or_blank_record (comps id) in
    record { component_type = text_of "component_type" r; value = text_of "value" r }

-- What the API says of a connection: its ends, and each of its components as the table has it.
unfoldable pub linked_response : Lookup → Record → ConnectionResponse
linked_response comps r = record {
  source = text_of "source" r;
  destination = text_of "destination" r;
  components = map (told comps) (ids_of r);
}

own_id : (k : String) (r : Record) → at "id" r ≡ some (str k) → text_of "id" r ≡ k
unfolding as_str
own_id k r h = rw h refl

connection_components-ok :
    (by_id : Map String Record) (comps : Lookup) (ids : List String)
    → ((id : String) → at id by_id ≡ comps id)
    → All (λ id. comps id ≢ none) ids
    → connection_components by_id ids ≡ ok (map (told comps) ids)
unfolding connection_components build_connection_component told
connection_components-ok by_id comps [] same h = refl
connection_components-ok by_id comps (id ∷ ids) same h = elim (Option-cases (comps id)) [
  | inl e ↦ absurd (h.0 e)
  | inr (r, e) ↦ rw (same id, e, connection_components-ok by_id comps ids same h.1) refl
]

connection_response-ok :
    (by_id : Map String Record) (comps : Lookup) (r : Record)
    → ((id : String) → at id by_id ≡ comps id)
    → All (λ id. comps id ≢ none) (ids_of r)
    → connection_response by_id r ≡ ok (linked_response comps r)
unfolding connection_response linked_response
connection_response-ok by_id comps r same h =
    rw (connection_components-ok by_id comps (ids_of r) same h) refl

build_connections-ok :
    (by_id : Map String Record) (comps : Lookup) (rs : List Record)
    → ((id : String) → at id by_id ≡ comps id)
    → All (λ r. All (λ id. comps id ≢ none) (ids_of r)) rs
    → build_connections by_id rs ≡ ok (map (linked_response comps) rs)
unfolding build_connections
build_connections-ok by_id comps [] same h = refl
build_connections-ok by_id comps (r ∷ rs) same h =
    rw (connection_response-ok by_id comps r same h.0, build_connections-ok by_id comps rs same h.1)
      refl

indexed :
    (db : Db) (w : IsWhole db) (id : String)
    → at id (index_by_id (rows w.served.components)) ≡ records_of "components" db id
unfolding index_by_id GoMap.get
indexed db w id =
    let h = w.served.components in
    at-set_each-rows h (text_of "id") (λ r. r) id (λ k r e. own_id k r (w.linked.components k r e))
    ∙ mapped-same (records_of "components" db id)

-- On a whole database `GetConnections`, past the cache, returns without an error. For each record of
-- the connections it gives the two ends, and the type and value of each component that it names.
pub fetch_connections-ok :
    (db : Db) (w : IsWhole db)
    → fetch_connections db
      ≡ ok (map (linked_response (records_of "components" db)) (rows w.served.connections))
unfolding fetch_connections
fetch_connections-ok db w =
    let comps = w.served.components in
    let conns = w.served.connections in
    rw (all-rows conns, all-rows comps)
      (build_connections-ok (index_by_id (rows comps)) (records_of "components" db) (rows conns)
        (indexed db w)
        (rows-All (λ r. All (λ id. records_of "components" db id ≢ none) (ids_of r))
          conns.table.records conns.valid.distinct
          (λ k r e. w.linked.connections k r (records_of-rows conns k ∙ e))))
