-- ===== src/Service/Responses.antt =====
-- server/server.go: what is sent for a request, by the pattern that it matches.
use alma_backend_task.Prelude.{
  String, ◌≡◌, refl, sym, ite, ◌∙◌, ap, Option, none, some, List, [], ◌∷◌, ok, err, panic,
  String-discrete, if_pos, if_neg,
}
use alma_backend_task.GoMap
use alma_backend_task.Api.Types.{CatalogResponse, ConnectionResponse, Answer}
use alma_backend_task.Api.Catalog.{fetch_catalog}
use alma_backend_task.Api.Connections.{fetch_connections}
use alma_backend_task.Api.Backend.{ApiBackend, request_catalog, request_connections}
use alma_backend_task.Api.Cached.{IsFresh, request_catalog-Serves, request_connections-Serves}
use alma_backend_task.Server.{
  json, reply, sent, handle_catalog, handle_connections, Response, catalog_response,
  connections_response, not_routed, new_api_server, handled_by, matched,
}

-- The patterns of the API's server.
abbrev pub patterns : List String
patterns = "GET /catalog" ∷ "GET /connections" ∷ []

-- What is sent for a pattern: the catalog or the connections that the program printed.
abbrev pub expected : CatalogResponse → List ConnectionResponse → Option String → Response
expected c cs none = not_routed
expected c cs (some p) =
    ite (String-discrete "GET /catalog" p) (catalog_response (json c))
      (ite (String-discrete "GET /connections" p) (connections_response (json cs)) not_routed)

reply-json : {A : Type 0} (o : Answer A) (v : A) → reply o ≡ json v → o ≡ ok v
reply-json (ok x) v e = cc e
reply-json (err why) v e = cc e
reply-json panic v e = cc e

-- One request to a backend, and what it is answered.
pub record Handles (a : ApiBackend) (response : Response) (out : Response × ApiBackend)
    : Type 0 where
  pub replies : out.0 ≡ response
  pub db : out.1.db ≡ a.db
  pub fresh : IsFresh out.1

module _ (c : CatalogResponse) (cs : List ConnectionResponse) (a : ApiBackend) (h : IsFresh a)
    (e : fetch_catalog a.db ≡ ok c) (f : fetch_connections a.db ≡ ok cs) where
  catalog-Handles : Handles a (catalog_response (json c)) (sent catalog_response (handle_catalog a))
  unfolding handle_catalog
  catalog-Handles =
      let s = request_catalog-Serves a h in
      record {
        replies = ap (λ o. catalog_response (reply o)) (s.answer ∙ e);
        db = s.db;
        fresh = s.fresh;
      }

  connections-Handles :
      Handles a (connections_response (json cs)) (sent connections_response (handle_connections a))
  unfolding handle_connections
  connections-Handles =
      let s = request_connections-Serves a h in
      record {
        replies = ap (λ o. connections_response (reply o)) (s.answer ∙ f);
        db = s.db;
        fresh = s.fresh;
      }

  -- Whatever pattern, or none, `ServeMux` picks.
  pub pattern-Handles :
      (addr : String) (o : Option String)
      → Handles a (expected c cs o) (handled_by (matched (new_api_server addr) o) a)
  unfolding new_api_server GoMap.get
  pattern-Handles addr none = record { replies = refl; db = refl; fresh = h }
  pattern-Handles addr (some p) = elim (String-discrete "GET /catalog" p) [
    | yes q ↦
        rw
          (if_pos (String-discrete "GET /catalog" p) q, if_pos (String-discrete "GET /catalog" p) q)
          catalog-Handles
    | no n ↦ elim (String-discrete "GET /connections" p) [
      | yes q ↦
          rw
            (
              if_neg (String-discrete "GET /catalog" p) n,
              if_neg (String-discrete "GET /catalog" p) n,
              if_pos (String-discrete "GET /connections" p) q,
              if_pos (String-discrete "GET /connections" p) q,
            )
            connections-Handles
      | no m ↦
          rw
            (
              if_neg (String-discrete "GET /catalog" p) n,
              if_neg (String-discrete "GET /catalog" p) n,
              if_neg (String-discrete "GET /connections" p) m,
              if_neg (String-discrete "GET /connections" p) m,
            )
            (record { replies = refl; db = refl; fresh = h })
    ]
  ]

pub printed_catalog :
    (a : ApiBackend) (c : CatalogResponse)
    → IsFresh a
    → (handle_catalog a).0 ≡ json c
    → fetch_catalog a.db ≡ ok c
unfolding handle_catalog
printed_catalog a c h e =
    sym (request_catalog-Serves a h).answer ∙ reply-json (request_catalog a).0 c e

pub printed_connections :
    (a : ApiBackend) (cs : List ConnectionResponse)
    → IsFresh a
    → (handle_connections a).0 ≡ json cs
    → fetch_connections a.db ≡ ok cs
unfolding handle_connections
printed_connections a cs h e =
    sym (request_connections-Serves a h).answer ∙ reply-json (request_connections a).0 cs e
