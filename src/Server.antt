-- ===== src/Server.antt =====
-- server/server.go and server/metrics.go: what the two handlers of the API reply, and where `NewAPIServer` puts them. The
-- match of a request with a pattern and the encoding of a reply are those of `net/http` and
-- `encoding/json`.
use alma_backend_task.Prelude.{ℕ, String, Option, none, some, List, [], ◌∷◌, ok, err, panic}
use alma_backend_task.GoMap
use alma_backend_task.GoMap.{Map}
use alma_backend_task.Db.Types.{at}
use alma_backend_task.Api.Types.{CatalogResponse, ConnectionResponse, ApiError, Answer}
use alma_backend_task.Api.Backend.{ApiBackend, request_catalog, request_connections}

-- The value as JSON with its content type, or `http.Error` with a status and the error's text. A
-- handler that panics replies nothing.
pub data Reply (A : Type 0) : Type 0 where
  json : A → Reply A
  http_error : ℕ → ApiError → Reply A
  aborted : Reply A

abbrev pub internal_server_error : ℕ
internal_server_error = 500

abbrev pub reply : {A : Type 0} → Answer A → Reply A
reply (ok a) = json a
reply (err e) = http_error internal_server_error e
reply panic = aborted

unfoldable pub handle_catalog : ApiBackend → Reply CatalogResponse × ApiBackend
handle_catalog a = let (answer, a') = request_catalog a in (reply answer, a')

unfoldable pub handle_connections : ApiBackend → Reply (List ConnectionResponse) × ApiBackend
handle_connections a = let (answer, a') = request_connections a in (reply answer, a')

-- What a client is sent. The reply to a request that matches no pattern is made by `http.ServeMux`.
pub data Response : Type 0 where
  catalog_response : Reply CatalogResponse → Response
  connections_response : Reply (List ConnectionResponse) → Response
  not_routed : Response

abbrev pub Handler : Type 0
Handler = ApiBackend → Response × ApiBackend

abbrev pub sent : {A : Type 0} → (A → Response) → A × ApiBackend → Response × ApiBackend
sent response (r, a) = (response r, a)

-- `APIServer`: the address and the handlers of `http.Server`. The backend is passed along.
pub record ApiServer : Type 0 where
  pub addr : String
  pub routes : Map String Handler

unfoldable pub new_api_server : String → ApiServer
new_api_server addr = record {
  addr = addr;
  routes =
      ("GET /catalog", λ a. sent catalog_response (handle_catalog a))
      ∷ ("GET /connections", λ a. sent connections_response (handle_connections a))
      ∷ [];
}

abbrev pub handled_by : Option Handler → Handler
handled_by none a = (not_routed, a)
handled_by (some h) a = h a

abbrev pub matched : ApiServer → Option String → Option Handler
matched s none = none
matched s (some pattern) = at pattern s.routes

-- One request. `ServeMux` picks a pattern, or none, of those that it has.
unfoldable pub serve :
    {Request : Type 0} → (List String → Request → Option String) → ApiServer → Request → Handler
serve route s req = handled_by (matched s (route (GoMap.keys s.routes) req))

-- `MetricsServer`: the address, and the pattern under which Prometheus's handler is.
pub record MetricsServer : Type 0 where
  pub addr : String
  pub pattern : String

unfoldable pub new_metrics_server : String → MetricsServer
new_metrics_server addr = record { addr = addr; pattern = "GET /metrics" }
