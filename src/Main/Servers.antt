-- ===== src/Main/Servers.antt =====
-- main.go: the servers of the API and of the metrics, from their start to the end of the program. The
-- sockets, the signal and `http.Server`'s `ListenAndServe` and `Shutdown` are those of Go: their
-- results are arguments of the steps. The requests of one server are taken one after the other.
use Prim.Native.String.{◌++◌}
use alma_backend_task.Prelude.{String, ◌≡◌, ◌≢◌, Option, none, some, List, [], ◌∷◌}
use alma_backend_task.Value.{ℤ, int, sprint}
use alma_backend_task.Api.Backend.{ApiBackend}
use alma_backend_task.Server.{
  Response, ApiServer, new_api_server, serve, MetricsServer, new_metrics_server,
}
use alma_backend_task.Main.{Serving}

-- `fmt.Sprintf(":%d", port)`
unfoldable pub addr_of : ℤ → String
addr_of port = ":" ++ sprint (int port)

-- What `Start` gives back: `http.ErrServerClosed` after a shutdown, or another error.
pub data Ended (Failure : Type 0) : Type 0 where
  server_closed : Ended Failure
  server_failed : Failure → Ended Failure

-- Where `main` stands. The errors of the two calls of `Shutdown` are kept.
pub data Phase (Failure : Type 0) : Type 0 where
  waiting stopping_api : Phase Failure
  stopping_metrics : Option Failure → Phase Failure
  stopped : Option Failure → Option Failure → Phase Failure

pub data Line (Failure : Type 0) : Type 0 where
  servers_started shutting_down servers_stopped : Line Failure
  metrics_server_error api_server_error : Failure → Line Failure
  api_shutdown_error metrics_shutdown_error : Failure → Line Failure

-- The running program: its replies, each beside its request, and its log have the last first.
pub record Live (Request Failure : Type 0) : Type 0 where
  pub phase : Phase Failure
  pub server : ApiServer
  pub metrics_server : MetricsServer
  pub backend : ApiBackend
  pub replies : List (Request × Response)
  pub log : List (Line Failure)

unfoldable pub started : {Request Failure : Type 0} → Serving → Live Request Failure
started s = record {
  phase = waiting;
  server = new_api_server (addr_of s.config.http_port);
  metrics_server = new_metrics_server (addr_of s.config.metrics_port);
  backend = s.backend;
  replies = [];
  log = servers_started ∷ [];
}

unfoldable pub handled :
    {Request Failure : Type 0}
    → (List String → Request → Option String)
    → Request
    → Live Request Failure
    → Live Request Failure
handled route req l =
    let (response, backend) = serve route l.server req l.backend in
    record l { backend = backend; replies = (req, response) ∷ l.replies }

module _ {Failure : Type 0} where
  -- `if err != nil && err != http.ErrServerClosed { logger.Error(…) }`
  abbrev pub unless_closed :
      (Failure → Line Failure) → Ended Failure → List (Line Failure) → List (Line Failure)
  unless_closed line server_closed log = log
  unless_closed line (server_failed e) log = line e ∷ log

  -- `if err := ….Shutdown(shutdownCtx); err != nil { logger.Error(…) }`
  abbrev pub if_failed :
      (Failure → Line Failure) → Option Failure → List (Line Failure) → List (Line Failure)
  if_failed line none log = log
  if_failed line (some e) log = line e ∷ log

module _ {Request Failure : Type 0} where
  unfoldable pub metrics_ended : Ended Failure → Live Request Failure → Live Request Failure
  metrics_ended e l = record l { log = unless_closed metrics_server_error e l.log }

  unfoldable pub api_ended : Ended Failure → Live Request Failure → Live Request Failure
  api_ended e l = record l { log = unless_closed api_server_error e l.log }

  -- `<-quit`
  unfoldable pub signalled : Live Request Failure → Live Request Failure
  signalled l = record l { phase = stopping_api; log = shutting_down ∷ l.log }

  unfoldable pub api_shut : Option Failure → Live Request Failure → Live Request Failure
  api_shut o l = record l { phase = stopping_metrics o; log = if_failed api_shutdown_error o l.log }

  unfoldable pub metrics_shut :
      Option Failure → Option Failure → Live Request Failure → Live Request Failure
  metrics_shut api o l = record l {
    phase = stopped api o;
    log = servers_stopped ∷ if_failed metrics_shutdown_error o l.log;
  }

-- The program has not ended.
abbrev pub IsRunning : {Failure : Type 0} → Phase Failure → Type 0
IsRunning {Failure} phase = (api metrics : Option Failure) → phase ≢ stopped api metrics

-- One step: a request is handled, a goroutine ends, or `main` goes on.
pub data Step {Request Failure : Type 0} (route : List String → Request → Option String)
    : Live Request Failure → Live Request Failure → Type 0 where
  request :
      (req : Request) (l : Live Request Failure)
      → IsRunning l.phase
      → Step route l (handled route req l)
  metrics_end :
      (e : Ended Failure) (l : Live Request Failure)
      → IsRunning l.phase
      → Step route l (metrics_ended e l)
  api_end :
      (e : Ended Failure) (l : Live Request Failure)
      → IsRunning l.phase
      → Step route l (api_ended e l)
  signal : (l : Live Request Failure) → l.phase ≡ waiting → Step route l (signalled l)
  api_shutdown :
      (o : Option Failure) (l : Live Request Failure)
      → l.phase ≡ stopping_api
      → Step route l (api_shut o l)
  metrics_shutdown :
      (api o : Option Failure) (l : Live Request Failure)
      → l.phase ≡ stopping_metrics api
      → Step route l (metrics_shut api o l)

pub data Reach {Request Failure : Type 0} (route : List String → Request → Option String)
    (l : Live Request Failure) : Live Request Failure → Type 0 where
  here : Reach route l l
  next : {m n : Live Request Failure} → Reach route l m → Step route m n → Reach route l n
