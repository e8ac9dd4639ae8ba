-- ===== src/Service/Logs.antt =====
-- main.go: the lines that `main` logs from the start of its servers on.
use alma_backend_task.Prelude.{◌≡◌, refl, Option, none, some, List, [], ◌∷◌}
use alma_backend_task.Main.Servers.{
  Ended, server_closed, server_failed, Phase, waiting, stopping_api, stopping_metrics, stopped,
  Line, servers_started, shutting_down, servers_stopped, metrics_server_error, api_server_error,
  api_shutdown_error, metrics_shutdown_error, unless_closed, if_failed,
}

-- The lines that `main` itself logs, the last first, when it stands there.
abbrev pub narrated : {Failure : Type 0} → Phase Failure → List (Line Failure)
narrated waiting = servers_started ∷ []
narrated stopping_api = shutting_down ∷ servers_started ∷ []
narrated (stopping_metrics api) =
    if_failed api_shutdown_error api (shutting_down ∷ servers_started ∷ [])
narrated (stopped api metrics) =
    servers_stopped
    ∷ if_failed metrics_shutdown_error metrics
        (if_failed api_shutdown_error api (shutting_down ∷ servers_started ∷ []))

-- The log without the lines of the two goroutines.
unfoldable pub own_lines : {Failure : Type 0} → List (Line Failure) → List (Line Failure)
own_lines [] = []
own_lines (metrics_server_error e ∷ ls) = own_lines ls
own_lines (api_server_error e ∷ ls) = own_lines ls
own_lines (l ∷ ls) = l ∷ own_lines ls

module _ {Failure : Type 0} where
  pub metrics_end-own :
      (o : Ended Failure) (log : List (Line Failure))
      → own_lines (unless_closed metrics_server_error o log) ≡ own_lines log
  unfolding own_lines
  metrics_end-own server_closed log = refl
  metrics_end-own (server_failed e) log = refl

  pub api_end-own :
      (o : Ended Failure) (log : List (Line Failure))
      → own_lines (unless_closed api_server_error o log) ≡ own_lines log
  unfolding own_lines
  api_end-own server_closed log = refl
  api_end-own (server_failed e) log = refl

  pub api_shutdown-own :
      (o : Option Failure) (log : List (Line Failure))
      → own_lines (if_failed api_shutdown_error o log)
        ≡ if_failed api_shutdown_error o (own_lines log)
  unfolding own_lines
  api_shutdown-own none log = refl
  api_shutdown-own (some e) log = refl

  pub metrics_shutdown-own :
      (o : Option Failure) (log : List (Line Failure))
      → own_lines (if_failed metrics_shutdown_error o log)
        ≡ if_failed metrics_shutdown_error o (own_lines log)
  unfolding own_lines
  metrics_shutdown-own none log = refl
  metrics_shutdown-own (some e) log = refl
