-- ===== src/Tests/Lifetime.antt =====
-- The program on two spans, with three requests, to its end.
use alma_backend_task.Prelude.{String, ◌≡◌, refl, Option, none, some, List, ok}
use alma_backend_task.Main.{Serving, boot}
use alma_backend_task.Main.Servers.{
  server_closed, Live, started, handled, api_ended, signalled, api_shut, metrics_shut, request,
  api_end, signal, api_shutdown, metrics_shutdown, Reach, here, next,
}
use alma_backend_task.Service.Boot.{booted_processor, IsServing, boot-IsServing}
use alma_backend_task.Service.Lifetime.{IsLive, boot-IsLive}
use alma_backend_task.Tests.Service.{spans, platform, loads}

abbrev up :
    (s : Serving) × (boot platform ≡ ok s) × IsServing (booted_processor platform spans) spans s
up = boot-IsServing platform spans loads

-- A request is the pattern that it matches.
abbrev by_name : List String → String → Option String
by_name patterns req = some req

abbrev asked : Live String String
asked =
    handled by_name "GET /catalog"
      (handled by_name "GET /nothing" (handled by_name "GET /connections" (started up.0)))

abbrev ended : Live String String
ended =
    metrics_shut none (some "deadline") (api_ended server_closed (api_shut none (signalled asked)))

ended-Reach : Reach by_name (started up.0) ended
unfolding started handled signalled api_shut api_ended
ended-Reach =
    next
      (next
        (next
          (next
            (next
              (next (next here (request "GET /connections" _ (λ a m e. cc)))
                (request "GET /nothing" _ (λ a m e. cc)))
              (request "GET /catalog" _ (λ a m e. cc)))
            (signal _ refl))
          (api_shutdown none _ refl))
        (api_end server_closed _ (λ a m e. cc)))
      (metrics_shutdown none (some "deadline") _ refl)

boot-IsLive_example : IsLive by_name up.0 ended
boot-IsLive_example = boot-IsLive platform spans by_name up.0 ended loads up.1 ended-Reach
