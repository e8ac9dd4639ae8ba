-- ===== src/Service/Lifetime.antt =====
-- main.go: the program from its start to its end, with the requests that it answers on the way.
use alma_backend_task.Prelude.{String, ◌≡◌, refl, sym, ◌∙◌, ap, subst, Option, List, ◌∷◌, ok, All}
use alma_backend_task.GoMap
use alma_backend_task.Models.{RawSpan}
use alma_backend_task.Api.Catalog.{fetch_catalog}
use alma_backend_task.Api.Connections.{fetch_connections}
use alma_backend_task.Api.Cached.{IsFresh}
use alma_backend_task.Server.{new_api_server, handled_by, matched, serve}
use alma_backend_task.Main.{Platform, Serving, boot}
use alma_backend_task.Main.Servers.{
  addr_of, Phase, stopping_api, stopping_metrics, stopped, Line, shutting_down, servers_stopped,
  api_shutdown_error, metrics_shutdown_error, Live, started, handled, metrics_ended, api_ended,
  signalled, api_shut, metrics_shut, if_failed, Step, request, metrics_end, api_end, signal,
  api_shutdown, metrics_shutdown, Reach, here, next,
}
use alma_backend_task.Service.Boot.{Loads, booted_processor, IsServing, boot-IsServing}
use alma_backend_task.Service.Responses.{
  patterns, expected, Handles, pattern-Handles, printed_catalog, printed_connections,
}
use alma_backend_task.Service.Logs.{
  narrated, own_lines, metrics_end-own, api_end-own, api_shutdown-own, metrics_shutdown-own,
}

-- What holds of the program while it runs.
pub record IsLive {Request Failure : Type 0} (route : List String → Request → Option String)
    (s : Serving) (l : Live Request Failure) : Type 0 where
  pub server : l.server ≡ new_api_server (addr_of s.config.http_port)
  pub db : l.backend.db ≡ s.backend.db
  pub fresh : IsFresh l.backend
  pub replies : All (λ r. r.1 ≡ expected s.catalog s.connections (route patterns r.0)) l.replies
  pub log : own_lines l.log ≡ narrated l.phase

module _ {Request Failure : Type 0} (route : List String → Request → Option String) where
  moved-IsLive :
      (s : Serving) (l : Live Request Failure)
      → IsLive route s l
      → (phase : Phase Failure) (log : List (Line Failure)) → own_lines log ≡ narrated phase
      → IsLive route s (record l { phase = phase; log = log })
  moved-IsLive s l k phase log e = record {
    server = k.server;
    db = k.db;
    fresh = k.fresh;
    replies = k.replies;
    log = e;
  }

module _ {Request Failure : Type 0} (route : List String → Request → Option String) (s : Serving)
    (e : fetch_catalog s.backend.db ≡ ok s.catalog)
    (f : fetch_connections s.backend.db ≡ ok s.connections) where
  handled-IsLive :
      (req : Request) (l : Live Request Failure)
      → IsLive route s l
      → IsLive route s (handled route req l)
  unfolding handled serve new_api_server
  handled-IsLive req l k =
      let out =
        subst
          (λ v.
            Handles l.backend (expected s.catalog s.connections (route patterns req))
              (handled_by (matched v (route (GoMap.keys v.routes) req)) l.backend))
          (sym k.server)
          (pattern-Handles s.catalog s.connections l.backend k.fresh (rw k.db e) (rw k.db f)
            (addr_of s.config.http_port) (route patterns req)) in
      record {
        server = k.server;
        db = out.db ∙ k.db;
        fresh = out.fresh;
        replies = (out.replies, k.replies);
        log = k.log;
      }

  started-IsLive : IsFresh s.backend → IsLive {Failure = Failure} route s (started s)
  unfolding started own_lines
  started-IsLive h = record { server = refl; db = refl; fresh = h; replies = tt; log = refl }

  Step-IsLive : {l m : Live Request Failure} → Step route l m → IsLive route s l → IsLive route s m
  unfolding metrics_ended api_ended signalled api_shut metrics_shut own_lines
  Step-IsLive (request req l r) k = handled-IsLive req l k
  Step-IsLive (metrics_end o l r) k =
      moved-IsLive route s l k l.phase _ (metrics_end-own o l.log ∙ k.log)
  Step-IsLive (api_end o l r) k = moved-IsLive route s l k l.phase _ (api_end-own o l.log ∙ k.log)
  Step-IsLive (signal l w) k =
      moved-IsLive route s l k stopping_api (shutting_down ∷ l.log)
        (ap (λ ls. shutting_down ∷ ls) (k.log ∙ ap narrated w))
  Step-IsLive (api_shutdown o l w) k =
      moved-IsLive route s l k (stopping_metrics o) (if_failed api_shutdown_error o l.log)
        (api_shutdown-own o l.log ∙ ap (if_failed api_shutdown_error o) (k.log ∙ ap narrated w))
  Step-IsLive (metrics_shutdown api o l w) k =
      moved-IsLive route s l k (stopped api o)
        (servers_stopped ∷ if_failed metrics_shutdown_error o l.log)
        (ap (λ ls. servers_stopped ∷ ls)
          (metrics_shutdown-own o l.log
            ∙ ap (if_failed metrics_shutdown_error o) (k.log ∙ ap narrated w)))

  Reach-IsLive :
      {l m : Live Request Failure} → Reach route l m → IsLive route s l → IsLive route s m
  Reach-IsLive here k = k
  Reach-IsLive (next r t) k = Step-IsLive t (Reach-IsLive r k)

-- If the file at the path of the configuration is read and parsed to some spans, the program is up,
-- and its servers have come from their start to some state by requests, ends of the goroutines, a
-- signal and shutdowns, then the database is the one that was there at the start, what the cache
-- holds is what a fetch gives, and each request was sent what its pattern asks for, the printed
-- catalog or the printed connections as JSON, or was not routed. The lines that `main` itself logged
-- are those of its phase, in their order.
pub boot-IsLive :
    {Bytes Failure Request Problem : Type 0} (pf : Platform Bytes Failure) (spans : List RawSpan)
    (route : List String → Request → Option String) (s : Serving) (l : Live Request Problem)
    → Loads pf spans
    → boot pf ≡ ok s
    → Reach route (started s) l
    → IsLive route s l
boot-IsLive pf spans route s l loads up reach =
    let (s', up', k) = boot-IsServing pf spans loads in
    let same : s' ≡ s = cc (up, up') in
    let k' = subst (IsServing (booted_processor pf spans) spans) same k in
    let e = printed_catalog s.backend s.catalog k'.fresh k'.replies_catalog in
    let f = printed_connections s.backend s.connections k'.fresh k'.replies_connections in
    Reach-IsLive route s e f reach (started-IsLive route s e f k'.fresh)
