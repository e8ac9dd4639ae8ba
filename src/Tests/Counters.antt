-- ===== src/Tests/Counters.antt =====
-- What the program counts on two spans, and on requests.
use alma_backend_task.Prelude.{◌≡◌, List, [], ◌∷◌, ok}
use alma_backend_task.Metrics.{new_gauges, new_counters, Metrics}
use alma_backend_task.Processor.Process.{Processed, process}
use alma_backend_task.Processor.Metered.{metered_process}
use alma_backend_task.Processor.Metered.Totals.{Counts, metered_process-Counts}
use alma_backend_task.Api.Backend.{new_backend}
use alma_backend_task.Api.Cached.{new_backend-IsFresh}
use alma_backend_task.Api.Metered.{Endpoint, requests}
use alma_backend_task.Api.Metered.Tallies.{label, asked}
use alma_backend_task.Api.Metered.Bounds.{Bounded, requests-Bounded}
use alma_backend_task.Service.Catalog.{fetch_catalog-ok}
use alma_backend_task.Service.Connections.{fetch_connections-ok}
use alma_backend_task.Tests.Runs.{fresh, fresh-IsServed, processor}
use alma_backend_task.Tests.Service.{spans, served, served-IsWhole, backend}

-- The two spans, counted from nothing.
abbrev no_metrics : Metrics
no_metrics = record { counters = new_counters; gauges = new_gauges }

metered_process-Counts_example :
    (done : Processed) × (m' : Metrics) × (metered_process processor spans fresh no_metrics
      ≡ ok (done, m'))
    × (process processor spans fresh ≡ ok done)
    × Counts processor spans no_metrics done m'
metered_process-Counts_example =
    metered_process-Counts processor spans fresh no_metrics fresh-IsServed

abbrev endpoints : List Endpoint
endpoints = Endpoint.catalog ∷ Endpoint.connections ∷ Endpoint.catalog ∷ Endpoint.catalog ∷ []

requests-Bounded_example :
    Bounded
      (label Endpoint.catalog)
      (asked (label Endpoint.catalog) endpoints)
      new_counters
      (requests endpoints (backend, new_counters)).1
unfolding new_backend
requests-Bounded_example =
    requests-Bounded endpoints Endpoint.catalog backend new_counters
      (fetch_catalog-ok served served-IsWhole).0 _ (new_backend-IsFresh served)
      (fetch_catalog-ok served served-IsWhole).1 (fetch_connections-ok served served-IsWhole)
