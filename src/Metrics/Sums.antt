-- ===== src/Metrics/Sums.antt =====
-- metrics/metrics.go: what a counter with a label reads after one more.
use alma_backend_task.Prelude.{ℕ, ◌+◌, String, ◌≡◌, ap, some, ite, arith, String-discrete}
use alma_backend_task.GoMap.{Map, get-put}
use alma_backend_task.Db.Types.{at}
use alma_backend_task.Metrics.{or_zero, add_at, add_at_label}

added-step :
    (k t : String) (m : Map String ℕ) (d : Dec (k ≡ t))
    → or_zero (ite d (some (or_zero (at k m) + 1)) (at t m)) ≡ or_zero (at t m) + ite d 1 0
added-step k t m (yes e) = ap (λ x. or_zero (at x m) + 1) e
added-step k t m (no n) = omega arith

pub at-add_at_label :
    (k t : String) (m : Map String ℕ)
    → or_zero (at t (add_at_label k 1 m)) ≡ or_zero (at t m) + ite (String-discrete k t) 1 0
unfolding add_at
at-add_at_label k t m = rw get-put (added-step k t m (String-discrete k t))
