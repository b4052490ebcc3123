-- ===== src/Api/Metrics.antt =====
-- `handleMetrics` of internal/api/metrics.go with the provider that cmd/eideticd/main.go installs. The
-- answer is what is asked of the store and of the answer cache; version, uptime, file size, the counter
-- of the watcher, the percentiles and the three formats are left out.
use eidetic_daemon.Prelude.{ℕ, ℤ, pos, Bool, Option, none, some, if◌then◌else◌}
use eidetic_daemon.Store.Session.{Result, ok, err, Session, M, pure, ◌>>=◌}
use eidetic_daemon.Store.Read.{count, count_by_surface}
use eidetic_daemon.Api.Http.{
  when_get, Request, Metrics, message, metrics, respond, method_not_allowed,
}
use eidetic_daemon.Api.Engrams.{Handler, reply, call_store, server_error}

module _ {A : Type 0} where
  -- `if x, err := …; err == nil`
  abbrev pub as_option : Result A × Session → Result (Option A) × Session
  as_option (ok a, s) = (ok (some a), s)
  as_option (err _, s) = (ok none, s)

  unfoldable pub optional : M A → M (Option A)
  optional m s = as_option (m s)

abbrev pub total_or_zero : Option ℤ → ℤ
total_or_zero none = pos 0
total_or_zero (some n) = n

module _ (ask_cache : ℕ × ℕ × ℕ) where
  unfoldable pub provide : M Metrics
  provide = do
    total ← optional count
    by_surface ← optional count_by_surface
    pure record {
      engram_total = total_or_zero total;
      engram_by_surface = by_surface;
      ask_cache = ask_cache;
    }

  unfoldable pub handle_metrics : Bool → Request → Handler
  handle_metrics configured r =
      when_get r.method
        (if configured
          then call_store provide server_error (λ m. respond 200 (metrics m))
          else reply (respond 503 (message "metrics not configured")))
        (reply method_not_allowed)
