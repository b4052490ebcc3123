-- ===== src/Api/Queries.antt =====
-- The handlers of internal/api/routes.go that read: /healthz, /surfaces, /search, /recent, /hooks.
use eidetic_daemon.Prelude.{Bool, is_empty, if◌then◌else◌}
use eidetic_daemon.Store.Engine.{Engine}
use eidetic_daemon.Store.Session.{Error, empty_query}
use eidetic_daemon.Store.Read.{count_by_surface, recent}
use eidetic_daemon.Store.Search.{search}
use eidetic_daemon.Api.Params.{int_or_zero}
use eidetic_daemon.Api.Http.{
  when_get, Request, Response, message, failure, health, hooks_status, surface_counts, engram_list,
  respond, method_not_allowed,
}
use eidetic_daemon.Api.Engrams.{Handler, reply, call_store, server_error}

-- 400 for ErrEmptyQuery
abbrev pub search_error : Error → Response
search_error empty_query = respond 400 (failure empty_query)
search_error e = respond 500 (failure e)

unfoldable pub handle_healthz : Request → Handler
handle_healthz r = when_get r.method (reply (respond 200 health)) (reply method_not_allowed)

unfoldable pub handle_surfaces : Request → Handler
handle_surfaces r =
    when_get r.method
      (call_store count_by_surface server_error (λ counts. respond 200 (surface_counts counts)))
      (reply method_not_allowed)

-- Whether there is a status function.
unfoldable pub handle_hooks : Bool → Request → Handler
handle_hooks configured r =
    when_get r.method
      (if configured
        then reply (respond 200 hooks_status)
        else reply
            (respond 503 (message "hooks not configured (drop ~/.eidetic/hooks.json to enable)")))
      (reply method_not_allowed)

module _ (engine : Engine) where
  unfoldable pub handle_search : Request → Handler
  handle_search r =
      when_get r.method
        (if is_empty (r.query "q")
          then reply (respond 400 (message "q required"))
          else call_store (search engine (r.query "q") r.surface (int_or_zero (r.query "limit")))
              search_error (λ rows. respond 200 (engram_list rows)))
        (reply method_not_allowed)

  unfoldable pub handle_recent : Request → Handler
  handle_recent r =
      when_get r.method
        (call_store
          (recent engine (int_or_zero (r.query "since")) (int_or_zero (r.query "before"))
            (int_or_zero (r.query "limit")))
          server_error (λ rows. respond 200 (engram_list rows)))
        (reply method_not_allowed)
