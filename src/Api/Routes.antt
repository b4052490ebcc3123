-- ===== src/Api/Routes.antt =====
-- `New` of internal/api/server.go, after the listener is bound: the routes, and around them the
-- middleware of internal/auth and the one for CORS. A path is clean and decoded; where ServeMux
-- answers with a redirect, net/http does so before a handler runs.
mod Reads
pub mod Keeps
pub mod Guard
use eidetic_daemon.Prelude.{
  ℕ, suc, ◌==◌, ◌&&◌, ℤ, pos, String, codes, Bool, true, false, not, Option, none, some, List, [],
  ◌∷◌, drop, all, length, is_empty, has_prefix, ◌-ℤ◌, if◌then◌else◌,
}
use eidetic_daemon.Store.Engine.{Engine}
use eidetic_daemon.Store.Session.{Session}
use eidetic_daemon.TextSearch.{Text, same_text}
use eidetic_daemon.Auth.{middleware}
use eidetic_daemon.Api.Params.{int_or_zero}
use eidetic_daemon.Api.Http.{
  when_get, when_post, get, options, Method, Request, Response, Clock, AskAnswer, message,
  dashboard, preflight, stream, respond, method_not_allowed,
}
use eidetic_daemon.Api.Export.{Answer, handle_export}
use eidetic_daemon.Api.Latency.{LatencyTracker, record_sample}
use eidetic_daemon.Api.Engrams.{
  Handler, reply, Json, handle_engrams, handle_engrams_batch, handle_engrams_count,
  handle_engrams_by_id,
}
use eidetic_daemon.Api.Queries.{
  handle_healthz, handle_surfaces, handle_search, handle_recent, handle_hooks,
}
use eidetic_daemon.Api.Timeline.{handle_timeline}
use eidetic_daemon.Api.Digest.{Runtime, handle_digest}
use eidetic_daemon.Api.Metrics.{handle_metrics}
use eidetic_daemon.Api.Ask.{handle_ask}
use eidetic_daemon.Api.AskCache.{AskCache, cache_stats}

pub data Route : Type 0 where
  engrams engrams_batch engrams_count surfaces search recent ask export timeline digest hooks
        healthz metrics root unknown :
      Route
  engrams_by_id : Text → Route

abbrev pub is_path : String → Text → Bool
is_path p path = same_text path (codes p)

-- {id}: one segment, with a character and without a slash
abbrev pub is_segment : Text → Bool
is_segment t = not (is_empty t) && all (λ c. not (c == b'/')) t

unfoldable pub route : Text → Route
route path =
    if is_path "/engrams" path
    then engrams
    else if is_path "/engrams/batch" path
    then engrams_batch
    else if is_path "/engrams/count" path
    then engrams_count
    else if has_prefix (codes "/engrams/") path && is_segment (drop 9 path)
    then engrams_by_id (drop 9 path)
    else if is_path "/surfaces" path
    then surfaces
    else if is_path "/search" path
    then search
    else if is_path "/recent" path
    then recent
    else if is_path "/ask" path
    then ask
    else if is_path "/export" path
    then export
    else if is_path "/timeline" path
    then timeline
    else if is_path "/digest" path
    then digest
    else if is_path "/hooks" path
    then hooks
    else if is_path "/healthz" path
    then healthz
    else if is_path "/metrics" path
    then metrics
    else if is_path "/" path
    then root
    else unknown

-- The fields of `Server` that the handlers use, with the answer cache of the package.
pub record Server : Type 0 where
  pub session : Session
  pub query_latency : LatencyTracker ℤ
  pub ask_cache : AskCache AskAnswer

-- What `Options` configures, and what of other packages the handlers call.
pub record Config : Type 0 where
  pub engine : Engine
  pub json : Json
  pub surface_name : Text → String
  pub runtime : Runtime
  pub auth_token : Text
  pub cors : Bool
  pub metrics_configured : Bool
  pub hooks_configured : Bool

-- A handler of the store alone.
abbrev pub on_session : Handler → Server → Response × Server
on_session h srv = let (response, s) = h srv.session in (response, record srv { session = s })

abbrev pub streamed : Session → Answer → Response × Session
streamed s none = (respond 200 (stream []), s)
streamed s (some (lines, s')) = (respond 200 (stream lines), s')

unfoldable pub is_preflight : Method → Bool
is_preflight options = true
is_preflight _ = false

module _ (config : Config) (clock : Clock) where
  open config use {engine, json, surface_name, runtime}

  -- GET /engrams is timed, whatever comes of it.
  abbrev pub timed : Method → LatencyTracker ℤ → LatencyTracker ℤ
  timed get t = record_sample (clock.stop -ℤ clock.start) t
  timed _ t = t

  -- More rounds than there are rows.
  unfoldable pub export_stream : Request → Handler
  export_stream r s =
      when_get r.method
        (streamed s (
          handle_export engine (suc (length s.db.engrams)) r.surface (int_or_zero (r.query "since"))
            (int_or_zero (r.query "before")) s))
        (method_not_allowed, s)

  abbrev pub handle_ask_at : Request → Server → Response × Server
  handle_ask_at r srv =
      let (response, s, cache) = handle_ask engine clock r srv.ask_cache srv.session in
      (response, record srv { session = s; ask_cache = cache })

  unfoldable pub dispatch : Route → Request → Server → Response × Server
  dispatch engrams r srv =
      on_session (handle_engrams engine json clock r)
        (record srv { query_latency = timed r.method srv.query_latency })
  dispatch engrams_batch r srv = on_session (handle_engrams_batch engine json clock r) srv
  dispatch engrams_count r srv = on_session (handle_engrams_count r) srv
  dispatch (engrams_by_id id) r srv = on_session (handle_engrams_by_id id r) srv
  dispatch surfaces r srv = on_session (handle_surfaces r) srv
  dispatch search r srv = on_session (handle_search engine r) srv
  dispatch recent r srv = on_session (handle_recent engine r) srv
  dispatch ask r srv = handle_ask_at r srv
  dispatch export r srv = on_session (export_stream r) srv
  dispatch timeline r srv = on_session (handle_timeline engine surface_name r) srv
  dispatch digest r srv = on_session (handle_digest runtime engine clock r) srv
  dispatch hooks r srv = on_session (handle_hooks config.hooks_configured r) srv
  dispatch healthz r srv = on_session (handle_healthz r) srv
  dispatch metrics r srv =
      on_session (handle_metrics (cache_stats srv.ask_cache) config.metrics_configured r) srv
  dispatch root r srv = (respond 200 dashboard, srv)
  dispatch unknown r srv = (respond 404 (message "404 page not found"), srv)

  unfoldable pub guarded : Request → Server → Response × Server
  guarded r srv =
      middleware config.auth_token (codes "/healthz" ∷ []) r.path r.authorization
        (respond 401 (message "unauthorized"), srv) (dispatch (route r.path) r srv)

  unfoldable pub serve : Request → Server → Response × Server
  serve r srv =
      let inner = guarded r srv in
      if config.cors && is_preflight r.method then (respond 204 preflight, srv) else inner
