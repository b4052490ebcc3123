-- ===== src/Api/Routes/Keeps.antt =====
-- What a request does to the database, over all routes.
use eidetic_daemon.Prelude.{
  ℤ, pos, arith, refl, inl, inr, not, ◌||◌, ◌&&◌, ltb_ℤ, str_eq, Bool-cases, Option, none, some,
  Option-cases, List, [], ◌∷◌, String, codes,
}
use eidetic_daemon.Engram.{Bytes, Engram}
use eidetic_daemon.Store.Engine.{Engine}
use eidetic_daemon.Store.Session.{Session}
use eidetic_daemon.Store.Invariant.{
  insert-Keeps, insert_batch-Keeps, purge-Keeps, delete_by_id-Keeps,
}
use eidetic_daemon.Store.Unchanged.{
  get_by_id-Reads, retrieve-Reads, insert-Clean, insert_batch-Clean, purge-Clean,
  delete_by_id-Clean,
}
use eidetic_daemon.TextSearch.{Text, member}
use eidetic_daemon.Auth.{middleware, enabled, validate}
use eidetic_daemon.Api.Params.{parse_int}
use eidetic_daemon.Api.Http.{
  Method, get, post, delete, options, other_method, Request, Response, Clock, when_post,
}
use eidetic_daemon.Api.Engrams.{
  Handler, reply, Json, handle_engrams, engrams_method, handle_engrams_get, handle_engrams_post,
  handle_engrams_delete, handle_engrams_batch, handle_engrams_by_id, by_id_method,
  handle_engram_get, handle_engram_delete, insert_decoded, insert_items, read_engram, read_items,
}
use eidetic_daemon.Api.AskCache.{cache_stats}
use eidetic_daemon.Api.Routes.Reads.{export_stream-Reading, handle_ask-db}
use eidetic_daemon.Api.Effects.{
  Effect, untouched, Reading, call-Reading, call-Effect, handle_healthz-Reading,
  handle_surfaces-Reading, handle_hooks-Reading, handle_engrams_count-Reading,
  handle_metrics-Reading, handle_search-Reading, handle_recent-Reading, handle_timeline-Reading,
  handle_digest-Reading,
}
use eidetic_daemon.Api.Routes.{
  Route, engrams, engrams_batch, engrams_count, engrams_by_id, surfaces, search, recent, ask,
  export, timeline, digest, hooks, healthz, metrics, root, unknown, Config, Server, dispatch,
  guarded, serve, is_preflight, route,
}

-- The answers of a handler for one method.
abbrev Does : Method → Handler → Type 0
Does m h = (s : Session) → Effect m s (h s)

reads : (m : Method) (h : Handler) → Reading h → Does m h
reads m h r s = untouched (r.same s)

handle_engrams_delete-Effect : (r : Request) → Does delete (handle_engrams_delete r)
unfolding handle_engrams_delete
handle_engrams_delete-Effect r s = elim (Bool-cases (str_eq r.surface "")) [
  | inl missing ↦ rw (missing, handle_engrams_delete) (untouched refl)
  | inr named ↦
      rw (named, handle_engrams_delete)
        (call-Effect _ _ delete _ s (purge-Clean r.surface _ s) (purge-Keeps r.surface _) refl
          (λ n. omega arith))
]

by_id_method-Effect : (id : ℤ) (m : Method) → Does m (by_id_method id m)
unfolding by_id_method handle_engram_get handle_engram_delete
by_id_method-Effect id get s = reads get _ (call-Reading _ _ _ (get_by_id-Reads id)) s
by_id_method-Effect id delete s =
    call-Effect _ _ delete _ s (delete_by_id-Clean id s) (delete_by_id-Keeps id) refl
      (λ n. omega arith)
by_id_method-Effect id post s = untouched refl
by_id_method-Effect id options s = untouched refl
by_id_method-Effect id other_method s = untouched refl

handle_engrams_by_id-Effect : (id : Text) (r : Request) → Does r.method (handle_engrams_by_id id r)
unfolding handle_engrams_by_id
handle_engrams_by_id-Effect id r s =
    elim (Bool-cases (not (parse_int id).1 || not (ltb_ℤ (pos 0) (parse_int id).0))) [
      | inl invalid ↦ rw (invalid, handle_engrams_by_id) (untouched refl)
      | inr valid ↦
          rw (valid, handle_engrams_by_id) (by_id_method-Effect (parse_int id).0 r.method s)
    ]

module _ (engine : Engine) (json : Json) (clock : Clock) where
  insert_decoded-Effect :
      (d : String × Option Engram) → Does post (insert_decoded engine json clock d)
  unfolding insert_decoded
  insert_decoded-Effect (problem, none) s = untouched refl
  insert_decoded-Effect (problem, some e) s =
      call-Effect _ _ post _ s (insert-Clean engine _ s) (insert-Keeps engine _) refl
        (λ n. omega arith)

  insert_items-Effect :
      (d : String × Option (List Engram)) → Does post (insert_items engine json clock d)
  unfolding insert_items
  insert_items-Effect (problem, none) s = untouched refl
  insert_items-Effect (problem, some []) s = untouched refl
  insert_items-Effect (problem, some (e ∷ es)) s =
      call-Effect _ _ post _ s (insert_batch-Clean engine _ s) (insert_batch-Keeps engine _) refl
        (λ n. omega arith)

  read_engram-Effect : (body : Option Bytes) → Does post (read_engram engine json clock body)
  unfolding read_engram
  read_engram-Effect none s = untouched refl
  read_engram-Effect (some body) s = insert_decoded-Effect (json.unmarshal_engram body) s

  read_items-Effect : (body : Option Bytes) → Does post (read_items engine json clock body)
  unfolding read_items
  read_items-Effect none s = untouched refl
  read_items-Effect (some body) s = insert_items-Effect (json.unmarshal_engrams body) s

  engrams_method-Effect : (m : Method) (r : Request) → Does m (engrams_method engine json clock m r)
  unfolding engrams_method handle_engrams_get handle_engrams_post
  engrams_method-Effect get r s =
      reads get _ (call-Reading _ _ _ (retrieve-Reads engine _ _ _ _ _)) s
  engrams_method-Effect post r s = read_engram-Effect _ s
  engrams_method-Effect delete r s = handle_engrams_delete-Effect r s
  engrams_method-Effect options r s = untouched refl
  engrams_method-Effect other_method r s = untouched refl

  when_post-Effect :
      (m : Method) (h : Handler) (response : Response)
      → Does post h
      → Does m (when_post m h (reply response))
  when_post-Effect post h response e s = e s
  when_post-Effect get h response e s = untouched refl
  when_post-Effect delete h response e s = untouched refl
  when_post-Effect options h response e s = untouched refl
  when_post-Effect other_method h response e s = untouched refl

-- The result of a request, seen as that of a handler.
abbrev pub seen : Response × Server → Response × Session
seen (response, srv) = (response, srv.session)

module _ (config : Config) (clock : Clock) where
  open config use {engine, json}

  dispatch-Effect :
      (at : Route) (r : Request) (srv : Server)
      → Effect r.method srv.session (seen (dispatch config clock at r srv))
  unfolding dispatch handle_engrams handle_engrams_batch
  dispatch-Effect engrams r srv = engrams_method-Effect engine json clock r.method r srv.session
  dispatch-Effect engrams_batch r srv =
      when_post-Effect engine json clock r.method _ _ (read_items-Effect engine json clock _)
        srv.session
  dispatch-Effect engrams_count r srv =
      untouched ((handle_engrams_count-Reading r).same srv.session)
  dispatch-Effect (engrams_by_id id) r srv = handle_engrams_by_id-Effect id r srv.session
  dispatch-Effect surfaces r srv = untouched ((handle_surfaces-Reading r).same srv.session)
  dispatch-Effect search r srv = untouched ((handle_search-Reading engine r).same srv.session)
  dispatch-Effect recent r srv = untouched ((handle_recent-Reading engine r).same srv.session)
  dispatch-Effect ask r srv = untouched (handle_ask-db engine clock r srv.ask_cache srv.session)
  dispatch-Effect export r srv = untouched ((export_stream-Reading config clock r).same srv.session)
  dispatch-Effect timeline r srv =
      untouched ((handle_timeline-Reading engine config.surface_name r).same srv.session)
  dispatch-Effect digest r srv =
      untouched ((handle_digest-Reading engine config.runtime clock r).same srv.session)
  dispatch-Effect hooks r srv =
      untouched ((handle_hooks-Reading config.hooks_configured r).same srv.session)
  dispatch-Effect healthz r srv = untouched ((handle_healthz-Reading r).same srv.session)
  dispatch-Effect metrics r srv = untouched (
      (handle_metrics-Reading (cache_stats srv.ask_cache) config.metrics_configured r).same
        srv.session)
  dispatch-Effect root r srv = untouched refl
  dispatch-Effect unknown r srv = untouched refl

  guarded-Effect :
      (r : Request) (srv : Server) → Effect r.method srv.session (seen (guarded config clock r srv))
  unfolding guarded middleware
  guarded-Effect r srv = elim (Bool-cases (not (enabled config.auth_token))) [
    | inl off ↦ rw (off, guarded, middleware) (dispatch-Effect (route r.path) r srv)
    | inr on ↦ elim (Bool-cases (member r.path (codes "/healthz" ∷ []))) [
      | inl open_path ↦
          rw (on, open_path, guarded, middleware) (dispatch-Effect (route r.path) r srv)
      | inr closed ↦ elim (Option-cases (validate config.auth_token r.authorization)) [
        | inl valid ↦
            rw (on, closed, valid, guarded, middleware) (dispatch-Effect (route r.path) r srv)
        | inr (reason, invalid) ↦ rw (on, closed, invalid, guarded, middleware) (untouched refl)
      ]
    ]
  ]

  -- Whatever a request asks and whichever statements fail, the database is afterwards as it was, or the
  -- request was a POST or a DELETE, its status is below 400, and if the tables were consistent they are.
  pub serve-Effect :
      (r : Request) (srv : Server) → Effect r.method srv.session (seen (serve config clock r srv))
  unfolding serve
  serve-Effect r srv = elim (Bool-cases (config.cors && is_preflight r.method)) [
    | inl preflight ↦ rw (preflight, serve) (untouched refl)
    | inr request ↦ rw (request, serve) (guarded-Effect r srv)
  ]
