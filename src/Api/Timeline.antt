-- ===== src/Api/Timeline.antt =====
-- `handleTimeline` and `sortEngramsByTS` of internal/api/routes.go: the engrams of several surfaces,
-- merged by time.
pub mod Merge
use eidetic_daemon.Prelude.{
  ℕ, ℤ, pos, ltb_ℤ, Bool, String, true, List, [], ◌∷◌, ◌++◌, map, filter, length, take, pos_part,
  not, is_empty, split_on, if◌then◌else◌,
}
use eidetic_daemon.Engram.{Engram}
use eidetic_daemon.Store.Engine.{Engine}
use eidetic_daemon.Store.Session.{M, pure, ◌>>=◌}
use eidetic_daemon.Store.Read.{retrieve}
use eidetic_daemon.TextSearch.{Text}
use eidetic_daemon.Api.Sort.{insertion_sort}
use eidetic_daemon.Api.Params.{int_or_zero, trim_space}
use eidetic_daemon.Api.Http.{when_get, Request, Response, timeline, respond, method_not_allowed}
use eidetic_daemon.Api.Engrams.{Handler, reply, call_store, server_error}

-- rows[j-1].TS > rows[j].TS
abbrev pub is_later : Engram → Engram → Bool
is_later before e = ltb_ℤ e.ts before.ts

unfoldable pub sort_engrams_by_ts : List Engram → List Engram
sort_engrams_by_ts rows = insertion_sort is_later rows

-- The default 200, the limit, or the cap 1000.
abbrev pub timeline_limit : ℤ → ℕ
timeline_limit limit =
    if not (ltb_ℤ (pos 0) limit)
    then 200
    else if ltb_ℤ (pos 1000) limit
    then 1000
    else pos_part limit

-- The names between commas, trimmed, without the empty ones.
abbrev pub surfaces_of : Text → List Text
surfaces_of raw =
    filter (λ s. not (is_empty s)) (map trim_space (if is_empty raw then [] else split_on b',' raw))

abbrev pub timeline_response : List Text → List Engram → Response
timeline_response surfaces rows =
    respond 200 (timeline (record { engrams = rows; count = length rows; surfaces = surfaces }))

-- A surface as the tables hold it.
module _ (engine : Engine) (name : Text → String) where
  -- The loop of Retrieve over the surfaces.
  unfoldable pub fetch_all : ℤ → ℤ → ℕ → List Text → M (List Engram)
  fetch_all since before limit [] = pure []
  fetch_all since before limit (s ∷ surfaces) = do
    rows ← retrieve engine (name s) since before (pos limit) true
    rest ← fetch_all since before limit surfaces
    pure (rows ++ rest)

  unfoldable pub timeline_get : ℤ → ℤ → ℕ → List Text → Handler
  timeline_get since before limit [] =
      call_store (retrieve engine "" since before (pos limit) true) server_error
        (timeline_response [])
  timeline_get since before limit (s ∷ surfaces) =
      call_store (fetch_all since before limit (s ∷ surfaces)) server_error
        (λ results. timeline_response (s ∷ surfaces) (take limit (sort_engrams_by_ts results)))

  unfoldable pub handle_timeline : Request → Handler
  handle_timeline r =
      when_get r.method
        (timeline_get (int_or_zero (r.query "since")) (int_or_zero (r.query "before"))
          (timeline_limit (int_or_zero (r.query "limit"))) (surfaces_of (r.query "surfaces")))
        (reply method_not_allowed)
