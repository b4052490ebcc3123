-- ===== src/Api/Timeline/Merge.antt =====
-- The merge of several surfaces.
use eidetic_daemon.Prelude.{ℕ, ℤ, pos, ◌≤ℤ◌, arith, ◌≡◌, refl, String, List, [], ◌∷◌, ◌++◌, take}
use eidetic_daemon.Engram.{Engram}
use eidetic_daemon.Store.Schema.{Db}
use eidetic_daemon.Store.Engine.{Engine, ts_asc}
use eidetic_daemon.Store.Session.{ok, statement, query, ◌>>=◌}
use eidetic_daemon.Store.Read.{retrieve, retrieve_clauses, select, clamp_limit}
use eidetic_daemon.Store.Lookup.{quiet}
use eidetic_daemon.TextSearch.{Text}
use eidetic_daemon.Api.Engrams.{call_store}
use eidetic_daemon.Api.Sort.Sorted.{Decides, First, take-First}
use eidetic_daemon.Api.Timeline.{
  is_later, sort_engrams_by_ts, timeline_response, fetch_all, timeline_get,
}

abbrev pub NotAfter : Engram → Engram → Type 0
NotAfter a b = a.ts ≤ℤ b.ts

is_later-Decides : Decides is_later NotAfter
is_later-Decides = record {
  swapped = λ x e h. ground (arith, h);
  kept = λ x e h. ground (arith, h);
  transitive = λ x y z p q. omega arith;
}

module _ (engine : Engine) (name : Text → String) (since before : ℤ) (limit : ℕ) (db : Db) where
  -- The oldest rows of each surface, as many as one call returns.
  abbrev pub oldest_of_each : List Text → List Engram
  oldest_of_each [] = []
  oldest_of_each (s ∷ surfaces) =
      select engine (retrieve_clauses (name s) since before) ts_asc (clamp_limit 500 (pos limit)) db
      ++ oldest_of_each surfaces

  fetch_all-quiet :
      (surfaces : List Text)
      → fetch_all engine name since before limit surfaces (quiet db)
        ≡ (ok (oldest_of_each surfaces), quiet db)
  unfolding fetch_all retrieve query statement ◌>>=◌
  fetch_all-quiet [] = refl
  fetch_all-quiet (s ∷ surfaces) = rw (fetch_all-quiet surfaces) refl

  -- When no query fails, the timeline of some surfaces holds the first `limit` of the fetched engrams, in
  -- order of time, or all of them if they are fewer.
  pub timeline_get-First :
      (s : Text) (surfaces : List Text)
      → (rows : List Engram) × (timeline_get engine name since before limit
            (s ∷ surfaces)
            (quiet db)
          ≡ (timeline_response (s ∷ surfaces) rows, quiet db))
        × First is_later NotAfter limit (oldest_of_each (s ∷ surfaces)) rows
  unfolding timeline_get call_store sort_engrams_by_ts
  timeline_get-First s surfaces = (
    take limit (sort_engrams_by_ts (oldest_of_each (s ∷ surfaces))),
    rw (fetch_all-quiet (s ∷ surfaces), timeline_get, call_store) refl,
    take-First is_later NotAfter is_later-Decides limit (oldest_of_each (s ∷ surfaces)),
  )
