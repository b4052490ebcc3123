-- ===== src/Hooks.antt =====
-- internal/hooks/hooks.go: webhooks for captured engrams. Regular expressions and the folding of case
-- are parameters. Requests go out from goroutines; here stands the decision to fire, with its time.
pub mod Spacing
use eidetic_daemon.Prelude.{
  ℕ, ℤ, pos, negsuc, wrap_64, ◌-◌, suc, ◌-ℤ◌, ◌*◌, ◌+◌, ltb_ℤ, not, ◌&&◌, Bool, true, false, String,
  str_eq, Option, none, some, List, [], ◌∷◌, ◌++◌, map, codes, contains, drop, has_prefix, is_empty,
  if◌then◌else◌,
}
use eidetic_daemon.Engram.{Engram}
use eidetic_daemon.Store.Engine.{Engine}
use eidetic_daemon.Store.Session.{Result, ok, err, Session}
use eidetic_daemon.Store.Write.{insert_batch}
use eidetic_daemon.TextSearch.{Text}
use eidetic_daemon.Dict.{Dict, lookup, put}

pub record HookSpec : Type 0 where
  pub name : Text
  pub url : Text
  pub match_pattern : Text
  pub match_surface : String
  pub include_payload : Bool
  pub min_interval_sec : ℤ

-- What the source compiles a pattern to.
abbrev pub Regex : Type 0
Regex = Text → Bool

abbrev pub is_regex : HookSpec → Bool
is_regex h = has_prefix (codes "regex:") h.match_pattern

-- Maps by the names of hooks: the times of firing, the compiled patterns, the counts. `reads` is how
-- often the clock was read.
pub record Dispatcher : Type 0 where
  pub hooks : List HookSpec
  pub last_at : Dict ℤ
  pub regexes : Dict Regex
  pub counts : Dict ℕ
  pub reads : ℕ

-- A decision to fire. `limited` is its time for a hook with a limit to its rate.
pub record Fired : Type 0 where
  pub hook : HookSpec
  pub limited : Option ℤ
  pub engram : Engram

module _ (compile : Text → Option Regex) where
  abbrev pub add_regex : Text → Option Regex → Dict Regex → Dict Regex
  add_regex name none regexes = regexes
  add_regex name (some re) regexes = put name re regexes

  -- The loop of NewDispatcher.
  unfoldable pub register : List HookSpec → Dispatcher → Dispatcher
  unfolding has_prefix put
  register [] d = d
  register (h ∷ hs) d =
      let counted = record d { counts = put h.name 0 d.counts } in
      let compiled = add_regex h.name (compile (drop 6 h.match_pattern)) d.regexes in
      register hs (if is_regex h then record counted { regexes = compiled } else counted)

  -- NewDispatcher, none if there is nothing to do
  unfoldable pub new_dispatcher : Option (List HookSpec) → Option Dispatcher
  unfolding register
  new_dispatcher none = none
  new_dispatcher (some []) = none
  new_dispatcher (some (h ∷ hs)) = some (
      register (h ∷ hs)
        (record { hooks = h ∷ hs; last_at = []; regexes = []; counts = []; reads = 0 }))

abbrev pub matches_regex : Option Regex → Text → Bool
matches_regex none payload = false
matches_regex (some re) payload = re payload

-- matches, with strings.ToLower
unfoldable pub matches : (Text → Text) → Dispatcher → Engram → HookSpec → Bool
unfolding contains has_prefix lookup
matches to_lower d e h =
    if not (str_eq h.match_surface "") && not (str_eq h.match_surface e.surface)
    then false
    else if is_empty h.match_pattern
    then true
    else if is_regex h
    then matches_regex (lookup h.name d.regexes) e.payload
    else contains (to_lower h.match_pattern) (to_lower e.payload)

-- min_interval_sec as a time.Duration of 64 bits
abbrev pub seconds : ℤ → ℤ
seconds (pos n) = wrap_64 (pos (n * 1000000000))
seconds (negsuc n) = wrap_64 (negsuc ((n + 1) * 1000000000 - 1))

abbrev pub min_interval : HookSpec → ℤ
min_interval h = seconds h.min_interval_sec

-- now.Sub(last) >= interval, or no last time
abbrev pub waited : ℤ → Option ℤ → ℤ → Bool
waited interval none now = true
waited interval (some last) now = not (ltb_ℤ (now -ℤ last) interval)

-- The answer of canFire, with the time that it keeps.
pub data Decision : Type 0 where
  unlimited refused : Decision
  fires_at : ℤ → Decision

module _ (clock : ℕ → ℤ) where
  unfoldable pub can_fire : HookSpec → Dispatcher → Decision × Dispatcher
  unfolding lookup put
  can_fire h d =
      let now = clock d.reads in
      let later = record d { reads = suc d.reads } in
      if not (ltb_ℤ (pos 0) h.min_interval_sec)
      then (unlimited, d)
      else if waited (min_interval h) (lookup h.name d.last_at) now
      then (fires_at now, record later { last_at = put h.name now d.last_at })
      else (refused, later)

  abbrev pub fire : HookSpec → Engram → Decision → List Fired
  fire h e refused = []
  fire h e unlimited = record { hook = h; limited = none; engram = e } ∷ []
  fire h e (fires_at now) = record { hook = h; limited = some now; engram = e } ∷ []

  module _ (to_lower : Text → Text) where
    -- The loop of Maybe.
    unfoldable pub each_hook : Engram → List HookSpec → Dispatcher → List Fired × Dispatcher
    unfolding matches can_fire
    each_hook e [] d = ([], d)
    each_hook e (h ∷ hs) d =
        let (decision, d') = can_fire h d in
        let (fired, d'') = each_hook e hs (if matches to_lower d e h then d' else d) in
        (if matches to_lower d e h then fire h e decision ++ fired else fired, d'')

    unfoldable pub maybe : Engram → Dispatcher → List Fired × Dispatcher
    unfolding each_hook
    maybe e d = each_hook e d.hooks d

    unfoldable pub maybe_all : List Engram → Dispatcher → List Fired × Dispatcher
    unfolding maybe
    maybe_all [] d = ([], d)
    maybe_all (e ∷ es) d =
        let (fired, d') = maybe e d in let (more, d'') = maybe_all es d' in (fired ++ more, d'')

    abbrev pub after_sink :
        List Engram
        → Result (Unit {0}) × Session
        → Dispatcher
        → Result (Unit {0}) × Session × List Fired × Dispatcher
    after_sink batch (err e, s) d = (err e, s, [], d)
    after_sink batch (ok _, s) d = let (fired, d') = maybe_all batch d in (ok tt, s, fired, d')

    -- InsertBatch of the sink that WrapSink makes around the store.
    unfoldable pub hooked_insert_batch :
        Engine
        → List Engram
        → Session
        → Dispatcher
        → Result (Unit {0}) × Session × List Fired × Dispatcher
    unfolding maybe_all
    hooked_insert_batch engine batch s d = after_sink batch (insert_batch engine batch s) d

-- The end of `fire`: a request that got an answer is counted.
unfoldable pub count_fired : Bool → HookSpec → Dispatcher → Dispatcher
unfolding lookup put
count_fired sent h d = elim (lookup h.name d.counts) [
  | none ↦ d
  | some n ↦ if sent then record d { counts = put h.name (n + 1) d.counts } else d
]

pub record HookStatus : Type 0 where
  pub hook_name : Text
  pub pattern : Text
  pub surface : String
  pub regex : Bool
  pub fire_count : ℕ

-- The zero value if it is not there.
abbrev pub or_zero : Option ℕ → ℕ
or_zero none = 0
or_zero (some n) = n

unfoldable pub status : Dispatcher → List HookStatus
unfolding lookup has_prefix
status d =
    map
      (λ h. record {
        hook_name = h.name;
        pattern = h.match_pattern;
        surface = h.match_surface;
        regex = is_regex h;
        fire_count = or_zero (lookup h.name d.counts);
      })
      d.hooks
