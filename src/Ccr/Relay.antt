-- ===== src/Ccr/Relay.antt =====
-- The loop of `RunRelayWatcher` in internal/ccr/watcher.go: a file that is created below the relay
-- directory wakes the role that its directory names. The path is clean, as fsnotify reports it.
use eidetic_daemon.Prelude.{
  ℤ, ◌-◌, leb, ◌&&◌, Bool, Option, none, some, List, [], ◌∷◌, codes, length, drop, has_prefix,
  is_empty, split_on, if◌then◌else◌,
}
use eidetic_daemon.TextSearch.{Text, same_text}
use eidetic_daemon.Ccr.{WakeEvent, Broker, wake_active}

-- strings.HasSuffix
unfoldable pub has_suffix : Text → Text → Bool
unfolding same_text
has_suffix s suffix =
    leb (length suffix) (length s) && same_text (drop (length s - length suffix) s) suffix

-- The last element but one, if there are two.
abbrev pub last_but_one : List Text → Text
last_but_one [] = []
last_but_one (a ∷ []) = []
last_but_one (a ∷ b ∷ []) = a
last_but_one (a ∷ b ∷ c ∷ rest) = last_but_one (b ∷ c ∷ rest)

-- filepath.Base(filepath.Dir(path)); of a file in the root it is the separator.
unfoldable pub role_of : Text → Text
role_of path =
    let dir = last_but_one (split_on 0x2f path) in if is_empty dir then codes "/" else dir

unfoldable pub canonical_role : Text → Text
canonical_role role = if has_prefix (codes "claude_code_") role then drop 12 role else role

abbrev pub arrival : Text → Text → ℤ → WakeEvent
arrival role path now = record {
  agent_role = role;
  trigger = codes "relay_arrival";
  payload = path;
  fired_at = now;
}

unfoldable pub file_created : Text → ℤ → Broker → Option Broker
unfolding has_suffix role_of canonical_role wake_active
file_created path now b =
    let role = role_of path in
    let canonical = canonical_role role in
    if has_suffix path (codes ".json")
    then (elim (wake_active (arrival canonical path now) b) [
      | none ↦ none
      | some b' ↦ wake_active (arrival role path now) b'
    ])
    else some b
