-- ===== src/Capture/Events.antt =====
-- `matches` and `onEvent` of internal/capture/watcher.go: what a change of a file leads to. A path is
-- the list of its bytes; filepath.Match is an argument, `none` for a pattern that it rejects.
use eidetic_daemon.Prelude.{
  not, ◌&&◌, ◌||◌, Bool, false, String, Option, none, some, List, [], ◌∷◌, contains, has_prefix,
  is_empty, last?, split_on, if◌then◌else◌,
}
use eidetic_daemon.TextSearch.{Text}

pub record SurfaceConfig : Type 0 where
  pub surface : String
  pub root : Text
  pub glob : Text
  pub path_contains : Text

-- The operations of an event that the handler asks for, and whether Stat finds a directory.
pub record FileEvent : Type 0 where
  pub path : Text
  pub writes : Bool
  pub creates : Bool
  pub renames : Bool
  pub changes_mode : Bool
  pub is_dir : Bool

pub data Action : Type 0 where
  ignored watches_dir : Action
  schedules : String → Action

-- filepath.Base of a path that names a file
abbrev pub base_of : Option Text → Text
base_of none = []
base_of (some name) = name

abbrev pub accepted : Option Bool → Bool
accepted none = false
accepted (some found) = found

module _ (glob_match : Text → Text → Option Bool) where
  unfoldable pub matches_config : SurfaceConfig → Text → Bool
  unfolding contains split_on
  matches_config c path =
      if not (is_empty c.glob)
        && not (accepted (glob_match c.glob (base_of (last? (split_on 0x2f path)))))
      then false
      else is_empty c.path_contains || contains c.path_contains path

  -- The loop over the configurations.
  unfoldable pub find_surface : List SurfaceConfig → Text → Action
  unfolding matches_config has_prefix
  find_surface [] path = ignored
  find_surface (c ∷ cs) path =
      let rest = find_surface cs path in
      if has_prefix c.root path && matches_config c path then schedules c.surface else rest

  unfoldable pub on_event : List SurfaceConfig → FileEvent → Action
  unfolding find_surface
  on_event configs ev =
      if not (ev.writes || (ev.creates || (ev.renames || ev.changes_mode)))
      then ignored
      else if ev.creates && ev.is_dir
      then watches_dir
      else find_surface configs ev.path
