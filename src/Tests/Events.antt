-- ===== src/Tests/Events.antt =====
-- A file beside a watched directory whose path begins with the directory's.
use eidetic_daemon.Prelude.{
  ◌≡◌, refl, codes, contains, has_prefix, split_on, Bool, Option, true, false, some, [], ◌∷◌,
}
use eidetic_daemon.TextSearch.{Text}
use eidetic_daemon.Capture.Events.{
  SurfaceConfig, FileEvent, schedules, matches_config, find_surface, on_event,
}

abbrev any_glob : Text → Text → Option Bool
any_glob pattern name = some true

abbrev cursor_files : SurfaceConfig
cursor_files = record {
  surface = "cursor";
  root = codes "/u/cursor";
  glob = codes "*.json";
  path_contains = [];
}

abbrev beside : FileEvent
beside = record {
  path = codes "/u/cursor2/a.json";
  writes = true;
  creates = false;
  renames = false;
  changes_mode = false;
  is_dir = false;
}

beside_scheduled : on_event any_glob (cursor_files ∷ []) beside ≡ schedules "cursor"
unfolding on_event find_surface matches_config has_prefix contains split_on
beside_scheduled = refl
