-- ===== src/Files.antt =====
-- What internal/sync and internal/versioncheck use of Go's package os: files by path, of any content.
-- Whether an operation fails is its first argument; one that fails leaves the files as they are.
use eidetic_daemon.Prelude.{Bool, true, false, none, some}
use eidetic_daemon.TextSearch.{Text}
use eidetic_daemon.Dict.{Dict, lookup, put, remove}

abbrev pub Files : Type 0 → Type 0
Files Content = Dict Content

module _ {Content : Type 0} where
  -- os.Remove, its error ignored
  unfoldable pub try_remove : Bool → Text → Files Content → Files Content
  unfolding remove
  try_remove true path files = files
  try_remove false path files = remove path files

  -- os.Rename, and whether it returned no error
  unfoldable pub try_rename : Bool → Text → Text → Files Content → Bool × Files Content
  unfolding lookup put remove
  try_rename true old new files = (false, files)
  try_rename false old new files = elim (lookup old files) [
    | none ↦ (false, files)
    | some c ↦ (true, put new c (remove old files))
  ]
