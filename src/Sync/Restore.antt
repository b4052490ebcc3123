-- ===== src/Sync/Restore.antt =====
-- `RestoreFromConfig` of internal/sync/syncer.go: a backup is downloaded next to the database and then
-- takes its place.
pub mod Safe
use eidetic_daemon.Prelude.{
  ℕ, ◌==◌, Bool, true, false, Option, none, some, ◌++◌, codes, if◌then◌else◌,
}
use eidetic_daemon.TextSearch.{Text}
use eidetic_daemon.Files.{Files, try_remove, try_rename}
use eidetic_daemon.Dict.{lookup, put}
use eidetic_daemon.Sync.{
  Config, Error, Result, ok, err, not_configured, no_backup, worker_returned, create_temp,
  write_temp, backup_existing, replace_db,
}

-- What was written of the body, and whether that was all of it.
pub record Download (Content : Type 0) : Type 0 where
  pub status : ℕ
  pub received : Content
  pub complete : Bool

-- Which of the file operations fail; a Stat that fails is one of a file that is there.
pub record Trouble : Type 0 where
  pub create : Bool
  pub stat : Bool
  pub backup : Bool
  pub replace : Bool
  pub undo : Bool
  pub discard : Bool

abbrev pub tmp_path : Text → Text
tmp_path db_path = db_path ++ codes ".restore-tmp"

abbrev pub bak_path : Text → Text
bak_path db_path = db_path ++ codes ".bak"

abbrev pub Restored : Type 0 → Type 0
Restored Content = Result (Unit {0}) × Files Content

module _ {Content : Type 0} (t : Trouble) (db_path : Text) where
  -- What the rename of the downloaded file leaves; after a failure the backup is renamed back.
  abbrev pub after_replace : Bool × Files Content → Restored Content
  after_replace (true, files) = (ok tt, files)
  after_replace (false, files) =
      (err replace_db, (try_rename t.undo (bak_path db_path) db_path files).1)

  unfoldable pub replace_with_tmp : Files Content → Restored Content
  unfolding try_rename
  replace_with_tmp files = after_replace (try_rename t.replace (tmp_path db_path) db_path files)

  abbrev pub after_backup : Bool × Files Content → Restored Content
  after_backup (true, files) = replace_with_tmp files
  after_backup (false, files) = (err backup_existing, try_remove t.discard (tmp_path db_path) files)

  -- From the Stat of the database on.
  unfoldable pub install : Files Content → Restored Content
  unfolding lookup try_rename try_remove replace_with_tmp
  install files = elim (lookup db_path files) [
    | none ↦ replace_with_tmp files
    | some old ↦
        let backed_up = after_backup (try_rename t.backup db_path (bak_path db_path) files) in
        let straight = replace_with_tmp files in if t.stat then straight else backed_up
  ]

  unfoldable pub save_download : Download Content → Files Content → Restored Content
  unfolding put try_remove install
  save_download d files =
      let written = put (tmp_path db_path) d.received files in
      let installed = install written in
      if t.create
      then (err create_temp, files)
      else if d.complete
      then installed
      else (err write_temp, try_remove t.discard (tmp_path db_path) written)

  unfoldable pub receive : Result (Download Content) → Files Content → Restored Content
  unfolding save_download
  receive (err e) files = (err e, files)
  receive (ok d) files =
      let saved = save_download d files in
      if d.status == 404
      then (err no_backup, files)
      else if d.status == 200
      then saved
      else (err (worker_returned d.status), files)

  unfoldable pub restore_from_config :
      Option Config → Result (Download Content) → Files Content → Restored Content
  unfolding receive
  restore_from_config none answer files = (err not_configured, files)
  restore_from_config (some cfg) answer files = receive answer files
