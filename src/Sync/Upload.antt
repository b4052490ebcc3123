-- ===== src/Sync/Upload.antt =====
-- `upload`, `SyncNow` and `TriggerIfDue` of internal/sync/syncer.go. The copy of the database that
-- VACUUM INTO makes is removed again at the end, and only its size is kept here.
pub mod History
pub mod Spacing
use eidetic_daemon.Prelude.{
  ℕ, ℤ, pos, negsuc, wrap_64, ◌+◌, ◌-◌, ◌-ℤ◌, ◌*◌, ltb, ltb_ℤ, eqb_ℤ, ◌==◌, not, Bool, true, false,
  Option, none, some, List, [], ◌∷◌, length, take, if◌then◌else◌,
}
use mathlib.Core.Option
use eidetic_daemon.TextSearch.{Text}
use eidetic_daemon.Files.{Files}
use eidetic_daemon.Store.Session.{Session}
use eidetic_daemon.Store.Session
use eidetic_daemon.Store.Read.{count}
use eidetic_daemon.Sync.{
  BackupEntry, SyncState, Config, Json, Result, ok, err, row_count, not_configured, too_large,
  read_snapshot, worker_returned, max_backup_history, max_db_size, load_sync_state, save_sync_state,
}

-- What one upload meets: the size of the copy, or the error of the steps that make, open and measure
-- it; whether reading the copy fails; the status and the key of the Worker's answer, or the error of
-- the steps up to it; the clock; and the failures around the state file.
pub record Attempt (Content : Type 0) : Type 0 where
  pub copy : Result ℕ
  pub read_fails : Bool
  pub answer : Result (ℕ × Text)
  pub now : ℤ
  pub state_read_fails : Bool
  pub state_write : Option (Option Content)
  pub state_rename_fails : Bool

abbrev pub newest : List BackupEntry → List BackupEntry
newest history =
    if ltb max_backup_history (length history) then take max_backup_history history else history

module _ {Content : Type 0} (json : Json Content) (dir : Text) where
  -- After the Worker worker_answered 201; an error of the state file is ignored.
  unfoldable pub record_upload : Attempt Content → Text → ℕ → Files Content → Files Content
  unfolding load_sync_state save_sync_state
  record_upload a key size files =
      let prev = (load_sync_state json a.state_read_fails dir files).0 in
      let entry : BackupEntry = record { synced_at = a.now; key = key; bytes = size } in
      let state : SyncState = record {
        last_sync = some a.now;
        last_key = key;
        last_bytes = size;
        history = newest (entry ∷ prev.history);
      } in
      (save_sync_state json a.state_write a.state_rename_fails dir state files).1

  unfoldable pub worker_answered :
      Attempt Content → ℕ → Result (ℕ × Text) → Files Content → Result (Unit {0}) × Files Content
  unfolding record_upload
  worker_answered a size (err e) files = (err e, files)
  worker_answered a size (ok (status, key)) files =
      if status == 201
      then (ok tt, record_upload a key size files)
      else (err (worker_returned status), files)

  unfoldable pub copied :
      Attempt Content → Result ℕ → Files Content → Result (Unit {0}) × Files Content
  unfolding worker_answered
  copied a (err e) files = (err e, files)
  copied a (ok size) files =
      if ltb max_db_size size
      then (err (too_large size), files)
      else if a.read_fails
      then (err read_snapshot, files)
      else worker_answered a size a.answer files

  unfoldable pub upload : Attempt Content → Files Content → Result (Unit {0}) × Files Content
  unfolding copied
  upload a files = copied a a.copy files

-- A Syncer that is not nil; `last_sync` is none for the zero time.
pub record Syncer : Type 0 where
  pub cfg : Config
  pub last_sync : Option ℤ
  pub last_row : ℤ

abbrev pub new_syncer : Config → Syncer
new_syncer cfg = record { cfg = cfg; last_sync = none; last_row = pos 0 }

-- New, of a configuration that may be nil
abbrev pub new : Option Config → Option Syncer
new = Option.map new_syncer

abbrev pub default_sync_interval : ℤ
default_sync_interval = pos 3600000000000

-- So many minutes, as a time.Duration of 64 bits.
abbrev pub minutes : ℤ → ℤ
minutes (pos n) = wrap_64 (pos (n * 60000000000))
minutes (negsuc n) = wrap_64 (negsuc ((n + 1) * 60000000000 - 1))

-- In nanoseconds.
unfoldable pub interval : Config → ℤ
interval cfg =
    if ltb_ℤ (pos 0) cfg.sync_interval then minutes cfg.sync_interval else default_sync_interval

-- time.Since(s.lastSync) < interval; since the zero time it is the longest duration.
unfoldable pub too_early : Syncer → ℤ → Bool
unfolding interval
too_early s now = elim s.last_sync [ none ↦ false | some t ↦ ltb_ℤ (now -ℤ t) (interval s.cfg) ]

-- What a poll reads and writes.
pub record World (Content : Type 0) : Type 0 where
  pub syncer : Syncer
  pub session : Session
  pub files : Files Content

module _ {Content : Type 0} (json : Json Content) (dir : Text) where
  -- A poll's result, none if nothing was tried, and what it leaves.
  abbrev pub Polled : Type 0
  Polled = Option (Result (Unit {0})) × World Content

  -- After the upload, for which the clock is read again.
  unfoldable pub uploaded : ℤ → ℤ → World Content → Result (Unit {0}) × Files Content → Polled
  uploaded done rows w (err e, files) = (some (err e), record w { files = files })
  uploaded done rows w (ok _, files) =
      let s = record w.syncer { last_sync = some done; last_row = rows } in
      (some (ok tt), record w { syncer = s; files = files })

  unfoldable pub after_count :
      Attempt Content → ℤ → World Content → Session.Result ℤ × Session → Polled
  unfolding upload uploaded
  after_count a done w (Session.err e, session) =
      (some (err row_count), record w { session = session })
  after_count a done w (Session.ok rows, session) =
      if eqb_ℤ rows w.syncer.last_row
      then uploaded done rows (record w { session = session }) (upload json dir a w.files)
      else (none, record w { syncer = record w.syncer { last_row = rows }; session = session })

  unfoldable pub trigger_if_due : Attempt Content → ℤ → ℤ → World Content → Polled
  unfolding too_early after_count
  trigger_if_due a now done w =
      if too_early w.syncer now then (none, w) else after_count a done w (count w.session)

  -- SyncNow, of a Syncer that may be nil
  unfoldable pub sync_now :
      Option Syncer → Attempt Content → Files Content → Result (Unit {0}) × Files Content
  unfolding upload
  sync_now none a files = (err not_configured, files)
  sync_now (some s) a files = upload json dir a files
