-- ===== src/Sync.antt =====
-- internal/sync/syncer.go: the configuration, the state file, and the upload of a copy of the
-- database. The answers of SQLite and of the Worker are arguments, and so are the failures of the
-- file operations.
pub mod Restore
pub mod Upload
use eidetic_daemon.Prelude.{
  ℕ, ℤ, ◌+◌, ltb, ◌==◌, Bool, true, false, ◌||◌, Option, none, some, List, [], ◌∷◌, ◌++◌, length,
  take, codes, is_empty, if◌then◌else◌,
}
use eidetic_daemon.TextSearch.{Text}
use eidetic_daemon.Files.{Files, try_rename}
use eidetic_daemon.Dict.{lookup, put}

pub record BackupEntry : Type 0 where
  pub synced_at : ℤ
  pub key : Text
  pub bytes : ℕ

-- `none` is the zero time.
pub record SyncState : Type 0 where
  pub last_sync : Option ℤ
  pub last_key : Text
  pub last_bytes : ℕ
  pub history : List BackupEntry

abbrev pub zero_state : SyncState
zero_state = record { last_sync = none; last_key = []; last_bytes = 0; history = [] }

abbrev pub max_backup_history : ℕ
max_backup_history = 10

abbrev pub max_db_size : ℕ
max_db_size = 524288000

pub record Config : Type 0 where
  pub worker_url : Text
  pub api_key : Text
  pub device_id : Text
  pub sync_interval : ℤ
  pub team_id : Text

pub data Error : Type 0 where
  -- of the state file and of the configuration
  read_state parse_state read_config parse_config missing_fields : Error
  write_state : Error
  -- of an upload
  worker_auth not_configured row_count snapshot open_snapshot read_snapshot build_request
        unreachable :
      Error
  too_large : ℕ → Error
  worker_returned : ℕ → Error
  -- of a restore
  no_backup create_temp write_temp backup_existing replace_db : Error

pub data Result (A : Type 0) : Type 0 where
  ok : A → Result A
  err : Error → Result A

-- What encoding/json makes of a state, and of a file: the value it fills in, and whether it returned
-- no error.
pub record Json (Content : Type 0) : Type 0 where
  pub encode : SyncState → Content
  pub decode : Content → Bool × SyncState

-- filepath.Join
abbrev pub in_dir : Text → Text → Text
in_dir dir name = dir ++ 0x2f ∷ name

abbrev pub state_path : Text → Text
state_path dir = in_dir dir (codes "sync-state.json")

-- LoadConfig, from what reading and decoding the file gave; `none` as a file is an absent one.
pub data Loaded (A : Type 0) : Type 0 where
  absent unreadable malformed : Loaded A
  loaded : A → Loaded A

unfoldable pub load_config : Loaded Config → Result (Option Config)
load_config absent = ok none
load_config unreadable = err read_config
load_config malformed = err parse_config
load_config (loaded cfg) =
    if is_empty cfg.worker_url || (is_empty cfg.api_key || is_empty cfg.device_id)
    then err missing_fields
    else ok (some cfg)

module _ {Content : Type 0} (json : Json Content) where
  -- LoadSyncState: the state, and the error with which it comes.
  unfoldable pub load_sync_state : Bool → Text → Files Content → SyncState × Option Error
  unfolding lookup
  load_sync_state true dir files = (zero_state, some read_state)
  load_sync_state false dir files = elim (lookup (state_path dir) files) [
    | none ↦ (zero_state, none)
    | some content ↦
        let (parsed, state) = json.decode content in
        (state, if parsed then none else some parse_state)
  ]

  -- saveSyncState: a write that fails leaves what it is said to leave in the temporary file.
  unfoldable pub save_sync_state :
      Option (Option Content)
      → Bool
      → Text
      → SyncState
      → Files Content
      → Result (Unit {0}) × Files Content
  unfolding put try_rename
  save_sync_state (some (some part)) rename_fails dir state files =
      (err write_state, put (state_path dir ++ codes ".tmp") part files)
  save_sync_state (some none) rename_fails dir state files = (err write_state, files)
  save_sync_state none rename_fails dir state files =
      let tmp = state_path dir ++ codes ".tmp" in
      let (moved, files') =
        try_rename rename_fails tmp (state_path dir) (put tmp (json.encode state) files) in
      (if moved then ok tt else err write_state, files')

-- CheckConfig, from the status of the Worker's answer or the error of the steps up to it; what it
-- prints is left out.
unfoldable pub check_config : Option Config → Result ℕ → Result (Unit {0})
check_config none answer = err not_configured
check_config (some cfg) (err e) = err e
check_config (some cfg) (ok status) =
    if status == 200
    then ok tt
    else if status == 401
    then err worker_auth
    else err (worker_returned status)
