-- ===== src/Tests/Sync.antt =====
-- Uploads and a restore over a few files; a state file is the state itself, and every other file is
-- a zero state with a size.
use eidetic_daemon.Prelude.{
  arith, negsuc, ℤ, pos, ◌≡◌, refl, map, codes, true, false, none, some, List, [], ◌∷◌, take,
}
use eidetic_daemon.TextSearch.{Text, same_text}
use eidetic_daemon.Files.{Files, try_remove, try_rename}
use eidetic_daemon.Dict.{lookup, put, remove}
use eidetic_daemon.Store.Schema.{empty_db}
use eidetic_daemon.Sync.{SyncState, Config, Json, ok, zero_state, load_sync_state, save_sync_state}
use eidetic_daemon.Sync.Upload.{
  Attempt, World, new_syncer, interval, upload, record_upload, worker_answered, copied,
}
use eidetic_daemon.Sync.Upload.History.{upload_all, history_of, recorded, history-recorded}
use eidetic_daemon.Sync.Upload.Spacing.{Poll, uploads, Spaced, configured, uploads-Spaced}
use eidetic_daemon.Sync.Restore.{
  Trouble, Download, restore_from_config, install, replace_with_tmp, receive, save_download,
}
use eidetic_daemon.Sync.Restore.Safe.{Safe, restore_from_config-Safe}

abbrev as_is : Json SyncState
as_is = record { encode = λ s. s; decode = λ s. (true, s) }

abbrev accepted : Attempt SyncState
accepted = record {
  copy = ok 4096;
  read_fails = false;
  answer = ok (201, codes "k1");
  now = pos 5;
  state_read_fails = false;
  state_write = none;
  state_rename_fails = false;
}

abbrev refused : Attempt SyncState
refused = record accepted { answer = ok (500, []) }

abbrev later : Attempt SyncState
later = record accepted { answer = ok (201, codes "k2"); now = pos 9 }

abbrev three : List (Attempt SyncState)
three = accepted ∷ refused ∷ later ∷ []

abbrev dir : Text
dir = codes "/d"

two_entries :
    map (λ e. e.key) (history_of as_is dir (upload_all as_is dir three []))
    ≡ codes "k2" ∷ codes "k1" ∷ []
unfolding upload_all upload copied worker_answered record_upload load_sync_state save_sync_state
    lookup put remove try_rename same_text
two_entries = refl

no_history : history_of as_is dir [] ≡ take 10 []
unfolding load_sync_state lookup
no_history = refl

history-recorded_example :
    history_of as_is dir (upload_all as_is dir three []) ≡ take 10 (recorded three [])
history-recorded_example = history-recorded as_is dir (λ s. refl) three [] [] no_history

abbrev cfg : Config
cfg = record {
  worker_url = codes "https://w";
  api_key = codes "k";
  device_id = codes "laptop";
  sync_interval = pos 1;
  team_id = [];
}

abbrev world : World SyncState
world = record {
  syncer = new_syncer cfg;
  session = record { db = empty_db; faults = [] };
  files = [];
}

abbrev poll_at : ℤ → Poll SyncState
poll_at t = record { attempt = accepted; now = t; done = t }

-- At 0, 30 and 61 seconds.
abbrev polls : List (Poll SyncState)
polls = poll_at (pos 0) ∷ poll_at (pos 30000000000) ∷ poll_at (pos 61000000000) ∷ []

uploads-Spaced_example : Spaced (configured cfg) none (uploads as_is dir polls world)
uploads-Spaced_example = uploads-Spaced as_is dir polls world (omega arith)

abbrev db_path : Text
db_path = codes "e.db"

abbrev old_db : SyncState
old_db = record zero_state { last_bytes = 7 }

abbrev new_db : SyncState
new_db = record zero_state { last_bytes = 9 }

abbrev disk : Files SyncState
disk = (db_path, old_db) ∷ []

abbrev no_replace : Trouble
no_replace = record {
  create = false;
  stat = false;
  backup = false;
  replace = true;
  undo = false;
  discard = false;
}

abbrev body : Download SyncState
body = record { status = 200; received = new_db; complete = true }

-- The rename of the download fails, and the backup is renamed back.
put_back :
    lookup db_path (restore_from_config no_replace db_path (some cfg) (ok body) disk).1
    ≡ some old_db
unfolding restore_from_config receive save_download install replace_with_tmp lookup put remove
    try_rename try_remove same_text
put_back = refl

restore_from_config-Safe_example :
    let r = restore_from_config no_replace db_path (some cfg) (ok body) disk in
    Safe db_path new_db disk r.1 r.0
restore_from_config-Safe_example =
    restore_from_config-Safe db_path no_replace (some cfg) body disk refl

-- So many minutes come to a negative interval.
wrapped : interval (record cfg { sync_interval = pos 200000000 }) ≡ negsuc 6446744073709551615
unfolding interval
wrapped = refl
