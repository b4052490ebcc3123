-- ===== src/Tests/Growth.antt =====
-- A session file that grows between passes, with a store whose sixth statement fails.
use eidetic_daemon.Prelude.{
  ℕ, ℤ, true, false, pos, ◌≡◌, refl, arith, Option, none, List, [], ◌∷◌, ◌++◌,
}
use eidetic_daemon.Engram.{Bytes}
use eidetic_daemon.Capture.State.{starting, get, get_in, offset_of, offsets_of}
use eidetic_daemon.Capture.Commit.{Capture}
use eidetic_daemon.Capture.Commit.Growth.{
  FileEvent, appends, passes, grown, kept, read, run_file, stored_content, run_file_once,
}
use eidetic_daemon.Tests.Sqlite.{sqlite}
use eidetic_daemon.Tests.Fixtures.{failing}

abbrev never : Bytes → Option ℤ
never s = none

abbrev same : Bytes → Bytes
same s = s

-- "ab\n" and the start of a line, its end and two more lines, of which the last is blank.
abbrev growth : List FileEvent
growth =
    passes false
    ∷ appends (97 ∷ 98 ∷ 10 ∷ 99 ∷ [])
    ∷ passes true
    ∷ appends (100 ∷ 10 ∷ 101 ∷ 10 ∷ 10 ∷ [])
    ∷ passes false
    ∷ passes false
    ∷ []

abbrev unread : Capture
unread = record { session = failing; state = starting []; skipped = 0 }

unread_offset : get "claude_code" "a.jsonl" unread.state ≡ pos 0
unfolding get get_in offset_of offsets_of
unread_offset = refl

run_file_once_example :
    let after = run_file sqlite 3 "claude_code" "a.jsonl" never same (pos 7) growth [] unread in
    let file = grown growth [] in
    (offset : ℕ) × (get "claude_code" "a.jsonl" after.state ≡ pos offset)
    × (stored_content after
          ++ kept (read sqlite 3 "claude_code" "a.jsonl" never same (pos 7) file offset).0
        ≡ stored_content unread
          ++ kept (read sqlite 3 "claude_code" "a.jsonl" never same (pos 7) file 0).0)
run_file_once_example =
    run_file_once sqlite 3 "claude_code" "a.jsonl" never same (pos 7) growth [] unread unread_offset
      (omega arith)
