-- ===== src/Tests/Capture.antt =====
-- A session file of a few lines, read in two passes, with records of at most three bytes before they are split.
use eidetic_daemon.Prelude.{
  ℕ, ◌<◌, ◌≤◌, All, ℤ, pos, arith, ◌≡◌, refl, Option, none, List, [], ◌∷◌, ◌++◌, length, map, drop,
  ends_with, last_index, split_on, trim_right,
}
use eidetic_daemon.Engram.{Bytes, Engram}
use eidetic_daemon.Capture.Chunks.{split_oversized}
use eidetic_daemon.Capture.Chunks.Reassembly.{reassemble, split_oversized_reassembles}
use eidetic_daemon.Capture.Jsonl.{emit, parse, consume, parse_at}
use eidetic_daemon.Capture.Jsonl.Resume.{records}
use eidetic_daemon.Capture.Jsonl.Passes.{start, parse_resume, parse-eq-records}

-- "ab\r\n", a blank line, "cdefg\n", the start of "h\n".
abbrev written : Bytes
written = 97 ∷ 98 ∷ 13 ∷ 10 ∷ 10 ∷ 99 ∷ 100 ∷ 101 ∷ 102 ∷ 103 ∷ 10 ∷ 104 ∷ []

abbrev appended : Bytes
appended = 105 ∷ 10 ∷ []

abbrev no_time : Bytes → Option ℤ
no_time s = none

abbrev hash : Bytes → Bytes
hash s = s

abbrev pass : Bytes → ℕ → List Engram × ℕ
pass = parse 3 "claude_code" "a.jsonl" no_time hash (pos 7)

first_pass :
    map (λ (e : Engram). e.payload) (pass written 0).0
    ≡ (97 ∷ 98 ∷ []) ∷ (99 ∷ 100 ∷ 101 ∷ []) ∷ (102 ∷ 103 ∷ []) ∷ []
unfolding parse emit split_oversized parse_at consume ends_with last_index split_on trim_right
first_pass = refl

first_offset : (pass written 0).1 ≡ 11
unfolding parse emit split_oversized parse_at consume ends_with last_index split_on trim_right
first_offset = refl

second_pass :
    map (λ (e : Engram). e.payload) (pass (written ++ appended) 11).0 ≡ (104 ∷ 105 ∷ []) ∷ []
unfolding parse emit split_oversized parse_at consume ends_with last_index split_on trim_right
second_pass = refl

parse_resume_example :
    (pass written 0).0 ++ (pass (written ++ appended) (pass written 0).1).0
    ≡ (pass (written ++ appended) 0).0
parse_resume_example =
    parse_resume 3 "claude_code" "a.jsonl" no_time hash (pos 7) written appended 0 (omega arith)
      (omega arith)

parse-eq-records_example :
    (pass written 0).0
    ≡ records
        (emit 3 "claude_code" "a.jsonl" no_time hash (pos 7))
        (start written 0)
        []
        (drop (start written 0) written)
parse-eq-records_example =
    parse-eq-records 3 "claude_code" "a.jsonl" no_time hash (pos 7) written 0 (omega arith)
      (omega arith)

split_oversized_reassembles_example :
    let split =
      split_oversized 3 "claude_code" (pos 7) "a.jsonl" 11 hash (99 ∷ 100 ∷ 101 ∷ 102 ∷ 103 ∷ []) in
    (reassemble split ≡ 99 ∷ 100 ∷ 101 ∷ 102 ∷ 103 ∷ [])
    × All (λ (e : Engram). (0 < length e.payload) × (length e.payload ≤ 3)) split
split_oversized_reassembles_example =
    split_oversized_reassembles 3 "claude_code" (pos 7) "a.jsonl" 11 hash
      (99 ∷ 100 ∷ 101 ∷ 102 ∷ 103 ∷ []) (omega arith)
