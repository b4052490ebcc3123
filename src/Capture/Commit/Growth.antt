-- ===== src/Capture/Commit/Growth.antt =====
-- A session file that grows, and passes over it into a store that may fail: parseAndCommit of
-- internal/capture/watcher.go with the parser of internal/capture/parser_jsonl.go.
use mathlib.Core.Option.{some-injective}
use mathlib.Core.List.{map-append}
use eidetic_daemon.Prelude.{
  ℕ, pos, negsuc, is_empty, ltb, ◌+◌, if◌then◌else◌, ◌≤◌, ℤ, String, eq_refl, arith, ◌≡◌, refl, sym,
  ◌∙◌, ap, Bool, Option, none, some, List, [], ◌∷◌, ◌++◌, append_assoc, append-nil, length,
  length-append, map, filter, filter-append,
}
use eidetic_daemon.Engram.{Bytes, Engram}
use eidetic_daemon.Store.Schema.{Db}
use eidetic_daemon.Store.Engine.{Engine}
use eidetic_daemon.Store.Batch.{Content, content, written, content-with_all}
use eidetic_daemon.Capture.Jsonl.{jsonl_max_file_bytes, parse}
use eidetic_daemon.Capture.Jsonl.Passes.{parse_resume, parse_offset-le}
use eidetic_daemon.Capture.State.{get}
use eidetic_daemon.Capture.Commit.{Parser, Capture, fits, parse_and_commit}
use eidetic_daemon.Capture.Commit.Progress.{stored, nothing_new, parse_and_commit-Progress}

-- The file gains bytes, or a pass runs, of which the state file cannot or can be written.
pub data FileEvent : Type 0 where
  appends : Bytes → FileEvent
  passes : Bool → FileEvent

abbrev pub grown : List FileEvent → Bytes → Bytes
grown [] file = file
grown (appends d ∷ es) file = grown es (file ++ d)
grown (passes fails ∷ es) file = grown es file

grown-eq-append : (es : List FileEvent) (file : Bytes) → (d : Bytes) × (grown es file ≡ file ++ d)
grown-eq-append [] file = ([], sym (append-nil file))
grown-eq-append (appends a ∷ es) file =
    let (d, e) = grown-eq-append es (file ++ a) in (a ++ d, e ∙ append_assoc file a d)
grown-eq-append (passes fails ∷ es) file = grown-eq-append es file

-- What is stored of engrams.
abbrev pub kept : List Engram → List Content
kept es = map written (filter fits es)

kept-append : (xs ys : List Engram) → kept (xs ++ ys) ≡ kept xs ++ kept ys
kept-append xs ys =
    ap (map written) (filter-append fits xs ys)
    ∙ map-append written (filter fits xs) (filter fits ys)

abbrev pub stored_content : Capture → List Content
stored_content c = map content c.session.db.engrams

parsed : String → ℤ → Option Parser → Option (List Engram × ℤ)
parsed path from none = none
parsed path from (some parser) = parser path from

module _ (engine : Engine) (budget : ℕ) (surface path : String) (time_of : Bytes → Option ℤ)
    (chunk_id : Bytes → Bytes) (now : ℤ) where
  abbrev pub read : Bytes → ℕ → List Engram × ℕ
  read = parse budget surface path time_of chunk_id now

  -- The parser of the surface, at a file with these bytes, from an offset that the state file holds: from
  -- a negative one it cannot seek.
  abbrev pub read_from : Bytes → ℤ → Option (List Engram × ℤ)
  read_from file (pos from) = let (engrams, offset) = read file from in some (engrams, pos offset)
  read_from file (negsuc n) =
      if is_empty file
      then some ([], pos 0)
      else if ltb jsonl_max_file_bytes (length file + n + 1)
      then some ([], pos (length file))
      else none

  abbrev pub parser_of : Bytes → String → Option Parser
  parser_of file _ = some (λ _ from. read_from file from)

  unfoldable pub run_file : List FileEvent → Bytes → Capture → Capture
  run_file [] file c = c
  run_file (appends d ∷ es) file c = run_file es (file ++ d) c
  run_file (passes fails ∷ es) file c =
      run_file es file (parse_and_commit engine (parser_of file) fails surface path c)

  -- What is stored and what is still to be read of a file make up what a single pass would read.
  abbrev pub Reads : Bytes → Capture → ℕ → Capture → ℕ → Type 0
  Reads file c from c' from' =
      stored_content c' ++ kept (read file from').0 ≡ stored_content c ++ kept (read file from).0

  pass_keeps :
      (fails : Bool) (file d : Bytes) (c : Capture) (from : ℕ)
      → get surface path c.state ≡ pos from
      → from ≤ length file
      → length (file ++ d) ≤ jsonl_max_file_bytes
      → let c' = parse_and_commit engine (parser_of file) fails surface path c in
        (from' : ℕ) × (get surface path c'.state ≡ pos from')
        × (from' ≤ length file)
        × Reads (file ++ d) c from c' from'
  unfolding parsed
  pass_keeps fails file d c from at inside small =
      let c' = parse_and_commit engine (parser_of file) fails surface path c in
      elim (parse_and_commit-Progress engine (parser_of file) fails surface path c) [
        | nothing_new same unmoved ↦
            (from, ap (get surface path) unmoved ∙ at, inside, rw same refl)
        | stored parser engrams offset found reading gained counted moved ↦
            let start : parsed path (pos from) (some parser) ≡ some (engrams, offset) =
              ap (parser path) (sym at) ∙ reading in
            let result : ((read file from).0, pos (read file from).1) ≡ (engrams, offset) =
              some-injective _ _ (ap (parsed path (pos from)) found ∙ start) in
            let here : get surface path c'.state ≡ pos (read file from).1 =
              moved surface path
              ∙ rw (eq_refl surface, eq_refl path) (ap (λ r. r.1) (sym result)) in
            let longer = length-append file d in
            let within =
              parse_offset-le budget surface path time_of chunk_id now file from inside
                (omega arith) in
            let gain : stored_content c' ≡ stored_content c ++ kept (read file from).0 =
              ap (λ (db : Db). map content db.engrams) gained
              ∙ content-with_all engine (filter fits engrams) c.session.db
              ∙ ap (λ r. stored_content c ++ kept r.0) (sym result) in
            (
              (read file from).1,
              here,
              within,
              rw gain (
                  append_assoc (stored_content c) _ _
                  ∙ ap (◌++◌ (stored_content c)) (
                      sym (kept-append (read file from).0 _)
                      ∙ ap kept (
                          parse_resume budget surface path time_of chunk_id now file d from inside
                            small))),
            )
      ]

  run_file_keeps :
      (events : List FileEvent) (file : Bytes) (c : Capture) (from : ℕ)
      → get surface path c.state ≡ pos from
      → from ≤ length file
      → length (grown events file) ≤ jsonl_max_file_bytes
      → let c' = run_file events file c in
        (from' : ℕ) × (get surface path c'.state ≡ pos from')
        × Reads (grown events file) c from c' from'
  unfolding run_file
  run_file_keeps [] file c from at inside small = (from, at, refl)
  run_file_keeps (appends d ∷ es) file c from at inside small =
      let longer = length-append file d in
      run_file_keeps es (file ++ d) c from at (omega arith) small
  run_file_keeps (passes fails ∷ es) file c from at inside small =
      let (d, e) = grown-eq-append es file in
      let (from', at', inside', one) = pass_keeps fails file d c from at inside (rw e at small) in
      let (end, at_end, rest) = run_file_keeps es file _ from' at' inside' small in
      (end, at_end, rest ∙ rw e one)

  -- A file of which nothing was read yet grows while passes run over it, whichever of the store's
  -- statements and of the writes of the state file fail, and stays below the cap of the parser. At the
  -- end, the offset is one from which what is stored, then what one more pass would read, is what was
  -- stored before, then what a single pass would read of the whole file, each record once and in order;
  -- payloads that are too large are left out, and the clock reads the same in every pass.
  pub run_file_once :
      (events : List FileEvent) (file : Bytes) (c : Capture)
      → get surface path c.state ≡ pos 0
      → length (grown events file) ≤ jsonl_max_file_bytes
      → let c' = run_file events file c in
        (offset : ℕ) × (get surface path c'.state ≡ pos offset)
        × (stored_content c' ++ kept (read (grown events file) offset).0
            ≡ stored_content c ++ kept (read (grown events file) 0).0)
  run_file_once events file c first small = run_file_keeps events file c 0 first (omega arith) small
