-- ===== src/Capture/Commit.antt =====
-- `parseAndCommit` of internal/capture/watcher.go: one pass over one file, under the lock of its path.
-- A parser is any function from a path and an offset; `none` is its error.
pub mod Progress
pub mod Growth
use eidetic_daemon.Prelude.{
  ℕ, ℤ, eqb_ℤ, ◌+◌, ◌==◌, leb, not, String, Bool, Option, none, some, List, [], ◌∷◌, length, filter,
  count_p, is_empty, if◌then◌else◌,
}
use eidetic_daemon.Engram.{Engram}
use eidetic_daemon.Store.Engine.{Engine}
use eidetic_daemon.Store.Session.{Result, ok, err, Session}
use eidetic_daemon.Store.Write.{max_payload_bytes, insert_batch}
use eidetic_daemon.Capture.State.{State, get, set, save}

abbrev pub Parser : Type 0
Parser = String → ℤ → Option (List Engram × ℤ)

-- What a pass reads and writes: the store, the offsets, and skippedPayloadTooLarge.
pub record Capture : Type 0 where
  pub session : Session
  pub state : State
  pub skipped : ℕ

abbrev pub fits : Engram → Bool
fits e = leb (length e.payload) max_payload_bytes

module _ (engine : Engine) (parser_of : String → Option Parser) (save_fails : Bool)
    (surface path : String) where
  -- The offset moves on, and the state is saved.
  unfoldable pub advance_offset : ℤ → Capture → Capture
  advance_offset offset c =
      if eqb_ℤ offset (get surface path c.state)
      then c
      else record c { state = (save save_fails (set surface path offset c.state)).1 }

  unfoldable pub after_insert : ℤ → Result (Unit {0}) → Capture → Capture
  after_insert offset (err e) c = c
  after_insert offset (ok _) c = advance_offset offset c

  unfoldable pub commit : List Engram → ℤ → Capture → Capture
  commit engrams offset c =
      let filtered = filter fits engrams in
      let counted = record c { skipped = c.skipped + count_p (λ e. not (fits e)) engrams } in
      let (r, session') = insert_batch engine filtered c.session in
      if is_empty filtered
      then advance_offset offset counted
      else after_insert offset r (record counted { session = session' })

  unfoldable pub parse_and_commit : Capture → Capture
  parse_and_commit c = elim (parser_of surface) [
    | none ↦ c
    | some parser ↦ elim (parser path (get surface path c.state)) [
      | none ↦ c
      | some (engrams, offset) ↦ commit engrams offset c
    ]
  ]
