-- ===== src/Api/Export.antt =====
-- `handleExport` of internal/api/routes.go: every row as a line, page by page. The query parameters
-- are taken after their parse, and the client is one that stays connected.
mod Cursor
mod Pages
pub mod Complete
use eidetic_daemon.Prelude.{
  ℕ, zero, suc, ◌+◌, ℤ, pos, String, ltb, Option, none, some, List, [], ◌∷◌, ◌++◌, map, last?,
  length, if◌then◌else◌,
}
use mathlib.Core.Option
use eidetic_daemon.Engram.{Engram}
use eidetic_daemon.Store.Engine.{Engine}
use eidetic_daemon.Store.Session.{Error, Result, ok, err, Session}
use eidetic_daemon.Store.Read.{retrieve_after}

-- A line of the NDJSON answer.
pub data Line : Type 0 where
  row : Engram → Line
  export_error : Error → Line
  export_complete : ℕ → Line

-- The answer and the session after it; `none` if the fuel ran out.
abbrev pub Answer : Type 0
Answer = Option (List Line × Session)

abbrev pub prepend : List Line → Answer → Answer
prepend lines none = none
prepend lines (some (more, s)) = some (lines ++ more, s)

module _ (engine : Engine) (page_size : ℕ) (surface : String) (before : ℤ) where
  -- The rest of the loop's body: `next` is the loop at a new cursor.
  unfoldable pub after_rows :
      (ℤ → ℤ → ℕ → Session → Answer) → ℕ → List Engram → Option Engram → Session → Answer
  after_rows next total rows none s = some (export_complete total ∷ [], s)
  after_rows next total rows (some last) s =
      let total' = total + length rows in
      let rest = next last.ts last.id total' s in
      prepend (map row rows)
        (if ltb (length rows) page_size then some (export_complete total' ∷ [], s) else rest)

  unfoldable pub after_page :
      (ℤ → ℤ → ℕ → Session → Answer) → ℕ → Result (List Engram) → Session → Answer
  unfolding after_rows
  after_page next total (err e) s = some (export_error e ∷ [], s)
  after_page next total (ok rows) s = after_rows next total rows (last? rows) s

  unfoldable pub export_loop : ℕ → ℤ → ℤ → ℕ → Session → Answer
  unfolding after_page
  export_loop zero cursor_ts cursor_id total s = none
  export_loop (suc fuel) cursor_ts cursor_id total s =
      let (rows, s') = retrieve_after engine surface cursor_ts cursor_id before (pos page_size) s in
      after_page (export_loop fuel) total rows s'

unfoldable pub handle_export : Engine → ℕ → String → ℤ → ℤ → Session → Answer
handle_export engine fuel surface since before s =
    export_loop engine 1000 surface before fuel since (pos 0) 0 s
