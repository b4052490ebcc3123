-- ===== src/Tests/Export.antt =====
-- The export of the database that the calls of the other tests leave.
use eidetic_daemon.Prelude.{
  suc, pos, ◌≡◌, arith, some, List, [], ◌∷◌, ◌++◌, map, length, filter, SameItems,
}
use eidetic_daemon.Store.Schema.{Row}
use eidetic_daemon.Store.Read.{to_engram}
use eidetic_daemon.Store.Paging.{IsIncreasing}
use eidetic_daemon.Store.Lookup.{quiet}
use eidetic_daemon.Api.Export.{row, export_complete, handle_export}
use eidetic_daemon.Api.Export.Complete.{wanted, handle_export_complete}
use eidetic_daemon.Tests.Sqlite.{sqlite}
use eidetic_daemon.Tests.Fixtures.{after_calls, after_calls-IsConsistent}

handle_export_complete_example :
    (out : List Row) × (handle_export sqlite
        (suc (length after_calls.engrams))
        "cowork"
        (pos 2)
        (pos 0)
        (quiet after_calls)
      ≡ some (
        map (λ r. row (to_engram r)) out ++ export_complete (length out) ∷ [],
        quiet after_calls,
      ))
    × IsIncreasing out
    × SameItems out (filter (wanted "cowork" (pos 2) (pos 0)) after_calls.engrams)
handle_export_complete_example =
    handle_export_complete sqlite "cowork" (pos 2) (pos 0) after_calls
      (suc (length after_calls.engrams)) after_calls-IsConsistent (omega arith)
