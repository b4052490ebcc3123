-- ===== src/Tests/Store.antt =====
-- The theorems on internal/store at a small database.
use eidetic_daemon.Prelude.{
  eqb_ℤ, ℤ, pos, ◌≡◌, refl, none, some, true, false, List, [], ◌∷◌, map, filter, count_p,
  if◌then◌else◌,
}
use eidetic_daemon.Store.Schema.{Row, Db, empty_db}
use eidetic_daemon.Store.Engine.{ts_asc}
use eidetic_daemon.Store.Session.{ok, err, not_found}
use eidetic_daemon.Store.Read.{
  where_, retrieve_clauses, to_engram, count_engrams, get_by_id, clamp_limit, retrieve, recent,
}
use eidetic_daemon.Store.Write.{validate_engram, to_row, insert, insert_batch, delete_by_id}
use eidetic_daemon.Store.Consistency.{IsConsistent}
use eidetic_daemon.Store.Invariant.{perform_all, perform_all-IsConsistent}
use eidetic_daemon.Store.Batch.{AllOrNothing, insert_batch-AllOrNothing}
use eidetic_daemon.Store.Totals.{count_engrams-selected}
use eidetic_daemon.Store.Lookup.{quiet, row_of, get_by_id-insert, get_by_id-delete_by_id}
use eidetic_daemon.Store.Queries.{in_window, IsAnswer, retrieve-IsAnswer, recent-eq-retrieve}
use eidetic_daemon.Tests.Sqlite.{sqlite}
use eidetic_daemon.Tests.Fixtures.{
  note, reply, calls, failing, empty_db-IsConsistent, after_calls, after_calls-IsConsistent,
}

perform_all-IsConsistent_example : IsConsistent (perform_all sqlite calls failing).db
perform_all-IsConsistent_example =
    perform_all-IsConsistent sqlite calls failing empty_db-IsConsistent

insert_batch-AllOrNothing_example :
    AllOrNothing sqlite
      (note ∷ reply ∷ [])
      failing
      (insert_batch sqlite (note ∷ reply ∷ []) failing)
insert_batch-AllOrNothing_example = insert_batch-AllOrNothing sqlite (note ∷ reply ∷ []) failing

count_engrams-selected_example : count_engrams "cursor" (pos 3) (quiet after_calls) ≡ (
  ok (pos (count_p (where_ (retrieve_clauses "cursor" (pos 3) (pos 0))) after_calls.engrams)),
  quiet after_calls,
)
count_engrams-selected_example =
    count_engrams-selected after_calls after_calls-IsConsistent "cursor" (pos 3)

note_is_valid : validate_engram note ≡ none
unfolding validate_engram
note_is_valid = refl

get_by_id-insert_example :
    (db' : Db) × (insert sqlite note (quiet empty_db) ≡ (ok (sqlite.next_rowid []), quiet db'))
    × ((j : ℤ)
        → (get_by_id j (quiet db')).0 ≡ (
            if eqb_ℤ (sqlite.next_rowid []) j
            then ok (to_engram (to_row (sqlite.next_rowid []) note))
            else (get_by_id j (quiet empty_db)).0))
get_by_id-insert_example = get_by_id-insert sqlite note empty_db note_is_valid

get_by_id-delete_by_id_example :
    (db' : Db) × (delete_by_id (pos 1) (quiet after_calls) ≡ (
      elim (row_of (pos 1) after_calls.engrams) [ none ↦ err not_found | some _ ↦ ok tt ],
      quiet db',
    ))
    × ((j : ℤ)
        → (get_by_id j (quiet db')).0
          ≡ (if eqb_ℤ j (pos 1) then err not_found else (get_by_id j (quiet after_calls)).0))
get_by_id-delete_by_id_example = get_by_id-delete_by_id (pos 1) after_calls

retrieve-IsAnswer_example :
    (out rest : List Row) × (retrieve sqlite "cursor"
        (pos 1)
        (pos 0)
        (pos 2000)
        true
        (quiet after_calls)
      ≡ (ok (map to_engram out), quiet after_calls))
    × IsAnswer ts_asc
        (clamp_limit 500 (pos 2000))
        (filter (in_window "cursor" (pos 1) (pos 0)) after_calls.engrams)
        out
        rest
retrieve-IsAnswer_example =
    retrieve-IsAnswer sqlite "cursor" (pos 1) (pos 0) (pos 2000) true after_calls

recent-eq-retrieve_example :
    recent sqlite (pos 1) (pos 9) (pos 5) ≡ retrieve sqlite "" (pos 1) (pos 9) (pos 5) false
recent-eq-retrieve_example = recent-eq-retrieve sqlite (pos 1) (pos 9) (pos 5)
