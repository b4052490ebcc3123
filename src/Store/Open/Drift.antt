-- ===== src/Store/Open/Drift.antt =====
-- A backfill that failed is not made up for once a row was inserted.
use eidetic_daemon.Prelude.{
  ◌+◌, ◌<◌, ℤ, pos, ◌+ℤ◌, arith, ◌≡◌, refl, sym, ◌∙◌, ap, inl, inr, String, Option, none, List, [],
  ◌∷◌, length, length-append,
}
use eidetic_daemon.Engram.{Engram}
use eidetic_daemon.Store.Schema.{Db, Counts, insert_row, count_insert}
use eidetic_daemon.Store.Engine.{Engine}
use eidetic_daemon.Store.Session.{Session, statement, ◌>>=◌, ◌>>◌}
use eidetic_daemon.Store.Session.Cases.{statement-cases}
use eidetic_daemon.Store.Read.{sum_counts}
use eidetic_daemon.Store.Write.{validate_engram, to_row, insert_statement, insert}
use eidetic_daemon.Store.Consistency.{IsConsistent}
use eidetic_daemon.Store.Lookup.{quiet}
use eidetic_daemon.Store.Open.{backfill_fts, attempt, open_store, fill_fts}
use eidetic_daemon.Store.Open.Heals.{backfill_fts-cases, backfill_counts-cases}

-- Counters that are there are left alone.
open_store-counts :
    (s : Session) (x : String × ℤ) (c : Counts)
    → s.db.counts ≡ x ∷ c
    → ((open_store s).1.db.counts ≡ x ∷ c) × ((open_store s).1.db.engrams ≡ s.db.engrams)
unfolding open_store ◌>>◌ ◌>>=◌ attempt fill_fts
open_store-counts s x c h = elim (statement-cases (λ db. (tt, db)) s) [
  | inr (e, rest, failed) ↦ rw failed (h, refl)
  | inl (rest, made) ↦
      let s' : Session = record { db = s.db; faults = rest } in
      let s'' : Session = (backfill_fts s').1 in
      let kept : (s''.db.counts ≡ x ∷ c) × (s''.db.engrams ≡ s.db.engrams) =
        elim (backfill_fts-cases s') [
          | inl same ↦ rw same (h, refl)
          | inr (empty, filled) ↦ rw filled (h, refl)
        ] in
      rw made (elim (backfill_counts-cases s'') [
        | inl same ↦ rw same kept
        | inr (empty, filled) ↦ absurd (cc (empty, kept.0))
      ])
]

-- The daemon is started again and again, each time with its failures.
unfoldable pub open_all : List (List (Option String)) → Db → Db
open_all [] db = db
open_all (faults ∷ rest) db = open_all rest (open_store (record { db = db; faults = faults })).1.db

open_all-counts :
    (starts : List (List (Option String))) (db : Db) (x : String × ℤ) (c : Counts)
    → db.counts ≡ x ∷ c
    → ((open_all starts db).counts ≡ x ∷ c) × ((open_all starts db).engrams ≡ db.engrams)
unfolding open_all
open_all-counts [] db x c h = (h, refl)
open_all-counts (faults ∷ rest) db x c h =
    let s : Session = record { db = db; faults = faults } in
    let (counts, kept) = open_store-counts s x c h in
    let (counts', kept') = open_all-counts rest (open_store s).1.db x c counts in
    (counts', kept' ∙ kept)

-- When the counters were not filled, and an `Insert` of a valid engram succeeds while there are rows,
-- then the tables are not consistent, and no calls of `Open` one after the other make them so,
-- whichever of their statements fail.
pub open_store_drifts :
    (engine : Engine) (e : Engram) (db : Db) (starts : List (List (Option String)))
    → db.counts ≡ []
    → 0 < length db.engrams
    → validate_engram e ≡ none
    → ¬ IsConsistent (open_all starts (insert engine e (quiet db)).1.db)
unfolding insert statement insert_statement insert_row count_insert sum_counts ◌+ℤ◌
open_store_drifts engine e db starts no_counts rows valid consistent =
    let db' = (insert engine e (quiet db)).1.db in
    let stored : db' ≡ (insert_statement engine e db).1 = rw (valid, insert) refl in
    let one : db'.counts ≡ (e.surface, pos 1) ∷ [] =
      ap (λ d. d.counts) stored ∙ ap (count_insert e.surface) no_counts in
    let (counts, kept) = open_all-counts starts db' (e.surface, pos 1) [] one in
    let rows' : length db'.engrams ≡ length db.engrams + 1 =
      ap (λ (d : Db). length d.engrams) stored
      ∙ length-append db.engrams (to_row (engine.next_rowid db.engrams) e ∷ []) in
    let total : pos 1 ≡ pos (length db'.engrams) =
      sym (ap sum_counts counts) ∙ consistent.total ∙ ap (λ r. pos (length r)) kept in
    ground (arith, total, rows')
