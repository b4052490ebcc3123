-- ===== src/Store/Lookup.antt =====
-- GetByID against the writing methods, when no statement fails.
use eidetic_daemon.Prelude.{
  ℤ, eqb_ℤ, arith, ◌≡◌, refl, ◌∙◌, ap, true, false, not, ◌==◌, Option, none, some, List, [], ◌∷◌,
  ◌++◌, filter, find, All, count_p, if◌then◌else◌,
}
use eidetic_daemon.Engram.{Engram}
use eidetic_daemon.Store.Schema.{Row, Db, insert_row, delete_where}
use eidetic_daemon.Store.Engine.{Engine}
use eidetic_daemon.Store.Session.{Session, Result, ok, err, not_found, ◌>>=◌, statement, query}
use eidetic_daemon.Store.Read.{to_engram, get_by_id}
use eidetic_daemon.Store.Write.{
  validate_engram, to_row, delete_counted, delete_by_id, insert_statement, insert,
}

-- What GetByID answers about a list of rows.
abbrev pub found : Option Row → Result Engram
found none = err not_found
found (some r) = ok (to_engram r)

abbrev pub row_of : ℤ → List Row → Option Row
row_of id = find (λ r. eqb_ℤ r.id id)

abbrev pub quiet : Db → Session
quiet db = record { db = db; faults = [] }

-- The answer of GetByID, which changes nothing.
pub get_by_id-found :
    (id : ℤ) (db : Db) → get_by_id id (quiet db) ≡ (found (row_of id db.engrams), quiet db)
unfolding get_by_id query statement ◌>>=◌
get_by_id-found id db = ground arith

find-append :
    (id : ℤ) (xs : List Row) (r : Row)
    → All (λ y. eqb_ℤ y.id r.id ≡ false) xs
    → row_of id (xs ++ r ∷ []) ≡ (if eqb_ℤ r.id id then some r else row_of id xs)
find-append id [] r h = ground arith
find-append id (x ∷ xs) r h = ground (arith, find-append id xs r h.1)

find-filter :
    (id j : ℤ) (xs : List Row)
    → row_of j (filter (λ r. not (eqb_ℤ r.id id)) xs) ≡ (if eqb_ℤ j id then none else row_of j xs)
find-filter id j [] = ground arith
find-filter id j (x ∷ xs) = ground (arith, find-filter id j xs)

-- The rows with an id are none exactly when it is not found.
count-row_of :
    (id : ℤ) (xs : List Row)
    → (count_p (λ r. eqb_ℤ r.id id) xs == 0)
      ≡ (elim (row_of id xs) [ none ↦ true | some _ ↦ false ])
count-row_of id [] = refl
count-row_of id (x ∷ xs) = ground (arith, count-row_of id xs)

module _ (engine : Engine) (e : Engram) (db : Db) where
  abbrev new_id : ℤ
  new_id = engine.next_rowid db.engrams

  -- When its statement does not fail, `Insert` of a valid engram returns an id under which GetByID
  -- then finds the engram's columns; what GetByID answers for any other id is as before.
  pub get_by_id-insert :
      validate_engram e ≡ none
      → (db' : Db) × (insert engine e (quiet db) ≡ (ok new_id, quiet db'))
        × ((j : ℤ)
            → (get_by_id j (quiet db')).0 ≡ (
                if eqb_ℤ new_id j
                then ok (to_engram (to_row new_id e))
                else (get_by_id j (quiet db)).0))
  unfolding insert insert_statement statement insert_row
  get_by_id-insert v = (
    insert_row (to_row new_id e) db,
    rw (v, insert) refl,
    λ j.
        ap (λ r. r.0) (get_by_id-found j (insert_row (to_row new_id e) db))
        ∙ ap found (find-append j db.engrams (to_row new_id e) (engine.next_rowid_fresh db.engrams))
        ∙ ground (arith, ap (λ (r : Result Engram × Session). r.0) (get_by_id-found j db)),
  )

module _ (id : ℤ) (db : Db) where
  -- When its statement does not fail, `DeleteByID` answers ErrNotFound exactly when GetByID does;
  -- afterwards GetByID does not find the id, and answers for any other id as before.
  pub get_by_id-delete_by_id :
      (db' : Db) × (delete_by_id id (quiet db)
        ≡ (elim (row_of id db.engrams) [ none ↦ err not_found | some _ ↦ ok tt ], quiet db'))
      × ((j : ℤ)
          → (get_by_id j (quiet db')).0
            ≡ (if eqb_ℤ j id then err not_found else (get_by_id j (quiet db)).0))
  unfolding delete_by_id delete_counted delete_where statement ◌>>=◌
  get_by_id-delete_by_id = (
    delete_where (λ r. eqb_ℤ r.id id) db,
    ground (arith, count-row_of id db.engrams),
    λ j.
        ap (λ r. r.0) (get_by_id-found j (delete_where (λ r. eqb_ℤ r.id id) db))
        ∙ ap found (find-filter id j db.engrams)
        ∙ ground (arith, ap (λ (r : Result Engram × Session). r.0) (get_by_id-found j db)),
  )
