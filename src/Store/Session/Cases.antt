-- ===== src/Store/Session/Cases.antt =====
-- The two ways in which a statement ends.
use eidetic_daemon.Prelude.{String, ◌≡◌, refl, Option, none, some, List, [], ◌∷◌, ◌⊎◌, inl, inr}
use eidetic_daemon.Store.Schema.{Db}
use eidetic_daemon.Store.Session.{Error, Result, ok, err, db_error, Session, outcome, statement}

module _ {A : Type 0} (f : Db → A × Db) where
  abbrev pub Succeeds : Db → Result A × Session → Type 0
  Succeeds db r =
      (rest : List (Option String)) × (r ≡ (ok (f db).0, record { db = (f db).1; faults = rest }))

  abbrev pub Fails : Db → Result A × Session → Type 0
  Fails db r =
      (e : Error) × (rest : List (Option String)) × (r ≡ (err e, record { db = db; faults = rest }))

  outcome-cases :
      (faults : List (Option String)) (db : Db)
      → Succeeds db (outcome faults f db) ⊎ Fails db (outcome faults f db)
  outcome-cases [] db = inl ([], refl)
  outcome-cases (none ∷ faults) db = inl (faults, refl)
  outcome-cases (some message ∷ faults) db = inr (db_error message, faults, refl)

  -- A statement takes effect and answers, or it fails and changes nothing.
  pub statement-cases : (s : Session) → Succeeds s.db (statement f s) ⊎ Fails s.db (statement f s)
  unfolding statement
  statement-cases s = outcome-cases s.faults s.db
