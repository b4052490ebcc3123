-- ===== src/Store/Session.antt =====
-- Methods of `Store` as actions on a session: the database, and for each statement to come whether
-- it fails (a full disk, a deadline, a lost lock) and with which message. A failed statement leaves
-- the database as it was. An empty schedule means no more failures.
pub mod Keeps
pub mod Cases
use eidetic_daemon.Prelude.{ℕ, String, Option, none, some, List, [], ◌∷◌}
use eidetic_daemon.Store.Schema.{Db}

-- The reasons of `validateEngram`.
pub data Invalid : Type 0 where
  surface_missing ts_missing payload_missing : Invalid
  payload_too_large : ℕ → Invalid

pub data Error : Type 0 where
  invalid_engram : Invalid → Error
  not_found empty_query surface_required : Error
  -- an error of the database, with its message
  db_error : String → Error

pub data Result {ℓ} (A : Type ℓ) : Type ℓ where
  ok : A → Result A
  err : Error → Result A

pub record Session : Type 0 where
  pub db : Db
  pub faults : List (Option String)

abbrev pub M : Type 0 → Type 0
M A = Session → Result A × Session

module _ {A : Type 0} where
  abbrev pub pure : A → M A
  pure a s = (ok a, s)

  abbrev pub raise : Error → M A
  raise e s = (err e, s)

module _ {A B : Type 0} where
  abbrev pub continue : Result A → (A → M B) → M B
  continue (ok a) f s = f a s
  continue (err e) f s = (err e, s)

  infixl 5 ◌>>=◌ ◌>>◌
  unfoldable pub ◌>>=◌ : M A → (A → M B) → M B
  ◌>>=◌ m f s = let (r, s') = m s in continue r f s'

  unfoldable pub ◌>>◌ : M A → M B → M B
  unfolding ◌>>=◌
  m >> n = m >>= λ _. n

-- One statement: it fails as scheduled, or it reads and writes the database.
module _ {A : Type 0} where
  abbrev pub run : (Db → A × Db) → Db → List (Option String) → Result A × Session
  run f db faults = let (a, db') = f db in (ok a, record { db = db'; faults = faults })

  abbrev pub outcome : List (Option String) → (Db → A × Db) → Db → Result A × Session
  outcome [] f db = run f db []
  outcome (none ∷ faults) f db = run f db faults
  outcome (some message ∷ faults) f db =
      (err (db_error message), record { db = db; faults = faults })

  unfoldable pub statement : (Db → A × Db) → M A
  statement f s = outcome s.faults f s.db

  -- A query writes nothing.
  unfoldable pub query : (Db → A) → M A
  unfolding statement
  query f = statement (λ db. (f db, db))
