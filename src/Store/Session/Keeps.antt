-- ===== src/Store/Session/Keeps.antt =====
-- Invariants of the database under actions: one rule for each way to build an action.
use eidetic_daemon.Prelude.{
  String, ◌≡◌, refl, subst, Bool, true, false, Option, none, some, List, [], ◌∷◌, if◌then◌else◌,
}
use eidetic_daemon.Store.Schema.{Db}
use eidetic_daemon.Store.Session.{
  Error, Result, ok, err, Session, M, pure, raise, continue, outcome, ◌>>=◌, statement,
}

-- Whatever the schedule of failures, the action leads from a database with `P` to one with `P`, and
-- what it returns satisfies `Q`.
pub record Gives {A : Type 0} (P : Db → Type 0) (Q : A → Type 0) (m : M A) : Type 0 where
  pub keeps : (s : Session) → P s.db → P (m s).1.db
  pub returns : (s : Session) → P s.db → (a : A) → (m s).0 ≡ ok a → Q a

abbrev pub Anything : {A : Type 0} → A → Type 0
Anything a = Unit

-- The invariant alone.
abbrev pub Keeps : {A : Type 0} → (Db → Type 0) → M A → Type 0
Keeps P m = Gives P Anything m

module _ {A : Type 0} (P : Db → Type 0) (Q : A → Type 0) (f : Db → A × Db) (db : Db) where
  outcome-keeps : P db → P (f db).1 → (faults : List (Option String)) → P (outcome faults f db).1.db
  outcome-keeps h k [] = k
  outcome-keeps h k (none ∷ faults) = k
  outcome-keeps h k (some message ∷ faults) = h

  outcome-returns :
      Q (f db).0 → (faults : List (Option String)) (a : A) → (outcome faults f db).0 ≡ ok a → Q a
  outcome-returns q [] a e = subst Q (cc) q
  outcome-returns q (none ∷ faults) a e = subst Q (cc) q
  outcome-returns q (some message ∷ faults) a e = cc

module _ {A : Type 0} {P : Db → Type 0} where
  pub Gives-pure : {Q : A → Type 0} (a : A) → Q a → Gives P Q (pure a)
  Gives-pure {Q} a q = record { keeps = λ s h. h; returns = λ s h b e. subst Q (cc) q }

  pub Gives-raise : {Q : A → Type 0} (e : Error) → Gives P Q (raise e)
  Gives-raise e = record { keeps = λ s h. h; returns = λ s h b e'. cc }

  pub Gives-statement :
      (Q : A → Type 0) (f : Db → A × Db)
      → ((db : Db) → P db → P (f db).1 × Q (f db).0)
      → Gives P Q (statement f)
  unfolding statement
  Gives-statement Q f step = record {
    keeps = λ s h. outcome-keeps P Q f s.db h (step s.db h).0 s.faults;
    returns = λ s h. outcome-returns P Q f s.db (step s.db h).1 s.faults;
  }

  pub Gives-if :
      {Q : A → Type 0} (b : Bool) (m n : M A)
      → Gives P Q m
      → Gives P Q n
      → Gives P Q (if b then m else n)
  Gives-if true m n km kn = km
  Gives-if false m n km kn = kn

module _ {A B : Type 0} (P : Db → Type 0) (Q : A → Type 0) (R : B → Type 0) (f : A → M B) where
  continue-keeps :
      (r : Result A) (s : Session)
      → P s.db
      → ((a : A) → r ≡ ok a → Q a)
      → ((a : A) → Q a → Gives P R (f a))
      → P (continue r f s).1.db
  continue-keeps (ok a) s h q k = (k a (q a refl)).keeps s h
  continue-keeps (err e) s h q k = h

  continue-returns :
      (r : Result A) (s : Session)
      → P s.db
      → ((a : A) → r ≡ ok a → Q a)
      → ((a : A) → Q a → Gives P R (f a))
      → (b : B) → (continue r f s).0 ≡ ok b
      → R b
  continue-returns (ok a) s h q k b e = (k a (q a refl)).returns s h b e
  continue-returns (err x) s h q k b e = cc

module _ {A B : Type 0} {P : Db → Type 0} {Q : A → Type 0} {R : B → Type 0} where
  pub Gives-bind :
      (m : M A) (f : A → M B)
      → Gives P Q m
      → ((a : A) → Q a → Gives P R (f a))
      → Gives P R (m >>= f)
  unfolding ◌>>=◌
  Gives-bind m f km k = record {
    keeps = λ s h. continue-keeps P Q R f (m s).0 (m s).1 (km.keeps s h) (km.returns s h) k;
    returns = λ s h. continue-returns P Q R f (m s).0 (m s).1 (km.keeps s h) (km.returns s h) k;
  }
