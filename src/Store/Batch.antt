-- ===== src/Store/Batch.antt =====
-- InsertBatch is all or nothing.
use eidetic_daemon.Prelude.{
  ℤ, String, ◌≡◌, refl, sym, ◌∙◌, List, [], ◌∷◌, ◌++◌, map, map-append, append-nil, append_assoc,
  Option-cases, inl, inr,
}
use eidetic_daemon.Engram.{Engram, Bytes, Meta}
use eidetic_daemon.Store.Schema.{Row, Db, insert_row}
use eidetic_daemon.Store.Engine.{Engine}
use eidetic_daemon.Store.Session.{
  Error, Result, ok, err, Session, invalid_engram, continue, ◌>>=◌, ◌>>◌, statement,
}
use eidetic_daemon.Store.Session.Cases.{statement-cases}
use eidetic_daemon.Store.Write.{
  first_invalid, insert_statement, exec_all, transaction, insert_batch,
}

-- What a client wrote, without the id.
pub record Content : Type 0 where
  pub surface : String
  pub ts : ℤ
  pub payload : Bytes
  pub meta : Meta

abbrev pub content : Row → Content
content r = record { surface = r.surface; ts = r.ts; payload = r.payload; meta = r.meta }

abbrev pub written : Engram → Content
written e = record { surface = e.surface; ts = e.ts; payload = e.payload; meta = e.meta }

module _ (engine : Engine) where
  -- The database with all engrams of a batch.
  unfoldable pub with_all : List Engram → Db → Db
  with_all [] db = db
  with_all (e ∷ es) db = with_all es (insert_statement engine e db).1

  -- The rows of a batch stand behind the others, in the order of the batch, with its contents.
  pub content-with_all :
      (es : List Engram) (db : Db)
      → map content (with_all es db).engrams ≡ map content db.engrams ++ map written es
  unfolding with_all insert_statement insert_row
  content-with_all [] db = sym (append-nil _)
  content-with_all (e ∷ es) db =
      content-with_all es (insert_statement engine e db).1 ∙ simp (map-append, append_assoc)

  -- The call succeeded and the database gained the whole batch, or it failed and the database is
  -- what it was.
  pub data AllOrNothing (batch : List Engram) (s : Session) (r : Result (Unit {0}) × Session)
      : Type 0 where
    all : r.0 ≡ ok tt → r.1.db ≡ with_all batch s.db → AllOrNothing batch s r
    nothing : (e : Error) → r.0 ≡ err e → r.1.db ≡ s.db → AllOrNothing batch s r

  data Executed (es : List Engram) (work db : Db) (r : Result Db × Session) : Type 0 where
    done : r.0 ≡ ok (with_all es work) → r.1.db ≡ db → Executed es work db r
    failed : (e : Error) → r.0 ≡ err e → r.1.db ≡ db → Executed es work db r

  -- One more engram in front.
  Executed-cons :
      (e : Engram) (es : List Engram) (work db : Db) (r : Result Db × Session)
      → Executed es (insert_statement engine e work).1 db r
      → Executed (e ∷ es) work db r
  unfolding with_all
  Executed-cons e es work db r (done a b) = done a b
  Executed-cons e es work db r (failed x a b) = failed x a b

  exec_all-Executed :
      (es : List Engram) (work : Db) (s : Session)
      → Executed es work s.db (exec_all engine es work s)
  unfolding exec_all with_all ◌>>=◌
  exec_all-Executed [] work s = done refl refl
  exec_all-Executed (e ∷ es) work s =
      let insertion : Db → Db × Db = λ db. ((insert_statement engine e work).1, db) in
      elim (statement-cases insertion s) [
        | inl (rest, eq) ↦ rw eq (
            Executed-cons e es work s.db _ (
              exec_all-Executed es (insert_statement engine e work).1
                (record { db = s.db; faults = rest })))
        | inr (x, rest, eq) ↦ rw eq (failed x refl refl)
      ]

  -- The last step: the copy becomes the database.
  commit-AllOrNothing :
      (batch : List Engram) (s : Session) (r : Result Db) (t : Session)
      → Executed batch s.db s.db (r, t)
      → AllOrNothing batch s (continue r (λ work. statement (λ db. (tt, work))) t)
  commit-AllOrNothing batch s r t (done a b) =
      let swap : Db → Unit {0} × Db = λ db. (tt, with_all batch s.db) in
      rw a (elim (statement-cases swap t) [
        | inl (rest, eq) ↦ rw eq (all refl refl)
        | inr (x, rest, eq) ↦ rw eq (nothing x refl b)
      ])
  commit-AllOrNothing batch s r t (failed x a b) = rw a (nothing x refl b)

  transaction-AllOrNothing :
      (batch : List Engram) (s : Session) → AllOrNothing batch s (transaction engine batch s)
  unfolding transaction ◌>>◌
  transaction-AllOrNothing batch s =
      let begin : Db → Db × Db = λ db. (db, db) in
      let prepare : Db → Unit {0} × Db = λ db. (tt, db) in
      elim (statement-cases begin s) [
        | inl (rest, eq) ↦ rw eq (
            let s' : Session = record { db = s.db; faults = rest } in
            elim (statement-cases prepare s') [
              | inl (rest', eq') ↦ rw eq' (
                  let s'' : Session = record { db = s.db; faults = rest' } in
                  let loop = exec_all engine batch s.db s'' in
                  commit-AllOrNothing batch s loop.0 loop.1 (exec_all-Executed batch s.db s''))
              | inr (x, rest', eq') ↦ rw eq' (nothing x refl refl)
            ])
        | inr (x, rest, eq) ↦ rw eq (nothing x refl refl)
      ]

  -- InsertBatch, whichever of its statements fail: it succeeds and the database holds every engram
  -- of the batch, or it fails and the database is unchanged.
  pub insert_batch-AllOrNothing :
      (batch : List Engram) (s : Session) → AllOrNothing batch s (insert_batch engine batch s)
  unfolding insert_batch with_all
  insert_batch-AllOrNothing [] s = all refl refl
  insert_batch-AllOrNothing (e ∷ es) s = elim (Option-cases (first_invalid (e ∷ es))) [
    | inl v ↦ rw (v, insert_batch) (transaction-AllOrNothing (e ∷ es) s)
    | inr (i, v) ↦ rw (v, insert_batch) (nothing (invalid_engram i) refl refl)
  ]
