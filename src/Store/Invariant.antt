-- ===== src/Store/Invariant.antt =====
-- Every method of `Store` that writes keeps the tables consistent, however its statements fail.
use eidetic_daemon.Prelude.{
  ℕ, ℤ, String, str_eq, ◌==◌, ◌≡◌, Bool, none, List, [], ◌∷◌, arith, Option-cases, All, inl, inr,
}
use eidetic_daemon.Engram.{Engram, Meta}
use eidetic_daemon.Store.Schema.{Row, Db}
use eidetic_daemon.Store.Engine.{Engine}
use eidetic_daemon.Store.Session.{Session, invalid_engram, not_found, surface_required, ◌>>◌}
use eidetic_daemon.Store.Session.Keeps.{
  Gives, Keeps, Anything, Gives-pure, Gives-raise, Gives-statement, Gives-if, Gives-bind,
}
use eidetic_daemon.Store.Write.{
  validate_engram, first_invalid, to_row, delete_counted, not_found_if_zero, delete_by_id, purge,
  update_meta, insert_statement, insert, exec_all, transaction, insert_batch,
}
use eidetic_daemon.Store.Consistency.{
  IsConsistent, insert_row-IsConsistent, delete_where-IsConsistent, set_meta-IsConsistent,
}

delete_counted-keeps :
    (p : Row → Bool) (db : Db) → IsConsistent db → IsConsistent (delete_counted p db).1
unfolding delete_counted
delete_counted-keeps p db c = delete_where-IsConsistent p db c

not_found_if_zero-Keeps : (n : ℕ) → Keeps IsConsistent (not_found_if_zero n)
not_found_if_zero-Keeps n = Gives-if (n == 0) _ _ (Gives-raise not_found) (Gives-pure tt tt)

pub delete_by_id-Keeps : (id : ℤ) → Keeps IsConsistent (delete_by_id id)
unfolding delete_by_id
delete_by_id-Keeps id =
    Gives-bind _ _ (Gives-statement Anything _ (λ db c. (delete_counted-keeps _ db c, tt)))
      (λ n _. not_found_if_zero-Keeps n)

pub purge-Keeps : (surface : String) (before : ℤ) → Keeps IsConsistent (purge surface before)
unfolding purge
purge-Keeps surface before =
    Gives-if (str_eq surface "") _ _ (Gives-raise surface_required)
      (Gives-statement Anything _ (λ db c. (delete_counted-keeps _ db c, tt)))

pub update_meta-Keeps : (id : ℤ) (meta : Meta) → Keeps IsConsistent (update_meta id meta)
unfolding update_meta
update_meta-Keeps id meta =
    Gives-bind _ _ (Gives-statement Anything _ (λ db c. (set_meta-IsConsistent id meta db c, tt)))
      (λ n _. not_found_if_zero-Keeps n)

abbrev AllValid : List Engram → Type 0
AllValid = All (λ e. validate_engram e ≡ none)

-- A batch in which no invalid engram is found holds valid engrams only.
pub valid_of_first_invalid : (es : List Engram) → first_invalid es ≡ none → AllValid es
unfolding first_invalid
valid_of_first_invalid [] h = tt
valid_of_first_invalid (e ∷ es) h = elim (Option-cases (validate_engram e)) [
  | inl v ↦ (v, valid_of_first_invalid es (rw (v, first_invalid) at h))
  | inr (i, v) ↦ absurd (ground arith)
]

module _ (engine : Engine) where
  insert_statement-IsConsistent :
      (e : Engram) (db : Db)
      → validate_engram e ≡ none
      → IsConsistent db
      → IsConsistent (insert_statement engine e db).1
  unfolding insert_statement validate_engram
  insert_statement-IsConsistent e db v c =
      insert_row-IsConsistent (to_row (engine.next_rowid db.engrams) e) db c v
        (engine.next_rowid_fresh db.engrams) (engine.next_rowid_pos db.engrams)

  pub insert-Keeps : (e : Engram) → Keeps IsConsistent (insert engine e)
  unfolding insert
  insert-Keeps e = elim (Option-cases (validate_engram e)) [
    | inl v ↦
        rw (v, insert)
          (Gives-statement Anything _ (λ db c. (insert_statement-IsConsistent e db v c, tt)))
    | inr (i, v) ↦ rw (v, insert) (Gives-raise (invalid_engram i))
  ]

  exec_all-Gives :
      (es : List Engram) (work : Db)
      → AllValid es
      → IsConsistent work
      → Gives IsConsistent IsConsistent (exec_all engine es work)
  unfolding exec_all
  exec_all-Gives [] work v c = Gives-pure work c
  exec_all-Gives (e ∷ es) work v c =
      Gives-bind _ _
        (Gives-statement IsConsistent _ (λ db d. (d, insert_statement-IsConsistent e work v.0 c)))
        (λ work' c'. exec_all-Gives es work' v.1 c')

  transaction-Keeps :
      (batch : List Engram) → AllValid batch → Keeps IsConsistent (transaction engine batch)
  unfolding transaction ◌>>◌
  transaction-Keeps batch v =
      Gives-bind _ _ (Gives-statement IsConsistent _ (λ db c. (c, c))) λ work c.
        Gives-bind _ _ (Gives-statement Anything _ (λ db d. (d, tt))) λ _ _.
          Gives-bind _ _ (exec_all-Gives batch work v c)
            λ work' c'. Gives-statement Anything _ (λ db d. (c', tt))

  pub insert_batch-Keeps : (batch : List Engram) → Keeps IsConsistent (insert_batch engine batch)
  unfolding insert_batch
  insert_batch-Keeps [] = Gives-pure tt tt
  insert_batch-Keeps (e ∷ es) = elim (Option-cases (first_invalid (e ∷ es))) [
    | inl v ↦ rw (v, insert_batch) (transaction-Keeps (e ∷ es) (valid_of_first_invalid (e ∷ es) v))
    | inr (i, v) ↦ rw (v, insert_batch) (Gives-raise (invalid_engram i))
  ]

-- The calls by which a client writes.
pub data Call : Type 0 where
  insert_one : Engram → Call
  insert_many : List Engram → Call
  delete_one : ℤ → Call
  purge_surface : String → ℤ → Call
  replace_meta : ℤ → Meta → Call

module _ (engine : Engine) where
  pub perform : Call → Session → Session
  perform (insert_one e) s = (insert engine e s).1
  perform (insert_many es) s = (insert_batch engine es s).1
  perform (delete_one id) s = (delete_by_id id s).1
  perform (purge_surface surface before) s = (purge surface before s).1
  perform (replace_meta id meta) s = (update_meta id meta s).1

  unfoldable pub perform_all : List Call → Session → Session
  unfolding perform
  perform_all [] s = s
  perform_all (c ∷ cs) s = perform_all cs (perform c s)

  perform-IsConsistent :
      (c : Call) (s : Session) → IsConsistent s.db → IsConsistent (perform c s).db
  unfolding perform
  perform-IsConsistent (insert_one e) s h = (insert-Keeps engine e).keeps s h
  perform-IsConsistent (insert_many es) s h = (insert_batch-Keeps engine es).keeps s h
  perform-IsConsistent (delete_one id) s h = (delete_by_id-Keeps id).keeps s h
  perform-IsConsistent (purge_surface surface before) s h = (purge-Keeps surface before).keeps s h
  perform-IsConsistent (replace_meta id meta) s h = (update_meta-Keeps id meta).keeps s h

  -- From a session whose tables are consistent, any sequence of writing calls leads to one whose
  -- tables are consistent, whichever of the statements fail: the counters count the rows of each
  -- surface and add up to all rows, the index mirrors the rows, ids are distinct and positive, and
  -- every row is valid.
  pub perform_all-IsConsistent :
      (calls : List Call) (s : Session) → IsConsistent s.db → IsConsistent (perform_all calls s).db
  unfolding perform_all
  perform_all-IsConsistent [] s h = h
  perform_all-IsConsistent (c ∷ cs) s h =
      perform_all-IsConsistent cs (perform c s) (perform-IsConsistent c s h)
