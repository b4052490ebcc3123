-- ===== src/Store/Write.antt =====
-- The methods of `Store` that write: Insert, InsertBatch, DeleteByID, Purge, UpdateMeta.
use eidetic_daemon.Prelude.{
  ℕ, ◌*◌, ℤ, pos, ltb_ℤ, eqb_ℤ, String, str_eq, ltb, ◌==◌, ◌&&◌, Bool, Option, none, some, List, [],
  ◌∷◌, length, count_p, if◌then◌else◌,
}
use eidetic_daemon.Engram.{Engram, Meta}
use eidetic_daemon.Store.Schema.{Row, Db, insert_row, delete_where, set_meta}
use eidetic_daemon.Store.Engine.{Engine}
use eidetic_daemon.Store.Session.{
  Invalid, surface_missing, ts_missing, payload_missing, payload_too_large, invalid_engram,
  not_found, surface_required, M, pure, raise, ◌>>=◌, ◌>>◌, statement,
}

-- 8 << 20
abbrev pub max_payload_bytes : ℕ
max_payload_bytes = 8 * 1_048_576

unfoldable pub validate_engram : Engram → Option Invalid
validate_engram e =
    if str_eq e.surface ""
    then some surface_missing
    else if eqb_ℤ e.ts (pos 0)
    then some ts_missing
    else if length e.payload == 0
    then some payload_missing
    else if ltb max_payload_bytes (length e.payload)
    then some (payload_too_large (length e.payload))
    else none

unfoldable pub first_invalid : List Engram → Option Invalid
first_invalid [] = none
first_invalid (e ∷ es) =
    let rest = first_invalid es in elim (validate_engram e) [ some v ↦ some v | none ↦ rest ]

-- The columns of an engram, under a new id.
abbrev pub to_row : ℤ → Engram → Row
to_row id e = record { id = id; surface = e.surface; ts = e.ts; payload = e.payload; meta = e.meta }

-- DELETE FROM engrams WHERE …, and the number of rows affected
unfoldable pub delete_counted : (Row → Bool) → Db → ℕ × Db
delete_counted p db = (count_p p db.engrams, delete_where p db)

-- The rows that `Purge` deletes.
abbrev pub purged : String → ℤ → Row → Bool
purged surface before r =
    if ltb_ℤ (pos 0) before
    then str_eq r.surface surface && ltb_ℤ r.ts before
    else str_eq r.surface surface

abbrev pub not_found_if_zero : ℕ → M (Unit {0})
not_found_if_zero n = if n == 0 then raise not_found else pure tt

unfoldable pub delete_by_id : ℤ → M (Unit {0})
delete_by_id id = do n ← statement (delete_counted (λ r. eqb_ℤ r.id id)); not_found_if_zero n

unfoldable pub purge : String → ℤ → M ℕ
purge surface before =
    if str_eq surface ""
    then raise surface_required
    else statement (delete_counted (purged surface before))

unfoldable pub update_meta : ℤ → Meta → M (Unit {0})
update_meta id meta = do
  n ← statement (λ db. (count_p (λ r. eqb_ℤ r.id id) db.engrams, set_meta id meta db))
  not_found_if_zero n

module _ (engine : Engine) where
  open engine use {next_rowid}

  -- INSERT INTO engrams (surface, ts, payload, meta) VALUES (?, ?, ?, ?), and LastInsertId
  unfoldable pub insert_statement : Engram → Db → ℤ × Db
  insert_statement e db = let id = next_rowid db.engrams in (id, insert_row (to_row id e) db)

  unfoldable pub insert : Engram → M ℤ
  insert e = elim (validate_engram e) [
    | some v ↦ raise (invalid_engram v)
    | none ↦ statement (insert_statement e)
  ]

  -- The loop of `InsertBatch`. A transaction works on a copy of the database: to roll back is to
  -- drop the copy.
  unfoldable pub exec_all : List Engram → Db → M Db
  exec_all [] work = pure work
  exec_all (e ∷ es) work = do
    work' ← statement (λ db. ((insert_statement e work).1, db))
    exec_all es work'

  unfoldable pub transaction : List Engram → M (Unit {0})
  transaction batch = do
    work ← statement (λ db. (db, db))
    statement (λ db. (tt, db))
    work' ← exec_all batch work
    statement (λ db. (tt, work'))

  unfoldable pub insert_batch : List Engram → M (Unit {0})
  insert_batch [] = pure tt
  insert_batch (e ∷ es) = elim (first_invalid (e ∷ es)) [
    | some v ↦ raise (invalid_engram v)
    | none ↦ transaction (e ∷ es)
  ]
