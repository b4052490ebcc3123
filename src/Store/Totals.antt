-- ===== src/Store/Totals.antt =====
-- Count, CountEngrams and CountBySurface against the rows that they stand for.
use eidetic_daemon.Prelude.{
  ℤ, pos, String, str_eq, ◌≡◌, refl, sym, ◌∙◌, ap, fun_ext, Bool, true, false, ◌&&◌, Bool-cases,
  inl, inr, [], length, count_p, count_p-true,
}
use eidetic_daemon.Store.Schema.{Db}
use eidetic_daemon.Store.Session.{Session, ok, statement, query}
use eidetic_daemon.Store.Read.{where_, is_set, retrieve_clauses, count, count_engrams}
use eidetic_daemon.Store.Consistency.{IsConsistent}

and_true : (b : Bool) → b ≡ (b && true)
and_true true = refl
and_true false = refl

module _ (db : Db) (c : IsConsistent db) where
  abbrev session : Session
  session = record { db = db; faults = [] }

  -- On consistent tables and when its query does not fail, `Count` is the number of rows.
  pub count-length : count session ≡ (ok (pos (length db.engrams)), session)
  unfolding count query statement
  count-length = ap (λ n. (ok n, session)) c.total

  -- On consistent tables and when its query does not fail, `CountEngrams`, by whichever of its four
  -- queries, counts the rows that `Retrieve` selects for the same surface and `since`.
  pub count_engrams-selected :
      (surface : String) (since : ℤ)
      → count_engrams surface since session
        ≡ (ok (pos (count_p (where_ (retrieve_clauses surface since (pos 0))) db.engrams)), session)
  unfolding count_engrams query statement
  count_engrams-selected surface since = elim (Bool-cases (str_eq surface "")) [
    | inl everywhere ↦ elim (Bool-cases (is_set since)) [
      | inl bounded ↦ rw (everywhere, bounded) refl
      | inr all ↦
          rw (everywhere, all)
            (ap (λ n. (ok n, session)) (c.total ∙ ap pos (sym (count_p-true db.engrams))))
    ]
    | inr named ↦ elim (Bool-cases (is_set since)) [
      | inl bounded ↦ rw (named, bounded) refl
      | inr all ↦
          rw (named, all)
            (ap (λ n. (ok n, session))
              (c.counted surface
                ∙ ap (λ p. pos (count_p p db.engrams))
                    (fun_ext λ r. and_true (str_eq r.surface surface))))
    ]
  ]
