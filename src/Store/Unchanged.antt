-- ===== src/Store/Unchanged.antt =====
-- Which calls of `Store` leave the database as it was: the reading ones, and writing ones that fail.
use eidetic_daemon.Prelude.{
  ℤ, eqb_ℤ, String, str_eq, ◌==◌, not, ◌≡◌, inl, inr, refl, ◌∙◌, arith, Bool, false, Bool-cases,
  Option, Option-cases, none, some, List, [], ◌∷◌, All, count_p, All-false_of_count_p, filter,
}
use eidetic_daemon.Engram.{Engram}
use eidetic_daemon.Store.Schema.{Row, Db, delete_where, unindex, uncount}
use eidetic_daemon.Store.Engine.{Engine}
use eidetic_daemon.Store.Session.{Result, ok, err, Session, M, continue, statement, query, ◌>>=◌}
use eidetic_daemon.Store.Session.Cases.{statement-cases}
use eidetic_daemon.Store.Read.{
  count, count_engrams, count_by_surface, or_not_found, get_by_id, retrieve, recent, retrieve_after,
  is_set,
}
use eidetic_daemon.Store.Write.{
  validate_engram, delete_counted, delete_by_id, purge, insert, insert_batch,
}
use eidetic_daemon.Store.Batch.{all, nothing, insert_batch-AllOrNothing}

module _ {A : Type 0} where
  -- Whatever comes of the call, the database is as before.
  pub record Reads (m : M A) : Type 0 where
    pub same : (s : Session) → (m s).1.db ≡ s.db

  -- The database is as before, or the call succeeded.
  pub data Clean (s : Session) (r : Result A × Session) : Type 0 where
    unchanged : r.1.db ≡ s.db → Clean s r
    succeeded : (a : A) → r.0 ≡ ok a → Clean s r

  pub query-Reads : (f : Db → A) → Reads (query f)
  unfolding query
  query-Reads f = record {
    same = λ s.
        let reads : Db → A × Db = λ db. (f db, db) in
        elim (statement-cases reads s) [ inl (rest, e) ↦ rw e refl | inr (x, rest, e) ↦ rw e refl ];
  }

  pub statement-Clean : (f : Db → A × Db) (s : Session) → Clean s (statement f s)
  statement-Clean f s = elim (statement-cases f s) [
    | inl (rest, e) ↦ rw e (succeeded _ refl)
    | inr (x, rest, e) ↦ rw e (unchanged refl)
  ]

module _ {A B : Type 0} where
  continue-Reads :
      (r : Result A) (f : A → M B) (s : Session)
      → ((a : A) → Reads (f a))
      → (continue r f s).1.db ≡ s.db
  continue-Reads (ok a) f s rf = (rf a).same s
  continue-Reads (err e) f s rf = refl

  pub bind-Reads : (m : M A) (f : A → M B) → Reads m → ((a : A) → Reads (f a)) → Reads (m >>= f)
  unfolding ◌>>=◌
  bind-Reads m f rm rf = record { same = λ s. continue-Reads (m s).0 f (m s).1 rf ∙ rm.same s }

pub count-Reads : Reads count
unfolding count
count-Reads = query-Reads _

pub count_by_surface-Reads : Reads count_by_surface
unfolding count_by_surface
count_by_surface-Reads = query-Reads _

pub count_engrams-Reads : (surface : String) (since : ℤ) → Reads (count_engrams surface since)
unfolding count_engrams
count_engrams-Reads surface since = elim (Bool-cases (str_eq surface "")) [
  | inl everywhere ↦ elim (Bool-cases (is_set since)) [
    | inl bounded ↦ rw (everywhere, bounded, count_engrams) (query-Reads _)
    | inr all_times ↦ rw (everywhere, all_times, count_engrams) (query-Reads _)
  ]
  | inr named ↦ elim (Bool-cases (is_set since)) [
    | inl bounded ↦ rw (named, bounded, count_engrams) (query-Reads _)
    | inr all_times ↦ rw (named, all_times, count_engrams) (query-Reads _)
  ]
]

or_not_found-Reads : (row : Option Row) → Reads (or_not_found row)
unfolding or_not_found
or_not_found-Reads none = record { same = λ s. refl }
or_not_found-Reads (some r) = record { same = λ s. refl }

pub get_by_id-Reads : (id : ℤ) → Reads (get_by_id id)
unfolding get_by_id or_not_found
get_by_id-Reads id = bind-Reads _ or_not_found (query-Reads _) or_not_found-Reads

module _ (engine : Engine) where
  pub retrieve-Reads :
      (surface : String) (since before limit : ℤ) (asc : Bool)
      → Reads (retrieve engine surface since before limit asc)
  unfolding retrieve
  retrieve-Reads surface since before limit asc = query-Reads _

  pub recent-Reads : (since before limit : ℤ) → Reads (recent engine since before limit)
  unfolding recent
  recent-Reads since before limit = query-Reads _

  pub retrieve_after-Reads :
      (surface : String) (ts id before limit : ℤ)
      → Reads (retrieve_after engine surface ts id before limit)
  unfolding retrieve_after
  retrieve_after-Reads surface ts id before limit = query-Reads _

  pub insert-Clean : (e : Engram) (s : Session) → Clean s (insert engine e s)
  unfolding insert
  insert-Clean e s = elim (Option-cases (validate_engram e)) [
    | inl v ↦ rw (v, insert) (statement-Clean _ s)
    | inr (i, v) ↦ rw (v, insert) (unchanged refl)
  ]

  pub insert_batch-Clean :
      (batch : List Engram) (s : Session) → Clean s (insert_batch engine batch s)
  insert_batch-Clean batch s = elim (insert_batch-AllOrNothing engine batch s) [
    | all e _ ↦ succeeded tt e
    | nothing _ _ same ↦ unchanged same
  ]

pub purge-Clean : (surface : String) (before : ℤ) (s : Session) → Clean s (purge surface before s)
unfolding purge
purge-Clean surface before s = elim (Bool-cases (str_eq surface "")) [
  | inl empty ↦ rw (empty, purge) (unchanged refl)
  | inr named ↦ rw (named, purge) (statement-Clean _ s)
]

-- To delete no row changes nothing.
filter-none :
    (p : Row → Bool) (rows : List Row)
    → All (λ r. p r ≡ false) rows
    → (filter p rows ≡ []) × (filter (λ r. not (p r)) rows ≡ rows)
filter-none p [] h = (refl, refl)
filter-none p (r ∷ rows) h =
    let (first, second) = filter-none p rows h.1 in (rw (h.0, first) refl, rw (h.0, second) refl)

delete_where-none : (p : Row → Bool) (db : Db) → count_p p db.engrams ≡ 0 → delete_where p db ≡ db
unfolding delete_where unindex uncount
delete_where-none p db h =
    let (first, second) = filter-none p db.engrams (All-false_of_count_p p db.engrams h) in
    rw (first, second, delete_where) refl

-- DeleteByID that finds no row fails, and has changed nothing.
pub delete_by_id-Clean : (id : ℤ) (s : Session) → Clean s (delete_by_id id s)
unfolding delete_by_id delete_counted ◌>>=◌
delete_by_id-Clean id s =
    let matches : Row → Bool = λ r. eqb_ℤ r.id id in
    elim (statement-cases (delete_counted matches) s) [
      | inr (e, rest, failed) ↦ rw failed (unchanged refl)
      | inl (rest, deleted) ↦ rw deleted (elim (Bool-cases (count_p matches s.db.engrams == 0)) [
        | inr some_row ↦ rw some_row (succeeded tt refl)
        | inl no_row ↦
            rw no_row (unchanged (delete_where-none matches s.db (ground (arith, no_row))))
      ])
    ]
