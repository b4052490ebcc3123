-- ===== src/Store/Search/Sound.antt =====
-- What an answer of `Search` holds.
use mathlib.Core.Option.{some-injective}
use eidetic_daemon.Prelude.{
  ℕ, ◌≤◌, ℤ, eqb_ℤ, eq_of_parts, arith, String, str_eq, eq_iff, eq_refl, ◌≡◌, refl, sym, ◌∙◌, ap,
  subst, ◌||◌, ◌&&◌, not, Bool, Bool-cases, inl, inr, true, false, some, Option-cases, List, [],
  ◌∷◌, map, take, filter, is_empty, length, length-take, All, All-take, count_p,
}
use eidetic_daemon.Engram.{Bytes, Engram}
use eidetic_daemon.Store.Schema.{Row, FtsRow, Db, index_row}
use eidetic_daemon.Store.Engine.{Engine, Answer, hits, failure}
use eidetic_daemon.Store.Session.{Session, Result, ok, err, query, ◌>>=◌}
use eidetic_daemon.Store.Session.Cases.{statement-cases}
use eidetic_daemon.Store.Read.{clamp_limit}
use eidetic_daemon.Store.Index.{Distinct}
use eidetic_daemon.Store.Consistency.{IsConsistent}
use eidetic_daemon.Store.Lookup.{row_of}
use eidetic_daemon.Store.Search.{
  to_excerpt, join_rows, on_fts_surface, answered, is_fts5_syntax_error, do_search, retry, search,
  quote_phrase,
}

no_other :
    (id : ℤ) (x : Row) (s : String) (rows : List Row)
    → All (λ y. eqb_ℤ y.id x.id ≡ false) rows
    → eqb_ℤ x.id id ≡ true
    → count_p (λ y. eqb_ℤ y.rowid id && not (str_eq y.surface s)) (map index_row rows) ≡ 0
no_other id x s [] d h = refl
no_other id x s (y ∷ rows) d h = ground (arith, no_other id x s rows d.1 h)

-- The index has no entry for the id of a row but with the surface of that row.
same_surface_only :
    (id : ℤ) (rows : List Row) (r : Row)
    → Distinct rows
    → row_of id rows ≡ some r
    → count_p (λ x. eqb_ℤ x.rowid id && not (str_eq x.surface r.surface)) (map index_row rows) ≡ 0
same_surface_only id [] r d h = cc
same_surface_only id (x ∷ rows) r d h = elim (Bool-cases (eqb_ℤ x.id id)) [
  | inl here ↦
      let same : x ≡ r = some-injective x r (rw here at h) in
      let rest = no_other id x r.surface rows d.0 here in
      let surface : str_eq x.surface r.surface ≡ true =
        ap (λ (y : Row). str_eq y.surface r.surface) same ∙ eq_refl r.surface in
      rw (here, surface) rest
  | inr there ↦ rw there (same_surface_only id rows r d.1 (rw there at h))
]

-- Of an entry's row, its surface.
abbrev Agrees : List Row → FtsRow × Bytes → Type 0
Agrees rows (f, _) = (r : Row) → row_of f.rowid rows ≡ some r → str_eq f.surface r.surface ≡ true

Agrees-of_count :
    (rows : List Row) (found : List (FtsRow × Bytes))
    → Distinct rows
    → ((p : FtsRow → Bool) → count_p p (map (λ h. h.0) found) ≤ count_p p (map index_row rows))
    → All (Agrees rows) found
Agrees-of_count rows [] d bound = tt
Agrees-of_count rows ((f, snippet) ∷ found) d bound = (
  (λ r h.
      let none_other = same_surface_only f.rowid rows r d h in
      let p = λ (x : FtsRow). eqb_ℤ x.rowid f.rowid && not (str_eq x.surface r.surface) in
      ground (arith, bound p, none_other)),
  Agrees-of_count rows found d (λ p. ground (arith, bound p)),
)

-- What a row of the answer shows: id, surface, time and meta of a stored row on the surface asked for,
-- with a snippet in place of the payload.
abbrev pub IsExcerpt : String → List Row → Engram → Type 0
IsExcerpt surface rows e =
    (r : Row) × (row_of e.id rows ≡ some r)
    × (e ≡ to_excerpt e.snippet r)
    × ((str_eq surface "" || str_eq r.surface surface) ≡ true)

find-eqb : (id : ℤ) (rows : List Row) (r : Row) → row_of id rows ≡ some r → eqb_ℤ r.id id ≡ true
find-eqb id [] r h = cc
find-eqb id (x ∷ rows) r h = elim (Bool-cases (eqb_ℤ x.id id)) [
  | inl here ↦ ap (λ (y : Row). eqb_ℤ y.id id) (sym (some-injective x r (rw here at h))) ∙ here
  | inr there ↦ find-eqb id rows r (rw there at h)
]

find-id : (id : ℤ) (rows : List Row) (r : Row) → row_of id rows ≡ some r → row_of r.id rows ≡ some r
find-id id rows r h =
    let same : r.id ≡ id = eq_of_parts r.id id (ground (arith, find-eqb id rows r h)) in
    ap (λ k. row_of k rows) same ∙ h

join_rows-IsExcerpt :
    (surface : String) (rows : List Row) (found : List (FtsRow × Bytes))
    → All (Agrees rows) found
    → All (IsExcerpt surface rows) (join_rows rows (filter (on_fts_surface surface) found))
unfolding join_rows
join_rows-IsExcerpt surface rows [] h = tt
join_rows-IsExcerpt surface rows ((f, snippet) ∷ found) h =
    elim (Bool-cases (on_fts_surface surface (f, snippet))) [
      | inr off ↦ rw off (join_rows-IsExcerpt surface rows found h.1)
      | inl on ↦ elim (Option-cases (row_of f.rowid rows)) [
        | inl gone ↦ rw (on, gone, join_rows) (join_rows-IsExcerpt surface rows found h.1)
        | inr (r, e) ↦
            rw (on, e, join_rows)
              (
                (
                  r,
                  find-id f.rowid rows r e,
                  refl,
                  ground (arith, on, h.0 r e, eq_iff f.surface r.surface),
                ),
                join_rows-IsExcerpt surface rows found h.1,
              )
      ]
    ]

ok-injective : {A : Type 0} {a b : A} → ◌≡◌ {A = Result A} (ok a) (ok b) → a ≡ b
ok-injective h = cc

-- A statement that searches answers with excerpts only, within the limit.
abbrev Answers : String → ℕ → List Row → List Engram → Type 0
Answers surface limit rows out = All (IsExcerpt surface rows) out × (length out ≤ limit)

answered-Answers :
    (surface : String) (limit : ℕ) (rows : List Row) (answer : Answer) (s : Session)
    (out : List Engram)
    → ((found : List (FtsRow × Bytes)) → answer ≡ hits found → All (Agrees rows) found)
    → (answered surface limit rows answer s).0 ≡ ok out
    → Answers surface limit rows out
unfolding answered
answered-Answers surface limit rows (failure m) s out agree h = cc
answered-Answers surface limit rows (hits found) s out agree h =
    let joined = join_rows rows (filter (on_fts_surface surface) found) in
    let same : take limit joined ≡ out = ok-injective h in
    subst (Answers surface limit rows) same (
      All-take (IsExcerpt surface rows) limit joined
          (join_rows-IsExcerpt surface rows found (agree found refl)),
      omega (arith, length-take limit joined),
    )

module _ (engine : Engine) (surface : String) where
  do_search-Answers :
      (q : Bytes) (limit : ℕ) (s : Session) (out : List Engram)
      → IsConsistent s.db
      → (do_search engine q surface limit s).0 ≡ ok out
      → Answers surface limit s.db.engrams out
  unfolding do_search ◌>>=◌ query
  do_search-Answers q limit s out c h =
      let reads : Db → (Answer × List Row) × Db = λ db. ((engine.match q db.fts, db.engrams), db) in
      elim (statement-cases reads s) [
        | inr (e, rest, failed) ↦ cc (rw failed at h)
        | inl (rest, read) ↦
            answered-Answers surface limit s.db.engrams (engine.match q s.db.fts) _ out
              (λ found e.
                Agrees-of_count s.db.engrams found c.distinct
                  (λ p. rw (sym c.indexed) (engine.match_sound q s.db.fts found e p)))
              (rw read at h)
      ]

  answered-db :
      (limit : ℕ) (rows : List Row) (answer : Answer) (s : Session)
      → (answered surface limit rows answer s).1 ≡ s
  unfolding answered
  answered-db limit rows (failure m) s = refl
  answered-db limit rows (hits found) s = refl

  -- A search changes nothing.
  pub do_search-db :
      (q : Bytes) (limit : ℕ) (s : Session) → (do_search engine q surface limit s).1.db ≡ s.db
  unfolding do_search ◌>>=◌ query
  do_search-db q limit s =
      let reads : Db → (Answer × List Row) × Db = λ db. ((engine.match q db.fts, db.engrams), db) in
      elim (statement-cases reads s) [
        | inr (e, rest, failed) ↦ rw failed refl
        | inl (rest, read) ↦ rw read (
            ap (λ (s' : Session). s'.db)
              (answered-db limit s.db.engrams (engine.match q s.db.fts) _))
      ]

  retry-Answers :
      (q : Bytes) (limit : ℕ) (r : Result (List Engram)) (s : Session)
      → IsConsistent s.db
      → ((out : List Engram) → r ≡ ok out → Answers surface limit s.db.engrams out)
      → (out : List Engram) → (retry engine q surface limit r s).0 ≡ ok out
      → Answers surface limit s.db.engrams out
  unfolding retry
  retry-Answers q limit (ok rows) s c first out h = first out h
  retry-Answers q limit (err e) s c first out h = elim (Bool-cases (is_fts5_syntax_error e)) [
    | inl syntax ↦ do_search-Answers (quote_phrase q) limit s out c (rw syntax at h)
    | inr other ↦ cc (rw other at h)
  ]

  pub retry-db :
      (q : Bytes) (limit : ℕ) (r : Result (List Engram)) (s : Session)
      → (retry engine q surface limit r s).1.db ≡ s.db
  unfolding retry
  retry-db q limit (ok rows) s = refl
  retry-db q limit (err e) s = elim (Bool-cases (is_fts5_syntax_error e)) [
    | inl syntax ↦ rw syntax (do_search-db (quote_phrase q) limit s)
    | inr other ↦ rw other refl
  ]

  pub search-db :
      (q : Bytes) (limit : ℤ) (s : Session) → (search engine q surface limit s).1.db ≡ s.db
  unfolding search
  search-db q limit s = elim (Bool-cases (is_empty q)) [
    | inl empty ↦ rw empty refl
    | inr some_text ↦
        let (r, s') = do_search engine q surface (clamp_limit 500 limit) s in
        rw some_text
          (retry-db q (clamp_limit 500 limit) r s' ∙ do_search-db q (clamp_limit 500 limit) s)
  ]

  -- On consistent tables, every row of an answer of `Search` shows a stored row on the surface asked for,
  -- if one is named, with a snippet in place of the payload, and the answer keeps to the clamped limit;
  -- so also when the query was quoted after a syntax error.
  pub search-Answers :
      (q : Bytes) (limit : ℤ) (s : Session) (out : List Engram)
      → IsConsistent s.db
      → (search engine q surface limit s).0 ≡ ok out
      → All (IsExcerpt surface s.db.engrams) out × (length out ≤ clamp_limit 500 limit)
  unfolding search
  search-Answers q limit s out c h = elim (Bool-cases (is_empty q)) [
    | inl empty ↦ cc (rw empty at h)
    | inr some_text ↦
        let n = clamp_limit 500 limit in
        let (r, s') = do_search engine q surface n s in
        let same = do_search-db q n s in
        subst (λ db. Answers surface n db.engrams out) same
          (retry-Answers q n r s' (subst IsConsistent (sym same) c)
            (λ first e.
              subst (λ db. Answers surface n db.engrams first) (sym same)
                (do_search-Answers q n s first c e))
            out (rw some_text at h))
  ]
