-- ===== src/Store/Open/Heals.antt =====
-- A database of an earlier version has consistent tables after `Open`.
use eidetic_daemon.Prelude.{
  suc, ltb, ◌==◌, pos, ◌<ℤ◌, arith, ◌≡◌, refl, ◌∙◌, ap, ◌⊎◌, inl, inr, Bool-cases, true, false,
  none, List, [], ◌∷◌, map, length, All,
}
use eidetic_daemon.Store.Schema.{Row, FtsRow, Db, Counts, index_row}
use eidetic_daemon.Store.Session.{Session, statement, query, ◌>>=◌, ◌>>◌}
use eidetic_daemon.Store.Session.Cases.{statement-cases}
use eidetic_daemon.Store.Read.{to_engram}
use eidetic_daemon.Store.Write.{validate_engram}
use eidetic_daemon.Store.Index.{Distinct}
use eidetic_daemon.Store.Consistency.{IsConsistent}
use eidetic_daemon.Store.Lookup.{quiet}
use eidetic_daemon.Store.Open.Counted.{
  IsCounted, put_counts-append, group_counts-OnePerSurface, group_counts-IsCounted,
}
use eidetic_daemon.Store.Open.{
  group_counts, put_counts, fill_fts, fill_counts, fill_fts_if_rows, fill_fts_if_empty,
  backfill_fts, fill_counts_if_empty, backfill_counts, attempt, open_store,
}

-- The tables as an earlier version leaves them: no index, or a full one; no counters, or right ones.
pub record IsUpgradable (db : Db) : Type 0 where
  pub indexed : (db.fts ≡ []) ⊎ (db.fts ≡ map index_row db.engrams)
  pub counted : (db.counts ≡ []) ⊎ IsCounted db.engrams db.counts
  pub distinct : Distinct db.engrams
  pub positive : All (λ r. pos 0 <ℤ r.id) db.engrams
  pub valid : All (λ r. validate_engram (to_engram r) ≡ none) db.engrams

-- The rows are those of a list.
abbrev Holds : List Row → Db → Type 0
Holds rows db = IsUpgradable db × (db.engrams ≡ rows)

fill_counts-IsCounted : (db : Db) → db.counts ≡ [] → IsCounted db.engrams (fill_counts db).counts
unfolding fill_counts
fill_counts-IsCounted db h =
    rw (h, put_counts-append (group_counts db.engrams) [] (group_counts-OnePerSurface db.engrams))
      (group_counts-IsCounted db.engrams)

length-zero {ℓ} : {A : Type ℓ} (xs : List A) → length xs ≡ 0 → xs ≡ []
length-zero [] h = refl
length-zero (x ∷ xs) h = absurd (omega arith)

-- Either nothing changes, or the empty index is filled.
pub backfill_fts-cases :
    (s : Session)
    → ((backfill_fts s).1.db ≡ s.db) ⊎ ((s.db.fts ≡ []) × ((backfill_fts s).1.db ≡ fill_fts s.db))
unfolding backfill_fts ◌>>=◌ query fill_fts_if_empty fill_fts_if_rows
backfill_fts-cases s = elim (statement-cases (λ db. (length db.fts, db)) s) [
  | inr (e, rest, failed) ↦ inl (rw failed refl)
  | inl (rest, counted) ↦ elim (Bool-cases (ltb 0 (length s.db.fts))) [
    | inl full ↦ inl (rw (counted, full) refl)
    | inr empty ↦
        elim (statement-cases (λ db. (length db.engrams, db))
          (record { db = s.db; faults = rest })) [
            | inr (e, rest', failed) ↦ inl (rw (counted, empty, failed) refl)
            | inl (rest', measured) ↦ elim (Bool-cases (length s.db.engrams == 0)) [
              | inl no_rows ↦ inl (rw (counted, empty, measured, no_rows) refl)
              | inr rows ↦
                  elim (statement-cases (λ db. (tt, fill_fts db))
                    (record { db = s.db; faults = rest' })) [
                      | inr (e, rest'', failed) ↦
                          inl (rw (counted, empty, measured, rows, failed) refl)
                      | inl (rest'', filled) ↦ inr (
                        length-zero s.db.fts (ground (arith, empty)),
                        rw (counted, empty, measured, rows, filled) refl,
                      )
                    ]
            ]
          ]
  ]
]

-- Either nothing changes, or the empty counters are filled.
pub backfill_counts-cases :
    (s : Session)
    → ((backfill_counts s).1.db ≡ s.db)
      ⊎ ((s.db.counts ≡ []) × ((backfill_counts s).1.db ≡ fill_counts s.db))
unfolding backfill_counts ◌>>=◌ query fill_counts_if_empty
backfill_counts-cases s = elim (statement-cases (λ db. (length db.counts, db)) s) [
  | inr (e, rest, failed) ↦ inl (rw failed refl)
  | inl (rest, counted) ↦ elim (Bool-cases (ltb 0 (length s.db.counts))) [
    | inl full ↦ inl (rw (counted, full) refl)
    | inr empty ↦
        elim (statement-cases (λ db. (tt, fill_counts db)) (record { db = s.db; faults = rest })) [
          | inr (e, rest', failed) ↦ inl (rw (counted, empty, failed) refl)
          | inl (rest', filled) ↦
              inr
                (length-zero s.db.counts (ground (arith, empty)), rw (counted, empty, filled) refl)
        ]
  ]
]

fill_fts-IsUpgradable : (db : Db) → IsUpgradable db → db.fts ≡ [] → IsUpgradable (fill_fts db)
unfolding fill_fts
fill_fts-IsUpgradable db u h = record {
  indexed = inr (rw h refl);
  counted = u.counted;
  distinct = u.distinct;
  positive = u.positive;
  valid = u.valid;
}

fill_counts-IsUpgradable :
    (db : Db) → IsUpgradable db → db.counts ≡ [] → IsUpgradable (fill_counts db)
unfolding fill_counts
fill_counts-IsUpgradable db u h = record {
  indexed = u.indexed;
  counted = inr (unfold fill_counts in fill_counts-IsCounted db h);
  distinct = u.distinct;
  positive = u.positive;
  valid = u.valid;
}

backfill_fts-Holds :
    (rows : List Row) (s : Session) → Holds rows s.db → Holds rows (backfill_fts s).1.db
unfolding fill_fts
backfill_fts-Holds rows s (u, e) = elim (backfill_fts-cases s) [
  | inl same ↦ rw same (u, e)
  | inr (empty, filled) ↦ rw filled (fill_fts-IsUpgradable s.db u empty, e)
]

backfill_counts-Holds :
    (rows : List Row) (s : Session) → Holds rows s.db → Holds rows (backfill_counts s).1.db
unfolding fill_counts
backfill_counts-Holds rows s (u, e) = elim (backfill_counts-cases s) [
  | inl same ↦ rw same (u, e)
  | inr (empty, filled) ↦ rw filled (fill_counts-IsUpgradable s.db u empty, e)
]

-- Whatever fails, the rows are those that were there, and the next `Open` can still make up for it.
open_store-Holds :
    (rows : List Row) (s : Session) → Holds rows s.db → Holds rows (open_store s).1.db
unfolding open_store ◌>>◌ ◌>>=◌ attempt
open_store-Holds rows s h = elim (statement-cases (λ db. (tt, db)) s) [
  | inr (e, rest, failed) ↦ rw failed h
  | inl (rest, made) ↦ rw made (
      backfill_counts-Holds rows (backfill_fts (record { db = s.db; faults = rest })).1
        (backfill_fts-Holds rows (record { db = s.db; faults = rest }) h))
]

-- With no failures both backfills are complete.
backfill_fts-quiet :
    (rows : List Row) (f : List FtsRow) (c : Counts)
    → (f ≡ []) ⊎ (f ≡ map index_row rows)
    → (backfill_fts (quiet (record { engrams = rows; fts = f; counts = c }))).1
      ≡ quiet (record { engrams = rows; fts = map index_row rows; counts = c })
unfolding backfill_fts ◌>>=◌ query statement fill_fts_if_empty fill_fts_if_rows fill_fts
backfill_fts-quiet [] [] c h = refl
backfill_fts-quiet (r ∷ rows) [] c h =
    let some_rows : (suc (length rows) == 0) ≡ false = ground arith in rw some_rows refl
backfill_fts-quiet rows (x ∷ f) c (inl h) = cc
backfill_fts-quiet rows (x ∷ f) c (inr h) =
    let full : ltb 0 (suc (length f)) ≡ true = ground arith in
    rw full (ap (λ fts. quiet (record { engrams = rows; fts = fts; counts = c })) h)

backfill_counts-quiet :
    (rows : List Row) (f : List FtsRow) (c : Counts)
    → (c ≡ []) ⊎ IsCounted rows c
    → (c' : Counts) × IsCounted rows c'
      × ((backfill_counts (quiet (record { engrams = rows; fts = f; counts = c }))).1
          ≡ quiet (record { engrams = rows; fts = f; counts = c' }))
unfolding backfill_counts ◌>>=◌ query statement fill_counts_if_empty fill_counts
backfill_counts-quiet rows f [] h = (
  put_counts (group_counts rows) [],
  unfold fill_counts in
      fill_counts-IsCounted (record { engrams = rows; fts = f; counts = [] }) refl,
  refl,
)
backfill_counts-quiet rows f (x ∷ c) (inl h) = cc
backfill_counts-quiet rows f (x ∷ c) (inr h) =
    let full : ltb 0 (suc (length c)) ≡ true = ground arith in (x ∷ c, h, rw full refl)

open_store-quiet :
    (db : Db)
    → IsUpgradable db
    → IsConsistent (open_store (quiet db)).1.db
      × ((open_store (quiet db)).1.db.engrams ≡ db.engrams)
unfolding open_store ◌>>◌ ◌>>=◌ attempt statement
open_store-quiet db u =
    let (c, (counted, total), filled) =
      backfill_counts-quiet db.engrams (map index_row db.engrams) db.counts u.counted in
    rw (backfill_fts-quiet db.engrams db.fts db.counts u.indexed, filled)
      (
        record {
          counted = counted;
          total = total;
          indexed = refl;
          distinct = u.distinct;
          positive = u.positive;
          valid = u.valid;
        },
        refl,
      )

-- On tables as an earlier version leaves them, with no index or a full one, no counters or right ones,
-- and valid rows with distinct positive ids, an `Open` may fail at any of its statements; after a second
-- one of which none fails the tables are consistent, and they hold the rows that were there.
pub open_store_heals :
    (s : Session)
    → IsUpgradable s.db
    → let db = (open_store (quiet (open_store s).1.db)).1.db in
      IsConsistent db × (db.engrams ≡ s.db.engrams)
open_store_heals s u =
    let (u', same) = open_store-Holds s.db.engrams s (u, refl) in
    let (consistent, kept) = open_store-quiet (open_store s).1.db u' in (consistent, kept ∙ same)
