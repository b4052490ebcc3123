-- ===== src/Store/Stats/Bounds.antt =====
-- The probes of `Stats` are few, and its times bound those of all rows.
use eidetic_daemon.Prelude.{
  replicate, ◌++◌, String, ℕ, zero, suc, ◌+◌, ◌*◌, ◌/◌, ◌≤◌, leb, ltb, ℤ, pos, ltb_ℤ, ◌≤ℤ◌, arith,
  ◌⊎◌, ◌≡◌, refl, Bool-cases, inl, inr, true, false, Option, none, some, List, [], ◌∷◌, length,
  filter, All, if◌then◌else◌,
}
use eidetic_daemon.Store.Schema.{Row, Db}
use eidetic_daemon.Store.Session.{M, Session, ok, ◌>>=◌, ◌>>◌, statement, query}
use eidetic_daemon.Store.Read.{get_by_id, count, is_set, count_by_surface}
use eidetic_daemon.Store.Consistency.{IsConsistent}
use eidetic_daemon.Store.Lookup.{quiet, found, row_of, get_by_id-found}
use eidetic_daemon.Store.Stats.{
  min_ts, max_ts, or_zero, probe_step, probes, p95, measured, StatsSnapshot, stats,
}

-- Every row is at or after the oldest time, and at or before the newest.
abbrev pub Within : ℤ → ℤ → List Row → Type 0
Within oldest newest = All (λ r. (oldest ≤ℤ r.ts) × (r.ts ≤ℤ newest))

Within-widen :
    (lo hi lo' hi' : ℤ) (rows : List Row)
    → lo' ≤ℤ lo
    → hi ≤ℤ hi'
    → Within lo hi rows
    → Within lo' hi' rows
Within-widen lo hi lo' hi' [] p q h = tt
Within-widen lo hi lo' hi' (r ∷ rows) p q h = (omega arith, Within-widen lo hi lo' hi' rows p q h.1)

min_ts-max_ts :
    (rows : List Row)
    → ((rows ≡ []) × (min_ts rows ≡ none) × (max_ts rows ≡ none))
      ⊎ ((lo : ℤ) × (hi : ℤ) × (min_ts rows ≡ some lo)
          × (max_ts rows ≡ some hi)
          × Within lo hi rows)
unfolding min_ts max_ts
min_ts-max_ts [] = inl (refl, refl, refl)
min_ts-max_ts (r ∷ rows) = elim (min_ts-max_ts rows) [
  | inl (empty, lo, hi) ↦ inr (
    r.ts,
    r.ts,
    rw (lo, min_ts) refl,
    rw (hi, max_ts) refl,
    ((omega arith, omega arith), rw empty tt),
  )
  | inr (lo, hi, least, most, inside) ↦
      let lo' : ℤ = if ltb_ℤ r.ts lo then r.ts else lo in
      let hi' : ℤ = if ltb_ℤ hi r.ts then r.ts else hi in
      inr (
        lo',
        hi',
        rw (least, min_ts) (ground arith),
        rw (most, max_ts) (ground arith),
        (
          (ground arith, ground arith),
          Within-widen lo hi lo' hi' rows (ground arith) (ground arith) inside,
        ),
      )
]

rows-Within : (rows : List Row) → Within (or_zero (min_ts rows)) (or_zero (max_ts rows)) rows
rows-Within rows = elim (min_ts-max_ts rows) [
  | inl (empty, lo, hi) ↦ rw empty tt
  | inr (lo, hi, least, most, inside) ↦ rw (least, most) inside
]

-- A session whose next `n` statements do not fail.
abbrev pub after : ℕ → Db → List (Option String) → Session
after n db rest = record { db = db; faults = replicate n none ++ rest }

-- An action that answers `a` when nothing fails, and that is then `n` statements and no more.
abbrev pub Takes : {A : Type 0} → M A → Db → A → ℕ → Type 0
Takes m db a n =
    (m (quiet db) ≡ (ok a, quiet db))
    × ((rest : List (Option String)) → m (after n db rest) ≡ (ok a, after 0 db rest))

get_by_id-after :
    (id : ℤ) (n : ℕ) (db : Db) (rest : List (Option String))
    → get_by_id id (after (suc n) db rest) ≡ (found (row_of id db.engrams), after n db rest)
unfolding get_by_id query statement ◌>>=◌
get_by_id-after id n db rest = ground arith

probes-length :
    (elapsed : ℕ → ℤ) (step total rounds i : ℕ) (db : Db)
    → i ≤ total + step
    → (samples : List ℤ) × Takes (probes elapsed step total rounds i) db samples (length samples)
      × (length samples * step + i ≤ total + step)
unfolding probes ◌>>=◌ ◌>>◌
probes-length elapsed step total zero i db h = ([], (refl, λ rest. refl), omega arith)
probes-length elapsed step total (suc rounds) i db h = elim (Bool-cases (leb i total)) [
  | inr over ↦ ([], (rw (over, probes) refl, λ rest. rw (over, probes) refl), omega arith)
  | inl inside ↦
      let (samples, e, bound) =
        probes-length elapsed step total rounds (i + step) db (ground (arith, inside)) in
      (
        elapsed i ∷ samples,
        (
          rw (inside, probes, get_by_id-found (pos i) db, e.0) refl,
          λ rest.
              rw (inside, probes, get_by_id-after (pos i) (length samples) db rest, e.1 rest) refl,
        ),
        grind arith,
      )
]

few : (n step : ℕ) → 1 ≤ step → n * step ≤ 39 * step → n ≤ 39
few n step h k = grind arith

probe_step_few : (n total : ℕ) → n * probe_step total + 1 ≤ total + probe_step total → n ≤ 39
unfolding probe_step
probe_step_few n total h = elim (Bool-cases (ltb (total / 20) 1)) [
  | inl e ↦ let g = rw e at h in grind (arith, e)
  | inr e ↦
      let g = rw e at h in
      let some_step : 1 ≤ total / 20 = ground (arith, e) in
      few n (total / 20) some_step (omega arith)
]

measured_some :
    (elapsed : ℕ → ℤ) (n : ℕ) (db : Db) (samples : List ℤ)
    → ltb_ℤ (pos 0) (pos n) ≡ true
    → Takes (probes elapsed (probe_step n) n n 1) db samples (length samples)
    → Takes (measured elapsed (pos n)) db samples (length samples)
unfolding measured
measured_some elapsed n db samples h (e, es) =
    (rw (h, measured) e, λ rest. rw (h, measured) (es rest))

measured_none :
    (elapsed : ℕ → ℤ) (n : ℕ) (db : Db)
    → ltb_ℤ (pos 0) (pos n) ≡ false
    → Takes (measured elapsed (pos n)) db [] 0
unfolding measured
measured_none elapsed n db h = (rw (h, measured) refl, λ rest. rw (h, measured) refl)

one_inside : (n : ℕ) → ltb_ℤ (pos 0) (pos n) ≡ true → 1 ≤ n + probe_step n
one_inside n h = ground arith

measured-probes :
    (elapsed : ℕ → ℤ) (n : ℕ) (db : Db)
    → (samples : List ℤ) × Takes (measured elapsed (pos n)) db samples (length samples)
      × (length samples ≤ 39)
measured-probes elapsed n db = elim (Bool-cases (ltb_ℤ (pos 0) (pos n))) [
  | inr empty ↦ ([], measured_none elapsed n db empty, omega arith)
  | inl stored ↦
      let (samples, e, bound) =
        probes-length elapsed (probe_step n) n n 1 db (one_inside n stored) in
      (
        samples,
        measured_some elapsed n db samples stored e,
        probe_step_few (length samples) n bound,
      )
]

abbrev snapshot : Option ℕ → Db → List ℤ → StatsSnapshot
snapshot file_size db samples = record {
  total = pos (length db.engrams);
  by_surface = filter (λ entry. is_set entry.1) db.counts;
  oldest_ns = or_zero (min_ts db.engrams);
  newest_ns = or_zero (max_ts db.engrams);
  db_bytes = elim file_size [ none ↦ 0 | some n ↦ n ];
  p95_lat_ns = p95 samples;
}

stats-Takes :
    (elapsed : ℕ → ℤ) (file_size : Option ℕ) (db : Db) (samples : List ℤ) (n : ℕ)
    → IsConsistent db
    → Takes (measured elapsed (pos (length db.engrams))) db samples n
    → Takes (stats elapsed file_size) db (snapshot file_size db samples) (suc (suc (suc n)))
unfolding stats count count_by_surface ◌>>=◌ query statement
stats-Takes elapsed file_size db samples n c (e, es) =
    (rw (c.total, e) refl, λ rest. rw (c.total, es rest) refl)

-- On consistent tables and when none of its statements fails, `Stats` reports the number of rows, times
-- that bound those of all rows, and the 95th percentile of the samples that its probes take. It executes
-- three statements and one for each sample, and no more; the samples are at most 39, however large the
-- store is.
pub stats-Within :
    (elapsed : ℕ → ℤ) (file_size : Option ℕ) (db : Db)
    → IsConsistent db
    → (snap : StatsSnapshot) × (samples : List ℤ) × Takes
        (stats elapsed file_size)
        db
        snap
        (suc (suc (suc (length samples))))
      × Takes (measured elapsed (pos (length db.engrams))) db samples (length samples)
      × (snap.total ≡ pos (length db.engrams))
      × Within snap.oldest_ns snap.newest_ns db.engrams
      × (snap.p95_lat_ns ≡ p95 samples)
      × (length samples ≤ 39)
stats-Within elapsed file_size db c =
    let (samples, e, bound) = measured-probes elapsed (length db.engrams) db in
    (
      snapshot file_size db samples,
      samples,
      stats-Takes elapsed file_size db samples (length samples) c e,
      e,
      refl,
      rows-Within db.engrams,
      refl,
      bound,
    )
