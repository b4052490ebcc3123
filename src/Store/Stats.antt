-- ===== src/Store/Stats.antt =====
-- `Stats` of internal/store/store.go. The size of the file, if the file system tells it, and the time
-- that each probe takes are arguments. The index of the 95th percentile is computed in floating point;
-- for up to 39 samples, and there are no more, `n * 95 / 100` is the same number.
pub mod Bounds
use eidetic_daemon.Prelude.{
  ℕ, zero, suc, ◌+◌, ◌-◌, ◌*◌, ◌/◌, leb, ltb, ℤ, pos, pos_part, ltb_ℤ, Bool, true, false, Option,
  none, some, List, [], ◌∷◌, length, if◌then◌else◌,
}
use eidetic_daemon.Engram.{Engram}
use eidetic_daemon.Store.Schema.{Row, Db, Counts}
use eidetic_daemon.Store.Session.{M, Result, Session, pure, ◌>>=◌, ◌>>◌, query}
use eidetic_daemon.Store.Read.{count, count_by_surface, get_by_id}

pub record StatsSnapshot : Type 0 where
  pub total : ℤ
  pub by_surface : Counts
  pub oldest_ns : ℤ
  pub newest_ns : ℤ
  pub db_bytes : ℕ
  pub p95_lat_ns : ℤ

-- SELECT MIN(ts), MAX(ts) FROM engrams; NULL where there is no row
unfoldable pub min_ts : List Row → Option ℤ
min_ts [] = none
min_ts (r ∷ rows) = elim (min_ts rows) [
  | none ↦ some r.ts
  | some t ↦ if ltb_ℤ r.ts t then some r.ts else some t
]

unfoldable pub max_ts : List Row → Option ℤ
max_ts [] = none
max_ts (r ∷ rows) = elim (max_ts rows) [
  | none ↦ some r.ts
  | some t ↦ if ltb_ℤ t r.ts then some r.ts else some t
]

abbrev pub or_zero : Option ℤ → ℤ
or_zero none = pos 0
or_zero (some t) = t

-- The step of the probes, and the loop over them; `rounds` bounds it.
unfoldable pub probe_step : ℕ → ℕ
probe_step total = if ltb (total / 20) 1 then 1 else total / 20

-- GetByID, its answer dropped
abbrev pub probe : ℤ → M (Unit {0})
probe id s = pure tt (get_by_id id s).1

unfoldable pub probes : (ℕ → ℤ) → ℕ → ℕ → ℕ → ℕ → M (List ℤ)
probes elapsed step total zero i = pure []
probes elapsed step total (suc rounds) i = elim (leb i total) [
  | false ↦ pure []
  | true ↦ do
    probe (pos i)
    rest ← probes elapsed step total rounds (i + step)
    pure (elapsed i ∷ rest)
]

-- sort.Slice, ascending
unfoldable pub insert_sample : ℤ → List ℤ → List ℤ
insert_sample x [] = x ∷ []
insert_sample x (y ∷ ys) =
    let later = insert_sample x ys in if ltb_ℤ y x then y ∷ later else x ∷ y ∷ ys

unfoldable pub sort_samples : List ℤ → List ℤ
unfolding insert_sample
sort_samples [] = []
sort_samples (x ∷ xs) = insert_sample x (sort_samples xs)

unfoldable pub sample_at : ℕ → List ℤ → ℤ
sample_at i [] = pos 0
sample_at zero (x ∷ xs) = x
sample_at (suc i) (x ∷ xs) = sample_at i xs

abbrev pub p95_index : ℕ → ℕ
p95_index n = if leb n (n * 95 / 100) then n - 1 else n * 95 / 100

unfoldable pub p95 : List ℤ → ℤ
p95 samples =
    if ltb 0 (length samples)
    then sample_at (p95_index (length samples)) (sort_samples samples)
    else pos 0

module _ (elapsed : ℕ → ℤ) where
  unfoldable pub measured : ℤ → M (List ℤ)
  measured total =
      if ltb_ℤ (pos 0) total
      then probes elapsed (probe_step (pos_part total)) (pos_part total) (pos_part total) 1
      else pure []

  unfoldable pub stats : Option ℕ → M StatsSnapshot
  stats file_size = do
    total ← count
    by ← count_by_surface
    (oldest, newest) ← query (λ db. (min_ts db.engrams, max_ts db.engrams))
    samples ← measured total
    pure record {
      total = total;
      by_surface = by;
      oldest_ns = or_zero oldest;
      newest_ns = or_zero newest;
      db_bytes = elim file_size [ none ↦ 0 | some n ↦ n ];
      p95_lat_ns = p95 samples;
    }
