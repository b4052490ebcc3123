-- ===== src/Store/Open.antt =====
-- `Open` of internal/store/store.go, on a database file of any earlier version: the schema, then the
-- two backfills, whose errors do not stop it. The connections and the directory are left out.
mod Counted
pub mod Heals
pub mod Drift
use eidetic_daemon.Prelude.{
  ℕ, ltb, ◌==◌, ℤ, pos, ◌+ℤ◌, String, str_eq, List, [], ◌∷◌, ◌++◌, map, length, if◌then◌else◌,
}
use eidetic_daemon.Store.Schema.{Row, Db, Counts, index_row, count_insert}
use eidetic_daemon.Store.Session.{M, Result, Session, pure, ◌>>=◌, ◌>>◌, statement, query}

-- SELECT surface, COUNT(*) FROM engrams GROUP BY surface
unfoldable pub group_counts : List Row → Counts
group_counts [] = []
group_counts (r ∷ rows) = count_insert r.surface (group_counts rows)

-- INSERT … ON CONFLICT(surface) DO UPDATE SET n = excluded.n
unfoldable pub put_count : String → ℤ → Counts → Counts
put_count s n [] = (s, n) ∷ []
put_count s n ((t, m) ∷ c) = if str_eq t s then (t, n) ∷ c else (t, m) ∷ put_count s n c

unfoldable pub put_counts : Counts → Counts → Counts
put_counts [] c = c
put_counts ((s, n) ∷ new) c = put_counts new (put_count s n c)

unfoldable pub fill_fts : Db → Db
fill_fts db = record db { fts = db.fts ++ map index_row db.engrams }

unfoldable pub fill_counts : Db → Db
fill_counts db = record db { counts = put_counts (group_counts db.engrams) db.counts }

unfoldable pub fill_fts_if_rows : ℕ → M (Unit {0})
fill_fts_if_rows engram_count =
    if engram_count == 0 then pure tt else statement (λ db. (tt, fill_fts db))

unfoldable pub fill_fts_if_empty : ℕ → M (Unit {0})
fill_fts_if_empty fts_count =
    if ltb 0 fts_count then pure tt else (query (λ db. length db.engrams) >>= fill_fts_if_rows)

unfoldable pub backfill_fts : M (Unit {0})
backfill_fts = do fts_count ← query (λ db. length db.fts); fill_fts_if_empty fts_count

unfoldable pub fill_counts_if_empty : ℕ → M (Unit {0})
fill_counts_if_empty counter_rows =
    if ltb 0 counter_rows then pure tt else statement (λ db. (tt, fill_counts db))

unfoldable pub backfill_counts : M (Unit {0})
backfill_counts = do
  counter_rows ← query (λ db. length db.counts)
  fill_counts_if_empty counter_rows

-- An error is dropped or logged.
unfoldable pub attempt : M (Unit {0}) → M (Unit {0})
attempt m s = pure tt (m s).1

-- CREATE … IF NOT EXISTS finds or makes empty tables; `Db` has them all.
unfoldable pub open_store : M (Unit {0})
open_store = do statement (λ db. (tt, db)); attempt backfill_fts; attempt backfill_counts
