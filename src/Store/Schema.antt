-- ===== src/Store/Schema.antt =====
-- internal/store/schema.sql: the tables, and the triggers that keep the index and the counters.
-- Rows stand in the order in which they were inserted.
use eidetic_daemon.Prelude.{
  ℤ, pos, ◌+ℤ◌, ◌-ℤ◌, eqb_ℤ, String, str_eq, Bool, not, List, [], ◌∷◌, ◌++◌, map, filter,
  if◌then◌else◌,
}
use eidetic_daemon.Engram.{Bytes, Meta}

-- CREATE TABLE engrams
pub record Row : Type 0 where
  pub id : ℤ
  pub surface : String
  pub ts : ℤ
  pub payload : Bytes
  pub meta : Meta

-- CREATE VIRTUAL TABLE engrams_fts
pub record FtsRow : Type 0 where
  pub rowid : ℤ
  pub payload : Bytes
  pub surface : String

-- CREATE TABLE engram_counts
abbrev pub Counts : Type 0
Counts = List (String × ℤ)

pub record Db : Type 0 where
  pub engrams : List Row
  pub fts : List FtsRow
  pub counts : Counts

abbrev pub empty_db : Db
empty_db = record { engrams = []; fts = []; counts = [] }

-- engrams_ai: what the trigger puts into the index for a new row
abbrev pub index_row : Row → FtsRow
index_row r = record { rowid = r.id; payload = r.payload; surface = r.surface }

-- engrams_count_ai: INSERT … ON CONFLICT(surface) DO UPDATE SET n = n + 1
unfoldable pub count_insert : String → Counts → Counts
count_insert s [] = (s, pos 1) ∷ []
count_insert s ((t, n) ∷ c) = if str_eq t s then (t, n +ℤ pos 1) ∷ c else (t, n) ∷ count_insert s c

-- engrams_count_ad: UPDATE … SET n = n - 1 WHERE surface = old.surface; the primary key makes it
-- at most one row
unfoldable pub count_delete : String → Counts → Counts
count_delete s [] = []
count_delete s ((t, n) ∷ c) = if str_eq t s then (t, n -ℤ pos 1) ∷ c else (t, n) ∷ count_delete s c

-- INSERT INTO engrams, with the two AFTER INSERT triggers
unfoldable pub insert_row : Row → Db → Db
insert_row r db = record {
  engrams = db.engrams ++ r ∷ [];
  fts = db.fts ++ index_row r ∷ [];
  counts = count_insert r.surface db.counts;
}

-- engrams_ad and engrams_count_ad, for each deleted row
unfoldable pub unindex : List Row → List FtsRow → List FtsRow
unindex [] f = f
unindex (r ∷ rs) f = unindex rs (filter (λ x. not (eqb_ℤ x.rowid r.id)) f)

unfoldable pub uncount : List Row → Counts → Counts
uncount [] c = c
uncount (r ∷ rs) c = uncount rs (count_delete r.surface c)

-- DELETE FROM engrams WHERE …, with the two AFTER DELETE triggers
unfoldable pub delete_where : (Row → Bool) → Db → Db
delete_where p db = record {
  engrams = filter (λ r. not (p r)) db.engrams;
  fts = unindex (filter p db.engrams) db.fts;
  counts = uncount (filter p db.engrams) db.counts;
}

-- UPDATE engrams SET meta = ? WHERE id = ?; no trigger fires
unfoldable pub set_meta : ℤ → Meta → Db → Db
set_meta id meta db = record db {
  engrams = map (λ r. if eqb_ℤ r.id id then record r { meta = meta } else r) db.engrams;
}
