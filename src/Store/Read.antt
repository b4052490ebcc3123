-- ===== src/Store/Read.antt =====
-- The methods of `Store` that read: Count, CountEngrams, CountBySurface, GetByID, Retrieve, Recent,
-- RetrieveAfter.
use eidetic_daemon.Prelude.{
  ℕ, ℤ, pos, pos_part, ltb_ℤ, eqb_ℤ, ◌+ℤ◌, String, str_eq, ◌&&◌, ◌||◌, Bool, true, false, not,
  Option, none, some, List, [], ◌∷◌, ◌++◌, map, take, filter, find, all, count_p, if◌then◌else◌,
}
use eidetic_daemon.Engram.{Engram}
use eidetic_daemon.Store.Schema.{Row, Counts, Db}
use eidetic_daemon.Store.Engine.{Engine, Order, ts_asc, ts_desc, ts_id_asc}
use eidetic_daemon.Store.Session.{not_found, M, pure, raise, ◌>>=◌, query}

-- The conditions that the queries put into WHERE, joined by AND.
pub data Clause : Type 0 where
  surface_is : String → Clause
  ts_above ts_below : ℤ → Clause
  -- (ts > ? OR (ts = ? AND id > ?))
  past : ℤ → ℤ → Clause

abbrev pub holds : Clause → Row → Bool
holds (surface_is s) r = str_eq r.surface s
holds (ts_above t) r = ltb_ℤ t r.ts
holds (ts_below t) r = ltb_ℤ r.ts t
holds (past t i) r = ltb_ℤ t r.ts || (eqb_ℤ r.ts t && ltb_ℤ i r.id)

abbrev pub where_ : List Clause → Row → Bool
where_ clauses r = all (λ c. holds c r) clauses

abbrev pub only_if : Bool → Clause → List Clause
only_if true c = c ∷ []
only_if false c = []

abbrev pub is_set : ℤ → Bool
is_set t = ltb_ℤ (pos 0) t

-- Scan: the selected columns as an engram, with no snippet.
abbrev pub to_engram : Row → Engram
to_engram r = record {
  id = r.id;
  surface = r.surface;
  ts = r.ts;
  payload = r.payload;
  meta = r.meta;
  snippet = [];
}

-- The default 50, the limit itself, or the cap.
unfoldable pub clamp_limit : ℕ → ℤ → ℕ
clamp_limit cap limit =
    if not (ltb_ℤ (pos 0) limit) then 50 else if ltb_ℤ (pos cap) limit then cap else pos_part limit

-- SELECT COALESCE(SUM(n), 0) FROM engram_counts
unfoldable pub sum_counts : Counts → ℤ
sum_counts [] = pos 0
sum_counts ((_, n) ∷ c) = n +ℤ sum_counts c

-- SELECT COALESCE((SELECT n FROM engram_counts WHERE surface = ?), 0)
unfoldable pub count_of : String → Counts → ℤ
count_of s [] = pos 0
count_of s ((t, n) ∷ c) = if str_eq t s then n else count_of s c

unfoldable pub count : M ℤ
count = query (λ db. sum_counts db.counts)

unfoldable pub count_engrams : String → ℤ → M ℤ
count_engrams surface since =
    if not (str_eq surface "") && is_set since
    then query (λ db. pos (count_p (where_ (surface_is surface ∷ ts_above since ∷ [])) db.engrams))
    else if not (str_eq surface "")
    then query (λ db. count_of surface db.counts)
    else if is_set since
    then query (λ db. pos (count_p (where_ (ts_above since ∷ [])) db.engrams))
    else query (λ db. sum_counts db.counts)

unfoldable pub count_by_surface : M Counts
count_by_surface = query (λ db. filter (λ entry. is_set entry.1) db.counts)

unfoldable pub or_not_found : Option Row → M Engram
or_not_found none = raise not_found
or_not_found (some r) = pure (to_engram r)

unfoldable pub get_by_id : ℤ → M Engram
unfolding or_not_found
get_by_id id = do row ← query (λ db. find (λ r. eqb_ℤ r.id id) db.engrams); or_not_found row

abbrev pub retrieve_clauses : String → ℤ → ℤ → List Clause
retrieve_clauses surface since before =
    only_if (not (str_eq surface "")) (surface_is surface)
    ++ (only_if (is_set since) (ts_above since) ++ only_if (is_set before) (ts_below before))

abbrev pub after_clauses : String → ℤ → ℤ → ℤ → List Clause
after_clauses surface cursor_ts cursor_id before =
    only_if (not (str_eq surface "")) (surface_is surface)
    ++ (only_if (is_set cursor_ts || is_set cursor_id) (past cursor_ts cursor_id)
        ++ only_if (is_set before) (ts_below before))

module _ (engine : Engine) where
  open engine use {order_by}

  -- SELECT … WHERE … ORDER BY … LIMIT ?
  abbrev pub select : List Clause → Order → ℕ → Db → List Engram
  select clauses order limit db =
      map to_engram (take limit (order_by order (filter (where_ clauses) db.engrams)))

  unfoldable pub retrieve : String → ℤ → ℤ → ℤ → Bool → M (List Engram)
  retrieve surface since before limit asc = query (
      select (retrieve_clauses surface since before) (if asc then ts_asc else ts_desc)
        (clamp_limit 500 limit))

  unfoldable pub recent : ℤ → ℤ → ℤ → M (List Engram)
  recent since before limit = query (
      select
        (if is_set since && is_set before
          then ts_above since ∷ ts_below before ∷ []
          else if is_set since
          then ts_above since ∷ []
          else if is_set before
          then ts_below before ∷ []
          else [])
        ts_desc (clamp_limit 500 limit))

  unfoldable pub retrieve_after : String → ℤ → ℤ → ℤ → ℤ → M (List Engram)
  retrieve_after surface cursor_ts cursor_id before limit =
      query (
        select (after_clauses surface cursor_ts cursor_id before) ts_id_asc
          (clamp_limit 5000 limit))
