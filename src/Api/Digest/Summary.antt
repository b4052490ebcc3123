-- ===== src/Api/Digest/Summary.antt =====
-- What the summary of a window holds.
use eidetic_daemon.Prelude.{
  SameItems, ℕ, ◌+◌, ◌-◌, ◌/◌, ◌≤◌, ◌<◌, leb, ℤ, pos, ◌-ℤ◌, arith, ◌∙◌, ◌≡◌, refl, Bool, false,
  Bool-cases, inl, inr, some, List, [], ◌∷◌, ◌++◌, length, length-append, length-take, length-drop,
  take, drop, map, length-map, if◌then◌else◌, str_eq,
}
use eidetic_daemon.Engram.{Engram}
use eidetic_daemon.Store.Schema.{Row, Db}
use eidetic_daemon.Store.Engine.{Engine, ts_asc}
use eidetic_daemon.Store.Session.{statement, query}
use eidetic_daemon.Store.Read.{retrieve, retrieve_clauses, select, clamp_limit, to_engram}
use eidetic_daemon.Store.Lookup.{quiet}
use eidetic_daemon.TextSearch.{Text}
use eidetic_daemon.Api.Http.{Digest, Clock, digest, respond}
use eidetic_daemon.Api.Engrams.{call_store}
use eidetic_daemon.Api.Sort.Sorted.{Decides, First, take-First}
use eidetic_daemon.Api.Digest.{
  Runtime, empty_tally, increment, counts_less, top_n, sample_rows, Tally, tally_row, tally,
  digest_window,
}

module _ {K : Type 0} where
  abbrev pub AtLeast : K × ℕ → K × ℕ → Type 0
  AtLeast a b = b.1 ≤ a.1

  counts_less-Decides : Decides counts_less AtLeast
  counts_less-Decides = record {
    swapped = λ x e h. ground (arith, h);
    kept = λ x e h. ground (arith, h);
    transitive = λ x y z p q. omega arith;
  }

  -- `topN` lists the `n` keys that count most, in falling order, or all of them if they are fewer.
  pub top_n-First : (m : List (K × ℕ)) (n : ℕ) → First counts_less AtLeast n m (top_n m n)
  unfolding top_n
  top_n-First m n = take-First counts_less AtLeast counts_less-Decides n m

  -- It does not matter in which order the entries come.
  First-same :
      {n : ℕ} {m m' out : List (K × ℕ)}
      → First counts_less AtLeast n m out
      → SameItems m m'
      → First counts_less AtLeast n m' out
  First-same f same = record {
    rest = f.rest;
    ordered = f.ordered;
    items = λ p. f.items p ∙ same p;
    bounded = f.bounded;
    full = f.full;
  }

  abbrev pub total : List (K × ℕ) → ℕ
  total [] = 0
  total ((k, n) ∷ m) = n + total m

  total-increment :
      (same : K → K → Bool) (k : K) (m : List (K × ℕ)) → total (increment same k m) ≡ total m + 1
  unfolding increment
  total-increment same k [] = omega arith
  total-increment same k ((k', n) ∷ m) = ground (arith, total-increment same k m)

-- At most 20 engrams: exactly that many where there are more.
pub length-sample_rows :
    (rows : List Engram)
    → length (sample_rows rows) ≡ (if leb (length rows) 20 then length rows else 20)
unfolding sample_rows
length-sample_rows rows = elim (Bool-cases (leb (length rows) 20)) [
  | inl few ↦ rw (few, sample_rows) refl
  | inr many ↦
      let middle = drop (length rows / 2 - 5) rows in
      rw (many, sample_rows)
        (omega (
          arith,
          many_rows rows many,
          length-append (take 5 rows) (take 10 middle ++ drop (length rows - 5) rows),
          length-append (take 10 middle) (drop (length rows - 5) rows),
          length-take 5 rows,
          length-take 10 middle,
          length-drop (length rows / 2 - 5) rows,
          length-drop (length rows - 5) rows,
        ))
]
  where
    many_rows : (rows : List Engram) → leb (length rows) 20 ≡ false → 20 < length rows
    many_rows rows h = ground (arith, h)

page_few : (rows : List Row) → length (map to_engram (take 500 rows)) ≤ 500
page_few rows = omega (arith, length-map to_engram (take 500 rows), length-take 500 rows)

module _ (hour : ℤ → ℕ) where
  total-tally :
      (rows : List Engram) (t : Tally)
      → total (tally hour rows t).by_surface ≡ total t.by_surface + length rows
  unfolding tally tally_row
  total-tally [] t = omega arith
  total-tally (row ∷ rows) t = omega (
    arith,
    total-tally rows (tally_row hour row t),
    total-increment str_eq row.surface t.by_surface,
  )

module _ (runtime : Runtime) where
  open runtime use {hour, iterate_hours, iterate_words, same_hours, same_words}

  module _ (engine : Engine) (clock : Clock) (window : Text) (dur : ℤ) (db : Db) where
    -- The rows that the summary is about.
    abbrev pub summarised : List Engram
    summarised =
        select engine (retrieve_clauses "" (clock.start -ℤ dur) (pos 0)) ts_asc
          (clamp_limit 500 (pos 2000)) db

    abbrev counted : Tally
    counted = tally hour summarised empty_tally

    length-summarised : length summarised ≤ 500
    unfolding clamp_limit
    length-summarised = page_few _

    samples_few : (rows : List Engram) → length (sample_rows rows) ≤ 20
    samples_few rows = ground (arith, length-sample_rows rows)

    -- When the query does not fail, a digest is about at most 500 engrams, although it asks for 2000; its
    -- counts for the surfaces add up to their number, its terms and hours are the ones that count most, in
    -- falling order, in whatever order the runtime iterates over the maps, and it shows at most 20 engrams.
    pub digest_window-Summary :
        (d : Digest) × (digest_window runtime engine clock (some (window, dur)) (quiet db)
          ≡ (respond 200 (digest d), quiet db))
        × (d.total_engrams ≡ length summarised)
        × (d.total_engrams ≤ 500)
        × (total d.by_surface ≡ d.total_engrams)
        × First counts_less AtLeast 10 (tally hour summarised empty_tally).word_count d.top_terms
        × First counts_less AtLeast 5 (tally hour summarised empty_tally).by_hour d.top_hours
        × (length d.sample_engrams ≤ 20)
    unfolding call_store retrieve query statement
    digest_window-Summary = (
      _,
      refl,
      refl,
      length-summarised,
      omega (arith, total-tally hour summarised empty_tally),
      First-same (top_n-First (iterate_words counted.word_count) 10)
          (same_words counted.word_count),
      First-same (top_n-First (iterate_hours counted.by_hour) 5) (same_hours counted.by_hour),
      samples_few summarised,
    )
