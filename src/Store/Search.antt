-- ===== src/Store/Search.antt =====
-- `Search`, `doSearch` and `isFTS5SyntaxError` of internal/store/store.go.
pub mod Phrase
pub mod Sound
use eidetic_daemon.Prelude.{
  ℕ, ◌==◌, ℤ, eqb_ℤ, String, codes, str_eq, ◌||◌, Bool, true, false, Option, none, some, List, [],
  ◌∷◌, ◌++◌, map, take, filter, find, is_empty, index_of, if◌then◌else◌,
}
use eidetic_daemon.Engram.{Bytes, Engram}
use eidetic_daemon.Store.Schema.{Row, FtsRow, Db}
use eidetic_daemon.Store.Engine.{Engine, Answer, hits, failure}
use eidetic_daemon.Store.Session.{
  Error, Result, ok, err, Session, db_error, empty_query, M, pure, raise, ◌>>=◌, query,
}
use eidetic_daemon.Store.Read.{clamp_limit}

-- The selected columns: the snippet stands for the payload.
abbrev pub to_excerpt : Bytes → Row → Engram
to_excerpt snippet r = record {
  id = r.id;
  surface = r.surface;
  ts = r.ts;
  payload = [];
  meta = r.meta;
  snippet = snippet;
}

-- JOIN engrams e ON e.id = engrams_fts.rowid: a hit with no row drops out.
unfoldable pub join_rows : List Row → List (FtsRow × Bytes) → List Engram
join_rows rows [] = []
join_rows rows ((f, snippet) ∷ found) =
    let rest = join_rows rows found in
    elim (find (λ r. eqb_ℤ r.id f.rowid) rows) [
      | none ↦ rest
      | some r ↦ to_excerpt snippet r ∷ rest
    ]

-- AND engrams_fts.surface = ?, if a surface is named
abbrev pub on_fts_surface : String → FtsRow × Bytes → Bool
on_fts_surface surface (f, _) = str_eq surface "" || str_eq f.surface surface

unfoldable pub answered : String → ℕ → List Row → Answer → M (List Engram)
answered surface limit rows (failure message) = raise (db_error message)
answered surface limit rows (hits found) =
    pure (take limit (join_rows rows (filter (on_fts_surface surface) found)))

-- strings.ReplaceAll(q, `"`, `""`)
unfoldable pub double_quotes : Bytes → Bytes
double_quotes [] = []
double_quotes (c ∷ q) =
    let rest = double_quotes q in if c == b'"' then b'"' ∷ b'"' ∷ rest else c ∷ rest

unfoldable pub quote_phrase : Bytes → Bytes
quote_phrase q = b'"' ∷ (double_quotes q ++ b'"' ∷ [])

-- strings.Contains(err.Error(), "fts5: syntax error"): no other error has the text.
unfoldable pub is_fts5_syntax_error : Error → Bool
is_fts5_syntax_error (db_error message) =
    elim (index_of (codes "fts5: syntax error") (codes message)) [ none ↦ false | some _ ↦ true ]
is_fts5_syntax_error _ = false

module _ (engine : Engine) where
  -- One statement; the tables that it reads are handed on.
  unfoldable pub do_search : Bytes → String → ℕ → M (List Engram)
  do_search q surface limit = do
    (answer, rows) ← query (λ db. (engine.match q db.fts, db.engrams))
    answered surface limit rows answer

  unfoldable pub retry : Bytes → String → ℕ → Result (List Engram) → M (List Engram)
  retry q surface limit (ok rows) = pure rows
  retry q surface limit (err e) =
      if is_fts5_syntax_error e then do_search (quote_phrase q) surface limit else raise e

  unfoldable pub search : Bytes → String → ℤ → M (List Engram)
  search q surface limit = if is_empty q then raise empty_query else (λ s.
      let (r, s') = do_search q surface (clamp_limit 500 limit) s in
      retry q surface (clamp_limit 500 limit) r s')
