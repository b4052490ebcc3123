-- ===== src/Store/Engine.antt =====
-- What SQLite decides by itself, as an interface: the id of a new row, the order of rows that an
-- ORDER BY leaves equal, and the hits of a full-text query. The laws are the documented ones: an id
-- is new and positive (INTEGER PRIMARY KEY), ORDER BY sorts and neither drops nor adds a row, and
-- a MATCH answers with rows of the index or with an error message.
use eidetic_daemon.Prelude.{
  ℤ, pos, ◌<ℤ◌, ltb_ℤ, eqb_ℤ, String, ◌≤◌, ◌≡◌, Bool, false, ◌&&◌, ◌||◌, List, [], ◌∷◌, map, All,
  SameItems, count_p,
}
use eidetic_daemon.Engram.{Bytes}
use eidetic_daemon.Store.Schema.{Row, FtsRow}

-- The orders that the source asks for.
pub data Order : Type 0 where
  ts_asc ts_desc ts_id_asc : Order

-- The first row comes strictly before the second.
abbrev pub precedes : Order → Row → Row → Bool
precedes ts_asc a b = ltb_ℤ a.ts b.ts
precedes ts_desc a b = ltb_ℤ b.ts a.ts
precedes ts_id_asc a b = ltb_ℤ a.ts b.ts || (eqb_ℤ a.ts b.ts && ltb_ℤ a.id b.id)

-- No row comes strictly before one that stands ahead of it.
abbrev pub IsOrdered : Order → List Row → Type 0
IsOrdered o [] = Unit
IsOrdered o (x ∷ xs) = All (λ y. precedes o y x ≡ false) xs × IsOrdered o xs

-- The answer of a MATCH: the hits, best first, each with its snippet, or an error message.
pub data Answer : Type 0 where
  hits : List (FtsRow × Bytes) → Answer
  failure : String → Answer

pub record Engine : Type 0 where
  pub next_rowid : List Row → ℤ
  pub next_rowid_fresh : (rows : List Row) → All (λ r. eqb_ℤ r.id (next_rowid rows) ≡ false) rows
  pub next_rowid_pos : (rows : List Row) → pos 0 <ℤ next_rowid rows
  pub order_by : Order → List Row → List Row
  pub order_by_same : (o : Order) (rows : List Row) → SameItems (order_by o rows) rows
  pub order_by_ordered : (o : Order) (rows : List Row) → IsOrdered o (order_by o rows)
  pub match : Bytes → List FtsRow → Answer
  pub match_sound :
      (q : Bytes) (index : List FtsRow) (found : List (FtsRow × Bytes))
      → match q index ≡ hits found
      → (p : FtsRow → Bool) → count_p p (map (λ h. h.0) found) ≤ count_p p index
