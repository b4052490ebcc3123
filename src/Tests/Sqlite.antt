-- ===== src/Tests/Sqlite.antt =====
-- An engine that meets the laws of `Engine`: ids count up from the largest one, ORDER BY is a stable
-- insertion sort, and a MATCH finds the rows whose payload is the query's text.
use eidetic_daemon.Prelude.{
  subst, codes, ◌==◌, ℕ, ◌+◌, ◌≤◌, pos, pos_part, ◌<ℤ◌, eqb_ℤ, arith, ◌≡◌, refl, ◌∙◌, Bool, true,
  false, ◌&&◌, Bool-cases, inl, inr, List, [], ◌∷◌, map, All, All-map, SameItems, count_p,
  if◌then◌else◌,
}
use Prim.Native.Nat.{max}
use eidetic_daemon.Engram.{Bytes}
use eidetic_daemon.Store.Schema.{Row, FtsRow}
use eidetic_daemon.Store.Engine.{
  Engine, Order, ts_asc, ts_desc, ts_id_asc, precedes, IsOrdered, Answer, hits, failure,
}

pub largest : List Row → ℕ
largest [] = 0
largest (r ∷ rows) = max (pos_part r.id) (largest rows)

pub largest_bounds :
    (k : ℕ) (rows : List Row) → largest rows ≤ k → All (λ r. eqb_ℤ r.id (pos (k + 1)) ≡ false) rows
unfolding largest
largest_bounds k [] h = tt
largest_bounds k (r ∷ rows) h = (ground arith, largest_bounds k rows (omega arith))

pub largest_pos : (rows : List Row) → pos 0 <ℤ pos (largest rows + 1)
largest_pos rows = omega arith

insert_by : Order → Row → List Row → List Row
insert_by o x [] = x ∷ []
insert_by o x (y ∷ ys) = if precedes o y x then y ∷ insert_by o x ys else x ∷ y ∷ ys

unfoldable pub sort_by : Order → List Row → List Row
unfolding insert_by
sort_by o [] = []
sort_by o (x ∷ xs) = insert_by o x (sort_by o xs)

precedes_asymm : (o : Order) (x y : Row) → precedes o y x ≡ true → precedes o x y ≡ false
precedes_asymm ts_asc x y h = ground arith
precedes_asymm ts_desc x y h = ground arith
precedes_asymm ts_id_asc x y h = ground arith

precedes_trans :
    (o : Order) (x y z : Row)
    → precedes o y x ≡ false
    → precedes o z y ≡ false
    → precedes o z x ≡ false
precedes_trans ts_asc x y z h k = ground arith
precedes_trans ts_desc x y z h k = ground arith
precedes_trans ts_id_asc x y z h k = ground arith

All-insert_by :
    (P : Row → Type 0) (o : Order) (x : Row) (ys : List Row)
    → P x
    → All P ys
    → All P (insert_by o x ys)
unfolding insert_by
All-insert_by P o x [] px h = (px, tt)
All-insert_by P o x (y ∷ ys) px h = elim (Bool-cases (precedes o y x)) [
  | inl e ↦ rw (e, insert_by) (h.0, All-insert_by P o x ys px h.1)
  | inr e ↦ rw (e, insert_by) (px, h)
]

insert_by-IsOrdered :
    (o : Order) (x : Row) (ys : List Row) → IsOrdered o ys → IsOrdered o (insert_by o x ys)
unfolding insert_by
insert_by-IsOrdered o x [] h = (tt, tt)
insert_by-IsOrdered o x (y ∷ ys) h = elim (Bool-cases (precedes o y x)) [
  | inl e ↦
      rw (e, insert_by)
        (
          All-insert_by (λ z. precedes o z y ≡ false) o x ys (precedes_asymm o x y e) h.0,
          insert_by-IsOrdered o x ys h.1,
        )
  | inr e ↦ rw (e, insert_by) ((e, All-map _ _ (λ z k. precedes_trans o x y z e k) ys h.0), h)
]

insert_by-same : (o : Order) (x : Row) (ys : List Row) → SameItems (insert_by o x ys) (x ∷ ys)
unfolding insert_by
insert_by-same o x [] p = refl
insert_by-same o x (y ∷ ys) p = ground (arith, insert_by-same o x ys p)

pub sort_by-IsOrdered : (o : Order) (rows : List Row) → IsOrdered o (sort_by o rows)
unfolding sort_by
sort_by-IsOrdered o [] = tt
sort_by-IsOrdered o (x ∷ xs) = insert_by-IsOrdered o x (sort_by o xs) (sort_by-IsOrdered o xs)

pub sort_by-same : (o : Order) (rows : List Row) → SameItems (sort_by o rows) rows
unfolding sort_by
sort_by-same o [] p = refl
sort_by-same o (x ∷ xs) p =
    insert_by-same o x (sort_by o xs) p ∙ ground (arith, sort_by-same o xs p)

-- The rows whose payload is the query's text.
is_text : Bytes → Bytes → Bool
is_text [] [] = true
is_text (b ∷ p) (c ∷ q) = (b == c) && is_text p q
is_text _ _ = false

found_rows : Bytes → List FtsRow → List (FtsRow × Bytes)
unfolding is_text
found_rows q [] = []
found_rows q (r ∷ index) =
    let rest = found_rows q index in if is_text q r.payload then (r, []) ∷ rest else rest

count-found_rows :
    (p : FtsRow → Bool) (q : Bytes) (index : List FtsRow)
    → count_p p (map (λ h. h.0) (found_rows q index)) ≤ count_p p index
unfolding found_rows
count-found_rows p q [] = omega arith
count-found_rows p q (r ∷ index) = ground (arith, count-found_rows p q index)

-- The query tb.py is malformed.
pub find_text : Bytes → List FtsRow → Answer
unfolding found_rows
find_text q index =
    if is_text q (codes "tb.py")
    then failure "fts5: syntax error near \".\""
    else hits (found_rows q index)

pub find_text_sound :
    (q : Bytes) (index : List FtsRow) (found : List (FtsRow × Bytes))
    → find_text q index ≡ hits found
    → (p : FtsRow → Bool) → count_p p (map (λ h. h.0) found) ≤ count_p p index
unfolding find_text
find_text_sound q index found e p = elim (Bool-cases (is_text q (codes "tb.py"))) [
  | inl bad ↦ absurd (ground arith)
  | inr good ↦
      let same : found_rows q index ≡ found = ground arith in
      subst (λ l. count_p p (map (λ h. h.0) l) ≤ count_p p index) same (count-found_rows p q index)
]

unfoldable pub sqlite : Engine
unfolding largest sort_by find_text
sqlite = record {
  next_rowid = λ rows. pos (largest rows + 1);
  next_rowid_fresh = λ rows. largest_bounds (largest rows) rows (omega arith);
  next_rowid_pos = λ rows. largest_pos rows;
  order_by = sort_by;
  order_by_same = sort_by-same;
  order_by_ordered = sort_by-IsOrdered;
  match = find_text;
  match_sound = find_text_sound;
}
