-- ===== src/Store/Index.antt =====
-- What the full-text triggers of schema.sql do to the index, where no two rows share an id.
use eidetic_daemon.Prelude.{
  ℤ, eqb_ℤ, arith, ◌≡◌, refl, sym, fun_ext, ap, ◌∙◌, Bool, true, false, not, ◌||◌, List, [], ◌∷◌,
  ◌++◌, Bool-cases, inl, inr, map, filter, All, All-append, All-filter_of_All, filter-congr,
  filter-filter, filter-true, if◌then◌else◌,
}
use eidetic_daemon.Store.Schema.{Row, FtsRow, index_row, unindex}

-- No two rows share an id.
abbrev pub Distinct : List Row → Type 0
Distinct [] = Unit
Distinct (x ∷ xs) = All (λ y. eqb_ℤ y.id x.id ≡ false) xs × Distinct xs

eqb_ℤ-symm : (a b : ℤ) → eqb_ℤ a b ≡ eqb_ℤ b a
eqb_ℤ-symm a b = ground arith

pub Distinct-append :
    (xs : List Row) (r : Row)
    → Distinct xs
    → All (λ y. eqb_ℤ y.id r.id ≡ false) xs
    → Distinct (xs ++ r ∷ [])
Distinct-append [] r d new = (tt, tt)
Distinct-append (x ∷ xs) r d new = (
  All-append (λ y. eqb_ℤ y.id x.id ≡ false) xs (r ∷ []) d.0 (eqb_ℤ-symm r.id x.id ∙ new.0, tt),
  Distinct-append xs r d.1 new.1,
)

pub Distinct-filter : (p : Row → Bool) (xs : List Row) → Distinct xs → Distinct (filter p xs)
Distinct-filter p [] d = tt
Distinct-filter p (x ∷ xs) d = elim (Bool-cases (p x)) [
  | inl e ↦
      rw e (All-filter_of_All (λ y. eqb_ℤ y.id x.id ≡ false) p xs d.0, Distinct-filter p xs d.1)
  | inr e ↦ rw e (Distinct-filter p xs d.1)
]

abbrev listed : List Row → Row → Bool
listed [] r = false
listed (d ∷ ds) r = eqb_ℤ r.id d.id || listed ds r

filter-map-index :
    (d : Row) (rows : List Row)
    → filter (λ (x : FtsRow). not (eqb_ℤ x.rowid d.id)) (map index_row rows)
      ≡ map index_row (filter (λ r. not (eqb_ℤ r.id d.id)) rows)
filter-map-index d [] = refl
filter-map-index d (r ∷ rows) = ground (arith, filter-map-index d rows)

unindex-map :
    (ds rows : List Row)
    → unindex ds (map index_row rows) ≡ map index_row (filter (λ r. not (listed ds r)) rows)
unfolding unindex
unindex-map [] rows = ap (map index_row) (sym (filter-true rows))
unindex-map (d ∷ ds) rows =
    ap (unindex ds) (filter-map-index d rows)
    ∙ unindex-map ds (filter (λ r. not (eqb_ℤ r.id d.id)) rows)
    ∙ ap (map index_row) (filter-filter (λ r. not (listed ds r)) (λ r. not (eqb_ℤ r.id d.id)) rows)
    ∙ ap (λ q. map index_row (filter q rows)) (fun_ext λ r. ground arith)

-- Among other rows, a row that is not there is not listed.
not-listed :
    (p : Row → Bool) (x : Row) (xs : List Row)
    → All (λ y. eqb_ℤ y.id x.id ≡ false) xs
    → listed (filter p xs) x ≡ false
not-listed p x [] h = refl
not-listed p x (y ∷ xs) h = ground (arith, eqb_ℤ-symm x.id y.id, not-listed p x xs h.1)

listed_behind :
    (p : Row → Bool) (x : Row) (ds ys : List Row)
    → All (λ y. eqb_ℤ y.id x.id ≡ false) ys
    → All (λ y. listed ds y ≡ p y) ys
    → All (λ y. listed (x ∷ ds) y ≡ p y) ys
listed_behind p x ds [] h k = tt
listed_behind p x ds (y ∷ ys) h k = (ground arith, listed_behind p x ds ys h.1 k.1)

listed_step :
    (p : Row → Bool) (x : Row) (ds ys : List Row) (b : Bool)
    → p x ≡ b
    → All (λ y. eqb_ℤ y.id x.id ≡ false) ys
    → listed ds x ≡ false
    → All (λ y. listed ds y ≡ p y) ys
    → All (λ y. listed (if b then x ∷ ds else ds) y ≡ p y) (x ∷ ys)
listed_step p x ds ys true e d new k = (ground arith, listed_behind p x ds ys d k)
listed_step p x ds ys false e d new k = (new ∙ sym e, k)

-- A row is among those that pass a test exactly when it passes.
listed-filter :
    (p : Row → Bool) (rows : List Row)
    → Distinct rows
    → All (λ r. listed (filter p rows) r ≡ p r) rows
listed-filter p [] d = tt
listed-filter p (x ∷ xs) d =
    listed_step p x (filter p xs) xs (p x) refl d.0 (not-listed p x xs d.0) (listed-filter p xs d.1)

All-not :
    (p q : Row → Bool) (rows : List Row)
    → All (λ r. p r ≡ q r) rows
    → All (λ r. not (p r) ≡ not (q r)) rows
All-not p q [] h = tt
All-not p q (x ∷ xs) h = (ap not h.0, All-not p q xs h.1)

-- Taking the rows that pass a test out of an index leaves the index of the others.
pub unindex-filter :
    (p : Row → Bool) (rows : List Row)
    → Distinct rows
    → unindex (filter p rows) (map index_row rows) ≡ map index_row (filter (λ r. not (p r)) rows)
unindex-filter p rows d =
    unindex-map (filter p rows) rows
    ∙ ap (map index_row) (
        filter-congr (λ r. not (listed (filter p rows) r)) (λ r. not (p r)) rows
          (All-not (listed (filter p rows)) p rows (listed-filter p rows d)))
