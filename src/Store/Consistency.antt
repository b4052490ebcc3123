-- ===== src/Store/Consistency.antt =====
-- The well-formedness of the tables: the triggers' counters and index agree with the rows.
use eidetic_daemon.Prelude.{
  suc, Bool-cases, inl, inr, ◌≤◌, ℤ, pos, ◌<ℤ◌, ◌+ℤ◌, eqb_ℤ, arith, String, ◌≡◌, refl, sym, ap, ◌∙◌,
  Bool, false, not, none, List, [], ◌∷◌, map, map-append, filter, length, All, count_p,
  count_p-append, count_p-not, if◌then◌else◌, length-append, length-filter, length-filter-le,
  count_p-split, All-append, All-filter_of_All, ◌-◌,
}
use eidetic_daemon.Engram.{Meta}
use eidetic_daemon.Store.Schema.{Row, Db, index_row, insert_row, unindex, delete_where, set_meta}
use eidetic_daemon.Store.Read.{sum_counts, count_of, to_engram}
use eidetic_daemon.Store.Write.{validate_engram}
use eidetic_daemon.Store.Index.{Distinct, Distinct-append, Distinct-filter, unindex-filter}
use eidetic_daemon.Store.Counters.{
  on_surface, count_of-count_insert, sum_counts-count_insert, count_of-uncount, sum_counts-uncount,
}

pub record IsConsistent (db : Db) : Type 0 where
  -- each counter is the number of rows of its surface
  pub counted : (s : String) → count_of s db.counts ≡ pos (count_p (on_surface s) db.engrams)
  -- the counters add up to the number of rows
  pub total : sum_counts db.counts ≡ pos (length db.engrams)
  -- the index has exactly the rows' entries
  pub indexed : db.fts ≡ map index_row db.engrams
  pub distinct : Distinct db.engrams
  pub positive : All (λ r. pos 0 <ℤ r.id) db.engrams
  -- every stored row passes the validation of `Insert`
  pub valid : All (λ r. validate_engram (to_engram r) ≡ none) db.engrams

abbrev pub IsValid : Row → Type 0
IsValid r = validate_engram (to_engram r) ≡ none

count_p-on_surface_le :
    (p : Row → Bool) (rows : List Row) (t : String)
    → count_p (on_surface t) (filter p rows) ≤ count_p (on_surface t) rows
count_p-on_surface_le p rows t = omega (arith, count_p-split p (on_surface t) rows)

length-filter-not :
    (p : Row → Bool) (rows : List Row)
    → length rows - length (filter p rows) ≡ length (filter (λ r. not (p r)) rows)
length-filter-not p rows =
    omega (arith, length-filter p rows, length-filter (λ r. not (p r)) rows, count_p-not p rows)

-- An INSERT of a valid row under a new, positive id keeps the tables consistent.
pub insert_row-IsConsistent :
    (r : Row) (db : Db)
    → IsConsistent db
    → IsValid r
    → All (λ y. eqb_ℤ y.id r.id ≡ false) db.engrams
    → pos 0 <ℤ r.id
    → IsConsistent (insert_row r db)
unfolding insert_row ◌+ℤ◌
insert_row-IsConsistent r db c v new p = record {
  counted = λ s. ground (
    arith,
    count_of-count_insert s r.surface db.counts,
    c.counted s,
    count_p-append (on_surface s) db.engrams (r ∷ []),
  );
  total = ground (
    arith,
    sum_counts-count_insert r.surface db.counts,
    c.total,
    length-append db.engrams (r ∷ []),
  );
  indexed = rw (c.indexed, map-append) refl;
  distinct = Distinct-append db.engrams r c.distinct new;
  positive = All-append (λ y. pos 0 <ℤ y.id) db.engrams (r ∷ []) c.positive (p, tt);
  valid = All-append IsValid db.engrams (r ∷ []) c.valid (v, tt);
}

-- A DELETE keeps the tables consistent.
pub delete_where-IsConsistent :
    (p : Row → Bool) (db : Db) → IsConsistent db → IsConsistent (delete_where p db)
unfolding delete_where
delete_where-IsConsistent p db c = record {
  counted = λ s.
      count_of-uncount (filter p db.engrams) db.counts (λ t. count_p (on_surface t) db.engrams)
        c.counted (count_p-on_surface_le p db.engrams) s
      ∙ ap pos (omega (arith, count_p-split p (on_surface s) db.engrams));
  total =
      sum_counts-uncount (filter p db.engrams) db.counts (λ t. count_p (on_surface t) db.engrams)
        (length db.engrams) c.counted (count_p-on_surface_le p db.engrams) c.total
        (length-filter-le p db.engrams)
      ∙ ap pos (length-filter-not p db.engrams);
  indexed = ap (unindex (filter p db.engrams)) c.indexed ∙ unindex-filter p db.engrams c.distinct;
  distinct = Distinct-filter (λ r. not (p r)) db.engrams c.distinct;
  positive = All-filter_of_All (λ r. pos 0 <ℤ r.id) (λ r. not (p r)) db.engrams c.positive;
  valid = All-filter_of_All IsValid (λ r. not (p r)) db.engrams c.valid;
}

-- What an UPDATE of the meta column leaves as it is.
module _ (id : ℤ) (meta : Meta) where
  abbrev with_meta : Row → Row
  with_meta r = if eqb_ℤ r.id id then record r { meta = meta } else r

  count_p-with_meta :
      (s : String) (rows : List Row)
      → count_p (on_surface s) (map with_meta rows) ≡ count_p (on_surface s) rows
  count_p-with_meta s [] = refl
  count_p-with_meta s (r ∷ rows) = ground (arith, count_p-with_meta s rows)

  pub length-with_meta : (rows : List Row) → length (map with_meta rows) ≡ length rows
  length-with_meta [] = refl
  length-with_meta (r ∷ rows) = ap suc (length-with_meta rows)

  index-with_meta : (rows : List Row) → map index_row (map with_meta rows) ≡ map index_row rows
  index-with_meta [] = refl
  index-with_meta (r ∷ rows) = ground (arith, index-with_meta rows)

  All-with_meta :
      (P : Row → Type 0)
      → ((r : Row) → P r → P (record r { meta = meta }))
      → (rows : List Row) → All P rows
      → All P (map with_meta rows)
  All-with_meta P keep [] h = tt
  All-with_meta P keep (r ∷ rows) h = elim (Bool-cases (eqb_ℤ r.id id)) [
    | inl e ↦ rw e (keep r h.0, All-with_meta P keep rows h.1)
    | inr e ↦ rw e (h.0, All-with_meta P keep rows h.1)
  ]

  id-with_meta : (r : Row) → (with_meta r).id ≡ r.id
  id-with_meta r = ground arith

  Distinct-with_meta : (rows : List Row) → Distinct rows → Distinct (map with_meta rows)
  Distinct-with_meta [] d = tt
  Distinct-with_meta (r ∷ rows) d = (
    All-with_meta (λ y. eqb_ℤ y.id (with_meta r).id ≡ false) (λ y h. h) rows
        (rw (id-with_meta r) d.0),
    Distinct-with_meta rows d.1,
  )

  -- An UPDATE of the meta column keeps the tables consistent.
  pub set_meta-IsConsistent : (db : Db) → IsConsistent db → IsConsistent (set_meta id meta db)
  unfolding set_meta validate_engram
  set_meta-IsConsistent db c = record {
    counted = λ s. c.counted s ∙ ap pos (sym (count_p-with_meta s db.engrams));
    total = c.total ∙ ap pos (sym (length-with_meta db.engrams));
    indexed = c.indexed ∙ sym (index-with_meta db.engrams);
    distinct = Distinct-with_meta db.engrams c.distinct;
    positive = All-with_meta (λ r. pos 0 <ℤ r.id) (λ r h. h) db.engrams c.positive;
    valid = All-with_meta IsValid (λ r h. h) db.engrams c.valid;
  }
