-- ===== src/Api/Export/Complete.antt =====
-- The export is complete: every matching row once, in the order (ts, id), then the number of rows.
use eidetic_daemon.Prelude.{
  ◌||◌, str_eq, filter-congr, length-filter-le, ltb_ℤ, ℕ, zero, suc, ◌+◌, ◌<◌, ℤ, pos, ◌<ℤ◌, arith,
  String, ltb, ◌≡◌, refl, sym, ◌∙◌, ap, subst, Bool, true, false, not, ◌&&◌, none, some,
  Option-cases, Bool-cases, inl, inr, List, [], ◌∷◌, ◌++◌, map, map-append, append_assoc, take,
  drop, last?, length, filter, All, SameItems, count_p, take-append-drop, All-filter,
  length-SameItems, length-append, length-take, All-map, All-take, All-filter_of_All, length-map,
  last?-map, last-eq-none, map-map, take_of_length-le, if◌then◌else◌,
}
use native.Mathlib.Nat.{add_assoc, zero-add}
use mathlib.Core.Option
use eidetic_daemon.Store.Schema.{Row, Db}
use eidetic_daemon.Store.Engine.{Engine, ts_id_asc}
use eidetic_daemon.Store.Session.{Session, ok, statement, query}
use eidetic_daemon.Store.Read.{is_set, to_engram, clamp_limit, retrieve_after}
use eidetic_daemon.Store.Index.{Distinct, Distinct-filter}
use eidetic_daemon.Store.Consistency.{IsConsistent}
use eidetic_daemon.Store.Paging.{
  IsIncreasing, Cut, Distinct-SameItems, IsIncreasing-of_IsOrdered, Cut-take, IsIncreasing-take,
}
use eidetic_daemon.Api.Export.{
  Line, row, export_complete, Answer, prepend, after_rows, after_page, export_loop, handle_export,
}
use eidetic_daemon.Api.Export.Pages.{
  IsExport, All-true-SameItems, last-All, rest-SameItems, IsExport-append,
}
use eidetic_daemon.Api.Export.Cursor.{selected, selected_parts, next_selected}

module _ (engine : Engine) (n : ℕ) (surface : String) (before : ℤ) (db : Db) where
  abbrev matching : ℤ → ℤ → List Row
  matching ct ci = filter (selected surface ct ci before) db.engrams

  abbrev sorted : ℤ → ℤ → List Row
  sorted ct ci = engine.order_by ts_id_asc (matching ct ci)

  sorted-IsExport : (ct ci : ℤ) → Distinct db.engrams → IsExport (sorted ct ci) (matching ct ci)
  sorted-IsExport ct ci d = record {
    increasing =
        IsIncreasing-of_IsOrdered (sorted ct ci)
          (engine.order_by_ordered ts_id_asc (matching ct ci))
          (Distinct-SameItems (matching ct ci) (sorted ct ci)
            (λ p. sym (engine.order_by_same ts_id_asc (matching ct ci) p))
            (Distinct-filter (selected surface ct ci before) db.engrams d));
    same = engine.order_by_same ts_id_asc (matching ct ci);
  }

  abbrev session : Session
  session = record { db = db; faults = [] }

  abbrev page : ℤ → ℤ → List Row
  page ct ci = take n (sorted ct ci)

  abbrev line : Row → Line
  line r = row (to_engram r)

  retrieve_page :
      (ct ci : ℤ)
      → clamp_limit 5000 (pos n) ≡ n
      → retrieve_after engine surface ct ci before (pos n) session
        ≡ (ok (map to_engram (page ct ci)), session)
  unfolding retrieve_after query statement
  retrieve_page ct ci e = ap (λ k. (ok (map to_engram (take k (sorted ct ci))), session)) e

  module _ (next : ℤ → ℤ → ℕ → Session → Answer) (total : ℕ) (rows : List Row) where
    page_empty :
        last? rows ≡ none
        → after_page engine n surface before next total (ok (map to_engram rows)) session
          ≡ some (export_complete total ∷ [], session)
    unfolding after_page
    page_empty h =
        ap (λ o. after_rows engine n surface before next total (map to_engram rows) o session)
          (last?-map to_engram rows ∙ ap (Option.map to_engram) h)

    page_full :
        (r : Row)
        → last? rows ≡ some r
        → after_page engine n surface before next total (ok (map to_engram rows)) session
          ≡ prepend (map line rows) (
              if ltb (length rows) n
              then some (export_complete (total + length rows) ∷ [], session)
              else next r.ts r.id (total + length rows) session)
    unfolding after_page
    page_full r h =
        ap (λ o. after_rows engine n surface before next total (map to_engram rows) o session)
          (last?-map to_engram rows ∙ ap (Option.map to_engram) h)
        ∙ rw (length-map to_engram rows, map-map to_engram row rows) refl

  -- What the loop answers: the rows as lines, then their number.
  Answers : ℕ → List Row → Answer → Type 0
  Answers total out a =
      a ≡ some (map line out ++ export_complete (total + length out) ∷ [], session)

  module _ (clamp : clamp_limit 5000 (pos n) ≡ n) (positive : 0 < n) (c : IsConsistent db) where
    selected-sorted : (ct ci : ℤ) → All (λ r. selected surface ct ci before r ≡ true) (sorted ct ci)
    selected-sorted ct ci =
        All-true-SameItems (selected surface ct ci before) (matching ct ci) (sorted ct ci)
          (λ p. sym (engine.order_by_same ts_id_asc (matching ct ci) p))
          (All-filter (selected surface ct ci before) db.engrams)

    positive_sorted : (ct ci : ℤ) → All (λ r. ltb_ℤ (pos 0) r.id ≡ true) (sorted ct ci)
    positive_sorted ct ci =
        All-true-SameItems (λ r. ltb_ℤ (pos 0) r.id) (matching ct ci) (sorted ct ci)
          (λ p. sym (engine.order_by_same ts_id_asc (matching ct ci) p))
          (All-map _ _ (λ r h. ground arith) (matching ct ci)
            (All-filter_of_All (λ r. pos 0 <ℤ r.id) (selected surface ct ci before) db.engrams
              c.positive))

    module _ (ct ci : ℤ) (r : Row) (is_last : last? (page ct ci) ≡ some r) where
      cut : Cut r (page ct ci) (drop n (sorted ct ci))
      cut = Cut-take n (sorted ct ci) r (sorted-IsExport ct ci c.distinct).increasing is_last

      -- Behind a page stands exactly what the moved cursor selects.
      behind_page : SameItems (drop n (sorted ct ci)) (matching r.ts r.id)
      behind_page =
          rest-SameItems (selected surface ct ci before) (selected surface r.ts r.id before) r
            db.engrams (page ct ci) (drop n (sorted ct ci))
            (λ x.
              next_selected surface ct ci before r x
                (ground (
                  arith,
                  last-All _ _ r is_last (All-take _ n (sorted ct ci) (positive_sorted ct ci)),
                ))
                (last-All _ _ r is_last (All-take _ n (sorted ct ci) (selected-sorted ct ci))))
            (λ p.
              ap (count_p p) (take-append-drop n (sorted ct ci))
              ∙ engine.order_by_same ts_id_asc (matching ct ci) p)
            cut

      page_and_rest : SameItems (page ct ci ++ drop n (sorted ct ci)) (matching ct ci)
      page_and_rest p =
          ap (count_p p) (take-append-drop n (sorted ct ci))
          ∙ engine.order_by_same ts_id_asc (matching ct ci) p

      -- A full page leaves fewer rows.
      fewer :
          ltb (length (page ct ci)) n ≡ false
          → length (matching r.ts r.id) < length (matching ct ci)
      fewer full = ground (
        arith,
        positive,
        length-SameItems (drop n (sorted ct ci)) (matching r.ts r.id) behind_page,
        length-SameItems _ (matching ct ci) page_and_rest,
        length-append (page ct ci) (drop n (sorted ct ci)),
      )

      full_Answers :
          (next : ℤ → ℤ → ℕ → Session → Answer) (total : ℕ) (out : List Row)
          → ltb (length (page ct ci)) n ≡ false
          → Answers
              (total + length (page ct ci))
              out
              (next r.ts r.id (total + length (page ct ci)) session)
          → Answers total (page ct ci ++ out) (
              after_page engine n surface before next total
                (ok (map to_engram (page ct ci)))
                session)
      unfolding Answers
      full_Answers next total out full h =
          page_full next total (page ct ci) r is_last
          ∙ rw (full, h, map-append, append_assoc, length-append, add_assoc) refl

      short_Answers :
          (next : ℤ → ℤ → ℕ → Session → Answer) (total : ℕ)
          → ltb (length (page ct ci)) n ≡ true
          → Answers total (page ct ci) (
              after_page engine n surface before next total
                (ok (map to_engram (page ct ci)))
                session)
      unfolding Answers
      short_Answers next total short = page_full next total (page ct ci) r is_last ∙ rw short refl

    empty_Answers :
        (next : ℤ → ℤ → ℕ → Session → Answer) (total : ℕ) (ct ci : ℤ)
        → last? (page ct ci) ≡ none
        → Answers total [] (
            after_page engine n surface before next total (ok (map to_engram (page ct ci))) session)
    unfolding Answers
    empty_Answers next total ct ci none_left =
        page_empty next total (page ct ci) none_left
        ∙ ap (λ k. some (export_complete k ∷ [], session)) (omega arith)

    -- A page that is not full is all that is left.
    short-IsExport : (ct ci : ℤ) → length (page ct ci) < n → IsExport (page ct ci) (matching ct ci)
    short-IsExport ct ci h =
        subst (λ l. IsExport l (matching ct ci))
          (sym (take_of_length-le n (sorted ct ci) (omega (arith, length-take n (sorted ct ci)))))
          (sorted-IsExport ct ci c.distinct)

    empty-IsExport : (ct ci : ℤ) → last? (page ct ci) ≡ none → IsExport [] (matching ct ci)
    empty-IsExport ct ci h =
        let e : page ct ci ≡ [] = last-eq-none (page ct ci) h in
        subst (λ l. IsExport l (matching ct ci)) e
          (short-IsExport ct ci (subst (λ l. length l < n) (sym e) positive))

    loop_step :
        (fuel : ℕ) (ct ci : ℤ) (total : ℕ)
        → export_loop engine n surface before (suc fuel) ct ci total session
          ≡ after_page engine n surface before
              (export_loop engine n surface before fuel)
              total
              (ok (map to_engram (page ct ci)))
              session
    unfolding export_loop
    loop_step fuel ct ci total =
        ap
          (λ p.
            after_page engine n surface before (export_loop engine n surface before fuel) total p.0
              p.1)
          (retrieve_page ct ci clamp)

    -- With more fuel than rows left, the loop answers with an export of the rows behind its cursor.
    loop-Answers :
        (fuel : ℕ) (ct ci : ℤ) (total : ℕ)
        → length (matching ct ci) < fuel
        → (out : List Row) × Answers total out
            (export_loop engine n surface before fuel ct ci total session)
          × IsExport out (matching ct ci)
    loop-Answers zero ct ci total h = absurd (omega arith)
    loop-Answers (suc fuel) ct ci total h =
        let next = export_loop engine n surface before fuel in
        rw (loop_step fuel ct ci total) (elim (Option-cases (last? (page ct ci))) [
          | inl end ↦ ([], empty_Answers next total ct ci end, empty-IsExport ct ci end)
          | inr (r, is_last) ↦ elim (Bool-cases (ltb (length (page ct ci)) n)) [
            | inl short ↦ (
              page ct ci,
              short_Answers ct ci r is_last next total short,
              short-IsExport ct ci (ground arith),
            )
            | inr full ↦
                let (out, answer, rest) =
                  loop-Answers fuel r.ts r.id (total + length (page ct ci))
                    (omega (arith, fewer ct ci r is_last full)) in
                (
                  page ct ci ++ out,
                  full_Answers ct ci r is_last next total out full answer,
                  IsExport-append r (page ct ci) (drop n (sorted ct ci)) out (matching ct ci)
                      (matching r.ts r.id)
                      (IsIncreasing-take n (sorted ct ci)
                        (sorted-IsExport ct ci c.distinct).increasing)
                      (cut ct ci r is_last) (page_and_rest ct ci r is_last)
                      (behind_page ct ci r is_last) rest,
                )
          ]
        ])

-- What the query parameters ask for: the surface if one is given, the rows not before `since` if it
-- is positive, and those before `before` if that is positive.
unfoldable pub wanted : String → ℤ → ℤ → Row → Bool
wanted surface since before r =
    (str_eq surface "" || str_eq r.surface surface)
    && ((not (is_set since) || not (ltb_ℤ r.ts since))
        && (not (is_set before) || ltb_ℤ r.ts before))

selected-eq-wanted :
    (surface : String) (since before : ℤ) (r : Row)
    → pos 0 <ℤ r.id
    → selected surface since (pos 0) before r ≡ wanted surface since before r
unfolding wanted
selected-eq-wanted surface since before r p =
    selected_parts surface since (pos 0) before r ∙ ground arith

module _ (engine : Engine) (surface : String) (since before : ℤ) (db : Db) where
  -- On a consistent database, when no query fails, and with more fuel than there are rows, the
  -- export ends: it answers with the wanted rows, each exactly once, in increasing order of
  -- (ts, id), and then with their number.
  pub handle_export_complete :
      (fuel : ℕ)
      → IsConsistent db
      → length db.engrams < fuel
      → (out : List Row) × (handle_export engine fuel surface since before
            (record { db = db; faults = [] })
          ≡ some (
            map (λ r. row (to_engram r)) out ++ export_complete (length out) ∷ [],
            record { db = db; faults = [] },
          ))
        × IsIncreasing out
        × SameItems out (filter (wanted surface since before) db.engrams)
  unfolding handle_export clamp_limit Answers
  handle_export_complete fuel c h =
      let (out, answer, export) =
        loop-Answers engine 1000 surface before db refl (omega arith) c fuel since (pos 0) 0
          (omega (arith, length-filter-le (selected surface since (pos 0) before) db.engrams)) in
      (
        out,
        answer
            ∙ ap
                (λ k. some (
                  map (λ r. row (to_engram r)) out ++ export_complete k ∷ [],
                  record { db = db; faults = [] },
                ))
                (zero-add (length out)),
        export.increasing,
        λ p.
            export.same p
            ∙ ap (count_p p) (
                filter-congr (selected surface since (pos 0) before) (wanted surface since before)
                  db.engrams
                  (All-map _ _ (λ r. selected-eq-wanted surface since before r) db.engrams
                    c.positive)),
      )
