-- ===== src/Api/Export/Pages.antt =====
-- Putting pages together: a page, cut off at its last row, and the rows behind it.
use eidetic_daemon.Prelude.{
  ◌+◌, arith, ◌≡◌, sym, ◌∙◌, ap, subst, fun_ext, Bool, true, false, not, ◌&&◌, some, List, [], ◌∷◌,
  ◌++◌, last?, filter, All, SameItems, count_p, count_p-append, count_p-filter, count_p-congr,
  All-false-SameItems, count_p_of_All-false, All-map,
}
use native.Mathlib.Nat.{zero-add}
use eidetic_daemon.Store.Schema.{Row}
use eidetic_daemon.Store.Paging.{IsIncreasing, past_row, Cut, IsIncreasing-append}

-- The rows in strictly increasing order of (ts, id), each selected row exactly once.
pub record IsExport (out rows : List Row) : Type 0 where
  pub increasing : IsIncreasing out
  pub same : SameItems out rows

-- a test that holds throughout a list
pub All-true-SameItems :
    (p : Row → Bool) (xs ys : List Row)
    → SameItems xs ys
    → All (λ x. p x ≡ true) xs
    → All (λ x. p x ≡ true) ys
All-true-SameItems p xs ys same h =
    true_of_not p ys (All-false-SameItems (λ x. not (p x)) xs ys same (not_of_true p xs h))
  where
    not_of_true :
        (p : Row → Bool) (l : List Row) → All (λ x. p x ≡ true) l → All (λ x. not (p x) ≡ false) l
    not_of_true p [] h = tt
    not_of_true p (x ∷ l) h = (ap not h.0, not_of_true p l h.1)

    true_of_not :
        (p : Row → Bool) (l : List Row) → All (λ x. not (p x) ≡ false) l → All (λ x. p x ≡ true) l
    true_of_not p [] h = tt
    true_of_not p (x ∷ l) h = (ground arith, true_of_not p l h.1)

pub last-All : (P : Row → Type 0) (xs : List Row) (r : Row) → last? xs ≡ some r → All P xs → P r
last-All P [] r e h = cc
last-All P (x ∷ []) r e h = subst P (cc) h.0
last-All P (x ∷ y ∷ xs) r e h = last-All P (y ∷ xs) r e h.1

and_assoc : (a b c : Bool) → ((a && b) && c) ≡ (a && (b && c))
and_assoc a b c = ground arith

-- Where a page and the rest make up the selected rows, the rest is what the moved cursor selects.
pub rest-SameItems :
    (w w' : Row → Bool) (r : Row) (rows page rest : List Row)
    → ((x : Row) → w' x ≡ (w x && past_row r x))
    → SameItems (page ++ rest) (filter w rows)
    → Cut r page rest
    → SameItems rest (filter w' rows)
rest-SameItems w w' r rows page rest step same cut p = sym (
    count_p-filter p w' rows
    ∙ ap (λ q. count_p q rows)
        (fun_ext λ x. ap (λ b. b && p x) (step x) ∙ and_assoc (w x) (past_row r x) (p x))
    ∙ sym (count_p-filter (λ x. past_row r x && p x) w rows)
    ∙ sym (same (λ x. past_row r x && p x))
    ∙ count_p-append (λ x. past_row r x && p x) page rest
    ∙ ap (λ k. k + count_p (λ x. past_row r x && p x) rest)
        (count_p_of_All-false (λ x. past_row r x && p x) page
          (All-map _ _ (λ x h. ap (λ b. b && p x) h) page cut.behind))
    ∙ zero-add _
    ∙ count_p-congr (λ x. past_row r x && p x) p rest
        (All-map _ _ (λ x h. ap (λ b. b && p x) h) rest cut.ahead))

-- A page followed by an export of what stands behind it is an export of all.
pub IsExport-append :
    (r : Row) (page rest out rows behind : List Row)
    → IsIncreasing page
    → Cut r page rest
    → SameItems (page ++ rest) rows
    → SameItems rest behind
    → IsExport out behind
    → IsExport (page ++ out) rows
IsExport-append r page rest out rows behind inc cut all same h = record {
  increasing =
      IsIncreasing-append r page out inc
        (record {
          behind = cut.behind;
          ahead = All-true-SameItems (past_row r) rest out (λ p. same p ∙ sym (h.same p)) cut.ahead;
        })
        h.increasing;
  same = λ p.
      count_p-append p page out
      ∙ ap (λ k. count_p p page + k) (h.same p ∙ sym (same p))
      ∙ sym (count_p-append p page rest)
      ∙ all p;
}
