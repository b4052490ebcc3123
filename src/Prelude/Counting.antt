-- ===== src/Prelude/Counting.antt =====
-- How many elements of a list pass a test, and lists that agree on every such count.
use Prim.Native.Nat.{ℕ, suc, ◌+◌}
use mathlib.Core.Path.{◌≡◌, refl, sym, ◌∙◌}
use mathlib.Core.Logic.{inl, inr}
use mathlib.Core.Bool.{Bool, true, false, ◌&&◌, not}
use mathlib.Core.List.{List, [], ◌∷◌, ◌++◌}
use native.Mathlib.Omega.{arith}
use eidetic_daemon.Prelude.Tests.{Bool-cases, if◌then◌else◌}
use eidetic_daemon.Prelude.Lists.{length, filter, All}

module _ {ℓ} {A : Type ℓ} where
  abbrev pub count_p : (A → Bool) → List A → ℕ
  count_p p [] = 0
  count_p p (x ∷ xs) = let rest = count_p p xs in if p x then suc rest else rest

  -- The same elements, each as often: every test counts alike on the two lists.
  abbrev pub SameItems : List A → List A → Type ℓ
  SameItems xs ys = (p : A → Bool) → count_p p xs ≡ count_p p ys

  pub count_p-append :
      (p : A → Bool) (xs ys : List A) → count_p p (xs ++ ys) ≡ count_p p xs + count_p p ys
  count_p-append p [] ys = omega arith
  count_p-append p (x ∷ xs) ys = ground (arith, count_p-append p xs ys)

  pub count_p-filter :
      (p q : A → Bool) (xs : List A) → count_p p (filter q xs) ≡ count_p (λ x. q x && p x) xs
  count_p-filter p q [] = refl
  count_p-filter p q (x ∷ xs) = ground (arith, count_p-filter p q xs)

  pub count_p-true : (xs : List A) → count_p (λ _. true) xs ≡ length xs
  count_p-true [] = refl
  count_p-true (x ∷ xs) = omega (arith, count_p-true xs)

  pub length-filter : (p : A → Bool) (xs : List A) → length (filter p xs) ≡ count_p p xs
  length-filter p [] = refl
  length-filter p (x ∷ xs) = ground (arith, length-filter p xs)

  -- A test and its negation split a list.
  pub count_p-not :
      (p : A → Bool) (xs : List A) → count_p p xs + count_p (λ x. not (p x)) xs ≡ length xs
  count_p-not p [] = refl
  count_p-not p (x ∷ xs) = ground (arith, count_p-not p xs)

  pub count_p-congr :
      (p q : A → Bool) (xs : List A) → All (λ x. p x ≡ q x) xs → count_p p xs ≡ count_p q xs
  count_p-congr p q [] h = refl
  count_p-congr p q (x ∷ xs) h = ground (arith, count_p-congr p q xs h.1)

  pub count_p_of_All-false :
      (p : A → Bool) (xs : List A) → All (λ x. p x ≡ false) xs → count_p p xs ≡ 0
  count_p_of_All-false p [] h = refl
  count_p_of_All-false p (x ∷ xs) h = ground (arith, count_p_of_All-false p xs h.1)

  pub All-false_of_count_p :
      (p : A → Bool) (xs : List A) → count_p p xs ≡ 0 → All (λ x. p x ≡ false) xs
  All-false_of_count_p p [] h = tt
  All-false_of_count_p p (x ∷ xs) h = (ground arith, All-false_of_count_p p xs (ground arith))

  -- A test that fails throughout one list fails throughout a list with the same elements.
  pub All-false-SameItems :
      (p : A → Bool) (xs ys : List A)
      → SameItems xs ys
      → All (λ x. p x ≡ false) xs
      → All (λ x. p x ≡ false) ys
  All-false-SameItems p xs ys same h =
      All-false_of_count_p p ys (sym (same p) ∙ count_p_of_All-false p xs h)

  pub length-SameItems : (xs ys : List A) → SameItems xs ys → length xs ≡ length ys
  length-SameItems xs ys same = sym (count_p-true xs) ∙ same (λ _. true) ∙ count_p-true ys

  pub All-filter : (q : A → Bool) (xs : List A) → All (λ x. q x ≡ true) (filter q xs)
  All-filter q [] = tt
  All-filter q (x ∷ xs) = ground (arith, All-filter q xs)

  pub All-filter_of_All {κ} :
      (P : A → Type κ) (q : A → Bool) (xs : List A) → All P xs → All P (filter q xs)
  All-filter_of_All P q [] h = tt
  All-filter_of_All P q (x ∷ xs) h = elim (Bool-cases (q x)) [
    | inl e ↦ rw e (h.0, All-filter_of_All P q xs h.1)
    | inr e ↦ rw e (All-filter_of_All P q xs h.1)
  ]

  -- What passes and what fails a test together make up a list.
  pub count_p-split :
      (p q : A → Bool) (xs : List A)
      → count_p q (filter p xs) + count_p q (filter (λ x. not (p x)) xs) ≡ count_p q xs
  count_p-split p q [] = refl
  count_p-split p q (x ∷ xs) = ground (arith, count_p-split p q xs)

  pub filter-congr :
      (p q : A → Bool) (xs : List A) → All (λ x. p x ≡ q x) xs → filter p xs ≡ filter q xs
  filter-congr p q [] h = refl
  filter-congr p q (x ∷ xs) h = ground (arith, filter-congr p q xs h.1)

  pub filter-filter :
      (p q : A → Bool) (xs : List A) → filter p (filter q xs) ≡ filter (λ x. q x && p x) xs
  filter-filter p q [] = refl
  filter-filter p q (x ∷ xs) = ground (arith, filter-filter p q xs)

  pub filter-append :
      (p : A → Bool) (xs ys : List A) → filter p (xs ++ ys) ≡ filter p xs ++ filter p ys
  filter-append p [] ys = refl
  filter-append p (x ∷ xs) ys = ground (arith, filter-append p xs ys)

  pub filter-true : (xs : List A) → filter (λ _. true) xs ≡ xs
  filter-true [] = refl
  filter-true (x ∷ xs) = rw (filter-true xs)
