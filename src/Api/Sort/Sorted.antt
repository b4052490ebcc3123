-- ===== src/Api/Sort/Sorted.antt =====
-- The sort puts the elements in order and keeps every one of them.
use eidetic_daemon.Prelude.{
  ℕ, zero, suc, ◌+◌, ◌≤◌, arith, ◌≡◌, refl, sym, ◌∙◌, Bool, true, false, Bool-cases, inl, inr, List,
  [], ◌∷◌, ◌++◌, take, drop, length, leb, length-take, take-append-drop, SameItems, subst, ap, ◌⊎◌,
  All, All-append, All-map, All-take, count_p, count_p-append,
}
use eidetic_daemon.Api.Sort.{sink, sink_all, reverse, insertion_sort}

-- An order that the test decides.
pub record Decides {A : Type 0} (swap : A → A → Bool) (R : A → A → Type 0) : Type 0 where
  pub swapped : (x e : A) → swap x e ≡ true → R e x
  pub kept : (x e : A) → swap x e ≡ false → R x e
  pub transitive : (x y z : A) → R x y → R y z → R x z

module _ {A : Type 0} (swap : A → A → Bool) (R : A → A → Type 0) where
  abbrev pub Sorted : List A → Type 0
  Sorted [] = Unit
  Sorted (x ∷ xs) = All (λ y. R x y) xs × Sorted xs

  -- In reverse order.
  abbrev Falling : List A → Type 0
  Falling [] = Unit
  Falling (x ∷ xs) = All (λ y. R y x) xs × Falling xs

  pub Sorted-take : (n : ℕ) (xs : List A) → Sorted xs → Sorted (take n xs)
  Sorted-take zero xs h = tt
  Sorted-take (suc n) [] h = tt
  Sorted-take (suc n) (x ∷ xs) h = (All-take (λ y. R x y) n xs h.0, Sorted-take n xs h.1)

  Sorted-append_one :
      (xs : List A) (x : A) → Sorted xs → All (λ y. R y x) xs → Sorted (xs ++ x ∷ [])
  Sorted-append_one [] x h k = (tt, tt)
  Sorted-append_one (y ∷ xs) x h k =
      (All-append (λ z. R y z) xs (x ∷ []) h.0 (k.0, tt), Sorted-append_one xs x h.1 k.1)

  All-reverse : (P : A → Type 0) (xs : List A) → All P xs → All P (reverse swap xs)
  unfolding reverse
  All-reverse P [] h = tt
  All-reverse P (x ∷ xs) h =
      All-append P (reverse swap xs) (x ∷ []) (All-reverse P xs h.1) (h.0, tt)

  reverse-Sorted : (xs : List A) → Falling xs → Sorted (reverse swap xs)
  unfolding reverse
  reverse-Sorted [] h = tt
  reverse-Sorted (x ∷ xs) h =
      Sorted-append_one (reverse swap xs) x (reverse-Sorted xs h.1)
        (All-reverse (λ y. R y x) xs h.0)

  All-sink : (P : A → Type 0) (e : A) (xs : List A) → P e → All P xs → All P (sink swap e xs)
  unfolding sink
  All-sink P e [] pe h = (pe, tt)
  All-sink P e (x ∷ xs) pe h = elim (Bool-cases (swap x e)) [
    | inl moves ↦ rw (moves, sink) (h.0, All-sink P e xs pe h.1)
    | inr stays ↦ rw (stays, sink) (pe, h)
  ]

  sink-Falling : Decides swap R → (e : A) (xs : List A) → Falling xs → Falling (sink swap e xs)
  unfolding sink
  sink-Falling d e [] h = (tt, tt)
  sink-Falling d e (x ∷ xs) h = elim (Bool-cases (swap x e)) [
    | inl moves ↦
        rw (moves, sink)
          (All-sink (λ y. R y x) e xs (d.swapped x e moves) h.0, sink-Falling d e xs h.1)
    | inr stays ↦
        let right = d.kept x e stays in
        rw (stays, sink)
          ((right, All-map (λ y. R y x) (λ y. R y e) (λ y q. d.transitive y x e q right) xs h.0), h)
  ]

  sink_all-Falling :
      Decides swap R → (left right : List A) → Falling left → Falling (sink_all swap left right)
  unfolding sink_all
  sink_all-Falling d left [] h = h
  sink_all-Falling d left (e ∷ right) h =
      sink_all-Falling d (sink swap e left) right (sink-Falling d e left h)

  pub insertion_sort-Sorted : Decides swap R → (xs : List A) → Sorted (insertion_sort swap xs)
  unfolding insertion_sort
  insertion_sort-Sorted d xs = reverse-Sorted (sink_all swap [] xs) (sink_all-Falling d [] xs tt)

module _ {A : Type 0} (swap : A → A → Bool) (p : A → Bool) where
  count_p-reverse : (xs : List A) → count_p p (reverse swap xs) ≡ count_p p xs
  unfolding reverse
  count_p-reverse [] = refl
  count_p-reverse (x ∷ xs) =
      ground (arith, count_p-reverse xs, count_p-append p (reverse swap xs) (x ∷ []))

  count_p-sink : (e : A) (xs : List A) → count_p p (sink swap e xs) ≡ count_p p (e ∷ xs)
  unfolding sink
  count_p-sink e [] = refl
  count_p-sink e (x ∷ xs) = ground (arith, count_p-sink e xs)

  count_p-sink_all :
      (left right : List A)
      → count_p p (sink_all swap left right) ≡ count_p p left + count_p p right
  unfolding sink_all
  count_p-sink_all left [] = omega arith
  count_p-sink_all left (e ∷ right) =
      ground (arith, count_p-sink_all (sink swap e left) right, count_p-sink e left)

  pub count_p-insertion_sort : (xs : List A) → count_p p (insertion_sort swap xs) ≡ count_p p xs
  unfolding insertion_sort
  count_p-insertion_sort xs =
      count_p-reverse (sink_all swap [] xs) ∙ omega (arith, count_p-sink_all [] xs)

-- `out` are the first `n` of the elements in order, or all of them if there are fewer.
pub record First {A : Type 0} (swap : A → A → Bool) (R : A → A → Type 0) (n : ℕ) (xs out : List A)
    : Type 0 where
  pub rest : List A
  pub ordered : Sorted swap R (out ++ rest)
  pub items : SameItems (out ++ rest) xs
  pub bounded : length out ≤ n
  pub full : (rest ≡ []) ⊎ (length out ≡ n)

drop_of_length-le : {A : Type 0} (n : ℕ) (xs : List A) → length xs ≤ n → drop n xs ≡ []
drop_of_length-le zero [] h = refl
drop_of_length-le zero (x ∷ xs) h = absurd (omega arith)
drop_of_length-le (suc n) [] h = refl
drop_of_length-le (suc n) (x ∷ xs) h = drop_of_length-le n xs (omega arith)

module _ {A : Type 0} (swap : A → A → Bool) (R : A → A → Type 0) (d : Decides swap R) (n : ℕ) where
  take-full : (xs : List A) → (drop n xs ≡ []) ⊎ (length (take n xs) ≡ n)
  take-full xs = elim (Bool-cases (leb (length xs) n)) [
    | inl short ↦ inl (drop_of_length-le n xs (ground (arith, short)))
    | inr long ↦ inr (ground (arith, long, length-take n xs))
  ]

  pub take-First : (xs : List A) → First swap R n xs (take n (insertion_sort swap xs))
  take-First xs =
      let all = insertion_sort swap xs in
      record {
        rest = drop n all;
        ordered =
            subst (Sorted swap R) (sym (take-append-drop n all))
              (insertion_sort-Sorted swap R d xs);
        items = λ p. ap (count_p p) (take-append-drop n all) ∙ count_p-insertion_sort swap p xs;
        bounded = omega (arith, length-take n all);
        full = take-full all;
      }
