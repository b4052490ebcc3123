-- ===== src/Api/AskCache/Keys.antt =====
-- Elements and entries of the answer cache when those of one key are removed.
use eidetic_daemon.Prelude.{
  ℕ, suc, ◌-◌, ◌<◌, ◌≤◌, ◌==◌, arith, ◌≡◌, ◌≢◌, refl, sym, ◌∙◌, ap, subst, true, false, Bool-cases,
  inl, inr, none, some, List, [], ◌∷◌, last?, length, take, All, if◌then◌else◌,
}
use mathlib.Core.Option.{some-injective}
use eidetic_daemon.TextSearch.{Text, same_text}
use eidetic_daemon.TextSearch.Same.{same_text_self, same_text-eq, same_text_of_ne}
use eidetic_daemon.Api.AskCache.{Element, entry, delete_entry}
use eidetic_daemon.Api.AskCache.Linked.{
  by_key, drop_key, Apart, Distinct, key-by_key, by_key-Found, address_self,
}

pub entry-delete_entry :
    (key k : Text) (entries : List (Text × ℕ))
    → entry k (delete_entry key entries) ≡ (if same_text key k then none else entry k entries)
unfolding entry delete_entry
entry-delete_entry key k [] = elim (Bool-cases (same_text key k)) [
  | inl e ↦ rw e refl
  | inr e ↦ rw e refl
]
entry-delete_entry key k ((k', a) ∷ entries) = elim (Bool-cases (same_text k' key)) [
  | inl this ↦ elim (Bool-cases (same_text key k)) [
    | inl e ↦ rw (this, e, delete_entry) (entry-delete_entry key k entries ∙ rw e refl)
    | inr e ↦
        let other : same_text k' k ≡ false =
          ap (λ t. same_text t k) (same_text-eq k' key this) ∙ e in
        rw (this, e, delete_entry, other, entry) (entry-delete_entry key k entries ∙ rw e refl)
  ]
  | inr differs ↦ elim (Bool-cases (same_text k' k)) [
    | inl here ↦
        let off : same_text key k ≡ false =
          same_text_of_ne key k
            (λ q. absurd (ground (arith, sym differs ∙ ap (same_text k') q ∙ here))) in
        rw (differs, delete_entry, here, off, entry) refl
    | inr elsewhere ↦
        rw (differs, delete_entry, elsewhere, entry) (entry-delete_entry key k entries)
  ]
]

pred_suc : (n : ℕ) → suc n - 1 ≡ n
pred_suc n = omega arith

take_suc :
    {A : Type 0} (y z : A) (zs : List A)
    → y ∷ take (length (z ∷ zs) - 1) (z ∷ zs) ≡ take (length (y ∷ z ∷ zs) - 1) (y ∷ z ∷ zs)
take_suc y z zs =
    ap (λ n. y ∷ take n (z ∷ zs)) (pred_suc (length zs))
    ∙ ap (λ n. take n (y ∷ z ∷ zs)) (sym (pred_suc (suc (length zs))))

module _ {V : Type 0} where
  pub by_key-drop_key :
      (key k : Text) (xs : List (Element V))
      → by_key k (drop_key key xs) ≡ (if same_text key k then none else by_key k xs)
  by_key-drop_key key k [] = elim (Bool-cases (same_text key k)) [
    | inl e ↦ rw e refl
    | inr e ↦ rw e refl
  ]
  by_key-drop_key key k (x ∷ xs) = elim (Bool-cases (same_text x.key key)) [
    | inl this ↦ elim (Bool-cases (same_text key k)) [
      | inl e ↦ rw (this, e) (by_key-drop_key key k xs ∙ rw e refl)
      | inr e ↦
          let other : same_text x.key k ≡ false =
            ap (λ t. same_text t k) (same_text-eq x.key key this) ∙ e in
          rw (this, e, other) (by_key-drop_key key k xs ∙ rw e refl)
    ]
    | inr differs ↦ elim (Bool-cases (same_text x.key k)) [
      | inl here ↦
          let off : same_text key k ≡ false =
            same_text_of_ne key k
              (λ q. absurd (ground (arith, sym differs ∙ ap (same_text x.key) q ∙ here))) in
          rw (differs, here, off) refl
      | inr elsewhere ↦ rw (differs, elsewhere) (by_key-drop_key key k xs)
    ]
  ]

  -- What is left has another key.
  pub All-drop_key :
      (P Q : Element V → Type 0) (key : Text) (xs : List (Element V))
      → ((x : Element V) → same_text x.key key ≡ false → P x → Q x)
      → All P xs
      → All Q (drop_key key xs)
  All-drop_key P Q key [] f h = tt
  All-drop_key P Q key (x ∷ xs) f h = elim (Bool-cases (same_text x.key key)) [
    | inl this ↦ rw this (All-drop_key P Q key xs f h.1)
    | inr other ↦ rw other (f x other h.0, All-drop_key P Q key xs f h.1)
  ]

  pub Distinct-drop_key :
      (key : Text) (xs : List (Element V)) → Distinct xs → Distinct (drop_key key xs)
  Distinct-drop_key key [] d = tt
  Distinct-drop_key key (x ∷ xs) d = elim (Bool-cases (same_text x.key key)) [
    | inl this ↦ rw this (Distinct-drop_key key xs d.1)
    | inr other ↦
        rw other
          (All-drop_key (Apart x) (Apart x) key xs (λ y _ p. p) d.0, Distinct-drop_key key xs d.1)
  ]

  -- The one that was found is apart from what is left.
  pub Apart-drop_key :
      (key : Text) (xs : List (Element V)) (x : Element V)
      → Distinct xs
      → by_key key xs ≡ some x
      → All (Apart x) (drop_key key xs)
  Apart-drop_key key xs x d e =
      All-drop_key (λ y. (y.address == x.address) ≡ same_text y.key key) (Apart x) key xs
        (λ y other h. (
          (λ same. absurd (
              ground
                (arith, sym h ∙ ap (λ a. y.address == a) same ∙ address_self y.address, other))),
          (λ same. absurd (
              ground (
                arith,
                sym other
                    ∙ ap (λ t. same_text t key) (sym same ∙ key-by_key key xs x e)
                    ∙ same_text_self key,
              ))),
        ))
        (by_key-Found key xs x d e)

  length-drop_key : (key : Text) (xs : List (Element V)) → length (drop_key key xs) ≤ length xs
  length-drop_key key [] = omega arith
  length-drop_key key (x ∷ xs) = ground (arith, length-drop_key key xs)

  pub length-drop_key_lt :
      (key : Text) (xs : List (Element V)) (x : Element V)
      → by_key key xs ≡ some x
      → length (drop_key key xs) < length xs
  length-drop_key_lt key [] x e = cc
  length-drop_key_lt key (y ∷ ys) x e = elim (Bool-cases (same_text y.key key)) [
    | inl this ↦ rw this (omega (arith, length-drop_key key ys))
    | inr other ↦ rw other (omega (arith, length-drop_key_lt key ys x (rw other at e)))
  ]

  last-ne :
      (x y : Element V) (ys : List (Element V))
      → All (Apart y) ys
      → last? ys ≡ some x
      → y.key ≢ x.key
  last-ne x y [] h e = cc
  last-ne x y (z ∷ []) h e = subst (λ (w : Element V). y.key ≢ w.key) (some-injective z x e) h.0.1
  last-ne x y (z ∷ w ∷ zs) h e = last-ne x y (w ∷ zs) h.1 e

  -- The last element is found by its key, and what is left without it are those before it.
  pub last-by_key :
      (xs : List (Element V)) (x : Element V)
      → Distinct xs
      → last? xs ≡ some x
      → (by_key x.key xs ≡ some x) × (drop_key x.key xs ≡ take (length xs - 1) xs)
  last-by_key [] x d e = cc
  last-by_key (y ∷ []) x d e =
      let this : same_text y.key x.key ≡ true =
        ap (λ (z : Element V). same_text y.key z.key) (sym (some-injective y x e))
        ∙ same_text_self y.key in
      (rw this e, rw this refl)
  last-by_key (y ∷ z ∷ zs) x d e =
      let other : same_text y.key x.key ≡ false =
        same_text_of_ne y.key x.key (last-ne x y (z ∷ zs) d.0 e) in
      let (found, left) = last-by_key (z ∷ zs) x d.1 e in
      (rw other found, rw other (ap (◌∷◌ y) left ∙ take_suc y z zs))
