-- ===== src/Api/AskCache/Linked.antt =====
-- How the list and the map of the answer cache are linked, and what that makes of their operations.
use eidetic_daemon.Prelude.{
  ℕ, ◌<◌, ◌==◌, not, arith, ◌≡◌, ◌≢◌, refl, sym, ◌∙◌, subst, true, false, Bool-cases, inl, inr,
  Option, none, some, Option-cases, List, [], ◌∷◌, filter, find, All,
}
use mathlib.Core.Option.{some-injective}
use eidetic_daemon.TextSearch.{Text, same_text}
use eidetic_daemon.TextSearch.Same.{same_text-eq, same_text_of_ne}
use eidetic_daemon.Api.AskCache.{Element, AskCache, entry, element, remove, lookup}

address_ne : (m n : ℕ) → m ≢ n → (m == n) ≡ false
address_ne m n h = ground (arith, h)

pub address_self : (n : ℕ) → (n == n) ≡ true
address_self n = ground arith

module _ {V : Type 0} where
  abbrev pub by_key : Text → List (Element V) → Option (Element V)
  by_key key = find (λ el. same_text el.key key)

  abbrev pub drop_key : Text → List (Element V) → List (Element V)
  drop_key key = filter (λ el. not (same_text el.key key))

  -- Two elements differ in their addresses and in their keys.
  abbrev pub Apart : Element V → Element V → Type 0
  Apart a b = (a.address ≢ b.address) × (a.key ≢ b.key)

  abbrev pub Distinct : List (Element V) → Type 0
  Distinct [] = Unit
  Distinct (x ∷ xs) = All (Apart x) xs × Distinct xs

  abbrev pub address_of : Option (Element V) → Option ℕ
  address_of none = none
  address_of (some el) = some el.address

  pub record Linked (c : AskCache V) : Type 0 where
    pub distinct : Distinct c.order
    pub old : All (λ el. el.address < c.fresh) c.order
    pub entries : (key : Text) → entry key c.entries ≡ address_of (by_key key c.order)

  pub All-by_key :
      (P : Element V → Type 0) (key : Text) (xs : List (Element V)) (x : Element V)
      → All P xs
      → by_key key xs ≡ some x
      → P x
  All-by_key P key [] x h e = cc
  All-by_key P key (y ∷ ys) x h e = elim (Bool-cases (same_text y.key key)) [
    | inl this ↦ subst P (some-injective _ _ (rw this at e)) h.0
    | inr other ↦ All-by_key P key ys x h.1 (rw other at e)
  ]

  pub key-by_key :
      (key : Text) (xs : List (Element V)) (x : Element V) → by_key key xs ≡ some x → x.key ≡ key
  key-by_key key [] x e = cc
  key-by_key key (y ∷ ys) x e = elim (Bool-cases (same_text y.key key)) [
    | inl this ↦
        subst (λ (z : Element V). z.key ≡ key) (some-injective _ _ (rw this at e))
          (same_text-eq y.key key this)
    | inr other ↦ key-by_key key ys x (rw other at e)
  ]

  -- The element that is found by its key is the one at its address, and the only one there.
  abbrev pub Found : Text → Element V → List (Element V) → Type 0
  Found key x = All (λ y. (y.address == x.address) ≡ same_text y.key key)

  others-Found :
      (key : Text) (x : Element V) (ys : List (Element V))
      → x.key ≡ key
      → All (Apart x) ys
      → Found key x ys
  others-Found key x [] e h = tt
  others-Found key x (y ∷ ys) e h = (
    address_ne y.address x.address (λ q. h.0.0 (sym q))
        ∙ sym (same_text_of_ne y.key key (λ q. h.0.1 (e ∙ sym q))),
    others-Found key x ys e h.1,
  )

  pub by_key-Found :
      (key : Text) (xs : List (Element V)) (x : Element V)
      → Distinct xs
      → by_key key xs ≡ some x
      → Found key x xs
  by_key-Found key [] x d e = tt
  by_key-Found key (y ∷ ys) x d e = elim (Bool-cases (same_text y.key key)) [
    | inl this ↦
        subst (λ (z : Element V). Found key z (y ∷ ys)) (some-injective _ _ (rw this at e))
          (
            address_self y.address ∙ sym this,
            others-Found key y ys (same_text-eq y.key key this) d.0,
          )
    | inr other ↦
        let later = rw other at e in
        (
          address_ne y.address x.address (All-by_key (Apart y) key ys x d.0 later).0 ∙ sym other,
          by_key-Found key ys x d.1 later,
        )
  ]

  Found-remove :
      (key : Text) (x : Element V) (xs : List (Element V))
      → Found key x xs
      → remove x.address xs ≡ drop_key key xs
  Found-remove key x [] h = refl
  Found-remove key x (y ∷ ys) h = rw (h.0, Found-remove key x ys h.1) refl

  Found-element :
      (key : Text) (x : Element V) (xs : List (Element V))
      → Found key x xs
      → element x.address xs ≡ by_key key xs
  Found-element key x [] h = refl
  Found-element key x (y ∷ ys) h = rw (h.0, Found-element key x ys h.1) refl

  -- To remove an element by its address is to remove it by its key.
  pub remove-drop_key :
      (key : Text) (xs : List (Element V)) (x : Element V)
      → Distinct xs
      → by_key key xs ≡ some x
      → remove x.address xs ≡ drop_key key xs
  remove-drop_key key xs x d e = Found-remove key x xs (by_key-Found key xs x d e)

  element-by_key :
      (key : Text) (xs : List (Element V)) (x : Element V)
      → Distinct xs
      → by_key key xs ≡ some x
      → element x.address xs ≡ some x
  element-by_key key xs x d e = Found-element key x xs (by_key-Found key xs x d e) ∙ e

  -- The map leads to the element that has the key.
  pub lookup-by_key : (c : AskCache V) (key : Text) → Linked c → lookup key c ≡ by_key key c.order
  lookup-by_key c key l = elim (Option-cases (by_key key c.order)) [
    | inl missing ↦ rw (l.entries key, missing, lookup) refl
    | inr (x, found) ↦
        rw (l.entries key, found, lookup) (element-by_key key c.order x l.distinct found)
  ]
