-- ===== src/Api/AskCache/Steps.antt =====
-- The operations of the answer cache keep its list and its map linked.
use eidetic_daemon.Prelude.{
  ℕ, suc, ◌<◌, arith, ℤ, ◌+ℤ◌, ◌≡◌, refl, sym, ◌∙◌, ap, subst, Bool, true, false, Bool-cases, inl,
  inr, Option, none, some, List, [], ◌∷◌, All, All-map, if◌then◌else◌,
}
use eidetic_daemon.TextSearch.{Text, same_text}
use eidetic_daemon.TextSearch.Same.{same_text_self, same_text-eq}
use eidetic_daemon.Api.AskCache.{
  Element, AskCache, entry, remove, expire, push_front, move_to_front,
}
use eidetic_daemon.Api.AskCache.Linked.{
  by_key, drop_key, Apart, Distinct, address_of, Linked, All-by_key, key-by_key, remove-drop_key,
}
use eidetic_daemon.Api.AskCache.Keys.{
  entry-delete_entry, by_key-drop_key, All-drop_key, Distinct-drop_key, Apart-drop_key,
}

if_address :
    {V : Type 0} (b : Bool) (o : Option (Element V))
    → (if b then none else address_of o) ≡ address_of (if b then none else o)
if_address true o = refl
if_address false o = refl

module _ {V : Type 0} where
  -- To remove an element that was found, from the list and from the map.
  pub expire-Linked :
      (c : AskCache V) (key : Text) (x : Element V)
      → Linked c
      → by_key key c.order ≡ some x
      → Linked (expire key x c)
  expire-Linked c key x l e =
      let removed = remove-drop_key key c.order x l.distinct e in
      record {
        distinct = subst Distinct (sym removed) (Distinct-drop_key key c.order l.distinct);
        old = subst (All (λ el. el.address < c.fresh)) (sym removed) (
            All-drop_key (λ el. el.address < c.fresh) (λ el. el.address < c.fresh) key c.order
              (λ y _ p. p) l.old);
        entries = λ k.
            entry-delete_entry key k c.entries
            ∙ ap (λ o. if same_text key k then none else o) (l.entries k)
            ∙ if_address (same_text key k) (by_key k c.order)
            ∙ ap address_of (sym (by_key-drop_key key k c.order) ∙ ap (by_key k) (sym removed));
      }

  found_in_front :
      (order : List (Element V)) (key : Text) (x x' : Element V) (k : Text)
      → by_key key order ≡ some x
      → x'.address ≡ x.address
      → x'.key ≡ key
      → address_of (by_key k order) ≡ address_of (by_key k (x' ∷ drop_key key order))
  found_in_front order key x x' k e same_address named = elim (Bool-cases (same_text x'.key k)) [
    | inl this ↦ rw this (
        ap (λ t. address_of (by_key t order)) (sym (same_text-eq x'.key k this) ∙ named)
        ∙ ap address_of e
        ∙ ap some (sym same_address))
    | inr other ↦
        let off : same_text key k ≡ false = ap (λ t. same_text t k) (sym named) ∙ other in
        rw other (ap address_of (sym (by_key-drop_key key k order ∙ rw off refl)))
  ]

  -- To bring it to the front, with a new value.
  pub move_to_front-Linked :
      (c : AskCache V) (key : Text) (x x' : Element V)
      → Linked c
      → by_key key c.order ≡ some x
      → x'.address ≡ x.address
      → x'.key ≡ x.key
      → Linked (move_to_front x' c)
  move_to_front-Linked c key x x' l e same_address same_key =
      let rest = drop_key key c.order in
      let removed : remove x'.address c.order ≡ rest =
        ap (λ a. remove a c.order) same_address ∙ remove-drop_key key c.order x l.distinct e in
      let named : x'.key ≡ key = same_key ∙ key-by_key key c.order x e in
      let below : x'.address < c.fresh =
        subst (λ a. a < c.fresh) (sym same_address)
          (All-by_key (λ el. el.address < c.fresh) key c.order x l.old e) in
      record {
        distinct =
            subst (λ ys. Distinct (x' ∷ ys)) (sym removed)
              (
                All-map (Apart x) (Apart x')
                    (λ y h. ((λ q. h.0 (sym same_address ∙ q)), (λ q. h.1 (sym same_key ∙ q)))) rest
                    (Apart-drop_key key c.order x l.distinct e),
                Distinct-drop_key key c.order l.distinct,
              );
        old =
            subst (λ ys. All (λ el. el.address < c.fresh) (x' ∷ ys)) (sym removed)
              (
                below,
                All-drop_key (λ el. el.address < c.fresh) (λ el. el.address < c.fresh) key c.order
                    (λ y _ p. p) l.old,
              );
        entries = λ k.
            l.entries k
            ∙ found_in_front c.order key x x' k e same_address named
            ∙ ap (λ ys. address_of (by_key k (x' ∷ ys))) (sym removed);
      }

  pub by_key-none :
      (key : Text) (xs : List (Element V))
      → by_key key xs ≡ none
      → All (λ el. same_text el.key key ≡ false) xs
  by_key-none key [] e = tt
  by_key-none key (x ∷ xs) e = elim (Bool-cases (same_text x.key key)) [
    | inl this ↦ cc (rw this at e)
    | inr other ↦ (other, by_key-none key xs (rw other at e))
  ]

  fresh-Apart :
      (fresh : ℕ) (key : Text) (n : Element V) (xs : List (Element V))
      → n.address ≡ fresh
      → n.key ≡ key
      → All (λ el. el.address < fresh) xs
      → All (λ el. same_text el.key key ≡ false) xs
      → All (Apart n) xs
  fresh-Apart fresh key n [] a k old other = tt
  fresh-Apart fresh key n (x ∷ xs) a k old other = (
    (
      (λ same. absurd (omega (arith, old.0))),
      (λ same.
          absurd (
            ground
              (arith, other.0, ap (λ t. same_text t key) (sym same ∙ k) ∙ same_text_self key))),
    ),
    fresh-Apart fresh key n xs a k old.1 other.1,
  )

  pub push_front-Linked :
      (now : ℤ) (key : Text) (value : V) (c : AskCache V)
      → Linked c
      → by_key key c.order ≡ none
      → Linked (push_front now key value c)
  unfolding entry
  push_front-Linked now key value c l e = record {
    distinct = (
      fresh-Apart c.fresh key
          (record { address = c.fresh; key = key; value = value; expires_at = now +ℤ c.ttl })
          c.order refl refl l.old (by_key-none key c.order e),
      l.distinct,
    );
    old = (
      omega arith,
      All-map (λ el. el.address < c.fresh) (λ el. el.address < suc c.fresh) (λ el h. omega arith)
          c.order l.old,
    );
    entries = λ k. pushed k;
  }
    where
      pushed :
          (k : Text)
          → entry k (push_front now key value c).entries
            ≡ address_of (by_key k (push_front now key value c).order)
      pushed k = elim (Bool-cases (same_text key k)) [
        | inl this ↦ rw (this, entry) refl
        | inr other ↦
            rw (other, entry) (entry-delete_entry key k c.entries ∙ rw other (l.entries k))
      ]
