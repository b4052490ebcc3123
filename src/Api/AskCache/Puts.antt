-- ===== src/Api/AskCache/Puts.antt =====
-- Put, against the list of answers by key.
use eidetic_daemon.Prelude.{
  ℕ, zero, suc, ◌-◌, ◌<◌, ◌≤◌, ltb, arith, ℤ, ◌+ℤ◌, ◌≡◌, refl, sym, ◌∙◌, ap, ap₂, subst, false,
  Bool-cases, inl, inr, Option, none, some, Option-cases, List, [], ◌∷◌, map, last?, last-eq-none,
  length, take, take_of_length-le, length-map, length-take, All,
}
use eidetic_daemon.TextSearch.{Text, same_text}
use eidetic_daemon.Api.AskCache.{Element, AskCache, put, put_element, evict, push_front, remove}
use eidetic_daemon.Api.AskCache.Linked.{
  by_key, drop_key, Linked, key-by_key, remove-drop_key, lookup-by_key,
}
use eidetic_daemon.Api.AskCache.Keys.{length-drop_key_lt, last-by_key}
use eidetic_daemon.Api.AskCache.Steps.{
  expire-Linked, move_to_front-Linked, push_front-Linked, by_key-none,
}
use eidetic_daemon.Api.AskCache.Refines.{erase, view, kept_put, Leaves, drop_key-erase}

module _ {V : Type 0} where
  drop_key-none :
      (key : Text) (xs : List (Element V))
      → All (λ el. same_text el.key key ≡ false) xs
      → drop_key key xs ≡ xs
  drop_key-none key [] h = refl
  drop_key-none key (x ∷ xs) h = rw h.0 (ap (◌∷◌ x) (drop_key-none key xs h.1))

  map-take : (n : ℕ) (xs : List (Element V)) → map erase (take n xs) ≡ take n (map erase xs)
  map-take zero xs = refl
  map-take (suc n) [] = refl
  map-take (suc n) (x ∷ xs) = ap (◌∷◌ (erase x)) (map-take n xs)

  -- What `evict` does to a cache with at most one element too many.
  evict-Leaves :
      (c : AskCache V)
      → Linked c
      → length c.order ≤ suc c.max
      → Leaves c (evict c) (take c.max (view c))
  unfolding evict
  evict-Leaves c l h = elim (Bool-cases (ltb c.max (length c.order))) [
    | inr fits ↦
        let few : length c.order ≤ c.max = ground (arith, fits) in
        rw (fits, evict)
          (record {
            linked = l;
            few = few;
            max_same = refl;
            ttl_same = refl;
            shows =
                sym
                  (take_of_length-le c.max (view c) (omega (arith, length-map erase c.order, few)));
          })
    | inl over ↦ elim (Option-cases (last? c.order)) [
      | inl nothing ↦ absurd (ground (arith, over, ap length (last-eq-none c.order nothing)))
      | inr (oldest, e) ↦
          let (found, left) = last-by_key c.order oldest l.distinct e in
          let removed = remove-drop_key oldest.key c.order oldest l.distinct found in
          let size : length c.order - 1 ≡ c.max = ground (arith, over, h) in
          let kept : remove oldest.address c.order ≡ take c.max c.order =
            removed ∙ left ∙ ap (λ n. take n c.order) size in
          rw (over, e, evict)
            (record {
              linked = expire-Linked c oldest.key oldest l found;
              few =
                  subst (λ ys. length ys ≤ c.max) (sym kept)
                    (omega (arith, length-take c.max c.order));
              max_same = refl;
              ttl_same = refl;
              shows = ap (map erase) kept ∙ map-take c.max c.order;
            })
    ]
  ]

  put_element-Leaves :
      (now : ℤ) (key : Text) (value : V) (c : AskCache V) (o : Option (Element V))
      → Linked c
      → length c.order ≤ c.max
      → by_key key c.order ≡ o
      → Leaves c (put_element now key value o c) (kept_put c.max c.ttl now key value (view c))
  unfolding put_element
  put_element-Leaves now key value c none l few e =
      let absent = drop_key-none key c.order (by_key-none key c.order e) in
      let new : Element V = record {
        address = c.fresh;
        key = key;
        value = value;
        expires_at = now +ℤ c.ttl;
      } in
      let evicted =
        evict-Leaves (push_front now key value c) (push_front-Linked now key value c l e)
          (omega (arith, few)) in
      record {
        linked = evicted.linked;
        few = evicted.few;
        max_same = evicted.max_same;
        ttl_same = evicted.ttl_same;
        shows =
            evicted.shows
            ∙ ap (λ ys. take c.max (erase new ∷ ys))
                (ap (map erase) (sym absent) ∙ drop_key-erase key c.order);
      }
  put_element-Leaves now key value c (some x) l few e =
      let x' : Element V = record x { value = value; expires_at = now +ℤ c.ttl } in
      let removed = remove-drop_key key c.order x l.distinct e in
      let smaller : length (remove x.address c.order) < length c.order =
        subst (λ ys. length ys < length c.order) (sym removed)
          (length-drop_key_lt key c.order x e) in
      let short : length (map erase (x' ∷ remove x.address c.order)) ≤ c.max =
        omega (arith, length-map erase (remove x.address c.order)) in
      record {
        linked = move_to_front-Linked c key x x' l e refl refl;
        few = omega (arith, smaller);
        max_same = refl;
        ttl_same = refl;
        shows =
            sym (take_of_length-le c.max (map erase (x' ∷ remove x.address c.order)) short)
            ∙ ap₂
                (λ k ys.
                  take c.max (record { key = k; value = value; expires_at = now +ℤ c.ttl } ∷ ys))
                (key-by_key key c.order x e) (ap (map erase) removed ∙ drop_key-erase key c.order);
      }

  pub put-Leaves :
      (now : ℤ) (key : Text) (value : V) (c : AskCache V)
      → Linked c
      → length c.order ≤ c.max
      → Leaves c (put now key value c) (kept_put c.max c.ttl now key value (view c))
  unfolding put
  put-Leaves now key value c l few =
      rw (lookup-by_key c key l)
        (put_element-Leaves now key value c (by_key key c.order) l few refl)
