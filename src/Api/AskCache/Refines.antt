-- ===== src/Api/AskCache/Refines.antt =====
-- The answer cache against a list of answers by key, the most recently used one first.
use eidetic_daemon.Prelude.{
  ℕ, ◌<◌, ◌≤◌, not, arith, ℤ, ltb_ℤ, ◌+ℤ◌, ◌≡◌, refl, sym, ◌∙◌, ap, subst, Bool-cases, inl, inr,
  Option, none, some, List, [], ◌∷◌, map, filter, find, length, take, if◌then◌else◌,
}
use mathlib.Core.Option
use eidetic_daemon.TextSearch.{Text, same_text}
use eidetic_daemon.Api.AskCache.{Element, AskCache, get, get_element, remove}
use eidetic_daemon.Api.AskCache.Linked.{by_key, drop_key, Linked, remove-drop_key, lookup-by_key}
use eidetic_daemon.Api.AskCache.Keys.{length-drop_key_lt}
use eidetic_daemon.Api.AskCache.Steps.{expire-Linked, move_to_front-Linked}

-- What a client sees of an element.
pub record Kept (V : Type 0) : Type 0 where
  pub key : Text
  pub value : V
  pub expires_at : ℤ

module _ {V : Type 0} where
  abbrev pub erase : Element V → Kept V
  erase el = record { key = el.key; value = el.value; expires_at = el.expires_at }

  abbrev pub view : AskCache V → List (Kept V)
  view c = map erase c.order

  abbrev pub without : Text → List (Kept V) → List (Kept V)
  without key = filter (λ x. not (same_text x.key key))

  abbrev pub use_kept : ℤ → Text → Option (Kept V) → List (Kept V) → Option V × List (Kept V)
  use_kept now key none kept = (none, kept)
  use_kept now key (some x) kept =
      if ltb_ℤ x.expires_at now
      then (none, without key kept)
      else (some x.value, x ∷ without key kept)

  -- The one with the key comes to the front, unless its time is over.
  abbrev pub kept_get : ℤ → Text → List (Kept V) → Option V × List (Kept V)
  kept_get now key kept = use_kept now key (find (λ x. same_text x.key key) kept) kept

  -- The new one comes to the front in place of any other with the key, and the first `max` are kept.
  abbrev pub kept_put : ℕ → ℤ → ℤ → Text → V → List (Kept V) → List (Kept V)
  kept_put max ttl now key value kept =
      take max (record { key = key; value = value; expires_at = now +ℤ ttl } ∷ without key kept)

  -- After an operation: what it leaves is `kept`.
  pub record Leaves (c c' : AskCache V) (kept : List (Kept V)) : Type 0 where
    pub linked : Linked c'
    pub few : length c'.order ≤ c'.max
    pub max_same : c'.max ≡ c.max
    pub ttl_same : c'.ttl ≡ c.ttl
    pub shows : view c' ≡ kept

  find-erase :
      (key : Text) (xs : List (Element V))
      → find (λ (x : Kept V). same_text x.key key) (map erase xs) ≡ Option.map erase (by_key key xs)
  find-erase key [] = refl
  find-erase key (x ∷ xs) = elim (Bool-cases (same_text x.key key)) [
    | inl this ↦ rw this refl
    | inr other ↦ rw other (find-erase key xs)
  ]

  pub drop_key-erase :
      (key : Text) (xs : List (Element V))
      → map erase (drop_key key xs) ≡ without key (map erase xs)
  drop_key-erase key [] = refl
  drop_key-erase key (x ∷ xs) = elim (Bool-cases (same_text x.key key)) [
    | inl this ↦ rw this (drop_key-erase key xs)
    | inr other ↦ rw other (ap (◌∷◌ (erase x)) (drop_key-erase key xs))
  ]

  get_element-Leaves :
      (now : ℤ) (key : Text) (c : AskCache V) (o : Option (Element V))
      → Linked c
      → length c.order ≤ c.max
      → by_key key c.order ≡ o
      → ((get_element now key o c).0 ≡ (use_kept now key (Option.map erase o) (view c)).0)
        × Leaves c (get_element now key o c).1 (use_kept now key (Option.map erase o) (view c)).1
  unfolding get_element
  get_element-Leaves now key c none l few e = (
    refl,
    record {
      linked = record { distinct = l.distinct; old = l.old; entries = l.entries };
      few = few;
      max_same = refl;
      ttl_same = refl;
      shows = refl;
    },
  )
  get_element-Leaves now key c (some x) l few e =
      let removed = remove-drop_key key c.order x l.distinct e in
      let smaller : length (remove x.address c.order) < length c.order =
        subst (λ ys. length ys < length c.order) (sym removed)
          (length-drop_key_lt key c.order x e) in
      let shown = ap (map erase) removed ∙ drop_key-erase key c.order in
      elim (Bool-cases (ltb_ℤ x.expires_at now)) [
        | inl over ↦
            let m = expire-Linked c key x l e in
            rw (over, get_element)
              (
                refl,
                record {
                  linked = record { distinct = m.distinct; old = m.old; entries = m.entries };
                  few = omega (arith, smaller);
                  max_same = refl;
                  ttl_same = refl;
                  shows = shown;
                },
              )
        | inr in_time ↦
            let m = move_to_front-Linked c key x x l e refl refl in
            rw (in_time, get_element)
              (
                refl,
                record {
                  linked = record { distinct = m.distinct; old = m.old; entries = m.entries };
                  few = omega (arith, smaller);
                  max_same = refl;
                  ttl_same = refl;
                  shows = ap (◌∷◌ (erase x)) shown;
                },
              )
      ]

  pub get-Leaves :
      (now : ℤ) (key : Text) (c : AskCache V)
      → Linked c
      → length c.order ≤ c.max
      → ((get now key c).0 ≡ (kept_get now key (view c)).0)
        × Leaves c (get now key c).1 (kept_get now key (view c)).1
  unfolding get
  get-Leaves now key c l few =
      rw (lookup-by_key c key l, find-erase key c.order)
        (get_element-Leaves now key c (by_key key c.order) l few refl)
