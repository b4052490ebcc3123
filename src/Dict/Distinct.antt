-- ===== src/Dict/Distinct.antt =====
-- Maps without a second entry for a key, and what holds of all their values.
use eidetic_daemon.Prelude.{
  arith, ◌≡◌, refl, sym, ap, subst, ◌∙◌, All, Bool, Bool-cases, inl, inr, Option, none, some, [],
  ◌∷◌, if◌then◌else◌,
}
use mathlib.Core.Option
use mathlib.Core.Option.{some-injective}
use eidetic_daemon.TextSearch.Same.{same_text-eq}
use eidetic_daemon.TextSearch.{Text, same_text}
use eidetic_daemon.Dict.{Dict, lookup, put, remove}
use eidetic_daemon.Dict.Lookup.{lookup-put, lookup-remove, same_text_iff}

module _ {Value : Type 0} where
  abbrev pub Distinct : Dict Value → Type 0
  Distinct [] = Unit
  Distinct ((k, v) ∷ dict) = (lookup k dict ≡ none) × Distinct dict

  pub put-Distinct :
      (key : Text) (v : Value) (dict : Dict Value) → Distinct dict → Distinct (put key v dict)
  unfolding put lookup
  put-Distinct key v [] h = (refl, tt)
  put-Distinct key v ((k, w) ∷ dict) h = elim (Bool-cases (same_text k key)) [
    | inl e ↦ simp (e, put) h
    | inr e ↦
        simp (e, put)
          (
            lookup-put key k v dict ∙ ground (arith, same_text_iff key k, same_text_iff k key, h.0),
            put-Distinct key v dict h.1,
          )
  ]

  pub remove-Distinct :
      (key : Text) (dict : Dict Value) → Distinct dict → Distinct (remove key dict)
  unfolding remove
  remove-Distinct key [] h = tt
  remove-Distinct key ((k, w) ∷ dict) h = elim (Bool-cases (same_text k key)) [
    | inl e ↦ simp (e, remove) (remove-Distinct key dict h.1)
    | inr e ↦
        simp (e, remove)
          (lookup-remove key k dict ∙ ground (arith, h.0), remove-Distinct key dict h.1)
  ]

  unfoldable pub map_values : (Value → Value) → Dict Value → Dict Value
  map_values f [] = []
  map_values f ((k, v) ∷ dict) = (k, f v) ∷ map_values f dict

  pub lookup-map_values :
      (f : Value → Value) (key : Text) (dict : Dict Value)
      → lookup key (map_values f dict) ≡ Option.map f (lookup key dict)
  unfolding lookup map_values
  lookup-map_values f key [] = refl
  lookup-map_values f key ((k, v) ∷ dict) = elim (Bool-cases (same_text k key)) [
    | inl e ↦ rw e refl
    | inr e ↦ rw e (lookup-map_values f key dict)
  ]

  pub map_values-Distinct :
      (f : Value → Value) (dict : Dict Value) → Distinct dict → Distinct (map_values f dict)
  unfolding map_values
  map_values-Distinct f [] h = tt
  map_values-Distinct f ((k, v) ∷ dict) h =
      (lookup-map_values f k dict ∙ rw h.0 refl, map_values-Distinct f dict h.1)

  -- The entries whose value does not pass a test.
  unfoldable pub without : (Value → Bool) → Dict Value → Dict Value
  without p [] = []
  without p ((k, v) ∷ dict) = let rest = without p dict in if p v then rest else (k, v) ∷ rest

  abbrev pub unless : (Value → Bool) → Option Value → Option Value
  unless p none = none
  unless p (some v) = if p v then none else some v

  pub lookup-without :
      (p : Value → Bool) (key : Text) (dict : Dict Value)
      → Distinct dict
      → lookup key (without p dict) ≡ unless p (lookup key dict)
  unfolding lookup without
  lookup-without p key [] h = refl
  lookup-without p key ((k, v) ∷ dict) h = elim (Bool-cases (p v)) [
    | inl e ↦ elim (Bool-cases (same_text k key)) [
      | inl f ↦
          simp (e, f, without, lookup)
            (lookup-without p key dict h.1
              ∙ ap (unless p) (sym (ap (λ t. lookup t dict) (same_text-eq k key f)) ∙ h.0))
      | inr f ↦ simp (e, f, without, lookup) (lookup-without p key dict h.1)
    ]
    | inr e ↦ elim (Bool-cases (same_text k key)) [
      | inl f ↦ simp (e, f, without, lookup) refl
      | inr f ↦ simp (e, f, without, lookup) (lookup-without p key dict h.1)
    ]
  ]

  pub without-Distinct :
      (p : Value → Bool) (dict : Dict Value) → Distinct dict → Distinct (without p dict)
  unfolding without
  without-Distinct p [] h = tt
  without-Distinct p ((k, v) ∷ dict) h = elim (Bool-cases (p v)) [
    | inl e ↦ simp (e, without) (without-Distinct p dict h.1)
    | inr e ↦
        simp (e, without)
          (lookup-without p k dict h.1 ∙ ap (unless p) h.0, without-Distinct p dict h.1)
  ]

  abbrev pub AllValues : (Value → Type 0) → Dict Value → Type 0
  AllValues P dict = All (λ entry. P entry.1) dict

  pub lookup-AllValues :
      (P : Value → Type 0) (key : Text) (v : Value) (dict : Dict Value)
      → AllValues P dict
      → lookup key dict ≡ some v
      → P v
  unfolding lookup
  lookup-AllValues P key v [] h found = cc
  lookup-AllValues P key v ((k, w) ∷ dict) h found = elim (Bool-cases (same_text k key)) [
    | inl e ↦ subst P (some-injective _ _ (rw e at found)) h.0
    | inr e ↦ lookup-AllValues P key v dict h.1 (rw e at found)
  ]

  pub put-AllValues :
      (P : Value → Type 0) (key : Text) (v : Value) (dict : Dict Value)
      → P v
      → AllValues P dict
      → AllValues P (put key v dict)
  unfolding put
  put-AllValues P key v [] p h = (p, tt)
  put-AllValues P key v ((k, w) ∷ dict) p h = elim (Bool-cases (same_text k key)) [
    | inl e ↦ simp (e, put) (p, h.1)
    | inr e ↦ simp (e, put) (h.0, put-AllValues P key v dict p h.1)
  ]

  pub remove-AllValues :
      (P : Value → Type 0) (key : Text) (dict : Dict Value)
      → AllValues P dict
      → AllValues P (remove key dict)
  unfolding remove
  remove-AllValues P key [] h = tt
  remove-AllValues P key ((k, w) ∷ dict) h = elim (Bool-cases (same_text k key)) [
    | inl e ↦ simp (e, remove) (remove-AllValues P key dict h.1)
    | inr e ↦ simp (e, remove) (h.0, remove-AllValues P key dict h.1)
  ]

  pub map_values-AllValues :
      (P : Value → Type 0) (f : Value → Value) (dict : Dict Value)
      → ((v : Value) → P v → P (f v))
      → AllValues P dict
      → AllValues P (map_values f dict)
  unfolding map_values
  map_values-AllValues P f [] keeps h = tt
  map_values-AllValues P f ((k, v) ∷ dict) keeps h =
      (keeps v h.0, map_values-AllValues P f dict keeps h.1)

  pub without-AllValues :
      (P : Value → Type 0) (p : Value → Bool) (dict : Dict Value)
      → AllValues P dict
      → AllValues P (without p dict)
  unfolding without
  without-AllValues P p [] h = tt
  without-AllValues P p ((k, v) ∷ dict) h = elim (Bool-cases (p v)) [
    | inl e ↦ simp (e, without) (without-AllValues P p dict h.1)
    | inr e ↦ simp (e, without) (h.0, without-AllValues P p dict h.1)
  ]
