-- ===== src/Dict/Lookup.antt =====
-- What is read after an entry was written or removed.
use eidetic_daemon.Prelude.{
  ◌≡◌, ◌↔◌, refl, sym, ap, ◌∙◌, inl, inr, Bool-cases, arith, true, none, some, [], ◌∷◌, ◌++◌,
  is_empty, if◌then◌else◌,
}
use mathlib.Core.Option
use eidetic_daemon.TextSearch.{Text, same_text}
use eidetic_daemon.TextSearch.Same.{same_text_self, same_text-eq}
use eidetic_daemon.Dict.{Dict, lookup, put, remove}

pub same_text_iff : (s t : Text) → (same_text s t ≡ true) ↔ (s ≡ t)
same_text_iff s t = (same_text-eq s t, λ h. rw h (same_text_self t))

module _ {Value : Type 0} where
  pub lookup-put :
      (key other : Text) (c : Value) (dict : Dict Value)
      → lookup other (put key c dict) ≡ (if same_text key other then some c else lookup other dict)
  unfolding lookup put
  lookup-put key other c [] = refl
  lookup-put key other c ((p, d) ∷ dict) = ground (
    arith,
    same_text_iff p key,
    same_text_iff p other,
    same_text_iff key other,
    lookup-put key other c dict,
  )

  pub lookup-remove :
      (key other : Text) (dict : Dict Value)
      → lookup other (remove key dict) ≡ (if same_text key other then none else lookup other dict)
  unfolding lookup remove
  lookup-remove key other [] = ground arith
  lookup-remove key other ((p, d) ∷ dict) = ground (
    arith,
    same_text_iff p key,
    same_text_iff p other,
    same_text_iff key other,
    lookup-remove key other dict,
  )

-- An entry that is put back changed, and what an absent key changes.
module _ {Value : Type 0} where
  pub lookup-changed :
      (f : Value → Value) (i id : Text) (s : Value) (subs : Dict Value)
      → lookup i subs ≡ some s
      → lookup id (put i (f s) subs)
        ≡ (if same_text i id then Option.map f (lookup id subs) else lookup id subs)
  lookup-changed f i id s subs found =
      lookup-put i id (f s) subs ∙ elim (Bool-cases (same_text i id)) [
        | inl e ↦ rw (e, sym (ap (λ t. lookup t subs) (same_text-eq i id e)), found) refl
        | inr e ↦ rw e refl
      ]

  pub lookup-absent :
      (f : Value → Value) (i id : Text) (subs : Dict Value)
      → lookup i subs ≡ none
      → lookup id subs ≡ (if same_text i id then Option.map f (lookup id subs) else lookup id subs)
  lookup-absent f i id subs missing = elim (Bool-cases (same_text i id)) [
    | inl e ↦ rw (e, sym (ap (λ t. lookup t subs) (same_text-eq i id e)), missing) refl
    | inr e ↦ rw e refl
  ]

  pub lookup-gone :
      (i id : Text) (subs : Dict Value)
      → lookup i subs ≡ none
      → lookup id subs ≡ (if same_text i id then none else lookup id subs)
  lookup-gone i id subs missing = elim (Bool-cases (same_text i id)) [
    | inl e ↦ rw e (sym (ap (λ t. lookup t subs) (same_text-eq i id e)) ∙ missing)
    | inr e ↦ rw e refl
  ]

-- Texts with a common beginning are compared by their ends.
pub same_text-append : (p a b : Text) → same_text (p ++ a) (p ++ b) ≡ same_text a b
unfolding same_text
same_text-append [] a b = refl
same_text-append (c ∷ p) a b = ground (arith, same_text-append p a b)

pub same_text_append_self : (p a : Text) → same_text p (p ++ a) ≡ is_empty a
unfolding same_text
same_text_append_self [] [] = refl
same_text_append_self [] (b ∷ a) = refl
same_text_append_self (c ∷ p) a = ground (arith, same_text_append_self p a)

pub same_text_append_other : (p a : Text) → same_text (p ++ a) p ≡ is_empty a
unfolding same_text
same_text_append_other [] [] = refl
same_text_append_other [] (b ∷ a) = refl
same_text_append_other (c ∷ p) a = ground (arith, same_text_append_other p a)
