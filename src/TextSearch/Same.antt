-- ===== src/TextSearch/Same.antt =====
-- The test of equality on texts decides it.
use eidetic_daemon.Prelude.{arith, ◌≡◌, ◌≢◌, refl, ap₂, true, false, Bool-cases, inl, inr, [], ◌∷◌}
use eidetic_daemon.TextSearch.{Text, same_text}

pub same_text_self : (t : Text) → same_text t t ≡ true
unfolding same_text
same_text_self [] = refl
same_text_self (c ∷ t) = ground (arith, same_text_self t)

pub same_text-eq : (s t : Text) → same_text s t ≡ true → s ≡ t
unfolding same_text
same_text-eq [] [] h = refl
same_text-eq [] (b ∷ t) h = absurd (ground (arith, h))
same_text-eq (a ∷ s) [] h = absurd (ground (arith, h))
same_text-eq (a ∷ s) (b ∷ t) h = ap₂ ◌∷◌ (ground (arith, h)) (same_text-eq s t (ground (arith, h)))

pub same_text_of_ne : (s t : Text) → s ≢ t → same_text s t ≡ false
same_text_of_ne s t h = elim (Bool-cases (same_text s t)) [
  | inl e ↦ absurd (h (same_text-eq s t e))
  | inr e ↦ e
]
