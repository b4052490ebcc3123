-- ===== src/Bundle/Paragraphs/Collapse.antt =====
-- The loop that collapses newlines ends, and what it leaves.
use eidetic_daemon.Prelude.{
  contains, ℕ, zero, suc, ◌-◌, ◌≤◌, ◌<◌, ◌==◌, arith, ◌≡◌, ◌⊎◌, refl, sym, ap, ◌∙◌, Bool-cases, inl,
  inr, true, false, [], ◌∷◌, ◌++◌, length, drop, replicate, has_prefix, if◌then◌else◌,
}
use eidetic_daemon.TextSearch.{Text}
use eidetic_daemon.Bundle.Paragraphs.{
  newline, two_newlines, three_newlines, replace_from, replace_all, collapse,
}

-- A text of which every run of newlines is cut to two; `run` counts those before it, up to two.
unfoldable pub squeeze : ℕ → Text → Text
squeeze run [] = []
squeeze zero (c ∷ s) = if c == newline then c ∷ squeeze 1 s else c ∷ squeeze 0 s
squeeze (suc zero) (c ∷ s) = if c == newline then c ∷ squeeze 2 s else c ∷ squeeze 0 s
squeeze (suc (suc run)) (c ∷ s) = if c == newline then squeeze 2 s else c ∷ squeeze 0 s

-- A text that starts with three newlines.
three-cases :
    (s : Text)
    → (has_prefix three_newlines s ≡ false)
      ⊎ ((rest : Text) × (has_prefix three_newlines s ≡ true)
          × (s ≡ newline ∷ newline ∷ newline ∷ rest))
unfolding has_prefix
three-cases [] = inl refl
three-cases (a ∷ []) = inl (ground arith)
three-cases (a ∷ b ∷ []) = inl (ground arith)
three-cases (a ∷ b ∷ c ∷ s) = elim (Bool-cases (has_prefix three_newlines (a ∷ b ∷ c ∷ s))) [
  | inl e ↦ inr (
    s,
    e,
    (let first : a ≡ newline = ground arith in
        let second : b ≡ newline = ground arith in
        let third : c ≡ newline = ground arith in rw (first, second, third) refl),
  )
  | inr e ↦ inl e
]

squeeze_three :
    (run : ℕ) (s : Text)
    → squeeze run (newline ∷ newline ∷ newline ∷ s)
      ≡ squeeze run (newline ∷ newline ∷ []) ++ squeeze 2 s
unfolding squeeze
squeeze_three zero s = refl
squeeze_three (suc zero) s = refl
squeeze_three (suc (suc run)) s = refl

squeeze_two :
    (run : ℕ) (s : Text)
    → squeeze run (newline ∷ newline ∷ s) ≡ squeeze run (newline ∷ newline ∷ []) ++ squeeze 2 s
unfolding squeeze
squeeze_two zero s = refl
squeeze_two (suc zero) s = refl
squeeze_two (suc (suc run)) s = refl

squeeze_cong :
    (c run : ℕ) (s t : Text)
    → ((j : ℕ) → squeeze j s ≡ squeeze j t)
    → squeeze run (c ∷ s) ≡ squeeze run (c ∷ t)
unfolding squeeze
squeeze_cong c zero s t h = rw (squeeze, h 1, h 0) refl
squeeze_cong c (suc zero) s t h = rw (squeeze, h 2, h 0) refl
squeeze_cong c (suc (suc run)) s t h = rw (squeeze, h 2, h 0) refl

-- A round of the loop makes no difference to the squeezed text.
squeeze-replace_from :
    (run skip : ℕ) (s : Text)
    → squeeze run (replace_from three_newlines two_newlines skip s) ≡ squeeze run (drop skip s)
unfolding replace_from
squeeze-replace_from run zero [] = refl
squeeze-replace_from run (suc skip) [] = refl
squeeze-replace_from run (suc skip) (c ∷ s) = squeeze-replace_from run skip s
squeeze-replace_from run zero (c ∷ s) = elim (three-cases (c ∷ s)) [
  | inl e ↦
      simp (e, replace_from)
        (squeeze_cong c run (replace_from three_newlines two_newlines zero s) s
          (λ j. squeeze-replace_from j zero s))
  | inr (rest, e, same) ↦
      simp (e, replace_from)
        (squeeze_two run (replace_from three_newlines two_newlines 2 s)
          ∙ ap (λ t. squeeze run two_newlines ++ t)
              (squeeze-replace_from 2 2 s ∙ ap (λ t. squeeze 2 (drop 3 t)) same)
          ∙ sym (squeeze_three run rest)
          ∙ ap (squeeze run) (sym same))
]

-- Without three newlines in a row nothing is cut; `run` newlines stand before the text.
squeeze_of_short :
    (run : ℕ) (s : Text)
    → run ≤ 2
    → contains three_newlines (replicate run newline ++ s) ≡ false
    → squeeze run s ≡ s
unfolding squeeze contains has_prefix
squeeze_of_short run [] small h = refl
squeeze_of_short zero (c ∷ s) small h = elim (Bool-cases (c == newline)) [
  | inl e ↦ simp (e, squeeze) (ap (◌∷◌ c) (squeeze_of_short 1 s (omega arith) (ground arith)))
  | inr e ↦ simp (e, squeeze) (ap (◌∷◌ c) (squeeze_of_short 0 s (omega arith) (ground arith)))
]
squeeze_of_short (suc zero) (c ∷ s) small h = elim (Bool-cases (c == newline)) [
  | inl e ↦ simp (e, squeeze) (ap (◌∷◌ c) (squeeze_of_short 2 s (omega arith) (ground arith)))
  | inr e ↦ simp (e, squeeze) (ap (◌∷◌ c) (squeeze_of_short 0 s (omega arith) (ground arith)))
]
squeeze_of_short (suc (suc zero)) (c ∷ s) small h = elim (Bool-cases (c == newline)) [
  | inl e ↦ absurd (ground arith)
  | inr e ↦ simp (e, squeeze) (ap (◌∷◌ c) (squeeze_of_short 0 s (omega arith) (ground arith)))
]
squeeze_of_short (suc (suc (suc run))) (c ∷ s) small h = absurd (omega arith)

replicate_shift :
    (run : ℕ) (s : Text)
    → replicate run newline ++ newline ∷ s ≡ newline ∷ replicate run newline ++ s
replicate_shift zero s = refl
replicate_shift (suc run) s = ap (◌∷◌ newline) (replicate_shift run s)

contains_same :
    (run c : ℕ) (s : Text)
    → (c == newline) ≡ true
    → contains three_newlines (replicate (suc run) newline ++ s) ≡ false
    → contains three_newlines (replicate run newline ++ c ∷ s) ≡ false
contains_same run c s e h =
    let same : c ≡ newline = ground arith in
    ap (λ d. contains three_newlines (replicate run newline ++ d ∷ s)) same
    ∙ ap (contains three_newlines) (replicate_shift run s)
    ∙ h

contains_other :
    (run c : ℕ) (s : Text)
    → run ≤ 2
    → (c == newline) ≡ false
    → contains three_newlines s ≡ false
    → contains three_newlines (replicate run newline ++ c ∷ s) ≡ false
unfolding contains has_prefix
contains_other zero c s small e h = ground arith
contains_other (suc zero) c s small e h = ground arith
contains_other (suc (suc zero)) c s small e h = ground arith
contains_other (suc (suc (suc run))) c s small e h = absurd (omega arith)

-- After squeezing no three newlines stand in a row.
contains-squeeze :
    (run : ℕ) (s : Text)
    → run ≤ 2
    → contains three_newlines (replicate run newline ++ squeeze run s) ≡ false
unfolding squeeze contains has_prefix
contains-squeeze zero [] small = refl
contains-squeeze (suc zero) [] small = refl
contains-squeeze (suc (suc zero)) [] small = refl
contains-squeeze zero (c ∷ s) small = elim (Bool-cases (c == newline)) [
  | inl e ↦
      (let h = contains-squeeze 1 s (omega arith) in
        simp (e, squeeze) (contains_same 0 c (squeeze 1 s) e h))
  | inr e ↦
      (let h = contains-squeeze 0 s (omega arith) in
        simp (e, squeeze) (contains_other 0 c (squeeze 0 s) (omega arith) e h))
]
contains-squeeze (suc zero) (c ∷ s) small = elim (Bool-cases (c == newline)) [
  | inl e ↦
      (let h = contains-squeeze 2 s (omega arith) in
        simp (e, squeeze) (contains_same 1 c (squeeze 2 s) e h))
  | inr e ↦
      (let h = contains-squeeze 0 s (omega arith) in
        simp (e, squeeze) (contains_other 1 c (squeeze 0 s) (omega arith) e h))
]
contains-squeeze (suc (suc zero)) (c ∷ s) small = elim (Bool-cases (c == newline)) [
  | inl e ↦ (let h = contains-squeeze 2 s (omega arith) in simp (e, squeeze) h)
  | inr e ↦
      (let h = contains-squeeze 0 s (omega arith) in
        simp (e, squeeze) (contains_other 2 c (squeeze 0 s) (omega arith) e h))
]
contains-squeeze (suc (suc (suc run))) s small = absurd (omega arith)

length-replace_from :
    (skip : ℕ) (s : Text)
    → length (replace_from three_newlines two_newlines skip s) ≤ length s - skip
unfolding replace_from
length-replace_from skip [] = omega arith
length-replace_from (suc skip) (c ∷ s) = omega (arith, length-replace_from skip s)
length-replace_from zero (c ∷ s) = elim (three-cases (c ∷ s)) [
  | inl e ↦ simp (e, replace_from) (omega (arith, length-replace_from zero s))
  | inr (rest, e, same) ↦
      simp (e, replace_from) (omega (arith, length-replace_from 2 s, ap (length {A = ℕ}) same))
]

-- A round of the loop shortens the text.
length-replace_lt :
    (s : Text)
    → contains three_newlines s ≡ true
    → length (replace_all three_newlines two_newlines s) < length s
unfolding replace_from contains
length-replace_lt [] h = absurd (ground arith)
length-replace_lt (c ∷ s) h = elim (three-cases (c ∷ s)) [
  | inl e ↦
      (let later : contains three_newlines s ≡ true = ground arith in
        simp (e, replace_from) (omega (arith, length-replace_lt s later)))
  | inr (rest, e, same) ↦
      simp (e, replace_from) (omega (arith, length-replace_from 2 s, ap (length {A = ℕ}) same))
]

collapse-squeeze : (fuel : ℕ) (s : Text) → length s ≤ fuel → collapse fuel s ≡ squeeze 0 s
unfolding collapse squeeze
collapse-squeeze zero [] enough = refl
collapse-squeeze zero (c ∷ s) enough = absurd (omega arith)
collapse-squeeze (suc fuel) s enough = elim (Bool-cases (contains three_newlines s)) [
  | inl e ↦
      simp (e, collapse)
        (collapse-squeeze fuel (replace_all three_newlines two_newlines s)
            (omega (arith, length-replace_lt s e))
          ∙ squeeze-replace_from 0 0 s)
  | inr e ↦ simp (e, collapse) (sym (squeeze_of_short 0 s (omega arith) e))
]

-- With as many rounds as the text is long, or more, the loop ends because no three newlines stand in
-- a row any more; what it leaves is the text of which every run of newlines is cut to two.
pub collapse_ends :
    (fuel : ℕ) (s : Text)
    → length s ≤ fuel
    → (contains three_newlines (collapse fuel s) ≡ false) × (collapse fuel s ≡ squeeze 0 s)
collapse_ends fuel s enough =
    let squeezed = collapse-squeeze fuel s enough in
    (rw squeezed (contains-squeeze 0 s (omega arith)), squeezed)
