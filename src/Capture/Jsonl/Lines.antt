-- ===== src/Capture/Jsonl/Lines.antt =====
-- What the pieces of `bytes` and `strings` do to the lines of a buffer.
use eidetic_daemon.Prelude.{
  ℕ, suc, ◌==◌, ◌&&◌, arith, ◌≡◌, refl, sym, ◌∙◌, ap, ap₂, true, false, none, some, Option-cases,
  Bool-cases, inl, inr, List, [], ◌∷◌, ◌++◌, take, drop, replicate, All, is_empty, split_on,
  push_front, trim_right, last_index, ends_with, if◌then◌else◌,
}
use eidetic_daemon.Engram.{Bytes}

-- A text without the byte `b`.
abbrev pub Lacks : ℕ → Bytes → Type 0
Lacks b = All (λ c. (c == b) ≡ false)

-- Lines, each with its terminator.
unfoldable pub unlines : ℕ → List Bytes → Bytes
unlines b [] = []
unlines b (l ∷ ls) = l ++ (b ∷ unlines b ls)

unlines-push_front :
    (b c : ℕ) (l : Bytes) (ls : List Bytes)
    → unlines b (push_front c (l ∷ ls)) ≡ c ∷ unlines b (l ∷ ls)
unfolding unlines
unlines-push_front b c l ls = refl

split_some : (b : ℕ) (s : Bytes) → (l : Bytes) × (ls : List Bytes) × (split_on b s ≡ l ∷ ls)
unfolding split_on
split_some b [] = ([], [], refl)
split_some b (c ∷ s) = elim (Bool-cases (c == b)) [
  | inl e ↦ ([], split_on b s, rw e refl)
  | inr e ↦ let (l, ls, h) = split_some b s in (c ∷ l, ls, rw (e, h) refl)
]

pub unlines-split_on : (b : ℕ) (s : Bytes) → unlines b (split_on b s) ≡ s ++ b ∷ []
unfolding unlines split_on
unlines-split_on b [] = refl
unlines-split_on b (c ∷ s) = elim (Bool-cases (c == b)) [
  | inl e ↦ rw (e, unlines-split_on b s) (ground arith)
  | inr e ↦
      let (l, ls, h) = split_some b s in
      rw (e, h) (ap (◌∷◌ c) (ap (unlines b) (sym h) ∙ unlines-split_on b s))
]

pub split_on-Lacks : (b : ℕ) (s : Bytes) → All (Lacks b) (split_on b s)
unfolding split_on
split_on-Lacks b [] = (tt, tt)
split_on-Lacks b (c ∷ s) = elim (Bool-cases (c == b)) [
  | inl e ↦ rw (e, split_on) (tt, split_on-Lacks b s)
  | inr e ↦
      let (l, ls, h) = split_some b s in
      let (hl, hls) = rw h at (split_on-Lacks b s) in rw (e, h, split_on) ((e, hl), hls)
]

trim_step :
    (b c : ℕ) (t u : Bytes) (k : ℕ)
    → u ≡ t ++ (b ∷ replicate k b)
    → (j : ℕ) × (c ∷ u ≡ (if is_empty t && c == b then [] else c ∷ t) ++ (b ∷ replicate j b))
trim_step b c [] u k e = elim (Bool-cases (c == b)) [
  | inl same ↦ let eq : c ≡ b = ground arith in (suc k, rw same (ap₂ ◌∷◌ eq e))
  | inr other ↦ (k, rw other (ap (◌∷◌ c) e))
]
trim_step b c (x ∷ t) u k e = (k, ap (◌∷◌ c) e)

-- A text that ends with a byte is its trimmed text, then the byte at least once.
pub trim_right-replicate :
    (b : ℕ) (s : Bytes)
    → ends_with b s ≡ true
    → (k : ℕ) × (s ≡ trim_right b s ++ (b ∷ replicate k b))
unfolding ends_with trim_right
trim_right-replicate b [] h = absurd (ground arith)
trim_right-replicate b (c ∷ []) h = (0, ground arith)
trim_right-replicate b (c ∷ d ∷ s) h =
    let (k, e) = trim_right-replicate b (d ∷ s) h in
    trim_step b c (trim_right b (d ∷ s)) (d ∷ s) k e

pub last_index-none : (b : ℕ) (s : Bytes) → last_index b s ≡ none → Lacks b s
unfolding last_index
last_index-none b [] h = tt
last_index-none b (c ∷ s) h = elim (Option-cases (last_index b s)) [
  | inl e ↦ (ground arith, last_index-none b s e)
  | inr (i, e) ↦ absurd (ground arith)
]

ends_with-cons : (b c : ℕ) (t : Bytes) → ends_with b t ≡ true → ends_with b (c ∷ t) ≡ true
unfolding ends_with
ends_with-cons b c [] h = absurd (ground arith)
ends_with-cons b c (d ∷ t) h = h

pub last_index-some :
    (b : ℕ) (s : Bytes) (i : ℕ)
    → last_index b s ≡ some i
    → (ends_with b (take (suc i) s) ≡ true) × Lacks b (drop (suc i) s)
unfolding last_index
last_index-some b [] i h = cc
last_index-some b (c ∷ s) i h = elim (Option-cases (last_index b s)) [
  | inl e ↦
      let z : i ≡ 0 = ground arith in rw z (unfold ends_with in ground arith, last_index-none b s e)
  | inr (j, e) ↦
      let z : i ≡ suc j = ground arith in
      let (ends, lacks) = last_index-some b s j e in
      rw z (ends_with-cons b c (take (suc j) s) ends, lacks)
]
