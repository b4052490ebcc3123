-- ===== src/Bundle/Paragraphs.antt =====
-- `splitParagraphs` of internal/bundle/bundle.go, with the loop that collapses newlines.
pub mod Collapse
use eidetic_daemon.Prelude.{
  ℕ, zero, suc, ◌-◌, ◌||◌, Bool, true, false, List, [], ◌∷◌, ◌++◌, length, has_prefix, is_empty,
  push_front, contains,
}
use eidetic_daemon.TextSearch.{Text}

abbrev pub newline : ℕ
newline = 10

abbrev pub two_newlines : Text
two_newlines = newline ∷ newline ∷ []

abbrev pub three_newlines : Text
three_newlines = newline ∷ two_newlines

-- strings.ReplaceAll of a text that is not empty; `skip` runes still belong to the last match.
unfoldable pub replace_from : Text → Text → ℕ → Text → Text
unfolding has_prefix
replace_from old new skip [] = []
replace_from old new (suc skip) (c ∷ s) = replace_from old new skip s
replace_from old new zero (c ∷ s) = elim (has_prefix old (c ∷ s)) [
  | true ↦ new ++ replace_from old new (length old - 1) s
  | false ↦ c ∷ replace_from old new zero s
]

abbrev pub replace_all : Text → Text → Text → Text
replace_all old new s = replace_from old new zero s

-- strings.Split by a text that is not empty.
unfoldable pub split_from : Text → ℕ → Text → List Text
unfolding has_prefix
split_from sep skip [] = [] ∷ []
split_from sep (suc skip) (c ∷ s) = split_from sep skip s
split_from sep zero (c ∷ s) = elim (has_prefix sep (c ∷ s)) [
  | true ↦ [] ∷ split_from sep (length sep - 1) s
  | false ↦ push_front c (split_from sep zero s)
]

-- The loop, on fuel: one unit for each round.
unfoldable pub collapse : ℕ → Text → Text
unfolding contains replace_from
collapse zero s = s
collapse (suc fuel) s = elim (contains three_newlines s) [
  | true ↦ collapse fuel (replace_all three_newlines two_newlines s)
  | false ↦ s
]

unfoldable pub split_paragraphs : Text → List Text
unfolding collapse split_from replace_from
split_paragraphs body =
    let s = replace_all (0x0d ∷ newline ∷ []) (newline ∷ []) body in
    split_from two_newlines zero (collapse (length s) s)
