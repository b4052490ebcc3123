-- ===== src/Api/Export/Cursor.antt =====
-- How the cursor of the export selects rows, and what moving it to a row of a page selects.
use eidetic_daemon.Prelude.{
  ltb_ℤ, pos_part, neg_part, ◌⊎◌, ◌+◌, ℤ, pos, ◌<ℤ◌, eqb_ℤ, arith, String, str_eq, ◌≡◌, refl, sym,
  ◌∙◌, ap, Bool, true, false, not, ◌&&◌, ◌||◌, Bool-cases, inl, inr,
}
use eidetic_daemon.Store.Schema.{Row}
use eidetic_daemon.Store.Read.{past, surface_is, ts_below, where_, holds, is_set, after_clauses}
use eidetic_daemon.Store.Clauses.{part, where-only_if, where-only_if_last}
use eidetic_daemon.Store.Paging.{past_row}

-- The rows behind a cursor.
abbrev pub selected : String → ℤ → ℤ → ℤ → Row → Bool
selected surface cursor_ts cursor_id before =
    where_ (after_clauses surface cursor_ts cursor_id before)

abbrev pub cursor_part : ℤ → ℤ → Row → Bool
cursor_part ct ci = part (is_set ct || is_set ci) (past ct ci)

-- a cursor and a row that is past it, as orders of numbers
Lex : ℤ → ℤ → ℤ → ℤ → Type 0
Lex a b c d = (a <ℤ c) ⊎ ((pos_part a + neg_part c ≡ pos_part c + neg_part a) × (b <ℤ d))

lex : ℤ → ℤ → ℤ → ℤ → Bool
lex a b c d = ltb_ℤ a c || (eqb_ℤ c a && ltb_ℤ b d)

lex→Lex : (a b c d : ℤ) → lex a b c d ≡ true → Lex a b c d
unfolding lex Lex
lex→Lex a b c d h = elim (Bool-cases (ltb_ℤ a c)) [
  | inl e ↦ inl (ground arith)
  | inr e ↦ inr (ground arith, ground arith)
]

Lex→lex : (a b c d : ℤ) → Lex a b c d → lex a b c d ≡ true
unfolding lex Lex
Lex→lex a b c d (inl h) = ground arith
Lex→lex a b c d (inr h) = ground arith

Lex-trans : (a b c d e f : ℤ) → Lex a b c d → Lex c d e f → Lex a b e f
unfolding Lex
Lex-trans a b c d e f (inl h) (inl k) = inl (omega arith)
Lex-trans a b c d e f (inl h) (inr k) = inl (omega arith)
Lex-trans a b c d e f (inr h) (inl k) = inl (omega arith)
Lex-trans a b c d e f (inr h) (inr k) = inr (omega arith, omega arith)

past_trans :
    (t i : ℤ) (r x : Row)
    → holds (past t i) r ≡ true
    → past_row r x ≡ true
    → holds (past t i) x ≡ true
unfolding lex
past_trans t i r x h k =
    Lex→lex t i x.ts x.id
      (Lex-trans t i r.ts r.id x.ts x.id (lex→Lex t i r.ts r.id h) (lex→Lex r.ts r.id x.ts x.id k))

is_set_id : (t i : ℤ) → pos 0 <ℤ i → (is_set t || is_set i) ≡ true
is_set_id t i h = ground arith

and_absorb : (a b : Bool) → (b ≡ true → a ≡ true) → b ≡ (a && b)
and_absorb a true h = ground (arith, h refl)
and_absorb true false h = refl
and_absorb false false h = refl

still_past :
    (b : Bool) (t i : ℤ) (r x : Row)
    → part b (past t i) r ≡ true
    → past_row r x ≡ true
    → part b (past t i) x ≡ true
still_past true t i r x h k = past_trans t i r x h k
still_past false t i r x h k = refl

cursor_moved :
    (ct ci : ℤ) (r x : Row)
    → pos 0 <ℤ r.id
    → cursor_part ct ci r ≡ true
    → cursor_part r.ts r.id x ≡ (cursor_part ct ci x && past_row r x)
cursor_moved ct ci r x p h =
    ap (λ b. part b (past r.ts r.id) x) (is_set_id r.ts r.id p)
    ∙ and_absorb (cursor_part ct ci x) (past_row r x)
        (still_past (is_set ct || is_set ci) ct ci r x h)

abbrev pub on_part : String → Row → Bool
on_part surface = part (not (str_eq surface "")) (surface_is surface)

abbrev pub before_part : ℤ → Row → Bool
before_part before = part (is_set before) (ts_below before)

pub selected_parts :
    (surface : String) (ct ci before : ℤ) (x : Row)
    → selected surface ct ci before x
      ≡ (on_part surface x && (cursor_part ct ci x && before_part before x))
selected_parts surface ct ci before x =
    where-only_if (not (str_eq surface "")) (surface_is surface) _ x
    ∙ ap (λ b. on_part surface x && b)
        (where-only_if (is_set ct || is_set ci) (past ct ci) _ x
          ∙ ap (λ b. cursor_part ct ci x && b)
              (where-only_if_last (is_set before) (ts_below before) x))

and_middle : (a b c d : Bool) → (a && ((b && d) && c)) ≡ ((a && (b && c)) && d)
and_middle a b c d = ground arith

middle_true : (a b c : Bool) → (a && (b && c)) ≡ true → b ≡ true
middle_true a b c h = ground arith

-- Moving the cursor to a selected row leaves the selected rows that are past it.
pub next_selected :
    (surface : String) (ct ci before : ℤ) (r x : Row)
    → pos 0 <ℤ r.id
    → selected surface ct ci before r ≡ true
    → selected surface r.ts r.id before x ≡ (selected surface ct ci before x && past_row r x)
next_selected surface ct ci before r x p h =
    let c : cursor_part ct ci r ≡ true =
      middle_true (on_part surface r) (cursor_part ct ci r) (before_part before r)
        (sym (selected_parts surface ct ci before r) ∙ h) in
    selected_parts surface r.ts r.id before x
    ∙ ap (λ b. on_part surface x && (b && before_part before x)) (cursor_moved ct ci r x p c)
    ∙ and_middle (on_part surface x) (cursor_part ct ci x) (before_part before x) (past_row r x)
    ∙ ap (λ b. b && past_row r x) (sym (selected_parts surface ct ci before x))
