-- ===== src/Store/Search/Phrase.antt =====
-- The quoted query is one phrase of FTS5, with the text of the query.
use eidetic_daemon.Prelude.{
  ◌==◌, arith, ◌≡◌, refl, sym, ap, Bool-cases, inl, inr, Option, none, some, [], ◌∷◌, ◌++◌,
  if◌then◌else◌,
}
use mathlib.Core.Option
use eidetic_daemon.Engram.{Bytes}
use eidetic_daemon.Store.Search.{double_quotes, quote_phrase}

-- How FTS5 reads a string behind its opening quote: two quotes are one in the text, a single one ends
-- it. The text, and what comes after.
mutual
  pub text_behind : Bytes → Option (Bytes × Bytes)
  text_behind [] = none
  text_behind (c ∷ s) =
      if c == b'"' then after_quote s else Option.map (λ r. (c ∷ r.0, r.1)) (text_behind s)

  pub after_quote : Bytes → Option (Bytes × Bytes)
  after_quote [] = some ([], [])
  after_quote (c ∷ s) =
      if c == b'"' then Option.map (λ r. (b'"' ∷ r.0, r.1)) (text_behind s) else some ([], c ∷ s)

unfoldable pub read_phrase : Bytes → Option (Bytes × Bytes)
read_phrase [] = none
read_phrase (c ∷ s) = if c == b'"' then text_behind s else none

text_behind-double_quotes : (q : Bytes) → text_behind (double_quotes q ++ b'"' ∷ []) ≡ some (q, [])
unfolding double_quotes text_behind after_quote
text_behind-double_quotes [] = refl
text_behind-double_quotes (c ∷ q) = elim (Bool-cases (c == b'"')) [
  | inl e ↦
      let quote : c ≡ b'"' = ground (arith, e) in
      rw (e, text_behind-double_quotes q) (ap (λ k. some (k ∷ q, [])) (sym quote))
  | inr e ↦ rw (e, e, text_behind-double_quotes q) refl
]

-- FTS5 reads the quoted query as a phrase with exactly the text of the query and nothing after it, so
-- none of its operators applies.
pub read_phrase-quote_phrase : (q : Bytes) → read_phrase (quote_phrase q) ≡ some (q, [])
unfolding read_phrase quote_phrase
read_phrase-quote_phrase q = text_behind-double_quotes q
