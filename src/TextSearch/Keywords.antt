-- ===== src/TextSearch/Keywords.antt =====
-- Which words of a question the query asks for.
use eidetic_daemon.Prelude.{
  ℕ, ltb, leb, ◌==◌, ◌&&◌, ◌||◌, not, arith, ◌≡◌, refl, sym, ◌∙◌, ap, Bool, Bool-cases, inl, inr,
  true, false, List, [], ◌∷◌, ◌++◌, append_assoc, append-nil, map, length, filter, All, All-append,
  is_empty, if◌then◌else◌, codes,
}
use eidetic_daemon.TextSearch.{
  Text, member, stopwords, is_word_rune, lower, flush, scan, join, question_to_fts,
}

-- The longest runs of word runes, with the empty ones between two runes that belong to no word.
unfoldable pub words : Text → Text → List Text
words cur [] = cur ∷ []
words cur (r ∷ rs) =
    let more = words (cur ++ r ∷ []) rs in
    let next = words [] rs in if is_word_rune r then more else cur ∷ next

-- A word that is asked for: of three runes or more, and not a stop word.
abbrev pub is_keyword : Text → Bool
is_keyword t = leb 3 (length t) && not (member t stopwords)

flush-eq-filter :
    (keywords : List Text) (cur : Text)
    → flush keywords cur ≡ keywords ++ filter is_keyword (map (map lower) (cur ∷ []))
unfolding flush
flush-eq-filter keywords [] = sym (append-nil keywords)
flush-eq-filter keywords (r ∷ rs) =
    let t = map lower (r ∷ rs) in
    elim (Bool-cases (ltb (length t) 3)) [
      | inl e ↦
          let few : leb 3 (length t) ≡ false = ground arith in
          rw (e, few) (sym (append-nil keywords))
      | inr e ↦
          let enough : leb 3 (length t) ≡ true = ground arith in
          elim (Bool-cases (member t stopwords)) [
            | inl stop ↦ rw (e, enough, stop) (sym (append-nil keywords))
            | inr go ↦ rw (e, enough, go) refl
          ]
    ]

keep_first :
    (t : Text) (ts : List Text)
    → filter is_keyword (t ∷ []) ++ filter is_keyword ts ≡ filter is_keyword (t ∷ ts)
keep_first t ts = elim (Bool-cases (is_keyword t)) [ inl e ↦ rw e refl | inr e ↦ rw e refl ]

scan-eq-words :
    (keywords : List Text) (cur question : Text)
    → scan keywords cur question
      ≡ keywords ++ filter is_keyword (map (map lower) (words cur question))
unfolding scan words
scan-eq-words keywords cur [] = flush-eq-filter keywords cur
scan-eq-words keywords cur (r ∷ rs) = elim (Bool-cases (is_word_rune r)) [
  | inl e ↦ rw e (scan-eq-words keywords (cur ++ r ∷ []) rs)
  | inr e ↦ rw e (
      scan-eq-words (flush keywords cur) [] rs
      ∙ ap (λ ks. ks ++ filter is_keyword (map (map lower) (words [] rs)))
          (flush-eq-filter keywords cur)
      ∙ append_assoc keywords _ _
      ∙ ap (◌++◌ keywords) (keep_first (map lower cur) (map (map lower) (words [] rs))))
]

abbrev pub keywords_of : Text → List Text
keywords_of question = filter is_keyword (map (map lower) (words [] question))

-- The query joins by OR, in order, the words of the question in lower case that have three runes or
-- more and are no stop words; a question without such a word is its own query.
pub question_to_fts-eq-join :
    (question : Text)
    → question_to_fts question ≡ (
        if is_empty (keywords_of question)
        then question
        else join (codes " OR ") (keywords_of question))
unfolding question_to_fts
question_to_fts-eq-join question = rw (scan-eq-words [] [] question) refl

-- a-z, 0-9 or _
abbrev pub is_plain_rune : ℕ → Bool
is_plain_rune r = (leb 0x61 r && leb r 0x7a) || ((leb 0x30 r && leb r 0x39) || (r == 0x5f))

lower-plain : (r : ℕ) → is_word_rune r ≡ true → is_plain_rune (lower r) ≡ true
unfolding is_word_rune lower
lower-plain r h = ground arith

abbrev IsWord : Text → Type 0
IsWord = All (λ r. is_word_rune r ≡ true)

abbrev pub IsPlain : Text → Type 0
IsPlain = All (λ r. is_plain_rune r ≡ true)

words-IsWord : (cur question : Text) → IsWord cur → All IsWord (words cur question)
unfolding words
words-IsWord cur [] h = (h, tt)
words-IsWord cur (r ∷ rs) h = elim (Bool-cases (is_word_rune r)) [
  | inl e ↦ rw (e, words) (words-IsWord (cur ++ r ∷ []) rs (All-append _ cur (r ∷ []) h (e, tt)))
  | inr e ↦ rw (e, words) (h, words-IsWord [] rs tt)
]

map-lower-IsPlain : (t : Text) → IsWord t → IsPlain (map lower t)
map-lower-IsPlain [] h = tt
map-lower-IsPlain (r ∷ rs) h = (lower-plain r h.0, map-lower-IsPlain rs h.1)

keywords-IsPlain :
    (ts : List Text)
    → All IsWord ts
    → All (λ t. IsPlain t × (is_keyword t ≡ true)) (filter is_keyword (map (map lower) ts))
keywords-IsPlain [] h = tt
keywords-IsPlain (t ∷ ts) h = elim (Bool-cases (is_keyword (map lower t))) [
  | inl e ↦ rw e ((map-lower-IsPlain t h.0, e), keywords-IsPlain ts h.1)
  | inr e ↦ rw e (keywords-IsPlain ts h.1)
]

-- The query is the question itself, or texts joined by OR, each of three or more of a-z, 0-9 and _ and
-- not a stop word.
pub question_to_fts-IsPlain :
    (question : Text)
    → (keywords : List Text) × All (λ t. IsPlain t × (is_keyword t ≡ true)) keywords
      × (question_to_fts question
          ≡ (if is_empty keywords then question else join (codes " OR ") keywords))
question_to_fts-IsPlain question = (
  keywords_of question,
  keywords-IsPlain (words [] question) (words-IsWord [] question tt),
  question_to_fts-eq-join question,
)
