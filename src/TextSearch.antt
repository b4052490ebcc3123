-- ===== src/TextSearch.antt =====
-- `QuestionToFTS` of internal/textsearch/textsearch.go: a question in natural language as a query of
-- FTS5. A text is the list of its runes.
pub mod Keywords
pub mod Same
use eidetic_daemon.Prelude.{
  ℕ, ◌+◌, String, codes, ltb, leb, ◌==◌, ◌&&◌, ◌||◌, not, Bool, true, false, List, [], ◌∷◌, ◌++◌,
  map, length, is_empty, if◌then◌else◌,
}

abbrev pub Text : Type 0
Text = List ℕ

unfoldable pub same_text : Text → Text → Bool
same_text [] [] = true
same_text (a ∷ s) (b ∷ t) = a == b && same_text s t
same_text _ _ = false

unfoldable pub member : Text → List Text → Bool
unfolding same_text
member t [] = false
member t (u ∷ us) = same_text t u || member t us

abbrev pub stopwords : List Text
stopwords = map codes (
    "a" ∷ "an" ∷ "the" ∷ "is" ∷ "was" ∷ "were" ∷ "are" ∷ "be" ∷ "been" ∷ "being" ∷ "i" ∷ "me" ∷ "my"
    ∷ "we" ∷ "our" ∷ "you" ∷ "your" ∷ "they" ∷ "them" ∷ "their" ∷ "it" ∷ "its" ∷ "this" ∷ "that"
    ∷ "these" ∷ "those" ∷ "what" ∷ "when" ∷ "where" ∷ "why" ∷ "how" ∷ "who" ∷ "which" ∷ "do" ∷ "did"
    ∷ "does" ∷ "have" ∷ "had" ∷ "has" ∷ "having" ∷ "and" ∷ "or" ∷ "but" ∷ "if" ∷ "then" ∷ "else"
    ∷ "of" ∷ "to" ∷ "in" ∷ "on" ∷ "for" ∷ "with" ∷ "from" ∷ "by" ∷ "at" ∷ "as" ∷ "about" ∷ "into"
    ∷ "over" ∷ "out" ∷ "up" ∷ "down" ∷ "again" ∷ "anything" ∷ "something" ∷ "find" ∷ "tell" ∷ "show"
    ∷ "give" ∷ "ask" ∷ "any" ∷ "some" ∷ "all" ∷ "each" ∷ "every" ∷ [])

-- a-z, A-Z, 0-9 or _
unfoldable pub is_word_rune : ℕ → Bool
is_word_rune r =
    (leb 0x61 r && leb r 0x7a)
    || ((leb 0x41 r && leb r 0x5a) || ((leb 0x30 r && leb r 0x39) || (r == 0x5f)))

-- strings.ToLower on a rune of a word
unfoldable pub lower : ℕ → ℕ
lower r = if leb 0x41 r && leb r 0x5a then r + 32 else r

-- The closure `flush`: the keywords with the word in progress.
unfoldable pub flush : List Text → Text → List Text
flush keywords cur =
    let t = map lower cur in
    if is_empty cur
    then keywords
    else if ltb (length t) 3
    then keywords
    else if member t stopwords
    then keywords
    else keywords ++ t ∷ []

-- The loop over the runes, and the flush after it.
unfoldable pub scan : List Text → Text → Text → List Text
unfolding flush
scan keywords cur [] = flush keywords cur
scan keywords cur (r ∷ rs) =
    let more = scan keywords (cur ++ r ∷ []) rs in
    let next = scan (flush keywords cur) [] rs in if is_word_rune r then more else next

-- strings.Join
unfoldable pub join : Text → List Text → Text
join sep [] = []
join sep (t ∷ []) = t
join sep (t ∷ u ∷ us) = t ++ (sep ++ join sep (u ∷ us))

unfoldable pub question_to_fts : Text → Text
unfolding scan
question_to_fts question =
    let keywords = scan [] [] question in
    if is_empty keywords then question else join (codes " OR ") keywords
