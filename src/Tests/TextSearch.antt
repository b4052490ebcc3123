-- ===== src/Tests/TextSearch.antt =====
-- Questions and their queries.
use eidetic_daemon.Prelude.{codes, ◌≡◌, refl, List, if◌then◌else◌, is_empty, All, true}
use eidetic_daemon.TextSearch.{is_word_rune, lower, member, join, question_to_fts, Text}
use eidetic_daemon.TextSearch.Keywords.{
  is_keyword, IsPlain, keywords_of, question_to_fts-eq-join, question_to_fts-IsPlain,
}

broken_build : question_to_fts (codes "Why did the CI build break?") ≡ codes "build OR break"
unfolding question_to_fts is_word_rune lower member join
broken_build = refl

only_stopwords : question_to_fts (codes "is it?") ≡ codes "is it?"
unfolding question_to_fts is_word_rune lower member join
only_stopwords = refl

question_to_fts-eq-join_example : question_to_fts (codes "NEAR(a b)") ≡ (
    if is_empty (keywords_of (codes "NEAR(a b)"))
    then codes "NEAR(a b)"
    else join (codes " OR ") (keywords_of (codes "NEAR(a b)")))
question_to_fts-eq-join_example = question_to_fts-eq-join (codes "NEAR(a b)")

question_to_fts-IsPlain_example :
    (keywords : List Text) × All (λ t. IsPlain t × (is_keyword t ≡ true)) keywords
    × (question_to_fts (codes "NEAR(a b)")
        ≡ (if is_empty keywords then codes "NEAR(a b)" else join (codes " OR ") keywords))
question_to_fts-IsPlain_example = question_to_fts-IsPlain (codes "NEAR(a b)")
