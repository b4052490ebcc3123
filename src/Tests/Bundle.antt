-- ===== src/Tests/Bundle.antt =====
-- Bundles of two sections, of paragraphs, and of lines.
use eidetic_daemon.Prelude.{
  contains, ℤ, pos, ◌+ℤ◌, ◌≡◌, refl, map, codes, arith, Option, some, [], ◌∷◌, ◌++◌, All,
  has_prefix, split_on, false,
}
use eidetic_daemon.TextSearch.{Text}
use eidetic_daemon.Api.Params.{is_space, trim_left, trim_end, trim_space}
use eidetic_daemon.Tests.Fixtures.{note}
use eidetic_daemon.Bundle.{
  auto, Defaults, Decoded, utf8_rune, utf8, scan_lines, sniff_lines, sniff, paragraphs, parse_text,
  flush_section, sections_of, sections, parse_markdown, rows, parse_ndjson, parse_body,
  parse_bundle,
}
use eidetic_daemon.Bundle.Paragraphs.{
  three_newlines, replace_from, split_from, collapse, split_paragraphs,
}
use eidetic_daemon.Bundle.Paragraphs.Collapse.{squeeze, collapse_ends}
use eidetic_daemon.Bundle.Ready.{Ready, engrams_of, parse_bundle-Ready}

abbrev def : Defaults
def = record { surface = "import"; base_ts = pos 100 }

abbrev one_row : Text → Option Decoded
one_row line = some (record { row = note; payload = line })

abbrev two_sections : Text
two_sections = codes "# A" ++ 10 ∷ codes "## B" ++ 10 ∷ []

headed :
    map {B = ℤ × Text}
      (λ e. (e.ts, e.payload))
      (engrams_of (parse_bundle one_row (pos 0) (some two_sections) auto def))
    ≡ (pos 100, codes "# A") ∷ (pos 101, codes "## B") ∷ []
unfolding parse_bundle parse_body sniff sniff_lines scan_lines utf8 utf8_rune parse_ndjson
    parse_markdown sections sections_of flush_section parse_text paragraphs split_paragraphs
    collapse replace_from split_from contains rows trim_space trim_left trim_end is_space has_prefix
    split_on ◌+ℤ◌
headed = refl

parse_bundle-Ready_example :
    All Ready (engrams_of (parse_bundle one_row (pos 0) (some two_sections) auto def))
parse_bundle-Ready_example =
    parse_bundle-Ready one_row (pos 0) (some two_sections) auto def (omega arith)

abbrev spaced : Text
spaced = 65 ∷ 10 ∷ 10 ∷ 10 ∷ 10 ∷ 10 ∷ 66 ∷ []

collapse_ends_example :
    (contains three_newlines (collapse 7 spaced) ≡ false) × (collapse 7 spaced ≡ squeeze 0 spaced)
collapse_ends_example = collapse_ends 7 spaced (omega arith)

collapsed : squeeze 0 spaced ≡ 65 ∷ 10 ∷ 10 ∷ 66 ∷ []
unfolding squeeze
collapsed = refl
