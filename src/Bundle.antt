-- ===== src/Bundle.antt =====
-- internal/bundle/bundle.go: a file of one of three formats as engrams. A body is valid UTF-8 and
-- stands as the list of its runes; what encoding/json makes of a line is a parameter.
pub mod Paragraphs
pub mod Ready
use eidetic_daemon.Prelude.{
  ℕ, ℤ, pos, suc, ◌+ℤ◌, eqb_ℤ, ◌+◌, ◌/◌, ◌%◌, ltb, leb, ◌==◌, ◌||◌, Bool, true, false, String,
  str_eq, Option, none, some, List, [], ◌∷◌, ◌++◌, length, codes, has_prefix, is_empty, split_on,
  trim_right, last?, if◌then◌else◌,
}
use eidetic_daemon.Engram.{Engram, Bytes, text}
use eidetic_daemon.TextSearch.{Text}
use eidetic_daemon.Api.Params.{trim_space}
use eidetic_daemon.Bundle.Paragraphs.{newline, split_paragraphs}

pub data Format : Type 0 where
  auto ndjson markdown plain_text : Format
  unknown : Text → Format

pub record Defaults : Type 0 where
  pub surface : String
  pub base_ts : ℤ

-- Why a row was dropped, with its number from 1.
pub data Skipped : Type 0 where
  bad_json empty_payload empty_section empty_paragraph : ℕ → Skipped
  scan_error : Skipped

-- The `Result` of the source.
pub record Parsed : Type 0 where
  pub engrams : List Engram
  pub skipped : List Skipped
  pub detected : Format

pub data Error : Type 0 where
  surface_required read_failed : Error
  unknown_format : Text → Error

pub data Result : Type 0 where
  ok : Parsed → Result
  err : Error → Result

-- The bytes of a rune.
unfoldable pub utf8_rune : ℕ → Bytes
utf8_rune r =
    if ltb r 0x80
    then r ∷ []
    else if ltb r 0x800
    then (0xc0 + r / 64) ∷ (0x80 + r % 64) ∷ []
    else if ltb r 0x10000
    then (0xe0 + r / 4096) ∷ (0x80 + r / 64 % 64) ∷ (0x80 + r % 64) ∷ []
    else (0xf0 + r / 262144) ∷ (0x80 + r / 4096 % 64) ∷ (0x80 + r / 64 % 64) ∷ (0x80 + r % 64) ∷ []

unfoldable pub utf8 : Text → Bytes
unfolding utf8_rune
utf8 [] = []
utf8 (r ∷ t) = utf8_rune r ++ utf8 t

abbrev pub drop_empty_last : List Text → List Text
drop_empty_last [] = []
drop_empty_last ([] ∷ []) = []
drop_empty_last (l ∷ ls) = l ∷ drop_empty_last ls

-- bufio.ScanLines drops one carriage return at the end of a line.
abbrev pub drop_cr : Text → Text
drop_cr [] = []
drop_cr (c ∷ []) = if c == 0x0d then [] else c ∷ []
drop_cr (c ∷ d ∷ t) = c ∷ drop_cr (d ∷ t)

-- The lines up to the first whose bytes fill the buffer, and whether there is none of those.
unfoldable pub scan_lines : ℕ → List Text → List Text × Bool
unfolding utf8
scan_lines limit [] = ([], true)
scan_lines limit (l ∷ ls) =
    let (lines, whole) = scan_lines limit ls in
    if ltb (length (utf8 l)) limit then (drop_cr l ∷ lines, whole) else ([], false)

abbrev pub lines_of : ℕ → Text → List Text × Bool
lines_of limit body = scan_lines limit (drop_empty_last (split_on newline body))

abbrev pub is_header : Text → Bool
is_header line = has_prefix (codes "# ") line || has_prefix (codes "## ") line

unfoldable pub sniff_lines : List Text → Format
sniff_lines [] = plain_text
sniff_lines (l ∷ ls) =
    let line = trim_space l in
    let rest = sniff_lines ls in
    if is_empty line
    then rest
    else if has_prefix (codes "{") line
    then ndjson
    else if is_header line
    then markdown
    else plain_text

unfoldable pub sniff : Text → Format
unfolding scan_lines sniff_lines
sniff body = sniff_lines (lines_of 1048576 body).0

-- The engram of section or paragraph number `i`.
abbrev pub numbered : Defaults → ℕ → Text → Engram
numbered def i payload = record {
  id = pos 0;
  surface = def.surface;
  ts = def.base_ts +ℤ pos i;
  payload = utf8 payload;
  meta = text [];
  snippet = [];
}

abbrev pub with_engram : Engram → Parsed → Parsed
with_engram e p = record p { engrams = e ∷ p.engrams }

abbrev pub with_skipped : Skipped → Parsed → Parsed
with_skipped s p = record p { skipped = s ∷ p.skipped }

abbrev pub nothing : Format → Parsed
nothing format = record { engrams = []; skipped = []; detected = format }

unfoldable pub paragraphs : Defaults → ℕ → List Text → Parsed
unfolding utf8
paragraphs def i [] = nothing plain_text
paragraphs def i (p ∷ ps) =
    let t = trim_space p in
    let rest = paragraphs def (i + 1) ps in
    if is_empty t
    then with_skipped (empty_paragraph (i + 1)) rest
    else with_engram (numbered def i t) rest

unfoldable pub parse_text : Text → Defaults → Parsed
unfolding split_paragraphs paragraphs
parse_text body def = paragraphs def 0 (split_paragraphs body)

-- The closure `flush`.
unfoldable pub flush_section : Text → List Text → List Text
flush_section cur sections =
    let s = trim_space cur in if is_empty s then sections else sections ++ s ∷ []

-- The loop over the lines, and the flush after it.
unfoldable pub sections_of : List Text → Text → List Text → List Text
unfolding flush_section
sections_of sections cur [] = flush_section cur sections
sections_of sections cur (l ∷ ls) =
    let sections' = if is_header l then flush_section cur sections else sections in
    let cur' = if is_header l then [] else cur in
    sections_of sections' (cur' ++ l ++ newline ∷ []) ls

unfoldable pub sections : Defaults → ℕ → List Text → Parsed
unfolding utf8
sections def i [] = nothing markdown
sections def i (s ∷ ss) =
    let rest = sections def (i + 1) ss in
    if is_empty s
    then with_skipped (empty_section (i + 1)) rest
    else with_engram (numbered def i s) rest

unfoldable pub parse_markdown : Text → Defaults → Parsed
unfolding sections_of sections parse_text
parse_markdown body def =
    let found = sections_of [] [] (split_on newline body) in
    if leb (length found) 1 then parse_text body def else sections def 0 found

-- What a line decodes to: an engram, and its payload as runes.
pub record Decoded : Type 0 where
  pub row : Engram
  pub payload : Text

-- The defaults fill what row number `i` leaves out.
abbrev pub filled : Defaults → ℕ → Decoded → Engram
filled def i d = record d.row {
  surface = if str_eq d.row.surface "" then def.surface else d.row.surface;
  ts = if eqb_ℤ d.row.ts (pos 0) then def.base_ts +ℤ pos i else d.row.ts;
  payload = utf8 d.payload;
}

abbrev pub decoded_row : Defaults → ℕ → Option Decoded → Parsed → Parsed
decoded_row def i none rest = with_skipped (bad_json (i + 1)) rest
decoded_row def i (some d) rest =
    if is_empty (trim_space d.payload)
    then with_skipped (empty_payload (i + 1)) rest
    else with_engram (filled def i d) rest

module _ (decode : Text → Option Decoded) where
  -- The rows of the lines, after them what the scanner ended with.
  unfoldable pub rows : Defaults → ℕ → Bool → List Text → Parsed
  unfolding utf8
  rows def i true [] = nothing ndjson
  rows def i false [] = with_skipped scan_error (nothing ndjson)
  rows def i whole (l ∷ ls) =
      let raw = trim_space l in
      let rest = rows def (if is_empty raw then i else i + 1) whole ls in
      if is_empty raw then rest else decoded_row def i (decode raw) rest

  unfoldable pub parse_ndjson : Text → Defaults → Parsed
  unfolding scan_lines rows
  parse_ndjson body def = let (lines, whole) = lines_of 8388608 body in rows def 0 whole lines

  abbrev pub parse_as : Format → Text → Defaults → Result
  parse_as ndjson body def = ok (parse_ndjson body def)
  parse_as markdown body def = ok (parse_markdown body def)
  parse_as plain_text body def = ok (parse_text body def)
  parse_as auto body def = err (unknown_format (codes "auto"))
  parse_as (unknown name) body def = err (unknown_format name)

  -- The empty format is `auto`; after sniffing it is one of the three.
  unfoldable pub parse_body : Format → Text → Defaults → Result
  unfolding parse_ndjson parse_markdown parse_text sniff
  parse_body auto body def = parse_as (sniff body) body def
  parse_body format body def = parse_as format body def

  -- Parse, over what reading gives; the clock stands for a base time of 0.
  unfoldable pub parse_bundle : ℤ → Option Text → Format → Defaults → Result
  unfolding parse_body
  parse_bundle now body format def =
      let timed = record def { base_ts = if eqb_ℤ def.base_ts (pos 0) then now else def.base_ts } in
      if str_eq def.surface "" then err surface_required else elim body [
        | none ↦ err read_failed
        | some [] ↦ ok (nothing auto)
        | some (c ∷ t) ↦ parse_body format (c ∷ t) timed
      ]
