-- ===== src/Bundle/Ready.antt =====
-- What Parse returns can be inserted.
use eidetic_daemon.Prelude.{
  ℕ, ℤ, pos, ◌+ℤ◌, ◌<ℤ◌, ◌≤◌, eqb_ℤ, leb, ◌+◌, ◌≡◌, refl, arith, +ℤ_parts, length-append, Bool,
  Bool-cases, inl, inr, true, false, str_eq, Option, none, some, List, [], ◌∷◌, length, All,
  is_empty, split_on, if◌then◌else◌,
}
use eidetic_daemon.Engram.{Engram}
use eidetic_daemon.Store.Write.{max_payload_bytes, validate_engram}
use eidetic_daemon.TextSearch.{Text}
use eidetic_daemon.Api.Params.{trim_left, trim_end, trim_space}
use eidetic_daemon.Bundle.{
  Format, ndjson, markdown, plain_text, auto, unknown, sections_of, Defaults, Parsed, Result, ok,
  err, Decoded, utf8_rune, utf8, numbered, paragraphs, parse_text, sections, parse_markdown, filled,
  decoded_row, rows, parse_ndjson, parse_as, parse_body, sniff, parse_bundle, lines_of, nothing,
  read_failed,
}
use eidetic_daemon.Bundle.Paragraphs.{newline, split_paragraphs}

-- The store takes the engram, unless its payload is too large.
abbrev pub Ready : Engram → Type 0
Ready e = length e.payload ≤ max_payload_bytes → validate_engram e ≡ none

-- The engrams of a result, none if it is an error.
abbrev pub engrams_of : Result → List Engram
engrams_of (ok p) = p.engrams
engrams_of (err e) = []

length-utf8_rune : (r : ℕ) → 1 ≤ length (utf8_rune r)
unfolding utf8_rune
length-utf8_rune r = ground arith

length-utf8 : (t : Text) → is_empty t ≡ false → 1 ≤ length (utf8 t)
unfolding utf8
length-utf8 [] h = absurd (ground arith)
length-utf8 (r ∷ t) h = omega (arith, length-utf8_rune r, length-append (utf8_rune r) (utf8 t))

ready :
    (e : Engram)
    → str_eq e.surface "" ≡ false
    → eqb_ℤ e.ts (pos 0) ≡ false
    → 1 ≤ length e.payload
    → Ready e
unfolding validate_engram
ready e s t p fits = ground arith

is_empty_of_blank : (t : Text) → is_empty (trim_space t) ≡ false → is_empty t ≡ false
unfolding trim_space trim_left trim_end
is_empty_of_blank [] h = h
is_empty_of_blank (r ∷ t) h = refl

later : (base : ℤ) (i : ℕ) → pos 0 <ℤ base → eqb_ℤ (base +ℤ pos i) (pos 0) ≡ false
later base i h = ground (arith, +ℤ_parts base (pos i))

module _ (def : Defaults) (named : str_eq def.surface "" ≡ false)
    (dated : pos 0 <ℤ def.base_ts) where
  numbered-Ready : (i : ℕ) (t : Text) → is_empty t ≡ false → Ready (numbered def i t)
  numbered-Ready i t h =
      ready (numbered def i t) named (later def.base_ts i dated) (length-utf8 t h)

  paragraphs-Ready : (i : ℕ) (ps : List Text) → All Ready (paragraphs def i ps).engrams
  unfolding paragraphs
  paragraphs-Ready i [] = tt
  paragraphs-Ready i (p ∷ ps) = elim (Bool-cases (is_empty (trim_space p))) [
    | inl e ↦ simp (e, paragraphs) (paragraphs-Ready (i + 1) ps)
    | inr e ↦ simp (e, paragraphs) (numbered-Ready i (trim_space p) e, paragraphs-Ready (i + 1) ps)
  ]

  sections-Ready : (i : ℕ) (ss : List Text) → All Ready (sections def i ss).engrams
  unfolding sections
  sections-Ready i [] = tt
  sections-Ready i (s ∷ ss) = elim (Bool-cases (is_empty s)) [
    | inl e ↦ simp (e, sections) (sections-Ready (i + 1) ss)
    | inr e ↦ simp (e, sections) (numbered-Ready i s e, sections-Ready (i + 1) ss)
  ]

  parse_text-Ready : (body : Text) → All Ready (parse_text body def).engrams
  unfolding parse_text
  parse_text-Ready body = paragraphs-Ready 0 (split_paragraphs body)

  parse_markdown-Ready : (body : Text) → All Ready (parse_markdown body def).engrams
  unfolding parse_markdown
  parse_markdown-Ready body =
      let found = sections_of [] [] (split_on newline body) in
      elim (Bool-cases (leb (length found) 1)) [
        | inl e ↦ simp (e, parse_markdown) (parse_text-Ready body)
        | inr e ↦ simp (e, parse_markdown) (sections-Ready 0 found)
      ]

  filled-Ready :
      (i : ℕ) (d : Decoded) → is_empty (trim_space d.payload) ≡ false → Ready (filled def i d)
  filled-Ready i d h =
      ready (filled def i d) (ground (arith, named)) (ground (arith, later def.base_ts i dated))
        (length-utf8 d.payload (is_empty_of_blank d.payload h))

  decoded_row-Ready :
      (i : ℕ) (o : Option Decoded) (rest : Parsed)
      → All Ready rest.engrams
      → All Ready (decoded_row def i o rest).engrams
  decoded_row-Ready i none rest h = h
  decoded_row-Ready i (some d) rest h = elim (Bool-cases (is_empty (trim_space d.payload))) [
    | inl e ↦ rw e h
    | inr e ↦ rw e (filled-Ready i d e, h)
  ]

  module _ (decode : Text → Option Decoded) where
    rows-Ready :
        (i : ℕ) (whole : Bool) (ls : List Text) → All Ready (rows decode def i whole ls).engrams
    unfolding rows
    rows-Ready i true [] = tt
    rows-Ready i false [] = tt
    rows-Ready i whole (l ∷ ls) = elim (Bool-cases (is_empty (trim_space l))) [
      | inl e ↦ simp (e, rows) (rows-Ready i whole ls)
      | inr e ↦
          simp (e, rows)
            (decoded_row-Ready i (decode (trim_space l)) (rows decode def (i + 1) whole ls)
              (rows-Ready (i + 1) whole ls))
    ]

    parse_as-Ready :
        (format : Format) (body : Text) → All Ready (engrams_of (parse_as decode format body def))
    unfolding parse_ndjson
    parse_as-Ready ndjson body =
        let (lines, whole) = lines_of 8388608 body in rows-Ready 0 whole lines
    parse_as-Ready markdown body = parse_markdown-Ready body
    parse_as-Ready plain_text body = parse_text-Ready body
    parse_as-Ready auto body = tt
    parse_as-Ready (unknown name) body = tt

    parse_body-Ready :
        (format : Format) (body : Text) → All Ready (engrams_of (parse_body decode format body def))
    unfolding parse_body
    parse_body-Ready ndjson body = parse_as-Ready ndjson body
    parse_body-Ready markdown body = parse_as-Ready markdown body
    parse_body-Ready plain_text body = parse_as-Ready plain_text body
    parse_body-Ready auto body = parse_as-Ready (sniff body) body
    parse_body-Ready (unknown name) body = tt

-- Whatever the format and what lines decode to, when the base time, or else the clock, is after 1970,
-- the store takes every engram that Parse returns, but for payloads that are too large.
pub parse_bundle-Ready :
    (decode : Text → Option Decoded) (now : ℤ) (body : Option Text) (format : Format)
    (def : Defaults)
    → pos 0 <ℤ (if eqb_ℤ def.base_ts (pos 0) then now else def.base_ts)
    → All Ready (engrams_of (parse_bundle decode now body format def))
unfolding parse_bundle
parse_bundle-Ready decode now body format def dated = elim (Bool-cases (str_eq def.surface "")) [
  | inl e ↦ simp (e, parse_bundle) tt
  | inr e ↦ simp (e, parse_bundle) (given body e)
]
  where
    timed : Defaults
    timed = record def { base_ts = if eqb_ℤ def.base_ts (pos 0) then now else def.base_ts }

    given :
        (body : Option Text)
        → str_eq def.surface "" ≡ false
        → All Ready (
            engrams_of (elim body as (λ _. Result) [
              | none ↦ err read_failed
              | some [] ↦ ok (nothing auto)
              | some (c ∷ t) ↦ parse_body decode format (c ∷ t) timed
            ]))
    given none e = tt
    given (some []) e = tt
    given (some (c ∷ t)) e = parse_body-Ready timed e dated decode format (c ∷ t)
