-- ===== src/Capture/Jsonl.antt =====
-- `JSONLParser.Parse` of internal/capture/parser_jsonl.go: the new complete lines of a file.
-- The file is its bytes; reading it does not fail. `time_of` is time.Parse on a timestamp, `now` the
-- clock, `budget` is chunkPayloadBudget, `chunk_id` the hash of a long record. An offset is never negative.
mod Lines
pub mod Resume
pub mod Passes
use eidetic_daemon.Prelude.{
  ℕ, zero, suc, ◌+◌, ◌-◌, ◌*◌, ℤ, pos, String, codes, ltb, leb, ◌==◌, ◌&&◌, Bool, true, false,
  Option, none, some, List, [], ◌∷◌, ◌++◌, length, take, drop, is_empty, index_of, last_index,
  split_on, trim_right, ends_with, has_prefix, if◌then◌else◌,
}
use eidetic_daemon.Engram.{Bytes, Engram, jsonl}
use eidetic_daemon.Capture.Chunks.{split_oversized}

-- 500 << 20
abbrev pub jsonl_max_file_bytes : ℕ
jsonl_max_file_bytes = 500 * 1_048_576

abbrev pub newline : ℕ
newline = 0x0a

abbrev pub carriage_return : ℕ
carriage_return = 0x0d

abbrev pub bom : Bytes
bom = 0xef ∷ 0xbb ∷ 0xbf ∷ []

abbrev pub has_bom : Bytes → Bool
has_bom (a ∷ b ∷ c ∷ _) = a == 0xef && (b == 0xbb && c == 0xbf)
has_bom _ = false

module _ (time_of : Bytes → Option ℤ) where
  -- One round of the loop in `extractTimestamp`; `next` is what the other rounds give.
  unfoldable pub try_key : Bytes → Bytes → ℤ → ℤ
  try_key key raw next = elim (index_of key raw) [
    | none ↦ next
    | some i ↦
        let rest = drop (i + length key) raw in
        elim (index_of (b'"' ∷ []) rest) [
          | none ↦ next
          | some end ↦ elim (time_of (take end rest)) [ some t ↦ t | none ↦ next ]
        ]
  ]

  unfoldable pub extract_timestamp : Bytes → ℤ → ℤ
  unfolding try_key
  extract_timestamp raw fallback =
      try_key (codes "\"timestamp\":\"") raw (try_key (codes "\"ts\":\"") raw fallback)

module _ (budget : ℕ) (surface path : String) (time_of : Bytes → Option ℤ)
    (chunk_id : Bytes → Bytes) (now : ℤ) where
  -- The engrams of one record that ends at an offset.
  unfoldable pub emit : Bytes → ℕ → List Engram
  unfolding extract_timestamp
  emit raw offset_end =
      if ltb budget (length raw)
      then split_oversized budget surface (extract_timestamp time_of raw now) path offset_end
          chunk_id raw
      else record {
        id = pos 0;
        surface = surface;
        ts = extract_timestamp time_of raw now;
        payload = raw;
        meta = jsonl path offset_end;
        snippet = [];
      }
        ∷ []

  -- The loop over the lines.
  unfoldable pub each_line : List Bytes → ℕ → List Engram × ℕ
  each_line [] offset = ([], offset)
  each_line (line ∷ lines) offset =
      let offset' = offset + length line + 1 in
      let (engrams, end) = each_line lines offset' in
      let raw = trim_right carriage_return line in
      if is_empty raw then (engrams, end) else (emit raw offset' ++ engrams, end)

  unfoldable pub parse_lines : Bytes → ℕ → List Engram × ℕ
  unfolding each_line
  parse_lines consumable offset =
      each_line (split_on newline (trim_right newline consumable)) offset

  -- From the bytes that were read on: a trailing partial record is left for the next pass.
  unfoldable pub consume : Bytes → ℕ → List Engram × ℕ
  unfolding parse_lines
  consume buf offset =
      if ends_with newline buf then parse_lines buf offset else elim (last_index newline buf) [
        | none ↦ ([], offset)
        | some i ↦ parse_lines (take (i + 1) buf) offset
      ]

  -- Past the seek: the mark at the very start of the file is skipped.
  unfoldable pub parse_at : Bytes → ℕ → List Engram × ℕ
  parse_at buf from =
      if is_empty buf
      then ([], from)
      else if from == 0 && has_bom buf
      then consume (drop 3 buf) (from + 3)
      else consume buf from

  unfoldable pub parse : Bytes → ℕ → List Engram × ℕ
  parse content from_offset =
      let size = length content in
      let from = if ltb size from_offset then 0 else from_offset in
      if size == 0
      then ([], 0)
      else if ltb jsonl_max_file_bytes (size - from)
      then ([], size)
      else parse_at (drop from content) from
