-- ===== src/Capture/Cursor.antt =====
-- `CursorParser` of internal/capture/parser_cursor.go, for files that are rewritten as a whole. Its
-- offset is the beginning of a hash of the file; the hash is an argument.
pub mod Whole
use eidetic_daemon.Prelude.{
  ℕ, ℤ, pos, negsuc, zero, suc, signed_64, eqb_ℤ, not, ◌+◌, ◌-◌, ◌*◌, ◌%◌, ◌^◌, ltb, ◌==◌, ◌&&◌,
  String, Bool, Option, none, some, List, [], ◌∷◌, ◌++◌, length, take, replicate, is_empty,
  if◌then◌else◌,
}
use eidetic_daemon.Engram.{Bytes, Engram, cursor, cursor_chunk}
use eidetic_daemon.Auth.{hex_encode}
use eidetic_daemon.Capture.Chunks.{chunk_payload_budget, split_oversized}

-- 100 << 20
abbrev pub cursor_max_file_bytes : ℕ
cursor_max_file_bytes = 104857600

-- A file that can be opened and measured: its size and time then, and what reading it gives.
pub record File : Type 0 where
  pub size : ℕ
  pub mod_time : ℤ
  pub content : Bytes
  pub read_fails : Bool

-- io.ReadFull into a buffer of the size: a shorter file leaves zeros, an empty one is an error
abbrev pub padded : ℕ → Bytes → Bytes
padded size content = take size content ++ replicate (size - length content) 0

unfoldable pub read_full : File → Option Bytes
read_full f =
    if f.read_fails
    then none
    else if is_empty f.content
    then none
    else some (padded f.size f.content)

-- The first eight bytes of the hash, as an int64.
abbrev pub packed : ℕ → Bytes → ℕ
packed h [] = h
packed h (b ∷ bytes) = packed ((h * 256 + b) % 2 ^ 64) bytes

abbrev pub minus : ℕ → ℤ
minus zero = pos 0
minus (suc n) = negsuc n

module _ (hash : Bytes → Bytes) (surface path : String) where
  unfoldable pub hash_offset : Bytes → ℤ
  hash_offset buf = signed_64 (packed 0 (take 8 (hash buf)))

  unfoldable pub derive_chunk_id : Bytes → Bytes
  unfolding hex_encode
  derive_chunk_id payload = hex_encode (take 8 (hash payload))

  -- The loop that writes the meta text of chunk `i` and those after it.
  unfoldable pub retag : Bytes → ℕ → ℕ → ℕ → List Engram → List Engram
  unfolding derive_chunk_id
  retag buf size total i [] = []
  retag buf size total i (e ∷ es) =
      record e {
        meta = cursor_chunk path (hex_encode (hash buf)) size (derive_chunk_id buf) i total;
      }
      ∷ retag buf size total (i + 1) es

  -- What is emitted for the bytes of a file.
  unfoldable pub emit_whole : ℕ → ℤ → Bytes → List Engram
  unfolding retag
  emit_whole size mod_time buf =
      let chunks =
        split_oversized chunk_payload_budget surface mod_time path 0 derive_chunk_id buf in
      if ltb chunk_payload_budget (length buf)
      then retag buf size (length chunks) 0 chunks
      else record {
        id = pos 0;
        surface = surface;
        ts = mod_time;
        payload = buf;
        meta = cursor path (hex_encode (hash buf)) size;
        snippet = [];
      }
        ∷ []

  abbrev pub parse_read : ℤ → File → Option Bytes → Option (List Engram × ℤ)
  parse_read from f none = none
  parse_read from f (some buf) =
      let offset = hash_offset buf in
      if eqb_ℤ offset from && not (eqb_ℤ from (pos 0))
      then some ([], from)
      else some (emit_whole f.size f.mod_time buf, offset)

  -- Parse; `none` as a file is one that cannot be opened or measured, as a result an error, with
  -- which the offset stays.
  unfoldable pub parse_cursor : ℤ → Option File → Option (List Engram × ℤ)
  unfolding read_full hash_offset emit_whole
  parse_cursor from none = none
  parse_cursor from (some f) =
      if f.size == 0
      then some ([], pos 0)
      else if ltb cursor_max_file_bytes f.size
      then some ([], minus f.size)
      else parse_read from f (read_full f)
