-- ===== src/Engram.antt =====
-- internal/engram/engram.go: the record that is captured and served.
-- A payload is its bytes. The meta text is a value of `Meta`: one constructor for each format
-- string of the parsers, with the fields that the format prints, and `text` for any other text.
use eidetic_daemon.Prelude.{ℕ, ℤ, String, List}

abbrev pub Bytes : Type 0
Bytes = List ℕ

pub data Meta : Type 0 where
  text : Bytes → Meta
  -- {"path":…,"offset_end":…,"parser":"jsonl/v1"}
  jsonl : String → ℕ → Meta
  -- {"path":…,"offset_end":…,"parser":"jsonl/v1","chunk_id":…,"chunk_seq":…,"chunk_total":…}
  jsonl_chunk : String → ℕ → Bytes → ℕ → ℕ → Meta
  -- {"path":…,"hash":…,"size":…,"parser":"cursor/v1"}
  cursor : String → Bytes → ℕ → Meta
  -- the same with chunk_id, chunk_seq and chunk_total
  cursor_chunk : String → Bytes → ℕ → Bytes → ℕ → ℕ → Meta

pub record Engram : Type 0 where
  pub id : ℤ
  pub surface : String
  pub ts : ℤ
  pub payload : Bytes
  pub meta : Meta
  pub snippet : Bytes
