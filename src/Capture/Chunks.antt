-- ===== src/Capture/Chunks.antt =====
-- `splitOversized` of internal/capture/parser_jsonl.go: a long record as several engrams.
-- The chunk id is a hash of the record, an argument `chunk_id` here.
pub mod Reassembly
use eidetic_daemon.Prelude.{
  ℕ, zero, suc, ◌+◌, ◌-◌, ◌*◌, ◌/◌, ℤ, pos, String, ltb, List, [], ◌∷◌, length, take, drop,
  if◌then◌else◌,
}
use eidetic_daemon.Engram.{Bytes, Engram, jsonl_chunk}

-- 7 << 20
abbrev pub chunk_payload_budget : ℕ
chunk_payload_budget = 7 * 1_048_576

-- ⌈len(raw) / budget⌉
unfoldable pub chunk_total : ℕ → Bytes → ℕ
chunk_total budget raw = (length raw + budget - 1) / budget

-- raw[start:end] of chunk `seq`
unfoldable pub chunk_payload : ℕ → Bytes → ℕ → Bytes
chunk_payload budget raw seq =
    let start = seq * budget in
    let end = if ltb (length raw) (start + budget) then length raw else start + budget in
    take (end - start) (drop start raw)

module _ (budget : ℕ) (surface : String) (ts : ℤ) (path : String) (offset_end : ℕ)
    (chunk_id : Bytes → Bytes) (raw : Bytes) where
  unfoldable pub chunk : ℕ → Engram
  unfolding chunk_payload chunk_total
  chunk seq = record {
    id = pos 0;
    surface = surface;
    ts = ts;
    payload = chunk_payload budget raw seq;
    meta = jsonl_chunk path offset_end (chunk_id raw) seq (chunk_total budget raw);
    snippet = [];
  }

  -- The loop over `seq`, with the rounds that are left.
  unfoldable pub chunks_from : ℕ → ℕ → List Engram
  unfolding chunk
  chunks_from seq zero = []
  chunks_from seq (suc rounds) = chunk seq ∷ chunks_from (seq + 1) rounds

  unfoldable pub split_oversized : List Engram
  unfolding chunks_from chunk_total
  split_oversized = chunks_from 0 (chunk_total budget raw)
