-- ===== src/Capture/Cursor/Whole.antt =====
-- A file of Cursor is emitted as a whole, and once for each content.
use eidetic_daemon.Prelude.{
  replicate, take, zero, suc, length-append, length-take, ℕ, ℤ, pos, eqb_ℤ, eq_of_parts, not, ◌+◌,
  ◌-◌, ◌≤◌, ◌<◌, ◌==◌, ltb, arith, ◌≡◌, ◌⊎◌, refl, ap, ◌∙◌, Bool-cases, inl, inr, true, false,
  String, some, List, [], ◌∷◌, ◌++◌, append-nil, length, is_empty, All, ◌&&◌,
}
use eidetic_daemon.Engram.{Bytes, Engram}
use eidetic_daemon.Capture.Chunks.{chunk_payload_budget, split_oversized}
use eidetic_daemon.Capture.Chunks.Reassembly.{reassemble, split_oversized_reassembles}
use eidetic_daemon.Capture.Cursor.{
  cursor_max_file_bytes, File, read_full, padded, hash_offset, derive_chunk_id, retag, emit_whole,
  parse_read, parse_cursor,
}

abbrev pub Fits : Engram → Type 0
Fits e = (0 < length e.payload) × (length e.payload ≤ chunk_payload_budget)

length-replicate : (n : ℕ) → length (replicate {A = ℕ} n 0) ≡ n
length-replicate zero = refl
length-replicate (suc n) = ap suc (length-replicate n)

-- The buffer is as long as the size.
length-padded : (size : ℕ) (content : Bytes) → length (padded size content) ≡ size
length-padded size content =
    let l = length-append (take size content) (replicate (size - length content) 0) in
    omega (arith, l, length-take size content, length-replicate (size - length content))

is_empty_of_bytes : (bytes : Bytes) → 0 < length bytes → is_empty bytes ≡ false
is_empty_of_bytes [] h = absurd (omega arith)
is_empty_of_bytes (b ∷ bytes) h = refl

module _ (hash : Bytes → Bytes) (surface path : String) where
  reassemble-retag :
      (buf : Bytes) (size total i : ℕ) (es : List Engram)
      → reassemble (retag hash surface path buf size total i es) ≡ reassemble es
  unfolding reassemble retag
  reassemble-retag buf size total i [] = refl
  reassemble-retag buf size total i (e ∷ es) =
      ap (λ t. e.payload ++ t) (reassemble-retag buf size total (i + 1) es)

  retag-Fits :
      (buf : Bytes) (size total i : ℕ) (es : List Engram)
      → All Fits es
      → All Fits (retag hash surface path buf size total i es)
  unfolding retag
  retag-Fits buf size total i [] h = tt
  retag-Fits buf size total i (e ∷ es) h = (h.0, retag-Fits buf size total (i + 1) es h.1)

  -- The payloads are the bytes, in pieces that fit.
  abbrev pub Whole : Bytes → List Engram → Type 0
  Whole buf es = (reassemble es ≡ buf) × All Fits es

  emit_whole-Whole :
      (size : ℕ) (mod_time : ℤ) (buf : Bytes)
      → 0 < length buf
      → Whole buf (emit_whole hash surface path size mod_time buf)
  unfolding emit_whole reassemble
  emit_whole-Whole size mod_time buf some_bytes =
      let chunk_id = derive_chunk_id hash surface path in
      let chunks = split_oversized chunk_payload_budget surface mod_time path 0 chunk_id buf in
      let (whole, fits) =
        split_oversized_reassembles chunk_payload_budget surface mod_time path 0 chunk_id buf
          (omega arith) in
      elim (Bool-cases (ltb chunk_payload_budget (length buf))) [
        | inl e ↦
            simp (e, emit_whole)
              (
                reassemble-retag buf size (length chunks) 0 chunks ∙ whole,
                retag-Fits buf size (length chunks) 0 chunks fits,
              )
        | inr e ↦ simp (e, emit_whole) (append-nil buf, ((some_bytes, ground arith), tt))
      ]

  -- What a read of a file that fits comes to.
  parse_cursor-read :
      (from : ℤ) (f : File)
      → 0 < f.size
      → f.size ≤ cursor_max_file_bytes
      → f.read_fails ≡ false
      → 0 < length f.content
      → parse_cursor hash surface path from (some f)
        ≡ parse_read hash surface path from f (some (padded f.size f.content))
  unfolding parse_cursor read_full
  parse_cursor-read from f size small reads some_bytes =
      let present : (f.size == 0) ≡ false = ground arith in
      let below : ltb cursor_max_file_bytes f.size ≡ false = ground arith in
      let bytes : is_empty f.content ≡ false = is_empty_of_bytes f.content some_bytes in
      simp (present, below, reads, bytes, parse_cursor, read_full) refl

  -- A file that is not empty when it is measured and when it is read, is then at most as large as the
  -- cap, and is read without an error, is emitted in pieces that fit, unless its hash is the offset;
  -- one after the other they are its first bytes, as many as were measured, filled up with zeros if it
  -- has become shorter. The offset becomes the hash of these, and unless that is 0, the next pass over
  -- the same file emits nothing.
  pub parse_cursor-Whole :
      (from : ℤ) (f : File)
      → 0 < f.size
      → f.size ≤ cursor_max_file_bytes
      → f.read_fails ≡ false
      → 0 < length f.content
      → let buf = padded f.size f.content in
        let offset = hash_offset hash surface path buf in
        ((es : List Engram) × (parse_cursor hash surface path from (some f) ≡ some (es, offset))
          × (((es ≡ []) × (from ≡ offset)) ⊎ Whole buf es))
        × (eqb_ℤ offset (pos 0) ≡ false
            → parse_cursor hash surface path offset (some f) ≡ some ([], offset))
  parse_cursor-Whole from f size small reads some_bytes =
      let buf = padded f.size f.content in
      let offset = hash_offset hash surface path buf in
      let reading = λ (at : ℤ). parse_cursor-read at f size small reads some_bytes in
      let same : eqb_ℤ offset offset ≡ true = ground arith in
      (
        elim (Bool-cases (eqb_ℤ offset from && not (eqb_ℤ from (pos 0)))) [
          | inl e ↦
              (let hit : from ≡ offset = eq_of_parts from offset (ground (arith, e)) in
                ([], reading from ∙ simp e (ap (λ o. some ([], o)) hit), inl (refl, hit)))
          | inr e ↦ (
            emit_whole hash surface path f.size f.mod_time buf,
            reading from ∙ simp e refl,
            inr (
                emit_whole-Whole f.size f.mod_time buf
                  (omega (arith, length-padded f.size f.content))),
          )
        ],
        λ nonzero. reading offset ∙ simp (same, nonzero) refl,
      )
