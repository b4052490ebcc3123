-- ===== src/Capture/Jsonl/Passes.antt =====
-- `JSONLParser.Parse` called again on a file that has grown.
use eidetic_daemon.Prelude.{
  ℕ, zero, suc, ◌-◌, ◌≤◌, ◌<◌, ltb, ◌==◌, ◌&&◌, ℤ, String, arith, ◌≡◌, refl, sym, ◌∙◌, ap, true,
  false, Option, Bool-cases, inl, inr, [], ◌∷◌, ◌++◌, append_assoc, length, length-append, drop,
  drop-drop, drop-length, drop-append, length-drop, if◌then◌else◌, ends_with, last_index,
}
use eidetic_daemon.Engram.{Bytes}
use eidetic_daemon.Capture.Jsonl.{has_bom, jsonl_max_file_bytes, emit, consume, parse, parse_at}
use eidetic_daemon.Capture.Jsonl.Resume.{records, consume_resume, consume-eq-records}

-- Where a pass that resumes at an offset starts: after the byte order mark.
abbrev pub start : Bytes → ℕ → ℕ
start content from = if from == 0 && has_bom content then 3 else from

start-past : (content : Bytes) (from : ℕ) → 0 < from → start content from ≡ from
start-past content from past = let nonzero : (from == 0) ≡ false = ground arith in rw nonzero refl

start-plain : (content : Bytes) (from : ℕ) → has_bom content ≡ false → start content from ≡ from
start-plain content zero plain = rw plain refl
start-plain content (suc k) plain = start-past content (suc k) (omega arith)

module _ (budget : ℕ) (surface path : String) (time_of : Bytes → Option ℤ)
    (chunk_id : Bytes → Bytes) (now : ℤ) where
  consume-nil : (from : ℕ) → consume budget surface path time_of chunk_id now [] from ≡ ([], from)
  unfolding consume ends_with last_index
  consume-nil from = refl

  parse_at-suc :
      (buf : Bytes) (k : ℕ)
      → parse_at budget surface path time_of chunk_id now buf (suc k)
        ≡ consume budget surface path time_of chunk_id now buf (suc k)
  unfolding parse_at
  parse_at-suc [] k = sym (consume-nil (suc k))
  parse_at-suc (b ∷ bs) k = let nonzero : (suc k == 0) ≡ false = ground arith in rw nonzero refl

  parse_at-eq-consume :
      (content : Bytes) (from : ℕ)
      → parse_at budget surface path time_of chunk_id now (drop from content) from
        ≡ consume budget surface path time_of chunk_id now
            (drop (start content from) content)
            (start content from)
  unfolding parse_at
  parse_at-eq-consume [] zero = sym (consume-nil 0)
  parse_at-eq-consume (b ∷ bs) zero = elim (Bool-cases (has_bom (b ∷ bs))) [
    | inl e ↦ rw e refl
    | inr e ↦ rw e refl
  ]
  parse_at-eq-consume content (suc k) =
      parse_at-suc (drop (suc k) content) k
      ∙ ap (λ s. consume budget surface path time_of chunk_id now (drop s content) s)
          (sym (start-past content (suc k) (omega arith)))

  -- A pass that starts within a file that is not too large is `consume` from the start.
  parse-eq-consume :
      (content : Bytes) (from : ℕ)
      → from ≤ length content
      → length content ≤ jsonl_max_file_bytes
      → parse budget surface path time_of chunk_id now content from
        ≡ consume budget surface path time_of chunk_id now
            (drop (start content from) content)
            (start content from)
  unfolding parse
  parse-eq-consume [] from inside small =
      let first : from ≡ 0 = omega arith in rw first (sym (consume-nil 0))
  parse-eq-consume (b ∷ bs) from inside small =
      let size = suc (length bs) in
      let within : ltb size from ≡ false = ground arith in
      let some_bytes : (size == 0) ≡ false = ground arith in
      let fits : ltb jsonl_max_file_bytes (size - from) ≡ false = ground arith in
      rw (within, some_bytes, fits) (parse_at-eq-consume (b ∷ bs) from)

  consume_again :
      (content d : Bytes) (s : ℕ)
      → s ≤ length content
      → let (engrams, end) = consume budget surface path time_of chunk_id now (drop s content) s in
        (s ≤ end)
        × (end ≤ length content)
        × (engrams
              ++ (consume budget surface path time_of chunk_id now (drop end (content ++ d)) end).0
            ≡ (consume budget surface path time_of chunk_id now (drop s (content ++ d)) s).0)
  consume_again content d s inside =
      let (done, rest, whole, length_done, again) =
        consume_resume budget surface path time_of chunk_id now s (drop s content) d in
      let end = (consume budget surface path time_of chunk_id now (drop s content) s).1 in
      let len = length-drop s content in
      let whole_length = ap length whole ∙ length-append done rest in
      let left : drop end (content ++ d) ≡ rest ++ d =
        ap (λ k. drop k (content ++ d)) length_done
        ∙ drop-drop s (length done) (content ++ d)
        ∙ ap (drop (length done))
            (drop-append s content d inside ∙ ap (λ b. b ++ d) whole ∙ append_assoc done rest d)
        ∙ drop-length done (rest ++ d) in
      (omega arith, omega arith, rw (left, drop-append s content d inside) again)

  -- Below the cap and from an offset within the file, a pass produces the engrams that reading the unread
  -- bytes one by one produces: one record for each line that is complete and not blank, with the offset
  -- at which the line ends. The start over for a file that was truncated is not covered.
  pub parse-eq-records :
      (content : Bytes) (from : ℕ)
      → from ≤ length content
      → length content ≤ jsonl_max_file_bytes
      → (parse budget surface path time_of chunk_id now content from).0
        ≡ records
            (emit budget surface path time_of chunk_id now)
            (start content from)
            []
            (drop (start content from) content)
  parse-eq-records content from inside small =
      let s = start content from in
      ap (λ r. r.0) (parse-eq-consume content from inside small)
      ∙ consume-eq-records budget surface path time_of chunk_id now s (drop s content)

  -- A file too short to tell whether it starts with the mark has no complete line.
  short-nil :
      (content d : Bytes)
      → has_bom content ≡ false
      → has_bom (content ++ d) ≡ true
      → consume budget surface path time_of chunk_id now content 0 ≡ ([], 0)
  unfolding consume ends_with last_index
  short-nil [] d plain marked = refl
  short-nil (a ∷ []) [] plain marked = absurd (ground arith)
  short-nil (a ∷ []) (b ∷ []) plain marked = absurd (ground arith)
  short-nil (a ∷ []) (b ∷ c ∷ d) plain marked = ground arith
  short-nil (a ∷ b ∷ []) [] plain marked = absurd (ground arith)
  short-nil (a ∷ b ∷ []) (c ∷ d) plain marked = ground arith
  short-nil (a ∷ b ∷ c ∷ content) d plain marked = absurd (ground arith)

  has_bom-append : (content d : Bytes) → has_bom content ≡ true → has_bom (content ++ d) ≡ true
  has_bom-append [] d h = absurd (ground arith)
  has_bom-append (a ∷ []) d h = absurd (ground arith)
  has_bom-append (a ∷ b ∷ []) d h = absurd (ground arith)
  has_bom-append (a ∷ b ∷ c ∷ content) d h = h

  has_bom-length : (content : Bytes) → has_bom content ≡ true → 3 ≤ length content
  has_bom-length [] h = absurd (ground arith)
  has_bom-length (a ∷ []) h = absurd (ground arith)
  has_bom-length (a ∷ b ∷ []) h = absurd (ground arith)
  has_bom-length (a ∷ b ∷ c ∷ content) h = omega arith

  -- Passes that start at the same byte.
  resume_from :
      (content d : Bytes) (from s : ℕ)
      → from ≤ length content
      → length (content ++ d) ≤ jsonl_max_file_bytes
      → start content from ≡ s
      → start (content ++ d) from ≡ s
      → s ≤ length content
      → ((end : ℕ) → s ≤ end → start (content ++ d) end ≡ end)
      → let (first, end) = parse budget surface path time_of chunk_id now content from in
        first ++ (parse budget surface path time_of chunk_id now (content ++ d) end).0
        ≡ (parse budget surface path time_of chunk_id now (content ++ d) from).0
  resume_from content d from s inside small here there within past =
      let longer = length-append content d in
      let (later, before, again) = consume_again content d s within in
      let end = (consume budget surface path time_of chunk_id now (drop s content) s).1 in
      let first = parse-eq-consume content from inside (omega arith) in
      let second = parse-eq-consume (content ++ d) end (omega arith) small in
      let single = parse-eq-consume (content ++ d) from (omega arith) small in
      rw (first, here, second, past end later, single, there) again

  start-le :
      (content : Bytes) (from : ℕ) → from ≤ length content → start content from ≤ length content
  start-le content from inside = elim (Bool-cases (from == 0 && has_bom content)) [
    | inl e ↦ rw e (has_bom-length content (ground (arith, e)))
    | inr e ↦ rw e inside
  ]

  -- A pass ends within the file.
  pub parse_offset-le :
      (content : Bytes) (from : ℕ)
      → from ≤ length content
      → length content ≤ jsonl_max_file_bytes
      → (parse budget surface path time_of chunk_id now content from).1 ≤ length content
  parse_offset-le content from inside small =
      rw (parse-eq-consume content from inside small)
        (consume_again content [] (start content from) (start-le content from inside)).1

  -- Below the cap and from an offset within the file, a pass over a file and then one, from where it
  -- ended, over the file after it has grown produce together the engrams that a single pass over the
  -- grown file produces, when the clock reads the same. The start over for a file that was truncated is
  -- not covered.
  pub parse_resume :
      (content appended : Bytes) (from : ℕ)
      → from ≤ length content
      → length (content ++ appended) ≤ jsonl_max_file_bytes
      → let (first, end) = parse budget surface path time_of chunk_id now content from in
        first ++ (parse budget surface path time_of chunk_id now (content ++ appended) end).0
        ≡ (parse budget surface path time_of chunk_id now (content ++ appended) from).0
  parse_resume content appended (suc k) inside small =
      let past = start-past content (suc k) (omega arith) in
      resume_from content appended (suc k) (suc k) inside small past
        (start-past (content ++ appended) (suc k) (omega arith)) inside
        (λ end later. start-past (content ++ appended) end (omega arith))
  parse_resume content appended zero inside small = elim (Bool-cases (has_bom content)) [
    | inl marked ↦
        resume_from content appended 0 3 inside small (rw marked refl)
          (rw (has_bom-append content appended marked) refl) (has_bom-length content marked)
          (λ end later. start-past (content ++ appended) end (omega arith))
    | inr plain ↦ elim (Bool-cases (has_bom (content ++ appended))) [
      | inl marked ↦
          let longer = length-append content appended in
          rw
            (
              parse-eq-consume content 0 inside (omega arith),
              start-plain content 0 plain,
              short-nil content appended plain marked,
            )
            refl
      | inr still ↦
          resume_from content appended 0 0 inside small (rw plain refl) (rw still refl)
            (omega arith) (λ end later. start-plain (content ++ appended) end still)
    ]
  ]
