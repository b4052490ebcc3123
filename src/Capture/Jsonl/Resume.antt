-- ===== src/Capture/Jsonl/Resume.antt =====
-- A file that grows is read without loss and without repetition.
use native.Mathlib.Numerals.{add-one}
use eidetic_daemon.Prelude.{
  ℕ, zero, suc, ◌+◌, ◌==◌, ℤ, String, arith, ◌≡◌, refl, sym, ◌∙◌, ap, ap₂, subst, true, Option,
  Option-cases, Bool-cases, inl, inr, List, [], ◌∷◌, ◌++◌, append_assoc, append-nil, length,
  length-append, take, drop, replicate, take-append-drop, All, is_empty, split_on, trim_right,
  last_index, ends_with, if◌then◌else◌,
}
use eidetic_daemon.Engram.{Bytes, Engram}
use eidetic_daemon.Capture.Jsonl.{newline, carriage_return, emit, each_line, parse_lines, consume}
use eidetic_daemon.Capture.Jsonl.Lines.{
  Lacks, unlines, unlines-split_on, split_on-Lacks, trim_right-replicate, last_index-none,
  last_index-some,
}

-- The reading of a byte stream with no passes: a line in progress, and an engram's worth of output at
-- each newline, `out line end`, unless the line is blank.
module _ (out : Bytes → ℕ → List Engram) where
  abbrev line_end : Bytes → ℕ → List Engram
  line_end line offset =
      let raw = trim_right carriage_return line in if is_empty raw then [] else out raw offset

  unfoldable pub records : ℕ → Bytes → Bytes → List Engram
  records offset line [] = []
  records offset line (b ∷ s) =
      (if b == newline then line_end line (offset + 1) else [])
      ++ records (offset + 1) (if b == newline then [] else line ++ b ∷ []) s

  records-line :
      (offset : ℕ) (line l rest : Bytes)
      → Lacks newline l
      → records offset line (l ++ newline ∷ rest)
        ≡ line_end (line ++ l) (offset + length l + 1) ++ records (offset + length l + 1) [] rest
  unfolding records
  records-line offset line [] rest h =
      ap₂ (λ (k : Bytes) (j : ℕ). line_end k (j + 1) ++ records (j + 1) [] rest)
        (sym (append-nil line)) (omega arith)
  records-line offset line (c ∷ l) rest h = rw h.0 (
      records-line (offset + 1) (line ++ c ∷ []) l rest h.1
      ∙ ap₂ (λ (k : Bytes) (j : ℕ). line_end k (j + 1) ++ records (j + 1) [] rest)
          (append_assoc line (c ∷ []) l) (omega arith))

  records-tail : (offset : ℕ) (line l : Bytes) → Lacks newline l → records offset line l ≡ []
  unfolding records
  records-tail offset line [] h = refl
  records-tail offset line (c ∷ l) h = rw h.0 (records-tail (offset + 1) (line ++ c ∷ []) l h.1)

  records-blank :
      (k offset : ℕ) (rest : Bytes)
      → records offset [] (replicate k newline ++ rest) ≡ records (offset + k) [] rest
  unfolding records trim_right
  records-blank zero offset rest = ap (λ j. records j [] rest) (omega arith)
  records-blank (suc k) offset rest =
      records-blank k (offset + 1) rest ∙ ap (λ j. records j [] rest) (omega arith)

-- What one pass over a buffer does: it takes the bytes `done`, and leaves bytes without a record.
abbrev Pass : (Bytes → ℕ → List Engram) → ℕ → Bytes → List Engram × ℕ → Type 0
Pass out offset buf (engrams, end) =
    (done rest : Bytes) × (buf ≡ done ++ rest)
    × (end ≡ offset + length done)
    × ((d : Bytes) → records out offset [] (done ++ d) ≡ engrams ++ records out end [] d)
    × ((o : ℕ) → records out o [] rest ≡ [])

module _ (budget : ℕ) (surface path : String) (time_of : Bytes → Option ℤ)
    (chunk_id : Bytes → Bytes) (now : ℤ) where
  abbrev out : Bytes → ℕ → List Engram
  out = emit budget surface path time_of chunk_id now

  each_line_offset :
      (ls : List Bytes) (offset : ℕ)
      → (each_line budget surface path time_of chunk_id now ls offset).1
        ≡ offset + length (unlines newline ls)
  unfolding each_line unlines
  each_line_offset [] offset = omega arith
  each_line_offset (l ∷ ls) offset =
      let ih = each_line_offset ls (offset + length l + 1) in
      let len = length-append l (newline ∷ unlines newline ls) in
      elim (Bool-cases (is_empty (trim_right carriage_return l))) [
        | inl e ↦ rw e (omega (arith, ih, len))
        | inr e ↦ rw e (omega (arith, ih, len))
      ]

  records-each_line :
      (ls : List Bytes) (offset : ℕ) (d : Bytes)
      → All (Lacks newline) ls
      → records out offset [] (unlines newline ls ++ d)
        ≡ (each_line budget surface path time_of chunk_id now ls offset).0
          ++ records out (each_line budget surface path time_of chunk_id now ls offset).1 [] d
  unfolding each_line unlines
  records-each_line [] offset d h = refl
  records-each_line (l ∷ ls) offset d h =
      let ih = records-each_line ls (offset + length l + 1) d h.1 in
      let first =
        ap (records out offset []) (append_assoc l (newline ∷ unlines newline ls) d)
        ∙ records-line out offset [] l (unlines newline ls ++ d) h.0 in
      elim (Bool-cases (is_empty (trim_right carriage_return l))) [
        | inl e ↦ rw e (rw e at first ∙ ih)
        | inr e ↦ rw e (
            rw e at first
            ∙ ap (◌++◌ (out (trim_right carriage_return l) (offset + length l + 1))) ih
            ∙ sym (
                append_assoc (out (trim_right carriage_return l) (offset + length l + 1))
                  (each_line budget surface path time_of chunk_id now ls (offset + length l + 1)).0
                  (records out
                    (each_line budget surface path time_of chunk_id now ls
                      (offset + length l + 1)).1
                    [] d)))
      ]

  -- A buffer that ends with a newline, and the start of a line after it.
  parse_lines-Pass :
      (offset : ℕ) (buf b : Bytes)
      → ends_with newline buf ≡ true
      → Lacks newline b
      → Pass out offset (buf ++ b) (parse_lines budget surface path time_of chunk_id now buf offset)
  unfolding parse_lines unlines
  parse_lines-Pass offset buf b ends lacks =
      let (k, e) = trim_right-replicate newline buf ends in
      let text = trim_right newline buf in
      let ls = split_on newline text in
      (
        unlines newline ls,
        replicate k newline ++ b,
        (ap (λ s. s ++ b) e
            ∙ append_assoc text (newline ∷ replicate k newline) b
            ∙ sym (append_assoc text (newline ∷ []) (replicate k newline ++ b))
            ∙ ap (λ s. s ++ (replicate k newline ++ b)) (sym (unlines-split_on newline text))),
        each_line_offset ls offset,
        λ d. records-each_line ls offset d (split_on-Lacks newline text),
        λ o. records-blank out k o b ∙ records-tail out (o + k) [] b lacks,
      )

  consume-Pass :
      (offset : ℕ) (buf : Bytes)
      → Pass out offset buf (consume budget surface path time_of chunk_id now buf offset)
  unfolding consume
  consume-Pass offset buf = elim (Bool-cases (ends_with newline buf)) [
    | inl ends ↦ rw ends (
        subst
          (λ s. Pass out offset s (parse_lines budget surface path time_of chunk_id now buf offset))
          (append-nil buf) (parse_lines-Pass offset buf [] ends tt))
    | inr other ↦ rw other (elim (Option-cases (last_index newline buf)) [
      | inl absent ↦ rw absent (
        [],
        buf,
        refl,
        omega arith,
        λ d. refl,
        λ o. records-tail out o [] buf (last_index-none newline buf absent),
      )
      | inr (i, found) ↦
          let (ends, lacks) = last_index-some newline buf i found in
          rw (found, add-one)
            (subst
              (λ s.
                Pass out offset s
                  (parse_lines budget surface path time_of chunk_id now (take (suc i) buf) offset))
              (take-append-drop (suc i) buf)
              (parse_lines-Pass offset (take (suc i) buf) (drop (suc i) buf) ends lacks))
    ])
  ]

  -- One pass produces every record that the buffer completes, each with its place in the file.
  pub consume-eq-records :
      (offset : ℕ) (buf : Bytes)
      → (consume budget surface path time_of chunk_id now buf offset).0 ≡ records out offset [] buf
  consume-eq-records offset buf =
      let (done, rest, whole, end, yields, empty) = consume-Pass offset buf in
      sym (
        ap (records out offset []) whole
        ∙ yields rest
        ∙ ap (◌++◌ (consume budget surface path time_of chunk_id now buf offset).0) (empty _)
        ∙ append-nil _)

  -- A pass, then another one over what the first left and `d`.
  pub consume_resume :
      (offset : ℕ) (buf d : Bytes)
      → let (engrams, end) = consume budget surface path time_of chunk_id now buf offset in
        (done rest : Bytes) × (buf ≡ done ++ rest)
        × (end ≡ offset + length done)
        × (engrams ++ (consume budget surface path time_of chunk_id now (rest ++ d) end).0
            ≡ (consume budget surface path time_of chunk_id now (buf ++ d) offset).0)
  consume_resume offset buf d =
      let (engrams, end) = consume budget surface path time_of chunk_id now buf offset in
      let (done, rest, whole, length_done, yields, empty) = consume-Pass offset buf in
      (
        done,
        rest,
        whole,
        length_done,
        ap (◌++◌ engrams) (consume-eq-records end (rest ++ d))
            ∙ sym (yields (rest ++ d))
            ∙ sym (ap (records out offset []) (ap (λ s. s ++ d) whole ∙ append_assoc done rest d))
            ∙ sym (consume-eq-records offset (buf ++ d)),
      )
