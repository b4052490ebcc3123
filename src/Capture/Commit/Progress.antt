-- ===== src/Capture/Commit/Progress.antt =====
-- The offset of a file moves on exactly when what was read is stored.
use eidetic_daemon.Prelude.{
  ℤ, eqb_ℤ, eq_of_parts, ◌+◌, not, String, str_eq, eq_iff, arith, ◌≡◌, refl, sym, ◌∙◌, ap, ◌&&◌,
  Bool, true, Bool-cases, inl, inr, Option, some, Option-cases, List, [], ◌∷◌, filter, count_p,
  is_empty, if◌then◌else◌,
}
use eidetic_daemon.Engram.{Engram}
use eidetic_daemon.Store.Engine.{Engine}
use eidetic_daemon.Store.Session.{Session}
use eidetic_daemon.Store.Write.{insert_batch}
use eidetic_daemon.Store.Batch.{all, nothing, with_all, insert_batch-AllOrNothing}
use eidetic_daemon.Capture.State.{State, get, set}
use eidetic_daemon.Capture.State.Reads.{get-set, get-save}
use eidetic_daemon.Capture.Commit.{
  Parser, Capture, fits, advance_offset, after_insert, commit, parse_and_commit,
}

is_empty-nil : (es : List Engram) → is_empty es ≡ true → es ≡ []
is_empty-nil [] h = refl
is_empty-nil (e ∷ es) h = absurd (ground arith)

-- The offset of one file is new, those of all others are what they were.
abbrev pub Moved : String → String → ℤ → State → State → Type 0
Moved surface path offset s s' =
    (surface' path' : String)
    → get surface' path' s'
      ≡ (if str_eq surface surface' && str_eq path path' then offset else get surface' path' s)

module _ (engine : Engine) (parser_of : String → Option Parser) (save_fails : Bool)
    (surface path : String) where
  -- The two ways in which a pass ends.
  pub data Progress (c c' : Capture) : Type 0 where
    stored :
        (parser : Parser) (engrams : List Engram) (offset : ℤ)
        → parser_of surface ≡ some parser
        → parser path (get surface path c.state) ≡ some (engrams, offset)
        → c'.session.db ≡ with_all engine (filter fits engrams) c.session.db
        → c'.skipped ≡ c.skipped + count_p (λ e. not (fits e)) engrams
        → Moved surface path offset c.state c'.state
        → Progress c c'
    nothing_new : c'.session.db ≡ c.session.db → c'.state ≡ c.state → Progress c c'

  advance_offset-Moved :
      (offset : ℤ) (c : Capture)
      → Moved surface path offset c.state
          (advance_offset engine parser_of save_fails surface path offset c).state
  unfolding advance_offset
  advance_offset-Moved offset c surface' path' =
      elim (Bool-cases (eqb_ℤ offset (get surface path c.state))) [
        | inl e ↦
            rw (e, advance_offset)
              (ground (
                arith,
                eq_iff surface surface',
                eq_iff path path',
                eq_of_parts offset (get surface path c.state) (ground (arith, e)),
              ))
        | inr e ↦
            rw (e, advance_offset)
              (get-save save_fails surface' path' (set surface path offset c.state)
                ∙ get-set surface path surface' path' offset c.state)
      ]

  advance_offset-session :
      (offset : ℤ) (c : Capture)
      → let c' = advance_offset engine parser_of save_fails surface path offset c in
        (c'.session ≡ c.session) × (c'.skipped ≡ c.skipped)
  unfolding advance_offset
  advance_offset-session offset c = elim (Bool-cases (eqb_ℤ offset (get surface path c.state))) [
    | inl e ↦ rw (e, advance_offset) (refl, refl)
    | inr e ↦ rw (e, advance_offset) (refl, refl)
  ]

  stored-Progress :
      (parser : Parser) (engrams : List Engram) (offset : ℤ) (c : Capture) (session : Session)
      → parser_of surface ≡ some parser
      → parser path (get surface path c.state) ≡ some (engrams, offset)
      → session.db ≡ with_all engine (filter fits engrams) c.session.db
      → Progress c (
          advance_offset engine parser_of save_fails surface path offset record {
            session = session;
            state = c.state;
            skipped = c.skipped + count_p (λ e. not (fits e)) engrams;
          })
  stored-Progress parser engrams offset c session found read gained =
      let before : Capture = record {
        session = session;
        state = c.state;
        skipped = c.skipped + count_p (λ e. not (fits e)) engrams;
      } in
      let (same, counted) = advance_offset-session offset before in
      stored parser engrams offset found read (ap (λ s. s.db) same ∙ gained) counted
        (advance_offset-Moved offset before)

  commit-Progress :
      (parser : Parser) (engrams : List Engram) (offset : ℤ) (c : Capture)
      → parser_of surface ≡ some parser
      → parser path (get surface path c.state) ≡ some (engrams, offset)
      → Progress c (commit engine parser_of save_fails surface path engrams offset c)
  unfolding commit after_insert with_all
  commit-Progress parser engrams offset c found read =
      let filtered = filter fits engrams in
      elim (Bool-cases (is_empty filtered)) [
        | inl e ↦ rw e (
            stored-Progress parser engrams offset c c.session found read
              (ap (λ es. with_all engine es c.session.db) (sym (is_empty-nil filtered e))))
        | inr e ↦ elim (insert_batch-AllOrNothing engine filtered c.session) [
          | all r gained ↦
              rw (e, r)
                (stored-Progress parser engrams offset c (insert_batch engine filtered c.session).1
                  found read gained)
          | nothing message r same ↦ rw (e, r) (nothing_new same refl)
        ]
      ]

  -- A pass of parseAndCommit ends in one of two ways. Either what the parser read of the file from its
  -- offset on is stored, but for the payloads that are too large, which are counted, and that file's
  -- offset alone becomes the parser's; or the store and all offsets are what they were.
  pub parse_and_commit-Progress :
      (c : Capture) → Progress c (parse_and_commit engine parser_of save_fails surface path c)
  unfolding parse_and_commit
  parse_and_commit-Progress c = elim (Option-cases (parser_of surface)) [
    | inl absent ↦ rw (absent, parse_and_commit) (nothing_new refl refl)
    | inr (parser, found) ↦ elim (Option-cases (parser path (get surface path c.state))) [
      | inl failed ↦ rw (found, failed, parse_and_commit) (nothing_new refl refl)
      | inr ((engrams, offset), read) ↦
          rw (found, read, parse_and_commit) (commit-Progress parser engrams offset c found read)
    ]
  ]
