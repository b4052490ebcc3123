-- ===== src/Capture/State/Roundtrip.antt =====
-- What was set can be read back by the next run of the daemon.
use eidetic_daemon.Prelude.{
  ℤ, eqb_ℤ, String, arith, ◌≡◌, refl, sym, ap, ◌∙◌, Bool, Bool-cases, inl, inr, true, false, Option,
  none, some, Option-cases, List, [], ◌∷◌, All, if◌then◌else◌,
}
use mathlib.Core.Option.{some-injective}
use eidetic_daemon.Capture.State.{
  Data, State, Json, starting, load_content, load_state, file_of, offset_of, put_offset, offsets_of,
  get_in, get, set, save,
}
use eidetic_daemon.Capture.State.Reads.{put_same, get-save}
use eidetic_daemon.Capture.State.Names.{
  IsNamed, ReadsBack, put_offset-AreNames, offsets_of-AreNames, put_offsets-IsNamed,
}

-- A Set, or a Save that fails or not.
pub data Use : Type 0 where
  sets : String → String → ℤ → Use
  saves : Bool → Use

unfoldable pub use_all : List Use → State → State
use_all [] s = s
use_all (sets surface file offset ∷ us) s = use_all us (set surface file offset s)
use_all (saves fails ∷ us) s = use_all us (save fails s).1

module _ {Content : Type 0} (json : Json Content) where
  abbrev pub IsNamedUse : Use → Type 0
  IsNamedUse (sets surface file offset) = (json.is_text surface ≡ true) × (json.is_text file ≡ true)
  IsNamedUse (saves fails) = Unit

  -- What the state file stands for, if it stood for `first` when it was loaded.
  abbrev saved_data : Data → State → Data
  saved_data first s = elim s.written [ none ↦ first | some d ↦ d ]

  -- In memory and in the state file stand the same offsets, unless the state is marked dirty.
  record IsSynced (first : Data) (s : State) : Type 0 where
    same :
        s.dirty ≡ false
        → (surface file : String)
        → get_in surface file s.data_ ≡ get_in surface file (saved_data first s)
    in_memory : IsNamed json s.data_
    on_disk : IsNamed json (saved_data first s)

  set-IsSynced :
      (first : Data) (surface file : String) (offset : ℤ) (s : State)
      → json.is_text surface ≡ true
      → json.is_text file ≡ true
      → IsSynced first s
      → IsSynced first (set surface file offset s)
  unfolding set
  set-IsSynced first surface file offset s surface_name file_name h =
      let m = offsets_of surface s.data_ in
      let names = offsets_of-AreNames json surface s.data_ h.in_memory in
      elim (Bool-cases (eqb_ℤ (offset_of file m) offset)) [
        | inl e ↦
            rw (e, set)
              (record {
                same = λ clean surface' file'.
                    put_same surface surface' file' s.data_ ∙ h.same clean surface' file';
                in_memory =
                    put_offsets-IsNamed json surface m s.data_ surface_name names h.in_memory;
                on_disk = h.on_disk;
              })
        | inr e ↦
            rw (e, set)
              (record {
                same = λ clean surface' file'. absurd (ground arith);
                in_memory =
                    put_offsets-IsNamed json surface (put_offset file offset m) s.data_ surface_name
                      (put_offset-AreNames json file offset m file_name names) h.in_memory;
                on_disk = h.on_disk;
              })
      ]

  save-IsSynced :
      (first : Data) (fails : Bool) (s : State) → IsSynced first s → IsSynced first (save fails s).1
  unfolding save
  save-IsSynced first fails s h = by_dirty s.dirty fails
    where
      by_dirty :
          (dirty f : Bool)
          → let r : Bool × State =
              if dirty
              then (if f
                  then (false, s)
                  else (true, record s { dirty = false; written = some s.data_ }))
              else (true, s) in
            IsSynced first r.1
      by_dirty true true = h
      by_dirty true false = record {
        same = λ _ _ _. refl;
        in_memory = h.in_memory;
        on_disk = h.in_memory;
      }
      by_dirty false f = h

  use_all-IsSynced :
      (first : Data) (us : List Use) (s : State)
      → All IsNamedUse us
      → IsSynced first s
      → IsSynced first (use_all us s)
  unfolding use_all
  use_all-IsSynced first [] s names h = h
  use_all-IsSynced first (sets surface file offset ∷ us) s ((m, n), names) h =
      use_all-IsSynced first us (set surface file offset s) names
        (set-IsSynced first surface file offset s m n h)
  use_all-IsSynced first (saves fails ∷ us) s (_, names) h =
      use_all-IsSynced first us (save fails s).1 names (save-IsSynced first fails s h)

  -- What LoadState returns is a start from some data.
  load_state_starts :
      (file : Option Content) (loaded : State)
      → ReadsBack json
      → load_state json false file ≡ some loaded
      → (first : Data) × (loaded ≡ starting first) × IsNamed json first
  unfolding load_state load_content
  load_state_starts none loaded law h = ([], sym (some-injective _ _ h), tt)
  load_state_starts (some c) loaded law h = elim (Bool-cases (json.is_blank c)) [
    | inl e ↦ ([], sym (some-injective _ _ (rw (e, load_state, load_content) at h)), tt)
    | inr e ↦ elim (Option-cases (json.decode c)) [
      | inl k ↦ (let g = rw (e, k, load_state, load_content) at h in absurd (ground arith))
      | inr (d, k) ↦
          (d, sym (some-injective _ _ (rw (e, k, load_state, load_content) at h)), law.named c d k)
    ]
  ]

  save_clean : (fails : Bool) (s : State) → (save fails s).0 ≡ true → (save fails s).1.dirty ≡ false
  unfolding save
  save_clean fails s ok = by_dirty s.dirty fails refl ok
    where
      by_dirty :
          (dirty f : Bool)
          → s.dirty ≡ dirty
          → let r : Bool × State =
              if dirty
              then (if f
                  then (false, s)
                  else (true, record s { dirty = false; written = some s.data_ }))
              else (true, s) in
            r.0 ≡ true → r.1.dirty ≡ false
      by_dirty true true e r = absurd (ground arith)
      by_dirty true false e r = refl
      by_dirty false f e r = e

  -- The file, from which it was loaded or which Save wrote, loads as data with the same offsets.
  file_of-loads :
      (law : ReadsBack json) (file : Option Content) (first : Data) (s : State)
      → load_state json false file ≡ some (starting first)
      → IsNamed json (saved_data first s)
      → (again : State) × (load_state json false (file_of json file s) ≡ some again)
        × ((surface path : String)
            → get surface path again ≡ get_in surface path (saved_data first s))
  unfolding load_state load_content file_of get
  file_of-loads law file first s h named = by_written s.written named
    where
      by_written :
          (written : Option Data)
          → IsNamed json (elim written [ none ↦ first | some d ↦ d ])
          → (again : State) × (load_content json
                (elim written [ none ↦ file | some d ↦ some (json.encode d) ])
              ≡ some again)
            × ((surface path : String)
                → get_in surface path again.data_
                  ≡ get_in surface path (elim written [ none ↦ first | some d ↦ d ]))
      by_written none n = (starting first, h, λ _ _. refl)
      by_written (some d) n =
          let (again, e, same) = law.reads d n in
          (starting again, rw (law.full d, e, load_content) refl, same)

  -- A state loaded from a state file that can be read and parsed is used by any calls of Set, with UTF-8
  -- names and any offsets, and of Save, each of which may fail. After a Save that returns no error, the
  -- next run of the daemon can read and parse the state file again, and finds the same offset for every
  -- file of every surface. JSON reads back what it wrote of such names.
  pub load_state-save :
      ReadsBack json
      → (file : Option Content) (loaded : State) (us : List Use) (fails : Bool)
      → load_state json false file ≡ some loaded
      → All IsNamedUse us
      → (save fails (use_all us loaded)).0 ≡ true
      → (again : State) × (load_state json false
            (file_of json file (save fails (use_all us loaded)).1)
          ≡ some again)
        × ((surface path : String) → get surface path again ≡ get surface path (use_all us loaded))
  unfolding get
  load_state-save law file loaded us fails h names ok =
      let (first, start, named) = load_state_starts file loaded law h in
      let s = use_all us loaded in
      let clean : IsSynced first loaded =
        rw start (record { same = λ _ _ _. refl; in_memory = named; on_disk = named }) in
      let synced = use_all-IsSynced first us loaded names clean in
      let after = save-IsSynced first fails s synced in
      let (again, e, same) =
        file_of-loads law file first (save fails s).1 (h ∙ ap some start) after.on_disk in
      (
        again,
        e,
        λ surface path.
            same surface path
            ∙ sym (after.same (save_clean fails s ok) surface path)
            ∙ get-save fails surface path s,
      )
