-- ===== src/Capture/State.antt =====
-- `State` of internal/capture/state.go: for each surface and file the offset up to which the file is
-- consumed, in memory and in the state file. What the state file holds, and how encoding/json writes and
-- reads it, is a parameter. Whether reading the file fails, and whether its write or its rename does, are
-- arguments. A state file that holds `null` for a map is not modelled: a nil map cannot be written to.
pub mod Reads
pub mod Names
pub mod Roundtrip
use eidetic_daemon.Prelude.{
  ◌≡◌, ℤ, pos, eqb_ℤ, String, str_eq, Bool, true, false, Option, none, some, List, [], ◌∷◌, All,
  if◌then◌else◌,
}

abbrev pub Offsets : Type 0
Offsets = List (String × ℤ)

abbrev pub Data : Type 0
Data = List (String × Offsets)

-- `written` is what this run's last Save that returned no error wrote, if there was one.
pub record State : Type 0 where
  pub data_ : Data
  pub dirty : Bool
  pub written : Option Data

-- json.MarshalIndent and json.Unmarshal, whether a file is empty, and whether a name is UTF-8, which is
-- what JSON keeps of it
pub record Json (Content : Type 0) : Type 0 where
  pub encode : Data → Content
  pub decode : Content → Option Data
  pub is_blank : Content → Bool
  pub is_text : String → Bool

abbrev pub starting : Data → State
starting d = record { data_ = d; dirty = false; written = none }

module _ {Content : Type 0} (json : Json Content) where
  -- What os.ReadFile found: nothing where there is no file.
  unfoldable pub load_content : Option Content → Option State
  load_content none = some (starting [])
  load_content (some c) =
      if json.is_blank c
      then some (starting [])
      else elim (json.decode c) [ none ↦ none | some d ↦ some (starting d) ]

  -- LoadState; `none` is its error.
  unfoldable pub load_state : Bool → Option Content → Option State
  load_state read_fails file = if read_fails then none else load_content file

  -- The state file, from what it was when it was loaded.
  unfoldable pub file_of : Option Content → State → Option Content
  file_of file s = elim s.written [ none ↦ file | some d ↦ some (json.encode d) ]

-- m[file], 0 if it is not there
unfoldable pub offset_of : String → Offsets → ℤ
offset_of file [] = pos 0
offset_of file ((f, o) ∷ rest) =
    let later = offset_of file rest in if str_eq f file then o else later

unfoldable pub put_offset : String → ℤ → Offsets → Offsets
put_offset file offset [] = (file, offset) ∷ []
put_offset file offset ((f, o) ∷ rest) =
    let later = put_offset file offset rest in
    if str_eq f file then (f, offset) ∷ rest else (f, o) ∷ later

-- s.data[surface], empty if it is not there
unfoldable pub offsets_of : String → Data → Offsets
offsets_of surface [] = []
offsets_of surface ((s, m) ∷ rest) =
    let later = offsets_of surface rest in if str_eq s surface then m else later

unfoldable pub put_offsets : String → Offsets → Data → Data
put_offsets surface m [] = (surface, m) ∷ []
put_offsets surface m ((s, n) ∷ rest) =
    let later = put_offsets surface m rest in
    if str_eq s surface then (s, m) ∷ rest else (s, n) ∷ later

unfoldable pub get_in : String → String → Data → ℤ
get_in surface file d = offset_of file (offsets_of surface d)

unfoldable pub get : String → String → State → ℤ
get surface file s = get_in surface file s.data_

-- The map of a surface is made before the early return.
unfoldable pub set : String → String → ℤ → State → State
set surface file offset s =
    let m = offsets_of surface s.data_ in
    if eqb_ℤ (offset_of file m) offset
    then record s { data_ = put_offsets surface m s.data_ }
    else record s { data_ = put_offsets surface (put_offset file offset m) s.data_; dirty = true }

-- Save, and whether it returned no error.
unfoldable pub save : Bool → State → Bool × State
save fails s =
    if s.dirty
    then (if fails then (false, s) else (true, record s { dirty = false; written = some s.data_ }))
    else (true, s)
