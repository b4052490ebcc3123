-- ===== src/Capture/State/Names.antt =====
-- The names in the offsets, and what JSON keeps of them.
use eidetic_daemon.Prelude.{
  ℤ, String, str_eq, ◌≡◌, Bool-cases, inl, inr, true, false, some, [], ◌∷◌, All,
}
use eidetic_daemon.Capture.State.{Offsets, Data, Json, put_offset, offsets_of, put_offsets, get_in}

module _ {Content : Type 0} (json : Json Content) where
  -- The names of the files of a surface, and of the surfaces, are UTF-8.
  abbrev pub AreNames : Offsets → Type 0
  AreNames = All (λ entry. json.is_text entry.0 ≡ true)

  abbrev pub IsNamed : Data → Type 0
  IsNamed = All (λ entry. (json.is_text entry.0 ≡ true) × AreNames entry.1)

  -- What encoding/json documents of maps whose keys are UTF-8: reading what was written gives the same
  -- entries, in any order; what is written is not empty, and what is read has UTF-8 keys.
  pub record ReadsBack : Type 0 where
    pub full : (d : Data) → json.is_blank (json.encode d) ≡ false
    pub named : (c : Content) (d : Data) → json.decode c ≡ some d → IsNamed d
    pub reads :
        (d : Data)
        → IsNamed d
        → (again : Data) × (json.decode (json.encode d) ≡ some again)
          × ((surface file : String) → get_in surface file again ≡ get_in surface file d)

  pub put_offset-AreNames :
      (file : String) (offset : ℤ) (m : Offsets)
      → json.is_text file ≡ true
      → AreNames m
      → AreNames (put_offset file offset m)
  unfolding put_offset
  put_offset-AreNames file offset [] name h = (name, tt)
  put_offset-AreNames file offset ((f, o) ∷ rest) name (h, hs) = elim (Bool-cases (str_eq f file)) [
    | inl e ↦ rw (e, put_offset) (h, hs)
    | inr e ↦ rw (e, put_offset) (h, put_offset-AreNames file offset rest name hs)
  ]

  pub offsets_of-AreNames :
      (surface : String) (d : Data) → IsNamed d → AreNames (offsets_of surface d)
  unfolding offsets_of
  offsets_of-AreNames surface [] h = tt
  offsets_of-AreNames surface ((s, m) ∷ rest) ((_, h), hs) = elim (Bool-cases (str_eq s surface)) [
    | inl e ↦ rw (e, offsets_of) h
    | inr e ↦ rw (e, offsets_of) (offsets_of-AreNames surface rest hs)
  ]

  pub put_offsets-IsNamed :
      (surface : String) (m : Offsets) (d : Data)
      → json.is_text surface ≡ true
      → AreNames m
      → IsNamed d
      → IsNamed (put_offsets surface m d)
  unfolding put_offsets
  put_offsets-IsNamed surface m [] name names h = ((name, names), tt)
  put_offsets-IsNamed surface m ((s, n) ∷ rest) name names (h, hs) =
      elim (Bool-cases (str_eq s surface)) [
        | inl e ↦ rw (e, put_offsets) ((h.0, names), hs)
        | inr e ↦ rw (e, put_offsets) (h, put_offsets-IsNamed surface m rest name names hs)
      ]
