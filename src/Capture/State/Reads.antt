-- ===== src/Capture/State/Reads.antt =====
-- What Get reads after Set and Save.
use eidetic_daemon.Prelude.{
  ℤ, eqb_ℤ, eq_of_parts, String, str_eq, eq_iff, arith, ◌≡◌, refl, ◌&&◌, Bool, Bool-cases, inl, inr,
  [], ◌∷◌, if◌then◌else◌,
}
use eidetic_daemon.Capture.State.{
  Offsets, Data, State, offset_of, put_offset, offsets_of, put_offsets, get_in, get, set, save,
}

offset_of-put_offset :
    (file other : String) (offset : ℤ) (m : Offsets)
    → offset_of other (put_offset file offset m)
      ≡ (if str_eq file other then offset else offset_of other m)
unfolding offset_of put_offset
offset_of-put_offset file other offset [] = refl
offset_of-put_offset file other offset ((f, o) ∷ rest) = ground (
  arith,
  eq_iff f file,
  eq_iff f other,
  eq_iff file other,
  offset_of-put_offset file other offset rest,
)

offsets_of-put_offsets :
    (surface other : String) (m : Offsets) (d : Data)
    → offsets_of other (put_offsets surface m d)
      ≡ (if str_eq surface other then m else offsets_of other d)
unfolding offsets_of put_offsets
offsets_of-put_offsets surface other m [] = refl
offsets_of-put_offsets surface other m ((s, n) ∷ rest) = ground (
  arith,
  eq_iff s surface,
  eq_iff s other,
  eq_iff surface other,
  offsets_of-put_offsets surface other m rest,
)

-- Set is read back by Get, and every other file of every surface keeps its offset.
pub get-set :
    (surface file surface' file' : String) (offset : ℤ) (s : State)
    → get surface' file' (set surface file offset s)
      ≡ (if str_eq surface surface' && str_eq file file' then offset else get surface' file' s)
unfolding get set get_in
get-set surface file surface' file' offset s =
    elim (Bool-cases (eqb_ℤ (offset_of file (offsets_of surface s.data_)) offset)) [
      | inl e ↦
          rw
            (
              e,
              set,
              get,
              get_in,
              offsets_of-put_offsets surface surface' (offsets_of surface s.data_) s.data_,
            )
            (ground (
              arith,
              eq_iff surface surface',
              eq_iff file file',
              eq_of_parts (offset_of file (offsets_of surface s.data_)) offset (ground (arith, e)),
            ))
      | inr e ↦
          rw
            (
              e,
              set,
              get,
              get_in,
              offsets_of-put_offsets surface surface'
                  (put_offset file offset (offsets_of surface s.data_)) s.data_,
            )
            (ground (
              arith,
              eq_iff surface surface',
              eq_iff file file',
              offset_of-put_offset file file' offset (offsets_of surface s.data_),
            ))
    ]

-- Save keeps every offset in memory.
pub get-save :
    (fails : Bool) (surface path : String) (s : State)
    → get surface path (save fails s).1 ≡ get surface path s
unfolding get save
get-save fails surface path s = elim (Bool-cases s.dirty) [
  | inl marked ↦ elim (Bool-cases fails) [
    | inl e ↦ rw (marked, e, save) refl
    | inr e ↦ rw (marked, e, save) refl
  ]
  | inr clean ↦ rw (clean, save) refl
]

pub put_same :
    (surface surface' file' : String) (d : Data)
    → get_in surface' file' (put_offsets surface (offsets_of surface d) d) ≡ get_in surface' file' d
unfolding get_in
put_same surface surface' file' d =
    rw (offsets_of-put_offsets surface surface' (offsets_of surface d) d)
      (ground (arith, eq_iff surface surface'))
