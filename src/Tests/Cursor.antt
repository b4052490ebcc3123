-- ===== src/Tests/Cursor.antt =====
-- A file that is saved twice with the same content.
use mathlib.Core.Option
use eidetic_daemon.Prelude.{
  ◌∷◌, ℤ, map, pos, eqb_ℤ, ◌≡◌, ◌⊎◌, refl, arith, codes, some, List, [], false,
}
use eidetic_daemon.Engram.{Bytes, Engram}
use eidetic_daemon.Capture.Cursor.{File, padded, emit_whole, read_full, hash_offset, parse_cursor}
use eidetic_daemon.Capture.Cursor.Whole.{Whole, parse_cursor-Whole}

-- A stand-in for the hash.
abbrev first_bytes : Bytes → Bytes
first_bytes bytes = bytes

abbrev saved : File
saved = record { size = 5; mod_time = pos 7; content = codes "hello"; read_fails = false }

again :
    parse_cursor first_bytes "cursor" "a.json" (pos 448378203247) (some saved)
    ≡ some ([], pos 448378203247)
unfolding parse_cursor read_full hash_offset
again = refl

-- Between Stat and the read the file lost two bytes: it is emitted with zeros in their place.
abbrev shortened : File
shortened = record saved { content = codes "hel" }

filled_up :
    Option.map
      (λ (r : List Engram × ℤ). map (λ e. e.payload) r.0)
      (parse_cursor first_bytes "cursor" "a.json" (pos 0) (some shortened))
    ≡ some ((104 ∷ 101 ∷ 108 ∷ 0 ∷ 0 ∷ []) ∷ [])
unfolding parse_cursor read_full hash_offset emit_whole
filled_up = refl

parse_cursor-Whole_example :
    let buf = padded 5 (codes "hel") in
    let offset = hash_offset first_bytes "cursor" "a.json" buf in
    ((es : List Engram) × (parse_cursor first_bytes "cursor" "a.json" (pos 0) (some shortened)
        ≡ some (es, offset))
      × (((es ≡ []) × (pos 0 ≡ offset)) ⊎ Whole first_bytes "cursor" "a.json" buf es))
    × (eqb_ℤ offset (pos 0) ≡ false
        → parse_cursor first_bytes "cursor" "a.json" offset (some shortened) ≡ some ([], offset))
parse_cursor-Whole_example =
    parse_cursor-Whole first_bytes "cursor" "a.json" (pos 0) shortened (omega arith) (omega arith)
      refl (omega arith)
