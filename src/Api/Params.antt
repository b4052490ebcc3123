-- ===== src/Api/Params.antt =====
-- The parameters of a request, as the handlers of internal/api/routes.go read them: `ParseInt` and
-- `Atoi` of Go's strconv for base 10 and 64 bits, and `TrimSpace` of its strings.
use eidetic_daemon.Prelude.{
  ℕ, zero, suc, ◌+◌, ◌-◌, ◌*◌, ◌^◌, ltb, leb, ◌==◌, ◌&&◌, ◌||◌, ℤ, pos, negsuc, Bool, true, false,
  [], ◌∷◌, is_empty, if◌then◌else◌,
}
use eidetic_daemon.TextSearch.{Text}

-- What ParseUint makes of the digits: a value, a syntax error, or the error that the value is out of
-- range, which it reports before it reads on.
pub data Digits : Type 0 where
  value : ℕ → Digits
  no_digits out_of_range : Digits

abbrev pub is_digit : ℕ → Bool
is_digit c = leb 0x30 c && leb c 0x39

unfoldable pub read_digits : ℕ → Text → Digits
read_digits n [] = value n
read_digits n (c ∷ t) =
    let rest = read_digits (n * 10 + (c - 0x30)) t in
    if is_digit c
    then if ltb (n * 10 + (c - 0x30)) (2 ^ 64) then rest else out_of_range
    else no_digits

unfoldable pub parse_uint : Text → Digits
parse_uint t = if is_empty t then no_digits else read_digits 0 t

-- The value, and whether there is no error. Both matter: the handlers drop the error of a time or
-- a limit and go on with the value.
unfoldable pub non_negative : Digits → ℤ × Bool
non_negative no_digits = (pos 0, false)
non_negative out_of_range = (pos (2 ^ 63 - 1), false)
non_negative (value n) = if ltb n (2 ^ 63) then (pos n, true) else (pos (2 ^ 63 - 1), false)

abbrev pub negate : ℕ → ℤ
negate zero = pos 0
negate (suc n) = negsuc n

unfoldable pub non_positive : Digits → ℤ × Bool
non_positive no_digits = (pos 0, false)
non_positive out_of_range = (negsuc (2 ^ 63 - 1), false)
non_positive (value n) = if leb n (2 ^ 63) then (negate n, true) else (negsuc (2 ^ 63 - 1), false)

unfoldable pub parse_int : Text → ℤ × Bool
parse_int [] = (pos 0, false)
parse_int (c ∷ t) =
    if c == b'+'
    then non_negative (parse_uint t)
    else if c == b'-'
    then non_positive (parse_uint t)
    else non_negative (parse_uint (c ∷ t))

-- The value alone: `x, _ := strconv.ParseInt(…)`.
abbrev pub int_or_zero : Text → ℤ
int_or_zero t = (parse_int t).0

-- unicode.IsSpace
unfoldable pub is_space : ℕ → Bool
is_space r =
    (leb 0x09 r && leb r 0x0d)
    || (r == 0x20)
    || (r == 0x85)
    || (r == 0xa0)
    || (r == 0x1680)
    || (leb 0x2000 r && leb r 0x200a)
    || (r == 0x2028)
    || (r == 0x2029)
    || (r == 0x202f)
    || (r == 0x205f)
    || (r == 0x3000)

unfoldable pub trim_left : Text → Text
trim_left [] = []
trim_left (r ∷ t) = let rest = trim_left t in if is_space r then rest else r ∷ t

unfoldable pub trim_end : Text → Text
trim_end [] = []
trim_end (r ∷ t) = let rest = trim_end t in if is_empty rest && is_space r then [] else r ∷ rest

unfoldable pub trim_space : Text → Text
trim_space t = trim_end (trim_left t)
