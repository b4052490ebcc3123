-- ===== src/Auth.antt =====
-- internal/auth/auth.go: the bearer token that protects the HTTP interface. A text is the list of its
-- code points; a token from `Generate` has ASCII characters only, and for those it makes no difference
-- that the source compares bytes.
pub mod Equality
pub mod Accepts
use Prim.Native.Nat.{bit_or, bit_xor}
use eidetic_daemon.Prelude.{
  ℕ, ◌+◌, ◌/◌, ◌%◌, ltb, leb, ◌==◌, ◌&&◌, ◌||◌, not, Bool, true, false, Option, none, some, List,
  [], ◌∷◌, ◌++◌, map, length, take, drop, codes, is_empty, if◌then◌else◌,
}
use eidetic_daemon.TextSearch.{Text, lower, member, same_text}
use eidetic_daemon.Api.Params.{trim_space}

-- hex.EncodeToString
unfoldable pub hex_digit : ℕ → ℕ
hex_digit d = if ltb d 10 then 0x30 + d else 0x57 + d

unfoldable pub hex_encode : List ℕ → Text
unfolding hex_digit
hex_encode [] = []
hex_encode (b ∷ bytes) = hex_digit (b / 16) ∷ hex_digit (b % 16) ∷ hex_encode bytes

-- The errors of `Validate`; `none` is a match.
pub data Rejection : Type 0 where
  token_not_set missing_token token_mismatch : Rejection

-- The loop of `subtleConstantTimeEqual` over texts of one length.
unfoldable pub difference : ℕ → Text → Text → ℕ
difference diff (a ∷ s) (b ∷ t) = difference (bit_or diff (bit_xor a b)) s t
difference diff _ _ = diff

unfoldable pub constant_time_equal : Text → Text → Bool
unfolding difference
constant_time_equal a b = length a == length b && difference 0 a b == 0

-- strings.EqualFold with "bearer ", whose letters have no other forms
abbrev pub is_bearer : Text → Bool
is_bearer scheme = same_text (map lower scheme) (codes "bearer ")

unfoldable pub strip_scheme : Text → Text
strip_scheme got = if leb 7 (length got) && is_bearer (take 7 got) then drop 7 got else got

-- The token that a header carries.
unfoldable pub presented : Text → Text
unfolding strip_scheme
presented header = trim_space (strip_scheme (trim_space header))

unfoldable pub validate : Text → Text → Option Rejection
validate want header =
    if is_empty want
    then some token_not_set
    else if is_empty (presented header)
    then some missing_token
    else if not (length (presented header) == length want)
    then some token_mismatch
    else if constant_time_equal (presented header) want
    then none
    else some token_mismatch

-- Enabled
unfoldable pub enabled : Text → Bool
enabled token = not (is_empty token)

module _ {R : Type 0} where
  -- `rejected` is the answer 401 and `next` what the protected handler does.
  unfoldable pub middleware : Text → List Text → Text → Text → R → R → R
  middleware token open_paths path header rejected next =
      if not (enabled token)
      then next
      else if member path open_paths
      then next
      else elim (validate token header) [ none ↦ next | some _ ↦ rejected ]
