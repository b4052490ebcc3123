-- ===== src/VersionCheck.antt =====
-- internal/versioncheck/versioncheck.go: the latest release, and whether it is newer. A text is the
-- list of its runes; the answer of the release server is an argument, and so are the failures of the
-- cache file.
pub mod Order
use eidetic_daemon.Prelude.{
  ℕ, ℤ, signed_64, pos, negsuc, ltb_ℤ, eqb_ℤ, ◌+◌, ◌-◌, ◌*◌, ◌%◌, ◌^◌, ltb, leb, ◌==◌, ◌&&◌, ◌||◌,
  Bool, true, false, Option, none, some, List, [], ◌∷◌, ◌++◌, length, drop, codes, has_prefix,
  is_empty, if◌then◌else◌,
}
use eidetic_daemon.TextSearch.{Text, same_text}
use eidetic_daemon.Dict.{lookup, put}
use eidetic_daemon.Files.{Files, try_rename}

abbrev pub Version : Type 0
Version = ℤ × ℤ × ℤ

-- The digits before the first other rune.
unfoldable pub digits : Text → Text
digits [] = []
digits (r ∷ t) = let rest = digits t in if ltb r 0x30 || ltb 0x39 r then [] else r ∷ rest

-- n*10 + int(r-'0') in 64 bits
abbrev pub value_of : ℕ → Text → ℕ
value_of n [] = n
value_of n (r ∷ t) = value_of ((n * 10 + (r - 0x30)) % 2 ^ 64) t

unfoldable pub part : Text → Option ℤ
unfolding digits
part p = let d = digits p in if is_empty d then none else some (signed_64 (value_of 0 d))

-- The text before the first dot, and the one after it.
unfoldable pub cut_dot : Text → Option (Text × Text)
cut_dot [] = none
cut_dot (r ∷ t) =
    let rest = cut_dot t in
    if r == 0x2e
    then some ([], t)
    else elim rest [ none ↦ none | some (before, after) ↦ some (r ∷ before, after) ]

-- strings.SplitN(s, ".", 3), if it has three parts
unfoldable pub three_parts : Text → Option (Text × Text × Text)
unfolding cut_dot
three_parts s = elim (cut_dot s) [
  | none ↦ none
  | some (p, rest) ↦ elim (cut_dot rest) [ none ↦ none | some (q, r) ↦ some (p, q, r) ]
]

abbrev pub all_parts : Option ℤ → Option ℤ → Option ℤ → Option Version
all_parts (some a) (some b) (some c) = some (a, b, c)
all_parts _ _ _ = none

unfoldable pub parse_semver : Text → Option Version
unfolding three_parts part has_prefix
parse_semver s = elim (three_parts (if has_prefix (codes "v") s then drop 1 s else s)) [
  | none ↦ none
  | some (p, q, r) ↦ all_parts (part p) (part q) (part r)
]

-- One round of the loop over the three numbers; `rest` is what the later rounds return.
abbrev pub differ_or : ℤ → ℤ → Bool → Bool
differ_or a b rest = if eqb_ℤ a b then rest else ltb_ℤ a b

unfoldable pub version_less : Version → Version → Bool
version_less (a, b, c) (d, e, f) = differ_or a d (differ_or b e (differ_or c f false))

abbrev pub both_less : Option Version → Option Version → Bool
both_less (some a) (some b) = version_less a b
both_less _ _ = false

unfoldable pub semver_less : Text → Text → Bool
unfolding parse_semver version_less
semver_less v0 v1 = both_less (parse_semver v0) (parse_semver v1)

-- UpdateAvailable, of a checker that holds `latest`
unfoldable pub update_available : Text → Text → Bool
unfolding semver_less same_text
update_available latest current =
    if is_empty latest || (is_empty current || same_text current (codes "dev"))
    then false
    else semver_less current latest

-- The text after the last "/tag/".
unfoldable pub after_tag : Text → Option Text
unfolding has_prefix
after_tag [] = none
after_tag (r ∷ t) = elim (after_tag t) [
  | some tag ↦ some tag
  | none ↦ if has_prefix (codes "/tag/") (r ∷ t) then some (drop 5 (r ∷ t)) else none
]

-- The cache file; what decoding it gives is in it.
pub record Cached : Type 0 where
  pub checked_at : ℤ
  pub latest_version : Text

pub record Checker : Type 0 where
  pub latest : Text
  pub data_dir : Text

abbrev pub cache_path : Text → Text
cache_path dir = dir ++ 0x2f ∷ codes "version-check.json"

-- New, with whether the cache file cannot be read or decoded
unfoldable pub new_checker : Bool → Text → Files Cached → Checker
unfolding lookup
new_checker true dir files = record { latest = []; data_dir = dir }
new_checker false dir files = elim (lookup (cache_path dir) files) [
  | none ↦ record { latest = []; data_dir = dir }
  | some cached ↦ record { latest = cached.latest_version; data_dir = dir }
]

-- os.WriteFile, which leaves what it is said to leave if it fails, and os.Rename
unfoldable pub save_cache :
    Option (Option Cached) → Bool → Text → Cached → Files Cached → Files Cached
unfolding put try_rename
save_cache (some none) rename_fails dir cached files = files
save_cache (some (some part)) rename_fails dir cached files =
    put (cache_path dir ++ codes ".tmp") part files
save_cache none rename_fails dir cached files =
    let tmp = cache_path dir ++ codes ".tmp" in
    (try_rename rename_fails tmp (cache_path dir) (put tmp cached files)).1

-- pollOnce, from the header Location of the answer, none if the request fails
unfoldable pub poll_once :
    Option (Option Cached)
    → Bool
    → ℤ
    → Option Text
    → Checker
    → Files Cached
    → Checker × Files Cached
unfolding after_tag save_cache
poll_once write_fails rename_fails now none c files = (c, files)
poll_once write_fails rename_fails now (some location) c files = elim (after_tag location) [
  | none ↦ (c, files)
  | some [] ↦ (c, files)
  | some (r ∷ tag) ↦
      let cached : Cached = record { checked_at = now; latest_version = r ∷ tag } in
      (record c { latest = r ∷ tag }, save_cache write_fails rename_fails c.data_dir cached files)
]
