-- ===== src/Prelude/Bytes.antt =====
-- What the source uses of Go's packages `bytes` and `strings`, on lists of bytes.
use Prim.Native.Nat.{ℕ, suc}
use mathlib.Core.Bool.{Bool, true, false, ◌&&◌, ◌||◌}
use mathlib.Core.List.{List, [], ◌∷◌}
use mathlib.Core.Option
use mathlib.Core.Option.{Option, none, some}
use eidetic_daemon.Prelude.Tests.{◌==◌, if◌then◌else◌}
use eidetic_daemon.Prelude.Lists.{last?}

abbrev pub is_empty {ℓ} : {A : Type ℓ} → List A → Bool
is_empty [] = true
is_empty (x ∷ xs) = false

-- strings.HasPrefix
unfoldable pub has_prefix : List ℕ → List ℕ → Bool
has_prefix [] s = true
has_prefix (p ∷ ps) [] = false
has_prefix (p ∷ ps) (c ∷ s) = p == c && has_prefix ps s

-- strings.Index: where the text first occurs
unfoldable pub index_of : List ℕ → List ℕ → Option ℕ
unfolding has_prefix
index_of t [] = if is_empty t then some 0 else none
index_of t (c ∷ s) =
    let rest = index_of t s in if has_prefix t (c ∷ s) then some 0 else Option.map suc rest

-- bytes.LastIndexByte
unfoldable pub last_index : ℕ → List ℕ → Option ℕ
last_index b [] = none
last_index b (c ∷ s) = elim (last_index b s) [
  | some i ↦ some (suc i)
  | none ↦ if c == b then some 0 else none
]

abbrev pub push_front : ℕ → List (List ℕ) → List (List ℕ)
push_front c [] = (c ∷ []) ∷ []
push_front c (l ∷ ls) = (c ∷ l) ∷ ls

-- bytes.Split by one byte: always at least one piece
unfoldable pub split_on : ℕ → List ℕ → List (List ℕ)
split_on b [] = [] ∷ []
split_on b (c ∷ s) = let rest = split_on b s in if c == b then [] ∷ rest else push_front c rest

-- strings.TrimRight by one byte
unfoldable pub trim_right : ℕ → List ℕ → List ℕ
trim_right b [] = []
trim_right b (c ∷ s) = let rest = trim_right b s in if is_empty rest && c == b then [] else c ∷ rest

-- len(s) > 0 && s[len(s)-1] == b
unfoldable pub ends_with : ℕ → List ℕ → Bool
ends_with b s = elim (last? s) [ none ↦ false | some c ↦ c == b ]

-- strings.Contains
unfoldable pub contains : List ℕ → List ℕ → Bool
unfolding has_prefix
contains t [] = is_empty t
contains t (c ∷ s) = has_prefix t (c ∷ s) || contains t s
