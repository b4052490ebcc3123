-- ===== src/Store/Paging.antt =====
-- Rows in the order (ts, id): the compound cursor of `RetrieveAfter` cuts a sorted list at a row.
use eidetic_daemon.Prelude.{
  ℕ, zero, suc, ◌≤◌, ℤ, eqb_ℤ, ltb_ℤ, arith, ◌≡◌, refl, subst, Bool-cases, inl, inr, Bool, true,
  false, ◌&&◌, ◌||◌, some, List, [], ◌∷◌, ◌++◌, take, drop, last?, All, All-append, All-take,
  SameItems, count_p,
}
use eidetic_daemon.Store.Schema.{Row}
use eidetic_daemon.Store.Engine.{ts_id_asc, precedes, IsOrdered}
use eidetic_daemon.Store.Index.{Distinct}

-- Every row comes strictly before those behind it.
abbrev pub IsIncreasing : List Row → Type 0
IsIncreasing [] = Unit
IsIncreasing (x ∷ xs) = All (λ y. precedes ts_id_asc x y ≡ true) xs × IsIncreasing xs

has_id : ℤ → Row → Bool
has_id i r = eqb_ℤ r.id i

count-has_id_of_new :
    (i : ℤ) (xs : List Row) → All (λ y. eqb_ℤ y.id i ≡ false) xs → count_p (has_id i) xs ≡ 0
unfolding has_id
count-has_id_of_new i [] h = refl
count-has_id_of_new i (x ∷ xs) h = ground (arith, count-has_id_of_new i xs h.1)

new_of_count-has_id :
    (i : ℤ) (xs : List Row) → count_p (has_id i) xs ≡ 0 → All (λ y. eqb_ℤ y.id i ≡ false) xs
unfolding has_id
new_of_count-has_id i [] h = tt
new_of_count-has_id i (x ∷ xs) h = (ground arith, new_of_count-has_id i xs (ground arith))

new_elsewhere :
    (i j : ℤ) (xs : List Row)
    → eqb_ℤ i j ≡ true
    → All (λ y. eqb_ℤ y.id i ≡ false) xs
    → All (λ y. eqb_ℤ y.id j ≡ false) xs
new_elsewhere i j [] e h = tt
new_elsewhere i j (x ∷ xs) e h = (ground arith, new_elsewhere i j xs e h.1)

count-has_id-le : (i : ℤ) (xs : List Row) → Distinct xs → count_p (has_id i) xs ≤ 1
unfolding has_id
count-has_id-le i [] d = omega arith
count-has_id-le i (x ∷ xs) d = elim (Bool-cases (eqb_ℤ x.id i)) [
  | inl e ↦ ground (arith, count-has_id_of_new i xs (new_elsewhere x.id i xs e d.0))
  | inr e ↦ ground (arith, count-has_id-le i xs d.1)
]

Distinct-of_count : (xs : List Row) → ((i : ℤ) → count_p (has_id i) xs ≤ 1) → Distinct xs
unfolding has_id
Distinct-of_count [] h = tt
Distinct-of_count (x ∷ xs) h = (
  new_of_count-has_id x.id xs (ground (arith, h x.id)),
  Distinct-of_count xs (λ i. ground (arith, h i)),
)

pub Distinct-SameItems : (xs ys : List Row) → SameItems xs ys → Distinct xs → Distinct ys
Distinct-SameItems xs ys same d =
    Distinct-of_count ys (λ i. omega (arith, same (has_id i), count-has_id-le i xs d))

increasing_row :
    (x : Row) (xs : List Row)
    → All (λ y. precedes ts_id_asc y x ≡ false) xs
    → All (λ y. eqb_ℤ y.id x.id ≡ false) xs
    → All (λ y. precedes ts_id_asc x y ≡ true) xs
increasing_row x [] o d = tt
increasing_row x (y ∷ ys) o d = (ground arith, increasing_row x ys o.1 d.1)

-- With distinct ids, a list sorted by (ts, id) is strictly increasing.
pub IsIncreasing-of_IsOrdered :
    (xs : List Row) → IsOrdered ts_id_asc xs → Distinct xs → IsIncreasing xs
IsIncreasing-of_IsOrdered [] o d = tt
IsIncreasing-of_IsOrdered (x ∷ xs) o d =
    (increasing_row x xs o.0 d.0, IsIncreasing-of_IsOrdered xs o.1 d.1)

-- (ts > ? OR (ts = ? AND id > ?)), the cursor standing at a row
abbrev pub past_row : Row → Row → Bool
past_row r x = ltb_ℤ r.ts x.ts || (eqb_ℤ x.ts r.ts && ltb_ℤ r.id x.id)

-- What the last row of a page says of the page and of the rows behind it.
pub record Cut (r : Row) (page rest : List Row) : Type 0 where
  pub behind : All (λ y. past_row r y ≡ false) page
  pub ahead : All (λ z. past_row r z ≡ true) rest

past_row_of_precedes :
    (r : Row) (xs : List Row)
    → All (λ z. precedes ts_id_asc r z ≡ true) xs
    → All (λ z. past_row r z ≡ true) xs
past_row_of_precedes r [] h = tt
past_row_of_precedes r (x ∷ xs) h = (ground arith, past_row_of_precedes r xs h.1)

last-precedes :
    (x : Row) (n : ℕ) (xs : List Row) (r : Row)
    → All (λ y. precedes ts_id_asc x y ≡ true) xs
    → last? (take n xs) ≡ some r
    → precedes ts_id_asc x r ≡ true
last-precedes x (suc zero) (y ∷ xs) r h e = ground arith
last-precedes x (suc (suc n)) (y ∷ []) r h e = ground arith
last-precedes x (suc (suc n)) (y ∷ z ∷ xs) r h e = last-precedes x (suc n) (z ∷ xs) r h.1 e
last-precedes x _ _ r h e = cc

Cut-one :
    (x r : Row) (xs : List Row)
    → x ≡ r
    → All (λ z. precedes ts_id_asc x z ≡ true) xs
    → Cut r (x ∷ []) xs
Cut-one x r xs e o =
    subst (λ k. Cut k (x ∷ []) xs) e
      (record { behind = (ground arith, tt); ahead = past_row_of_precedes x xs o })

-- The first `n` rows of an increasing list and the others are cut at the last of the first.
pub Cut-take :
    (n : ℕ) (xs : List Row) (r : Row)
    → IsIncreasing xs
    → last? (take n xs) ≡ some r
    → Cut r (take n xs) (drop n xs)
Cut-take (suc zero) (x ∷ xs) r o e = Cut-one x r xs (cc) o.0
Cut-take (suc (suc n)) (x ∷ []) r o e = Cut-one x r [] (cc) tt
Cut-take (suc (suc n)) (x ∷ y ∷ xs) r o e =
    let c = Cut-take (suc n) (y ∷ xs) r o.1 e in
    let p = last-precedes x (suc n) (y ∷ xs) r o.0 e in
    record { behind = (ground arith, c.behind); ahead = c.ahead }
Cut-take _ _ r o e = cc

increasing-append_row :
    (r : Row) (x : Row) (ys : List Row)
    → past_row r x ≡ false
    → All (λ z. past_row r z ≡ true) ys
    → All (λ z. precedes ts_id_asc x z ≡ true) ys
increasing-append_row r x [] e h = tt
increasing-append_row r x (y ∷ ys) e h = (ground arith, increasing-append_row r x ys e h.1)

-- An increasing page followed by increasing rows that are past its last row is increasing.
pub IsIncreasing-append :
    (r : Row) (xs ys : List Row)
    → IsIncreasing xs
    → Cut r xs ys
    → IsIncreasing ys
    → IsIncreasing (xs ++ ys)
IsIncreasing-append r [] ys o c p = p
IsIncreasing-append r (x ∷ xs) ys o c p = (
  All-append (λ z. precedes ts_id_asc x z ≡ true) xs ys o.0
      (increasing-append_row r x ys c.behind.0 c.ahead),
  IsIncreasing-append r xs ys o.1 (record { behind = c.behind.1; ahead = c.ahead }) p,
)

pub IsIncreasing-take : (n : ℕ) (xs : List Row) → IsIncreasing xs → IsIncreasing (take n xs)
IsIncreasing-take zero xs o = tt
IsIncreasing-take (suc n) [] o = tt
IsIncreasing-take (suc n) (x ∷ xs) o = (All-take _ n xs o.0, IsIncreasing-take n xs o.1)

pub IsIncreasing-drop : (n : ℕ) (xs : List Row) → IsIncreasing xs → IsIncreasing (drop n xs)
IsIncreasing-drop zero xs o = o
IsIncreasing-drop (suc n) [] o = tt
IsIncreasing-drop (suc n) (x ∷ xs) o = IsIncreasing-drop n xs o.1
