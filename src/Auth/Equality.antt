-- ===== src/Auth/Equality.antt =====
-- The comparison in constant time is equality.
use Prim.Native.Nat.{max, differ, digits, bit_or, bit_or-bitwise, bit_xor, bit_xor-bitwise}
use eidetic_daemon.Prelude.{
  ℕ, zero, suc, ◌/◌, ◌%◌, ◌≤◌, arith, ◌↔◌, ◌≡◌, refl, sym, ◌∙◌, ap, ap₂, subst, true, [], ◌∷◌,
  length,
}
use eidetic_daemon.TextSearch.{Text}
use eidetic_daemon.Auth.{difference, constant_time_equal}

differ-zero : (x y : ℕ) → differ x y ≡ 0 → x ≡ y
differ-zero zero y h = sym h
differ-zero (suc x) zero h = h
differ-zero (suc x) (suc y) h = ap suc (differ-zero x y h)

xor_digits-zero : (n a b : ℕ) → a ≤ n → digits (λ b. b) differ n a b ≡ 0 → a ≡ b
xor_digits-zero zero zero b p h = sym h
xor_digits-zero zero (suc a) b p h = absurd (omega arith)
xor_digits-zero (suc n) zero b p h = sym h
xor_digits-zero (suc n) (suc a) b p h =
    let high = xor_digits-zero n (suc a / 2) (b / 2) (omega arith) (omega arith) in
    let low = differ-zero (suc a % 2) (b % 2) (omega arith) in omega arith

or_digits-zero : (n a b : ℕ) → a ≤ n → digits (λ b. b) max n a b ≡ 0 → (a ≡ 0) × (b ≡ 0)
or_digits-zero zero zero b p h = (refl, h)
or_digits-zero zero (suc a) b p h = absurd (omega arith)
or_digits-zero (suc n) zero b p h = (refl, h)
or_digits-zero (suc n) (suc a) b p h =
    let high = or_digits-zero n (suc a / 2) (b / 2) (omega arith) (omega arith) in
    absurd (omega (arith, high.0))

bit_xor-zero : (a b : ℕ) → bit_xor a b ≡ 0 → a ≡ b
bit_xor-zero a b h = xor_digits-zero a a b (omega arith) (sym (bit_xor-bitwise a b) ∙ h)

bit_or-zero : (a b : ℕ) → bit_or a b ≡ 0 → (a ≡ 0) × (b ≡ 0)
bit_or-zero a b h = or_digits-zero a a b (omega arith) (sym (bit_or-bitwise a b) ∙ h)

differ_self : (x : ℕ) → differ x x ≡ 0
differ_self zero = refl
differ_self (suc x) = differ_self x

xor_digits_self : (n a : ℕ) → a ≤ n → digits (λ b. b) differ n a a ≡ 0
xor_digits_self zero zero h = refl
xor_digits_self zero (suc a) h = absurd (omega arith)
xor_digits_self (suc n) zero h = refl
xor_digits_self (suc n) (suc a) h =
    omega (arith, xor_digits_self n (suc a / 2) (omega arith), differ_self (suc a % 2))

-- No bit differs, so far and at one more character.
same_char : (a : ℕ) → bit_or 0 (bit_xor a a) ≡ 0
same_char a =
    bit_or-bitwise 0 (bit_xor a a) ∙ bit_xor-bitwise a a ∙ xor_digits_self a a (omega arith)

difference_self : (t : Text) → difference 0 t t ≡ 0
unfolding difference
difference_self [] = refl
difference_self (a ∷ t) = ap (λ diff. difference diff t t) (same_char a) ∙ difference_self t

difference-zero :
    (diff : ℕ) (s t : Text) → length s ≡ length t → difference diff s t ≡ 0 → (diff ≡ 0) × (s ≡ t)
unfolding difference
difference-zero diff [] [] l h = (h, refl)
difference-zero diff [] (b ∷ t) l h = absurd (omega arith)
difference-zero diff (a ∷ s) [] l h = absurd (omega arith)
difference-zero diff (a ∷ s) (b ∷ t) l h =
    let (some_diff, rest) = difference-zero (bit_or diff (bit_xor a b)) s t (omega arith) h in
    let (diff_zero, same) = bit_or-zero diff (bit_xor a b) some_diff in
    (diff_zero, ap₂ ◌∷◌ (bit_xor-zero a b same) rest)

-- The comparison says yes exactly for equal texts.
pub constant_time_equal_iff : (s t : Text) → (constant_time_equal s t ≡ true) ↔ (s ≡ t)
unfolding constant_time_equal
constant_time_equal_iff s t = (
  λ h. (difference-zero 0 s t (ground (arith, h)) (ground (arith, h))).1,
  λ e. subst (λ u. constant_time_equal s u ≡ true) e (ground (arith, difference_self s)),
)
