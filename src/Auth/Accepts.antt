-- ===== src/Auth/Accepts.antt =====
-- What `Validate` accepts, and what the middleware lets pass.
use eidetic_daemon.Prelude.{
  ℕ, ◌/◌, ◌%◌, ◌<◌, leb, ◌==◌, arith, ◌≡◌, ◌↔◌, inl, inr, refl, sym, ◌∙◌, ap, true, false,
  Bool-cases, none, List, [], ◌∷◌, ◌++◌, map, length, length-map, length-append, drop-length, take,
  drop, codes, All, is_empty,
}
use eidetic_daemon.TextSearch.{Text, lower, same_text}
use eidetic_daemon.Api.Params.{is_space, trim_left, trim_end, trim_space}
use eidetic_daemon.Auth.{
  hex_digit, hex_encode, constant_time_equal, strip_scheme, presented, validate, enabled,
}
use eidetic_daemon.Auth.Equality.{constant_time_equal_iff}

equal_self : (n : ℕ) → (n == n) ≡ true
equal_self n = ground arith

-- With a token set, `Validate` accepts a header exactly if it presents that token.
pub validate_iff :
    (want header : Text)
    → enabled want ≡ true
    → (validate want header ≡ none) ↔ (presented header ≡ want)
unfolding validate enabled
validate_iff want header on = elim (Bool-cases (constant_time_equal (presented header) want)) [
  | inl same ↦
      let e = (constant_time_equal_iff (presented header) want).0 same in
      let given : is_empty want ≡ false = ground (arith, on) in
      let sent : is_empty (presented header) ≡ false = ap is_empty e ∙ given in
      let long : (length (presented header) == length want) ≡ true =
        ap (λ u. length u == length want) e ∙ equal_self (length want) in
      (λ h. e, λ h. rw (given, sent, long, same, validate) refl)
  | inr differs ↦ (
    λ h. ground (arith, on, differs, h),
    λ e. absurd (ground (arith, (constant_time_equal_iff (presented header) want).1 e, differs)),
  )
]

trim_left-plain : (t : Text) → All (λ c. is_space c ≡ false) t → trim_left t ≡ t
unfolding trim_left
trim_left-plain [] h = refl
trim_left-plain (c ∷ t) h = rw (h.0, trim_left) refl

trim_end-plain : (t : Text) → All (λ c. is_space c ≡ false) t → trim_end t ≡ t
unfolding trim_end
trim_end-plain [] h = refl
trim_end-plain (c ∷ t) h = ground (arith, trim_end-plain t h.1)

hex_digit-plain : (d : ℕ) → d < 16 → is_space (hex_digit d) ≡ false
unfolding hex_digit is_space
hex_digit-plain d h = ground arith

hex_encode-plain :
    (bytes : List ℕ) → All (λ b. b < 256) bytes → All (λ c. is_space c ≡ false) (hex_encode bytes)
unfolding hex_encode
hex_encode-plain [] h = tt
hex_encode-plain (b ∷ bytes) h = (
  hex_digit-plain (b / 16) (omega arith),
  (hex_digit-plain (b % 16) (omega arith), hex_encode-plain bytes h.1),
)

nonempty-append : (s t : Text) → is_empty t ≡ false → is_empty (s ++ t) ≡ false
nonempty-append [] t h = h
nonempty-append (c ∷ s) t h = refl

trim_end-append : (s t : Text) → trim_end t ≡ t → is_empty t ≡ false → trim_end (s ++ t) ≡ s ++ t
unfolding trim_end
trim_end-append [] t e some_char = e
trim_end-append (c ∷ s) t e some_char =
    rw (trim_end-append s t e some_char, nonempty-append s t some_char) refl

take-length : (s t : Text) → take (length s) (s ++ t) ≡ s
take-length [] t = refl
take-length (c ∷ s) t = ap (◌∷◌ c) (take-length s t)

first_letter : (c : ℕ) (s : Text) → map lower (c ∷ s) ≡ codes "bearer " → is_space c ≡ false
unfolding lower is_space
first_letter c s e = ground (arith, e)

strip_scheme-scheme :
    (scheme t : Text) → map lower scheme ≡ codes "bearer " → strip_scheme (scheme ++ t) ≡ t
unfolding strip_scheme same_text
strip_scheme-scheme scheme t e =
    let seven : length scheme ≡ 7 = sym (length-map lower scheme) ∙ ap length e in
    let long : leb 7 (length (scheme ++ t)) ≡ true = ground (arith, length-append scheme t) in
    let front : take 7 (scheme ++ t) ≡ scheme =
      ap (λ n. take n (scheme ++ t)) (sym seven) ∙ take-length scheme t in
    let back : drop 7 (scheme ++ t) ≡ t =
      ap (λ n. drop n (scheme ++ t)) (sym seven) ∙ drop-length scheme t in
    rw (long, front, e, back, same_text, strip_scheme) refl

trim_space-plain : (t : Text) → All (λ c. is_space c ≡ false) t → trim_space t ≡ t
unfolding trim_space
trim_space-plain t plain = ap trim_end (trim_left-plain t plain) ∙ trim_end-plain t plain

trim_space-scheme :
    (scheme t : Text)
    → map lower scheme ≡ codes "bearer "
    → All (λ c. is_space c ≡ false) t
    → is_empty t ≡ false
    → trim_space (scheme ++ t) ≡ scheme ++ t
unfolding trim_space trim_left
trim_space-scheme [] t e plain some_char = absurd (ground (arith, e))
trim_space-scheme (c ∷ s) t e plain some_char =
    ap trim_end (rw (first_letter c s e, trim_left) refl)
    ∙ trim_end-append (c ∷ s) t (trim_end-plain t plain) some_char

-- A header is accepted that has `Bearer` in any case, a space, and the token that `Generate` made of
-- some bytes.
pub validate-hex_encode :
    (bytes : List ℕ) (scheme : Text)
    → All (λ b. b < 256) bytes
    → is_empty bytes ≡ false
    → map lower scheme ≡ codes "bearer "
    → validate (hex_encode bytes) (scheme ++ hex_encode bytes) ≡ none
unfolding presented enabled hex_encode
validate-hex_encode [] scheme small some_byte e = absurd (ground (arith, some_byte))
validate-hex_encode (b ∷ bytes) scheme small some_byte e =
    let token = hex_encode (b ∷ bytes) in
    let plain = hex_encode-plain (b ∷ bytes) small in
    (validate_iff token (scheme ++ token) refl).1 (
      ap (λ u. trim_space (strip_scheme u)) (trim_space-scheme scheme token e plain refl)
      ∙ ap trim_space (strip_scheme-scheme scheme token e)
      ∙ trim_space-plain token plain)
