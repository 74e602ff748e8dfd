-- ===== src/Text/Parsed.antt =====
-- `my_str_to_int` (libs/string.c) on decimal texts.
use mineos.Base.{
  ℕ, zero, suc, ◌+◌, ◌-◌, ◌*◌, ◌^◌, ◌≤◌, ◌<◌, ◌≡◌, refl, ◌∙◌, ap, arith, ℤ, pos, negsuc, ◌≤ℤ◌, ◌-ℤ◌,
  List, [], ◌∷◌, length, All, ne→==, eq→==, ◌≢◌, le→leb,
}
use mineos.Math.{my_sub, wrap}
use mineos.Math.Bounds.{my_add-pos, my_mul-pos, my_sub-pos}
use mineos.Bytes.{Bytes}
use mineos.Text.{text_fuel, digit_fuel, my_int_to_str, skip_blanks, read_digits, my_str_to_int}
use mineos.Text.Strings.{IsString}
use mineos.Text.Backwards.{onto, length-onto}
use mineos.Text.Decimal.{
  backward_digits, decimal, IsDigit, digits-IsDigit, digits_some, length-backward_digits, value,
  value-backward_digits,
}
use mineos.Text.Numbers.{my_int_to_str-decimal}

value_grows : (n : ℕ) (s : List ℕ) → n ≤ value n s
value_grows n [] = omega arith
value_grows n (c ∷ s) = let more = value_grows (n * 10 + (c - b'0')) s in omega arith

read_digits-value :
    (s : List ℕ) (fuel : ℕ) (m : Bytes) (p n : ℕ)
    → length s < fuel
    → IsString m p s
    → All IsDigit s
    → value n s < 2 ^ 31
    → read_digits fuel m p (pos n) ≡ pos (value n s)
unfolding read_digits
read_digits-value s zero m p n f h d v = absurd (omega arith)
read_digits-value [] (suc fuel) m p n f h d v = rw h refl
read_digits-value (c ∷ s) (suc fuel) m p n f h d v =
    let more = value_grows (n * 10 + (c - b'0')) s in
    rw
      (
        h.0,
        le→leb b'0' c d.0.0,
        le→leb c b'9' d.0.1,
        my_mul-pos n 10 (omega arith),
        my_sub-pos c b'0' d.0.0 (omega arith),
        my_add-pos (n * 10) (c - b'0') (omega arith),
      )
      (read_digits-value s fuel m (p + 1) (n * 10 + (c - b'0')) (omega arith) h.2 d.1 v)

onto-IsDigit : (l t : List ℕ) → All IsDigit l → All IsDigit t → All IsDigit (onto l t)
onto-IsDigit [] t h k = k
onto-IsDigit (c ∷ l) t h k = onto-IsDigit l (c ∷ t) h.1 (h.0, k)

skip_none : (fuel : ℕ) (m : Bytes) (p : ℕ) → m p ≢ b' ' → m p ≢ 9 → skip_blanks fuel m p ≡ p
unfolding skip_blanks
skip_none zero m p h k = refl
skip_none (suc fuel) m p h k = rw (ne→== (m p) b' ' h, ne→== (m p) 9 k) refl

-- Digits, and digits behind a minus.
str_to_int_digits :
    (m : Bytes) (c : ℕ) (s : List ℕ)
    → length (c ∷ s) < text_fuel
    → IsString m 0 (c ∷ s)
    → All IsDigit (c ∷ s)
    → value 0 (c ∷ s) < 2 ^ 31
    → my_str_to_int m 0 ≡ pos (value 0 (c ∷ s))
unfolding my_str_to_int
str_to_int_digits m c s f h d v =
    let skip = skip_none text_fuel m 0 (λ e. omega arith) (λ e. omega arith) in
    let digits = read_digits-value (c ∷ s) text_fuel m 0 0 f h d v in
    rw (skip, ne→== (m 0) b'-' (λ e. omega arith), ne→== (m 0) b'+' (λ e. omega arith), digits) refl

str_to_int_minus :
    (m : Bytes) (s : List ℕ)
    → length s < text_fuel
    → IsString m 0 (b'-' ∷ s)
    → All IsDigit s
    → value 0 s < 2 ^ 31
    → my_str_to_int m 0 ≡ my_sub (pos 0) (pos (value 0 s))
unfolding my_str_to_int
str_to_int_minus m s f h d v =
    let skip = skip_none text_fuel m 0 (λ e. omega arith) (λ e. omega arith) in
    let digits = read_digits-value s text_fuel m 1 0 f h.2 d v in
    rw (skip, eq→== (m 0) b'-' h.0, digits) refl

module _ (n : ℕ) (h : n < 2 ^ 31) where
  abbrev digits : List ℕ
  digits = onto (backward_digits digit_fuel n) []

  value-digits : value 0 digits ≡ n
  value-digits = value-backward_digits digit_fuel n [] (omega arith)

  digits_short : length digits ≤ 10
  digits_short = omega (
    arith,
    length-onto (backward_digits digit_fuel n) [],
    length-backward_digits digit_fuel 10 n (omega arith),
  )

  own_digits-IsDigit : All IsDigit digits
  own_digits-IsDigit =
      onto-IsDigit (backward_digits digit_fuel n) [] (digits-IsDigit digit_fuel n) tt

  parsed_pos : (m : Bytes) → 0 < n → IsString m 0 digits → my_str_to_int m 0 ≡ pos n
  parsed_pos m some held =
      let full = digits_some 31 n some in
      any digits (omega (arith, length-onto (backward_digits digit_fuel n) []))
        (omega (arith, digits_short)) held own_digits-IsDigit value-digits
    where
      any :
          (s : List ℕ)
          → 0 < length s
          → length s < text_fuel
          → IsString m 0 s
          → All IsDigit s
          → value 0 s ≡ n
          → my_str_to_int m 0 ≡ pos n
      any [] l f g d v = absurd (omega arith)
      any (c ∷ s) l f g d v = str_to_int_digits m c s f g d (omega (arith, v)) ∙ ap pos v

  parsed_minus :
      (m : Bytes) → IsString m 0 (b'-' ∷ digits) → my_str_to_int m 0 ≡ my_sub (pos 0) (pos n)
  parsed_minus m held =
      str_to_int_minus m digits (omega (arith, digits_short)) held own_digits-IsDigit
        (omega (arith, value-digits))
      ∙ ap (λ v. my_sub (pos 0) (pos v)) value-digits

minus : (n : ℕ) → suc n < 2 ^ 31 → my_sub (pos 0) (pos (suc n)) ≡ negsuc n
unfolding my_sub ◌-ℤ◌ wrap
minus n h = ground arith

-- `my_str_to_int` reads back every `int` but the least from what `my_int_to_str` has written.
pub str_to_int-int_to_str :
    (n : ℤ) (buf : Bytes)
    → negsuc (2 ^ 31 - 2) ≤ℤ n
    → n ≤ℤ pos (2 ^ 31 - 1)
    → my_str_to_int (my_int_to_str n buf) 0 ≡ n
unfolding decimal
str_to_int-int_to_str (pos zero) buf low high =
    str_to_int_digits (my_int_to_str (pos 0) buf) b'0' [] (omega arith)
      (my_int_to_str-decimal (pos 0) buf low high).0.0 ((omega arith, omega arith), tt)
      (omega arith)
str_to_int-int_to_str (pos (suc n)) buf low high =
    parsed_pos (suc n) (omega arith) (my_int_to_str (pos (suc n)) buf) (omega arith) (
      printed (suc n) (omega arith) (my_int_to_str (pos (suc n)) buf)
        (my_int_to_str-decimal (pos (suc n)) buf low high).0.0)
  where
    printed :
        (n : ℕ)
        → 0 < n
        → (m : Bytes) → IsString m 0 (decimal (pos n))
        → IsString m 0 (onto (backward_digits digit_fuel n) [])
    printed n h m held = simp (ne→== n 0 (omega arith)) at held
str_to_int-int_to_str (negsuc n) buf low high =
    parsed_minus (suc n) (omega arith) (my_int_to_str (negsuc n) buf)
      (my_int_to_str-decimal (negsuc n) buf low high).0.0
    ∙ minus n (omega arith)
