-- ===== src/Text/Decimal.antt =====
-- The decimal text of a number, and the digits that `my_int_to_str` (libs/string.c) extracts.
use mineos.Base.{
  ℕ, zero, suc, ◌+◌, ◌-◌, ◌*◌, ◌/◌, ◌%◌, ◌^◌, ◌==◌, ◌≤◌, ◌<◌, ◌≡◌, refl, ◌∙◌, ap, inl, inr, arith,
  Bool-cases, true, ltb, if◌then◌else◌, ℤ, pos, negsuc, List, [], ◌∷◌, length, All,
}
use mineos.Math.Bounds.{my_add-pos}
use mineos.Math.Division.{my_div-pos, my_mod-pos}
use mineos.Bytes.{Bytes, put}
use mineos.Bytes.Outside.{SameOutside, put_other}
use mineos.Text.{digits_loop, digit_fuel}
use mineos.Text.Backwards.{onto, Spelled, put_same}

-- The digits of `n`, the last first, if there are at most `fuel`.
unfoldable pub backward_digits : ℕ → ℕ → List ℕ
backward_digits zero n = []
backward_digits (suc fuel) n =
    let rest = backward_digits fuel (n / 10) in if ltb 0 n then (n % 10 + b'0') ∷ rest else []

abbrev pub tens : ℕ → ℕ
tens zero = 1
tens (suc fuel) = 10 * tens fuel

-- The decimal text of an integer.
unfoldable pub decimal : ℤ → List ℕ
decimal (pos n) = if n == 0 then b'0' ∷ [] else onto (backward_digits digit_fuel n) []
decimal (negsuc n) = b'-' ∷ onto (backward_digits digit_fuel (suc n)) []

abbrev pub IsDigit : ℕ → Type 0
IsDigit c = (b'0' ≤ c) × (c ≤ b'9')

pub digits-IsDigit : (fuel n : ℕ) → All IsDigit (backward_digits fuel n)
unfolding backward_digits
digits-IsDigit zero n = tt
digits-IsDigit (suc fuel) n = elim (Bool-cases (ltb 0 n)) [
  | inl e ↦ rw e (omega arith, digits-IsDigit fuel (n / 10))
  | inr e ↦ rw e tt
]

pub digits_some : (fuel n : ℕ) → 0 < n → 0 < length (backward_digits (suc fuel) n)
unfolding backward_digits
digits_some fuel n h = let e : ltb 0 n ≡ true = ground arith in rw e (omega arith)

pub length-backward_digits : (fuel k n : ℕ) → n < tens k → length (backward_digits fuel n) ≤ k
unfolding backward_digits
length-backward_digits zero k n h = omega arith
length-backward_digits (suc fuel) zero n h = elim (Bool-cases (ltb 0 n)) [
  | inl e ↦ absurd (ground arith)
  | inr e ↦ rw e (omega arith)
]
length-backward_digits (suc fuel) (suc k) n h = elim (Bool-cases (ltb 0 n)) [
  | inl e ↦ rw e (omega (arith, length-backward_digits fuel k (n / 10) (omega arith)))
  | inr e ↦ rw e (omega arith)
]

-- Some digits behind the number that others have spelled.
abbrev pub value : ℕ → List ℕ → ℕ
value n [] = n
value n (c ∷ s) = value (n * 10 + (c - b'0')) s

-- The digits spell the number.
pub value-backward_digits :
    (fuel n : ℕ) (t : List ℕ)
    → n < tens fuel
    → value 0 (onto (backward_digits fuel n) t) ≡ value n t
unfolding backward_digits
value-backward_digits zero n t h = ap (λ n. value n t) (omega arith)
value-backward_digits (suc fuel) n t h = elim (Bool-cases (ltb 0 n)) [
  | inl e ↦ rw e (
      value-backward_digits fuel (n / 10) ((n % 10 + b'0') ∷ t) (omega arith)
      ∙ ap (λ n. value n t) (omega arith))
  | inr e ↦ rw e (ap (λ n. value n t) (ground arith))
]

-- What the loop leaves: the digits from `i` on, the index behind them, and every other byte.
pub record Extracts (buf : Bytes) (i : ℕ) (l : List ℕ) (r : Bytes × ℕ) : Type 0 where
  pub index : r.1 ≡ i + length l
  pub spelled : Spelled r.0 i l
  pub same : SameOutside i (i + length l) buf r.0

pub digits_loop-Extracts :
    (fuel n : ℕ) (buf : Bytes) (i : ℕ)
    → n < 2 ^ 31
    → Extracts buf i (backward_digits fuel n) (digits_loop fuel (pos n) buf i)
unfolding digits_loop backward_digits
digits_loop-Extracts zero n buf i h = record {
  index = omega arith;
  spelled = tt;
  same = λ q out. refl;
}
digits_loop-Extracts (suc fuel) n buf i h = elim (Bool-cases (ltb 0 n)) [
  | inr e ↦ rw e (record { index = omega arith; spelled = tt; same = λ q out. refl })
  | inl e ↦
      let c : ℕ = n % 10 + b'0' in
      let buf' : Bytes = put buf i c in
      let rest = digits_loop-Extracts fuel (n / 10) buf' (i + 1) (omega arith) in
      rw
        (
          e,
          my_mod-pos n 10 h (omega arith),
          my_div-pos n 10 h (omega arith),
          my_add-pos (n % 10) b'0' (omega arith),
        )
        (record {
          index = rest.index ∙ omega arith;
          spelled = (
            rest.same i (inl (omega arith)) ∙ put_same buf i c (omega arith),
            (omega arith, omega arith),
            rest.spelled,
          );
          same = λ q out. rest.same q (omega arith) ∙ put_other buf i c q (omega arith);
        })
]
