-- ===== src/Text/Compare.antt =====
-- `my_strcmp` and `my_strchr` (libs/string.c).
use mineos.Base.{
  ℕ, zero, suc, ◌+◌, ◌<◌, ◌≡◌, refl, sym, ◌∙◌, inl, inr, List, [], ◌∷◌, arith, length, ne→==, eq→==,
  ℤ, pos, if◌then◌else◌, ◌-ℤ◌, Bool-cases, ◌==◌,
}
use mineos.Math.{my_sub, wrap}
use mineos.Bytes.{Bytes}
use mineos.Text.{text_fuel, char_value, strcmp_loop, my_strcmp}
use mineos.Text.Strings.{IsString}

-- The difference at the first place where two strings, with their terminators, differ.
unfoldable pub difference : List ℕ → List ℕ → ℤ
difference [] [] = my_sub (char_value 0) (char_value 0)
difference [] (d ∷ t) = my_sub (char_value 0) (char_value d)
difference (c ∷ s) [] = my_sub (char_value c) (char_value 0)
difference (c ∷ s) (d ∷ t) = if c == d then difference s t else my_sub (char_value c) (char_value d)

my_sub-char : (c d : ℕ) → c < 256 → d < 256 → my_sub (char_value c) (char_value d) ≡ pos 0 → c ≡ d
unfolding my_sub char_value wrap ◌-ℤ◌
my_sub-char c d h k e = ground arith

strcmp_loop-difference :
    (s t : List ℕ) (fuel : ℕ) (a : Bytes) (p : ℕ) (b : Bytes) (q i x y : ℕ)
    → x ≡ p + i
    → y ≡ q + i
    → length s < fuel
    → IsString a x s
    → IsString b y t
    → strcmp_loop fuel a p b q i ≡ difference s t
unfolding strcmp_loop difference
strcmp_loop-difference s t zero a p b q i x y e g f h k = absurd (omega arith)
strcmp_loop-difference [] [] (suc fuel) a p b q i x y e g f h k = rw (← e, ← g, h, k) refl
strcmp_loop-difference [] (d ∷ t) (suc fuel) a p b q i x y e g f h k = rw (← e, ← g, h, k.0) refl
strcmp_loop-difference (c ∷ s) [] (suc fuel) a p b q i x y e g f h k =
    rw (← e, ← g, h.0, k, ne→== c 0 (omega arith)) refl
strcmp_loop-difference (c ∷ s) (d ∷ t) (suc fuel) a p b q i x y e g f h k =
    rw
      (
        ← e,
        ← g,
        h.0,
        k.0,
        ne→== c 0 (omega arith),
        ne→== d 0 (omega arith),
        strcmp_loop-difference s t fuel a p b q (i + 1) (x + 1) (y + 1) (omega arith) (omega arith)
            (omega arith) h.2 k.2,
      )
      refl

pub my_strcmp-difference :
    (a : Bytes) (p : ℕ) (b : Bytes) (q : ℕ) (s t : List ℕ)
    → length s < text_fuel
    → IsString a p s
    → IsString b q t
    → my_strcmp a p b q ≡ difference s t
unfolding my_strcmp
my_strcmp-difference a p b q s t f h k =
    strcmp_loop-difference s t text_fuel a p b q 0 p q (omega arith) (omega arith) f h k

difference_self : (s : List ℕ) → difference s s ≡ pos 0
unfolding difference my_sub char_value wrap ◌-ℤ◌
difference_self [] = refl
difference_self (c ∷ s) = rw (eq→== c c refl) (difference_self s)

difference_zero :
    (a : Bytes) (p : ℕ) (b : Bytes) (q : ℕ) (s t : List ℕ)
    → IsString a p s
    → IsString b q t
    → difference s t ≡ pos 0
    → s ≡ t
unfolding difference
difference_zero a p b q [] [] h k e = refl
difference_zero a p b q [] (d ∷ t) h k e =
    absurd (omega (arith, my_sub-char 0 d (omega arith) (omega arith) e))
difference_zero a p b q (c ∷ s) [] h k e =
    absurd (omega (arith, my_sub-char c 0 (omega arith) (omega arith) e))
difference_zero a p b q (c ∷ s) (d ∷ t) h k e = elim (Bool-cases (c == d)) [
  | inl same ↦ ground (arith, difference_zero a (p + 1) b (q + 1) s t h.2 k.2)
  | inr differ ↦ absurd (ground (arith, my_sub-char c d (omega arith) (omega arith)))
]

-- `my_strcmp` returns 0 exactly when the two strings are the same.
pub my_strcmp_iff :
    (a : Bytes) (p : ℕ) (b : Bytes) (q : ℕ) (s t : List ℕ)
    → length s < text_fuel
    → IsString a p s
    → IsString b q t
    → (my_strcmp a p b q ≡ pos 0 → s ≡ t) × (s ≡ t → my_strcmp a p b q ≡ pos 0)
my_strcmp_iff a p b q s t f h k =
    let same = my_strcmp-difference a p b q s t f h k in
    (λ e. difference_zero a p b q s t h k (sym same ∙ e), λ e. same ∙ rw e (difference_self t))
