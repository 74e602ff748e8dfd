-- ===== src/Math/Bounds.antt =====
-- libs/math.c: sums, differences and tests do what they say while the true result fits an `int`.
use mineos.Base.{
  ℕ, ◌+◌, ◌-◌, ◌*◌, ◌^◌, ◌≤◌, ◌<◌, ◌≡◌, true, arith, ℤ, pos, negsuc, ◌+ℤ◌, ◌-ℤ◌, ◌*ℤ◌, ◌≤ℤ◌,
}
use mineos.Math.{
  IsInt, to_word, of_word, wrap, my_add, my_sub, my_mul, my_abs, my_max, my_min, in_bounds,
}

pub wrap_lem : (z : ℤ) → IsInt z → wrap z ≡ z
unfolding wrap
wrap_lem (pos n) h = ground arith
wrap_lem (negsuc n) h = ground arith

pub IsInt-of_word : (w : ℕ) → w < 2 ^ 32 → IsInt (of_word w)
unfolding of_word
IsInt-of_word w h = ground arith

pub to_word-lt : (z : ℤ) → to_word z < 2 ^ 32
unfolding to_word
to_word-lt (pos n) = omega arith
to_word-lt (negsuc n) = omega arith

-- Every operation returns an `int`, whatever it is given.
pub IsInt-wrap : (z : ℤ) → IsInt (wrap z)
unfolding wrap
IsInt-wrap z = IsInt-of_word (to_word z) (to_word-lt z)

pub my_add-pos : (a b : ℕ) → a + b < 2 ^ 31 → my_add (pos a) (pos b) ≡ pos (a + b)
unfolding my_add ◌+ℤ◌ wrap
my_add-pos a b h = ground arith

pub my_sub-pos : (a b : ℕ) → b ≤ a → a < 2 ^ 31 → my_sub (pos a) (pos b) ≡ pos (a - b)
unfolding my_sub ◌-ℤ◌ wrap
my_sub-pos a b h k = ground arith

pub my_mul-pos : (a b : ℕ) → a * b < 2 ^ 31 → my_mul (pos a) (pos b) ≡ pos (a * b)
unfolding my_mul ◌*ℤ◌ wrap
my_mul-pos a b h = ground arith

pub in_bounds-pos : (v l h : ℕ) → l ≤ v → v ≤ h → in_bounds (pos v) (pos l) (pos h) ≡ true
unfolding in_bounds
in_bounds-pos v l h p q = ground arith

-- `in_bounds` answers 1 exactly when the value lies between the two bounds.
pub in_bounds_iff :
    (v l h : ℤ)
    → (in_bounds v l h ≡ true → (l ≤ℤ v) × (v ≤ℤ h))
      × ((l ≤ℤ v) × (v ≤ℤ h) → in_bounds v l h ≡ true)
unfolding in_bounds
in_bounds_iff v l h = (λ e. ground arith, λ e. ground arith)

-- `my_max` and `my_min` bound both arguments and return one of them, and `my_abs` is not negative
-- except at the least `int`.
pub max_min_abs :
    (a b : ℤ)
    → (a ≤ℤ my_max a b)
      × (b ≤ℤ my_max a b)
      × (my_min a b ≤ℤ a)
      × (my_min a b ≤ℤ b)
      × (my_max a b +ℤ my_min a b ≡ a +ℤ b)
      × (IsInt a → negsuc (2 ^ 31 - 2) ≤ℤ a → pos 0 ≤ℤ my_abs a)
unfolding my_max my_min my_abs ◌+ℤ◌ ◌-ℤ◌ wrap
max_min_abs a b =
    (ground arith, ground arith, ground arith, ground arith, ground arith, λ h k. ground arith)
