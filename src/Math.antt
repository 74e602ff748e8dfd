-- ===== src/Math.antt =====
-- The functions of libs/math.c. A C `int` is a `ℤ` whose value fits 32 bits; the operators wrap
-- round as gcc's two's complement does. The messages that `my_div` and `my_mod` print for a zero
-- divisor are not modelled; their results are.
pub mod Bounds
pub mod Division
pub mod Power
mod Examples
use mineos.Base.{
  ℕ, zero, suc, ◌+◌, ◌-◌, ◌%◌, ◌^◌, Bool, ◌&&◌, ltb, if◌then◌else◌, ℤ, pos, negsuc, ◌+ℤ◌, ◌-ℤ◌,
  ◌*ℤ◌, ◌≤ℤ◌, ltb_ℤ, leb_ℤ, eqb_ℤ, quot_ℤ,
}

-- The bit pattern of an integer, and the integer of a bit pattern.
unfoldable pub to_word : ℤ → ℕ
to_word (pos n) = n % 2 ^ 32
to_word (negsuc n) = 2 ^ 32 - 1 - n % 2 ^ 32

unfoldable pub of_word : ℕ → ℤ
of_word w = if ltb w (2 ^ 31) then pos w else negsuc (2 ^ 32 - 1 - w)

unfoldable pub wrap : ℤ → ℤ
unfolding to_word of_word
wrap z = of_word (to_word z)

-- The values of an `int`.
abbrev pub IsInt : ℤ → Type 0
IsInt z = (negsuc (2 ^ 31 - 1) ≤ℤ z) × (z ≤ℤ pos (2 ^ 31 - 1))

unfoldable pub my_add : ℤ → ℤ → ℤ
my_add a b = wrap (a +ℤ b)

unfoldable pub my_sub : ℤ → ℤ → ℤ
my_sub a b = wrap (a -ℤ b)

unfoldable pub my_mul : ℤ → ℤ → ℤ
my_mul a b = wrap (a *ℤ b)

unfoldable pub my_div : ℤ → ℤ → ℤ
my_div a b = if eqb_ℤ b (pos 0) then pos 0 else wrap (quot_ℤ a b)

unfoldable pub my_mod : ℤ → ℤ → ℤ
my_mod a b = if eqb_ℤ b (pos 0) then pos 0 else wrap (a -ℤ my_mul (my_div a b) b)

unfoldable pub my_abs : ℤ → ℤ
my_abs a = if ltb_ℤ a (pos 0) then wrap (pos 0 -ℤ a) else a

unfoldable pub my_max : ℤ → ℤ → ℤ
my_max a b = if leb_ℤ b a then a else b

unfoldable pub my_min : ℤ → ℤ → ℤ
my_min a b = if leb_ℤ a b then a else b

-- 1 and 0 are `true` and `false`.
unfoldable pub in_bounds : ℤ → ℤ → ℤ → Bool
in_bounds val low high = leb_ℤ low val && leb_ℤ val high

-- The rounds of `for (i = 0; i < exp; i++)` that are left.
unfoldable pub pow_loop : ℕ → ℤ → ℤ → ℤ
pow_loop zero base result = result
pow_loop (suc n) base result = pow_loop n base (my_mul result base)

unfoldable pub my_pow : ℤ → ℤ → ℤ
unfolding pow_loop
my_pow base (negsuc n) = pos 0
my_pow base (pos n) = pow_loop n base (pos 1)
