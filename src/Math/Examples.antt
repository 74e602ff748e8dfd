-- ===== src/Math/Examples.antt =====
-- libs/math.c at concrete inputs.
use mineos.Base.{◌-◌, ◌^◌, ◌≡◌, refl, arith, pos, negsuc, ◌+ℤ◌, ◌-ℤ◌, ◌*ℤ◌}
use mineos.Math.{wrap, my_add, my_mul, my_div, my_mod, my_abs}
use mineos.Math.Division.{IsRemainder, div_mod_law}

-- -17 / 5 is -3 and leaves -2; a zero divisor gives 0.
division_runs :
    (my_div (negsuc 16) (pos 5) ≡ negsuc 2)
    × (my_mod (negsuc 16) (pos 5) ≡ negsuc 1)
    × (my_mod (pos 3) (pos 0) ≡ pos 0)
unfolding my_div my_mod my_mul wrap ◌-ℤ◌ ◌*ℤ◌
division_runs = (refl, refl, refl)

-- The sum wraps round, and the least `int` has no absolute value.
overflow_runs :
    (my_add (pos (2 ^ 31 - 1)) (pos 1) ≡ negsuc (2 ^ 31 - 1))
    × (my_abs (negsuc (2 ^ 31 - 1)) ≡ negsuc (2 ^ 31 - 1))
unfolding my_add my_abs wrap ◌+ℤ◌ ◌-ℤ◌
overflow_runs = (refl, refl)

div_mod_law_example :
    (my_div (negsuc 16) (pos 5) *ℤ pos 5 +ℤ my_mod (negsuc 16) (pos 5) ≡ negsuc 16)
    × IsRemainder (negsuc 16) (pos 5) (my_mod (negsuc 16) (pos 5))
div_mod_law_example = div_mod_law (negsuc 16) (pos 5) (omega arith) (ground arith) (omega arith)
