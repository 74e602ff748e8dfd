-- ===== src/Math/Power.antt =====
-- libs/math.c: `my_pow` is exponentiation while the power fits an `int`.
use native.Mathlib.Nat.{pow-suc, pow-zero, mul_comm, mul_assoc, one-le-pow}
use mineos.Base.{ℕ, zero, suc, ◌*◌, ◌^◌, ◌≤◌, ◌<◌, ◌≡◌, ◌∙◌, ap, sym, arith, pos}
use mineos.Math.{pow_loop, my_pow}
use mineos.Math.Bounds.{my_mul-pos}

pow_loop-pos :
    (n b r : ℕ) → 0 < b → r * b ^ n < 2 ^ 31 → pow_loop n (pos b) (pos r) ≡ pos (r * b ^ n)
unfolding pow_loop
pow_loop-pos zero b r h fits = ap pos (omega (arith, ap (λ (t : ℕ). r * t) (pow-zero b)))
pow_loop-pos (suc n) b r h fits =
    let e : r * b ^ suc n ≡ r * b * b ^ n =
      ap (λ t. r * t) (pow-suc b n ∙ mul_comm (b ^ n) b) ∙ sym (mul_assoc r b (b ^ n)) in
    let one : 1 ≤ b ^ n = one-le-pow n b h in
    let small : r * b < 2 ^ 31 = grind arith in
    rw (my_mul-pos r b small) (pow_loop-pos n b (r * b) h (omega arith) ∙ ap pos (sym e))

-- While the power of a positive base fits an `int`, `my_pow` returns it.
pub my_pow-pos : (b n : ℕ) → 0 < b → b ^ n < 2 ^ 31 → my_pow (pos b) (pos n) ≡ pos (b ^ n)
unfolding my_pow
my_pow-pos b n h fits = pow_loop-pos n b 1 h (omega arith) ∙ ap pos (omega arith)
