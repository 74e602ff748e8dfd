-- ===== src/Math/Division.antt =====
-- libs/math.c: `my_div` and `my_mod` satisfy the division law.
use native.Mathlib.Nat.{mul-div-le, lt-mul-div-succ, div-le_self, div-add-mod}
use mineos.Base.{
  ℕ, suc, ◌+◌, ◌/◌, ◌%◌, ◌^◌, ◌≤◌, ◌<◌, ◌≡◌, ◌≢◌, ◌∙◌, false, arith, ℤ, pos, negsuc, ◌+ℤ◌, ◌-ℤ◌,
  ◌*ℤ◌, pos_part, neg_part, eqb_ℤ, quot_ℤ,
}
use mineos.Math.{IsInt, my_mul, my_div, my_mod}
use mineos.Math.Bounds.{wrap_lem}

nonzero : (b : ℤ) → b ≢ pos 0 → eqb_ℤ b (pos 0) ≡ false
nonzero b h = ground arith

-- Quotient times divisor has the sign of the dividend, and reaches at most as far.
quot_within :
    (a b : ℤ)
    → b ≢ pos 0
    → (pos_part (quot_ℤ a b *ℤ b) ≤ pos_part a) × (neg_part (quot_ℤ a b *ℤ b) ≤ neg_part a)
unfolding ◌*ℤ◌
quot_within (pos a) (pos b) h = ground (arith, mul-div-le a b)
quot_within (pos a) (negsuc b) h = ground (arith, mul-div-le a (suc b))
quot_within (negsuc a) (pos b) h = ground (arith, mul-div-le (suc a) b)
quot_within (negsuc a) (negsuc b) h = ground (arith, mul-div-le (suc a) (suc b))

-- The remainder is smaller than the divisor and has the sign of the dividend.
abbrev pub IsRemainder : ℤ → ℤ → ℤ → Type 0
IsRemainder a b r =
    (pos_part r + neg_part r < pos_part b + neg_part b)
    × (pos_part r ≤ pos_part a)
    × (neg_part r ≤ neg_part a)

quot-IsRemainder : (a b : ℤ) → b ≢ pos 0 → IsRemainder a b (a -ℤ quot_ℤ a b *ℤ b)
unfolding ◌*ℤ◌ ◌-ℤ◌
quot-IsRemainder (pos a) (pos b) h = ground (arith, mul-div-le a b, lt-mul-div-succ a {b = b})
quot-IsRemainder (pos a) (negsuc b) h =
    ground (arith, mul-div-le a (suc b), lt-mul-div-succ a {b = suc b})
quot-IsRemainder (negsuc a) (pos b) h =
    ground (arith, mul-div-le (suc a) b, lt-mul-div-succ (suc a) {b = b})
quot-IsRemainder (negsuc a) (negsuc b) h =
    ground (arith, mul-div-le (suc a) (suc b), lt-mul-div-succ (suc a) {b = suc b})

sub_cancel : (a c : ℤ) → c +ℤ (a -ℤ c) ≡ a
unfolding ◌+ℤ◌ ◌-ℤ◌
sub_cancel a c = ground arith

my_div-exact : (a b : ℤ) → b ≢ pos 0 → IsInt (quot_ℤ a b) → my_div a b ≡ quot_ℤ a b
unfolding my_div
my_div-exact a b nz hq = rw (nonzero b nz) (wrap_lem (quot_ℤ a b) hq)

IsInt-within : (a c : ℤ) → IsInt a → pos_part c ≤ pos_part a → neg_part c ≤ neg_part a → IsInt c
IsInt-within a c h p q = ground arith

my_mod-exact :
    (a b : ℤ) → IsInt a → b ≢ pos 0 → IsInt (quot_ℤ a b) → my_mod a b ≡ a -ℤ quot_ℤ a b *ℤ b
unfolding my_mod my_mul
my_mod-exact a b ha nz hq =
    let within = quot_within a b nz in
    let small = quot-IsRemainder a b nz in
    rw
      (
        nonzero b nz,
        my_div-exact a b nz hq,
        wrap_lem (quot_ℤ a b *ℤ b) (IsInt-within a _ ha within.0 within.1),
      )
      (wrap_lem (a -ℤ quot_ℤ a b *ℤ b) (IsInt-within a _ ha small.1 small.2))

-- For a divisor that is not 0 and a quotient that fits an `int`, `my_div` times the divisor plus
-- `my_mod` is the dividend, and `my_mod` is smaller than the divisor, with the dividend's sign.
pub div_mod_law :
    (a b : ℤ)
    → IsInt a
    → b ≢ pos 0
    → IsInt (quot_ℤ a b)
    → (my_div a b *ℤ b +ℤ my_mod a b ≡ a) × IsRemainder a b (my_mod a b)
div_mod_law a b ha nz hq =
    rw (my_div-exact a b nz hq, my_mod-exact a b ha nz hq)
      (sub_cancel a (quot_ℤ a b *ℤ b), quot-IsRemainder a b nz)

-- On natural numbers, with a divisor that is not 0: the quotient and the remainder of ℕ.
pub my_div-pos : (a b : ℕ) → a < 2 ^ 31 → 0 < b → my_div (pos a) (pos b) ≡ pos (a / b)
my_div-pos a b h k = my_div-exact (pos a) (pos b) (ground arith) (omega (arith, div-le_self a b))

rest_pos : (a b : ℕ) → pos a -ℤ pos (a / b) *ℤ pos b ≡ pos (a % b)
unfolding ◌*ℤ◌ ◌-ℤ◌
rest_pos a b = ground (arith, mul-div-le a b, div-add-mod a b)

pub my_mod-pos : (a b : ℕ) → a < 2 ^ 31 → 0 < b → my_mod (pos a) (pos b) ≡ pos (a % b)
my_mod-pos a b h k =
    my_mod-exact (pos a) (pos b) (omega arith) (ground arith) (omega (arith, div-le_self a b))
    ∙ rest_pos a b
