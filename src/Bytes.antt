-- ===== src/Bytes.antt =====
-- C objects as byte arrays: VIRTUAL_RAM (libs/memory.c) and the character buffers of the functions
-- are each a function from index to byte. An `int` is four bytes, the lowest first.
pub mod Ints
pub mod Outside
use mineos.Base.{ℕ, ◌+◌, ◌-◌, ◌*◌, ◌/◌, ◌%◌, ◌^◌, ◌==◌, if◌then◌else◌, ℤ, List, [], ◌∷◌}
use mineos.Math.{to_word, of_word}

abbrev pub Bytes : Type 0
Bytes = ℕ → ℕ

-- m[p] = b
unfoldable pub put : Bytes → ℕ → ℕ → Bytes
put m p b q = if q == p then b % 256 else m q

-- *(int *)(m + p)
unfoldable pub read_int : Bytes → ℕ → ℤ
read_int m p = of_word (m p + 2 ^ 8 * m (p + 1) + 2 ^ 16 * m (p + 2) + 2 ^ 24 * m (p + 3))

-- *(int *)(m + p) = v
put_word : Bytes → ℕ → ℕ → Bytes
put_word m p w =
    put (put (put (put m p w) (p + 1) (w / 2 ^ 8)) (p + 2) (w / 2 ^ 16)) (p + 3) (w / 2 ^ 24)

unfoldable pub write_int : Bytes → ℕ → ℤ → Bytes
unfolding put_word
write_int m p v = put_word m p (to_word v)

-- The object of a literal: its bytes, and 0 behind them.
unfoldable pub object : List ℕ → Bytes
object [] q = 0
object (c ∷ s) q = if q == 0 then c else object s (q - 1)
