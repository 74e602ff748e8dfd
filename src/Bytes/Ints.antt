-- ===== src/Bytes/Ints.antt =====
-- What is read back after an `int` is written.
use mineos.Base.{ℕ, ◌+◌, ◌*◌, ◌/◌, ◌%◌, ◌^◌, ◌≤◌, ◌<◌, ◌≡◌, ◌⊎◌, inl, inr, ◌∙◌, ap, arith, ℤ}
use mineos.Math.{to_word, of_word, wrap, IsInt}
use mineos.Math.Bounds.{wrap_lem, to_word-lt}
use mineos.Bytes.{Bytes, put, put_word, read_int, write_int}
use mineos.Bytes.Outside.{SameOutside, write_int-SameOutside}

digits :
    (w : ℕ)
    → w < 2 ^ 32
    → w % 256
        + 2 ^ 8 * (w / 2 ^ 8 % 256)
        + 2 ^ 16 * (w / 2 ^ 16 % 256)
        + 2 ^ 24 * (w / 2 ^ 24 % 256)
      ≡ w
digits w h = omega arith

word_at :
    (m : Bytes) (p w : ℕ)
    → w < 2 ^ 32
    → let m' = put_word m p w in
      m' p + 2 ^ 8 * m' (p + 1) + 2 ^ 16 * m' (p + 2) + 2 ^ 24 * m' (p + 3) ≡ w
unfolding put_word put
word_at m p w h = ground (arith, digits w h)

-- An `int` is read back as it was written.
pub read_int-write_int : (m : Bytes) (p : ℕ) (v : ℤ) → IsInt v → read_int (write_int m p v) p ≡ v
unfolding read_int write_int
read_int-write_int m p v h =
    ap of_word (word_at m p (to_word v) (to_word-lt v)) ∙ unfold wrap in wrap_lem v h

pub read_int-cong :
    (m m' : Bytes) (p : ℕ)
    → ((q : ℕ) → p ≤ q → q < p + 4 → m' q ≡ m q)
    → read_int m' p ≡ read_int m p
unfolding read_int
read_int-cong m m' p h = ground (arith, h p, h (p + 1), h (p + 2), h (p + 3))

-- A write outside of its four bytes leaves an `int` alone.
pub read_int-SameOutside :
    {lo hi : ℕ} (m m' : Bytes) (p : ℕ)
    → SameOutside lo hi m m'
    → (p + 4 ≤ lo) ⊎ (hi ≤ p)
    → read_int m' p ≡ read_int m p
read_int-SameOutside m m' p same (inl h) = read_int-cong m m' p λ q a b. same q (inl (omega arith))
read_int-SameOutside m m' p same (inr h) = read_int-cong m m' p λ q a b. same q (inr (omega arith))

pub read_int-write_other :
    (m : Bytes) (p q : ℕ) (v : ℤ)
    → (q + 4 ≤ p) ⊎ (p + 4 ≤ q)
    → read_int (write_int m p v) q ≡ read_int m q
read_int-write_other m p q v =
    read_int-SameOutside m (write_int m p v) q (write_int-SameOutside m p v)
