-- ===== src/Bytes/Outside.antt =====
-- Two byte arrays that agree outside a range, and the writes that keep to one.
use mineos.Base.{ℕ, ◌+◌, ◌≤◌, ◌<◌, ◌≡◌, ◌⊎◌, ◌∙◌, arith, ℤ}
use mineos.Bytes.{Bytes, put, write_int}

-- At `q`, which is not among the indices from `lo` up to `hi`.
abbrev pub IsOutside : ℕ → ℕ → ℕ → Type 0
IsOutside lo hi q = (q < lo) ⊎ (hi ≤ q)

abbrev pub SameOutside : ℕ → ℕ → Bytes → Bytes → Type 0
SameOutside lo hi m m' = (q : ℕ) → IsOutside lo hi q → m' q ≡ m q

pub put_other : (m : Bytes) (p b q : ℕ) → IsOutside p (p + 1) q → put m p b q ≡ m q
unfolding put
put_other m p b q h = ground arith

pub write_int-SameOutside : (m : Bytes) (p : ℕ) (v : ℤ) → SameOutside p (p + 4) m (write_int m p v)
unfolding write_int put
write_int-SameOutside m p v q h = ground arith

pub SameOutside-trans :
    {lo hi : ℕ} (m m' m'' : Bytes)
    → SameOutside lo hi m m'
    → SameOutside lo hi m' m''
    → SameOutside lo hi m m''
SameOutside-trans m m' m'' f g q h = g q h ∙ f q h

pub SameOutside-wider :
    {lo hi lo' hi' : ℕ} (m m' : Bytes)
    → SameOutside lo hi m m'
    → lo' ≤ lo
    → hi ≤ hi'
    → SameOutside lo' hi' m m'
SameOutside-wider m m' f p k q h = f q (omega arith)
