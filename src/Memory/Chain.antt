-- ===== src/Memory/Chain.antt =====
-- The blocks that the chain of headers in VIRTUAL_RAM stands for (libs/memory.c).
use mineos.Base.{
  ℕ, ◌+◌, ◌-◌, ◌≤◌, ◌<◌, ◌≡◌, refl, ◌⊎◌, inl, inr, ◌∙◌, subst, Bool, true, List, [], ◌∷◌, ◌++◌,
  arith, if◌then◌else◌, length, ℤ, pos, minus_one,
}
use mineos.Bytes.{Bytes, read_int}
use mineos.Bytes.Ints.{read_int-SameOutside}
use mineos.Bytes.Outside.{SameOutside}
use mineos.Math.Bounds.{my_sub-pos, in_bounds-pos}
use mineos.Memory.Layout.{ram_size, data_region_offset, size_at, is_free_at, next_at}
use mineos.Memory.{in_chain}

pub record Block : Type 0 where
  pub size : ℕ
  pub free : Bool

abbrev pub block : ℕ → Bool → Block
block n f = record { size = n; free = f }

abbrev pub flag : Bool → ℤ
flag b = if b then pos 1 else pos 0

-- The bytes that blocks take up with their headers.
abbrev pub span : List Block → ℕ
span [] = 0
span (b ∷ bs) = 12 + b.size + span bs

-- The offset of the first of some blocks that lie from `p` on.
abbrev pub start : ℕ → List Block → ℤ
start p [] = minus_one
start p (b ∷ bs) = pos p

-- The header of `b` stands at `p`, and its next block starts at `next`.
pub record Header (m : Bytes) (p : ℕ) (b : Block) (n : ℤ) : Type 0 where
  pub size : read_int m (size_at p) ≡ pos b.size
  pub free : read_int m (is_free_at p) ≡ flag b.free
  pub next : read_int m (next_at p) ≡ n

-- The headers from `p` on are those of the blocks, which fill VIRTUAL_RAM to its end.
abbrev pub IsChain : Bytes → ℕ → List Block → Type 0
IsChain m p [] = p ≡ ram_size
IsChain m p (b ∷ bs) =
    Header m p b (start (p + 12 + b.size) bs) × (0 < b.size) × IsChain m (p + 12 + b.size) bs

-- What every run of the allocator keeps.
abbrev pub IsHeap : Bytes → List Block → Type 0
IsHeap m bs = IsChain m data_region_offset bs

pub IsChain-span : (m : Bytes) (p : ℕ) (bs : List Block) → IsChain m p bs → p + span bs ≡ ram_size
IsChain-span m p [] h = omega arith
IsChain-span m p (b ∷ bs) h = omega (arith, IsChain-span m (p + 12 + b.size) bs h.2)

pub length-le-span : (bs : List Block) → length bs + length bs ≤ span bs
length-le-span [] = omega arith
length-le-span (b ∷ bs) = omega (arith, length-le-span bs)

pub in_chain-pos : (p : ℕ) → data_region_offset ≤ p → p + 12 ≤ ram_size → in_chain (pos p) ≡ true
unfolding in_chain
in_chain-pos p h k = rw (
  my_sub-pos ram_size 1 (omega arith) (omega arith),
  in_bounds-pos p data_region_offset (ram_size - 1) h (omega arith),
)

Header-SameOutside :
    {lo hi : ℕ} (m m' : Bytes) (p : ℕ) (b : Block) (next : ℤ)
    → SameOutside lo hi m m'
    → (p + 12 ≤ lo) ⊎ (hi ≤ p)
    → Header m p b next
    → Header m' p b next
Header-SameOutside m m' p b next same apart h = record {
  size = read_int-SameOutside m m' (size_at p) same (omega arith) ∙ h.size;
  free = read_int-SameOutside m m' (is_free_at p) same (omega arith) ∙ h.free;
  next = read_int-SameOutside m m' (next_at p) same (omega arith) ∙ h.next;
}

-- A chain behind the range of a change is not touched by it.
pub IsChain-SameOutside :
    {lo hi : ℕ} (m m' : Bytes) (p : ℕ) (bs : List Block)
    → SameOutside lo hi m m'
    → hi ≤ p
    → IsChain m p bs
    → IsChain m' p bs
IsChain-SameOutside m m' p [] same h c = c
IsChain-SameOutside m m' p (b ∷ bs) same h c = (
  Header-SameOutside m m' p b _ same (inr h) c.0,
  c.1,
  IsChain-SameOutside m m' (p + 12 + b.size) bs same (omega arith) c.2,
)

-- The chain from the block behind `pre` on.
pub IsChain-drop :
    (m : Bytes) (p q : ℕ) (pre bs : List Block)
    → p + span pre ≡ q
    → IsChain m p (pre ++ bs)
    → IsChain m q bs
IsChain-drop m p q [] bs e c = let e' : p ≡ q = omega arith in subst (λ q. IsChain m q bs) e' c
IsChain-drop m p q (a ∷ pre) bs e c = IsChain-drop m (p + 12 + a.size) q pre bs (omega arith) c.2

start-append :
    (p : ℕ) (pre : List Block) (b c : Block) (bs cs : List Block)
    → start p (pre ++ b ∷ bs) ≡ start p (pre ++ c ∷ cs)
start-append p [] b c bs cs = refl
start-append p (a ∷ pre) b c bs cs = refl

-- New blocks in place of those from `q` on, by a change behind `q`.
pub IsChain-replace :
    {hi : ℕ} (m m' : Bytes) (p q : ℕ) (pre : List Block) (b c : Block) (bs cs : List Block)
    → p + span pre ≡ q
    → SameOutside q hi m m'
    → IsChain m p (pre ++ b ∷ bs)
    → IsChain m' q (c ∷ cs)
    → IsChain m' p (pre ++ c ∷ cs)
IsChain-replace m m' p q [] b c bs cs e same old new =
    let e' : q ≡ p = omega arith in subst (λ p. IsChain m' p (c ∷ cs)) e' new
IsChain-replace m m' p q (a ∷ pre) b c bs cs e same old new = (
  subst (Header m' p a) (start-append (p + 12 + a.size) pre b c bs cs)
      (Header-SameOutside m m' p a _ same (inl (omega arith)) old.0),
  old.1,
  IsChain-replace m m' (p + 12 + a.size) q pre b c bs cs (omega arith) same old.2 new,
)

-- Writes to the usable bytes of one block leave the chain alone.
pub IsChain-payload :
    {lo hi : ℕ} (m m' : Bytes) (p : ℕ) (pre : List Block) (c : Block) (cs : List Block)
    → p + span pre + 12 ≤ lo
    → hi ≤ p + span pre + 12 + c.size
    → SameOutside lo hi m m'
    → IsChain m p (pre ++ c ∷ cs)
    → IsChain m' p (pre ++ c ∷ cs)
IsChain-payload m m' p [] c cs h k same old = (
  Header-SameOutside m m' p c _ same (inl (omega arith)) old.0,
  old.1,
  IsChain-SameOutside m m' (p + 12 + c.size) cs same (omega arith) old.2,
)
IsChain-payload m m' p (a ∷ pre) c cs h k same old = (
  Header-SameOutside m m' p a _ same (inl (omega arith)) old.0,
  old.1,
  IsChain-payload m m' (p + 12 + a.size) pre c cs (omega arith) (omega arith) same old.2,
)

pub span-append : (bs cs : List Block) → span (bs ++ cs) ≡ span bs + span cs
span-append [] cs = omega arith
span-append (b ∷ bs) cs = omega (arith, span-append bs cs)
