-- ===== src/Memory/Owners.antt =====
-- Which addresses belong to used blocks of the allocator (libs/memory.c), before and after its calls.
use mineos.Base.{
  ℕ, ◌+◌, ◌-◌, ◌≤◌, ◌≡◌, ◌≢◌, refl, ap, ◌⊎◌, inl, inr, subst, true, false, Bool-cases, if_cases,
  leb, List, [], ◌∷◌, ◌++◌, arith,
}
use mineos.Memory.Chain.{Block, span}
use mineos.Memory.FirstFit.{carve, coalesce}

-- From `o` on stand at least `n` usable bytes of a used block, among the blocks that lie from `p` on.
abbrev pub RoomAt : ℕ → ℕ → ℕ → List Block → Type 0
RoomAt p o n [] = ⊥
RoomAt p o n (b ∷ bs) =
    ((o ≡ p + 12) × (b.free ≡ false) × (n ≤ b.size)) ⊎ RoomAt (p + 12 + b.size) o n bs

-- `o` is the address of the usable bytes of a used block.
abbrev pub UsedAt : ℕ → ℕ → List Block → Type 0
UsedAt p o bs = RoomAt p o 0 bs

pub RoomAt-UsedAt : (p o n : ℕ) (bs : List Block) → RoomAt p o n bs → UsedAt p o bs
RoomAt-UsedAt p o n [] u = absurd u
RoomAt-UsedAt p o n (b ∷ bs) (inl u) = inl (u.0, u.1, omega arith)
RoomAt-UsedAt p o n (b ∷ bs) (inr u) = inr (RoomAt-UsedAt (p + 12 + b.size) o n bs u)

pub RoomAt-le : (p o n : ℕ) (bs : List Block) → RoomAt p o n bs → p + 12 ≤ o
RoomAt-le p o n [] u = absurd u
RoomAt-le p o n (b ∷ bs) (inl u) = omega arith
RoomAt-le p o n (b ∷ bs) (inr u) = omega (arith, RoomAt-le (p + 12 + b.size) o n bs u)

pub RoomAt-span : (p o n : ℕ) (bs : List Block) → RoomAt p o n bs → o + n ≤ p + span bs
RoomAt-span p o n [] u = absurd u
RoomAt-span p o n (b ∷ bs) (inl u) = omega arith
RoomAt-span p o n (b ∷ bs) (inr u) = omega (arith, RoomAt-span (p + 12 + b.size) o n bs u)

RoomAt-eq : (o n : ℕ) (bs : List Block) {p q : ℕ} → p ≡ q → RoomAt p o n bs → RoomAt q o n bs
RoomAt-eq o n bs e u = subst (λ p. RoomAt p o n bs) e u

-- The used block that stands for the address.
pub UsedAt-split :
    (p o : ℕ) (bs : List Block)
    → UsedAt p o bs
    → (pre : List Block) × (b : Block) × (post : List Block) × (bs ≡ pre ++ b ∷ post)
      × (o ≡ p + span pre + 12)
UsedAt-split p o [] u = absurd u
UsedAt-split p o (b ∷ bs) (inl u) = ([], b, bs, refl, omega arith)
UsedAt-split p o (b ∷ bs) (inr u) =
    let (pre, c, post, e, at) = UsedAt-split (p + 12 + b.size) o bs u in
    (b ∷ pre, c, post, ap (λ l. b ∷ l) e, omega arith)

-- Release of a block leaves the others used.
coalesce-RoomAt :
    (p o n : ℕ) (b : Block) (bs : List Block)
    → RoomAt (p + 12 + b.size) o n bs
    → RoomAt p o n (coalesce b bs)
unfolding coalesce
coalesce-RoomAt p o n b [] u = absurd u
coalesce-RoomAt p o n b (c ∷ cs) u =
    if_cases (RoomAt p o n) c.free _ _ (λ e. inr (joined e u)) (λ e. inr u)
  where
    joined :
        c.free ≡ true
        → RoomAt (p + 12 + b.size) o n (c ∷ cs)
        → RoomAt (p + 12 + (b.size + 12 + c.size)) o n cs
    joined e (inl u) = absurd (ground arith)
    joined e (inr u) = RoomAt-eq o n cs (omega arith) u

pub RoomAt-coalesce :
    (p o n : ℕ) (pre : List Block) (b : Block) (post : List Block)
    → o ≢ p + span pre + 12
    → RoomAt p o n (pre ++ b ∷ post)
    → RoomAt p o n (pre ++ coalesce b post)
RoomAt-coalesce p o n [] b post ne (inl u) = absurd (ne (omega arith))
RoomAt-coalesce p o n [] b post ne (inr u) = coalesce-RoomAt p o n b post u
RoomAt-coalesce p o n (a ∷ pre) b post ne (inl u) = inl u
RoomAt-coalesce p o n (a ∷ pre) b post ne (inr u) =
    inr (RoomAt-coalesce (p + 12 + a.size) o n pre b post (λ e. ne (omega arith)) u)

-- An allocation leaves the used blocks used.
carve-RoomAt :
    (p o n l : ℕ) (c : Block) (bs : List Block)
    → l ≤ c.size
    → RoomAt (p + 12 + c.size) o n bs
    → RoomAt p o n (carve l c ++ bs)
unfolding carve
carve-RoomAt p o n l c bs h u = elim (Bool-cases (leb 13 (c.size - l))) [
  | inl e ↦ rw e (inr (inr (RoomAt-eq o n bs (ground arith) u)))
  | inr e ↦ rw e (inr u)
]

pub RoomAt-carve :
    (p o n l : ℕ) (pre : List Block) (c : Block) (post : List Block)
    → c.free ≡ true
    → l ≤ c.size
    → RoomAt p o n (pre ++ c ∷ post)
    → RoomAt p o n (pre ++ (carve l c ++ post))
RoomAt-carve p o n l [] c post e h (inl u) = absurd (ground arith)
RoomAt-carve p o n l [] c post e h (inr u) = carve-RoomAt p o n l c post h u
RoomAt-carve p o n l (a ∷ pre) c post e h (inl u) = inl u
RoomAt-carve p o n l (a ∷ pre) c post e h (inr u) =
    inr (RoomAt-carve (p + 12 + a.size) o n l pre c post e h u)

-- A free block's address is none of a used block.
pub RoomAt-ne :
    (p o n : ℕ) (pre : List Block) (c : Block) (post : List Block)
    → c.free ≡ true
    → RoomAt p o n (pre ++ c ∷ post)
    → o ≢ p + span pre + 12
RoomAt-ne p o n [] c post e (inl u) = absurd (ground arith)
RoomAt-ne p o n [] c post e (inr u) = λ eq. omega (arith, RoomAt-le (p + 12 + c.size) o n post u)
RoomAt-ne p o n (a ∷ pre) c post e (inl u) = λ eq. omega arith
RoomAt-ne p o n (a ∷ pre) c post e (inr u) =
    λ eq. RoomAt-ne (p + 12 + a.size) o n pre c post e u (omega arith)

-- The bytes of a used block lie outside of every other block.
pub RoomAt-apart :
    (p o n : ℕ) (pre : List Block) (c : Block) (post : List Block)
    → o ≢ p + span pre + 12
    → RoomAt p o n (pre ++ c ∷ post)
    → (o + n ≤ p + span pre) ⊎ (p + span pre + 12 + c.size ≤ o)
RoomAt-apart p o n [] c post ne (inl u) = absurd (ne (omega arith))
RoomAt-apart p o n [] c post ne (inr u) = omega (arith, RoomAt-le (p + 12 + c.size) o n post u)
RoomAt-apart p o n (a ∷ pre) c post ne (inl u) = omega arith
RoomAt-apart p o n (a ∷ pre) c post ne (inr u) =
    omega (arith, RoomAt-apart (p + 12 + a.size) o n pre c post (λ e. ne (omega arith)) u)

pub RoomAt-here :
    (p n : ℕ) (pre : List Block) (c : Block) (post : List Block)
    → c.free ≡ false
    → n ≤ c.size
    → RoomAt p (p + span pre + 12) n (pre ++ c ∷ post)
RoomAt-here p n [] c post e h = inl (omega arith, e, h)
RoomAt-here p n (a ∷ pre) c post e h = inr (
    subst (λ o. RoomAt (p + 12 + a.size) o n (pre ++ c ∷ post)) (omega arith)
      (RoomAt-here (p + 12 + a.size) n pre c post e h))
