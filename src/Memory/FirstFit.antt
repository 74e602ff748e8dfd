-- ===== src/Memory/FirstFit.antt =====
-- The abstract allocator: first fit, splitting and release on a list of blocks, which is what
-- `alloc` and `dealloc` (libs/memory.c) promise.
use mineos.Base.{
  ℕ, ◌+◌, ◌-◌, ◌≤◌, ◌≡◌, refl, true, false, List, [], ◌∷◌, ◌++◌, arith, if◌then◌else◌, ap, ◌&&◌,
  leb, Option, none, some, Bool-cases, All, inl, inr,
}
use mineos.Memory.Chain.{Block, block}

-- What is left of a block of which `n` bytes are taken.
unfoldable pub carve : ℕ → Block → List Block
carve n b =
    if leb 13 (b.size - n)
    then block n false ∷ block (b.size - n - 12) true ∷ []
    else block b.size false ∷ []

-- The first free block with room for `n` bytes, those before it and those behind it.
pub record Fit : Type 0 where
  pub before : List Block
  pub found : Block
  pub behind : List Block

unfoldable pub push : Block → Option Fit → Option Fit
push b none = none
push b (some f) = some (record f { before = b ∷ f.before })

unfoldable pub first_fit : ℕ → List Block → Option Fit
first_fit n [] = none
first_fit n (b ∷ bs) =
    let rest = push b (first_fit n bs) in
    if b.free && leb n b.size then some (record { before = []; found = b; behind = bs }) else rest

abbrev pub IsTooSmall : ℕ → Block → Type 0
IsTooSmall n b = (b.free && leb n b.size) ≡ false

-- What `first_fit` finds: a free block of the list that is large enough, behind blocks that are not.
abbrev pub IsFit : ℕ → List Block → Option Fit → Type 0
IsFit n bs none = All (IsTooSmall n) bs
IsFit n bs (some f) =
    (bs ≡ f.before ++ f.found ∷ f.behind)
    × (f.found.free ≡ true)
    × (n ≤ f.found.size)
    × All (IsTooSmall n) f.before

push-IsFit :
    (n : ℕ) (b : Block) (bs : List Block) (o : Option Fit)
    → IsTooSmall n b
    → IsFit n bs o
    → IsFit n (b ∷ bs) (push b o)
unfolding push
push-IsFit n b bs none h k = (h, k)
push-IsFit n b bs (some f) h k = (ap (λ t. b ∷ t) k.0, k.1, k.2, (h, k.3))

pub first_fit-IsFit : (n : ℕ) (bs : List Block) → IsFit n bs (first_fit n bs)
unfolding first_fit
first_fit-IsFit n [] = tt
first_fit-IsFit n (b ∷ bs) = elim (Bool-cases (b.free && leb n b.size)) [
  | inl e ↦ rw e (refl, ground arith, ground arith, tt)
  | inr e ↦ rw e (push-IsFit n b bs (first_fit n bs) e (first_fit-IsFit n bs))
]

-- A released block, joined to the next if that is free.
unfoldable pub coalesce : Block → List Block → List Block
coalesce b [] = block b.size true ∷ []
coalesce b (c ∷ cs) =
    if c.free then block (b.size + 12 + c.size) true ∷ cs else block b.size true ∷ c ∷ cs

pub carve-cons : (n : ℕ) (b : Block) → (c : Block) × (cs : List Block) × (carve n b ≡ c ∷ cs)
unfolding carve
carve-cons n b = elim (Bool-cases (leb 13 (b.size - n))) [
  | inl e ↦ (block n false, block (b.size - n - 12) true ∷ [], rw e)
  | inr e ↦ (block b.size false, [], rw e)
]

-- The first block of a carved one is used and has room for the request.
pub carve-size :
    (n : ℕ) (b : Block)
    → n ≤ b.size
    → (c : Block) × (cs : List Block) × (carve n b ≡ c ∷ cs) × (n ≤ c.size) × (c.free ≡ false)
unfolding carve
carve-size n b h = elim (Bool-cases (leb 13 (b.size - n))) [
  | inl e ↦ (block n false, block (b.size - n - 12) true ∷ [], rw e, omega arith, refl)
  | inr e ↦ (block b.size false, [], rw e, omega arith, refl)
]
