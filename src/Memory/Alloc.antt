-- ===== src/Memory/Alloc.antt =====
-- `alloc` (libs/memory.c) is first fit on the list of blocks.
use mineos.Base.{
  ℕ, zero, suc, ◌+◌, ◌≤◌, ◌<◌, ◌≡◌, refl, inl, inr, sym, ◌∙◌, subst, ap, List, [], ◌∷◌, ◌++◌, arith,
  length, ℤ, pos, ◌&&◌, leb, Option, none, some, Bool-cases, lt→leb,
}
use mineos.Bytes.{Bytes}
use mineos.Bytes.Outside.{SameOutside}
use mineos.Memory.Layout.{data_region_offset}
use mineos.Memory.{Ptr, in_chain, is_free, fits, take_block, alloc_loop}
use mineos.Memory.FirstFit.{Fit, push, first_fit, carve, IsFit, first_fit-IsFit}
use mineos.Memory.Take.{Taken, take_block-Taken}
use mineos.Machine.{Machine}
use mineos.Memory.{alloc, finish_alloc, chain_fuel}
use mineos.Screen.{emit}
use mineos.Memory.FirstFit.{carve-cons}
use mineos.Memory.Chain.{
  IsHeap, length-le-span, Block, span, start, Header, IsChain, IsChain-span, in_chain-pos,
  IsChain-drop, IsChain-replace,
}

fits-Header :
    (m : Bytes) (p n : ℕ) (b : Block) (nx : ℤ)
    → Header m p b nx
    → fits m (pos p) (pos n) ≡ (b.free && leb n b.size)
unfolding fits is_free
fits-Header m p n b nx h = rw (h.size, h.free) (ground arith)

-- What the loop returns, by the block that it finds.
outcome : Bytes → ℕ → ℕ → Option Fit → Ptr × Bytes
outcome m p n none = (none, m)
outcome m p n (some f) = take_block m (pos (p + span f.before)) (pos n)

outcome-push :
    (m : Bytes) (p n : ℕ) (b : Block) (o : Option Fit)
    → outcome m (p + 12 + b.size) n o ≡ outcome m p n (push b o)
unfolding outcome push
outcome-push m p n b none = refl
outcome-push m p n b (some f) = ap (λ t. take_block m (pos t) (pos n)) (omega arith)

-- On a chain of blocks the loop takes the first that fits.
alloc_loop-first_fit :
    (bs : List Block) (fuel : ℕ) (m : Bytes) (p n : ℕ)
    → length bs < fuel
    → IsChain m p bs
    → data_region_offset ≤ p
    → alloc_loop fuel (pos n) (start p bs) m ≡ outcome m p n (first_fit n bs)
unfolding alloc_loop outcome first_fit
alloc_loop-first_fit bs zero m p n f c h = absurd (omega arith)
alloc_loop-first_fit [] (suc fuel) m p n f c h = unfold in_chain in refl
alloc_loop-first_fit (b ∷ bs) (suc fuel) m p n f c h =
    let fill = IsChain-span m (p + 12 + b.size) bs c.2 in
    let head = c.0 in
    rw (in_chain-pos p h (omega arith), fits-Header m p n b _ head, head.next)
      (elim (Bool-cases (b.free && leb n b.size)) [
        | inl e ↦ rw e (ap (λ t. take_block m (pos t) (pos n)) (omega arith))
        | inr e ↦ rw e (
            alloc_loop-first_fit bs fuel m (p + 12 + b.size) n (omega arith) c.2 (omega arith)
            ∙ outcome-push m p n b (first_fit n bs))
      ])

abbrev pub IsAllocated : Machine → ℕ → Option Fit → Ptr × Machine → Type 0
IsAllocated k n none r = (r.0 ≡ none) × (r.1.ram ≡ k.ram)
IsAllocated k n (some f) r =
    let at = data_region_offset + span f.before in
    (r.0 ≡ some (pos (at + 12)))
    × IsHeap r.1.ram (f.before ++ (carve n f.found ++ f.behind))
    × SameOutside at (at + 12 + f.found.size) k.ram r.1.ram

-- The chain after the block at `q`, behind `pre`, was taken.
Taken-IsHeap :
    (m : Bytes) (q n : ℕ) (f : Fit) (r : Ptr × Bytes)
    → data_region_offset + span f.before ≡ q
    → IsHeap m (f.before ++ f.found ∷ f.behind)
    → Taken m q n f.found f.behind r
    → IsHeap r.1 (f.before ++ (carve n f.found ++ f.behind))
Taken-IsHeap m q n f r e old t =
    let (c, cs, carved) = carve-cons n f.found in
    let new = subst (λ l. IsChain r.1 q (l ++ f.behind)) carved t.chain in
    rw carved (
      IsChain-replace m r.1 data_region_offset q f.before f.found c f.behind (cs ++ f.behind) e
        t.same old new)

finish_alloc-some :
    (size : ℤ) (r : Ptr × Bytes) (k : Machine) {p : ℤ}
    → r.0 ≡ some p
    → ((finish_alloc size r k).0 ≡ some p) × ((finish_alloc size r k).1.ram ≡ r.1)
unfolding finish_alloc
finish_alloc-some size (none, m) k e = absurd (ground arith)
finish_alloc-some size (some q, m) k e = (e, refl)

finish_IsAllocated :
    (k : Machine) (bs : List Block) (n : ℕ) (o : Option Fit)
    → IsHeap k.ram bs
    → 0 < n
    → IsFit n bs o
    → IsAllocated k n o (finish_alloc (pos n) (outcome k.ram data_region_offset n o) k)
unfolding finish_alloc outcome emit
finish_IsAllocated k bs n none c h f = (refl, refl)
finish_IsAllocated k bs n (some f) c h g =
    let q : ℕ = data_region_offset + span f.before in
    let old = subst (IsHeap k.ram) g.0 c in
    let r = take_block k.ram (pos q) (pos n) in
    let here = IsChain-drop k.ram data_region_offset q f.before (f.found ∷ f.behind) refl old in
    let t = take_block-Taken k.ram q n f.found f.behind here h g.2 in
    let done = finish_alloc-some (pos n) r k t.pointer in
    (done.0, rw (done.1) (Taken-IsHeap k.ram q n f r refl old t), rw (done.1) t.same)

pub length-lt-fuel : (m : Bytes) (bs : List Block) → IsHeap m bs → length bs < chain_fuel
length-lt-fuel m bs c = omega (arith, IsChain-span m data_region_offset bs c, length-le-span bs)

pub start-IsHeap :
    (m : Bytes) (bs : List Block)
    → IsHeap m bs
    → start data_region_offset bs ≡ pos data_region_offset
start-IsHeap m [] c = absurd (omega arith)
start-IsHeap m (b ∷ bs) c = refl

-- On a heap that holds the blocks `bs`, `alloc` of a positive size takes the first free block that
-- is large enough: it returns the address behind that block's header, leaves a heap with the block
-- split as the code splits it, and writes nowhere outside of the block that it found. If no block
-- is large enough it returns NULL and leaves the RAM alone.
pub alloc-first_fit :
    (k : Machine) (bs : List Block) (n : ℕ)
    → IsHeap k.ram bs
    → 0 < n
    → IsFit n bs (first_fit n bs) × IsAllocated k n (first_fit n bs) (alloc (pos n) k)
unfolding alloc
alloc-first_fit k bs n c h =
    let found = first_fit-IsFit n bs in
    let walk =
      alloc_loop-first_fit bs chain_fuel k.ram data_region_offset n (length-lt-fuel k.ram bs c) c
        (omega arith) in
    (
      found,
      rw (lt→leb n 0 h, sym (start-IsHeap k.ram bs c), walk)
          (finish_IsAllocated k bs n (first_fit n bs) c h found),
    )
