-- ===== src/Memory/Live.antt =====
-- The bytes that clients of the allocator (libs/memory.c) own are never written by it.
use mineos.Base.{
  ℕ, ◌+◌, ◌≤◌, ◌<◌, ◌≡◌, ◌⊎◌, inl, inr, ap, subst, false, true, List, [], ◌∷◌, ◌++◌, arith, pos,
  none, some, Option,
}
use mineos.Bytes.Outside.{IsOutside}
use mineos.Machine.{Machine}
use mineos.Memory.Layout.{data_region_offset}
use mineos.Memory.{Ptr, alloc, dealloc}
use mineos.Memory.FirstFit.{Fit, first_fit, IsFit}
use mineos.Memory.Alloc.{alloc-first_fit, IsAllocated}
use mineos.Memory.Release.{dealloc-coalesce}
use mineos.Memory.Chain.{Block, span, IsHeap}

-- `q` is a usable byte of a used block among those that lie from `p` on.
abbrev pub IsLive : ℕ → List Block → ℕ → Type 0
IsLive p [] q = ⊥
IsLive p (b ∷ bs) q =
    ((b.free ≡ false) × (p + 12 ≤ q) × (q < p + 12 + b.size)) ⊎ IsLive (p + 12 + b.size) bs q

IsLive-le : (p : ℕ) (bs : List Block) (q : ℕ) → IsLive p bs q → p + 12 ≤ q
IsLive-le p [] q l = absurd l
IsLive-le p (b ∷ bs) q (inl l) = omega arith
IsLive-le p (b ∷ bs) q (inr l) = omega (arith, IsLive-le (p + 12 + b.size) bs q l)

-- A live byte lies outside of every free block, and of every header.
live-IsOutside_free :
    (p : ℕ) (pre : List Block) (b : Block) (bs : List Block) (q : ℕ)
    → b.free ≡ true
    → IsLive p (pre ++ b ∷ bs) q
    → IsOutside (p + span pre) (p + span pre + 12 + b.size) q
live-IsOutside_free p [] b bs q e (inl l) = absurd (ground arith)
live-IsOutside_free p [] b bs q e (inr l) = omega (arith, IsLive-le (p + 12 + b.size) bs q l)
live-IsOutside_free p (a ∷ pre) b bs q e (inl l) = omega arith
live-IsOutside_free p (a ∷ pre) b bs q e (inr l) =
    omega (arith, live-IsOutside_free (p + 12 + a.size) pre b bs q e l)

live-IsOutside_header :
    (p : ℕ) (pre : List Block) (b : Block) (bs : List Block) (q : ℕ)
    → IsLive p (pre ++ b ∷ bs) q
    → IsOutside (p + span pre) (p + span pre + 12) q
live-IsOutside_header p [] b bs q (inl l) = omega arith
live-IsOutside_header p [] b bs q (inr l) = omega (arith, IsLive-le (p + 12 + b.size) bs q l)
live-IsOutside_header p (a ∷ pre) b bs q (inl l) = omega arith
live-IsOutside_header p (a ∷ pre) b bs q (inr l) =
    omega (arith, live-IsOutside_header (p + 12 + a.size) pre b bs q l)

allocated-live :
    (k : Machine) (bs : List Block) (n : ℕ) (o : Option Fit) (r : Ptr × Machine) (q : ℕ)
    → IsFit n bs o
    → IsAllocated k n o r
    → IsLive data_region_offset bs q
    → r.1.ram q ≡ k.ram q
allocated-live k bs n none r q f a l = ap (λ (m : ℕ → ℕ). m q) a.1
allocated-live k bs n (some f) r q fit a l =
    let l' = subst (λ t. IsLive data_region_offset t q) fit.0 l in
    a.2 q (live-IsOutside_free data_region_offset f.before f.found f.behind q fit.1 l')

-- On a heap, `alloc` of a positive size changes no usable byte of a used block, and `dealloc` of
-- the address of any of its blocks changes none either, and both change nothing below the data
-- region, where the inode and process tables lie.
pub live_bytes_kept :
    (k : Machine) (pre : List Block) (b : Block) (bs : List Block) (n q : ℕ)
    → IsHeap k.ram (pre ++ b ∷ bs)
    → 0 < n
    → IsLive data_region_offset (pre ++ b ∷ bs) q ⊎ (q < data_region_offset)
    → ((alloc (pos n) k).1.ram q ≡ k.ram q)
      × ((dealloc (some (pos (data_region_offset + span pre + 12))) k).ram q ≡ k.ram q)
live_bytes_kept k pre b bs n q c h (inl l) =
    let done = alloc-first_fit k _ n c h in
    (
      allocated-live k (pre ++ b ∷ bs) n (first_fit n (pre ++ b ∷ bs)) (alloc (pos n) k) q done.0
          done.1 l,
      (dealloc-coalesce k pre b bs c).1 q (live-IsOutside_header data_region_offset pre b bs q l),
    )
live_bytes_kept k pre b bs n q c h (inr l) =
    let done = alloc-first_fit k _ n c h in
    (
      allocated_below k n (first_fit n (pre ++ b ∷ bs)) (alloc (pos n) k) q done.1 l,
      (dealloc-coalesce k pre b bs c).1 q (inl (omega arith)),
    )
  where
    allocated_below :
        (k : Machine) (n : ℕ) (o : Option Fit) (r : Ptr × Machine) (q : ℕ)
        → IsAllocated k n o r
        → q < data_region_offset
        → r.1.ram q ≡ k.ram q
    allocated_below k n none r q a l = ap (λ (m : ℕ → ℕ). m q) a.1
    allocated_below k n (some f) r q a l = a.2 q (inl (omega arith))
