-- ===== src/Memory/Accounting.antt =====
-- What `alloc` and `dealloc` (libs/memory.c) do to the sum of the used bytes.
use mineos.Base.{
  ℕ, ◌+◌, ◌≤◌, ◌<◌, ◌≡◌, sym, ◌∙◌, ap, false, true, List, ◌∷◌, ◌++◌, arith, ℤ, pos, none, some,
  Option,
}
use mineos.Machine.{Machine}
use mineos.Memory.Layout.{data_region_offset}
use mineos.Memory.{Ptr, alloc, dealloc, memory_used}
use mineos.Memory.FirstFit.{Fit, carve, coalesce, first_fit, IsFit}
use mineos.Memory.Alloc.{alloc-first_fit, IsAllocated}
use mineos.Memory.Release.{dealloc-coalesce}
use mineos.Memory.Chain.{Block, span, IsHeap}
use mineos.Memory.Stats.{
  used_bytes, memory_used-add-free, used_bytes-append, granted, granted_bounds, used_bytes-carve,
  used_bytes-coalesce,
}

used_bytes-free :
    (pre bs : List Block) (b : Block)
    → b.free ≡ true
    → used_bytes (pre ++ b ∷ bs) ≡ used_bytes pre + used_bytes bs
unfolding used_bytes
used_bytes-free pre bs b e = rw (used_bytes-append pre (b ∷ bs)) (simp e (omega arith))

used_bytes-take :
    (n : ℕ) (f : Fit)
    → f.found.free ≡ true
    → used_bytes (f.before ++ (carve n f.found ++ f.behind))
      ≡ used_bytes (f.before ++ f.found ∷ f.behind) + granted n f.found
used_bytes-take n f e =
    rw
      (
        used_bytes-free f.before f.behind f.found e,
        used_bytes-append f.before (carve n f.found ++ f.behind),
        used_bytes-append (carve n f.found) f.behind,
        used_bytes-carve n f.found,
      )
      (omega arith)

-- The used bytes of two machines differ by `g`.
abbrev pub UsesMore : ℕ → Machine → Machine → Type 0
UsesMore g k k' = (u : ℕ) × (memory_used k ≡ pos u) × (memory_used k' ≡ pos (u + g))

allocated_UsesMore :
    (k : Machine) (bs : List Block) (n : ℕ) (o : Option Fit) (r : Ptr × Machine) {p : ℤ}
    → IsHeap k.ram bs
    → IsFit n bs o
    → IsAllocated k n o r
    → r.0 ≡ some p
    → (g : ℕ) × (n ≤ g) × (g < n + 13) × UsesMore g k r.1
allocated_UsesMore k bs n none r c f a e = absurd (ground arith)
allocated_UsesMore k bs n (some f) r c fit a e =
    let b = granted_bounds n f.found fit.2 in
    let before = memory_used-add-free k bs c in
    let after = memory_used-add-free r.1 _ a.1 in
    (
      granted n f.found,
      b.0,
      b.1,
      (
        used_bytes bs,
        before.0,
        after.0
            ∙ ap pos (
                used_bytes-take n f fit.1 ∙ ap (λ t. used_bytes t + granted n f.found) (sym fit.0)),
      ),
    )

-- On a heap, an `alloc` of `n` bytes that succeeds raises `memory_used` by at least `n` bytes and by
-- fewer than `n + 13`.
pub memory_used-alloc :
    (k : Machine) (bs : List Block) (n : ℕ) {p : ℤ}
    → IsHeap k.ram bs
    → 0 < n
    → (alloc (pos n) k).0 ≡ some p
    → (g : ℕ) × (n ≤ g) × (g < n + 13) × UsesMore g k (alloc (pos n) k).1
memory_used-alloc k bs n c h e =
    let done = alloc-first_fit k bs n c h in
    allocated_UsesMore k bs n (first_fit n bs) (alloc (pos n) k) c done.0 done.1 e

-- On a heap, `dealloc` of a used block lowers `memory_used` by exactly the size of that block.
pub memory_used-dealloc :
    (k : Machine) (pre : List Block) (b : Block) (bs : List Block)
    → IsHeap k.ram (pre ++ b ∷ bs)
    → b.free ≡ false
    → UsesMore b.size (dealloc (some (pos (data_region_offset + span pre + 12))) k) k
unfolding used_bytes
memory_used-dealloc k pre b bs c e =
    let done = dealloc-coalesce k pre b bs c in
    let before = memory_used-add-free k _ c in
    let after = memory_used-add-free _ _ (done.0) in
    (
      used_bytes pre + used_bytes bs,
      after.0
          ∙ ap pos (
              used_bytes-append pre (coalesce b bs)
              ∙ ap (λ t. used_bytes pre + t) (used_bytes-coalesce b bs)),
      before.0 ∙ ap pos (used_bytes-append pre (b ∷ bs) ∙ simp e (omega arith)),
    )
