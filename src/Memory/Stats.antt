-- ===== src/Memory/Stats.antt =====
-- `memory_used` and `memory_free` (libs/memory.c) add up the blocks; nothing is lost or gained.
use mineos.Base.{
  ℕ, zero, suc, ◌+◌, ◌-◌, ◌*◌, ◌≤◌, ◌<◌, ◌≡◌, refl, inl, inr, sym, ◌∙◌, ap, List, [], ◌∷◌, ◌++◌,
  arith, ℤ, pos, if◌then◌else◌, Bool-cases, length, leb,
}
use mineos.Math.Bounds.{my_add-pos}
use mineos.Bytes.{Bytes}
use mineos.Machine.{Machine}
use mineos.Memory.Layout.{data_region_offset, data_region_size}
use mineos.Memory.{in_chain, is_free, used_loop, free_loop, memory_used, memory_free, chain_fuel}
use mineos.Memory.FirstFit.{carve, coalesce}
use mineos.Memory.Alloc.{length-lt-fuel, start-IsHeap}
use mineos.Memory.Release.{flag_test}
use mineos.Memory.Chain.{Block, span, start, Header, IsChain, IsHeap, IsChain-span, in_chain-pos}

unfoldable pub used_bytes : List Block → ℕ
used_bytes [] = 0
used_bytes (b ∷ bs) = (if b.free then 0 else b.size) + used_bytes bs

unfoldable pub free_bytes : List Block → ℕ
free_bytes [] = 0
free_bytes (b ∷ bs) = (if b.free then b.size else 0) + free_bytes bs

pub bytes-span : (bs : List Block) → used_bytes bs + free_bytes bs + 12 * length bs ≡ span bs
unfolding used_bytes free_bytes
bytes-span [] = omega arith
bytes-span (b ∷ bs) = ground (arith, bytes-span bs)

is_free-Header :
    (m : Bytes) (p : ℕ) (b : Block) (nx : ℤ) → Header m p b nx → is_free m (pos p) ≡ b.free
unfolding is_free
is_free-Header m p b nx h = rw h.free (flag_test b.free)

used_loop-sum :
    (bs : List Block) (fuel : ℕ) (m : Bytes) (p acc : ℕ)
    → length bs < fuel
    → IsChain m p bs
    → data_region_offset ≤ p
    → acc ≤ p
    → used_loop fuel (start p bs) (pos acc) m ≡ pos (acc + used_bytes bs)
unfolding used_loop used_bytes
used_loop-sum bs zero m p acc f c h k = absurd (omega arith)
used_loop-sum [] (suc fuel) m p acc f c h k = unfold in_chain in ap pos (omega arith)
used_loop-sum (b ∷ bs) (suc fuel) m p acc f c h k =
    let fill = IsChain-span m (p + 12 + b.size) bs c.2 in
    let head = c.0 in
    let rest = λ (acc' : ℕ) (le : acc' ≤ p + b.size).
      used_loop-sum bs fuel m (p + 12 + b.size) acc' (omega arith) c.2 (omega arith)
        (omega arith) in
    rw (in_chain-pos p h (omega arith), is_free-Header m p b _ head, head.size, head.next)
      (elim (Bool-cases b.free) [
        | inl e ↦ simp e (rest acc (omega arith) ∙ ap pos (omega arith))
        | inr e ↦
            simp (e, my_add-pos acc b.size (omega arith))
              (rest (acc + b.size) (omega arith) ∙ ap pos (omega arith))
      ])

free_loop-sum :
    (bs : List Block) (fuel : ℕ) (m : Bytes) (p acc : ℕ)
    → length bs < fuel
    → IsChain m p bs
    → data_region_offset ≤ p
    → acc ≤ p
    → free_loop fuel (start p bs) (pos acc) m ≡ pos (acc + free_bytes bs)
unfolding free_loop free_bytes
free_loop-sum bs zero m p acc f c h k = absurd (omega arith)
free_loop-sum [] (suc fuel) m p acc f c h k = unfold in_chain in ap pos (omega arith)
free_loop-sum (b ∷ bs) (suc fuel) m p acc f c h k =
    let fill = IsChain-span m (p + 12 + b.size) bs c.2 in
    let head = c.0 in
    let rest = λ (acc' : ℕ) (le : acc' ≤ p + b.size).
      free_loop-sum bs fuel m (p + 12 + b.size) acc' (omega arith) c.2 (omega arith)
        (omega arith) in
    rw (in_chain-pos p h (omega arith), is_free-Header m p b _ head, head.size, head.next)
      (elim (Bool-cases b.free) [
        | inl e ↦
            simp (e, my_add-pos acc b.size (omega arith))
              (rest (acc + b.size) (omega arith) ∙ ap pos (omega arith))
        | inr e ↦ simp e (rest acc (omega arith) ∙ ap pos (omega arith))
      ])

-- On a heap, `memory_used` and `memory_free` are the sums over the used and the free blocks, and
-- together with the 12 bytes of each header they make up the data region.
pub memory_used-add-free :
    (k : Machine) (bs : List Block)
    → IsHeap k.ram bs
    → (memory_used k ≡ pos (used_bytes bs))
      × (memory_free k ≡ pos (free_bytes bs))
      × (used_bytes bs + free_bytes bs + 12 * length bs ≡ data_region_size)
unfolding memory_used memory_free
memory_used-add-free k bs c =
    let fuel = length-lt-fuel k.ram bs c in
    (
      rw (sym (start-IsHeap k.ram bs c)) (
          used_loop-sum bs chain_fuel k.ram data_region_offset 0 fuel c (omega arith) (omega arith)
          ∙ ap pos (omega arith)),
      rw (sym (start-IsHeap k.ram bs c)) (
          free_loop-sum bs chain_fuel k.ram data_region_offset 0 fuel c (omega arith) (omega arith)
          ∙ ap pos (omega arith)),
      omega (arith, bytes-span bs, IsChain-span k.ram data_region_offset bs c),
    )

pub used_bytes-append : (bs cs : List Block) → used_bytes (bs ++ cs) ≡ used_bytes bs + used_bytes cs
unfolding used_bytes
used_bytes-append [] cs = omega arith
used_bytes-append (b ∷ bs) cs = omega (arith, used_bytes-append bs cs)

-- The bytes that `alloc` grants for a request of `n` of a free block.
pub granted : ℕ → Block → ℕ
granted n b = if leb 13 (b.size - n) then n else b.size

pub granted_bounds : (n : ℕ) (b : Block) → n ≤ b.size → (n ≤ granted n b) × (granted n b < n + 13)
unfolding granted
granted_bounds n b h = ground arith

pub used_bytes-carve : (n : ℕ) (b : Block) → used_bytes (carve n b) ≡ granted n b
unfolding used_bytes carve granted
used_bytes-carve n b = ground arith

pub used_bytes-coalesce : (b : Block) (bs : List Block) → used_bytes (coalesce b bs) ≡ used_bytes bs
unfolding used_bytes coalesce
used_bytes-coalesce b [] = refl
used_bytes-coalesce b (d ∷ bs) = ground arith
