-- ===== src/Memory/Init.antt =====
-- `memory_init` (libs/memory.c): all bytes 0, but for the header of one free block.
use mineos.Base.{
  ℕ, zero, suc, ◌+◌, ◌-◌, ◌<◌, ◌≡◌, refl, ◌∙◌, true, [], ◌∷◌, arith, pos, minus_one, if◌then◌else◌,
  leb, ltb, ◌&&◌,
}
use mineos.Math.Bounds.{my_sub-pos}
use mineos.Bytes.{Bytes, put, write_int}
use mineos.Bytes.Ints.{read_int-write_int}
use mineos.Bytes.Outside.{SameOutside, IsOutside, write_int-SameOutside}
use mineos.Machine.{Machine}
use mineos.Memory.Layout.{ram_size, data_region_offset, data_region_size, block_header_size}
use mineos.Memory.{clear_loop, place_first, memory_init}
use mineos.Memory.Take.{read_past}
use mineos.Memory.Chain.{block, IsHeap}

clear_loop_lem :
    (n i : ℕ) (m : Bytes) (q : ℕ)
    → clear_loop n i m q ≡ (if leb i q && ltb q (i + n) then 0 else m q)
unfolding clear_loop put
clear_loop_lem zero i m q = ground arith
clear_loop_lem (suc n) i m q = ground (arith, clear_loop_lem n (i + 1) (put m i 0) q)

-- The size of the block that covers the data region.
abbrev pub whole : ℕ
whole = data_region_size - block_header_size

pub place_first-IsHeap : (m : Bytes) → IsHeap (place_first m) (block whole true ∷ [])
unfolding place_first
place_first-IsHeap m =
    let p : ℕ = data_region_offset in
    let m1 : Bytes = write_int m p (pos whole) in
    let m2 : Bytes = write_int m1 (p + 4) (pos 1) in
    rw (my_sub-pos data_region_size block_header_size (omega arith) (omega arith)) (
      record {
        size = read_past m2 (p + 8) minus_one p (omega arith) (
            read_past m1 (p + 4) (pos 1) p (omega arith)
              (read_int-write_int m p (pos whole) (omega arith)));
        free =
            read_past m2 (p + 8) minus_one (p + 4) (omega arith)
              (read_int-write_int m1 (p + 4) (pos 1) (omega arith));
        next = read_int-write_int m2 (p + 8) minus_one (omega arith);
      },
      omega arith,
      refl,
    )

place_first-SameOutside :
    (m : Bytes) → SameOutside data_region_offset (data_region_offset + 12) m (place_first m)
unfolding place_first
place_first-SameOutside m q out =
    write_int-SameOutside _ (data_region_offset + 8) _ q (omega arith)
    ∙ write_int-SameOutside _ (data_region_offset + 4) _ q (omega arith)
    ∙ write_int-SameOutside m data_region_offset _ q (omega arith)

-- Whatever the RAM held before, `memory_init` leaves a heap of one free block that covers the data
-- region, and 0 in every other byte of the RAM.
pub memory_init-IsHeap :
    (k : Machine)
    → IsHeap (memory_init k).ram (block whole true ∷ [])
      × ((q : ℕ)
          → q < ram_size
          → IsOutside data_region_offset (data_region_offset + 12) q
          → (memory_init k).ram q ≡ 0)
unfolding memory_init
memory_init-IsHeap k = (
  place_first-IsHeap (clear_loop ram_size 0 k.ram),
  λ q h out.
      place_first-SameOutside (clear_loop ram_size 0 k.ram) q out
      ∙ clear_loop_lem ram_size 0 k.ram q
      ∙ cleared q h,
)
  where
    cleared : (q : ℕ) → q < ram_size → (if leb 0 q && ltb q (0 + ram_size) then 0 else k.ram q) ≡ 0
    cleared q h = ground arith
