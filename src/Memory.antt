-- ===== src/Memory.antt =====
-- The allocator of libs/memory.c on VIRTUAL_RAM, and the layout of libs/memory.h. A pointer into
-- VIRTUAL_RAM is NULL or an offset.
pub mod Layout
pub mod Chain
pub mod FirstFit
pub mod Take
pub mod Alloc
pub mod Release
pub mod Stats
pub mod Accounting
pub mod Live
pub mod Owners
pub mod Stays
pub mod Init
pub mod Dump
mod Examples
use mineos.Base.{
  ℕ, zero, suc, ◌+◌, ◌-◌, ℤ, pos, minus_one, pos_part, Bool, true, false, not, ◌&&◌, if◌then◌else◌,
  eqb_ℤ, leb_ℤ, Option, none, some, [], ◌∷◌,
}
use mineos.Math.{my_add, my_sub, in_bounds}
use mineos.Bytes.{Bytes, put, read_int, write_int}
use mineos.Machine.{Machine, text, number}
use mineos.Screen.{emit}
use mineos.Memory.Layout.{
  ram_size, data_region_offset, data_region_size, block_header_size, size_at, is_free_at, next_at,
}

abbrev pub Ptr : Type 0
Ptr = Option ℤ

-- The rounds of the loop of `memory_init` from index `i`.
unfoldable pub clear_loop : ℕ → ℕ → Bytes → Bytes
clear_loop zero i m = m
clear_loop (suc n) i m = clear_loop n (i + 1) (put m i 0)

-- The first block header, which covers the data region.
unfoldable pub place_first : Bytes → Bytes
place_first m =
    write_int
      (write_int
        (write_int m (size_at data_region_offset)
          (my_sub (pos data_region_size) (pos block_header_size)))
        (is_free_at data_region_offset) (pos 1))
      (next_at data_region_offset) minus_one

unfoldable pub memory_init : Machine → Machine
memory_init k = record k { ram = place_first (clear_loop ram_size 0 k.ram) }

-- The test of the loops that walk the chain of blocks.
unfoldable pub in_chain : ℤ → Bool
in_chain offset =
    not (eqb_ℤ offset minus_one)
    && in_bounds offset (pos data_region_offset) (my_sub (pos ram_size) (pos 1))

unfoldable pub is_free : Bytes → ℤ → Bool
is_free m offset = not (eqb_ℤ (read_int m (is_free_at (pos_part offset))) (pos 0))

-- `block->is_free && block->size >= size`
unfoldable pub fits : Bytes → ℤ → ℤ → Bool
fits m offset size = is_free m offset && leb_ℤ size (read_int m (size_at (pos_part offset)))

-- The free block behind an allocated one, and the new size of that.
unfoldable pub split : Bytes → ℤ → ℤ → Bytes
split m offset size =
    let block = pos_part offset in
    let remaining = my_sub (read_int m (size_at block)) size in
    let new_offset = my_add (my_add offset (pos block_header_size)) size in
    let new_block = pos_part new_offset in
    let m1 = write_int m (size_at new_block) (my_sub remaining (pos block_header_size)) in
    let m2 = write_int m1 (is_free_at new_block) (pos 1) in
    let m3 = write_int m2 (next_at new_block) (read_int m2 (next_at block)) in
    let m4 = write_int m3 (size_at block) size in write_int m4 (next_at block) new_offset

-- What `alloc` does with the block that it has found.
unfoldable pub take_block : Bytes → ℤ → ℤ → Ptr × Bytes
take_block m offset size =
    let block = pos_part offset in
    let min_split_size = my_add (pos block_header_size) (pos 1) in
    let remaining = my_sub (read_int m (size_at block)) size in
    let m' = if leb_ℤ min_split_size remaining then split m offset size else m in
    (some (my_add offset (pos block_header_size)), write_int m' (is_free_at block) (pos 0))

-- The loop of `alloc` on fuel.
unfoldable pub alloc_loop : ℕ → ℤ → ℤ → Bytes → Ptr × Bytes
alloc_loop zero size offset m = (none, m)
alloc_loop (suc fuel) size offset m =
    let next = alloc_loop fuel size (read_int m (next_at (pos_part offset))) m in
    if in_chain offset
    then if fits m offset size then take_block m offset size else next
    else (none, m)

-- A chain of distinct blocks is shorter than the region.
abbrev pub chain_fuel : ℕ
chain_fuel = data_region_size

-- The return of the loop's result, with the message if no block was found.
unfoldable pub finish_alloc : ℤ → Ptr × Bytes → Machine → Ptr × Machine
finish_alloc size (none, m) k = (
  none,
  emit (text "[memory] Error: out of memory (requested " ∷ number size ∷ text " bytes)\n" ∷ [])
      (record k { ram = m }),
)
finish_alloc size (some p, m) k = (some p, record k { ram = m })

unfoldable pub alloc : ℤ → Machine → Ptr × Machine
alloc size k =
    if leb_ℤ size (pos 0)
    then (none, k)
    else finish_alloc size (alloc_loop chain_fuel size (pos data_region_offset) k.ram) k

-- The part of `dealloc` that marks and merges.
unfoldable pub free_block : Bytes → ℤ → Bytes
free_block m header_offset =
    let block = pos_part header_offset in
    let m1 = write_int m (is_free_at block) (pos 1) in
    let next_offset = read_int m1 (next_at block) in
    let next = pos_part next_offset in
    let m2 = write_int m1 (size_at block) (
      my_add (my_add (read_int m1 (size_at block)) (pos block_header_size))
        (read_int m1 (size_at next))) in
    if eqb_ℤ next_offset minus_one
    then m1
    else if is_free m1 next_offset
    then write_int m2 (next_at block) (read_int m2 (next_at next))
    else m1

unfoldable pub dealloc : Ptr → Machine → Machine
dealloc none k = k
dealloc (some ptr_offset) k =
    let header_offset = my_sub ptr_offset (pos block_header_size) in
    if in_bounds header_offset (pos data_region_offset)
      (my_sub (pos ram_size) (pos block_header_size))
    then record k { ram = free_block k.ram header_offset }
    else emit (text "[memory] Error: invalid dealloc — pointer outside data region\n" ∷ []) k

-- The loops of `memory_used` and `memory_free` differ in the test.
unfoldable pub used_loop : ℕ → ℤ → ℤ → Bytes → ℤ
used_loop zero offset used m = used
used_loop (suc fuel) offset used m =
    let block = pos_part offset in
    let used' = if not (is_free m offset) then my_add used (read_int m (size_at block)) else used in
    let rest = used_loop fuel (read_int m (next_at block)) used' m in
    if in_chain offset then rest else used

unfoldable pub memory_used : Machine → ℤ
memory_used k = used_loop chain_fuel (pos data_region_offset) (pos 0) k.ram

unfoldable pub free_loop : ℕ → ℤ → ℤ → Bytes → ℤ
free_loop zero offset free_bytes m = free_bytes
free_loop (suc fuel) offset free_bytes m =
    let block = pos_part offset in
    let free_bytes' =
      if is_free m offset then my_add free_bytes (read_int m (size_at block)) else free_bytes in
    let rest = free_loop fuel (read_int m (next_at block)) free_bytes' m in
    if in_chain offset then rest else free_bytes

unfoldable pub memory_free : Machine → ℤ
memory_free k = free_loop chain_fuel (pos data_region_offset) (pos 0) k.ram
