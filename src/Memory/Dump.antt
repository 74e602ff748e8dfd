-- ===== src/Memory/Dump.antt =====
-- `memory_dump` of libs/memory.c.
use mineos.Base.{
  ℕ, zero, suc, ◌+◌, ◌-◌, ℤ, pos, pos_part, if◌then◌else◌, List, [], ◌∷◌, ◌++◌, codes, length,
}
use mineos.Bytes.{Bytes, read_int}
use mineos.Machine.{Machine, Out, text, chars}
use mineos.Text.{my_int_to_str, str_at, text_fuel, unset}
use mineos.Screen.{emit, int_text}
use mineos.Memory.{in_chain, is_free, chain_fuel, memory_used, memory_free}
use mineos.Memory.Layout.{data_region_offset, size_at, next_at}

unfoldable pub blanks : ℕ → List ℕ
blanks zero = []
blanks (suc n) = b' ' ∷ blanks n

-- printf("%-*s", width, s)
unfoldable pub left_aligned : ℕ → List ℕ → Out
left_aligned width s = chars (s ++ blanks (width - length s))

unfoldable pub int_codes : ℤ → List ℕ
int_codes n = str_at text_fuel (my_int_to_str n unset) 0

-- The line of one block.
unfoldable pub dump_block : Bytes → ℤ → ℕ → Machine → Machine
dump_block m offset block_num = emit (
    text "│ Block "
    ∷ left_aligned 4 (int_codes (pos block_num))
    ∷ text " | Size: "
    ∷ left_aligned 8 (int_codes (read_int m (size_at (pos_part offset))))
    ∷ text " | Status: "
    ∷ left_aligned 5 (if is_free m offset then codes "FREE" else codes "USED")
    ∷ text " | @"
    ∷ left_aligned 8 (int_codes offset)
    ∷ text "│\n"
    ∷ [])

unfoldable pub dump_loop : ℕ → ℤ → ℕ → Machine → Machine
dump_loop zero offset block_num k = k
dump_loop (suc fuel) offset block_num k =
    let next = read_int k.ram (next_at (pos_part offset)) in
    let rest = dump_loop fuel next (block_num + 1) (dump_block k.ram offset block_num k) in
    if in_chain offset then rest else k

unfoldable pub memory_dump : Machine → Machine
memory_dump k0 =
    let k1 =
      emit
        (text "┌──────────────────────────────────────────────┐\n"
          ∷ text "│           MEMORY BLOCK DUMP                  │\n"
          ∷ text "├──────────────────────────────────────────────┤\n"
          ∷ [])
        k0 in
    let k2 = dump_loop chain_fuel (pos data_region_offset) 0 k1 in
    emit
      (text "└──────────────────────────────────────────────┘\n"
        ∷ text "  Used: "
        ∷ int_text (memory_used k2)
        ∷ text " bytes  |  Free: "
        ∷ int_text (memory_free k2)
        ∷ text " bytes\n"
        ∷ [])
      k2
