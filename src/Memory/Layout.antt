-- ===== src/Memory/Layout.antt =====
-- The layout of VIRTUAL_RAM (libs/memory.h).
use mineos.Base.{ℕ, ◌+◌, ◌-◌, ◌*◌}

abbrev pub ram_size : ℕ
ram_size = 10 * 1024 * 1024

abbrev pub ram_header_size : ℕ
ram_header_size = 64

abbrev pub max_inodes : ℕ
max_inodes = 128

abbrev pub max_name_len : ℕ
max_name_len = 32

abbrev pub max_children : ℕ
max_children = 16

abbrev pub inode_size : ℕ
inode_size = 128

abbrev pub inode_table_offset : ℕ
inode_table_offset = ram_header_size

abbrev pub inode_table_size : ℕ
inode_table_size = max_inodes * inode_size

abbrev pub max_processes : ℕ
max_processes = 16

abbrev pub process_entry_size : ℕ
process_entry_size = 64

abbrev pub process_table_offset : ℕ
process_table_offset = inode_table_offset + inode_table_size

abbrev pub process_table_size : ℕ
process_table_size = max_processes * process_entry_size

abbrev pub data_region_offset : ℕ
data_region_offset = process_table_offset + process_table_size

abbrev pub data_region_size : ℕ
data_region_size = ram_size - data_region_offset

-- `sizeof(BlockHeader)`, and the addresses of the three fields of the header at `p`.
abbrev pub block_header_size : ℕ
block_header_size = 12

abbrev pub size_at : ℕ → ℕ
size_at p = p

abbrev pub is_free_at : ℕ → ℕ
is_free_at p = p + 4

abbrev pub next_at : ℕ → ℕ
next_at p = p + 8
