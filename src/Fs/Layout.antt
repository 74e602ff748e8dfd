-- ===== src/Fs/Layout.antt =====
-- The `Inode` of core/fs.h: its types, and the addresses of the fields of the inode at `p`.
use mineos.Base.{ℕ, ◌+◌, ◌*◌, ℤ, pos}

abbrev pub inode_file : ℤ
inode_file = pos 0

abbrev pub inode_dir : ℤ
inode_dir = pos 1

abbrev pub id_at : ℕ → ℕ
id_at p = p

abbrev pub name_at : ℕ → ℕ
name_at p = p + 4

abbrev pub type_at : ℕ → ℕ
type_at p = p + 36

abbrev pub parent_id_at : ℕ → ℕ
parent_id_at p = p + 40

abbrev pub child_at : ℕ → ℕ → ℕ
child_at p i = p + 44 + i * 4

abbrev pub child_count_at : ℕ → ℕ
child_count_at p = p + 108

abbrev pub data_offset_at : ℕ → ℕ
data_offset_at p = p + 112

abbrev pub data_size_at : ℕ → ℕ
data_size_at p = p + 116

abbrev pub is_active_at : ℕ → ℕ
is_active_at p = p + 120
