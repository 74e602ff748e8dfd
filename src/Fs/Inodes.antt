-- ===== src/Fs/Inodes.antt =====
-- core/fs.c: where the inodes lie.
use mineos.Base.{ℕ, ◌+◌, ◌-◌, ◌*◌, ◌<◌, ◌≡◌, refl, pos, arith, some}
use mineos.Math.Bounds.{my_add-pos, my_sub-pos, my_mul-pos, in_bounds-pos}
use mineos.Memory.Layout.{inode_table_offset, max_inodes, inode_size}
use mineos.Fs.{fs_get_inode}

abbrev pub inode_at : ℕ → ℕ
inode_at i = inode_table_offset + i * 128

pub fs_get_inode-inode_at : (i : ℕ) → i < max_inodes → fs_get_inode (pos i) ≡ some (inode_at i)
unfolding fs_get_inode
fs_get_inode-inode_at i h =
    rw
      (
        my_sub-pos max_inodes 1 (omega arith) (omega arith),
        in_bounds-pos i 0 (max_inodes - 1) (omega arith) (omega arith),
        my_mul-pos i inode_size (omega arith),
        my_add-pos inode_table_offset (i * inode_size) (omega arith),
      )
      refl
