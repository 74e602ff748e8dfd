-- ===== src/Fs/Lookup.antt =====
-- `fs_find_child` after `fs_create` (core/fs.c).
use mineos.Base.{ℕ, ◌<◌, ◌≡◌, pos, List, length, Option}
use mineos.Bytes.{Bytes, read_int}
use mineos.Machine.{Machine}
use mineos.Text.Strings.{IsString}
use mineos.Fs.{fs_get_inode}
use mineos.Fs.Inodes.{inode_at}
use mineos.Fs.Layout.{name_at, child_at}

-- Child `j` of the directory at `p`.
abbrev child_of : Bytes → ℕ → ℕ → Option ℕ
child_of m p j = fs_get_inode (read_int m (child_at p j))

-- The first `c` children of directory `i` are inodes below `n`, with names of at most 31 characters.
pub record IsNamed (m : Bytes) (i n j : ℕ) : Type 0 where
  pub id : ℕ
  pub name : List ℕ
  pub entry : read_int m (child_at (inode_at i) j) ≡ pos id
  pub older : id < n
  pub named : IsString m (name_at (inode_at id)) name
  pub short : length name < 32

abbrev pub AreNamed : Bytes → ℕ → ℕ → ℕ → Type 0
AreNamed m i c n = (j : ℕ) → j < c → IsNamed m i n j
