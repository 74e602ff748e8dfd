-- ===== src/System.antt =====
-- The invariant of VIRTUAL_RAM and `next_inode_id` (core/fs.c): the inodes form a tree and their
-- contents are blocks of the heap, each of one inode.
pub mod Nodes
pub mod Created
pub mod Create
pub mod Store
pub mod NextId
pub mod Write
pub mod Deleted
pub mod Delete
pub mod Read
pub mod Contract
pub mod Refines
pub mod Find
pub mod Words
pub mod Commands
pub mod Dispatch
pub mod Tables
pub mod Start
pub mod Wired
pub mod Six
pub mod Boot
pub mod Main
pub mod Session
pub mod Names
pub mod Walk
mod Examples
mod Samples
use mineos.Base.{
  ℕ, ◌+◌, ◌≤◌, ◌<◌, ◌≡◌, ◌⊎◌, ℤ, pos, minus_one, List, length, Option, some, none, true,
}
use mineos.Bytes.{Bytes, read_int}
use mineos.Machine.{Machine}
use mineos.Memory.Layout.{max_inodes, max_children, data_region_offset}
use mineos.Memory.Chain.{Block, IsHeap}
use mineos.Memory.Owners.{RoomAt}
use mineos.Text.{text_fuel}
use mineos.Text.Strings.{IsString}
use mineos.Fs.{is_dir}
use mineos.Fs.Inodes.{inode_at}
use mineos.Fs.Layout.{id_at, parent_id_at, data_offset_at, data_size_at}
use mineos.Fs.Removed.{HasChildren}

abbrev pub parent_field : Bytes → ℕ → ℤ
parent_field m i = read_int m (parent_id_at (inode_at i))

abbrev pub offset_of : Bytes → ℕ → ℤ
offset_of m i = read_int m (data_offset_at (inode_at i))

abbrev pub size_of : Bytes → ℕ → ℤ
size_of m i = read_int m (data_size_at (inode_at i))

-- Inode `i` has no parent, or an older one, which is a directory.
abbrev pub HasParent : Bytes → ℕ → Type 0
HasParent m i =
    (parent_field m i ≡ minus_one)
    ⊎ ((q : ℕ) × (q < i) × (parent_field m i ≡ pos q) × (is_dir m (inode_at q) ≡ true))

-- The content of inode `i`: none, or a text that a used block has room for, with its size.
abbrev pub HoldsText : Bytes → List Block → ℕ → Option (List ℕ) → Type 0
HoldsText m bs i none = offset_of m i ≡ minus_one
HoldsText m bs i (some t) =
    (o : ℕ) × (offset_of m i ≡ pos o)
    × RoomAt data_region_offset o (length t + 1) bs
    × IsString m o t
    × (size_of m i ≡ pos (length t + 1))
    × (length t < text_fuel)

abbrev pub IsStored : Bytes → List Block → ℕ → Type 0
IsStored m bs i = (c : Option (List ℕ)) × HoldsText m bs i c

-- Inode `i` of the `n` that have been given an id: it knows its id, its parent is older and a
-- directory, and its at
-- most 16 children are newer, different from one another, and know it as their parent.
pub record IsNode (m : Bytes) (n i : ℕ) : Type 0 where
  pub has_id : read_int m (id_at (inode_at i)) ≡ pos i
  pub parent : HasParent m i
  pub c : ℕ
  pub ids : ℕ → ℕ
  pub few : c ≤ max_children
  pub kids : HasChildren m (inode_at i) c ids
  pub newer : (j : ℕ) → j < c → i < ids j
  pub given : (j : ℕ) → j < c → ids j < n
  pub linked : (j : ℕ) → j < c → parent_field m (ids j) ≡ pos i
  pub distinct : (j l : ℕ) → j < c → l < c → ids j ≡ ids l → j ≡ l

pub record IsTree (m : Bytes) (n : ℕ) : Type 0 where
  pub rooted : 0 < n
  pub bound : n ≤ max_inodes
  pub root : is_dir m (inode_at 0) ≡ true
  pub node : (i : ℕ) → i < n → IsNode m n i

-- The contents of the inodes are none or texts in used blocks of a heap, and no two have the same block.
pub record IsStore (m : Bytes) (n : ℕ) (bs : List Block) : Type 0 where
  pub heap : IsHeap m bs
  pub content : (i : ℕ) → i < n → IsStored m bs i
  pub separate : (i j o : ℕ) → i < n → j < n → offset_of m i ≡ pos o → offset_of m j ≡ pos o → i ≡ j

-- What each inode that has been given an id holds.
abbrev pub Contents : Type 0
Contents = ℕ → Option (List ℕ)

abbrev pub AllHold : Bytes → ℕ → List Block → Contents → Type 0
AllHold m n bs f = (i : ℕ) → i < n → HoldsText m bs i (f i)

pub record IsSystem (k : Machine) : Type 0 where
  pub tree : IsTree k.ram k.next_inode_id
  pub blocks : List Block
  pub store : IsStore k.ram k.next_inode_id blocks

abbrev pub Shows : (k : Machine) → IsSystem k → Contents → Type 0
Shows k v f = AllHold k.ram k.next_inode_id v.blocks f
