-- ===== src/System/Read.antt =====
-- `fs_read` (core/fs.c) and the contents of the file system.
use mineos.Base.{
  ℕ, ◌+◌, ◌-◌, ◌<◌, ◌≡◌, refl, inl, inr, arith, pos, minus_one, Bool-cases, List, [], length,
  Option, none, some,
}
use mineos.Math.Bounds.{my_sub-pos, in_bounds-pos}
use mineos.Bytes.{Bytes, put}
use mineos.Machine.{Machine}
use mineos.Memory.Layout.{ram_size, data_region_offset, max_inodes}
use mineos.Memory.Chain.{Block, IsHeap, IsChain-span}
use mineos.Memory.Owners.{RoomAt-le, RoomAt-span}
use mineos.Screen.OnlyPrints.{OnlyPrints}
use mineos.Text.Strings.{IsString}
use mineos.Text.Copy.{my_strcpy-IsString}
use mineos.Fs.Inodes.{inode_at, fs_get_inode-inode_at}
use mineos.Fs.Files.{is_active, is_file, Read, read_error, read_at, read_in, fs_read}
use mineos.Fs.ReadBack.{IsOpenFile}
use mineos.System.{HoldsText, IsSystem, Contents, Shows}
use mineos.System.Create.{fail-Refused}

-- A read returns a text with its size, or nothing; it changes nothing but the caller's buffer.
abbrev pub Reads : Machine → Option (List ℕ) → Read → Type 0
Reads k none r = (r.0 ≡ pos 0) × IsString r.1 0 [] × (r.2 ≡ k)
Reads k (some t) r = (r.0 ≡ pos (length t + 1)) × IsString r.1 0 t × (r.2 ≡ k)

-- A refused read only prints.
abbrev pub ReadsNot : Machine → Bytes → Read → Type 0
ReadsNot k buf r = (r.0 ≡ minus_one) × (r.1 ≡ buf) × OnlyPrints k r.2

module _ (k : Machine) (i : ℕ) (buf : Bytes) (bs : List Block) (heap : IsHeap k.ram bs) where
  read_at-Reads :
      (c : Option (List ℕ))
      → IsOpenFile k.ram (inode_at i)
      → HoldsText k.ram bs i c
      → Reads k c (read_at (inode_at i) buf k)
  unfolding read_at put
  read_at-Reads none is_open h = rw (is_open.active, is_open.file, h) (refl, refl, refl)
  read_at-Reads (some t) is_open (o, offset, room, held, size, fuel) =
      let low = RoomAt-le data_region_offset o (length t + 1) bs room in
      let high = RoomAt-span data_region_offset o (length t + 1) bs room in
      let full = IsChain-span k.ram data_region_offset bs heap in
      rw
        (
          is_open.active,
          is_open.file,
          offset,
          my_sub-pos ram_size 1 (omega arith) (omega arith),
          in_bounds-pos o data_region_offset (ram_size - 1) (omega arith) (omega arith),
        )
        (size, (my_strcpy-IsString buf 0 k.ram o t fuel held).0, refl)

  read_at-ReadsNot : ¬ IsOpenFile k.ram (inode_at i) → ReadsNot k buf (read_at (inode_at i) buf k)
  unfolding read_at read_error
  read_at-ReadsNot shut = elim (Bool-cases (is_active k.ram (inode_at i))) [
    | inr e ↦ rw e ((fail-Refused _ k).0, refl, (fail-Refused _ k).1)
    | inl e ↦ elim (Bool-cases (is_file k.ram (inode_at i))) [
      | inr f ↦ rw (e, f) ((fail-Refused _ k).0, refl, (fail-Refused _ k).1)
      | inl f ↦ absurd (shut (record { active = e; file = f }))
    ]
  ]

-- On a well-formed file system with a set of contents, `fs_read` of an open file returns its text
-- with the terminator and the size of both, or nothing if it is empty, and changes nothing but the
-- caller's buffer; of any other inode that has been given an id it returns -1, leaves the buffer
-- alone and only prints.
pub fs_read-Shows :
    (k : Machine) (v : IsSystem k) (f : Contents) (i : ℕ) (buf : Bytes)
    → Shows k v f
    → i < k.next_inode_id
    → (IsOpenFile k.ram (inode_at i) → Reads k (f i) (fs_read (pos i) buf k))
      × (¬ IsOpenFile k.ram (inode_at i) → ReadsNot k buf (fs_read (pos i) buf k))
unfolding fs_read read_in
fs_read-Shows k v f i buf shows order =
    let bound = v.tree.bound in
    let h : i < max_inodes = omega arith in
    rw (fs_get_inode-inode_at i h) (
      λ is_open. read_at-Reads k i buf v.blocks v.store.heap (f i) is_open (shows i order),
      read_at-ReadsNot k i buf v.blocks v.store.heap,
    )
