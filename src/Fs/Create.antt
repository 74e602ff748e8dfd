-- ===== src/Fs/Create.antt =====
-- `fs_create` (core/fs.c): the new inode and the directory that it is added to.
use mineos.Base.{
  ℕ, ◌+◌, ◌≤◌, ◌<◌, ◌≡◌, refl, ◌∙◌, inr, arith, ℤ, pos, List, length, none, true, lt→leb,
}
use mineos.Math.{IsInt}
use mineos.Math.Bounds.{my_add-pos}
use mineos.Bytes.{Bytes, read_int, write_int}
use mineos.Bytes.Ints.{read_int-write_int, read_int-SameOutside, read_int-cong}
use mineos.Bytes.Outside.{SameOutside, IsOutside, write_int-SameOutside}
use mineos.Machine.{Machine}
use mineos.Memory.Layout.{max_inodes, max_children}
use mineos.Memory.Take.{read_past}
use mineos.Text.{text_fuel}
use mineos.Text.Strings.{IsString, IsString-cong}
use mineos.Fs.{
  is_dir, fs_find_child, create_inode, fill_inode, fill_at, add_child, create_unless, create_in,
  fs_create,
}
use mineos.Fs.Inodes.{inode_at, fs_get_inode-inode_at}
use mineos.Fs.Fill.{IsNew, fill_inode-SameOutside, fill_inode-IsNew, fill_inode-IsString}
use mineos.Fs.Layout.{name_at, child_at, child_count_at}

-- The directory `i` has `c` children, and room for one more.
pub record HasRoom (m : Bytes) (i c : ℕ) : Type 0 where
  pub directory : is_dir m (inode_at i) ≡ true
  pub children : read_int m (child_count_at (inode_at i)) ≡ pos c
  pub room : c < max_children

-- What `fs_create` has done: inode `n` is new, it is the last child of directory `i`, and no byte
-- outside of `w` bytes from the new inode on and of those two fields of the directory has changed.
pub record Created (m : Bytes) (i c n w : ℕ) (type : ℤ) (r : ℤ × Machine) : Type 0 where
  pub result : r.0 ≡ pos n
  pub next : r.1.next_inode_id ≡ n + 1
  pub new : IsNew r.1.ram (inode_at n) n type (pos i)
  pub child : read_int r.1.ram (child_at (inode_at i) c) ≡ pos n
  pub count : read_int r.1.ram (child_count_at (inode_at i)) ≡ pos (c + 1)
  pub same :
      (q : ℕ)
      → IsOutside (inode_at n) (inode_at n + w) q
      → IsOutside (child_at (inode_at i) c) (child_at (inode_at i) c + 4) q
      → IsOutside (child_count_at (inode_at i)) (child_count_at (inode_at i) + 4) q
      → r.1.ram q ≡ m q

-- The width of a name's writes: the fields and the name, both with what they start at.
pub record IsWidth (t : List ℕ) (w : ℕ) : Type 0 where
  pub fields : 124 ≤ w
  pub name : length t + 5 ≤ w
  pub fuel : length t < text_fuel

module _ (i c n w : ℕ) (a : Bytes) (s : ℕ) (t : List ℕ) (type : ℤ) (m : Bytes) (order : i < n)
    (bound : n < max_inodes) (dir : HasRoom m i c) (held : IsString a s t) (width : IsWidth t w)
    (int_type : IsInt type) where
  abbrev parent : ℕ
  parent = inode_at i

  abbrev inode : ℕ
  inode = inode_at n

  abbrev filled : Bytes
  filled = fill_inode inode n a s type (pos i) m

  filled-SameOutside : SameOutside inode (inode + w) m filled
  filled-SameOutside =
      fill_inode-SameOutside inode n a s t type (pos i) m held width.fuel bound int_type
        (omega arith) w width.fields width.name

  count_filled : read_int filled (child_count_at parent) ≡ pos c
  count_filled =
      read_int-SameOutside m filled (parent + 108) filled-SameOutside (omega arith) ∙ dir.children

  abbrev linked : Bytes
  linked = write_int filled (child_at parent c) (pos n)

  count_linked : read_int linked (child_count_at parent) ≡ pos c
  count_linked =
      let full = dir.room in
      read_past filled (child_at parent c) (pos n) (parent + 108) (omega arith) count_filled

  abbrev counted : Bytes
  counted = write_int linked (child_count_at parent) (pos (c + 1))

  -- The two writes to the directory lie in front of the new inode.
  counted-behind : (q : ℕ) → inode ≤ q → counted q ≡ filled q
  counted-behind q h =
      let full = dir.room in
      write_int-SameOutside linked (parent + 108) _ q (inr (omega arith))
      ∙ write_int-SameOutside filled (child_at parent c) _ q (inr (omega arith))

  counted-IsNew : IsNew counted inode n type (pos i)
  counted-IsNew =
      let new =
        fill_inode-IsNew inode n a s t type (pos i) m held width.fuel bound int_type
          (omega arith) in
      let at = λ (f : ℕ) (h : inode ≤ f).
        read_int-cong filled counted f (λ q u v. counted-behind q (omega arith)) in
      record {
        has_id = at inode (omega arith) ∙ new.has_id;
        has_type = at (inode + 36) (omega arith) ∙ new.has_type;
        parent_id = at (inode + 40) (omega arith) ∙ new.parent_id;
        child_count = at (inode + 108) (omega arith) ∙ new.child_count;
        data_offset = at (inode + 112) (omega arith) ∙ new.data_offset;
        data_size = at (inode + 116) (omega arith) ∙ new.data_size;
        is_active = at (inode + 120) (omega arith) ∙ new.is_active;
      }

  counted-IsString : length t < 32 → IsString counted (inode + 4) t
  counted-IsString short =
      IsString-cong filled counted (inode + 4) t (λ q u v. counted-behind q (omega arith))
        (fill_inode-IsString inode n a s t type (pos i) m held width.fuel bound int_type
          (omega arith) short)

fs_create-IsWidth :
    (k : Machine) (i c n w : ℕ) (a : Bytes) (s : ℕ) (t : List ℕ) (type : ℤ)
    → i < n
    → n < max_inodes
    → k.next_inode_id ≡ n
    → HasRoom k.ram i c
    → fs_find_child (pos i) a s k ≡ none
    → IsString a s t
    → IsWidth t w
    → IsInt type
    → let r = fs_create (pos i) a s type k in
      Created k.ram i c n w type r × (length t < 32 → IsString r.1.ram (name_at (inode_at n)) t)
unfolding fs_create create_in create_unless create_inode fill_at add_child
fs_create-IsWidth k i c n w a s t type order bound next dir fresh held width int_type =
    let full = dir.room in
    rw
      (
        fs_get_inode-inode_at i (omega arith),
        dir.directory,
        dir.children,
        lt→leb max_children c dir.room,
        fresh,
        next,
        lt→leb max_inodes n bound,
        fs_get_inode-inode_at n bound,
        count_filled i c n w a s t type k.ram order bound dir held width int_type,
        count_linked i c n w a s t type k.ram order bound dir held width int_type,
        my_add-pos c 1 (omega arith),
      )
      (
        record {
          result = refl;
          next = refl;
          new = counted-IsNew i c n w a s t type k.ram order bound dir held width int_type;
          child =
              read_past (linked i c n w a s t type k.ram order bound dir held width int_type)
                (inode_at i + 108) _ (child_at (inode_at i) c) (omega arith)
                (read_int-write_int _ (child_at (inode_at i) c) (pos n) (omega arith));
          count = read_int-write_int _ (inode_at i + 108) (pos (c + 1)) (omega arith);
          same = λ q new child count.
              write_int-SameOutside _ (inode_at i + 108) _ q count
              ∙ write_int-SameOutside _ (child_at (inode_at i) c) _ q child
              ∙ filled-SameOutside i c n w a s t type k.ram order bound dir held width int_type q
                  new;
        },
        counted-IsString i c n w a s t type k.ram order bound dir held width int_type,
      )

-- `fs_create` in a directory with fewer than 16 children that has no child of the name, while fewer
-- than 128 ids have been given, and for a name of at most 31 characters: it returns the next id,
-- that inode is new, active and empty, with the name, the type and the parent asked for, it is the
-- last child of the directory, and no other byte of the RAM has changed.
pub fs_create-Created :
    (k : Machine) (i c n : ℕ) (a : Bytes) (s : ℕ) (t : List ℕ) (type : ℤ)
    → i < n
    → n < max_inodes
    → k.next_inode_id ≡ n
    → HasRoom k.ram i c
    → fs_find_child (pos i) a s k ≡ none
    → IsString a s t
    → length t < 32
    → IsInt type
    → let r = fs_create (pos i) a s type k in
      Created k.ram i c n 124 type r × IsString r.1.ram (name_at (inode_at n)) t
fs_create-Created k i c n a s t type order bound next dir fresh held short int_type =
    let width : IsWidth t 124 = record {
      fields = omega arith;
      name = omega arith;
      fuel = omega arith;
    } in
    let made =
      fs_create-IsWidth k i c n 124 a s t type order bound next dir fresh held width int_type in
    (made.0, made.1 short)

-- For a name of any length up to 255, as the words of an input line have: the fields are the same,
-- but the name is written on behind its field, over 260 bytes from the new inode on.
pub fs_create_long :
    (k : Machine) (i c n : ℕ) (a : Bytes) (s : ℕ) (t : List ℕ) (type : ℤ)
    → i < n
    → n < max_inodes
    → k.next_inode_id ≡ n
    → HasRoom k.ram i c
    → fs_find_child (pos i) a s k ≡ none
    → IsString a s t
    → length t < 256
    → IsInt type
    → Created k.ram i c n 260 type (fs_create (pos i) a s type k)
fs_create_long k i c n a s t type order bound next dir fresh held short int_type =
    (fs_create-IsWidth k i c n 260 a s t type order bound next dir fresh held
      (record { fields = omega arith; name = omega arith; fuel = omega arith }) int_type).0
