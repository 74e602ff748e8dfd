-- ===== src/Fs/Files.antt =====
-- `fs_delete`, `fs_write` and `fs_read` of core/fs.c.
use mineos.Base.{
  ℕ, zero, suc, ◌+◌, ℤ, pos, pos_part, minus_one, Bool, true, false, not, ◌&&◌, ◌||◌, if◌then◌else◌,
  eqb_ℤ, ltb_ℤ, Option, none, some,
}
use mineos.Math.{my_add, my_sub, in_bounds}
use mineos.Bytes.{Bytes, put, read_int, write_int}
use mineos.Machine.{Machine, text}
use mineos.Memory.{Ptr, alloc, dealloc}
use mineos.Memory.Layout.{ram_size, data_region_offset}
use mineos.Text.{my_strcpy, my_strlen}
use mineos.Fs.{fs_get_inode, fail, is_dir, children_fuel}
use mineos.Fs.Layout.{
  inode_file, name_at, type_at, parent_id_at, child_at, child_count_at, data_offset_at,
  data_size_at, is_active_at,
}

unfoldable pub is_active : Bytes → ℕ → Bool
is_active m p = not (eqb_ℤ (read_int m (is_active_at p)) (pos 0))

-- The loop that moves the children behind the deleted one to the front, with `found`.
unfoldable pub remove_loop : ℕ → ℕ → ℕ → ℤ → Bool → Bytes → Bool × Bytes
remove_loop zero i p id found m = (found, m)
remove_loop (suc fuel) i p id found m =
    let found' = found || eqb_ℤ (read_int m (child_at p i)) id in
    let m' =
      if found' && ltb_ℤ (pos i) (my_sub (read_int m (child_count_at p)) (pos 1))
      then write_int m (child_at p i) (read_int m (child_at p (i + 1)))
      else m in
    let rest = remove_loop fuel (i + 1) p id found' m' in
    if ltb_ℤ (pos i) (read_int m (child_count_at p)) then rest else (found, m)

unfoldable pub drop_last : ℕ → Bool × Bytes → Bytes
drop_last p (false, m) = m
drop_last p (true, m) =
    let m1 = write_int m (child_count_at p) (my_sub (read_int m (child_count_at p)) (pos 1)) in
    write_int m1 (child_at p (pos_part (read_int m1 (child_count_at p)))) minus_one

unfoldable pub remove_child : Option ℕ → ℤ → Bytes → Bytes
remove_child none id m = m
remove_child (some p) id m = drop_last p (remove_loop children_fuel 0 p id false m)

-- The last writes of `fs_delete`.
unfoldable pub clear_inode : ℕ → Bytes → Bytes
clear_inode p m =
    let m1 = put (write_int m (is_active_at p) (pos 0)) (name_at p) 0 in
    write_int (write_int m1 (data_offset_at p) minus_one) (data_size_at p) (pos 0)

-- The block of the inode is given back, if it has one.
unfoldable pub free_content : ℕ → Machine → Machine
free_content p k =
    let offset = read_int k.ram (data_offset_at p) in
    if eqb_ℤ offset minus_one then k else dealloc (some offset) k

unfoldable pub delete_at : ℕ → ℤ → Machine → ℤ × Machine
delete_at p inode_id k =
    let k1 = free_content p k in
    let m = remove_child (fs_get_inode (read_int k1.ram (parent_id_at p))) inode_id k1.ram in
    if not (is_active k.ram p)
    then fail (text "[fs] Error: invalid inode\n") k
    else if eqb_ℤ inode_id (pos 0)
    then fail (text "[fs] Error: cannot delete root directory\n") k
    else if is_dir k.ram p && ltb_ℤ (pos 0) (read_int k.ram (child_count_at p))
    then fail (text "[fs] Error: directory not empty\n") k
    else (pos 0, record k1 { ram = clear_inode p m })

unfoldable pub delete_in : Option ℕ → ℤ → Machine → ℤ × Machine
delete_in none inode_id k = fail (text "[fs] Error: invalid inode\n") k
delete_in (some p) inode_id k = delete_at p inode_id k

unfoldable pub fs_delete : ℤ → Machine → ℤ × Machine
fs_delete inode_id k = delete_in (fs_get_inode inode_id) inode_id k

unfoldable pub is_file : Bytes → ℕ → Bool
is_file m p = eqb_ℤ (read_int m (type_at p)) inode_file

-- The old content is given back and the inode made empty.
unfoldable pub drop_content : ℕ → Machine → Machine
drop_content p k =
    let k1 = dealloc (some (read_int k.ram (data_offset_at p))) k in
    let m1 = write_int (write_int k1.ram (data_offset_at p) minus_one) (data_size_at p) (pos 0) in
    if eqb_ℤ (read_int k.ram (data_offset_at p)) minus_one then k else record k1 { ram = m1 }

-- The end of `fs_write`, by the result of `alloc`.
unfoldable pub store_content : ℕ → Bytes → ℕ → ℤ → Ptr × Machine → ℤ × Machine
store_content p content s len (none, k) = fail (text "[fs] Error: not enough memory for write\n") k
store_content p content s len (some block, k) =
    let m1 = my_strcpy k.ram (pos_part block) content s in
    (
      pos 0,
      record k { ram = write_int (write_int m1 (data_offset_at p) block) (data_size_at p) len },
    )

unfoldable pub write_at : ℕ → Bytes → ℕ → Machine → ℤ × Machine
write_at p content s k =
    let len = my_add (pos (my_strlen content s)) (pos 1) in
    if not (is_active k.ram p)
    then fail (text "[fs] Error: invalid inode\n") k
    else if not (is_file k.ram p)
    then fail (text "[fs] Error: cannot write to a directory\n") k
    else store_content p content s len (alloc len (drop_content p k))

unfoldable pub write_in : Option ℕ → Bytes → ℕ → Machine → ℤ × Machine
write_in none content s k = fail (text "[fs] Error: invalid inode\n") k
write_in (some p) content s k = write_at p content s k

unfoldable pub fs_write : ℤ → Bytes → ℕ → Machine → ℤ × Machine
fs_write inode_id content s k = write_in (fs_get_inode inode_id) content s k

-- The result, the caller's buffer and the machine.
abbrev pub Read : Type 0
Read = ℤ × Bytes × Machine

unfoldable pub read_error : Bytes → ℤ × Machine → Read
read_error buf (result, k) = (result, buf, k)

unfoldable pub read_at : ℕ → Bytes → Machine → Read
read_at p buf k =
    let offset = read_int k.ram (data_offset_at p) in
    if not (is_active k.ram p)
    then read_error buf (fail (text "[fs] Error: invalid inode\n") k)
    else if not (is_file k.ram p)
    then read_error buf (fail (text "[fs] Error: cannot read a directory\n") k)
    else if eqb_ℤ offset minus_one
    then (pos 0, put buf 0 0, k)
    else if not (in_bounds offset (pos data_region_offset) (my_sub (pos ram_size) (pos 1)))
    then read_error buf (fail (text "[fs] Error: data offset out of bounds\n") k)
    else (read_int k.ram (data_size_at p), my_strcpy buf 0 k.ram (pos_part offset), k)

unfoldable pub read_in : Option ℕ → Bytes → Machine → Read
read_in none buf k = read_error buf (fail (text "[fs] Error: invalid inode\n") k)
read_in (some p) buf k = read_at p buf k

unfoldable pub fs_read : ℤ → Bytes → Machine → Read
fs_read inode_id buf k = read_in (fs_get_inode inode_id) buf k
