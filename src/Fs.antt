-- ===== src/Fs.antt =====
-- The file system of core/fs.c: 128 inodes of 128 bytes in VIRTUAL_RAM, a tree by the ids in
-- `children` and `parent_id`, and contents in blocks of the allocator. An `Inode *` is NULL or the
-- address of an inode. No function goes on at a NULL that it has not tested: the clauses for
-- `none` that leave the RAM alone stand for no run of the code.
pub mod Layout
pub mod Files
pub mod Inodes
pub mod Paths
pub mod Fill
pub mod Create
pub mod Lookup
pub mod Refused
pub mod Removed
pub mod Content
pub mod Cleared
pub mod Write
pub mod ReadBack
pub mod Delete
mod Examples
use mineos.Base.{
  ℕ, zero, suc, ◌+◌, ◌-◌, ℤ, pos, pos_part, minus_one, Bool, true, false, not, ◌&&◌, ◌||◌,
  if◌then◌else◌, eqb_ℤ, ltb_ℤ, leb_ℤ, ltb, leb, ◌==◌, Option, none, some, List, [], ◌∷◌, codes,
}
use mineos.Math.{my_add, my_sub, my_mul, in_bounds}
use mineos.Bytes.{Bytes, put, read_int, write_int, object}
use mineos.Machine.{Machine, Out, text, chars}
use mineos.Memory.{Ptr, alloc, dealloc}
use mineos.Memory.Layout.{
  ram_size, max_inodes, max_children, inode_size, inode_table_offset, data_region_offset,
}
use mineos.Screen.{
  screen_print_str, screen_print_color, color_red, color_yellow, color_blue, color_cyan,
}
use mineos.Text.{my_strcpy, my_strcmp, my_strcat, my_strlen, str_at, text_fuel}
use mineos.Fs.Layout.{
  inode_file, inode_dir, id_at, name_at, type_at, parent_id_at, child_at, child_count_at,
  data_offset_at, data_size_at, is_active_at,
}

unfoldable pub fs_get_inode : ℤ → Option ℕ
fs_get_inode id =
    if in_bounds id (pos 0) (my_sub (pos max_inodes) (pos 1))
    then some (pos_part (my_add (pos inode_table_offset) (my_mul id (pos inode_size))))
    else none

-- A message in red, and the result that goes with it.
unfoldable pub fail : Out → Machine → ℤ × Machine
fail o k = (minus_one, screen_print_color o color_red k)

-- The rounds of the loop that sets the children to -1.
unfoldable pub children_loop : ℕ → ℕ → ℕ → Bytes → Bytes
children_loop zero i p m = m
children_loop (suc n) i p m = children_loop n (i + 1) p (write_int m (child_at p i) minus_one)

-- The writes of `create_inode`.
unfoldable pub fill_inode : ℕ → ℕ → Bytes → ℕ → ℤ → ℤ → Bytes → Bytes
fill_inode p id name s type parent_id m =
    let m1 = write_int m (id_at p) (pos id) in
    let m2 = my_strcpy m1 (name_at p) name s in
    let m3 = write_int m2 (type_at p) type in
    let m4 = write_int m3 (parent_id_at p) parent_id in
    let m5 = write_int m4 (child_count_at p) (pos 0) in
    let m6 = write_int m5 (data_offset_at p) minus_one in
    let m7 = write_int m6 (data_size_at p) (pos 0) in
    let m8 = write_int m7 (is_active_at p) (pos 1) in children_loop max_children 0 p m8

unfoldable pub fill_at : Option ℕ → ℕ → Bytes → ℕ → ℤ → ℤ → Bytes → Bytes
fill_at none id name s type parent_id m = m
fill_at (some p) id name s type parent_id m = fill_inode p id name s type parent_id m

unfoldable pub create_inode : Bytes → ℕ → ℤ → ℤ → Machine → ℤ × Machine
create_inode name s type parent_id k =
    let id = k.next_inode_id in
    if leb max_inodes id then fail (text "[fs] Error: inode table full\n") k else (
      pos id,
      record k {
        next_inode_id = id + 1;
        ram = fill_at (fs_get_inode (pos id)) id name s type parent_id k.ram;
      },
    )

unfoldable pub wire : Option ℕ → ℕ → ℤ → Bytes → Bytes
wire none i id m = m
wire (some p) i id m = write_int m (child_at p i) id

unfoldable pub set_child_count : Option ℕ → ℤ → Bytes → Bytes
set_child_count none n m = m
set_child_count (some p) n m = write_int m (child_count_at p) n

unfoldable pub fs_init : Machine → Machine
fs_init k0 =
    let (root_id, k1) =
      create_inode (object (codes "/")) 0 inode_dir minus_one (record k0 { next_inode_id = 0 }) in
    let (bin_id, k2) = create_inode (object (codes "bin")) 0 inode_dir root_id k1 in
    let (home_id, k3) = create_inode (object (codes "home")) 0 inode_dir root_id k2 in
    let (user_id, k4) = create_inode k3.current_user 0 inode_dir home_id k3 in
    let (tmp_id, k5) = create_inode (object (codes "tmp")) 0 inode_dir root_id k4 in
    let (sys_id, k6) = create_inode (object (codes "sys")) 0 inode_dir root_id k5 in
    let root = fs_get_inode root_id in
    let m1 = wire root 0 bin_id k6.ram in
    let m2 = wire root 1 home_id m1 in
    let m3 = wire root 2 tmp_id m2 in
    let m4 = wire root 3 sys_id m3 in
    let m5 = set_child_count root (pos 4) m4 in
    let home = fs_get_inode home_id in
    record k6 { ram = set_child_count home (pos 1) (wire home 0 user_id m5) }

-- A loop over the children reads `child_count` before each round; a directory has at most 16, so
-- 17 rounds see its end.
abbrev pub children_fuel : ℕ
children_fuel = max_children + 1

-- Whether the child is an active inode of that name.
unfoldable pub matches : Bytes → Bytes → ℕ → Option ℕ → Bool
matches m name s none = false
matches m name s (some c) =
    not (eqb_ℤ (read_int m (is_active_at c)) (pos 0))
    && eqb_ℤ (my_strcmp m (name_at c) name s) (pos 0)

unfoldable pub find_loop : ℕ → ℕ → ℕ → Bytes → Bytes → ℕ → Option ℕ
find_loop zero i p m name s = none
find_loop (suc fuel) i p m name s =
    let child = fs_get_inode (read_int m (child_at p i)) in
    let rest = find_loop fuel (i + 1) p m name s in
    if ltb_ℤ (pos i) (read_int m (child_count_at p))
    then if matches m name s child then child else rest
    else none

unfoldable pub is_dir : Bytes → ℕ → Bool
is_dir m p = eqb_ℤ (read_int m (type_at p)) inode_dir

unfoldable pub find_in : Option ℕ → Bytes → Bytes → ℕ → Option ℕ
find_in none m name s = none
find_in (some p) m name s = if is_dir m p then find_loop children_fuel 0 p m name s else none

unfoldable pub fs_find_child : ℤ → Bytes → ℕ → Machine → Option ℕ
fs_find_child parent_id name s k = find_in (fs_get_inode parent_id) k.ram name s

-- The end of `fs_create`: the new id is appended to the children, unless there is none.
unfoldable pub add_child : ℕ → ℤ × Machine → ℤ × Machine
add_child p (id, k) =
    let count = read_int k.ram (child_count_at p) in
    let m1 = write_int k.ram (child_at p (pos_part count)) id in
    let m2 = write_int m1 (child_count_at p) (my_add (read_int m1 (child_count_at p)) (pos 1)) in
    if eqb_ℤ id minus_one then (minus_one, k) else (id, record k { ram = m2 })

unfoldable pub exists_error : Bytes → ℕ → Machine → ℤ × Machine
exists_error name s k =
    let k1 = screen_print_color (text "[fs] Error: '") color_red k in
    let k2 = screen_print_color (chars (str_at text_fuel name s)) color_red k1 in
    (minus_one, screen_print_color (text "' already exists\n") color_red k2)

unfoldable pub create_unless : Option ℕ → ℕ → ℤ → Bytes → ℕ → ℤ → Machine → ℤ × Machine
create_unless (some c) p parent_id name s type k = exists_error name s k
create_unless none p parent_id name s type k = add_child p (create_inode name s type parent_id k)

unfoldable pub create_in : Option ℕ → ℤ → Bytes → ℕ → ℤ → Machine → ℤ × Machine
create_in none parent_id name s type k = fail (text "[fs] Error: parent is not a directory\n") k
create_in (some p) parent_id name s type k =
    if not (is_dir k.ram p)
    then fail (text "[fs] Error: parent is not a directory\n") k
    else if leb_ℤ (pos max_children) (read_int k.ram (child_count_at p))
    then fail (text "[fs] Error: directory is full\n") k
    else create_unless (fs_find_child parent_id name s k) p parent_id name s type k

unfoldable pub fs_create : ℤ → Bytes → ℕ → ℤ → Machine → ℤ × Machine
fs_create parent_id name s type k = create_in (fs_get_inode parent_id) parent_id name s type k
