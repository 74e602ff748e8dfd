-- ===== src/Fs/Paths.antt =====
-- `fs_list` and `fs_get_path` of core/fs.c.
use mineos.Base.{
  ℕ, zero, suc, ◌+◌, ℤ, pos, minus_one, not, ◌&&◌, if◌then◌else◌, eqb_ℤ, ltb_ℤ, ◌==◌, Option, none,
  some, List, [], ◌∷◌, codes,
}
use mineos.Math.{my_sub, in_bounds}
use mineos.Bytes.{Bytes, put, read_int, object}
use mineos.Machine.{Machine, text, chars}
use mineos.Memory.Layout.{max_inodes}
use mineos.Screen.{
  screen_print_str, screen_print_color, color_red, color_yellow, color_blue, color_cyan,
}
use mineos.Text.{my_strcpy, my_strcat, my_strlen, str_at, text_fuel}
use mineos.Fs.{fs_get_inode, is_dir, children_fuel}
use mineos.Fs.Layout.{name_at, parent_id_at, child_at, child_count_at, is_active_at}

-- One line of a listing.
unfoldable pub list_child : Bytes → Option ℕ → Machine → Machine
list_child m none k = k
list_child m (some c) k =
    let name = chars (str_at text_fuel m (name_at c)) in
    let k1 = screen_print_str (text "  ") k in
    let dir =
      screen_print_str (text "\n")
        (screen_print_color (text "/") color_blue (screen_print_color name color_blue k1)) in
    let file = screen_print_str (text "\n") (screen_print_color name color_cyan k1) in
    if eqb_ℤ (read_int m (is_active_at c)) (pos 0) then k else if is_dir m c then dir else file

unfoldable pub list_loop : ℕ → ℕ → ℕ → Machine → Machine
list_loop zero i p k = k
list_loop (suc fuel) i p k =
    let rest =
      list_loop fuel (i + 1) p
        (list_child k.ram (fs_get_inode (read_int k.ram (child_at p i))) k) in
    if ltb_ℤ (pos i) (read_int k.ram (child_count_at p)) then rest else k

unfoldable pub list_in : Option ℕ → Machine → Machine
list_in none k = screen_print_color (text "[fs] Error: not a directory\n") color_red k
list_in (some p) k =
    if not (is_dir k.ram p)
    then screen_print_color (text "[fs] Error: not a directory\n") color_red k
    else if eqb_ℤ (read_int k.ram (child_count_at p)) (pos 0)
    then screen_print_color (text "  (empty)\n") color_yellow k
    else list_loop children_fuel 0 p k

unfoldable pub fs_list : ℤ → Machine → Machine
fs_list dir_id k = list_in (fs_get_inode dir_id) k

unfoldable pub parent_of : Option ℕ → Bytes → ℤ
parent_of none m = minus_one
parent_of (some p) m = read_int m (parent_id_at p)

-- The walk up to the root. The array `stack` of the code, read from its last entry to its first.
unfoldable pub walk_up : ℕ → ℤ → List ℤ → Bytes → List ℤ
walk_up zero current stack m = stack
walk_up (suc fuel) current stack m =
    let rest = walk_up fuel (parent_of (fs_get_inode current) m) (current ∷ stack) m in
    if not (eqb_ℤ current minus_one) && in_bounds current (pos 0) (my_sub (pos max_inodes) (pos 1))
    then rest
    else stack

unfoldable pub slash : Bytes
slash = object (codes "/")

-- `i > 0` says that ids are left.
unfoldable pub add_slash : List ℤ → Bytes → Bytes
add_slash [] buf = buf
add_slash (id ∷ ids) buf = my_strcat buf 0 slash 0

-- One round of the loop that builds the path.
unfoldable pub add_name : ℤ → List ℤ → Option ℕ → Bytes → Bytes → Bytes
add_name id ids none m buf = buf
add_name id ids (some p) m buf =
    if eqb_ℤ id (pos 0)
    then my_strcat buf 0 slash 0
    else add_slash ids (my_strcat buf 0 m (name_at p))

unfoldable pub path_loop : List ℤ → Bytes → Bytes → Bytes
path_loop [] m buf = buf
path_loop (id ∷ ids) m buf = path_loop ids m (add_name id ids (fs_get_inode id) m buf)

unfoldable pub path_of : List ℤ → Bytes → Bytes → Bytes
path_of [] m buf = my_strcpy (put buf 0 0) 0 slash 0
path_of (id ∷ ids) m buf =
    let path = path_loop (id ∷ ids) m (put buf 0 0) in
    if my_strlen path 0 == 0 then my_strcpy path 0 slash 0 else path

-- A walk without a cycle meets each of the 128 inodes once.
abbrev pub walk_fuel : ℕ
walk_fuel = max_inodes + 1

unfoldable pub fs_get_path : ℤ → Bytes → Machine → Bytes
fs_get_path inode_id buf k = path_of (walk_up walk_fuel inode_id [] k.ram) k.ram buf
