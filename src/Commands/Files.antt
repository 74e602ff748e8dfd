-- ===== src/Commands/Files.antt =====
-- The commands of core/commands.c on files and directories.
use mineos.Base.{
  ℕ, zero, suc, ◌+◌, ◌-◌, ℤ, pos, minus_one, Bool, not, if◌then◌else◌, ltb, ltb_ℤ, eqb_ℤ, Option,
  none, some, [], ◌∷◌, codes,
}
use mineos.Math.{my_sub}
use mineos.Bytes.{Bytes, put, read_int, object}
use mineos.Machine.{Machine, Out, text, chars}
use mineos.Text.{Tokens, my_strcat, my_strcmp, my_strlen, str_at, text_fuel, unset}
use mineos.Screen.{print_all, int_text, plain, red, green, yellow}
use mineos.Fs.{fs_create, fs_find_child, fs_get_inode, is_dir}
use mineos.Fs.Files.{is_file, fs_delete, fs_write, fs_read, Read}
use mineos.Fs.Paths.{fs_list, fs_get_path}
use mineos.Fs.Layout.{inode_file, inode_dir, id_at, parent_id_at}
use mineos.Commands.{token}

unfoldable pub usage : Out → Machine → ℤ × Machine
usage o k = (pos 0, print_all (yellow o ∷ []) k)

-- The end of `cmd_mkdir` and `cmd_touch`, by the result of `fs_create`.
unfoldable pub report : Out → Tokens → ℤ × Machine → ℤ × Machine
report done t (result, k) = (
  pos 0,
  if not (eqb_ℤ result minus_one)
      then print_all (green done ∷ green (token t 1) ∷ plain (text "\n") ∷ []) k
      else k,
)

unfoldable pub cmd_ls : ℤ → Machine → ℤ × Machine
cmd_ls current_dir k = (pos 0, fs_list current_dir k)

unfoldable pub cmd_mkdir : Tokens → ℤ → Machine → ℤ × Machine
cmd_mkdir t current_dir k =
    if ltb t.count 2
    then usage (text "  Usage: mkdir <name>\n") k
    else report (text "  → Directory created: ") t
        (fs_create current_dir t.input (t.tokens 1) inode_dir k)

unfoldable pub cmd_touch : Tokens → ℤ → Machine → ℤ × Machine
cmd_touch t current_dir k =
    if ltb t.count 2
    then usage (text "  Usage: touch <name>\n") k
    else report (text "  → File created: ") t
        (fs_create current_dir t.input (t.tokens 1) inode_file k)

-- Messages about token 1.
unfoldable pub complain : Out → Tokens → Out → Machine → ℤ × Machine
complain before t behind k = (pos 0, print_all (red before ∷ red (token t 1) ∷ red behind ∷ []) k)

unfoldable pub file_missing : Tokens → Machine → ℤ × Machine
file_missing t = complain (text "  Error: file '") t (text "' not found\n")

unfoldable pub missing : Tokens → Machine → ℤ × Machine
missing t = complain (text "  Error: '") t (text "' not found\n")

unfoldable pub no_file : Tokens → Machine → ℤ × Machine
no_file t = complain (text "  Error: '") t (text "' is a directory, not a file\n")

-- The rounds that are left of the loop of `cmd_write` that joins the tokens from `i` on.
unfoldable pub join_loop : ℕ → ℕ → Tokens → Bytes → Bytes
join_loop zero i t content = content
join_loop (suc n) i t content =
    let content1 = my_strcat content 0 t.input (t.tokens i) in
    join_loop n (i + 1) t (
      if ltb_ℤ (pos i) (my_sub (pos t.count) (pos 1))
      then my_strcat content1 0 (object (codes " ")) 0
      else content1)

-- The end of `cmd_write`, by the result of `fs_write`.
unfoldable pub report_write : Bytes → Tokens → ℤ × Machine → ℤ × Machine
report_write content t (result, k) = (
  pos 0,
  if eqb_ℤ result (pos 0)
      then print_all
          (green (text "  → Wrote ")
            ∷ green (int_text (pos (my_strlen content 0)))
            ∷ green (text " bytes to ")
            ∷ green (token t 1)
            ∷ plain (text "\n")
            ∷ [])
          k
      else k,
)

unfoldable pub write_to : Option ℕ → Tokens → Machine → ℤ × Machine
write_to none t k = file_missing t k
write_to (some file) t k =
    let content = join_loop (t.count - 2) 2 t (put unset 0 0) in
    if not (is_file k.ram file)
    then no_file t k
    else report_write content t (fs_write (read_int k.ram (id_at file)) content 0 k)

unfoldable pub cmd_write : Tokens → ℤ → Machine → ℤ × Machine
cmd_write t current_dir k =
    if ltb t.count 3
    then usage (text "  Usage: write <filename> <content>\n") k
    else write_to (fs_find_child current_dir t.input (t.tokens 1) k) t k

-- The end of `cmd_cat`, by the result of `fs_read`.
unfoldable pub show_content : Read → ℤ × Machine
show_content (result, buf, k) = (
  pos 0,
  if eqb_ℤ result (pos 0)
      then print_all (yellow (text "  (empty file)\n") ∷ []) k
      else if ltb_ℤ (pos 0) result
      then print_all
          (plain (text "  ") ∷ plain (chars (str_at text_fuel buf 0)) ∷ plain (text "\n") ∷ []) k
      else k,
)

unfoldable pub cat_of : Option ℕ → Tokens → Machine → ℤ × Machine
cat_of none t k = file_missing t k
cat_of (some file) t k =
    if not (is_file k.ram file)
    then no_file t k
    else show_content (fs_read (read_int k.ram (id_at file)) unset k)

unfoldable pub cmd_cat : Tokens → ℤ → Machine → ℤ × Machine
cmd_cat t current_dir k =
    if ltb t.count 2
    then usage (text "  Usage: cat <filename>\n") k
    else cat_of (fs_find_child current_dir t.input (t.tokens 1) k) t k

-- The end of `cmd_rm`, by the result of `fs_delete`.
unfoldable pub report_rm : Tokens → ℤ × Machine → ℤ × Machine
report_rm t (result, k) = (
  pos 0,
  if eqb_ℤ result (pos 0)
      then print_all (green (text "  → Removed: ") ∷ green (token t 1) ∷ plain (text "\n") ∷ []) k
      else k,
)

unfoldable pub rm_of : Option ℕ → Tokens → Machine → ℤ × Machine
rm_of none t k = missing t k
rm_of (some target) t k = report_rm t (fs_delete (read_int k.ram (id_at target)) k)

unfoldable pub cmd_rm : Tokens → ℤ → Machine → ℤ × Machine
cmd_rm t current_dir k =
    if ltb t.count 2
    then usage (text "  Usage: rm <name>\n") k
    else rm_of (fs_find_child current_dir t.input (t.tokens 1) k) t k

-- The result of a command that may change `*current_dir`: the result, that variable, the machine.
abbrev pub Moved : Type 0
Moved = ℤ × ℤ × Machine

-- The directory that `cd ..` goes to.
unfoldable pub parent_dir : Option ℕ → Bytes → ℤ
parent_dir none m = pos 0
parent_dir (some current) m =
    if not (eqb_ℤ (read_int m (parent_id_at current)) minus_one)
    then read_int m (parent_id_at current)
    else pos 0

unfoldable pub stay : ℤ → ℤ × Machine → Moved
stay current_dir (result, k) = (result, current_dir, k)

unfoldable pub cd_to : Option ℕ → Tokens → ℤ → Machine → Moved
cd_to none t current_dir k = stay current_dir (missing t k)
cd_to (some target) t current_dir k =
    if not (is_dir k.ram target)
    then stay current_dir (complain (text "  Error: '") t (text "' is not a directory\n") k)
    else (pos 0, read_int k.ram (id_at target), k)

-- Whether token `i` is the word.
unfoldable pub is_word : Tokens → ℕ → Bytes → Bool
is_word t i word = eqb_ℤ (my_strcmp t.input (t.tokens i) word 0) (pos 0)

unfoldable pub cmd_cd : Tokens → ℤ → Machine → Moved
cmd_cd t current_dir k =
    if ltb t.count 2
    then (pos 0, pos 3, k)
    else if is_word t 1 (object (codes ".."))
    then (pos 0, parent_dir (fs_get_inode current_dir) k.ram, k)
    else if is_word t 1 (object (codes "/"))
    then (pos 0, pos 0, k)
    else cd_to (fs_find_child current_dir t.input (t.tokens 1) k) t current_dir k

unfoldable pub cmd_pwd : ℤ → Machine → ℤ × Machine
cmd_pwd current_dir k =
    let path = fs_get_path current_dir unset k in
    (
      pos 0,
      print_all
          (plain (text "  ") ∷ plain (chars (str_at text_fuel path 0)) ∷ plain (text "\n") ∷ []) k,
    )
