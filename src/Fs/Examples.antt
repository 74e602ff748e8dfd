-- ===== src/Fs/Examples.antt =====
-- core/fs.c at concrete inputs.
use mineos.Base.{
  ℕ, zero, suc, ◌≡◌, ◌<◌, ◌+◌, ◌*◌, refl, inl, true, false, List, [], ◌∷◌, codes, pos, minus_one,
  none, arith, ◌+ℤ◌, ◌-ℤ◌, ◌*ℤ◌,
}
use mineos.Math.{my_add, my_sub, my_mul, in_bounds, wrap, to_word, of_word}
use mineos.Bytes.{Bytes, put, read_int, write_int, object}
use mineos.Bytes.Ints.{read_int-write_int, read_int-write_other}
use mineos.Bytes.Outside.{write_int-SameOutside}
use mineos.Machine.{Machine}
use mineos.Screen.OnlyPrints.{OnlyPrints}
use mineos.Memory.{memory_init, place_first}
use mineos.Memory.Chain.{block, IsHeap, IsChain-SameOutside}
use mineos.Memory.Init.{whole, memory_init-IsHeap, place_first-IsHeap}
use mineos.Text.{unset, my_strcmp, strcmp_loop}
use mineos.Text.Strings.{IsString}
use mineos.Fs.{
  fs_get_inode, find_in, find_loop, matches, is_dir, fs_find_child, fs_create, create_in, fail,
}
use mineos.Fs.Inodes.{inode_at}
use mineos.Fs.Layout.{name_at}
use mineos.Fs.Files.{is_active, is_file, fs_delete, fs_write, fs_read}
use mineos.Fs.Create.{HasRoom, Created, fs_create-Created}
use mineos.Fs.Removed.{HasChildren}
use mineos.Fs.Delete.{IsLeaf, Deleted, fs_delete-Deleted}
use mineos.Fs.Refused.{IsDeletable, fs_delete_refuses, fs_create-IsRefusal}
use mineos.Fs.ReadBack.{IsOpenFile, WrittenBack, fs_read-fs_write}

abbrev name : List ℕ
name = codes "doc"

name_held : IsString (object name) 0 name
unfolding object
name_held = ground arith

-- Inode 0 is a directory with one child, inode 1, of the name "a".
abbrev tree : Bytes
tree = put (put (put (put (put unset 100 1) 108 1) 172 1) 196 b'a') 312 1

abbrev start : Machine
start = record {
  ram = tree;
  current_user = unset;
  next_inode_id = 2;
  global_ticks = pos 0;
  raw_mode_active = false;
  printed = [];
  image = none;
}

start-HasRoom : HasRoom start.ram 0 1
unfolding is_dir put read_int of_word
start-HasRoom = record { directory = refl; children = refl; room = omega arith }

not_there : fs_find_child (pos 0) (object name) 0 start ≡ none
unfolding fs_find_child fs_get_inode in_bounds my_add my_sub my_mul wrap to_word of_word ◌+ℤ◌ ◌-ℤ◌
    ◌*ℤ◌ find_in find_loop matches is_dir put read_int my_strcmp strcmp_loop object
    mineos.Text.char_value
not_there = refl

fs_create-Created_example :
    let r = fs_create (pos 0) (object name) 0 (pos 0) start in
    Created start.ram 0 1 2 124 (pos 0) r × IsString r.1.ram (name_at (inode_at 2)) name
fs_create-Created_example =
    fs_create-Created start 0 1 2 (object name) 0 name (pos 0) (omega arith) (omega arith) refl
      start-HasRoom not_there name_held (omega arith) (omega arith)

-- A directory cannot be made below a parent that is none.
no_parent : (fs_create (pos 200) (object name) 0 (pos 1) start).0 ≡ minus_one
unfolding fs_create fs_get_inode in_bounds my_add my_sub my_mul wrap to_word of_word ◌+ℤ◌ ◌-ℤ◌ ◌*ℤ◌
    create_in fail
no_parent = refl

-- Behind the last inode there is none.
out_of_range : ¬ IsDeletable start (pos 128)
out_of_range (d, e, above, below, active, leaf) = absurd (clash e)
  where
    clash : pos 128 ≡ pos d → ⊥
    clash h = let g : 128 ≡ d = cc in omega arith

fs_delete_refuses_example :
    let r = fs_delete (pos 128) start in (r.0 ≡ minus_one) × OnlyPrints start r.1
fs_delete_refuses_example = fs_delete_refuses start (pos 128) out_of_range

fs_create-IsRefusal_example : OnlyPrints start (fs_create (pos 200) (object name) 0 (pos 1) start).1
fs_create-IsRefusal_example = fs_create-IsRefusal start (pos 200) (object name) 0 (pos 1) no_parent

-- The machine just booted, with inode 6 an empty file.
abbrev booted : Machine
booted = memory_init start

abbrev typed : Bytes
typed = write_int booted.ram 868 (pos 0)

abbrev opened : Bytes
opened = write_int typed 952 (pos 1)

abbrev ready : Machine
ready = record booted { ram = write_int opened 944 minus_one }

ready-IsHeap : IsHeap ready.ram (block whole true ∷ [])
ready-IsHeap =
    IsChain-SameOutside opened ready.ram 17472 (block whole true ∷ [])
      (write_int-SameOutside opened 944 minus_one) (omega arith)
      (IsChain-SameOutside typed opened 17472 (block whole true ∷ [])
        (write_int-SameOutside typed 952 (pos 1)) (omega arith)
        (IsChain-SameOutside booted.ram typed 17472 (block whole true ∷ [])
          (write_int-SameOutside booted.ram 868 (pos 0)) (omega arith)
          (memory_init-IsHeap start).0))

ready-IsOpenFile : IsOpenFile ready.ram (inode_at 6)
unfolding is_active is_file
ready-IsOpenFile = record {
  active =
      rw
        (
          read_int-write_other opened 944 952 minus_one (omega arith),
          read_int-write_int typed 952 (pos 1) (omega arith),
        )
        refl;
  file =
      rw
        (
          read_int-write_other opened 944 868 minus_one (omega arith),
          read_int-write_other typed 952 868 (pos 1) (omega arith),
          read_int-write_int booted.ram 868 (pos 0) (omega arith),
        )
        refl;
}

fs_read-fs_write_example :
    WrittenBack ready.ram
      (inode_at 6)
      name
      unset
      (fs_write (pos 6) (object name) 0 ready)
      (fs_read (pos 6) unset (fs_write (pos 6) (object name) 0 ready).1)
fs_read-fs_write_example =
    fs_read-fs_write ready 6 (block whole true ∷ []) (object name) 0 name unset (omega arith)
      ready-IsHeap (inl (read_int-write_int opened 944 minus_one (omega arith))) ready-IsOpenFile
      (omega arith) name_held

-- The tree from above, with an empty heap; the file has no content.
abbrev stored : Machine
stored = record start {
  ram = place_first (put (put (put (put tree 304 255) 305 255) 306 255) 307 255);
}

stored-IsLeaf : IsLeaf stored.ram (inode_at 1)
unfolding is_active is_dir place_first write_int put read_int of_word to_word my_sub wrap ◌-ℤ◌
stored-IsLeaf = record { active = refl; childless = refl }

stored-HasChildren : HasChildren stored.ram (inode_at 0) 1 (λ j. 1)
unfolding place_first write_int put read_int of_word to_word my_sub wrap ◌-ℤ◌
stored-HasChildren = record { count = refl; entry = one_entry; small = λ j h. omega arith }
  where
    one_entry : (j : ℕ) → j < 1 → read_int stored.ram (108 + j * 4) ≡ pos 1
    one_entry zero h = refl
    one_entry (suc j) h = absurd (omega arith)

stored_links : (read_int stored.ram 304 ≡ minus_one) × (read_int stored.ram 232 ≡ pos 0)
unfolding place_first write_int put read_int of_word to_word my_sub wrap ◌-ℤ◌
stored_links = (refl, refl)

fs_delete-Deleted_example :
    Deleted stored.ram (block whole true ∷ []) 0 1 1 0 (λ j. 1) (fs_delete (pos 1) stored)
fs_delete-Deleted_example =
    fs_delete-Deleted stored (block whole true ∷ []) 0 1 1 0 (λ j. 1) (omega arith) (omega arith)
      (omega arith) (omega arith) (place_first-IsHeap _) (inl stored_links.0) stored-IsLeaf
      stored_links.1 (omega arith) stored-HasChildren (omega arith) refl (λ j h e. omega arith)
