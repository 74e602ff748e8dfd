-- ===== src/System/Samples.antt =====
-- core/fs.c on a small file system.
use mineos.Base.{
  ℕ, zero, suc, ◌≡◌, ◌<◌, ◌+◌, ◌*◌, ◌==◌, refl, ◌∙◌, sym, inl, inr, true, false, List, [], ◌∷◌,
  codes, pos, if◌then◌else◌, minus_one, none, arith, length, ◌≤◌, ◌++◌, ◌-ℤ◌,
}
use mineos.Bytes.{Bytes, put, read_int, write_int, object}
use mineos.Machine.{Machine}
use mineos.Text.{unset}
use mineos.Math.{my_sub, wrap, to_word, of_word}
use mineos.Text.Strings.{IsString}
use mineos.Fs.{is_dir}
use mineos.Fs.Inodes.{inode_at}
use mineos.Memory.{place_first}
use mineos.Memory.Chain.{block}
use mineos.Memory.Init.{whole, place_first-IsHeap}
use mineos.System.{IsNode, offset_of}
use mineos.System.Delete.{Deletes, fs_delete-Deletes}
use mineos.System.Contract.{View, fs_reads, fs_writes, read, scheduler_ticks, tick, write}
use mineos.System.Refines.{Log, Run, Replay, ShowsView, run-Replay, start, then_call}
use mineos.System.Read.{Reads, ReadsNot, fs_read-Shows}
use mineos.Scheduler.{scheduler_tick}
use mineos.Fs.ReadBack.{IsOpenFile}
use mineos.Fs.Files.{is_active, is_file, fs_write, fs_read, fs_delete}
use mineos.Fs.Paths.{fs_get_path}
use mineos.System.{IsSystem, Shows}
use mineos.System.Write.{Writes, fs_write-Writes}
use mineos.System.Walk.{IsTrail, fs_get_path-join}
use mineos.System.Names.{ids_of, join, or_slash, IsNamed, Holds}

held_doc : IsString (object (codes "doc")) 0 (codes "doc")
unfolding object
held_doc = ground arith

-- A root directory whose child, inode 1, is a file with the name f.
abbrev small_tree : Bytes
small_tree =
    let root = put (put (put unset 100 1) 108 1) 172 1 in
    let top = put (put (put (put root 104 255) 105 255) 106 255) 107 255 in
    let rootless = put (put (put (put top 176 255) 177 255) 178 255) 179 255 in
    let file = put (put (put rootless 192 1) 196 b'f') 312 1 in
    put (put (put (put file 304 255) 305 255) 306 255) 307 255

abbrev small : Machine
small = record {
  ram = place_first small_tree;
  current_user = object (codes "miner");
  next_inode_id = 2;
  global_ticks = pos 4;
  raw_mode_active = false;
  printed = [];
  image = none;
}

abbrev small_root : IsNode small.ram 2 0
unfolding place_first write_int put read_int of_word to_word my_sub wrap ◌-ℤ◌
small_root = record {
  has_id = refl;
  parent = inl refl;
  c = 1;
  ids = λ j. 1;
  few = omega arith;
  kids = record { count = refl; entry = one_entry; small = λ j h. omega arith };
  newer = λ j h. omega arith;
  given = λ j h. omega arith;
  linked = λ j h. refl;
  distinct = λ j l a b e. omega arith;
}
  where
    one_entry : (j : ℕ) → j < 1 → read_int small.ram (108 + j * 4) ≡ pos 1
    one_entry zero h = refl
    one_entry (suc j) h = absurd (omega arith)

small_file : IsNode small.ram 2 1
unfolding is_dir place_first write_int put read_int of_word to_word my_sub wrap ◌-ℤ◌
small_file = record {
  has_id = refl;
  parent = inr (0, omega arith, refl, refl);
  c = 0;
  ids = λ j. 0;
  few = omega arith;
  kids = record {
    count = refl;
    entry = λ j h. absurd (omega arith);
    small = λ j h. absurd (omega arith);
  };
  newer = λ j h. absurd (omega arith);
  given = λ j h. absurd (omega arith);
  linked = λ j h. absurd (omega arith);
  distinct = λ j l a b. absurd (omega arith);
}

abbrev small_node : (i : ℕ) → i < 2 → IsNode small.ram 2 i
small_node zero h = small_root
small_node (suc zero) h = small_file
small_node (suc (suc i)) h = absurd (omega arith)

small_is_dir : is_dir small.ram (inode_at 0) ≡ true
unfolding is_dir place_first write_int put read_int of_word to_word my_sub wrap ◌-ℤ◌
small_is_dir = refl

small_empty : (i : ℕ) → i < 2 → offset_of small.ram i ≡ minus_one
unfolding place_first write_int put read_int of_word to_word my_sub wrap ◌-ℤ◌
small_empty zero h = refl
small_empty (suc zero) h = refl
small_empty (suc (suc i)) h = absurd (omega arith)

abbrev small_system : IsSystem small
small_system = record {
  tree = record {
    rooted = omega arith;
    bound = omega arith;
    root = small_is_dir;
    node = small_node;
  };
  blocks = block whole true ∷ [];
  store = record {
    heap = place_first-IsHeap small_tree;
    content = λ i h. (none, small_empty i h);
    separate = λ i j o hi hj ei ej.
        let clash : minus_one ≡ pos o = sym (small_empty i hi) ∙ ei in absurd (cc);
  };
}

small-Shows : Shows small small_system (λ _. none)
small-Shows i h = small_empty i h

fs_write-Writes_example :
    Writes small small_system 1 (codes "doc") (fs_write (pos 1) (object (codes "doc")) 0 small)
fs_write-Writes_example =
    fs_write-Writes small small_system 1 (object (codes "doc")) 0 (codes "doc") (omega arith)
      held_doc (omega arith)

fs_read-Shows_example :
    (IsOpenFile small.ram (inode_at 1) → Reads small none (fs_read (pos 1) unset small))
    × (¬ IsOpenFile small.ram (inode_at 1) → ReadsNot small unset (fs_read (pos 1) unset small))
fs_read-Shows_example =
    fs_read-Shows small small_system (λ _. none) 1 unset small-Shows (omega arith)

fs_delete-Deletes_example : Deletes small small_system 1 (fs_delete (pos 1) small)
unfolding small_root
fs_delete-Deletes_example = fs_delete-Deletes small small_system 0 (omega arith) 0 (omega arith)

-- An empty file is read, a text is written to it, and the scheduler ticks.
abbrev small_read : Machine
small_read = (fs_read (pos 1) unset small).2

abbrev small_written : Machine
small_written = (fs_write (pos 1) (object (codes "doc")) 0 small_read).1

abbrev small_log : Log
small_log =
    (tick, pos 0)
    ∷ (write 1 (codes "doc"), (fs_write (pos 1) (object (codes "doc")) 0 small_read).0)
    ∷ (read 1 [], (fs_read (pos 1) unset small).0)
    ∷ []

small_open : IsOpenFile small.ram (inode_at 1)
unfolding place_first write_int put read_int of_word to_word my_sub wrap ◌-ℤ◌ is_active is_file
small_open = record { active = refl; file = refl }

small_read_empty : Reads small none (fs_read (pos 1) unset small)
small_read_empty =
    (fs_read-Shows small small_system (λ _. none) 1 unset small-Shows (omega arith)).0 small_open

small_run : Run small small_log (scheduler_tick small_written)
small_run =
    let given : 1 < small_read.next_inode_id = rw small_read_empty.2 (omega arith) in
    then_call small_written (scheduler_tick small_written) tick (pos 0) _
      (then_call small_read small_written (write 1 (codes "doc")) _ _
        (then_call small small_read (read 1 []) _ [] start
          (fs_reads 1 unset [] (omega arith) small_open small_read_empty.1))
        (fs_writes 1 (object (codes "doc")) 0 (codes "doc") given held_doc (omega arith)))
      scheduler_ticks

run-Replay_example :
    (w : View) × Replay (2, λ _. none) small_log w × ShowsView (scheduler_tick small_written) w
run-Replay_example =
    run-Replay small (scheduler_tick small_written) (2, λ _. none) small_log
      (small_system, refl, small-Shows) small_run

abbrev small_names : ℕ → List ℕ
small_names d = if d == 0 then [] else b'f' ∷ []

small-IsNamed : (d : ℕ) → d ≤ 1 → IsNamed small.ram small_names d
unfolding place_first write_int put
small-IsNamed zero h = record { given = omega arith; held = refl; short = omega arith }
small-IsNamed (suc zero) h = record {
  given = omega arith;
  held = (refl, (omega arith, omega arith), refl);
  short = omega arith;
}
small-IsNamed (suc (suc d)) h = absurd (omega arith)

fs_get_path-join_example :
    (front : List ℕ) × (length front ≤ 1)
    × IsTrail small.ram minus_one (ids_of (front ++ 1 ∷ []))
    × Holds unset (or_slash (join small_names (front ++ 1 ∷ []))) (fs_get_path (pos 1) unset small)
fs_get_path-join_example =
    fs_get_path-join small 1 small_names unset small_system (omega arith) small-IsNamed

join_run : join small_names (0 ∷ 1 ∷ []) ≡ codes "/f"
join_run = refl
