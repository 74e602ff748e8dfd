-- ===== src/System/Examples.antt =====
-- Commands and files on the system that main.c boots.
use mineos.Base.{
  ℕ, zero, suc, ◌≡◌, ◌<◌, ◌+◌, ◌==◌, refl, true, false, List, [], ◌∷◌, codes, pos, if◌then◌else◌,
  minus_one, none, arith, ltb, ◌≤◌, ◌++◌, ℤ, ◌-ℤ◌, length,
}
use mineos.Bytes.{put, object}
use mineos.Machine.{Machine}
use mineos.Text.{Tokens, unset, my_strcmp, strcmp_loop}
use mineos.Math.{my_sub, wrap, to_word, of_word}
use mineos.Text.Strings.{IsString}
use mineos.Fs.{fs_create}
use mineos.Fs.Paths.{walk_up, walk_fuel}
use mineos.Fs.Layout.{inode_file}
use mineos.Commands.Image.{Stdio}
use mineos.Commands.Files.{is_word}
use mineos.Commands.Dispatch.{command_dispatch}
use mineos.Shell.{boot}
use mineos.System.{IsSystem}
use mineos.System.Create.{Creates, fs_create-Creates}
use mineos.System.Words.{AreWords, WordAt}
use mineos.System.Dispatch.{IsReady, LeavesReady, command_dispatch-LeavesReady}
use mineos.Commands.Fits.{CallFits, other-CallFits}
use mineos.System.Main.{boot-IsReady}
use mineos.System.Walk.{IsTrail, walk_up-IsTrail}

abbrev off : Machine
off = record {
  ram = λ q. 7;
  current_user = object (codes "miner");
  next_inode_id = 9;
  global_ticks = pos 4;
  raw_mode_active = false;
  printed = [];
  image = none;
}

user_held : IsString off.current_user 0 (codes "miner")
unfolding object
user_held = ground arith

abbrev booted : Machine
booted = boot off

booted-IsReady : IsReady (pos 3) booted
booted-IsReady = (boot-IsReady off (codes "miner") user_held (omega arith)).0

booted-IsSystem : IsSystem booted
booted-IsSystem = booted-IsReady.system

six_inodes : booted.next_inode_id ≡ 6
six_inodes = (boot-IsReady off (codes "miner") user_held (omega arith)).2

home_given : 3 < booted.next_inode_id
home_given = omega (arith, six_inodes)

doc_held : IsString (object (codes "doc")) 0 (codes "doc")
unfolding object
doc_held = ground arith

fs_create-Creates_example :
    Creates booted booted-IsSystem (fs_create (pos 3) (object (codes "doc")) 0 inode_file booted)
fs_create-Creates_example =
    fs_create-Creates booted booted-IsSystem 3 (object (codes "doc")) 0 (codes "doc") inode_file
      home_given doc_held (omega arith) (omega arith)

walk_up-IsTrail_example :
    let ids = walk_up walk_fuel (pos 3) [] booted.ram in
    IsTrail booted.ram minus_one ids
    × (length ids ≤ 3 + 1)
    × ((front : List ℤ) × (ids ≡ front ++ pos 3 ∷ []))
walk_up-IsTrail_example = walk_up-IsTrail booted 3 booted-IsSystem home_given

-- "mkdir doc" cut into its words.
abbrev mkdir_doc : Tokens
mkdir_doc = record {
  input = put (object (codes "mkdir doc")) 5 0;
  tokens = λ j. if j == 0 then 0 else 6;
  count = 2;
  in_token = true;
}

mkdir_doc-WordAt : (j : ℕ) → j < 2 → WordAt mkdir_doc j
unfolding put object
mkdir_doc-WordAt zero h = (codes "mkdir", ground arith, omega arith)
mkdir_doc-WordAt (suc zero) h = (codes "doc", ground arith, omega arith)
mkdir_doc-WordAt (suc (suc j)) h = absurd (omega arith)

mkdir_doc-AreWords : AreWords mkdir_doc
mkdir_doc-AreWords = record { few = omega arith; word = mkdir_doc-WordAt }

abbrev stdio : Stdio
stdio = record {
  creates = λ k. true;
  opens = λ k. true;
  fwrite = λ n m q. if ltb q n then m q else 0;
  fread = λ l image old q. if ltb q l then image q else old q;
}

not_load : is_word mkdir_doc 0 (object (codes "load")) ≡ false
unfolding is_word my_strcmp strcmp_loop put object mineos.Text.char_value my_sub wrap to_word
    of_word ◌-ℤ◌
not_load = refl

not_halt : is_word mkdir_doc 0 (object (codes "halt")) ≡ false
unfolding is_word my_strcmp strcmp_loop put object mineos.Text.char_value my_sub wrap to_word
    of_word ◌-ℤ◌
not_halt = refl

mkdir_doc-CallFits : CallFits mkdir_doc (pos 3) booted
unfolding is_word my_strcmp strcmp_loop put object mineos.Text.char_value my_sub wrap to_word
    of_word ◌-ℤ◌
mkdir_doc-CallFits = other-CallFits mkdir_doc (pos 3) booted refl refl refl

command_dispatch-LeavesReady_example : LeavesReady (command_dispatch stdio mkdir_doc (pos 3) booted)
command_dispatch-LeavesReady_example =
    command_dispatch-LeavesReady stdio mkdir_doc mkdir_doc-AreWords (pos 3) booted booted-IsReady
      not_load not_halt mkdir_doc-CallFits
