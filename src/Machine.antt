-- ===== src/Machine.antt =====
-- The global variables of the program, and what it prints.
use mineos.Base.{ℕ, ℤ, Bool, Option, List, String}
use mineos.Bytes.{Bytes}

-- A piece of output: a literal of the source, the bytes of a string in memory, or a number (%d).
pub data Out : Type 0 where
  text : String → Out
  chars : List ℕ → Out
  number : ℤ → Out

-- VIRTUAL_RAM and CURRENT_USER (libs/memory.c), `next_inode_id` (core/fs.c), `global_ticks`
-- (core/scheduler.c), `raw_mode_active` (libs/keyboard.c), what has been printed, oldest first, and
-- the bytes of the file mineos.img, if it is there (core/commands.c).
pub record Machine : Type 0 where
  pub ram : Bytes
  pub current_user : Bytes
  pub next_inode_id : ℕ
  pub global_ticks : ℤ
  pub raw_mode_active : Bool
  pub printed : List Out
  pub image : Option Bytes
