-- ===== src/Scheduler/Examples.antt =====
-- core/scheduler.c at concrete inputs.
use mineos.Base.{
  ℕ, ◌+◌, ◌≤◌, ◌<◌, ◌≡◌, arith, true, false, List, [], pos, minus_one, none, ◌⊎◌, codes,
}
use mineos.Math.{my_add}
use mineos.Machine.{Machine}
use mineos.Bytes.{Bytes, put, object, read_int}
use mineos.Text.{unset}
use mineos.Screen.OnlyPrints.{OnlyPrints}
use mineos.Text.Strings.{IsString}
use mineos.Scheduler.{
  scheduler_tick, scheduler_init, scheduler_spawn, scheduler_kill, proc_sleeping, pid_at, status_at,
  ticks_at,
}
use mineos.Scheduler.Init.{Started, scheduler_init-Started}
use mineos.Scheduler.Spawn.{
  empty_slot, WroteSlot, SpawnedFrom, scheduler_spawn-SpawnedFrom, scheduler_kill-WroteSlot,
}
use mineos.Scheduler.Slots.{slot_at}
use mineos.Scheduler.Tick.{ticks_of, ticked, scheduler_tick-ticked}

-- Slot 1 holds process 1, which runs and has 7 ticks.
abbrev table : Bytes
table = put (put (put unset 16512 1) 16532 1) 16536 7

abbrev busy : Machine
busy = record {
  ram = table;
  current_user = unset;
  next_inode_id = 0;
  global_ticks = pos 4;
  raw_mode_active = false;
  printed = [];
  image = none;
}

scheduler_tick-ticked_example :
    let m' = (scheduler_tick busy).ram in
    (ticks_of m' 1 ≡ ticked table 1)
    × (read_int m' (pid_at (slot_at 1)) ≡ read_int table (pid_at (slot_at 1)))
    × (read_int m' (status_at (slot_at 1)) ≡ read_int table (status_at (slot_at 1)))
    × ((q : ℕ)
        → slot_at 1 ≤ q
        → q < slot_at 1 + 64
        → (q < ticks_at (slot_at 1)) ⊎ (ticks_at (slot_at 1) + 4 ≤ q)
        → m' q ≡ table q)
    × ((q : ℕ) → (q < 16448) ⊎ (17472 ≤ q) → m' q ≡ table q)
    × ((scheduler_tick busy).global_ticks ≡ my_add (pos 4) (pos 1))
scheduler_tick-ticked_example = scheduler_tick-ticked busy 1 (omega arith)

abbrev task : List ℕ
task = codes "sh"

task_held : IsString (object task) 0 task
unfolding object
task_held = ground arith

-- Slot 2 is empty.
abbrev open_table : Bytes
open_table = put (put (put (put table 16576 255) 16577 255) 16578 255) 16579 255

abbrev roomy : Machine
roomy = record busy { ram = open_table }

scheduler_spawn-SpawnedFrom_example :
    SpawnedFrom 0 roomy task (scheduler_spawn (object task) 0 roomy)
scheduler_spawn-SpawnedFrom_example =
    scheduler_spawn-SpawnedFrom roomy (object task) 0 task task_held (omega arith)

scheduler_kill-WroteSlot_example :
    ((empty_slot table 1 ≡ true) × OnlyPrints busy (scheduler_kill (pos 1) busy))
    ⊎ ((empty_slot table 1 ≡ false)
        × WroteSlot table 1 minus_one [] proc_sleeping (scheduler_kill (pos 1) busy).ram)
scheduler_kill-WroteSlot_example = scheduler_kill-WroteSlot busy 1 (omega arith)

scheduler_init-Started_example : Started table (scheduler_init busy).ram
scheduler_init-Started_example = scheduler_init-Started busy
