-- ===== src/Scheduler.antt =====
-- The process table of core/scheduler.c: 16 slots of 64 bytes in VIRTUAL_RAM.
pub mod Slots
pub mod Tick
pub mod Spawn
pub mod Init
pub mod Listing
mod Examples
use mineos.Base.{
  ℕ, zero, suc, ◌+◌, ℤ, pos, pos_part, minus_one, Bool, true, false, not, ◌&&◌, if◌then◌else◌,
  eqb_ℤ, ltb, Option, none, some, List, [], ◌∷◌, String, codes,
}
use mineos.Math.{my_add, my_sub, my_mul, my_mod, in_bounds}
use mineos.Bytes.{Bytes, put, read_int, write_int, object}
use mineos.Machine.{Machine, Out, text, chars}
use mineos.Memory.Layout.{max_processes, process_entry_size, process_table_offset}
use mineos.Screen.{
  emit, screen_print_str, screen_print_color, color_red, color_yellow, color_magenta, color_green,
  color_cyan,
}
use mineos.Text.{my_strcpy, my_int_to_str, my_strlen, str_at, text_fuel, unset}

abbrev pub proc_sleeping : ℤ
proc_sleeping = pos 0

abbrev pub proc_running : ℤ
proc_running = pos 1

-- The fields of the `Process` at `p`.
abbrev pub pid_at : ℕ → ℕ
pid_at p = p

abbrev pub proc_name_at : ℕ → ℕ
proc_name_at p = p + 4

abbrev pub status_at : ℕ → ℕ
status_at p = p + 20

abbrev pub ticks_at : ℕ → ℕ
ticks_at p = p + 24

-- The address of a slot, or NULL.
unfoldable pub get_process : ℤ → Option ℕ
get_process slot =
    if in_bounds slot (pos 0) (my_sub (pos max_processes) (pos 1))
    then some (pos_part (my_add (pos process_table_offset) (my_mul slot (pos process_entry_size))))
    else none

-- An empty slot.
unfoldable pub clear_slot : Bytes → Option ℕ → Bytes
clear_slot m none = m
clear_slot m (some p) =
    write_int
      (write_int (put (write_int m (pid_at p) minus_one) (proc_name_at p) 0) (status_at p)
        proc_sleeping)
      (ticks_at p) (pos 0)

-- The rounds of the loop of `scheduler_init` that are left from slot `i`.
unfoldable pub init_loop : ℕ → ℕ → Bytes → Bytes
init_loop zero i m = m
init_loop (suc n) i m = init_loop n (i + 1) (clear_slot m (get_process (pos i)))

-- A running process in a slot.
unfoldable pub fill_slot : Bytes → ℕ → ℕ → Bytes → ℕ → Bytes
fill_slot m p i name s =
    write_int
      (write_int (my_strcpy (write_int m (pid_at p) (pos i)) (proc_name_at p) name s) (status_at p)
        proc_running)
      (ticks_at p) (pos 0)

unfoldable pub is_empty : Bytes → Option ℕ → Bool
is_empty m none = false
is_empty m (some p) = eqb_ℤ (read_int m (pid_at p)) minus_one

unfoldable pub spawn_at : ℕ → Bytes → ℕ → Option ℕ → Machine → ℤ × Machine
spawn_at i name s none k = (minus_one, k)
spawn_at i name s (some p) k = (pos i, record k { ram = fill_slot k.ram p i name s })

-- The rounds of the loop of `scheduler_spawn`, and its message if they find no slot.
unfoldable pub spawn_loop : ℕ → ℕ → Bytes → ℕ → Machine → ℤ × Machine
spawn_loop zero i name s k =
    (minus_one, screen_print_color (text "[scheduler] Error: process table full\n") color_red k)
spawn_loop (suc n) i name s k =
    let rest = spawn_loop n (i + 1) name s k in
    if is_empty k.ram (get_process (pos i)) then spawn_at i name s (get_process (pos i)) k else rest

unfoldable pub scheduler_spawn : Bytes → ℕ → Machine → ℤ × Machine
scheduler_spawn name s k = spawn_loop max_processes 0 name s k

unfoldable pub scheduler_init : Machine → Machine
scheduler_init k =
    (scheduler_spawn (object (codes "uptime")) 0
      (record k { global_ticks = pos 0; ram = init_loop max_processes 0 k.ram })).1

-- `scheduler_kill` past the check of the PID.
unfoldable pub kill_at : Option ℕ → Machine → Machine
kill_at none k = screen_print_color (text "[scheduler] Error: no such process\n") color_red k
kill_at (some p) k =
    let m1 = write_int (write_int k.ram (pid_at p) minus_one) (status_at p) proc_sleeping in
    let m2 = write_int (put m1 (proc_name_at p) 0) (ticks_at p) (pos 0) in
    let k1 = screen_print_color (text "  → Process terminated: ") color_yellow k in
    let k2 = screen_print_color (chars (str_at text_fuel k.ram (proc_name_at p))) color_yellow k1 in
    let k3 = screen_print_str (text "\n") k2 in
    if eqb_ℤ (read_int k.ram (pid_at p)) minus_one
    then screen_print_color (text "[scheduler] Error: no such process\n") color_red k
    else record k3 { ram = m2 }

unfoldable pub scheduler_kill : ℤ → Machine → Machine
scheduler_kill pid k =
    if in_bounds pid (pos 0) (my_sub (pos max_processes) (pos 1))
    then kill_at (get_process pid) k
    else screen_print_color (text "[scheduler] Error: invalid PID\n") color_red k

unfoldable pub is_running : Bytes → Option ℕ → Bool
is_running m none = false
is_running m (some p) =
    not (eqb_ℤ (read_int m (pid_at p)) minus_one) && eqb_ℤ (read_int m (status_at p)) proc_running

unfoldable pub count_tick : Bytes → Option ℕ → Bytes
count_tick m none = m
count_tick m (some p) = write_int m (ticks_at p) (my_add (read_int m (ticks_at p)) (pos 1))

unfoldable pub tick_loop : ℕ → ℕ → Bytes → Bytes
tick_loop zero i m = m
tick_loop (suc n) i m =
    tick_loop n (i + 1)
      (if is_running m (get_process (pos i)) then count_tick m (get_process (pos i)) else m)

-- The message of every fifth tick.
unfoldable pub tick_message : Machine → Machine
tick_message k = screen_print_str (text "\n") (
    screen_print_color (chars (str_at text_fuel (my_int_to_str k.global_ticks unset) 0))
      color_magenta (screen_print_color (text "  [uptime] system tick: ") color_magenta k))

unfoldable pub scheduler_tick : Machine → Machine
scheduler_tick k =
    let k' = record k {
      global_ticks = my_add k.global_ticks (pos 1);
      ram = tick_loop max_processes 0 k.ram;
    } in
    if eqb_ℤ (my_mod k'.global_ticks (pos 5)) (pos 0) then tick_message k' else k'
