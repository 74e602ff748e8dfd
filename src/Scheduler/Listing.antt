-- ===== src/Scheduler/Listing.antt =====
-- `scheduler_list` of core/scheduler.c.
use mineos.Base.{
  ℕ, zero, suc, ◌+◌, ℤ, pos, pos_part, minus_one, not, if◌then◌else◌, eqb_ℤ, Option, none, some, [],
  ◌∷◌, ◌==◌,
}
use mineos.Math.{my_sub}
use mineos.Bytes.{Bytes, read_int}
use mineos.Machine.{Machine, text, chars}
use mineos.Memory.Layout.{max_processes}
use mineos.Text.{my_int_to_str, my_strlen, str_at, text_fuel, unset}
use mineos.Screen.{
  screen_print_str, screen_print_color, print_all, int_text, plain, cyan, green, yellow,
  color_yellow,
}
use mineos.Scheduler.{get_process, pid_at, proc_name_at, status_at, ticks_at, proc_running}

-- The rounds of the loops that pad a column.
unfoldable pub pad_loop : ℕ → Machine → Machine
pad_loop zero k = k
pad_loop (suc n) k = pad_loop n (screen_print_str (text " ") k)

unfoldable pub pad : ℤ → Machine → Machine
pad n k = pad_loop (pos_part n) k

-- `my_sub(width, my_strlen(buf))` for the text of a number in `buf`.
unfoldable pub int_pad : ℤ → ℤ → ℤ
int_pad width n = my_sub width (pos (my_strlen (my_int_to_str n unset) 0))

-- The row of the process at `p`.
unfoldable pub list_row : Bytes → ℕ → Machine → Machine
list_row m p k =
    let k1 =
      print_all
        (cyan (text "  ║ ")
          ∷ plain (int_text (read_int m (pid_at p)))
          ∷ plain (text "   │ ")
          ∷ green (chars (str_at text_fuel m (proc_name_at p)))
          ∷ [])
        k in
    let k2 = pad (my_sub (pos 16) (pos (my_strlen m (proc_name_at p)))) k1 in
    let status =
      if eqb_ℤ (read_int m (status_at p)) proc_running
      then green (text "RUNNING ")
      else yellow (text "SLEEPING") in
    let k3 =
      print_all
        (plain (text " │ ")
          ∷ status
          ∷ plain (text " │ ")
          ∷ plain (int_text (read_int m (ticks_at p)))
          ∷ [])
        k2 in
    print_all (cyan (text "║\n") ∷ []) (pad (int_pad (pos 6) (read_int m (ticks_at p))) k3)

-- One round: `active_count` and the row, for a slot in use.
unfoldable pub list_slot : Option ℕ → ℕ × Machine → ℕ × Machine
list_slot none (active_count, k) = (active_count, k)
list_slot (some p) (active_count, k) =
    if not (eqb_ℤ (read_int k.ram (pid_at p)) minus_one)
    then (active_count + 1, list_row k.ram p k)
    else (active_count, k)

-- The rounds that are left from slot `i` on.
unfoldable pub rows_loop : ℕ → ℕ → ℕ × Machine → ℕ × Machine
rows_loop zero i r = r
rows_loop (suc n) i r = rows_loop n (i + 1) (list_slot (get_process (pos i)) r)

unfoldable pub scheduler_list : Machine → Machine
scheduler_list k0 =
    let k1 =
      print_all
        (plain (text "\n")
          ∷ cyan (text "  ╔═════╤══════════════════╤══════════╤════════╗\n")
          ∷ cyan (text "  ║ PID │ NAME             │ STATUS   │ TICKS  ║\n")
          ∷ cyan (text "  ╠═════╪══════════════════╪══════════╪════════╣\n")
          ∷ [])
        k0 in
    let (active_count, k2) = rows_loop max_processes 0 (0, k1) in
    let k3 =
      if active_count == 0
      then screen_print_color (text "  ║       (no active processes)                ║\n")
          color_yellow k2
      else k2 in
    let k4 =
      print_all
        (cyan (text "  ╠═════╧══════════════════╧══════════╧════════╣\n")
          ∷ cyan (text "  ║  System ticks: ")
          ∷ plain (int_text k3.global_ticks)
          ∷ [])
        k3 in
    print_all
      (cyan (text "║\n")
        ∷ cyan (text "  ╚═══════════════════════════════════════════╝\n")
        ∷ plain (text "\n")
        ∷ [])
      (pad (int_pad (pos 30) k0.global_ticks) k4)
