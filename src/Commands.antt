-- ===== src/Commands.antt =====
-- The commands of core/commands.c that take no file: `echo`, `memstat`, `ps`, `clear`, `exit` and
-- `halt`. The arguments `tokens` and `count` are the `Tokens` that `my_tokenize` leaves: a token is
-- an index into `input`, and so never NULL. A command returns its result and the machine.
pub mod Help
pub mod Files
pub mod Image
pub mod Dispatch
pub mod Names
pub mod Fits
pub mod Prints
pub mod ReadOnly
pub mod Results
pub mod RoundTrip
use mineos.Base.{ℕ, zero, suc, ◌+◌, ◌-◌, ℤ, pos, minus_one, if◌then◌else◌, ltb, ltb_ℤ, [], ◌∷◌}
use mineos.Math.{my_add, my_sub}
use mineos.Machine.{Machine, Out, text, chars}
use mineos.Memory.{memory_init, memory_used, memory_free}
use mineos.Memory.Layout.{ram_size}
use mineos.Text.{Tokens, str_at, text_fuel}
use mineos.Keyboard.{keyboard_restore}
use mineos.Screen.{
  screen_print_str, screen_clear, print_all, int_text, plain, red, green, yellow, cyan,
}
use mineos.Scheduler.Listing.{scheduler_list}

-- What printf prints of token `i`.
unfoldable pub token : Tokens → ℕ → Out
token t i = chars (str_at text_fuel t.input (t.tokens i))

-- The rounds that are left of the loop of `cmd_echo`.
unfoldable pub echo_loop : ℕ → ℕ → Tokens → Machine → Machine
echo_loop zero i t k = k
echo_loop (suc n) i t k =
    let k1 = screen_print_str (token t i) k in
    echo_loop n (i + 1) t
      (if ltb_ℤ (pos i) (my_sub (pos t.count) (pos 1)) then screen_print_str (text " ") k1 else k1)

unfoldable pub cmd_echo : Tokens → Machine → ℤ × Machine
cmd_echo t k = if ltb t.count 2 then (pos 0, screen_print_str (text "\n") k) else (
  pos 0,
  screen_print_str (text "\n") (echo_loop (t.count - 1) 1 t (screen_print_str (text "  ") k)),
)

unfoldable pub cmd_memstat : Machine → ℤ × Machine
cmd_memstat k =
    let used = memory_used k in
    let free_bytes = memory_free k in
    (
      pos 0,
      print_all
          (plain (text "\n")
            ∷ cyan (text "  ╔══════════════════════════════════╗\n")
            ∷ cyan (text "  ║       VIRTUAL RAM STATUS         ║\n")
            ∷ cyan (text "  ╠══════════════════════════════════╣\n")
            ∷ cyan (text "  ║  Total RAM     : ")
            ∷ plain (int_text (pos ram_size))
            ∷ cyan (text " bytes    ║\n")
            ∷ cyan (text "  ║  Data Region   : ")
            ∷ plain (int_text (my_add used free_bytes))
            ∷ cyan (text " bytes    ║\n")
            ∷ cyan (text "  ║  Used          : ")
            ∷ red (int_text used)
            ∷ cyan (text " bytes       ║\n")
            ∷ cyan (text "  ║  Free          : ")
            ∷ green (int_text free_bytes)
            ∷ cyan (text " bytes ║\n")
            ∷ cyan (text "  ╚══════════════════════════════════╝\n")
            ∷ plain (text "\n")
            ∷ [])
          k,
    )

unfoldable pub cmd_ps : Machine → ℤ × Machine
cmd_ps k = (pos 0, scheduler_list k)

unfoldable pub cmd_clear : Machine → ℤ × Machine
cmd_clear k = (pos 0, screen_clear k)

unfoldable pub cmd_exit : Machine → ℤ × Machine
cmd_exit k = (
  minus_one,
  keyboard_restore (
      print_all
        (plain (text "\n")
          ∷ yellow (text "  Shutting down MineOS...\n")
          ∷ green (text "  Goodbye!\n\n")
          ∷ [])
        k),
)

unfoldable pub cmd_halt : Machine → ℤ × Machine
cmd_halt k =
    let k1 =
      print_all
        (plain (text "\n")
          ∷ red (text "  ⚠  EMERGENCY SHUTDOWN INITIATED\n")
          ∷ red (text "  Wiping virtual RAM...\n")
          ∷ [])
        k in
    (
      minus_one,
      keyboard_restore (
          print_all (red (text "  RAM cleared. System halted.\n") ∷ plain (text "\n") ∷ [])
            (memory_init k1)),
    )
