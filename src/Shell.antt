-- ===== src/Shell.antt =====
-- The loop of core/shell.c over the characters that come in, and the boot sequence of main.c.
pub mod Lines
pub mod Exits
mod Examples
use mineos.Base.{
  ℕ, zero, suc, ◌+◌, ℤ, pos, minus_one, Bool, true, false, not, if◌then◌else◌, ◌==◌, eqb_ℤ, Option,
  none, some, List, [], ◌∷◌, length,
}
use mineos.Bytes.{Bytes}
use mineos.Machine.{Machine, text, chars}
use mineos.Memory.{memory_init}
use mineos.Text.{my_strlen, my_str_trim, my_tokenize, Tokens, str_at, text_fuel, unset}
use mineos.Keyboard.{Line, read_line, keyboard_init, keyboard_restore}
use mineos.Screen.{print_all, bold, green, cyan}
use mineos.Screen.Banner.{screen_boot_banner}
use mineos.Scheduler.{scheduler_init, scheduler_tick}
use mineos.Fs.{fs_init}
use mineos.Fs.Paths.{fs_get_path}
use mineos.Commands.Image.{Stdio}
use mineos.Commands.Files.{Moved}
use mineos.Commands.Dispatch.{command_dispatch}

-- The machine, and the variables of `shell_run` that live on from one round to the next.
pub record Session : Type 0 where
  pub machine : Machine
  pub current_dir : ℤ
  pub input : Bytes
  pub tokens : ℕ → ℕ
  pub path : Bytes

-- The path and the prompt.
unfoldable pub prompt : Session → Session
prompt s =
    let path = fs_get_path s.current_dir s.path s.machine in
    record s {
      path = path;
      machine =
          print_all
            (bold (text "[")
              ∷ green (chars (str_at text_fuel s.machine.current_user 0))
              ∷ green (text "@mine ")
              ∷ cyan (chars (str_at text_fuel path 0))
              ∷ bold (text "]$ ")
              ∷ [])
            s.machine;
    }

-- Whether the loop goes on, and the session.
abbrev pub Round : Type 0
Round = Bool × Session

-- The end of a round, by the result of `command_dispatch`.
unfoldable pub finish_round : Session → Moved → Round
finish_round s (result, current_dir, k) = (
  not (eqb_ℤ result minus_one),
  record s { machine = scheduler_tick k; current_dir = current_dir },
)

unfoldable pub dispatch_tokens : Stdio → Session → Tokens → Round
dispatch_tokens io s t =
    let s' = record s { input = t.input; tokens = t.tokens } in
    if t.count == 0
    then (true, s')
    else finish_round s' (command_dispatch io t s.current_dir s.machine)

-- A round from the line that `read_line` leaves in `input`.
unfoldable pub run_line : Stdio → Session → Round
run_line io s =
    let input = my_str_trim s.input in
    if my_strlen input 0 == 0
    then (true, record s { input = input })
    else dispatch_tokens io s (my_tokenize input s.tokens b' ')

-- How a run ends: the shell has left its loop, and some keys may be left; or it waits for keys.
pub data Outcome : Type 0 where
  exited : Session → List ℕ → Outcome
  waiting : Session → Outcome
  out_of_fuel : Outcome

-- A round whose line has been read, before the next one.
unfoldable pub after_read : Stdio → Session → Line → Round × List ℕ
after_read io s (input, k, keys) = (run_line io (record s { input = input; machine = k }), keys)

-- The loop goes on with the keys that are left, or it is left.
unfoldable pub continue : Round × List ℕ → (Session → List ℕ → Outcome) → Outcome
continue ((true, s), keys) loop = loop s keys
continue ((false, s), keys) loop = exited s keys

-- A round needs a line: without an Enter among the keys, `read_line` does not return.
unfoldable pub on_line : Option Line → Stdio → Session → (Session → List ℕ → Outcome) → Outcome
on_line none io s loop = waiting s
on_line (some line) io s loop = continue (after_read io s line) loop

unfoldable pub shell_loop : ℕ → Stdio → Session → List ℕ → Outcome
shell_loop zero io s keys = out_of_fuel
shell_loop (suc fuel) io s keys =
    let loop = shell_loop fuel io in
    on_line (read_line keys (pos 256) s.input (prompt s).machine) io (prompt s) loop

-- The variables of `shell_run` before the loop.
abbrev pub first_session : Machine → Session
first_session k = record {
  machine = k;
  current_dir = pos 3;
  input = unset;
  tokens = λ i. 0;
  path = unset;
}

-- Every round takes an Enter from the keys.
unfoldable pub shell_run : Stdio → Machine → List ℕ → Outcome
shell_run io k keys = shell_loop (length keys + 1) io (first_session k) keys

-- `main` up to the shell.
unfoldable pub boot : Machine → Machine
boot k = screen_boot_banner (scheduler_init (keyboard_init (fs_init (memory_init k))))

-- `main` behind the shell.
unfoldable pub shut_down : Outcome → Outcome
shut_down (exited s keys) = exited (record s { machine = keyboard_restore s.machine }) keys
shut_down (waiting s) = waiting s
shut_down out_of_fuel = out_of_fuel

unfoldable pub main : Stdio → Machine → List ℕ → Outcome
main io k keys = shut_down (shell_run io (boot k) keys)
