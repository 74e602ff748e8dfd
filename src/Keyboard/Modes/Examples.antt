-- ===== src/Keyboard/Modes/Examples.antt =====
-- libs/keyboard.c with a terminal whose keys are a list.
use mineos.Base.{ℕ, ◌≡◌, refl, arith, ℤ, pos, true, false, List, [], ◌∷◌}
use mineos.Keyboard.Modes.{
  Termios, Terminal, KeyboardState, keyboard_init, keyboard_restore, key_pressed, read_char,
}
use mineos.Keyboard.Modes.Restored.{IsPosix, IsRaw, none_yet, then_pressed, then_read, restore-init}

abbrev Device : Type 0
Device = Termios ℕ × List ℕ

abbrev read_key : Device → ℤ × ℕ × Device
read_key (s, []) = (pos 0, 0, (s, []))
read_key (s, c ∷ keys) = (pos 1, c, (s, keys))

abbrev terminal : Terminal
terminal = record {
  Rest = ℕ;
  Tty = Device;
  icanon = 1;
  echo = 3;
  vmin = 6;
  vtime = 5;
  tcgetattr = λ d. d.0;
  tcsetattr_flush = λ s d. (s, []);
  tcsetattr_now = λ s d. (s, d.1);
  read = read_key;
}

terminal-IsPosix : IsPosix terminal
terminal-IsPosix = record {
  flush = λ s d. refl;
  now = λ s d. refl;
  reads = read_keeps;
  apart = λ e. omega arith;
}
  where
    read_keeps : (d : Device) → (read_key d).2.0 ≡ d.0
    read_keeps (s, []) = refl
    read_keeps (s, c ∷ keys) = refl

abbrev cooked : Termios ℕ
cooked = record { c_lflag = λ f. true; c_cc = λ j. 4; rest = 7 }

abbrev before : KeyboardState terminal
before = record { tty = (cooked, b'x' ∷ []); original_termios = cooked; raw_mode_active = false }

abbrev used : KeyboardState terminal
used = (read_char terminal (key_pressed terminal (keyboard_init terminal before)).1).1

restore-init_example :
    IsRaw terminal cooked used.tty.0
    × ((keyboard_restore terminal used).tty.0 ≡ cooked)
    × (keyboard_restore terminal (keyboard_restore terminal used) ≡ keyboard_restore terminal used)
restore-init_example =
    restore-init terminal terminal-IsPosix before used (then_read _ (then_pressed _ none_yet))
