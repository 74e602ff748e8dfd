-- ===== src/Keyboard/Modes/Restored.antt =====
-- The settings of the terminal between `keyboard_init` and `keyboard_restore` (libs/keyboard.c).
use mineos.Base.{ℕ, ◌≡◌, ◌≢◌, refl, ◌∙◌, true, false, arith}
use mineos.Keyboard.Modes.{
  Termios, Terminal, KeyboardState, set_cc, raw_mode, keyboard_init, keyboard_restore, key_pressed,
  blocking_again, read_char, char_of,
}

-- What POSIX says of the calls: settings that are set are those that are got, `read` keeps them, and
-- the two special characters have different indices.
pub record IsPosix (t : Terminal) : Type 0 where
  pub flush : (s : Termios t.Rest) (d : t.Tty) → t.tcgetattr (t.tcsetattr_flush s d) ≡ s
  pub now : (s : Termios t.Rest) (d : t.Tty) → t.tcgetattr (t.tcsetattr_now s d) ≡ s
  pub reads : (d : t.Tty) → t.tcgetattr (t.read d).2 ≡ t.tcgetattr d
  pub apart : t.vmin ≢ t.vtime

-- The settings `s` are `orig` without line buffering and echo, and with a `read` that waits for one
-- character.
pub record IsRaw (t : Terminal) (orig s : Termios t.Rest) : Type 0 where
  pub no_canon : s.c_lflag t.icanon ≡ false
  pub no_echo : s.c_lflag t.echo ≡ false
  pub one : s.c_cc t.vmin ≡ 1
  pub no_timeout : s.c_cc t.vtime ≡ 0
  pub flags : (f : ℕ) → f ≢ t.icanon → f ≢ t.echo → s.c_lflag f ≡ orig.c_lflag f
  pub chars : (j : ℕ) → j ≢ t.vmin → j ≢ t.vtime → s.c_cc j ≡ orig.c_cc j
  pub others : s.rest ≡ orig.rest

-- Calls of `key_pressed` and `read_char`, one after the other.
pub data Uses (t : Terminal) (k : KeyboardState t) : KeyboardState t → Type 0 where
  none_yet : Uses t k k
  then_pressed : (k' : KeyboardState t) → Uses t k k' → Uses t k (key_pressed t k').1
  then_read : (k' : KeyboardState t) → Uses t k k' → Uses t k (read_char t k').1

module _ (t : Terminal) (posix : IsPosix t) where
  open t use {Rest, Tty, icanon, echo, vmin, vtime, tcgetattr}

  raw_mode-IsRaw : (s : Termios Rest) → IsRaw t s (raw_mode t s)
  unfolding raw_mode set_cc
  raw_mode-IsRaw s =
      let apart = posix.apart in
      record {
        no_canon = ground arith;
        no_echo = ground arith;
        one = ground arith;
        no_timeout = ground arith;
        flags = λ f a b. ground arith;
        chars = λ j a b. ground arith;
        others = refl;
      }

  -- The settings that `key_pressed` leaves.
  pressed-IsRaw :
      (orig s : Termios Rest)
      → IsRaw t orig s
      → IsRaw t orig (set_cc t vmin 1 (set_cc t vtime 0 (set_cc t vmin 0 s)))
  unfolding set_cc
  pressed-IsRaw orig s v =
      let apart = posix.apart in
      record {
        no_canon = v.no_canon;
        no_echo = v.no_echo;
        one = ground arith;
        no_timeout = ground arith;
        flags = v.flags;
        chars = λ j a b. ground (arith, v.chars j a b);
        others = v.others;
      }

  -- In raw mode, with the settings to go back to.
  record InRaw (orig : Termios Rest) (k : KeyboardState t) : Type 0 where
    active : k.raw_mode_active ≡ true
    saved : k.original_termios ≡ orig
    settings : IsRaw t orig (tcgetattr k.tty)

  init-InRaw : (k : KeyboardState t) → InRaw (tcgetattr k.tty) (keyboard_init t k)
  unfolding keyboard_init
  init-InRaw k = record {
    active = refl;
    saved = refl;
    settings =
        rw (posix.flush (raw_mode t (tcgetattr k.tty)) k.tty) (raw_mode-IsRaw (tcgetattr k.tty));
  }

  pressed-InRaw :
      (orig : Termios Rest) (k : KeyboardState t) → InRaw orig k → InRaw orig (key_pressed t k).1
  unfolding key_pressed blocking_again
  pressed-InRaw orig k v = record {
    active = v.active;
    saved = v.saved;
    settings = rw (posix.now _ _) (pressed-IsRaw orig (tcgetattr k.tty) v.settings);
  }

  read-InRaw :
      (orig : Termios Rest) (k : KeyboardState t) → InRaw orig k → InRaw orig (read_char t k).1
  unfolding read_char char_of
  read-InRaw orig k v = record {
    active = v.active;
    saved = v.saved;
    settings = rw (posix.reads k.tty) v.settings;
  }

  Uses-InRaw :
      (orig : Termios Rest) (k k' : KeyboardState t) → InRaw orig k → Uses t k k' → InRaw orig k'
  Uses-InRaw orig k k' v none_yet = v
  Uses-InRaw orig k k' v (then_pressed k1 uses) =
      pressed-InRaw orig k1 (Uses-InRaw orig k k1 v uses)
  Uses-InRaw orig k k' v (then_read k1 uses) = read-InRaw orig k1 (Uses-InRaw orig k k1 v uses)

  -- Behind `keyboard_init` and any calls of `key_pressed` and `read_char`, the settings of the terminal
  -- are those before without line buffering and echo, with a `read` that waits for one
  -- character, and all else in them is as before; `keyboard_restore` then brings back exactly the
  -- settings before, and called again it does nothing.
  pub restore-init :
      (k k' : KeyboardState t)
      → Uses t (keyboard_init t k) k'
      → IsRaw t (tcgetattr k.tty) (tcgetattr k'.tty)
        × (tcgetattr (keyboard_restore t k').tty ≡ tcgetattr k.tty)
        × (keyboard_restore t (keyboard_restore t k') ≡ keyboard_restore t k')
  unfolding keyboard_restore
  restore-init k k' uses =
      let v = Uses-InRaw (tcgetattr k.tty) (keyboard_init t k) k' (init-InRaw k) uses in
      (v.settings, rw v.active (posix.flush k'.original_termios k'.tty ∙ v.saved), rw v.active refl)
