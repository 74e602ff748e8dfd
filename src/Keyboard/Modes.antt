-- ===== src/Keyboard/Modes.antt =====
-- The functions of libs/keyboard.c that set the terminal's mode, and the two that read a single
-- character. What <termios.h> and <unistd.h> offer is a parameter.
pub mod Restored
mod Examples
use mineos.Base.{ℕ, ℤ, pos, Bool, true, false, ◌==◌, ◌||◌, if◌then◌else◌, ltb_ℤ}

-- `struct termios`: the flags of c_lflag by their bit, the special characters by their index, and the
-- other members.
pub record Termios (Rest : Type 0) : Type 0 where
  pub c_lflag : ℕ → Bool
  pub c_cc : ℕ → ℕ
  pub rest : Rest

-- The terminal behind stdin and the calls on it. `tcsetattr` has a function for each of the two
-- actions; `read` of one byte returns the count, the byte if there is one, and the terminal behind.
pub record Terminal : Type 1 where
  pub Rest : Type 0
  pub Tty : Type 0
  pub icanon : ℕ
  pub echo : ℕ
  pub vmin : ℕ
  pub vtime : ℕ
  pub tcgetattr : Tty → Termios Rest
  pub tcsetattr_flush : Termios Rest → Tty → Tty
  pub tcsetattr_now : Termios Rest → Tty → Tty
  pub read : Tty → ℤ × ℕ × Tty

module _ (t : Terminal) where
  open t use {Rest, Tty, icanon, echo, vmin, vtime, tcgetattr, tcsetattr_flush, tcsetattr_now, read}

  -- The terminal, and the two static variables.
  pub record KeyboardState : Type 0 where
    pub tty : Tty
    pub original_termios : Termios Rest
    pub raw_mode_active : Bool

  unfoldable pub set_cc : ℕ → ℕ → Termios Rest → Termios Rest
  set_cc i v s = record s { c_cc = λ j. if j == i then v else s.c_cc j }

  unfoldable pub raw_mode : Termios Rest → Termios Rest
  raw_mode s = set_cc vtime 0 (
      set_cc vmin 1
        (record s { c_lflag = λ f. if f == icanon || f == echo then false else s.c_lflag f }))

  unfoldable pub keyboard_init : KeyboardState → KeyboardState
  keyboard_init k = record {
    tty = tcsetattr_flush (raw_mode (tcgetattr k.tty)) k.tty;
    original_termios = tcgetattr k.tty;
    raw_mode_active = true;
  }

  unfoldable pub keyboard_restore : KeyboardState → KeyboardState
  keyboard_restore k =
      if k.raw_mode_active
      then record k { tty = tcsetattr_flush k.original_termios k.tty; raw_mode_active = false }
      else k

  -- The end of `key_pressed`, by the result of `read`.
  unfoldable pub blocking_again : Termios Rest → ℤ × ℕ × Tty → KeyboardState → ℤ × KeyboardState
  blocking_again tmp (result, c, tty) k = (
    if ltb_ℤ (pos 0) result then pos 1 else pos 0,
    record k { tty = tcsetattr_now (set_cc vmin 1 tmp) tty },
  )

  unfoldable pub key_pressed : KeyboardState → ℤ × KeyboardState
  key_pressed k =
      let tmp = set_cc vtime 0 (set_cc vmin 0 (tcgetattr k.tty)) in
      blocking_again tmp (read (tcsetattr_now tmp k.tty)) k

  unfoldable pub char_of : ℤ × ℕ × Tty → KeyboardState → ℕ × KeyboardState
  char_of (result, c, tty) k = (if ltb_ℤ (pos 0) result then c else 0, record k { tty = tty })

  unfoldable pub read_char : KeyboardState → ℕ × KeyboardState
  read_char k = char_of (read k.tty) k
