-- ===== src/Keyboard.antt =====
-- libs/keyboard.c: `read_line` over the list of the characters that `read_char` returns, and the flag
-- that the two mode functions keep; what they do to the terminal is in Modes.
pub mod Line
pub mod Reads
pub mod Modes
mod Examples
use mineos.Base.{
  ℕ, true, false, zero, suc, ◌+◌, ◌-◌, ◌==◌, Bool, ◌||◌, ◌&&◌, if◌then◌else◌, leb, ltb, Option,
  none, some, List, [], ◌∷◌, pos, pos_part, ℤ,
}
use mineos.Math.{my_sub}
use mineos.Bytes.{Bytes, put}
use mineos.Machine.{Machine, text, chars}
use mineos.Screen.{emit}

unfoldable pub is_enter : ℕ → Bool
is_enter c = c == 13 || c == 10

unfoldable pub is_backspace : ℕ → Bool
is_backspace c = c == 127 || c == 8

-- A `char` from 128 on is negative, and fails the test too.
unfoldable pub is_printable : ℕ → Bool
is_printable c = leb 32 c && ltb c 127

-- The buffer, the machine and the keys that are left when the function returns.
abbrev pub Line : Type 0
Line = Bytes × Machine × List ℕ

-- The loop, with the variables `pos` and `limit`. It does not return while no Enter is among the
-- keys.
unfoldable pub read_loop : List ℕ → ℕ → ℕ → Bytes → Machine → Option Line
read_loop [] limit p buf k = none
read_loop (c ∷ keys) limit p buf k =
    let erased = read_loop keys limit (p - 1) buf (emit (text "\u{8} \u{8}" ∷ []) k) in
    let typed = read_loop keys limit (p + 1) (put buf p c) (emit (chars (c ∷ []) ∷ []) k) in
    let ignored = read_loop keys limit p buf k in
    if is_enter c
    then some (put buf p 0, emit (text "\n" ∷ []) k, keys)
    else if is_backspace c
    then if ltb 0 p then erased else ignored
    else if is_printable c
    then if ltb p limit then typed else ignored
    else ignored

unfoldable pub read_line : List ℕ → ℤ → Bytes → Machine → Option Line
read_line keys max_len buf k = read_loop keys (pos_part (my_sub max_len (pos 1))) 0 buf k

unfoldable pub keyboard_init : Machine → Machine
keyboard_init k = record k { raw_mode_active = true }

unfoldable pub keyboard_restore : Machine → Machine
keyboard_restore k = if k.raw_mode_active then record k { raw_mode_active = false } else k
