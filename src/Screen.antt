-- ===== src/Screen.antt =====
-- The functions of libs/screen.c, which append to what has been printed. Flushing is not modelled.
pub mod OnlyPrints
pub mod Banner
use mineos.Base.{
  ℕ, zero, suc, ℤ, pos, Option, none, some, Bool, true, false, List, [], ◌∷◌, ◌++◌, String,
  if◌then◌else◌, get_or, pos_part,
}
use mineos.Math.{in_bounds}
use mineos.Machine.{Machine, Out, text, chars, number}
use mineos.Text.{my_int_to_str, str_at, text_fuel, unset}

-- printf("%s", …) for one piece after the other.
unfoldable pub emit : List Out → Machine → Machine
emit os k = record k { printed = k.printed ++ os }

abbrev pub color_reset : ℤ
color_reset = pos 0

abbrev pub color_red : ℤ
color_red = pos 1

abbrev pub color_green : ℤ
color_green = pos 2

abbrev pub color_yellow : ℤ
color_yellow = pos 3

abbrev pub color_blue : ℤ
color_blue = pos 4

abbrev pub color_cyan : ℤ
color_cyan = pos 5

abbrev pub color_bold : ℤ
color_bold = pos 6

abbrev pub color_magenta : ℤ
color_magenta = pos 7

abbrev pub ansi_codes : List String
ansi_codes =
    "\u{1b}[0m" ∷ "\u{1b}[31m" ∷ "\u{1b}[32m" ∷ "\u{1b}[33m" ∷ "\u{1b}[34m" ∷ "\u{1b}[36m"
    ∷ "\u{1b}[1m" ∷ "\u{1b}[35m" ∷ "\u{1b}[37m" ∷ []

unfoldable pub screen_print_str : Out → Machine → Machine
unfolding emit
screen_print_str s = emit (s ∷ [])

unfoldable pub screen_print_color : Out → ℤ → Machine → Machine
unfolding emit
screen_print_color s color =
    if in_bounds color (pos 0) (pos 8)
    then emit
        (text (get_or ansi_codes (pos_part color) "") ∷ s ∷ text (get_or ansi_codes 0 "") ∷ [])
    else emit (s ∷ [])

unfoldable pub screen_clear : Machine → Machine
unfolding emit
screen_clear = emit (text "\u{1b}[2J\u{1b}[H" ∷ [])

unfoldable pub screen_move_cursor : ℤ → ℤ → Machine → Machine
unfolding emit
screen_move_cursor row col =
    emit (text "\u{1b}[" ∷ number row ∷ text ";" ∷ number col ∷ text "H" ∷ [])

unfoldable pub screen_print_char : ℕ → Machine → Machine
unfolding emit
screen_print_char c = emit (chars (c ∷ []) ∷ [])

-- The text that `my_int_to_str` leaves in a buffer: what the buffer held before stands behind it.
unfoldable pub int_text : ℤ → Out
int_text n = chars (str_at text_fuel (my_int_to_str n unset) 0)

unfoldable pub screen_print_int : ℤ → Machine → Machine
unfolding emit
screen_print_int n = emit (int_text n ∷ [])

-- The rounds that are left of the loop of `screen_draw_line`.
unfoldable pub draw_loop : ℕ → ℕ → Machine → Machine
draw_loop zero c k = k
draw_loop (suc n) c k = draw_loop n c (emit (chars (c ∷ []) ∷ []) k)

unfoldable pub screen_draw_line : ℕ → ℤ → Machine → Machine
screen_draw_line c length k = draw_loop (pos_part length) c k

unfoldable pub screen_newline : Machine → Machine
unfolding emit
screen_newline = emit (text "\n" ∷ [])

-- Calls of `screen_print_color` and of `screen_print_str` one after the other: a text with its
-- color, or with none.
unfoldable pub print_all : List (Out × Option ℤ) → Machine → Machine
print_all [] k = k
print_all ((s, none) ∷ rest) k = print_all rest (screen_print_str s k)
print_all ((s, some color) ∷ rest) k = print_all rest (screen_print_color s color k)

-- Entries of such a list.
abbrev pub plain : Out → Out × Option ℤ
plain s = (s, none)

abbrev pub red : Out → Out × Option ℤ
red s = (s, some color_red)

abbrev pub green : Out → Out × Option ℤ
green s = (s, some color_green)

abbrev pub yellow : Out → Out × Option ℤ
yellow s = (s, some color_yellow)

abbrev pub cyan : Out → Out × Option ℤ
cyan s = (s, some color_cyan)

abbrev pub bold : Out → Out × Option ℤ
bold s = (s, some color_bold)
