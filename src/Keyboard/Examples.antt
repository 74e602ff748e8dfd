-- ===== src/Keyboard/Examples.antt =====
-- libs/keyboard.c at concrete inputs.
use mineos.Base.{◌≡◌, refl, arith, true, [], ◌∷◌, pos, none, codes}
use mineos.Machine.{Machine}
use mineos.Text.{unset}
use mineos.Keyboard.{read_line, is_enter, is_backspace, is_printable}
use mineos.Text.Backwards.{onto}
use mineos.Keyboard.Line.{press_all, Returns, read_line-press_all}

abbrev idle : Machine
idle = record {
  ram = unset;
  current_user = unset;
  next_inode_id = 0;
  global_ticks = pos 0;
  raw_mode_active = true;
  printed = [];
  image = none;
}

-- A backspace, a key that is not printable, and a key too many.
spelled : onto (press_all 3 (b'l' ∷ b'x' ∷ 127 ∷ 9 ∷ b's' ∷ b'!' ∷ b'?' ∷ []) []) [] ≡ codes "ls!"
unfolding is_backspace is_printable
spelled = refl

read_line-press_all_example :
    Returns unset 3
      (press_all 3 (b'l' ∷ 127 ∷ b's' ∷ []) [])
      (b'q' ∷ [])
      (read_line (b'l' ∷ 127 ∷ b's' ∷ 13 ∷ b'q' ∷ []) (pos 4) unset idle)
unfolding is_enter
read_line-press_all_example =
    read_line-press_all (b'l' ∷ 127 ∷ b's' ∷ []) 3 13 (b'q' ∷ []) unset idle (omega arith)
      (refl, (refl, (refl, tt))) refl
