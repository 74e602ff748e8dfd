-- ===== src/Screen/Banner.antt =====
-- `screen_boot_banner` of libs/screen.c.
use mineos.Base.{[], ◌∷◌, pos}
use mineos.Machine.{Machine, text}
use mineos.Screen.{
  emit, screen_clear, screen_print_str, screen_print_color, screen_draw_line, print_all, green,
  bold, cyan, color_green,
}

unfoldable pub screen_logo : Machine → Machine
screen_logo = print_all (
    green (text "  ███╗   ███╗██╗███╗   ██╗███████╗ ██████╗ ███████╗\n")
    ∷ green (text "  ████╗ ████║██║████╗  ██║██╔════╝██╔═══██╗██╔════╝\n")
    ∷ green (text "  ██╔████╔██║██║██╔██╗ ██║█████╗  ██║   ██║███████╗\n")
    ∷ green (text "  ██║╚██╔╝██║██║██║╚██╗██║██╔══╝  ██║   ██║╚════██║\n")
    ∷ green (text "  ██║ ╚═╝ ██║██║██║ ╚████║███████╗╚██████╔╝███████║\n")
    ∷ green (text "  ╚═╝     ╚═╝╚═╝╚═╝  ╚═══╝╚══════╝ ╚═════╝ ╚══════╝\n")
    ∷ [])

-- The mark behind the dots of a boot message.
unfoldable pub ok_mark : Machine → Machine
ok_mark k = screen_print_color (text " [  OK  ]\n") color_green k

unfoldable pub screen_boot_banner : Machine → Machine
unfolding screen_logo ok_mark
screen_boot_banner k0 =
    let k1 = emit (text "\n" ∷ []) (screen_clear k0) in
    let k2 = emit (text "\n" ∷ []) (screen_logo k1) in
    let k3 =
      print_all
        (bold (text "  MineOS v1.0")
          ∷ cyan (text " — Built by Execution Unit | Newton School of Technology\n")
          ∷ [])
        k2 in
    let k4 = screen_print_str (text "  Initializing virtual RAM") (emit (text "\n" ∷ []) k3) in
    let k5 = ok_mark (screen_draw_line b'.' (pos 11) k4) in
    let k6 = screen_print_str (text "  Mounting file system") k5 in
    let k7 = ok_mark (screen_draw_line b'.' (pos 15) k6) in
    let k8 = screen_print_str (text "  Starting scheduler") k7 in
    let k9 = ok_mark (screen_draw_line b'.' (pos 17) k8) in
    let k10 = screen_print_str (text "  Booting shell") k9 in
    let k11 = ok_mark (screen_draw_line b'.' (pos 22) k10) in emit (text "\n" ∷ []) k11
