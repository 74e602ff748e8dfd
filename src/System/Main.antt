-- ===== src/System/Main.antt =====
-- The boot sequence of main.c and the invariant.
use mineos.Base.{
  ℕ, zero, suc, ◌<◌, ◌≡◌, refl, ◌∙◌, sym, subst, arith, ℤ, pos, List, [], ◌∷◌, length, true, none,
}
use mineos.Machine.{Machine, Out, text}
use mineos.Memory.{memory_init}
use mineos.Memory.Chain.{block}
use mineos.Memory.Init.{whole, memory_init-IsHeap}
use mineos.Text.Strings.{IsString}
use mineos.Screen.{screen_clear, screen_print_str, draw_loop, screen_draw_line, color_green}
use mineos.Screen.Banner.{screen_logo, ok_mark, screen_boot_banner}
use mineos.Screen.OnlyPrints.{
  OnlyPrints-refl, OnlyPrints, OnlyPrints-trans, emit-OnlyPrints, str-OnlyPrints, color-OnlyPrints,
  next_id-OnlyPrints, ram-OnlyPrints,
}
use mineos.Keyboard.{keyboard_init}
use mineos.Scheduler.{scheduler_init}
use mineos.Fs.{fs_init}
use mineos.Commands.Prints.{print_all-OnlyPrints}
use mineos.Shell.{boot}
use mineos.System.{IsSystem, Shows}
use mineos.System.Create.{IsSystem-OnlyPrints, Shows-OnlyPrints}
use mineos.System.Six.{IsSix}
use mineos.System.Commands.{IsGiven}
use mineos.System.Boot.{fs_init-IsSystem, scheduler_init-IsSystem}
use mineos.System.Dispatch.{IsReady}

draw_loop-OnlyPrints : (n c : ℕ) (k : Machine) → OnlyPrints k (draw_loop n c k)
unfolding draw_loop
draw_loop-OnlyPrints zero c k = OnlyPrints-refl k
draw_loop-OnlyPrints (suc n) c k =
    OnlyPrints-trans k _ _ (emit-OnlyPrints _ k) (draw_loop-OnlyPrints n c _)

-- The message of one part of the start, with its dots.
message-OnlyPrints :
    (s : Out) (n : ℤ) (k : Machine)
    → OnlyPrints k (ok_mark (screen_draw_line b'.' n (screen_print_str s k)))
unfolding ok_mark screen_draw_line
message-OnlyPrints s n k =
    OnlyPrints-trans k _ _ (str-OnlyPrints s k)
      (OnlyPrints-trans _ _ _ (draw_loop-OnlyPrints _ b'.' _) (color-OnlyPrints _ color_green _))

banner-OnlyPrints : (k : Machine) → OnlyPrints k (screen_boot_banner k)
unfolding screen_boot_banner screen_logo screen_clear
banner-OnlyPrints k =
    let o1 = OnlyPrints-trans k _ _ (emit-OnlyPrints _ k) (emit-OnlyPrints _ _) in
    let o2 = OnlyPrints-trans k _ _ o1 (print_all-OnlyPrints _ _) in
    let o3 = OnlyPrints-trans k _ _ o2 (emit-OnlyPrints _ _) in
    let o4 = OnlyPrints-trans k _ _ o3 (print_all-OnlyPrints _ _) in
    let o5 = OnlyPrints-trans k _ _ o4 (emit-OnlyPrints _ _) in
    let o6 =
      OnlyPrints-trans k _ _ o5
        (message-OnlyPrints (text "  Initializing virtual RAM") (pos 11) _) in
    let o7 =
      OnlyPrints-trans k _ _ o6 (message-OnlyPrints (text "  Mounting file system") (pos 15) _) in
    let o8 =
      OnlyPrints-trans k _ _ o7 (message-OnlyPrints (text "  Starting scheduler") (pos 17) _) in
    let o9 = OnlyPrints-trans k _ _ o8 (message-OnlyPrints (text "  Booting shell") (pos 22) _) in
    OnlyPrints-trans k _ _ o9 (emit-OnlyPrints _ _)

pub boot-IsReady :
    (k : Machine) (t : List ℕ)
    → IsString k.current_user 0 t
    → length t < 32
    → (r : IsReady (pos 3) (boot k)) × Shows (boot k) r.system (λ _. none)
      × ((boot k).next_inode_id ≡ 6)
      × IsSix (boot k).ram t
unfolding boot memory_init keyboard_init
boot-IsReady k t user short =
    let (heap, rest) = memory_init-IsHeap k in
    let m = memory_init k in
    let (files, bare, six, names) = fs_init-IsSystem m t user short (block whole true ∷ []) heap in
    let raw = keyboard_init (fs_init m) in
    let typed : IsSystem raw = record {
      tree = files.tree;
      blocks = files.blocks;
      store = files.store;
    } in
    let (tables, keep_names, keep, next) = scheduler_init-IsSystem raw typed in
    let quiet = banner-OnlyPrints (scheduler_init raw) in
    let shown = IsSystem-OnlyPrints _ _ quiet tables in
    let n = next_id-OnlyPrints quiet ∙ next ∙ six in
    let six_dirs : IsSix (boot k).ram t =
      subst (λ m. IsSix m t) (sym (ram-OnlyPrints quiet)) (keep_names t names) in
    let home : IsGiven (boot k) (pos 3) =
      (3, omega arith, refl, six_dirs.directory 3 (omega arith)) in
    (
      record { system = shown; home = home; at = home },
      Shows-OnlyPrints _ _ quiet tables (λ _. none) (keep (λ _. none) bare),
      n,
      six_dirs,
    )
