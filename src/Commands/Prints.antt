-- ===== src/Commands/Prints.antt =====
-- What prints only: runs of messages, `fs_list` (core/fs.c) and `scheduler_list` (core/scheduler.c).
use mineos.Base.{
  ℕ, zero, suc, ◌+◌, ℤ, pos, not, eqb_ℤ, Bool, true, false, if◌then◌else◌, if_cases, Option, none,
  some, List, [], ◌∷◌,
}
use mineos.Machine.{Machine, Out, text}
use mineos.Bytes.{Bytes, read_int}
use mineos.Screen.{print_all, color_red, color_yellow}
use mineos.Screen.OnlyPrints.{
  OnlyPrints, OnlyPrints-refl, OnlyPrints-trans, str-OnlyPrints, color-OnlyPrints,
}
use mineos.Fs.{children_fuel, is_dir, fs_get_inode}
use mineos.Fs.Layout.{child_count_at}
use mineos.Fs.Paths.{list_child, list_loop, list_in, fs_list}
use mineos.Memory.Layout.{max_processes}
use mineos.Scheduler.{get_process}
use mineos.Scheduler.Listing.{pad_loop, pad, list_row, list_slot, rows_loop, scheduler_list}

pub print_all-OnlyPrints : (l : List (Out × Option ℤ)) (k : Machine) → OnlyPrints k (print_all l k)
unfolding print_all
print_all-OnlyPrints [] k = OnlyPrints-refl k
print_all-OnlyPrints ((s, none) ∷ l) k =
    OnlyPrints-trans k _ _ (str-OnlyPrints s k) (print_all-OnlyPrints l _)
print_all-OnlyPrints ((s, some c) ∷ l) k =
    OnlyPrints-trans k _ _ (color-OnlyPrints s c k) (print_all-OnlyPrints l _)

-- A choice between two machines.
pub if-OnlyPrints :
    (k : Machine) (b : Bool) (k1 k2 : Machine)
    → OnlyPrints k k1
    → OnlyPrints k k2
    → OnlyPrints k (if b then k1 else k2)
if-OnlyPrints k true k1 k2 h g = h
if-OnlyPrints k false k1 k2 h g = g

-- The listing of a directory.
list_child-OnlyPrints : (m : Bytes) (o : Option ℕ) (k : Machine) → OnlyPrints k (list_child m o k)
unfolding list_child
list_child-OnlyPrints m none k = OnlyPrints-refl k
list_child-OnlyPrints m (some c) k =
    let start = str-OnlyPrints (text "  ") k in
    if-OnlyPrints k _ _ _ (OnlyPrints-refl k) (
      if-OnlyPrints k _ _ _
        (OnlyPrints-trans k _ _ start (
          OnlyPrints-trans _ _ _ (color-OnlyPrints _ _ _)
            (OnlyPrints-trans _ _ _ (color-OnlyPrints _ _ _) (str-OnlyPrints _ _))))
        (OnlyPrints-trans k _ _ start
          (OnlyPrints-trans _ _ _ (color-OnlyPrints _ _ _) (str-OnlyPrints _ _))))

list_loop-OnlyPrints : (fuel i p : ℕ) (k : Machine) → OnlyPrints k (list_loop fuel i p k)
unfolding list_loop
list_loop-OnlyPrints zero i p k = OnlyPrints-refl k
list_loop-OnlyPrints (suc fuel) i p k =
    if-OnlyPrints k _ _ _
      (OnlyPrints-trans k _ _ (list_child-OnlyPrints _ _ k) (list_loop-OnlyPrints fuel (i + 1) p _))
      (OnlyPrints-refl k)

list_in-OnlyPrints : (o : Option ℕ) (k : Machine) → OnlyPrints k (list_in o k)
unfolding list_in
list_in-OnlyPrints none k = color-OnlyPrints _ _ k
list_in-OnlyPrints (some p) k =
    if-OnlyPrints k (not (is_dir k.ram p)) _ _
      (color-OnlyPrints (text "[fs] Error: not a directory\n") color_red k)
      (if-OnlyPrints k (eqb_ℤ (read_int k.ram (child_count_at p)) (pos 0)) _ _
        (color-OnlyPrints (text "  (empty)\n") color_yellow k)
        (list_loop-OnlyPrints children_fuel 0 p k))

-- The process table.
pad_loop-OnlyPrints : (n : ℕ) (k : Machine) → OnlyPrints k (pad_loop n k)
unfolding pad_loop
pad_loop-OnlyPrints zero k = OnlyPrints-refl k
pad_loop-OnlyPrints (suc n) k =
    OnlyPrints-trans k _ _ (str-OnlyPrints _ k) (pad_loop-OnlyPrints n _)

list_row-OnlyPrints : (m : Bytes) (p : ℕ) (k : Machine) → OnlyPrints k (list_row m p k)
unfolding list_row pad
list_row-OnlyPrints m p k = OnlyPrints-trans k _ _ (print_all-OnlyPrints _ k) (
    OnlyPrints-trans _ _ _ (pad_loop-OnlyPrints _ _) (
      OnlyPrints-trans _ _ _ (print_all-OnlyPrints _ _)
        (OnlyPrints-trans _ _ _ (pad_loop-OnlyPrints _ _) (print_all-OnlyPrints _ _))))

list_slot-OnlyPrints : (o : Option ℕ) (n : ℕ) (k : Machine) → OnlyPrints k (list_slot o (n, k)).1
unfolding list_slot
list_slot-OnlyPrints none n k = OnlyPrints-refl k
list_slot-OnlyPrints (some p) n k =
    if_cases (λ (r : ℕ × Machine). OnlyPrints k r.1) _ _ _ (λ e. list_row-OnlyPrints k.ram p k)
      (λ e. OnlyPrints-refl k)

rows_loop-OnlyPrints :
    (n i c : ℕ) (k0 k : Machine) → OnlyPrints k0 k → OnlyPrints k0 (rows_loop n i (c, k)).1
unfolding rows_loop
rows_loop-OnlyPrints zero i c k0 k o = o
rows_loop-OnlyPrints (suc n) i c k0 k o =
    let r = list_slot (get_process (pos i)) (c, k) in
    rows_loop-OnlyPrints n (i + 1) r.0 k0 r.1
      (OnlyPrints-trans k0 k r.1 o (list_slot-OnlyPrints (get_process (pos i)) c k))

pub scheduler_list-OnlyPrints : (k : Machine) → OnlyPrints k (scheduler_list k)
unfolding scheduler_list pad
scheduler_list-OnlyPrints k =
    let start = print_all-OnlyPrints _ k in
    let rows = rows_loop-OnlyPrints max_processes 0 0 k _ start in
    OnlyPrints-trans k _ _ rows (
      OnlyPrints-trans _ _ _ (if-OnlyPrints _ _ _ _ (color-OnlyPrints _ _ _) (OnlyPrints-refl _)) (
        OnlyPrints-trans _ _ _ (print_all-OnlyPrints _ _)
          (OnlyPrints-trans _ _ _ (pad_loop-OnlyPrints _ _) (print_all-OnlyPrints _ _))))

pub fs_list-OnlyPrints : (d : ℤ) (k : Machine) → OnlyPrints k (fs_list d k)
unfolding fs_list
fs_list-OnlyPrints d k = list_in-OnlyPrints (fs_get_inode d) k
