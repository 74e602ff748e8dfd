-- ===== src/Screen/OnlyPrints.antt =====
-- Printing (libs/screen.c) changes nothing but what has been printed, and only adds to that.
use mineos.Base.{ℤ, ◌≡◌, refl, ap, List, [], ◌++◌, if_cases, pos}
use mathlib.Core.List.{append_assoc, append-nil}
use mineos.Math.{in_bounds}
use mineos.Machine.{Machine, Out}
use mineos.Screen.{emit, screen_print_str, screen_print_color}

pub record OnlyPrints (k k' : Machine) : Type 0 where
  pub more : List Out
  pub prints : k' ≡ record k { printed = k.printed ++ more }

module _ {k k' : Machine} (o : OnlyPrints k k') where
  pub ram-OnlyPrints : k'.ram ≡ k.ram
  ram-OnlyPrints = ap (λ (k : Machine). k.ram) o.prints

  pub ticks-OnlyPrints : k'.global_ticks ≡ k.global_ticks
  ticks-OnlyPrints = ap (λ (k : Machine). k.global_ticks) o.prints

  pub next_id-OnlyPrints : k'.next_inode_id ≡ k.next_inode_id
  next_id-OnlyPrints = ap (λ (k : Machine). k.next_inode_id) o.prints

pub OnlyPrints-refl : (k : Machine) → OnlyPrints k k
OnlyPrints-refl k = record { more = []; prints = rw append-nil refl }

pub OnlyPrints-trans : (k k' k'' : Machine) → OnlyPrints k k' → OnlyPrints k' k'' → OnlyPrints k k''
OnlyPrints-trans k k' k'' o p = record {
  more = o.more ++ p.more;
  prints = rw (p.prints, o.prints, append_assoc) refl;
}

pub emit-OnlyPrints : (os : List Out) (k : Machine) → OnlyPrints k (emit os k)
unfolding emit
emit-OnlyPrints os k = record { more = os; prints = refl }

pub str-OnlyPrints : (s : Out) (k : Machine) → OnlyPrints k (screen_print_str s k)
unfolding screen_print_str
str-OnlyPrints s k = emit-OnlyPrints _ k

pub color-OnlyPrints : (s : Out) (c : ℤ) (k : Machine) → OnlyPrints k (screen_print_color s c k)
unfolding screen_print_color
color-OnlyPrints s c k =
    if_cases (λ (f : Machine → Machine). OnlyPrints k (f k)) (in_bounds c (pos 0) (pos 8)) _ _
      (λ e. emit-OnlyPrints _ k) (λ e. emit-OnlyPrints _ k)
