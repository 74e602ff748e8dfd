-- ===== src/System/Walk.antt =====
-- The walk of `fs_get_path` (core/fs.c) from an inode up to the root.
use mathlib.Core.List.{append-nil}
use mineos.Base.{
  ℕ, zero, suc, ◌+◌, ◌≤◌, ◌<◌, ◌≡◌, refl, ◌∙◌, ap, inl, inr, arith, ℤ, pos, minus_one, List, [],
  ◌∷◌, ◌++◌, length, length-append, not, ◌&&◌, eqb_ℤ, true, ◌-◌, All, subst, sym,
}
use mineos.Math.{my_sub, in_bounds}
use mineos.Math.Bounds.{my_sub-pos, in_bounds-pos}
use mineos.Bytes.{Bytes}
use mineos.Machine.{Machine}
use mineos.Memory.Layout.{max_inodes}
use mineos.Fs.{fs_get_inode}
use mineos.Fs.Inodes.{fs_get_inode-inode_at}
use mineos.Fs.Paths
use mineos.Fs.Paths.{walk_up, walk_fuel, path_of, fs_get_path}
use mineos.System.Names.{ids_of, join, or_slash, IsNamed, Holds, path_of-or_slash}
use mineos.System.{parent_field, IsTree, IsSystem}

abbrev pub up_from : Bytes → ℤ → ℤ
up_from m id = Paths.parent_of (fs_get_inode id) m

-- Each id is the parent of the next one, and `up` is the parent of the first.
abbrev pub IsTrail : Bytes → ℤ → List ℤ → Type 0
IsTrail m up [] = Unit
IsTrail m up (id ∷ ids) = (up_from m id ≡ up) × IsTrail m id ids

-- The ids from the root down to inode `i`, in front of `stack`.
pub record WalksUp (m : Bytes) (i : ℕ) (stack r : List ℤ) : Type 0 where
  pub trail : IsTrail m minus_one r
  pub short : length r ≤ length stack + i + 1
  pub front : List ℤ
  pub ends : r ≡ front ++ pos i ∷ stack
  pub inodes : List ℕ
  pub numbered : r ≡ ids_of (inodes ++ i ∷ []) ++ stack
  pub older : All (λ d. d < i) inodes

guard_pos :
    (i : ℕ)
    → i < max_inodes
    → (not (eqb_ℤ (pos i) minus_one) && in_bounds (pos i) (pos 0) (my_sub (pos max_inodes) (pos 1)))
      ≡ true
guard_pos i h =
    rw
      (
        my_sub-pos max_inodes 1 (omega arith) (omega arith),
        in_bounds-pos i 0 (max_inodes - 1) (omega arith) (omega arith),
      )
      refl

up_from-parent_field : (m : Bytes) (i : ℕ) → i < max_inodes → up_from m (pos i) ≡ parent_field m i
unfolding Paths.parent_of
up_from-parent_field m i h = rw (fs_get_inode-inode_at i h) refl

-- One round, and the round that leaves the loop.
walk_step :
    (m : Bytes) (fuel i : ℕ) (stack : List ℤ) (up : ℤ)
    → i < max_inodes
    → up_from m (pos i) ≡ up
    → walk_up (suc fuel) (pos i) stack m ≡ walk_up fuel up (pos i ∷ stack) m
unfolding walk_up
walk_step m fuel i stack up h e = rw (guard_pos i h, e) refl

walk_end : (m : Bytes) (fuel : ℕ) (stack : List ℤ) → walk_up (suc fuel) minus_one stack m ≡ stack
unfolding walk_up
walk_end m fuel stack = refl

append-move :
    (front : List ℤ) (a b : ℤ) (stack : List ℤ)
    → front ++ a ∷ b ∷ stack ≡ (front ++ a ∷ []) ++ b ∷ stack
append-move [] a b stack = refl
append-move (c ∷ front) a b stack = ap (λ ids. c ∷ ids) (append-move front a b stack)

ids_of-move :
    (l : List ℕ) (i : ℕ) (stack : List ℤ)
    → ids_of l ++ pos i ∷ stack ≡ ids_of (l ++ i ∷ []) ++ stack
ids_of-move [] i stack = refl
ids_of-move (d ∷ l) i stack = ap (λ ids. pos d ∷ ids) (ids_of-move l i stack)

All-snoc : (l : List ℕ) (q i : ℕ) → q < i → All (λ d. d < q) l → All (λ d. d < i) (l ++ q ∷ [])
All-snoc [] q i h v = (h, tt)
All-snoc (d ∷ l) q i h v = (omega (arith, v.0), All-snoc l q i h v.1)

walk_up-WalksUp :
    (m : Bytes) (n : ℕ) (tree : IsTree m n) (fuel i : ℕ) (stack : List ℤ)
    → i < n
    → i + 1 < fuel
    → IsTrail m (pos i) stack
    → WalksUp m i stack (walk_up fuel (pos i) stack m)
walk_up-WalksUp m n tree zero i stack h f trail = absurd (omega arith)
walk_up-WalksUp m n tree (suc zero) i stack h f trail = absurd (omega arith)
walk_up-WalksUp m n tree (suc (suc fuel)) i stack h f trail =
    let bound = tree.bound in
    let from = up_from-parent_field m i (omega arith) in
    elim (tree.node i h).parent [
      | inl top ↦
          rw
            (
              walk_step m (suc fuel) i stack minus_one (omega arith) (from ∙ top),
              walk_end m fuel (pos i ∷ stack),
            )
            (record {
              trail = (from ∙ top, trail);
              short = omega arith;
              front = [];
              ends = refl;
              inodes = [];
              numbered = refl;
              older = tt;
            })
      | inr (q, l, at, dir) ↦
          let rest =
            walk_up-WalksUp m n tree (suc fuel) q (pos i ∷ stack) (omega arith) (omega arith)
              (from ∙ at, trail) in
          let short = rest.short in
          rw (walk_step m (suc fuel) i stack (pos q) (omega arith) (from ∙ at)) (record {
            trail = rest.trail;
            short = omega arith;
            front = rest.front ++ pos q ∷ [];
            ends = rest.ends ∙ append-move rest.front (pos q) (pos i) stack;
            inodes = rest.inodes ++ q ∷ [];
            numbered = rest.numbered ∙ ids_of-move (rest.inodes ++ q ∷ []) i stack;
            older = All-snoc rest.inodes q i l rest.older;
          })
    ]

-- In a well-formed file system the walk of `fs_get_path` from any inode `i` reaches an inode without
-- a parent within the fuel of the model: the ids that it collects are a trail from that inode down
-- to `i`, each the parent of the next, and they are at most `i + 1`, so they fit the 128 entries of
-- the array `stack`.
pub walk_up-IsTrail :
    (k : Machine) (i : ℕ)
    → IsSystem k
    → i < k.next_inode_id
    → let ids = walk_up walk_fuel (pos i) [] k.ram in
      IsTrail k.ram minus_one ids
      × (length ids ≤ i + 1)
      × ((front : List ℤ) × (ids ≡ front ++ pos i ∷ []))
walk_up-IsTrail k i v h =
    let bound = v.tree.bound in
    let w = walk_up-WalksUp k.ram k.next_inode_id v.tree walk_fuel i [] h (omega arith) tt in
    let short = w.short in (w.trail, omega arith, (w.front, w.ends))

-- In a well-formed file system in which the inodes up to `i` have names of at most 255 characters,
-- `fs_get_path` of inode `i` leaves the path of `i` in the buffer: there is a trail of inodes,
-- each the parent of the next, from one without a parent to `i`, at most `i + 1` of them, and the path is their names with
-- a slash between two of them, where inode 0 stands as a slash; an empty path becomes a slash. No
-- byte behind the terminator is written.
pub fs_get_path-join :
    (k : Machine) (i : ℕ) (name : ℕ → List ℕ) (buf : Bytes)
    → IsSystem k
    → i < k.next_inode_id
    → ((d : ℕ) → d ≤ i → IsNamed k.ram name d)
    → (front : List ℕ) × (length front ≤ i)
      × IsTrail k.ram minus_one (ids_of (front ++ i ∷ []))
      × Holds buf (or_slash (join name (front ++ i ∷ []))) (fs_get_path (pos i) buf k)
unfolding fs_get_path
fs_get_path-join k i name buf v h named =
    let bound = v.tree.bound in
    let w = walk_up-WalksUp k.ram k.next_inode_id v.tree walk_fuel i [] h (omega arith) tt in
    let short = w.short in
    let l : List ℕ = w.inodes ++ i ∷ [] in
    let same : walk_up walk_fuel (pos i) [] k.ram ≡ ids_of l = w.numbered ∙ append-nil (ids_of l) in
    let long = length-ids_of l in
    (
      w.inodes,
      omega (arith, ap length same, length-append w.inodes (i ∷ [])),
      subst (IsTrail k.ram minus_one) same w.trail,
      subst (λ ids. Holds buf (or_slash (join name l)) (path_of ids k.ram buf)) (sym same)
          (path_of-or_slash k.ram name l buf (omega (arith, ap length same))
            (all_named w.inodes w.older)),
    )
  where
    length-ids_of : (l : List ℕ) → length (ids_of l) ≡ length l
    length-ids_of [] = refl
    length-ids_of (d ∷ l) = omega (arith, length-ids_of l)

    all_named : (l : List ℕ) → All (λ d. d < i) l → All (IsNamed k.ram name) (l ++ i ∷ [])
    all_named [] older = (named i (omega arith), tt)
    all_named (d ∷ l) older = (named d (omega (arith, older.0)), all_named l older.1)
