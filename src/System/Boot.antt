-- ===== src/System/Boot.antt =====
-- The state that `fs_init` (core/fs.c) and the boot sequence of main.c leave.
use mineos.Base.{
  ℕ, ◌+◌, ◌<◌, ◌≡◌, refl, arith, ℤ, pos, minus_one, Option, some, none, List, length, codes, zero,
  suc, if_cases,
}
use mineos.Bytes.{Bytes, object}
use mineos.Machine.{Machine}
use mineos.Memory.Chain.{Block, IsHeap}
use mineos.Text.Strings.{IsString}
use mineos.Fs.{wire, set_child_count, fs_init}
use mineos.Fs.Inodes.{fs_get_inode-inode_at}
use mineos.Scheduler.{scheduler_init, scheduler_spawn, spawn_loop, spawn_at, is_empty, get_process}
use mineos.Scheduler.Init.{scheduler_init-Started}
use mineos.Memory.Layout.{max_processes}
use mineos.Screen.{color_red}
use mineos.Screen.OnlyPrints.{color-OnlyPrints, next_id-OnlyPrints}
use mineos.System.Tables.{tables-IsSystem, tables-Shows}
use mineos.System.{IsSystem, Contents, Shows}
use mineos.System.Start.{with_inode, create_inode-with_inode, Fresh, with_inode-Fresh}
use mineos.System.Six.{six_names, IsSix, wired-IsSix, IsSix-cong}
use mineos.System.Wired.{parents, wired, wired-IsTree, wired-IsStore, wired-AllHold}

module _ (k : Machine) (t : List ℕ) (user : IsString k.current_user 0 t)
    (short : length t < 32) where
  abbrev k0 : Machine
  k0 = record k { next_inode_id = 0 }

  abbrev k1 : Machine
  k1 = with_inode 0 (object (codes "/")) minus_one k0

  abbrev k2 : Machine
  k2 = with_inode 1 (object (codes "bin")) (pos 0) k1

  abbrev k3 : Machine
  k3 = with_inode 2 (object (codes "home")) (pos 0) k2

  abbrev k4 : Machine
  k4 = with_inode 3 k.current_user (pos 2) k3

  abbrev k5 : Machine
  k5 = with_inode 4 (object (codes "tmp")) (pos 0) k4

  abbrev k6 : Machine
  k6 = with_inode 5 (object (codes "sys")) (pos 0) k5

  fs_init-wired : fs_init k ≡ record k6 { ram = wired k6.ram }
  unfolding fs_init wire set_child_count
  fs_init-wired =
      rw
        (
          create_inode-with_inode 0 (object (codes "/")) minus_one k0 (omega arith) refl,
          create_inode-with_inode 1 (object (codes "bin")) (pos 0) k1 (omega arith) refl,
          create_inode-with_inode 2 (object (codes "home")) (pos 0) k2 (omega arith) refl,
          create_inode-with_inode 3 k.current_user (pos 2) k3 (omega arith) refl,
          create_inode-with_inode 4 (object (codes "tmp")) (pos 0) k4 (omega arith) refl,
          create_inode-with_inode 5 (object (codes "sys")) (pos 0) k5 (omega arith) refl,
          fs_get_inode-inode_at 0 (omega arith),
          fs_get_inode-inode_at 2 (omega arith),
        )
        refl

  held_root : IsString (object (codes "/")) 0 (codes "/")
  unfolding object
  held_root = ground arith

  held_bin : IsString (object (codes "bin")) 0 (codes "bin")
  unfolding object
  held_bin = ground arith

  held_home : IsString (object (codes "home")) 0 (codes "home")
  unfolding object
  held_home = ground arith

  held_tmp : IsString (object (codes "tmp")) 0 (codes "tmp")
  unfolding object
  held_tmp = ground arith

  held_sys : IsString (object (codes "sys")) 0 (codes "sys")
  unfolding object
  held_sys = ground arith

  six-Fresh : (bs : List Block) → IsHeap k.ram bs → Fresh parents (six_names t) bs 6 k6.ram
  six-Fresh bs heap =
      let f0 : Fresh parents (six_names t) bs 0 k0.ram = record {
        new = λ d l. absurd (omega arith);
        named = λ d l. absurd (omega arith);
        heap = heap;
      } in
      let f1 =
        with_inode-Fresh parents (six_names t) bs 0 k0 (object (codes "/")) (codes "/") minus_one
          (omega arith) held_root (omega arith) (omega arith) refl refl f0 in
      let f2 =
        with_inode-Fresh parents (six_names t) bs 1 k1 (object (codes "bin")) (codes "bin") (pos 0)
          (omega arith) held_bin (omega arith) (omega arith) refl refl f1 in
      let f3 =
        with_inode-Fresh parents (six_names t) bs 2 k2 (object (codes "home")) (codes "home")
          (pos 0) (omega arith) held_home (omega arith) (omega arith) refl refl f2 in
      let f4 =
        with_inode-Fresh parents (six_names t) bs 3 k3 k.current_user t (pos 2) (omega arith) user
          short (omega arith) refl refl f3 in
      let f5 =
        with_inode-Fresh parents (six_names t) bs 4 k4 (object (codes "tmp")) (codes "tmp") (pos 0)
          (omega arith) held_tmp (omega arith) (omega arith) refl refl f4 in
      with_inode-Fresh parents (six_names t) bs 5 k5 (object (codes "sys")) (codes "sys") (pos 0)
        (omega arith) held_sys (omega arith) (omega arith) refl refl f5

  -- On a heap, whatever else the machine holds, and with a user name of at most 31 characters,
  -- `fs_init` leaves a well-formed file system of the six directories, without content.
  pub fs_init-IsSystem :
      (bs : List Block)
      → IsHeap k.ram bs
      → (v : IsSystem (fs_init k)) × Shows (fs_init k) v (λ _. none)
        × ((fs_init k).next_inode_id ≡ 6)
        × IsSix (fs_init k).ram t
  fs_init-IsSystem bs heap =
      let fresh = six-Fresh bs heap in
      rw fs_init-wired (
        record {
          tree = wired-IsTree k6.ram (six_names t) bs fresh;
          blocks = bs;
          store = wired-IsStore k6.ram (six_names t) bs fresh;
        },
        wired-AllHold k6.ram (six_names t) bs fresh,
        refl,
        wired-IsSix k6.ram t bs fresh,
      )

next_id-spawn_loop :
    (n i : ℕ) (a : Bytes) (s : ℕ) (k : Machine)
    → (spawn_loop n i a s k).1.next_inode_id ≡ k.next_inode_id
unfolding spawn_loop spawn_at
next_id-spawn_loop zero i a s k = next_id-OnlyPrints (color-OnlyPrints _ color_red k)
next_id-spawn_loop (suc n) i a s k =
    if_cases (λ (r : ℤ × Machine). r.1.next_inode_id ≡ k.next_inode_id)
      (is_empty k.ram (get_process (pos i))) _ _ (λ e. spawned (get_process (pos i)))
      (λ e. next_id-spawn_loop n (i + 1) a s k)
  where
    spawned : (o : Option ℕ) → (spawn_at i a s o k).1.next_inode_id ≡ k.next_inode_id
    spawned none = refl
    spawned (some p) = refl

pub scheduler_init-IsSystem :
    (k : Machine) (v : IsSystem k)
    → (v' : IsSystem (scheduler_init k)) × ((t : List ℕ)
        → IsSix k.ram t
        → IsSix (scheduler_init k).ram t)
      × ((f : Contents) → Shows k v f → Shows (scheduler_init k) v' f)
      × ((scheduler_init k).next_inode_id ≡ k.next_inode_id)
unfolding scheduler_init scheduler_spawn
scheduler_init-IsSystem k v =
    let next = next_id-spawn_loop max_processes 0 (object (codes "uptime")) 0 _ in
    let same = (scheduler_init-Started k).same in
    (
      tables-IsSystem k _ same next v,
      λ t. IsSix-cong k.ram _ t (λ q a b. same q (omega arith)),
      tables-Shows k _ same next v,
      next,
    )
