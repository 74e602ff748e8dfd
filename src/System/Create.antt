-- ===== src/System/Create.antt =====
-- `fs_create` (core/fs.c) and the invariant.
use mineos.Base.{
  ℕ, ◌+◌, minus_one, ◌≤◌, ◌<◌, ◌≡◌, refl, sym, subst, ◌⊎◌, inl, inr, arith, ℤ, pos, List, length,
  true, false, none, some, Bool-cases, Option-cases, le→leb, lt→leb,
}
use mineos.Math.{IsInt}
use mineos.Bytes.{Bytes, read_int}
use mineos.Machine.{Machine, Out}
use mineos.Memory.Layout.{max_inodes, max_children}
use mineos.Screen.OnlyPrints.{OnlyPrints, ram-OnlyPrints, next_id-OnlyPrints}
use mineos.Text.Strings.{IsString}
use mineos.Fs.{
  is_dir, fs_find_child, fs_create, create_in, create_unless, create_inode, add_child, fail,
  exists_error,
}
use mineos.Fs.Inodes.{inode_at, fs_get_inode-inode_at}
use mineos.Fs.Layout.{child_count_at}
use mineos.Fs.Create.{HasRoom, fs_create_long}
use mineos.Fs.Refused.{fail-OnlyPrints, exists-OnlyPrints}
use mineos.System.{IsTree, IsStore, IsSystem, Contents, AllHold, Shows}
use mineos.System.Store.{update}
use mineos.System.Nodes.{KeepsDirs}
use mineos.System.Created.{created-KeepsDirs, created-IsTree, created-IsStore, created-AllHold}

-- Printing keeps everything.
pub IsSystem-OnlyPrints : (k k' : Machine) → OnlyPrints k k' → IsSystem k → IsSystem k'
IsSystem-OnlyPrints k k' o v = record {
  tree = rw (ram-OnlyPrints o, next_id-OnlyPrints o) v.tree;
  blocks = v.blocks;
  store = rw (ram-OnlyPrints o, next_id-OnlyPrints o) v.store;
}

pub Shows-OnlyPrints :
    (k k' : Machine) (o : OnlyPrints k k') (v : IsSystem k) (f : Contents)
    → Shows k v f
    → Shows k' (IsSystem-OnlyPrints k k' o v) f
unfolding IsSystem-OnlyPrints
Shows-OnlyPrints k k' o v f shows = rw (ram-OnlyPrints o, next_id-OnlyPrints o) shows

-- The inodes that have been given an id are directories or not as before.
abbrev pub KeepsTypes : Machine → Machine → Type 0
KeepsTypes k k' = KeepsDirs k.ram k'.ram k.next_inode_id

pub OnlyPrints-KeepsTypes : {k k' : Machine} → OnlyPrints k k' → KeepsTypes k k'
OnlyPrints-KeepsTypes o i h = rw (ram-OnlyPrints o) refl

-- The machine after a call keeps the invariant and the types, and no id is taken back.
abbrev pub Keeps : Machine → Machine → Type 0
Keeps k k' = IsSystem k' × (k.next_inode_id ≤ k'.next_inode_id) × KeepsTypes k k'

pub OnlyPrints-Keeps : (k k' : Machine) → IsSystem k → OnlyPrints k k' → Keeps k k'
OnlyPrints-Keeps k k' v o =
    (IsSystem-OnlyPrints k k' o v, omega (arith, next_id-OnlyPrints o), OnlyPrints-KeepsTypes o)

-- A call has returned -1 and has only printed.
abbrev pub Refused : Machine → ℤ × Machine → Type 0
Refused k r = (r.0 ≡ minus_one) × OnlyPrints k r.1

pub fail-Refused : (o : Out) (k : Machine) → Refused k (fail o k)
unfolding fail
fail-Refused o k = (refl, fail-OnlyPrints o k)

exists-Refused : (a : Bytes) (s : ℕ) (k : Machine) → Refused k (exists_error a s k)
unfolding exists_error
exists-Refused a s k = (refl, exists-OnlyPrints a s k)

-- The outcome of `fs_create`: the file system stays well formed, its inodes keep their types, and there is one more inode, which is
-- empty, or the call has returned -1 and no content has changed.
abbrev pub Creates : (k : Machine) → IsSystem k → ℤ × Machine → Type 0
Creates k v r =
    let n = k.next_inode_id in
    (v' : IsSystem r.1) × ((n ≤ r.1.next_inode_id) × KeepsTypes k r.1)
    × ((f : Contents)
        → Shows k v f
        → ((r.0 ≡ pos n) × (r.1.next_inode_id ≡ n + 1) × Shows r.1 v' (update f n none))
          ⊎ ((r.0 ≡ minus_one) × (r.1.next_inode_id ≡ n) × Shows r.1 v' f))

Refused-Creates : (k : Machine) (v : IsSystem k) (r : ℤ × Machine) → Refused k r → Creates k v r
Refused-Creates k v r (e, quiet) = (
  IsSystem-OnlyPrints k r.1 quiet v,
  (omega (arith, next_id-OnlyPrints quiet), OnlyPrints-KeepsTypes quiet),
  λ f shows. inr (e, next_id-OnlyPrints quiet, Shows-OnlyPrints k r.1 quiet v f shows),
)

module _ (k : Machine) (i c : ℕ) (a : Bytes) (s : ℕ) (type : ℤ) (h : i < max_inodes)
    (count : read_int k.ram (child_count_at (inode_at i)) ≡ pos c) where
  abbrev made : Machine
  made = (fs_create (pos i) a s type k).1

  file-Refused : is_dir k.ram (inode_at i) ≡ false → Refused k (fs_create (pos i) a s type k)
  unfolding fs_create create_in
  file-Refused e = rw (fs_get_inode-inode_at i h, e) (fail-Refused _ k)

  full-Refused :
      is_dir k.ram (inode_at i) ≡ true → max_children ≤ c → Refused k (fs_create (pos i) a s type k)
  unfolding fs_create create_in
  full-Refused e full =
      rw (fs_get_inode-inode_at i h, e, count, le→leb max_children c full) (fail-Refused _ k)

  name-Refused :
      is_dir k.ram (inode_at i) ≡ true
      → c < max_children
      → (p : ℕ) → fs_find_child (pos i) a s k ≡ some p
      → Refused k (fs_create (pos i) a s type k)
  unfolding fs_create create_in create_unless
  name-Refused e room p found =
      rw (fs_get_inode-inode_at i h, e, count, lt→leb max_children c room, found)
        (exists-Refused a s k)

  table-Refused :
      is_dir k.ram (inode_at i) ≡ true
      → c < max_children
      → fs_find_child (pos i) a s k ≡ none
      → max_inodes ≤ k.next_inode_id
      → Refused k (fs_create (pos i) a s type k)
  unfolding fs_create create_in create_unless create_inode add_child fail
  table-Refused e room found over =
      rw
        (
          fs_get_inode-inode_at i h,
          e,
          count,
          lt→leb max_children c room,
          found,
          le→leb max_inodes k.next_inode_id over,
        )
        (fail-Refused _ k)

  module _ (t : List ℕ) (v : IsSystem k) (order : i < k.next_inode_id) (held : IsString a s t)
      (short : length t < 256) (int_type : IsInt type) where
    created-Creates :
        is_dir k.ram (inode_at i) ≡ true
        → c < max_children
        → fs_find_child (pos i) a s k ≡ none
        → k.next_inode_id < max_inodes
        → Creates k v (fs_create (pos i) a s type k)
    created-Creates e room found bound =
        let n : ℕ = k.next_inode_id in
        let dir : HasRoom k.ram i c = record { directory = e; children = count; room = room } in
        let new =
          fs_create_long k i c n a s t type order bound refl dir found held short int_type in
        let tree = created-IsTree k.ram made.ram i c n type _ new refl order bound v.tree dir in
        let store =
          created-IsStore k.ram made.ram i c n type _ new refl order bound v.tree dir v.blocks
            v.store in
        let next = new.next in
        (
          record {
            tree = subst (IsTree made.ram) (sym next) tree;
            blocks = v.blocks;
            store = subst (λ n. IsStore made.ram n v.blocks) (sym next) store;
          },
          (
            omega arith,
            created-KeepsDirs k.ram made.ram i c n type _ new refl order bound v.tree dir,
          ),
          λ f shows.
              let held =
                created-AllHold k.ram made.ram i c n type _ new refl order bound v.tree dir v.blocks
                  f shows in
              inl (
                new.result,
                next,
                subst (λ l. AllHold made.ram l v.blocks (update f n none)) (sym next) held,
              ),
        )

-- On a file system that is well formed, with a set of contents, `fs_create` in any inode that has been
-- given an id, of any name of at most 255 characters, leaves it well formed, with the same directories among the
-- inodes that were there, and either returns the
-- next id, whose inode is then an empty one behind the others, which hold what they held, or returns
-- -1, and no content has changed.
pub fs_create-Creates :
    (k : Machine) (v : IsSystem k) (i : ℕ) (a : Bytes) (s : ℕ) (t : List ℕ) (type : ℤ)
    → i < k.next_inode_id
    → IsString a s t
    → length t < 256
    → IsInt type
    → Creates k v (fs_create (pos i) a s type k)
fs_create-Creates k v i a s t type order held short int_type =
    let small = v.tree.bound in
    let h : i < max_inodes = omega arith in
    let node = v.tree.node i order in
    let c : ℕ = node.c in
    let count = node.kids.count in
    let quiet = Refused-Creates k v (fs_create (pos i) a s type k) in
    elim (Bool-cases (is_dir k.ram (inode_at i))) [
      | inr e ↦ quiet (file-Refused k i c a s type h count e)
      | inl e ↦ elim (lt_cases c max_children) [
        | inr full ↦ quiet (full-Refused k i c a s type h count e full)
        | inl room ↦ elim (Option-cases (fs_find_child (pos i) a s k)) [
          | inr (p, found) ↦ quiet (name-Refused k i c a s type h count e room p found)
          | inl found ↦ elim (lt_cases k.next_inode_id max_inodes) [
            | inr over ↦ quiet (table-Refused k i c a s type h count e room found over)
            | inl bound ↦
                created-Creates k i c a s type h count t v order held short int_type e room found
                  bound
          ]
        ]
      ]
    ]
  where
    lt_cases : (a b : ℕ) → (a < b) ⊎ (b ≤ a)
    lt_cases a b = ground arith

pub fs_create-IsSystem :
    (k : Machine) (i : ℕ) (a : Bytes) (s : ℕ) (t : List ℕ) (type : ℤ)
    → IsSystem k
    → i < k.next_inode_id
    → IsString a s t
    → length t < 256
    → IsInt type
    → Keeps k (fs_create (pos i) a s type k).1
fs_create-IsSystem k i a s t type v order held short int_type =
    let done = fs_create-Creates k v i a s t type order held short int_type in
    (done.0, done.1.0, done.1.1)
