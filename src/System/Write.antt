-- ===== src/System/Write.antt =====
-- `fs_write` (core/fs.c) and the invariant.
use mineos.Base.{
  ℕ, ◌+◌, ◌≤◌, ◌<◌, ◌≡◌, ◌≢◌, refl, sym, subst, ◌⊎◌, inl, inr, arith, ℤ, pos, minus_one, List, All,
  length, true, false, Bool-cases, none, some,
}
use mineos.Bytes.{Bytes}
use mineos.Machine.{Machine}
use mineos.Memory.Layout.{max_inodes}
use mineos.Memory.Chain.{Block}
use mineos.Screen.OnlyPrints.{OnlyPrints, next_id-OnlyPrints}
use mineos.Text.{text_fuel}
use mineos.Text.Strings.{IsString}
use mineos.Fs.Inodes.{inode_at, fs_get_inode-inode_at}
use mineos.Fs.Files.{is_active, is_file, fs_write, write_in, write_at}
use mineos.Fs.Write.{KeepsTables, Saved, Failed, write_at-Wrote}
use mineos.System.{offset_of, IsTree, IsStore, IsSystem, Contents, AllHold, Shows}
use mineos.System.Nodes.{
  KeepsDirs, parent-KeepsLinks, KeepsLinks, IsTree-KeepsLinks, KeepsContent, content-SameIn,
}
use mineos.System.Store.{
  content-HasContent, emptied, emptied-IsStore, stored, stored-IsStore, update,
}
use mineos.Memory.FirstFit.{IsTooSmall}
use mineos.Fs.ReadBack.{IsOpenFile}
use mineos.System.Create.{
  KeepsTypes, OnlyPrints-KeepsTypes, Keeps, Refused, fail-Refused, IsSystem-OnlyPrints,
  Shows-OnlyPrints,
}
use mineos.System.NextId.{next_id-write_at}

module _ (m m' : Bytes) (n i : ℕ) (h : i < max_inodes) (keeps : KeepsTables m (inode_at i) m')
    (bound : n ≤ max_inodes) where
  links : (d : ℕ) → d < n → KeepsLinks m m' d
  links d l q (inl w) = keeps q (omega arith) (ground arith)
  links d l q (inr w) = keeps q (omega arith) (ground arith)

  written-IsTree : IsTree m n → IsTree m' n
  written-IsTree = IsTree-KeepsLinks m m' n links

  written-KeepsDirs : KeepsDirs m m' n
  written-KeepsDirs d l = (parent-KeepsLinks m m' d (links d l)).1

  keeps_content : (d : ℕ) → d < n → d ≢ i → KeepsContent m m' d
  keeps_content d l ne = content-SameIn m m' d λ q a b. keeps q (omega arith) (ground arith)

-- What a write of the text `t` to inode `i` has done to the contents `f`: the text is in its place, or
-- no free block has room for it and the file is empty.
abbrev pub Replaced : Bytes → ℕ → List Block → Contents → ℕ → List ℕ → ℤ → Type 0
Replaced m n bs f i t result =
    ((result ≡ pos 0) × AllHold m n bs (update f i (some t)))
    ⊎ ((result ≡ minus_one) × All (IsTooSmall (length t + 1)) bs × AllHold m n bs (update f i none))

module _ (m : Bytes) (n i : ℕ) (h : i < max_inodes) (bound : n ≤ max_inodes) (bs : List Block)
    (t : List ℕ) (fuel : length t < text_fuel) (w : ℤ × Machine)
    (keeps : KeepsTables m (inode_at i) w.1.ram) (v : IsStore m n bs) (order : i < n) where
  abbrev content : (d : ℕ) → d < n → d ≢ i → KeepsContent m w.1.ram d
  content = keeps_content m w.1.ram n i h keeps bound

  written-IsStore :
      ((w.0 ≡ pos 0) × Saved m bs (offset_of m i) w.1.ram (inode_at i) t)
        ⊎ ((w.0 ≡ minus_one) × Failed m bs (offset_of m i) w.1.ram (inode_at i) (length t + 1))
      → (blocks : List Block) × IsStore w.1.ram n blocks
        × ((f : Contents) → AllHold m n bs f → Replaced w.1.ram n blocks f i t w.0)
  written-IsStore (inl (e, s)) = (
    s.blocks,
    stored-IsStore m w.1.ram n i content bs s.blocks v order s.stays s.heap s.at t s.offset s.used
        s.content s.size fuel s.fresh,
    λ f shows. inl (
      e,
      λ d l.
          stored m w.1.ram n i content bs s.blocks v order s.stays s.heap s.at t s.offset s.used
            s.content s.size fuel s.fresh f d l (shows d l),
    ),
  )
  written-IsStore (inr (e, s)) = (
    s.blocks,
    emptied-IsStore m w.1.ram n i content bs s.blocks v order s.stays s.heap s.empty,
    λ f shows. inr (
      e,
      s.full,
      λ d l.
          emptied m w.1.ram n i content bs s.blocks v order s.stays s.heap s.empty f d l
            (shows d l),
    ),
  )

-- A refusal of `fs_write`.
module _ (k : Machine) (i : ℕ) (a : Bytes) (s : ℕ) (h : i < max_inodes) where
  state-Refused : is_active k.ram (inode_at i) ≡ false → Refused k (fs_write (pos i) a s k)
  unfolding fs_write write_in write_at
  state-Refused e = rw (fs_get_inode-inode_at i h, e) (fail-Refused _ k)

  dir-Refused :
      is_active k.ram (inode_at i) ≡ true
      → is_file k.ram (inode_at i) ≡ false
      → Refused k (fs_write (pos i) a s k)
  unfolding fs_write write_in write_at
  dir-Refused e f = rw (fs_get_inode-inode_at i h, e, f) (fail-Refused _ k)

  write_in-inode : fs_write (pos i) a s k ≡ write_at (inode_at i) a s k
  unfolding fs_write write_in
  write_in-inode = rw (fs_get_inode-inode_at i h) refl

-- The outcome of `fs_write` of the text `t` to inode `i`: the file system stays well formed,
-- with the same directories, and a
-- file that is open gets the text or, for lack of room, is emptied; else nothing has changed.
abbrev pub Writes : (k : Machine) → IsSystem k → ℕ → List ℕ → ℤ × Machine → Type 0
Writes k v i t r =
    (v' : IsSystem r.1) × ((r.1.next_inode_id ≡ k.next_inode_id) × KeepsTypes k r.1)
    × ((f : Contents)
        → Shows k v f
        → (IsOpenFile k.ram (inode_at i) × Replaced r.1.ram r.1.next_inode_id v'.blocks f i t r.0)
          ⊎ (¬ IsOpenFile k.ram (inode_at i) × (r.0 ≡ minus_one) × Shows r.1 v' f))

Refused-Writes :
    (k : Machine) (v : IsSystem k) (i : ℕ) (t : List ℕ) (r : ℤ × Machine)
    → ¬ IsOpenFile k.ram (inode_at i)
    → (r.0 ≡ minus_one)
    → OnlyPrints k r.1
    → Writes k v i t r
Refused-Writes k v i t r shut e quiet = (
  IsSystem-OnlyPrints k r.1 quiet v,
  (next_id-OnlyPrints quiet, OnlyPrints-KeepsTypes quiet),
  λ f shows. inr (shut, e, Shows-OnlyPrints k r.1 quiet v f shows),
)

-- On a file system that is well formed, with a set of contents, `fs_write` of a text to any inode that
-- has been given an id leaves it well formed, with the same directories. If the inode is an open file then either the call
-- returns 0 and the contents are those before with the text in the place of that of the inode, or it
-- returns -1, no free block has room for the text, and that inode is empty, while the others hold
-- what they held. If it is none, the call returns -1 and no content has changed.
pub fs_write-Writes :
    (k : Machine) (v : IsSystem k) (i : ℕ) (a : Bytes) (s : ℕ) (t : List ℕ)
    → i < k.next_inode_id
    → IsString a s t
    → length t < text_fuel
    → Writes k v i t (fs_write (pos i) a s k)
fs_write-Writes k v i a s t order held fuel =
    let bound = v.tree.bound in
    let h : i < max_inodes = omega arith in
    let n : ℕ = k.next_inode_id in
    let p : ℕ = inode_at i in
    let quiet = Refused-Writes k v i t (fs_write (pos i) a s k) in
    elim (Bool-cases (is_active k.ram p)) [
      | inr e ↦
          quiet (λ is_open. absurd (ground (arith, is_open.active))) (state-Refused k i a s h e).0
            (state-Refused k i a s h e).1
      | inl active ↦ elim (Bool-cases (is_file k.ram p)) [
        | inr f ↦
            quiet (λ is_open. absurd (ground (arith, is_open.file)))
              (dir-Refused k i a s h active f).0 (dir-Refused k i a s h active f).1
        | inl file ↦
            let (c, stored) = v.store.content i order in
            let wrote =
              write_at-Wrote k p v.blocks a s t (omega arith) v.store.heap
                (content-HasContent k.ram v.blocks i c stored) active file fuel held in
            let w = write_at p a s k in
            let next = next_id-write_at k p a s active file in
            let tree = written-IsTree k.ram w.1.ram n i h wrote.0 bound v.tree in
            let (blocks, store, contents) =
              written-IsStore k.ram n i h bound v.blocks t fuel w wrote.0 v.store order wrote.1 in
            let done : Writes k v i t w = (
              record {
                tree = subst (IsTree w.1.ram) (sym next) tree;
                blocks = blocks;
                store = subst (λ n. IsStore w.1.ram n blocks) (sym next) store;
              },
              (next, written-KeepsDirs k.ram w.1.ram n i h wrote.0 bound),
              λ f shows. inl (
                record { active = active; file = file },
                subst (λ n. Replaced w.1.ram n blocks f i t w.0) (sym next) (contents f shows),
              ),
            ) in
            subst (Writes k v i t) (sym (write_in-inode k i a s h)) done
      ]
    ]

pub fs_write-IsSystem :
    (k : Machine) (i : ℕ) (a : Bytes) (s : ℕ) (t : List ℕ)
    → IsSystem k
    → i < k.next_inode_id
    → IsString a s t
    → length t < text_fuel
    → Keeps k (fs_write (pos i) a s k).1
fs_write-IsSystem k i a s t v order held fuel =
    let done = fs_write-Writes k v i a s t order held fuel in
    (done.0, omega (arith, done.1.0), done.1.1)
