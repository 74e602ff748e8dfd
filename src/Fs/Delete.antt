-- ===== src/Fs/Delete.antt =====
-- `fs_delete` (core/fs.c): what a successful call leaves.
use mineos.Base.{
  ℕ, ◌+◌, ◌-◌, ◌≤◌, ◌<◌, ◌≡◌, ◌≢◌, refl, ◌∙◌, inr, arith, ℤ, pos, minus_one, true, false, some,
  List, ltb_ℤ, ◌&&◌, ne→==,
}
use mineos.Bytes.{Bytes, read_int}
use mineos.Bytes.Ints.{read_int-cong}
use mineos.Bytes.Outside.{SameOutside, IsOutside}
use mineos.Machine.{Machine}
use mineos.Memory.Layout.{max_inodes, max_children, data_region_offset}
use mineos.Memory.Chain.{Block, IsHeap, IsChain-SameOutside}
use mineos.Memory.Stays.{Stays, Stays-above}
use mineos.Fs.{is_dir}
use mineos.Fs.Inodes.{inode_at, fs_get_inode-inode_at}
use mineos.Fs.Layout.{parent_id_at, child_at, child_count_at, data_offset_at}
use mineos.Fs.Files.{
  is_active, clear_inode, remove_child, free_content, delete_at, delete_in, fs_delete,
}
use mineos.Fs.Content.{HasContent}
use mineos.Fs.Cleared.{
  GivesBack, Freed, free_content-Freed, IsCleared, clear_inode-same, clear_inode-IsCleared,
}
use mineos.Fs.Removed.{HasChildren, WithoutChild, remove_child-WithoutChild}

-- An active inode that is no directory with children.
pub record IsLeaf (m : Bytes) (p : ℕ) : Type 0 where
  pub active : is_active m p ≡ true
  pub childless : (is_dir m p && ltb_ℤ (pos 0) (read_int m (child_count_at p))) ≡ false

-- What `fs_delete` of inode `d`, child `x` of the `c` children of directory `i`, has done: the inode
-- is cleared, the other children keep their order, its block is free, the other used blocks keep their
-- bytes, and below the data region no byte outside of those fields and the children of the directory
-- has changed.
pub record Deleted (m : Bytes) (bs : List Block) (i d c x : ℕ) (ids : ℕ → ℕ) (r : ℤ × Machine)
    : Type 0 where
  pub result : r.0 ≡ pos 0
  pub blocks : List Block
  pub gives_back : GivesBack m bs (inode_at d) blocks
  pub stays : Stays m bs (read_int m (data_offset_at (inode_at d))) r.1.ram blocks
  pub heap : IsHeap r.1.ram blocks
  pub cleared : IsCleared r.1.ram (inode_at d)
  pub count : read_int r.1.ram (child_count_at (inode_at i)) ≡ pos (c - 1)
  pub front : (j : ℕ) → j < x → read_int r.1.ram (child_at (inode_at i) j) ≡ pos (ids j)
  pub back :
      (j : ℕ) → x ≤ j → j + 1 < c → read_int r.1.ram (child_at (inode_at i) j) ≡ pos (ids (j + 1))
  pub last : read_int r.1.ram (child_at (inode_at i) (c - 1)) ≡ minus_one
  pub same :
      (q : ℕ)
      → q < data_region_offset
      → IsOutside (inode_at i + 44) (inode_at i + 112) q
      → IsOutside (inode_at d + 4) (inode_at d + 5) q
      → IsOutside (inode_at d + 112) (inode_at d + 124) q
      → r.1.ram q ≡ m q

-- The writes of `fs_delete` behind `free_content`.
module _ (k k1 : Machine) (bs : List Block) (i d c x : ℕ) (ids : ℕ → ℕ)
    (freed : Freed k bs (inode_at d) k1) (hi : i < max_inodes) (hd : d < max_inodes) (ne : i ≢ d)
    (few : c ≤ max_children) (kids : HasChildren k.ram (inode_at i) c ids) (hx : x < c)
    (here : ids x ≡ d) (only : (j : ℕ) → j < c → ids j ≡ d → j ≡ x) where
  abbrev removed : Bytes
  removed = remove_child (some (inode_at i)) (pos d) k1.ram

  int_same : (q : ℕ) → q + 4 ≤ data_region_offset → read_int k1.ram q ≡ read_int k.ram q
  int_same q h = read_int-cong k.ram k1.ram q λ u a b. freed.same u (omega arith)

  kids_kept : HasChildren k1.ram (inode_at i) c ids
  kids_kept = record {
    count = int_same (inode_at i + 108) (omega arith) ∙ kids.count;
    entry = λ j h. int_same (child_at (inode_at i) j) (omega arith) ∙ kids.entry j h;
    small = kids.small;
  }

  without : WithoutChild (inode_at i) c d ids few kids.small k1.ram x removed
  without =
      remove_child-WithoutChild (inode_at i) c d ids few kids.small k1.ram x hx kids_kept here only

  past_clear :
      (q : ℕ) {v : ℤ}
      → inode_at i ≤ q
      → q + 4 ≤ inode_at i + 112
      → read_int removed q ≡ v
      → read_int (clear_inode (inode_at d) removed) q ≡ v
  past_clear q a b e =
      read_int-cong removed (clear_inode (inode_at d) removed) q
        (λ u l r. clear_inode-same removed (inode_at d) u (omega arith) (omega arith))
      ∙ e

  removed-Deleted :
      Deleted k.ram bs i d c x ids (pos 0, record k1 { ram = clear_inode (inode_at d) removed })
  removed-Deleted =
      let w = without in
      let high : SameOutside 0 data_region_offset k1.ram (clear_inode (inode_at d) removed) =
        λ q out.
          clear_inode-same removed (inode_at d) q (omega arith) (omega arith)
          ∙ w.same q (omega arith) in
      record {
        result = refl;
        blocks = freed.blocks;
        gives_back = freed.gives_back;
        stays =
            Stays-above k.ram k1.ram _ bs freed.blocks _ (λ q a. high q (inr (omega arith)))
              freed.stays;
        heap =
            IsChain-SameOutside k1.ram _ data_region_offset freed.blocks high (omega arith)
              freed.heap;
        cleared = clear_inode-IsCleared removed (inode_at d);
        count = past_clear (inode_at i + 108) (omega arith) (omega arith) w.count;
        front =
            λ j h. past_clear (child_at (inode_at i) j) (omega arith) (omega arith) (w.front j h);
        back = λ j a b.
            past_clear (child_at (inode_at i) j) (omega arith) (omega arith) (w.back j a b);
        last = past_clear (child_at (inode_at i) (c - 1)) (omega arith) (omega arith) w.last;
        same = λ q a b name content.
            clear_inode-same removed (inode_at d) q name content ∙ w.same q b ∙ freed.same q a;
      }

-- `fs_delete` of an active inode other than the root, which is no directory with children, whose
-- content is empty or a block of the heap, and whose parent is another inode that has it once among
-- at most 16 children: it returns 0, the inode is cleared, its entry is gone from the parent, whose
-- other children keep their order, the block is given back to a heap, and the rest of the tables is
-- as before.
pub fs_delete-Deleted :
    (k : Machine) (bs : List Block) (i d c x : ℕ) (ids : ℕ → ℕ)
    → i < max_inodes
    → d < max_inodes
    → d ≢ 0
    → i ≢ d
    → IsHeap k.ram bs
    → HasContent k.ram bs (inode_at d)
    → IsLeaf k.ram (inode_at d)
    → read_int k.ram (parent_id_at (inode_at d)) ≡ pos i
    → c ≤ max_children
    → HasChildren k.ram (inode_at i) c ids
    → x < c
    → ids x ≡ d
    → ((j : ℕ) → j < c → ids j ≡ d → j ≡ x)
    → Deleted k.ram bs i d c x ids (fs_delete (pos d) k)
unfolding fs_delete delete_in delete_at
fs_delete-Deleted k bs i d c x ids hi hd nz ne heap content leaf parent few kids hx here only =
    let freed = free_content-Freed k bs (inode_at d) heap content in
    let k1 : Machine = free_content (inode_at d) k in
    let up : read_int k1.ram (parent_id_at (inode_at d)) ≡ pos i =
      read_int-cong k.ram k1.ram (inode_at d + 40) (λ q a b. freed.same q (omega arith)) ∙ parent in
    rw
      (
        fs_get_inode-inode_at d hd,
        leaf.active,
        ne→== d 0 nz,
        leaf.childless,
        up,
        fs_get_inode-inode_at i hi,
      )
      (removed-Deleted k k1 bs i d c x ids freed hi hd ne few kids hx here only)
