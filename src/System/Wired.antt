-- ===== src/System/Wired.antt =====
-- The six directories of `fs_init` (core/fs.c) with the children that it wires up.
use mineos.Base.{
  ℕ, zero, suc, ◌+◌, ◌≤◌, ◌<◌, ◌≡◌, ◌≢◌, refl, ◌∙◌, sym, subst, ◌⊎◌, inl, inr, arith, ℤ, pos,
  minus_one, none, true, List, if◌then◌else◌, ◌==◌,
}
use mineos.Bytes.{Bytes, read_int, write_int}
use mineos.Bytes.Ints.{read_int-cong, read_int-write_int}
use mineos.Bytes.Outside.{SameOutside, write_int-SameOutside}
use mineos.Memory.Layout.{data_region_offset}
use mineos.Memory.Take.{read_past}
use mineos.Memory.Chain.{Block, IsChain-SameOutside}
use mineos.Fs.{is_dir}
use mineos.Fs.Inodes.{inode_at}
use mineos.Fs.Layout.{child_at, child_count_at}
use mineos.System.{parent_field, offset_of, IsNode, IsTree, IsStore, AllHold}
use mineos.System.Start.{Fresh}

-- The parent of each of the six.
abbrev pub parents : ℕ → ℤ
parents d = if d == 0 then minus_one else if d == 3 then pos 2 else pos 0

-- The children of the root.
abbrev root_ids : ℕ → ℕ
root_ids j = if j == 0 then 1 else if j == 1 then 2 else if j == 2 then 4 else 5

abbrev wired1 : Bytes → Bytes
wired1 m = write_int m (child_at (inode_at 0) 0) (pos 1)

abbrev wired2 : Bytes → Bytes
wired2 m = write_int (wired1 m) (child_at (inode_at 0) 1) (pos 2)

abbrev wired3 : Bytes → Bytes
wired3 m = write_int (wired2 m) (child_at (inode_at 0) 2) (pos 4)

abbrev wired4 : Bytes → Bytes
wired4 m = write_int (wired3 m) (child_at (inode_at 0) 3) (pos 5)

abbrev wired5 : Bytes → Bytes
wired5 m = write_int (wired4 m) (child_count_at (inode_at 0)) (pos 4)

abbrev wired6 : Bytes → Bytes
wired6 m = write_int (wired5 m) (child_at (inode_at 2) 0) (pos 3)

abbrev pub wired : Bytes → Bytes
wired m = write_int (wired6 m) (child_count_at (inode_at 2)) (pos 1)

module _ (m : Bytes) (names : ℕ → List ℕ) (bs : List Block) (v : Fresh parents names bs 6 m) where
  pub kept :
      (q : ℕ)
      → (q < inode_at 0 + 44) ⊎ (inode_at 0 + 112 ≤ q)
      → (q < inode_at 2 + 44) ⊎ (inode_at 2 + 112 ≤ q)
      → wired m q ≡ m q
  kept q a b =
      write_int-SameOutside (wired6 m) _ (pos 1) q (omega arith)
      ∙ write_int-SameOutside (wired5 m) _ (pos 3) q (omega arith)
      ∙ write_int-SameOutside (wired4 m) _ (pos 4) q (omega arith)
      ∙ write_int-SameOutside (wired3 m) _ (pos 5) q (omega arith)
      ∙ write_int-SameOutside (wired2 m) _ (pos 4) q (omega arith)
      ∙ write_int-SameOutside (wired1 m) _ (pos 2) q (omega arith)
      ∙ write_int-SameOutside m _ (pos 1) q (omega arith)

  pub field :
      (f : ℕ) {x : ℤ}
      → (f + 4 ≤ inode_at 0 + 44)
        ⊎ ((inode_at 0 + 112 ≤ f) × ((f + 4 ≤ inode_at 2 + 44) ⊎ (inode_at 2 + 112 ≤ f)))
      → read_int m f ≡ x
      → read_int (wired m) f ≡ x
  field f h e = read_int-cong m (wired m) f (λ q a b. kept q (omega arith) (omega arith)) ∙ e

  id_of : (d : ℕ) → d < 6 → read_int (wired m) (inode_at d) ≡ pos d
  id_of d h = field (inode_at d) (omega arith) (v.new d h).has_id

  parent : (d : ℕ) → d < 6 → parent_field (wired m) d ≡ parents d
  parent d h = field (inode_at d + 40) (omega arith) (v.new d h).parent_id

  empty : (d : ℕ) → d < 6 → offset_of (wired m) d ≡ minus_one
  empty d h = field (inode_at d + 112) (omega arith) (v.new d h).data_offset

  dir : (d : ℕ) → d < 6 → is_dir (wired m) (inode_at d) ≡ true
  unfolding is_dir
  dir d h = rw (field (inode_at d + 36) (omega arith) (v.new d h).has_type) refl

  below :
      {x : ℤ} (f : ℕ)
      → f + 4 ≤ inode_at 0 + 112
      → read_int (wired5 m) f ≡ x
      → read_int (wired m) f ≡ x
  below f h e =
      read_past (wired6 m) _ (pos 1) f (omega arith)
        (read_past (wired5 m) _ (pos 3) f (omega arith) e)

  root_count : read_int (wired m) (inode_at 0 + 108) ≡ pos 4
  root_count =
      below (inode_at 0 + 108) (omega arith)
        (read_int-write_int (wired4 m) (inode_at 0 + 108) (pos 4) (omega arith))

  entry0 : read_int (wired m) (child_at (inode_at 0) 0) ≡ pos 1
  entry0 =
      let f : ℕ = child_at (inode_at 0) 0 in
      below f (omega arith) (
        read_past (wired4 m) _ (pos 4) f (omega arith) (
          read_past (wired3 m) _ (pos 5) f (omega arith) (
            read_past (wired2 m) _ (pos 4) f (omega arith) (
              read_past (wired1 m) _ (pos 2) f (omega arith)
                (read_int-write_int m f (pos 1) (omega arith))))))

  entry1 : read_int (wired m) (child_at (inode_at 0) 1) ≡ pos 2
  entry1 =
      let f : ℕ = child_at (inode_at 0) 1 in
      below f (omega arith) (
        read_past (wired4 m) _ (pos 4) f (omega arith) (
          read_past (wired3 m) _ (pos 5) f (omega arith) (
            read_past (wired2 m) _ (pos 4) f (omega arith)
              (read_int-write_int (wired1 m) f (pos 2) (omega arith)))))

  entry2 : read_int (wired m) (child_at (inode_at 0) 2) ≡ pos 4
  entry2 =
      let f : ℕ = child_at (inode_at 0) 2 in
      below f (omega arith) (
        read_past (wired4 m) _ (pos 4) f (omega arith) (
          read_past (wired3 m) _ (pos 5) f (omega arith)
            (read_int-write_int (wired2 m) f (pos 4) (omega arith))))

  entry3 : read_int (wired m) (child_at (inode_at 0) 3) ≡ pos 5
  entry3 =
      let f : ℕ = child_at (inode_at 0) 3 in
      below f (omega arith) (
        read_past (wired4 m) _ (pos 4) f (omega arith)
          (read_int-write_int (wired3 m) f (pos 5) (omega arith)))

  -- A claim on each of the four indices.
  four : (P : ℕ → Type 0) (j : ℕ) → j < 4 → P 0 → P 1 → P 2 → P 3 → P j
  four P zero h a b c d = a
  four P (suc zero) h a b c d = b
  four P (suc (suc zero)) h a b c d = c
  four P (suc (suc (suc zero))) h a b c d = d
  four P (suc (suc (suc (suc j)))) h a b c d = absurd (omega arith)

  root_node : IsNode (wired m) 6 0
  root_node = record {
    has_id = id_of 0 (omega arith);
    parent = inl (parent 0 (omega arith));
    c = 4;
    ids = root_ids;
    few = omega arith;
    kids = record {
      count = root_count;
      entry = λ j h.
          four (λ j. read_int (wired m) (child_at (inode_at 0) j) ≡ pos (root_ids j)) j h entry0
            entry1 entry2 entry3;
      small = λ j h. ground arith;
    };
    newer = λ j h. ground arith;
    given = λ j h. ground arith;
    linked = λ j h.
        four (λ j. parent_field (wired m) (root_ids j) ≡ pos 0) j h (parent 1 (omega arith))
          (parent 2 (omega arith)) (parent 4 (omega arith)) (parent 5 (omega arith));
    distinct = λ j l hj hl e. ground arith;
  }

  home_node : IsNode (wired m) 6 2
  home_node = record {
    has_id = id_of 2 (omega arith);
    parent = inr (0, omega arith, parent 2 (omega arith), dir 0 (omega arith));
    c = 1;
    ids = λ j. 3;
    few = omega arith;
    kids = record {
      count = read_int-write_int (wired6 m) (inode_at 2 + 108) (pos 1) (omega arith);
      entry = λ j h.
          let e : 0 ≡ j = omega arith in
          subst (λ j. read_int (wired m) (child_at (inode_at 2) j) ≡ pos 3) e
            (read_past (wired6 m) _ (pos 1) (inode_at 2 + 44) (omega arith)
              (read_int-write_int (wired5 m) (inode_at 2 + 44) (pos 3) (omega arith)));
      small = λ j h. omega arith;
    };
    newer = λ j h. omega arith;
    given = λ j h. omega arith;
    linked = λ j h. parent 3 (omega arith);
    distinct = λ j l hj hl e. omega arith;
  }

  leaf_node : (d q : ℕ) → d < 6 → d ≢ 0 → d ≢ 2 → q < d → parents d ≡ pos q → IsNode (wired m) 6 d
  leaf_node d q h n0 n2 l up = record {
    has_id = id_of d h;
    parent = inr (q, l, parent d h ∙ up, dir q (omega arith));
    c = 0;
    ids = λ j. 0;
    few = omega arith;
    kids = record {
      count =
          read_int-cong m (wired m) (inode_at d + 108)
            (λ q a b. kept q (omega arith) (ground arith))
          ∙ (v.new d h).child_count;
      entry = λ j h. absurd (omega arith);
      small = λ j h. absurd (omega arith);
    };
    newer = λ j h. absurd (omega arith);
    given = λ j h. absurd (omega arith);
    linked = λ j h. absurd (omega arith);
    distinct = λ j l a b. absurd (omega arith);
  }

  node : (d : ℕ) → d < 6 → IsNode (wired m) 6 d
  node zero h = root_node
  node (suc zero) h = leaf_node 1 0 h (omega arith) (omega arith) (omega arith) refl
  node (suc (suc zero)) h = home_node
  node (suc (suc (suc zero))) h = leaf_node 3 2 h (omega arith) (omega arith) (omega arith) refl
  node (suc (suc (suc (suc zero)))) h =
      leaf_node 4 0 h (omega arith) (omega arith) (omega arith) refl
  node (suc (suc (suc (suc (suc zero))))) h =
      leaf_node 5 0 h (omega arith) (omega arith) (omega arith) refl
  node (suc (suc (suc (suc (suc (suc d)))))) h = absurd (omega arith)

  pub wired-IsTree : IsTree (wired m) 6
  wired-IsTree = record {
    rooted = omega arith;
    bound = omega arith;
    root = dir 0 (omega arith);
    node = node;
  }

  pub wired_dirs : (d : ℕ) → d < 6 → is_dir (wired m) (inode_at d) ≡ true
  wired_dirs = dir

  pub wired-AllHold : AllHold (wired m) 6 bs (λ _. none)
  wired-AllHold i h = empty i h

  pub wired-IsStore : IsStore (wired m) 6 bs
  wired-IsStore = record {
    heap = IsChain-SameOutside m (wired m) data_region_offset bs low (omega arith) v.heap;
    content = λ i h. (none, empty i h);
    separate =
        λ i j o hi hj ei ej. let clash : minus_one ≡ pos o = sym (empty i hi) ∙ ei in absurd (cc);
  }
    where
      low : SameOutside 0 data_region_offset m (wired m)
      low q out = kept q (inr (omega arith)) (inr (omega arith))
