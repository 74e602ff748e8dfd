-- ===== src/System/Created.antt =====
-- The tree and the contents behind a call of `fs_create` (core/fs.c) that has made an inode.
use mineos.Base.{
  ℕ, ◌+◌, ◌≤◌, ◌<◌, ◌≡◌, ◌≢◌, ◌∙◌, sym, subst, ◌⊎◌, inl, inr, arith, ℤ, pos, minus_one, none, List,
  if◌then◌else◌, ◌==◌, eq→==, ne→==, dec_eq,
}
use mineos.Bytes.{Bytes, read_int}
use mineos.Bytes.Ints.{read_int-cong}
use mineos.Bytes.Outside.{SameOutside}
use mineos.Machine.{Machine}
use mineos.Memory.Layout.{max_inodes, data_region_offset}
use mineos.Memory.Chain.{Block, IsChain-SameOutside}
use mineos.Fs.Inodes.{inode_at}
use mineos.Fs.Layout.{child_at}
use mineos.Fs.Create.{HasRoom, Created}
use mineos.System.{parent_field, offset_of, IsNode, IsTree, IsStore, HoldsText, Contents, AllHold}
use mineos.System.Store.{update}
use mineos.System.Nodes.{
  HasParent-cong, HoldsText-cong, KeepsContent, content-SameIn, KeepsLinks, KeepsParent, KeepsDirs,
  KeepsParent-cong, parent-KeepsLinks, IsNode-KeepsLinks, IsNode-le,
}

module _ (m m' : Bytes) (i c n : ℕ) (type : ℤ) (r : ℤ × Machine) (made : Created m i c n 260 type r)
    (e : r.1.ram ≡ m') (order : i < n) (bound : n < max_inodes) (tree : IsTree m n)
    (dir : HasRoom m i c) where
  same :
      (q : ℕ)
      → (q < inode_at n) ⊎ (inode_at n + 260 ≤ q)
      → (q < inode_at i + 44) ⊎ (inode_at i + 112 ≤ q)
      → m' q ≡ m q
  same q a b = let room = dir.room in rw (← e) (made.same q a (omega arith) (omega arith))

  keeps_others : (d : ℕ) → d < n → d ≢ i → KeepsLinks m m' d
  keeps_others d h ne q (inl w) = same q (inl (omega arith)) (ground arith)
  keeps_others d h ne q (inr w) = same q (inl (omega arith)) (ground arith)

  keeps_parents : (d : ℕ) → d < n → KeepsParent m m' d
  keeps_parents d h = elim (dec_eq d i) [
    | inl eq ↦ KeepsParent-cong m m' d (λ q a b. same q (inl (omega arith)) (inl (omega arith)))
    | inr ne ↦ parent-KeepsLinks m m' d (keeps_others d h ne)
  ]

  -- The children of the directory, with the new one.
  abbrev ids_with : (ℕ → ℕ) → ℕ → ℕ
  ids_with ids j = if j == c then n else ids j

  parent_node : IsNode m n i → IsNode m' (n + 1) i
  parent_node v =
      let full = dir.room in
      let new : IsNode m n i = v in
      let count_eq : v.c ≡ c = pos_inj (sym v.kids.count ∙ dir.children) in
      record {
        has_id =
            read_int-cong m m' (inode_at i)
              (λ q a b. same q (inl (omega arith)) (inl (omega arith)))
            ∙ v.has_id;
        parent = HasParent-cong m m' n i order keeps_parents v.parent;
        c = c + 1;
        ids = ids_with v.ids;
        few = omega arith;
        kids = record {
          count = rw (← e) made.count;
          entry = entry_with v count_eq;
          small = λ j h. ground (arith, v.given j);
        };
        newer = λ j h. ground (arith, v.newer j);
        given = λ j h. ground (arith, v.given j);
        linked = λ j h. linked_with v count_eq j h;
        distinct = λ j l a b. ground (arith, v.distinct j l, v.given j, v.given l);
      }
    where
      pos_inj : {a b : ℕ} → pos a ≡ pos b → a ≡ b
      pos_inj h = cc

      entry_with :
          (v : IsNode m n i)
          → v.c ≡ c
          → (j : ℕ) → j < c + 1
          → read_int m' (child_at (inode_at i) j) ≡ pos (ids_with v.ids j)
      entry_with v ce j h = elim (dec_eq j c) [
        | inl eq ↦ rw (eq→== j c eq, eq, ← e) made.child
        | inr ne ↦ rw (ne→== j c ne) (
            rw (← e) (
              read_int-cong m r.1.ram (child_at (inode_at i) j) (λ q a b.
                made.same q (inl (omega arith)) (inl (omega arith))
                  (inl (omega (arith, dir.room)))))
            ∙ v.kids.entry j (omega arith))
      ]

      linked_with :
          (v : IsNode m n i)
          → v.c ≡ c
          → (j : ℕ) → j < c + 1
          → parent_field m' (ids_with v.ids j) ≡ pos i
      linked_with v ce j h = elim (dec_eq j c) [
        | inl eq ↦ rw (eq→== j c eq, ← e) made.new.parent_id
        | inr ne ↦
            rw (ne→== j c ne)
              ((keeps_parents (v.ids j) (v.given j (omega arith))).0 ∙ v.linked j (omega arith))
      ]

  new_node : IsNode m' (n + 1) n
  new_node =
      let new = made.new in
      record {
        has_id = rw (← e) new.has_id;
        parent = inr (i, order, rw (← e) new.parent_id, (keeps_parents i order).1 ∙ dir.directory);
        c = 0;
        ids = λ j. 0;
        few = omega arith;
        kids = record {
          count = rw (← e) new.child_count;
          entry = λ j h. absurd (omega arith);
          small = λ j h. absurd (omega arith);
        };
        newer = λ j h. absurd (omega arith);
        given = λ j h. absurd (omega arith);
        linked = λ j h. absurd (omega arith);
        distinct = λ j l a b. absurd (omega arith);
      }

  pub created-KeepsDirs : KeepsDirs m m' n
  created-KeepsDirs d h = (keeps_parents d h).1

  pub created-IsTree : IsTree m' (n + 1)
  created-IsTree = record {
    rooted = omega arith;
    bound = omega arith;
    root = (keeps_parents 0 tree.rooted).1 ∙ tree.root;
    node = λ d h. elim (dec_eq d n) [
      | inl eq ↦ subst (IsNode m' (n + 1)) (sym eq) new_node
      | inr ne ↦ elim (dec_eq d i) [
        | inl eq ↦ subst (IsNode m' (n + 1)) (sym eq) (parent_node (tree.node i order))
        | inr other ↦ IsNode-le m' n (n + 1) d (omega arith) (
            IsNode-KeepsLinks m m' n d (omega arith) (keeps_others d (omega arith) other)
              keeps_parents (tree.node d (omega arith)))
      ]
    ];
  }

  keeps_content : (d : ℕ) → d < n → KeepsContent m m' d
  keeps_content d h = content-SameIn m m' d λ q a b. same q (inl (omega arith)) (ground arith)

  new_offset : offset_of m' n ≡ minus_one
  new_offset = rw (← e) made.new.data_offset

  -- The new inode is empty, and the others hold what they held.
  created :
      (bs : List Block) (f : Contents) (d : ℕ)
      → d < n + 1
      → (d < n → HoldsText m bs d (f d))
      → HoldsText m' bs d (update f n none d)
  created bs f d h old = elim (dec_eq d n) [
    | inl eq ↦ rw (eq→== d n eq) (subst (λ d. offset_of m' d ≡ minus_one) (sym eq) new_offset)
    | inr ne ↦ rw (ne→== d n ne) (
        HoldsText-cong m m' bs d (f d) (keeps_content d (omega arith))
          (λ q a. same q (inr (omega arith)) (inr (omega arith))) (old (omega arith)))
  ]

  pub created-AllHold :
      (bs : List Block) (f : Contents) → AllHold m n bs f → AllHold m' (n + 1) bs (update f n none)
  created-AllHold bs f old d h = created bs f d h (old d)

  pub created-IsStore : (bs : List Block) → IsStore m n bs → IsStore m' (n + 1) bs
  created-IsStore bs v = record {
    heap = IsChain-SameOutside m m' data_region_offset bs high (omega arith) v.heap;
    content = λ d h. elim (dec_eq d n) [
      | inl eq ↦ (none, subst (λ d. offset_of m' d ≡ minus_one) (sym eq) new_offset)
      | inr ne ↦
          let (c, old) = v.content d (omega arith) in
          (update (λ _. c) n none d, created bs (λ _. c) d h (λ _. old))
    ];
    separate = λ d l o hd hl ed el. elim (dec_eq d n) [
      | inl eq ↦ absurd (none_new d o eq ed)
      | inr ne ↦ elim (dec_eq l n) [
        | inl eq ↦ absurd (none_new l o eq el)
        | inr ne' ↦
            v.separate d l o (omega arith) (omega arith)
              (sym (keeps_content d (omega arith)).0 ∙ ed)
              (sym (keeps_content l (omega arith)).0 ∙ el)
      ]
    ];
  }
    where
      high : SameOutside 0 data_region_offset m m'
      high q out = same q (inr (omega arith)) (inr (omega arith))

      none_new : (d o : ℕ) → d ≡ n → offset_of m' d ≡ pos o → ⊥
      none_new d o eq h =
          let clash : minus_one ≡ pos o =
            sym (subst (λ d. offset_of m' d ≡ minus_one) (sym eq) new_offset) ∙ h in
          cc
