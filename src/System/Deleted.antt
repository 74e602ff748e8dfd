-- ===== src/System/Deleted.antt =====
-- The tree and the contents behind a call of `fs_delete` (core/fs.c) that has deleted an inode.
use mineos.Base.{
  ℕ, ◌+◌, ◌-◌, ◌≤◌, ◌<◌, ◌≡◌, ◌≢◌, ◌∙◌, sym, subst, ◌⊎◌, inl, inr, arith, ℤ, pos, minus_one, List,
  dec_eq, ltb, if◌then◌else◌, if_cases, none,
}
use mineos.Bytes.{Bytes, read_int}
use mineos.Bytes.Ints.{read_int-cong}
use mineos.Machine.{Machine}
use mineos.Memory.Layout.{data_region_offset}
use mineos.Memory.Chain.{Block, IsHeap}
use mineos.Memory.Stays.{Stays}
use mineos.Fs.Inodes.{inode_at}
use mineos.Fs.Layout.{child_at}
use mineos.Fs.Delete.{Deleted}
use mineos.System.{parent_field, offset_of, IsNode, IsTree, IsStore, Contents, AllHold}
use mineos.System.Nodes.{
  KeepsContent, content-SameIn, HasParent-cong, KeepsLinks, KeepsParent, IsNode-KeepsLinks,
  KeepsDirs, KeepsParent-cong,
}
use mineos.System.Store.{emptied, emptied-IsStore, update}

module _ (m m' : Bytes) (bs : List Block) (i d x n : ℕ) (v : IsTree m n) (hi : i < n) (hd : d < n)
    (node : IsNode m n i) (hx : x < node.c) (here : node.ids x ≡ d) (r : ℤ × Machine)
    (gone : Deleted m bs i d node.c x node.ids r) (e : r.1.ram ≡ m') where
  same :
      (q : ℕ)
      → q < data_region_offset
      → (q < inode_at i + 44) ⊎ (inode_at i + 112 ≤ q)
      → (q < inode_at d + 4) ⊎ (inode_at d + 5 ≤ q)
      → (q < inode_at d + 112) ⊎ (inode_at d + 124 ≤ q)
      → m' q ≡ m q
  same q h a b c = rw (← e) (gone.same q h a b c)

  keeps_others : (l : ℕ) → l < n → l ≢ i → KeepsLinks m m' l
  keeps_others l h ne q (inl w) =
      let bound = v.bound in same q (omega arith) (ground arith) (ground arith) (ground arith)
  keeps_others l h ne q (inr w) =
      let bound = v.bound in same q (omega arith) (ground arith) (ground arith) (ground arith)

  keeps_parents : (l : ℕ) → l < n → KeepsParent m m' l
  keeps_parents l h =
      let bound = v.bound in
      KeepsParent-cong m m' l
        λ q a b. same q (omega arith) (ground arith) (ground arith) (ground arith)

  abbrev ids_without : ℕ → ℕ
  ids_without j = if ltb j x then node.ids j else node.ids (j + 1)

  entry_without :
      (j : ℕ) → j < node.c - 1 → read_int m' (child_at (inode_at i) j) ≡ pos (ids_without j)
  entry_without j h =
      if_cases (λ (id : ℕ). read_int m' (child_at (inode_at i) j) ≡ pos id) (ltb j x) _ _
        (λ l. rw (← e) (gone.front j (ground arith)))
        (λ l. rw (← e) (gone.back j (ground arith) (omega arith)))

  linked_without : (j : ℕ) → j < node.c - 1 → parent_field m' (ids_without j) ≡ pos i
  linked_without j h =
      if_cases (λ (id : ℕ). parent_field m' id ≡ pos i) (ltb j x) _ _
        (λ l.
          (keeps_parents (node.ids j) (node.given j (omega arith))).0 ∙ node.linked j (omega arith))
        (λ l.
          (keeps_parents (node.ids (j + 1)) (node.given (j + 1) (omega arith))).0
          ∙ node.linked (j + 1) (omega arith))

  parent_node : IsNode m' n i
  parent_node =
      let bound = v.bound in
      let few = node.few in
      record {
        has_id =
            read_int-cong m m' (inode_at i)
              (λ q a b. same q (omega arith) (omega arith) (ground arith) (ground arith))
            ∙ node.has_id;
        parent = HasParent-cong m m' n i hi keeps_parents node.parent;
        c = node.c - 1;
        ids = ids_without;
        few = omega arith;
        kids = record {
          count = rw (← e) gone.count;
          entry = entry_without;
          small = λ j h. ground (arith, node.given j, node.given (j + 1));
        };
        newer = λ j h. ground (arith, node.newer j, node.newer (j + 1));
        given = λ j h. ground (arith, node.given j, node.given (j + 1));
        linked = linked_without;
        distinct = λ j l a b. ground (
          arith,
          node.distinct j l,
          node.distinct (j + 1) l,
          node.distinct j (l + 1),
          node.distinct (j + 1) (l + 1),
        );
      }

  pub deleted-KeepsDirs : KeepsDirs m m' n
  deleted-KeepsDirs l h = (keeps_parents l h).1

  pub deleted-IsTree : IsTree m' n
  deleted-IsTree = record {
    rooted = v.rooted;
    bound = v.bound;
    root = (keeps_parents 0 v.rooted).1 ∙ v.root;
    node = λ l h. elim (dec_eq l i) [
      | inl eq ↦ subst (IsNode m' n) (sym eq) parent_node
      | inr ne ↦ IsNode-KeepsLinks m m' n l h (keeps_others l h ne) keeps_parents (v.node l h)
    ];
  }

  keeps_content : (l : ℕ) → l < n → l ≢ d → KeepsContent m m' l
  keeps_content l h ne =
      let bound = v.bound in
      content-SameIn m m' l
        λ q a b. same q (omega arith) (ground arith) (ground arith) (ground arith)

  module _ (store : IsStore m n bs) where
    abbrev stays : Stays m bs (offset_of m d) m' gone.blocks
    stays = subst (λ m'. Stays m bs (offset_of m d) m' gone.blocks) e gone.stays

    deleted-IsHeap : IsHeap m' gone.blocks
    deleted-IsHeap = subst (λ m. IsHeap m gone.blocks) e gone.heap

    deleted_empty : offset_of m' d ≡ minus_one
    deleted_empty = rw (← e) gone.cleared.empty

    pub deleted-IsStore : IsStore m' n gone.blocks
    deleted-IsStore =
        emptied-IsStore m m' n d keeps_content bs gone.blocks store hd stays deleted-IsHeap
          deleted_empty

    pub deleted-AllHold :
        (f : Contents) → AllHold m n bs f → AllHold m' n gone.blocks (update f d none)
    deleted-AllHold f shows l h =
        emptied m m' n d keeps_content bs gone.blocks store hd stays deleted-IsHeap deleted_empty f
          l h (shows l h)
