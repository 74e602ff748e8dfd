-- ===== src/Fs/Content.antt =====
-- `fs_write` (core/fs.c) gives the old content of the inode back before it stores the new one.
use mineos.Base.{
  ℕ, ◌+◌, ◌≤◌, ◌<◌, ◌≡◌, refl, sym, subst, ◌∙◌, ◌⊎◌, inl, inr, arith, pos, minus_one, some, List,
  ◌∷◌, ◌++◌,
}
use mineos.Bytes.{Bytes, read_int, write_int}
use mineos.Bytes.Ints.{read_int-write_int, read_int-write_other}
use mineos.Bytes.Outside.{IsOutside, write_int-SameOutside}
use mineos.Machine.{Machine}
use mineos.Memory.{dealloc}
use mineos.Memory.Layout.{data_region_offset}
use mineos.Memory.Chain.{Block, span, IsHeap, IsChain-SameOutside}
use mineos.Memory.FirstFit.{coalesce}
use mineos.Memory.Release.{dealloc-coalesce}
use mineos.Memory.Stays.{Stays, Stays-refl, Stays-above, dealloc-Stays}
use mineos.Fs.Layout.{data_offset_at}
use mineos.Fs.Files.{drop_content}

-- The content of the inode at `p` is empty, or a block of the heap.
abbrev pub HasContent : Bytes → List Block → ℕ → Type 0
HasContent m bs p =
    (read_int m (data_offset_at p) ≡ minus_one)
    ⊎ ((pre : List Block) × (b : Block) × (post : List Block) × (bs ≡ pre ++ b ∷ post)
        × (read_int m (data_offset_at p) ≡ pos (data_region_offset + span pre + 12)))

-- What `drop_content` leaves: a heap, the other used blocks, an empty inode, and every other byte below
-- the data region.
pub record Dropped (k : Machine) (bs : List Block) (p : ℕ) (k' : Machine) : Type 0 where
  pub blocks : List Block
  pub stays : Stays k.ram bs (read_int k.ram (data_offset_at p)) k'.ram blocks
  pub heap : IsHeap k'.ram blocks
  pub empty : read_int k'.ram (data_offset_at p) ≡ minus_one
  pub same : (q : ℕ) → q < data_region_offset → IsOutside (p + 112) (p + 120) q → k'.ram q ≡ k.ram q

module _ (k : Machine) (p : ℕ) (below : p + 128 ≤ data_region_offset) where
  keep_empty :
      (bs : List Block)
      → IsHeap k.ram bs
      → read_int k.ram (data_offset_at p) ≡ minus_one
      → Dropped k bs p (drop_content p k)
  unfolding drop_content
  keep_empty bs h e = rw e (record {
    blocks = bs;
    stays = Stays-refl k.ram bs (read_int k.ram (data_offset_at p));
    heap = h;
    empty = e;
    same = λ q a b. refl;
  })

  give_back :
      (pre : List Block) (b : Block) (post : List Block)
      → IsHeap k.ram (pre ++ b ∷ post)
      → read_int k.ram (data_offset_at p) ≡ pos (data_region_offset + span pre + 12)
      → Dropped k (pre ++ b ∷ post) p (drop_content p k)
  unfolding drop_content
  give_back pre b post h e =
      let done = dealloc-coalesce k pre b post h in
      let k1 : Machine = dealloc (some (pos (data_region_offset + span pre + 12))) k in
      let m1 : Bytes = write_int k1.ram (p + 112) minus_one in
      let m2 : Bytes = write_int m1 (p + 116) (pos 0) in
      rw e (record {
        blocks = pre ++ coalesce b post;
        stays =
            Stays-above k.ram k1.ram m2 (pre ++ b ∷ post) (pre ++ coalesce b post)
              (read_int k.ram (data_offset_at p))
              (λ q a.
                write_int-SameOutside m1 (p + 116) (pos 0) q (inr (omega arith))
                ∙ write_int-SameOutside k1.ram (p + 112) minus_one q (inr (omega arith)))
              (dealloc-Stays k pre b post (read_int k.ram (data_offset_at p)) h e);
        heap =
            IsChain-SameOutside m1 m2 data_region_offset _
              (write_int-SameOutside m1 (p + 116) (pos 0)) (omega arith)
              (IsChain-SameOutside k1.ram m1 data_region_offset _
                (write_int-SameOutside k1.ram (p + 112) minus_one) (omega arith) done.0);
        empty =
            read_int-write_other m1 (p + 116) (p + 112) (pos 0) (omega arith)
            ∙ read_int-write_int k1.ram (p + 112) minus_one (omega arith);
        same = λ q a out.
            write_int-SameOutside m1 (p + 116) (pos 0) q (omega arith)
            ∙ write_int-SameOutside k1.ram (p + 112) minus_one q (omega arith)
            ∙ done.1 q (inl (omega arith));
      })

  pub drop_content-Dropped :
      (bs : List Block)
      → IsHeap k.ram bs
      → HasContent k.ram bs p
      → Dropped k bs p (drop_content p k)
  drop_content-Dropped bs h (inl e) = keep_empty bs h e
  drop_content-Dropped bs h (inr (pre, b, post, e, at)) =
      subst (λ l. Dropped k l p (drop_content p k)) (sym e)
        (give_back pre b post (subst (IsHeap k.ram) e h) at)
