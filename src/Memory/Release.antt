-- ===== src/Memory/Release.antt =====
-- `dealloc` (libs/memory.c) frees the block whose address it is given, and joins it to the next.
use mineos.Base.{
  ℕ, ◌+◌, ◌-◌, ◌≡◌, refl, inl, inr, ◌∙◌, subst, Bool, true, false, List, [], ◌∷◌, ◌++◌, arith, ℤ,
  pos, minus_one, eqb_ℤ, not, some, Bool-cases, if_cases,
}
use mineos.Math.Bounds.{my_add-pos, my_sub-pos, in_bounds-pos}
use mineos.Bytes.{Bytes, read_int, write_int}
use mineos.Bytes.Ints.{read_int-write_int}
use mineos.Bytes.Outside.{SameOutside, write_int-SameOutside, SameOutside-wider}
use mineos.Machine.{Machine}
use mineos.Memory.Layout.{ram_size, data_region_offset}
use mineos.Memory.{is_free, free_block, dealloc}
use mineos.Memory.FirstFit.{coalesce}
use mineos.Memory.Take.{read_past, IsInt-start}
use mineos.Memory.Chain.{
  Block, block, flag, span, start, IsChain, IsHeap, IsChain-span, IsChain-SameOutside, IsChain-drop,
  IsChain-replace,
}

-- What `dealloc` has done to the block `b` at `q`.
pub record Freed (m : Bytes) (q : ℕ) (b : Block) (bs : List Block) (m' : Bytes) : Type 0 where
  pub chain : IsChain m' q (coalesce b bs)
  pub same : SameOutside q (q + 12) m m'

coalesce_free :
    (b d : Block) (bs : List Block)
    → d.free ≡ true
    → coalesce b (d ∷ bs) ≡ block (b.size + 12 + d.size) true ∷ bs
unfolding coalesce
coalesce_free b d bs e = simp e

coalesce_used :
    (b d : Block) (bs : List Block)
    → d.free ≡ false
    → coalesce b (d ∷ bs) ≡ block b.size true ∷ d ∷ bs
unfolding coalesce
coalesce_used b d bs e = simp e

pub flag_test : (f : Bool) → not (eqb_ℤ (flag f) (pos 0)) ≡ f
flag_test true = refl
flag_test false = refl

module _ (m : Bytes) (q : ℕ) (b : Block) where
  free_last : IsChain m q (b ∷ []) → Freed m q b [] (free_block m (pos q))
  unfolding free_block coalesce
  free_last c =
      let h = c.0 in
      let m1 : Bytes = write_int m (q + 4) (pos 1) in
      let size : read_int m1 q ≡ pos b.size = read_past m (q + 4) (pos 1) q (omega arith) h.size in
      let next : read_int m1 (q + 8) ≡ minus_one =
        read_past m (q + 4) (pos 1) (q + 8) (omega arith) h.next in
      rw next (record {
        chain = (
          record {
            size = size;
            free = read_int-write_int m (q + 4) (pos 1) (omega arith);
            next = next;
          },
          c.1,
          c.2,
        );
        same =
            SameOutside-wider m m1 (write_int-SameOutside m (q + 4) (pos 1)) (omega arith)
              (omega arith);
      })

  module _ (d : Block) (bs : List Block) (c : IsChain m q (b ∷ d ∷ bs)) where
    abbrev marked : Bytes
    marked = write_int m (q + 4) (pos 1)

    abbrev next_offset : ℕ
    next_offset = q + 12 + b.size

    marked-same : SameOutside q (q + 12) m marked
    marked-same =
        SameOutside-wider m marked (write_int-SameOutside m (q + 4) (pos 1)) (omega arith)
          (omega arith)

    size_marked : read_int marked q ≡ pos b.size
    size_marked = let h = c.0 in read_past m (q + 4) (pos 1) q (omega arith) h.size

    next_marked : read_int marked (q + 8) ≡ pos next_offset
    next_marked = let h = c.0 in read_past m (q + 4) (pos 1) (q + 8) (omega arith) h.next

    behind_marked : IsChain marked next_offset (d ∷ bs)
    behind_marked = IsChain-SameOutside m marked next_offset (d ∷ bs) marked-same (omega arith) c.2

    free_apart : d.free ≡ false → Freed m q b (d ∷ bs) marked
    free_apart e = record {
      chain = rw (coalesce_used b d bs e) (
        record {
          size = size_marked;
          free = read_int-write_int m (q + 4) (pos 1) (omega arith);
          next = next_marked;
        },
        c.1,
        behind_marked,
      );
      same = marked-same;
    }

    -- The writes that absorb the next block.
    abbrev absorbed : Bytes
    absorbed =
        write_int (write_int marked q (pos (b.size + 12 + d.size))) (q + 8)
          (start (next_offset + 12 + d.size) bs)

    absorbed-same : SameOutside q (q + 12) m absorbed
    absorbed-same p out =
        write_int-SameOutside _ (q + 8) _ p (omega arith)
        ∙ write_int-SameOutside marked q _ p (omega arith)
        ∙ marked-same p out

    free_joined : d.free ≡ true → Freed m q b (d ∷ bs) absorbed
    free_joined e =
        let fill = IsChain-span m next_offset (d ∷ bs) c.2 in
        let size : ℤ = pos (b.size + 12 + d.size) in
        let next : ℤ = start (next_offset + 12 + d.size) bs in
        let end : next_offset + 12 + d.size ≡ q + 12 + (b.size + 12 + d.size) = omega arith in
        record {
          chain = rw (coalesce_free b d bs e) (
            record {
              size =
                  read_past (write_int marked q size) (q + 8) next q (omega arith)
                    (read_int-write_int marked q size (omega arith));
              free = read_past (write_int marked q size) (q + 8) next (q + 4) (omega arith) (
                  read_past marked q size (q + 4) (omega arith)
                    (read_int-write_int m (q + 4) (pos 1) (omega arith)));
              next =
                  subst (λ t. read_int absorbed (q + 8) ≡ start t bs) end
                    (read_int-write_int (write_int marked q size) (q + 8) next
                      (IsInt-start (next_offset + 12 + d.size) bs (omega arith)));
            },
            omega arith,
            subst (λ t. IsChain absorbed t bs) end
                (IsChain-SameOutside m absorbed (next_offset + 12 + d.size) bs absorbed-same
                  (omega arith) c.2.2),
          );
          same = absorbed-same;
        }

    free_before : Freed m q b (d ∷ bs) (free_block m (pos q))
    unfolding free_block is_free
    free_before =
        let fill = IsChain-span m next_offset (d ∷ bs) c.2 in
        let g = behind_marked.0 in
        let next =
          read_past marked q (pos (b.size + 12 + d.size)) (next_offset + 8) (omega arith) g.next in
        rw
          (
            next_marked,
            g.free,
            flag_test d.free,
            size_marked,
            g.size,
            my_add-pos b.size 12 (omega arith),
            my_add-pos (b.size + 12) d.size (omega arith),
            next,
          )
          (if_cases (Freed m q b (d ∷ bs)) d.free _ _ free_joined free_apart)

free_block-Freed :
    (m : Bytes) (q : ℕ) (b : Block) (bs : List Block)
    → IsChain m q (b ∷ bs)
    → Freed m q b bs (free_block m (pos q))
free_block-Freed m q b [] c = free_last m q b c
free_block-Freed m q b (d ∷ bs) c = free_before m q b d bs c

coalesce-cons :
    (b : Block) (bs : List Block) → (c : Block) × (cs : List Block) × (coalesce b bs ≡ c ∷ cs)
unfolding coalesce
coalesce-cons b [] = (block b.size true, [], refl)
coalesce-cons b (d ∷ bs) = elim (Bool-cases d.free) [
  | inl e ↦ (block (b.size + 12 + d.size) true, bs, coalesce_free b d bs e)
  | inr e ↦ (block b.size true, d ∷ bs, coalesce_used b d bs e)
]

-- On a heap, `dealloc` of the address behind the header of one of its blocks leaves a heap in which
-- that block is free, and joined to the next one if that was free; it writes nowhere outside of
-- that header and prints nothing.
pub dealloc-coalesce :
    (k : Machine) (pre : List Block) (b : Block) (bs : List Block)
    → IsHeap k.ram (pre ++ b ∷ bs)
    → let at = data_region_offset + span pre in
      let k' = dealloc (some (pos (at + 12))) k in
      IsHeap k'.ram (pre ++ coalesce b bs)
      × SameOutside at (at + 12) k.ram k'.ram
      × (k'.printed ≡ k.printed)
unfolding dealloc
dealloc-coalesce k pre b bs c =
    let q : ℕ = data_region_offset + span pre in
    let here = IsChain-drop k.ram data_region_offset q pre (b ∷ bs) refl c in
    let fill = IsChain-span k.ram q (b ∷ bs) here in
    let (d, ds, joined) = coalesce-cons b bs in
    let done = free_block-Freed k.ram q b bs here in
    let new = subst (IsChain (free_block k.ram (pos q)) q) joined done.chain in
    let back : q + 12 - 12 ≡ q = omega arith in
    rw
      (
        my_sub-pos (q + 12) 12 (omega arith) (omega arith),
        my_sub-pos ram_size 12 (omega arith) (omega arith),
        back,
        in_bounds-pos q data_region_offset (ram_size - 12) (omega arith) (omega arith),
      )
      (
        rw joined (IsChain-replace k.ram _ data_region_offset q pre b d bs ds refl done.same c new),
        done.same,
        refl,
      )
