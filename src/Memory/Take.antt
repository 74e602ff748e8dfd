-- ===== src/Memory/Take.antt =====
-- What `alloc` (libs/memory.c) does to the block that it has found: the headers that it writes.
use mineos.Base.{
  ℕ, ◌+◌, ◌-◌, ◌^◌, ◌≤◌, ◌<◌, ◌≡◌, refl, ◌⊎◌, inl, inr, ◌∙◌, subst, true, false, List, [], ◌∷◌,
  ◌++◌, arith, ℤ, pos, leb, some, Bool-cases,
}
use mineos.Math.{IsInt}
use mineos.Math.Bounds.{my_add-pos, my_sub-pos}
use mineos.Bytes.{Bytes, read_int, write_int}
use mineos.Bytes.Ints.{read_int-write_int, read_int-write_other}
use mineos.Bytes.Outside.{SameOutside, write_int-SameOutside, SameOutside-wider}
use mineos.Memory.Layout.{ram_size}
use mineos.Memory.{Ptr, split, take_block}
use mineos.Memory.FirstFit.{carve}
use mineos.Memory.Chain.{
  Block, block, span, start, Header, IsChain, IsChain-span, IsChain-SameOutside,
}

pub read_past :
    (m : Bytes) (p : ℕ) (v : ℤ) (q : ℕ) {x : ℤ}
    → (q + 4 ≤ p) ⊎ (p + 4 ≤ q)
    → read_int m q ≡ x
    → read_int (write_int m p v) q ≡ x
read_past m p v q apart e = read_int-write_other m p q v apart ∙ e

pub IsInt-start : (p : ℕ) (bs : List Block) → p ≤ ram_size → IsInt (start p bs)
IsInt-start p [] h = omega arith
IsInt-start p (b ∷ bs) h = omega arith

-- The six writes of a split: the free block at `r`, then the block at `q`.
module _ (m : Bytes) (q r : ℕ) (size rest next : ℤ) where
  abbrev free_written : Bytes
  free_written = write_int (write_int (write_int m r rest) (r + 4) (pos 1)) (r + 8) next

  abbrev both_written : Bytes
  both_written =
      write_int (write_int (write_int free_written q size) (q + 8) (pos r)) (q + 4) (pos 0)

  at_free : (p : ℕ) {x : ℤ} → q + 12 ≤ p → read_int free_written p ≡ x → read_int both_written p ≡ x
  at_free p h e = read_past _ (q + 4) (pos 0) p (omega arith) (
      read_past _ (q + 8) (pos r) p (omega arith) (read_past free_written q size p (omega arith) e))

  both_written-SameOutside : (hi : ℕ) → q + 12 ≤ r → r + 12 ≤ hi → SameOutside q hi m both_written
  both_written-SameOutside hi h k p out =
      write_int-SameOutside _ (q + 4) (pos 0) p (omega arith)
      ∙ write_int-SameOutside _ (q + 8) (pos r) p (omega arith)
      ∙ write_int-SameOutside free_written q size p (omega arith)
      ∙ write_int-SameOutside _ (r + 8) next p (omega arith)
      ∙ write_int-SameOutside _ (r + 4) (pos 1) p (omega arith)
      ∙ write_int-SameOutside m r rest p (omega arith)

  module _ (n k : ℕ) (int : IsInt next) (eq_size : size ≡ pos n) (eq_rest : rest ≡ pos k)
      (small : n < 2 ^ 31) (small_rest : k < 2 ^ 31) (fit : r < 2 ^ 31) where
    taken-Header : Header both_written q (block n false) (pos r)
    taken-Header = record {
      size = read_past _ (q + 4) (pos 0) q (omega arith) (
          read_past _ (q + 8) (pos r) q (omega arith)
            (read_int-write_int free_written q size (rw eq_size (omega arith)) ∙ eq_size));
      free = read_int-write_int _ (q + 4) (pos 0) (omega arith);
      next =
          read_past _ (q + 4) (pos 0) (q + 8) (omega arith)
            (read_int-write_int (write_int free_written q size) (q + 8) (pos r) (omega arith));
    }

    left-Header : q + 12 ≤ r → Header both_written r (block k true) next
    left-Header h = record {
      size = at_free r (omega arith) (
          read_past _ (r + 8) next r (omega arith) (
            read_past _ (r + 4) (pos 1) r (omega arith)
              (read_int-write_int m r rest (rw eq_rest (omega arith)) ∙ eq_rest)));
      free = at_free (r + 4) (omega arith) (
          read_past _ (r + 8) next (r + 4) (omega arith)
            (read_int-write_int (write_int m r rest) (r + 4) (pos 1) (omega arith)));
      next = at_free (r + 8) (omega arith) (read_int-write_int _ (r + 8) next int);
    }

-- What `alloc` has done to the block `b` at `q`, for a request of `n` bytes.
pub record Taken (m : Bytes) (q n : ℕ) (b : Block) (bs : List Block) (r : Ptr × Bytes)
    : Type 0 where
  pub pointer : r.0 ≡ some (pos (q + 12))
  pub chain : IsChain r.1 q (carve n b ++ bs)
  pub same : SameOutside q (q + 12 + b.size) m r.1

module _ (m : Bytes) (q n : ℕ) (b : Block) (bs : List Block) (c : IsChain m q (b ∷ bs))
    (asked : 0 < n) (room : n ≤ b.size) where
  end_of_block : q + 12 + b.size + span bs ≡ ram_size
  end_of_block = IsChain-span m (q + 12 + b.size) bs c.2

  take_whole :
      leb 13 (b.size - n) ≡ false
      → Taken m q n b bs (some (pos (q + 12)), write_int m (q + 4) (pos 0))
  unfolding carve
  take_whole e =
      let old = c.0 in
      let same : SameOutside q (q + 12 + b.size) m (write_int m (q + 4) (pos 0)) =
        SameOutside-wider m _ (write_int-SameOutside m (q + 4) (pos 0)) (omega arith)
          (omega arith) in
      record {
        pointer = refl;
        chain = rw e (
          record {
            size = read_past m (q + 4) (pos 0) q (omega arith) old.size;
            free = read_int-write_int m (q + 4) (pos 0) (omega arith);
            next = read_past m (q + 4) (pos 0) (q + 8) (omega arith) old.next;
          },
          c.1,
          IsChain-SameOutside m _ (q + 12 + b.size) bs same (omega arith) c.2,
        );
        same = same;
      }

  take_part :
      leb 13 (b.size - n) ≡ true
      → Taken m q n b bs (
        some (pos (q + 12)),
        both_written m q (q + 12 + n) (pos n) (pos (b.size - n - 12)) (start (q + 12 + b.size) bs),
      )
  unfolding carve
  take_part e =
      let r : ℕ = q + 12 + n in
      let k : ℕ = b.size - n - 12 in
      let next : ℤ = start (q + 12 + b.size) bs in
      let big : 13 ≤ b.size - n = ground arith in
      let fill = end_of_block in
      let int : IsInt next = IsInt-start (q + 12 + b.size) bs (omega arith) in
      let behind : q + 12 + b.size ≡ r + 12 + k = omega arith in
      let same : SameOutside q (q + 12 + b.size) m (both_written m q r (pos n) (pos k) next) =
        both_written-SameOutside m q r (pos n) (pos k) next (q + 12 + b.size) (omega arith)
          (omega arith) in
      let left =
        left-Header m q r (pos n) (pos k) next n k int refl refl (omega arith) (omega arith)
          (omega arith) (omega arith) in
      record {
        pointer = refl;
        chain = rw e (
          taken-Header m q r (pos n) (pos k) next n k int refl refl (omega arith) (omega arith)
              (omega arith),
          asked,
          (
            subst
                (λ t.
                  Header (both_written m q r (pos n) (pos k) next) r (block k true) (start t bs))
                behind left,
            omega arith,
            subst (λ t. IsChain (both_written m q r (pos n) (pos k) next) t bs) behind
                (IsChain-SameOutside m _ (q + 12 + b.size) bs same (omega arith) c.2),
          ),
        );
        same = same;
      }

  split-written :
      n + 13 ≤ b.size
      → write_int (split m (pos q) (pos n)) (q + 4) (pos 0)
        ≡ both_written m q (q + 12 + n) (pos n) (pos (b.size - n - 12)) (start (q + 12 + b.size) bs)
  unfolding split
  split-written big =
      let fill = end_of_block in
      let h = c.0 in
      let kept =
        read_past (write_int m (q + 12 + n) (pos (b.size - n - 12))) (q + 12 + n + 4) (pos 1)
          (q + 8) (omega arith)
          (read_past m (q + 12 + n) (pos (b.size - n - 12)) (q + 8) (omega arith) h.next) in
      rw
        (
          h.size,
          my_sub-pos b.size n (omega arith) (omega arith),
          my_sub-pos (b.size - n) 12 (omega arith) (omega arith),
          my_add-pos q 12 (omega arith),
          my_add-pos (q + 12) n (omega arith),
          kept,
        )
        refl

  pub take_block-Taken : Taken m q n b bs (take_block m (pos q) (pos n))
  unfolding take_block
  take_block-Taken =
      let fill = end_of_block in
      let h = c.0 in
      rw
        (
          h.size,
          my_add-pos q 12 (omega arith),
          my_add-pos 12 1 (omega arith),
          my_sub-pos b.size n (omega arith) (omega arith),
        )
        (elim (Bool-cases (leb 13 (b.size - n))) [
          | inl e ↦ rw (e, split-written (ground arith)) (take_part e)
          | inr e ↦ rw e (take_whole e)
        ])
