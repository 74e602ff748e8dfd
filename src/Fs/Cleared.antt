-- ===== src/Fs/Cleared.antt =====
-- What `fs_delete` (core/fs.c) does to the deleted inode and to its content.
use mineos.Base.{
  ℕ, ◌+◌, ◌<◌, ◌≡◌, refl, ◌∙◌, subst, ◌⊎◌, inl, inr, arith, pos, minus_one, List, ◌∷◌, ◌++◌,
}
use mineos.Bytes.{Bytes, put, read_int, write_int}
use mineos.Bytes.Ints.{read_int-write_int, read_int-SameOutside}
use mineos.Bytes.Outside.{SameOutside, IsOutside, put_other, write_int-SameOutside}
use mineos.Machine.{Machine}
use mineos.Memory.Layout.{data_region_offset}
use mineos.Memory.Chain.{Block, IsHeap, span}
use mineos.Memory.FirstFit.{coalesce}
use mineos.Memory.Release.{dealloc-coalesce}
use mineos.Memory.Owners.{RoomAt}
use mineos.Memory.Stays.{Stays, Stays-refl, dealloc-Stays}
use mineos.Memory.Take.{read_past}
use mineos.Fs.Layout.{name_at, data_offset_at, data_size_at, is_active_at}
use mineos.Fs.Files.{clear_inode, free_content}
use mineos.Fs.Content.{HasContent}

-- The heap when the content of the inode at `p` is given back: as before if there is none, and else
-- with the block free.
abbrev pub GivesBack : Bytes → List Block → ℕ → List Block → Type 0
GivesBack m bs p after =
    ((read_int m (data_offset_at p) ≡ minus_one) × (after ≡ bs))
    ⊎ ((pre : List Block) × (b : Block) × (post : List Block) × (bs ≡ pre ++ b ∷ post)
        × (read_int m (data_offset_at p) ≡ pos (data_region_offset + span pre + 12))
        × (after ≡ pre ++ coalesce b post))

-- What `free_content` leaves: a heap, the other used blocks, and every byte below the data region.
pub record Freed (k : Machine) (bs : List Block) (p : ℕ) (k' : Machine) : Type 0 where
  pub blocks : List Block
  pub gives_back : GivesBack k.ram bs p blocks
  pub stays : Stays k.ram bs (read_int k.ram (data_offset_at p)) k'.ram blocks
  pub heap : IsHeap k'.ram blocks
  pub same : (q : ℕ) → q < data_region_offset → k'.ram q ≡ k.ram q

pub free_content-Freed :
    (k : Machine) (bs : List Block) (p : ℕ)
    → IsHeap k.ram bs
    → HasContent k.ram bs p
    → Freed k bs p (free_content p k)
unfolding free_content
free_content-Freed k bs p h (inl e) = rw e (record {
  blocks = bs;
  gives_back = inl (e, refl);
  stays = Stays-refl k.ram bs (read_int k.ram (data_offset_at p));
  heap = h;
  same = λ q a. refl;
})
free_content-Freed k bs p h (inr (pre, b, post, e, at)) =
    let done = dealloc-coalesce k pre b post (subst (IsHeap k.ram) e h) in
    rw at (record {
      blocks = pre ++ coalesce b post;
      gives_back = inr (pre, b, post, e, at, refl);
      stays = λ o n ne u.
          dealloc-Stays k pre b post (read_int k.ram (data_offset_at p)) (subst (IsHeap k.ram) e h)
            at o n ne (subst (RoomAt data_region_offset o n) e u);
      heap = done.0;
      same = λ q a. done.1 q (inl (omega arith));
    })

-- The inode at `p` is no longer in use.
pub record IsCleared (m : Bytes) (p : ℕ) : Type 0 where
  pub inactive : read_int m (is_active_at p) ≡ pos 0
  pub unnamed : m (name_at p) ≡ 0
  pub empty : read_int m (data_offset_at p) ≡ minus_one
  pub no_size : read_int m (data_size_at p) ≡ pos 0

module _ (m : Bytes) (p : ℕ) where
  abbrev m1 : Bytes
  m1 = write_int m (p + 120) (pos 0)

  abbrev m2 : Bytes
  m2 = put m1 (p + 4) 0

  abbrev m3 : Bytes
  m3 = write_int m2 (p + 112) minus_one

  named : SameOutside (p + 4) (p + 5) m1 m2
  named q out = put_other m1 (p + 4) 0 q (omega arith)

  pub clear_inode-same :
      (q : ℕ)
      → IsOutside (p + 4) (p + 5) q
      → IsOutside (p + 112) (p + 124) q
      → clear_inode p m q ≡ m q
  unfolding clear_inode
  clear_inode-same q a b =
      write_int-SameOutside m3 (p + 116) (pos 0) q (omega arith)
      ∙ write_int-SameOutside m2 (p + 112) minus_one q (omega arith)
      ∙ named q a
      ∙ write_int-SameOutside m (p + 120) (pos 0) q (omega arith)

  zero_put : m2 (p + 4) ≡ 0
  unfolding put
  zero_put = ground arith

  pub clear_inode-IsCleared : IsCleared (clear_inode p m) p
  unfolding clear_inode
  clear_inode-IsCleared = record {
    inactive = read_past m3 (p + 116) (pos 0) (p + 120) (omega arith) (
        read_past m2 (p + 112) minus_one (p + 120) (omega arith) (
          read_int-SameOutside m1 m2 (p + 120) named (omega arith)
          ∙ read_int-write_int m (p + 120) (pos 0) (omega arith)));
    unnamed =
        write_int-SameOutside m3 (p + 116) (pos 0) (p + 4) (omega arith)
        ∙ write_int-SameOutside m2 (p + 112) minus_one (p + 4) (omega arith)
        ∙ zero_put;
    empty =
        read_past m3 (p + 116) (pos 0) (p + 112) (omega arith)
          (read_int-write_int m2 (p + 112) minus_one (omega arith));
    no_size = read_int-write_int m3 (p + 116) (pos 0) (omega arith);
  }
