-- ===== src/Memory/Stays.antt =====
-- What the calls of the allocator (libs/memory.c) leave of the blocks that others own.
use mineos.Base.{
  ℕ, ◌+◌, ◌≤◌, ◌<◌, ◌≡◌, ◌≢◌, refl, ◌∙◌, sym, ap, subst, List, ◌∷◌, ◌++◌, arith, ℤ, pos, minus_one,
  some,
}
use mineos.Bytes.{Bytes}
use mineos.Bytes.Outside.{SameOutside}
use mineos.Machine.{Machine}
use mineos.Memory.{Ptr, dealloc}
use mineos.Memory.Layout.{data_region_offset}
use mineos.Memory.Chain.{Block, span, IsHeap}
use mineos.Memory.FirstFit.{Fit, carve, coalesce, IsFit}
use mineos.Memory.Alloc.{IsAllocated}
use mineos.Memory.Release.{dealloc-coalesce}
use mineos.Memory.Owners.{
  RoomAt, RoomAt-UsedAt, RoomAt-le, RoomAt-coalesce, RoomAt-carve, RoomAt-ne, RoomAt-apart, UsedAt,
}

-- Used blocks stay used, but for the one that a content at `offset` had, and keep their bytes.
abbrev pub Stays : Bytes → List Block → ℤ → Bytes → List Block → Type 0
Stays m bs offset m' after =
    (o n : ℕ)
    → offset ≢ pos o
    → RoomAt data_region_offset o n bs
    → RoomAt data_region_offset o n after × ((q : ℕ) → o ≤ q → q < o + n → m' q ≡ m q)

pub Stays-refl : (m : Bytes) (bs : List Block) (offset : ℤ) → Stays m bs offset m bs
Stays-refl m bs offset o n ne u = (u, λ q a b. refl)

pub Stays-trans :
    (m m1 m2 : Bytes) (bs bs1 bs2 : List Block) (offset offset1 : ℤ)
    → Stays m bs offset m1 bs1
    → Stays m1 bs1 offset1 m2 bs2
    → ((o : ℕ) → offset ≢ pos o → UsedAt data_region_offset o bs → offset1 ≢ pos o)
    → Stays m bs offset m2 bs2
Stays-trans m m1 m2 bs bs1 bs2 offset offset1 f g other o n ne u =
    let (v, same) = f o n ne u in
    let (w, same1) = g o n (other o ne (RoomAt-UsedAt data_region_offset o n bs u)) v in
    (w, λ q a b. same1 q a b ∙ same q a b)

-- Writes below the data region.
pub Stays-above :
    (m m1 m2 : Bytes) (bs after : List Block) (offset : ℤ)
    → ((q : ℕ) → data_region_offset ≤ q → m2 q ≡ m1 q)
    → Stays m bs offset m1 after
    → Stays m bs offset m2 after
Stays-above m m1 m2 bs after offset above f o n ne u =
    let (v, same) = f o n ne u in
    let low = RoomAt-le data_region_offset o n bs u in
    (v, λ q a b. above q (omega arith) ∙ same q a b)

-- Writes to the usable bytes of one block.
pub Stays-payload :
    (m m' : Bytes) (pre : List Block) (c : Block) (post : List Block) (lo hi : ℕ)
    → data_region_offset + span pre ≤ lo
    → hi ≤ data_region_offset + span pre + 12 + c.size
    → SameOutside lo hi m m'
    → Stays m (pre ++ c ∷ post) (pos (data_region_offset + span pre + 12)) m' (pre ++ c ∷ post)
Stays-payload m m' pre c post lo hi a b same o n ne u =
    let apart = RoomAt-apart data_region_offset o n pre c post (λ e. ne (ap pos (sym e))) u in
    (u, λ q l r. same q (omega arith))

pub dealloc-Stays :
    (k : Machine) (pre : List Block) (b : Block) (post : List Block) (offset : ℤ)
    → IsHeap k.ram (pre ++ b ∷ post)
    → let at = pos (data_region_offset + span pre + 12) in
      offset ≡ at
      → Stays k.ram (pre ++ b ∷ post) offset (dealloc (some at) k).ram (pre ++ coalesce b post)
dealloc-Stays k pre b post offset h e o n ne u =
    let done = dealloc-coalesce k pre b post h in
    let other = λ (at : o ≡ data_region_offset + span pre + 12). ne (e ∙ ap pos (sym at)) in
    let apart = RoomAt-apart data_region_offset o n pre b post other u in
    (RoomAt-coalesce data_region_offset o n pre b post other u, λ q l r. done.1 q (omega arith))

pub alloc-Stays :
    (k : Machine) (bs : List Block) (n : ℕ) (f : Fit) (r : Ptr × Machine)
    → IsFit n bs (some f)
    → IsAllocated k n (some f) r
    → Stays k.ram bs minus_one r.1.ram (f.before ++ (carve n f.found ++ f.behind))
alloc-Stays k bs n f r fit got o l ne u =
    let u' = subst (RoomAt data_region_offset o l) fit.0 u in
    let other = RoomAt-ne data_region_offset o l f.before f.found f.behind fit.1 u' in
    let apart = RoomAt-apart data_region_offset o l f.before f.found f.behind other u' in
    (
      RoomAt-carve data_region_offset o l n f.before f.found f.behind fit.1 fit.2 u',
      λ q a b. got.2 q (omega arith),
    )
