-- ===== src/System/Start.antt =====
-- `create_inode` one after the other, as `fs_init` (core/fs.c) calls it.
use mineos.Base.{
  ℕ, ◌+◌, ◌≤◌, ◌<◌, ◌≡◌, refl, ◌∙◌, sym, subst, inl, inr, arith, ℤ, pos, List, length, lt→leb,
  dec_eq,
}
use mineos.Math.{IsInt}
use mineos.Bytes.{Bytes}
use mineos.Bytes.Ints.{read_int-cong}
use mineos.Machine.{Machine}
use mineos.Memory.Layout.{max_inodes, data_region_offset}
use mineos.Memory.Chain.{Block, IsHeap, IsChain-SameOutside}
use mineos.Text.Strings.{IsString, IsString-cong}
use mineos.Fs.{create_inode, fill_inode, fill_at}
use mineos.Fs.Inodes.{inode_at, fs_get_inode-inode_at}
use mineos.Fs.Layout.{inode_dir, name_at}
use mineos.Fs.Fill.{IsNew, fill_inode-SameOutside, fill_inode-IsNew, fill_inode-IsString}

-- The machine with inode `n`, a new directory.
abbrev pub with_inode : ℕ → Bytes → ℤ → Machine → Machine
with_inode n a parent k = record k {
  next_inode_id = n + 1;
  ram = fill_inode (inode_at n) n a 0 inode_dir parent k.ram;
}

pub create_inode-with_inode :
    (n : ℕ) (a : Bytes) (parent : ℤ) (k : Machine)
    → n < max_inodes
    → k.next_inode_id ≡ n
    → create_inode a 0 inode_dir parent k ≡ (pos n, with_inode n a parent k)
unfolding create_inode fill_at
create_inode-with_inode n a parent k h e =
    rw (e, lt→leb max_inodes n h, fs_get_inode-inode_at n h) refl

-- The first `n` inodes are new directories, with these parents and names, and the heap is as before.
pub record Fresh (parents : ℕ → ℤ) (names : ℕ → List ℕ) (bs : List Block) (n : ℕ) (m : Bytes)
    : Type 0 where
  pub new : (d : ℕ) → d < n → IsNew m (inode_at d) d inode_dir (parents d)
  pub named :
      (d : ℕ) → d < n → IsString m (name_at (inode_at d)) (names d) × (length (names d) < 32)
  pub heap : IsHeap m bs

IsNew-cong :
    (m m' : Bytes) (p id : ℕ) (type parent : ℤ)
    → ((q : ℕ) → p ≤ q → q < p + 124 → m' q ≡ m q)
    → IsNew m p id type parent
    → IsNew m' p id type parent
IsNew-cong m m' p id type parent same v =
    let at = λ (f : ℕ) (l : p ≤ f) (h : f + 4 ≤ p + 124).
      read_int-cong m m' f λ q a b. same q (omega arith) (omega arith) in
    record {
      has_id = at p (omega arith) (omega arith) ∙ v.has_id;
      has_type = at (p + 36) (omega arith) (omega arith) ∙ v.has_type;
      parent_id = at (p + 40) (omega arith) (omega arith) ∙ v.parent_id;
      child_count = at (p + 108) (omega arith) (omega arith) ∙ v.child_count;
      data_offset = at (p + 112) (omega arith) (omega arith) ∙ v.data_offset;
      data_size = at (p + 116) (omega arith) (omega arith) ∙ v.data_size;
      is_active = at (p + 120) (omega arith) (omega arith) ∙ v.is_active;
    }

pub with_inode-Fresh :
    (parents : ℕ → ℤ) (names : ℕ → List ℕ) (bs : List Block) (n : ℕ) (k : Machine) (a : Bytes)
    (t : List ℕ) (parent : ℤ)
    → n < max_inodes
    → IsString a 0 t
    → length t < 32
    → IsInt parent
    → parents n ≡ parent
    → names n ≡ t
    → Fresh parents names bs n k.ram
    → Fresh parents names bs (n + 1) (with_inode n a parent k).ram
with_inode-Fresh parents names bs n k a t parent h held short int e called v =
    let m : Bytes = k.ram in
    let m' : Bytes = fill_inode (inode_at n) n a 0 inode_dir parent m in
    let same =
      fill_inode-SameOutside (inode_at n) n a 0 t inode_dir parent m held (omega arith) h
        (omega arith) int 124 (omega arith) (omega arith) in
    record {
      new = λ d l. elim (dec_eq d n) [
        | inl eq ↦
            subst (λ d. IsNew m' (inode_at d) d inode_dir (parents d)) (sym eq)
              (rw e (
                fill_inode-IsNew (inode_at n) n a 0 t inode_dir parent m held (omega arith) h
                  (omega arith) int))
        | inr ne ↦
            IsNew-cong m m' (inode_at d) d inode_dir (parents d) (λ q x y. same q (omega arith))
              (v.new d (omega arith))
      ];
      named = λ d l. elim (dec_eq d n) [
        | inl eq ↦
            subst (λ d. IsString m' (name_at (inode_at d)) (names d) × (length (names d) < 32))
              (sym eq)
              (rw called (
                fill_inode-IsString (inode_at n) n a 0 t inode_dir parent m held (omega arith) h
                    (omega arith) int short,
                short,
              ))
        | inr ne ↦
            let (old, l) = v.named d (omega arith) in
            (IsString-cong m m' (inode_at d + 4) (names d) (λ q x y. same q (omega arith)) old, l)
      ];
      heap = IsChain-SameOutside m m' data_region_offset bs same (omega arith) v.heap;
    }
