-- ===== src/System/NextId.antt =====
-- The number of ids is not touched by the allocator (libs/memory.c) and by writes (core/fs.c).
use mineos.Base.{
  ℕ, ◌+◌, ◌≡◌, refl, ◌∙◌, ℤ, pos, minus_one, true, none, some, if_cases, leb_ℤ, eqb_ℤ,
}
use mineos.Bytes.{Bytes, read_int}
use mineos.Machine.{Machine}
use mineos.Memory.Layout.{data_region_offset}
use mineos.Memory.{Ptr, alloc, dealloc, finish_alloc, alloc_loop, chain_fuel}
use mineos.Screen.{emit, color_red}
use mineos.Screen.OnlyPrints.{color-OnlyPrints, next_id-OnlyPrints}
use mineos.Fs.{fail}
use mineos.Fs.Files.{is_active, is_file, write_at, drop_content, store_content}

pub next_id-dealloc : (o : Ptr) (k : Machine) → (dealloc o k).next_inode_id ≡ k.next_inode_id
unfolding dealloc emit
next_id-dealloc none k = refl
next_id-dealloc (some o) k =
    if_cases (λ (k' : Machine). k'.next_inode_id ≡ k.next_inode_id) _ _ _ (λ e. refl) (λ e. refl)

next_id-finish :
    (size : ℤ) (r : Ptr × Bytes) (k : Machine)
    → (finish_alloc size r k).1.next_inode_id ≡ k.next_inode_id
unfolding finish_alloc emit
next_id-finish size (none, m) k = refl
next_id-finish size (some p, m) k = refl

next_id-alloc : (size : ℤ) (k : Machine) → (alloc size k).1.next_inode_id ≡ k.next_inode_id
unfolding alloc
next_id-alloc size k =
    if_cases (λ (r : Ptr × Machine). r.1.next_inode_id ≡ k.next_inode_id) (leb_ℤ size (pos 0))
      (none, k) _ (λ e. refl)
      (λ e. next_id-finish size (alloc_loop chain_fuel size (pos data_region_offset) k.ram) k)

next_id-drop_content : (p : ℕ) (k : Machine) → (drop_content p k).next_inode_id ≡ k.next_inode_id
unfolding drop_content
next_id-drop_content p k =
    if_cases (λ (k' : Machine). k'.next_inode_id ≡ k.next_inode_id)
      (eqb_ℤ (read_int k.ram (p + 112)) minus_one) k _ (λ e. refl)
      (λ e. next_id-dealloc (some (read_int k.ram (p + 112))) k)

next_id-store_content :
    (p : ℕ) (a : Bytes) (s : ℕ) (len : ℤ) (r : Ptr × Machine)
    → (store_content p a s len r).1.next_inode_id ≡ r.1.next_inode_id
unfolding store_content fail
next_id-store_content p a s len (none, k) = next_id-OnlyPrints (color-OnlyPrints _ color_red k)
next_id-store_content p a s len (some b, k) = refl

pub next_id-write_at :
    (k : Machine) (p : ℕ) (a : Bytes) (s : ℕ)
    → is_active k.ram p ≡ true
    → is_file k.ram p ≡ true
    → (write_at p a s k).1.next_inode_id ≡ k.next_inode_id
unfolding write_at
next_id-write_at k p a s active file =
    rw (active, file)
      (next_id-store_content p a s _ _ ∙ next_id-alloc _ _ ∙ next_id-drop_content p k)
