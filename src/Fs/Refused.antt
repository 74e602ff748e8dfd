-- ===== src/Fs/Refused.antt =====
-- The error paths of core/fs.c.
use mineos.Base.{
  ℕ, ◌-◌, ◌≤◌, ◌<◌, ◌≡◌, ◌∙◌, ap, dec_eq, Bool, lt→leb, le→leb, negsuc, refl, ◌⊎◌, inl, inr, arith,
  ℤ, pos, minus_one, eqb_ℤ, eqb_ℤ_iff, Option, none, some, true, false, if_cases, leb, leb_ℤ, not,
  Bool-cases, ltb_ℤ, ◌&&◌,
}
use mineos.Math.{in_bounds}
use mineos.Math.Bounds.{my_sub-pos}
use mineos.Bytes.{Bytes, read_int}
use mineos.Machine.{Machine, Out}
use mineos.Memory.Layout.{max_inodes, max_children}
use mineos.Screen.{color_red}
use mineos.Screen.OnlyPrints.{OnlyPrints, OnlyPrints-trans, color-OnlyPrints}
use mineos.Fs.{
  fail, exists_error, create_inode, add_child, create_unless, create_in, fs_create, fs_find_child,
  fs_get_inode, is_dir,
}
use mineos.Fs.Inodes.{inode_at, fs_get_inode-inode_at}
use mineos.Fs.Layout.{child_count_at}
use mineos.Fs.Files.{is_active, fs_delete, delete_in, delete_at}

-- A call either returns something else than -1, or has only printed.
abbrev pub IsRefusal : Machine → ℤ × Machine → Type 0
IsRefusal k r = r.0 ≡ minus_one → OnlyPrints k r.1

pub fail-OnlyPrints : (o : Out) (k : Machine) → OnlyPrints k (fail o k).1
unfolding fail
fail-OnlyPrints o k = color-OnlyPrints o color_red k

create_inode-IsRefusal :
    (a : Bytes) (s : ℕ) (type parent : ℤ) (k : Machine)
    → IsRefusal k (create_inode a s type parent k)
unfolding create_inode
create_inode-IsRefusal a s type parent k =
    if_cases (IsRefusal k) (leb max_inodes k.next_inode_id) _ _ (λ e h. fail-OnlyPrints _ k)
      (λ e h. absurd (ground arith))

add_child-IsRefusal :
    (p : ℕ) (k : Machine) (r : ℤ × Machine) → IsRefusal k r → IsRefusal k (add_child p r)
unfolding add_child
add_child-IsRefusal p k (id, k1) refused = elim (Bool-cases (eqb_ℤ id minus_one)) [
  | inl e ↦ rw e (λ h. refused (eqb_ℤ_iff id minus_one e))
  | inr e ↦ rw e (λ h. absurd (ground arith))
]

pub exists-OnlyPrints : (a : Bytes) (s : ℕ) (k : Machine) → OnlyPrints k (exists_error a s k).1
unfolding exists_error
exists-OnlyPrints a s k =
    OnlyPrints-trans k _ _
      (OnlyPrints-trans k _ _ (color-OnlyPrints _ color_red k) (color-OnlyPrints _ color_red _))
      (color-OnlyPrints _ color_red _)

create_unless-IsRefusal :
    (o : Option ℕ) (p : ℕ) (parent : ℤ) (a : Bytes) (s : ℕ) (type : ℤ) (k : Machine)
    → IsRefusal k (create_unless o p parent a s type k)
unfolding create_unless
create_unless-IsRefusal none p parent a s type k =
    add_child-IsRefusal p k _ (create_inode-IsRefusal a s type parent k)
create_unless-IsRefusal (some c) p parent a s type k = λ h. exists-OnlyPrints a s k

create_in-IsRefusal :
    (o : Option ℕ) (parent : ℤ) (a : Bytes) (s : ℕ) (type : ℤ) (k : Machine)
    → IsRefusal k (create_in o parent a s type k)
unfolding create_in
create_in-IsRefusal none parent a s type k = λ h. fail-OnlyPrints _ k
create_in-IsRefusal (some p) parent a s type k =
    if_cases (IsRefusal k) (not (is_dir k.ram p)) _ _ (λ e h. fail-OnlyPrints _ k)
      λ e.
        if_cases (IsRefusal k) (leb_ℤ (pos max_children) (read_int k.ram (child_count_at p))) _ _
          (λ e h. fail-OnlyPrints _ k)
          (λ e. create_unless-IsRefusal (fs_find_child parent a s k) p parent a s type k)

-- A call of `fs_create` that returns -1 has changed nothing but the output: not the RAM, and not
-- the number of ids given.
pub fs_create-IsRefusal :
    (k : Machine) (parent : ℤ) (a : Bytes) (s : ℕ) (type : ℤ)
    → (fs_create parent a s type k).0 ≡ minus_one
    → OnlyPrints k (fs_create parent a s type k).1
unfolding fs_create
fs_create-IsRefusal k parent a s type = create_in-IsRefusal (fs_get_inode parent) parent a s type k

delete_at-IsRefusal : (p : ℕ) (id : ℤ) (k : Machine) → IsRefusal k (delete_at p id k)
unfolding delete_at
delete_at-IsRefusal p id k =
    if_cases (IsRefusal k) (not (is_active k.ram p)) _ _ (λ e h. fail-OnlyPrints _ k)
      λ e.
        if_cases (IsRefusal k) (eqb_ℤ id (pos 0)) _ _ (λ e h. fail-OnlyPrints _ k)
          λ e.
            if_cases (IsRefusal k)
              (is_dir k.ram p && ltb_ℤ (pos 0) (read_int k.ram (child_count_at p))) _ _
              (λ e h. fail-OnlyPrints _ k) (λ e h. absurd (ground arith))

delete_in-IsRefusal : (o : Option ℕ) (id : ℤ) (k : Machine) → IsRefusal k (delete_in o id k)
unfolding delete_in
delete_in-IsRefusal none id k = λ h. fail-OnlyPrints _ k
delete_in-IsRefusal (some p) id k = delete_at-IsRefusal p id k

fail-result : (o : Out) (k : Machine) → (fail o k).0 ≡ minus_one
unfolding fail
fail-result o k = refl

-- Why an id cannot be deleted, by its inode: there is none, it is not active, it is the root, or a
-- directory that has children.
abbrev pub IsUndeletable : Machine → ℤ → Option ℕ → Type 0
IsUndeletable k id none = Unit
IsUndeletable k id (some p) =
    (is_active k.ram p ≡ false)
    ⊎ (id ≡ pos 0)
    ⊎ ((is_dir k.ram p ≡ true) × (ltb_ℤ (pos 0) (read_int k.ram (child_count_at p)) ≡ true))

delete_refuses :
    (k : Machine) (id : ℤ) (o : Option ℕ) → IsUndeletable k id o → (delete_in o id k).0 ≡ minus_one
unfolding delete_in delete_at
delete_refuses k id none why = fail-result _ k
delete_refuses k id (some p) (inl e) = rw e (fail-result _ k)
delete_refuses k id (some p) (inr (inl e)) =
    if_cases (λ (r : ℤ × Machine). r.0 ≡ minus_one) (not (is_active k.ram p)) _ _
      (λ h. fail-result _ k) (λ h. rw e (fail-result _ k))
delete_refuses k id (some p) (inr (inr (d, c))) =
    if_cases (λ (r : ℤ × Machine). r.0 ≡ minus_one) (not (is_active k.ram p)) _ _
      (λ h. fail-result _ k)
      λ h.
        if_cases (λ (r : ℤ × Machine). r.0 ≡ minus_one) (eqb_ℤ id (pos 0)) _ _
          (λ h. fail-result _ k) (λ h. rw (d, c) (fail-result _ k))

-- `fs_delete` of an id out of range, of an inode that is not active, of the root or of a directory
-- that has children returns -1, and changes nothing but the output: not a byte of the RAM.
pub fs_delete-IsUndeletable :
    (k : Machine) (id : ℤ)
    → IsUndeletable k id (fs_get_inode id)
    → ((fs_delete id k).0 ≡ minus_one) × OnlyPrints k (fs_delete id k).1
unfolding fs_delete
fs_delete-IsUndeletable k id why =
    let refused = delete_refuses k id (fs_get_inode id) why in
    (refused, delete_in-IsRefusal (fs_get_inode id) id k refused)

-- The number of an inode other than the root that is active, and not a directory with children.
abbrev pub IsDeletable : Machine → ℤ → Type 0
IsDeletable k id =
    (d : ℕ) × (id ≡ pos d)
    × (0 < d)
    × (d < max_inodes)
    × (is_active k.ram (inode_at d) ≡ true)
    × ((is_dir k.ram (inode_at d) && ltb_ℤ (pos 0) (read_int k.ram (child_count_at (inode_at d))))
        ≡ false)

no_inode_below : (n : ℕ) → fs_get_inode (negsuc n) ≡ none
unfolding fs_get_inode in_bounds
no_inode_below n = refl

no_inode_above : (d : ℕ) → max_inodes ≤ d → fs_get_inode (pos d) ≡ none
unfolding fs_get_inode in_bounds
no_inode_above d h =
    rw
      (
        my_sub-pos max_inodes 1 (omega arith) (omega arith),
        le→leb 0 d (omega arith),
        lt→leb d (max_inodes - 1) (omega arith),
      )
      refl

undeletable :
    (k : Machine) (id : ℤ)
    → ¬ IsDeletable k id
    → (d : ℕ) → id ≡ pos d
    → d < max_inodes
    → IsUndeletable k id (some (inode_at d))
undeletable k id not d e h =
    let p : ℕ = inode_at d in
    elim (Bool-cases (is_active k.ram p)) [
      | inr shut ↦ inl shut
      | inl active ↦ elim (dec_eq d 0) [
        | inl zero_id ↦ inr (inl (e ∙ ap pos zero_id))
        | inr ne ↦
            elim (Bool-cases
              (is_dir k.ram p && ltb_ℤ (pos 0) (read_int k.ram (child_count_at p)))) [
                | inl full ↦ inr (inr (and_split _ _ full))
                | inr leaf ↦ absurd (not (d, e, omega arith, h, active, leaf))
              ]
      ]
    ]
  where
    and_split : (a b : Bool) → (a && b) ≡ true → (a ≡ true) × (b ≡ true)
    and_split true b h = (refl, h)
    and_split false b h = cc

-- `fs_delete` of any id that is not the number, from 1 to 127, of an active inode that is no directory
-- with children returns -1, and changes nothing but the output: not a byte of the RAM.
pub fs_delete_refuses :
    (k : Machine) (id : ℤ)
    → ¬ IsDeletable k id
    → ((fs_delete id k).0 ≡ minus_one) × OnlyPrints k (fs_delete id k).1
fs_delete_refuses k (negsuc n) not = fs_delete-IsUndeletable k (negsuc n) (rw (no_inode_below n) tt)
fs_delete_refuses k (pos d) not = elim (lt_cases d max_inodes) [
  | inl h ↦
      fs_delete-IsUndeletable k (pos d)
        (rw (fs_get_inode-inode_at d h) (undeletable k (pos d) not d refl h))
  | inr h ↦ fs_delete-IsUndeletable k (pos d) (rw (no_inode_above d h) tt)
]
  where
    lt_cases : (a b : ℕ) → (a < b) ⊎ (b ≤ a)
    lt_cases a b = ground arith
