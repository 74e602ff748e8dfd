-- ===== src/System/Delete.antt =====
-- `fs_delete` (core/fs.c) and the invariant.
use mineos.Base.{
  ℕ, ◌+◌, ◌<◌, ◌≡◌, ◌≢◌, refl, sym, subst, ◌⊎◌, inl, inr, arith, ℤ, pos, minus_one, Bool, true,
  false, ne→==, Bool-cases, ltb_ℤ, ◌&&◌, if_cases, eqb_ℤ, some, none,
}
use mineos.Bytes.{read_int}
use mineos.Machine.{Machine}
use mineos.Memory.Layout.{max_inodes}
use mineos.Fs.{is_dir, fs_get_inode}
use mineos.Fs.Inodes.{inode_at, fs_get_inode-inode_at}
use mineos.Fs.Layout.{child_count_at}
use mineos.Fs.Files.{is_active, fs_delete, delete_in, delete_at, free_content}
use mineos.Fs.Delete.{IsLeaf, fs_delete-Deleted}
use mineos.Fs.Refused.{IsUndeletable, fs_delete-IsUndeletable}
use mineos.System.{IsTree, IsStore, IsSystem, Contents, AllHold, Shows}
use mineos.System.Store.{content-HasContent, update}
use mineos.System.Deleted.{deleted-KeepsDirs, deleted-IsTree, deleted-IsStore, deleted-AllHold}
use mineos.System.NextId.{next_id-dealloc}
use mineos.System.Create.{
  KeepsTypes, OnlyPrints-KeepsTypes, Keeps, Refused, IsSystem-OnlyPrints, Shows-OnlyPrints,
}
use mineos.Screen.OnlyPrints.{next_id-OnlyPrints}

next_id-free_content : (p : ℕ) (k : Machine) → (free_content p k).next_inode_id ≡ k.next_inode_id
unfolding free_content
next_id-free_content p k =
    if_cases (λ (k' : Machine). k'.next_inode_id ≡ k.next_inode_id)
      (eqb_ℤ (read_int k.ram (p + 112)) minus_one) k _ (λ e. refl)
      (λ e. next_id-dealloc (some (read_int k.ram (p + 112))) k)

next_id-fs_delete :
    (k : Machine) (d : ℕ)
    → d < max_inodes
    → d ≢ 0
    → IsLeaf k.ram (inode_at d)
    → (fs_delete (pos d) k).1.next_inode_id ≡ k.next_inode_id
unfolding fs_delete delete_in delete_at
next_id-fs_delete k d h nz leaf =
    rw (fs_get_inode-inode_at d h, leaf.active, ne→== d 0 nz, leaf.childless)
      (next_id-free_content (inode_at d) k)

-- The outcome of `fs_delete` of inode `d`: the file system stays well formed, its inodes
-- keep their types, and the inode is empty, or
-- the call has returned -1 and no content has changed.
abbrev pub Deletes : (k : Machine) → IsSystem k → ℕ → ℤ × Machine → Type 0
Deletes k v d r =
    (v' : IsSystem r.1) × ((r.1.next_inode_id ≡ k.next_inode_id) × KeepsTypes k r.1)
    × ((f : Contents)
        → Shows k v f
        → ((r.0 ≡ pos 0) × Shows r.1 v' (update f d none)) ⊎ ((r.0 ≡ minus_one) × Shows r.1 v' f))

Refused-Deletes :
    (k : Machine) (v : IsSystem k) (d : ℕ) (r : ℤ × Machine) → Refused k r → Deletes k v d r
Refused-Deletes k v d r (e, quiet) = (
  IsSystem-OnlyPrints k r.1 quiet v,
  (next_id-OnlyPrints quiet, OnlyPrints-KeepsTypes quiet),
  λ f shows. inr (e, Shows-OnlyPrints k r.1 quiet v f shows),
)

-- On a file system that is well formed, with a set of contents, `fs_delete` of a child of a directory
-- leaves it well formed, no inode changes its type, and the call either returns 0, the inode is empty and the others hold what they
-- held, or returns -1, and no content has changed.
pub fs_delete-Deletes :
    (k : Machine) (v : IsSystem k) (i : ℕ) (h : i < k.next_inode_id) (x : ℕ)
    → x < (v.tree.node i h).c
    → Deletes k v ((v.tree.node i h).ids x) (fs_delete (pos ((v.tree.node i h).ids x)) k)
fs_delete-Deletes k v i h x hx =
    let node = v.tree.node i h in
    let d : ℕ = node.ids x in
    let bound = v.tree.bound in
    let newer = node.newer x hx in
    let hd = node.given x hx in
    let small : d < max_inodes = omega arith in
    let ne : i ≢ d = λ e. omega arith in
    let nz : d ≢ 0 = λ e. omega arith in
    let p : ℕ = inode_at d in
    let refused = λ (why : IsUndeletable k (pos d) (fs_get_inode (pos d))).
      Refused-Deletes k v d (fs_delete (pos d) k) (fs_delete-IsUndeletable k (pos d) why) in
    elim (Bool-cases (is_active k.ram p)) [
      | inr e ↦ refused (rw (fs_get_inode-inode_at d small) (inl e))
      | inl active ↦
          elim (Bool-cases (is_dir k.ram p && ltb_ℤ (pos 0) (read_int k.ram (child_count_at p)))) [
            | inl e ↦ refused (rw (fs_get_inode-inode_at d small) (inr (inr (and_split _ _ e))))
            | inr e ↦
                let leaf : IsLeaf k.ram p = record { active = active; childless = e } in
                let content =
                  content-HasContent k.ram v.blocks d (v.store.content d hd).0
                    (v.store.content d hd).1 in
                let gone =
                  fs_delete-Deleted k v.blocks i d node.c x node.ids (omega arith) small nz ne
                    v.store.heap content leaf (node.linked x hx) node.few node.kids hx refl
                    (λ j l same. node.distinct j x l hx same) in
                let r = fs_delete (pos d) k in
                let n : ℕ = k.next_inode_id in
                let next = next_id-fs_delete k d small nz leaf in
                let tree =
                  deleted-IsTree k.ram r.1.ram v.blocks i d x n v.tree h hd node hx refl r gone
                    refl in
                let store =
                  deleted-IsStore k.ram r.1.ram v.blocks i d x n v.tree h hd node hx refl r gone
                    refl v.store in
                (
                  record {
                    tree = subst (IsTree r.1.ram) (sym next) tree;
                    blocks = gone.blocks;
                    store = subst (λ n. IsStore r.1.ram n gone.blocks) (sym next) store;
                  },
                  (
                    next,
                    deleted-KeepsDirs k.ram r.1.ram v.blocks i d x n v.tree h hd node hx refl r gone
                        refl,
                  ),
                  λ f shows.
                      let held =
                        deleted-AllHold k.ram r.1.ram v.blocks i d x n v.tree h hd node hx refl r
                          gone refl v.store f shows in
                      inl (
                        gone.result,
                        subst (λ n. AllHold r.1.ram n gone.blocks (update f d none)) (sym next)
                            held,
                      ),
                )
          ]
    ]
  where
    and_split : (a b : Bool) → (a && b) ≡ true → (a ≡ true) × (b ≡ true)
    and_split true b h = (refl, h)
    and_split false b h = cc

pub fs_delete-IsSystem :
    (k : Machine) (v : IsSystem k) (i : ℕ) (h : i < k.next_inode_id) (x : ℕ)
    → x < (v.tree.node i h).c
    → Keeps k (fs_delete (pos ((v.tree.node i h).ids x)) k).1
fs_delete-IsSystem k v i h x hx =
    let done = fs_delete-Deletes k v i h x hx in (done.0, omega (arith, done.1.0), done.1.1)
