-- ===== src/System/Find.antt =====
-- `fs_find_child` (core/fs.c) and the invariant.
use mineos.Base.{
  ℕ, zero, suc, ◌+◌, ◌<◌, ◌≡◌, sym, subst, inl, inr, arith, pos, Bool-cases, ltb, none, some,
}
use mineos.Bytes.{Bytes, read_int}
use mineos.Machine.{Machine}
use mineos.Memory.Layout.{max_inodes}
use mineos.Fs.{is_dir, matches, find_loop, find_in, fs_find_child, children_fuel}
use mineos.Fs.Inodes.{inode_at, fs_get_inode-inode_at}
use mineos.Fs.Layout.{id_at}
use mineos.Fs.Removed.{HasChildren}
use mineos.System.{IsSystem}

-- Child `j` is the one at `p`.
abbrev pub IsChildAt : (ℕ → ℕ) → ℕ → ℕ → Type 0
IsChildAt ids c p = (j : ℕ) × (j < c) × (p ≡ inode_at (ids j))

module _ (m : Bytes) (d c : ℕ) (ids : ℕ → ℕ) (kids : HasChildren m d c ids) (a : Bytes)
    (s p : ℕ) where
  find_loop-IsChildAt : (fuel i : ℕ) → find_loop fuel i d m a s ≡ some p → IsChildAt ids c p
  unfolding find_loop
  find_loop-IsChildAt zero i e = absurd (cc)
  find_loop-IsChildAt (suc fuel) i e = elim (Bool-cases (ltb i c)) [
    | inr out ↦ let e' : none ≡ some p = rw (kids.count, out) at e in absurd (cc)
    | inl more ↦
        let h : i < c = ground arith in
        let child = fs_get_inode-inode_at (ids i) (kids.small i h) in
        let e1 = rw (kids.count, more, kids.entry i h, child) at e in
        elim (Bool-cases (matches m a s (some (inode_at (ids i))))) [
          | inl hit ↦ let e2 : some (inode_at (ids i)) ≡ some p = rw hit at e1 in (i, h, cc)
          | inr miss ↦ find_loop-IsChildAt fuel (i + 1) (rw miss at e1)
        ]
  ]

find_in-IsChildAt :
    (k : Machine) (i : ℕ) (a : Bytes) (s p c : ℕ) (ids : ℕ → ℕ)
    → i < max_inodes
    → HasChildren k.ram (inode_at i) c ids
    → fs_find_child (pos i) a s k ≡ some p
    → IsChildAt ids c p
unfolding fs_find_child find_in
find_in-IsChildAt k i a s p c ids h kids e =
    let e1 = rw (fs_get_inode-inode_at i h) at e in
    elim (Bool-cases (is_dir k.ram (inode_at i))) [
      | inr other ↦ let e2 : none ≡ some p = rw other at e1 in absurd (cc)
      | inl folder ↦
          find_loop-IsChildAt k.ram (inode_at i) c ids kids a s p children_fuel 0 (rw folder at e1)
    ]

-- In a well-formed file system the inode that is found is that of a child, and its id field says so.
pub fs_find_child-IsSystem :
    (k : Machine) (v : IsSystem k) (i : ℕ) (h : i < k.next_inode_id) (a : Bytes) (s p : ℕ)
    → fs_find_child (pos i) a s k ≡ some p
    → let node = v.tree.node i h in
      (j : ℕ) × (j < node.c)
      × (p ≡ inode_at (node.ids j))
      × (read_int k.ram (id_at p) ≡ pos (node.ids j))
fs_find_child-IsSystem k v i h a s p e =
    let node = v.tree.node i h in
    let bound = v.tree.bound in
    let (j, l, at) = find_in-IsChildAt k i a s p node.c node.ids (omega arith) node.kids e in
    let child = v.tree.node (node.ids j) (node.given j l) in
    (j, l, at, subst (λ p. read_int k.ram (id_at p) ≡ pos (node.ids j)) (sym at) child.has_id)
