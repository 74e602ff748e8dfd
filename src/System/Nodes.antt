-- ===== src/System/Nodes.antt =====
-- Inodes that a change of the RAM leaves alone.
use mineos.Base.{
  ℕ, ◌+◌, ◌≤◌, ◌<◌, ◌≡◌, ◌≢◌, refl, ◌∙◌, ◌⊎◌, inl, inr, arith, List, length, ℤ, pos, minus_one,
  Option, none, some,
}
use mineos.Bytes.{Bytes}
use mineos.Bytes.Ints.{read_int-cong}
use mineos.Fs.{is_dir}
use mineos.Fs.Inodes.{inode_at}
use mineos.Fs.Layout.{child_at}
use mineos.Memory.Layout.{data_region_offset}
use mineos.Memory.Chain.{Block}
use mineos.Memory.Stays.{Stays, Stays-refl, Stays-above}
use mineos.Text.Strings.{IsString-cong}
use mineos.System.{offset_of, size_of, HoldsText, HasParent, parent_field, IsNode, IsTree}

-- The id, the type, the parent and the children of inode `i` are as before.
abbrev pub KeepsLinks : Bytes → Bytes → ℕ → Type 0
KeepsLinks m m' i =
    (q : ℕ)
    → ((inode_at i ≤ q) × (q < inode_at i + 4)) ⊎ ((inode_at i + 36 ≤ q) × (q < inode_at i + 112))
    → m' q ≡ m q

-- The fields of the type and of the parent alone.
abbrev pub KeepsParent : Bytes → Bytes → ℕ → Type 0
KeepsParent m m' i =
    (parent_field m' i ≡ parent_field m i) × (is_dir m' (inode_at i) ≡ is_dir m (inode_at i))

-- The directories among the first `n` inodes are those before.
abbrev pub KeepsDirs : Bytes → Bytes → ℕ → Type 0
KeepsDirs m m' n = (i : ℕ) → i < n → is_dir m' (inode_at i) ≡ is_dir m (inode_at i)

pub is_dir-cong :
    (m m' : Bytes) (p : ℕ)
    → ((q : ℕ) → p + 36 ≤ q → q < p + 40 → m' q ≡ m q)
    → is_dir m' p ≡ is_dir m p
unfolding is_dir
is_dir-cong m m' p same =
    rw (read_int-cong m m' (p + 36) (λ q a b. same q (omega arith) (omega arith))) refl

pub KeepsParent-cong :
    (m m' : Bytes) (i : ℕ)
    → ((q : ℕ) → inode_at i + 36 ≤ q → q < inode_at i + 44 → m' q ≡ m q)
    → KeepsParent m m' i
KeepsParent-cong m m' i same = (
  read_int-cong m m' (inode_at i + 40) (λ q a b. same q (omega arith) (omega arith)),
  is_dir-cong m m' (inode_at i) (λ q a b. same q (omega arith) (omega arith)),
)

pub parent-KeepsLinks : (m m' : Bytes) (i : ℕ) → KeepsLinks m m' i → KeepsParent m m' i
parent-KeepsLinks m m' i same =
    KeepsParent-cong m m' i λ q a b. same q (inr (omega arith, omega arith))

pub HasParent-cong :
    (m m' : Bytes) (n i : ℕ)
    → i < n
    → ((d : ℕ) → d < n → KeepsParent m m' d)
    → HasParent m i
    → HasParent m' i
HasParent-cong m m' n i order keeps (inl h) = inl ((keeps i order).0 ∙ h)
HasParent-cong m m' n i order keeps (inr (q, l, h, dir)) =
    inr (q, l, (keeps i order).0 ∙ h, (keeps q (omega arith)).1 ∙ dir)

-- The two fields of the content.
abbrev pub KeepsContent : Bytes → Bytes → ℕ → Type 0
KeepsContent m m' i = (offset_of m' i ≡ offset_of m i) × (size_of m' i ≡ size_of m i)

pub content-SameIn :
    (m m' : Bytes) (i : ℕ)
    → ((q : ℕ) → inode_at i + 112 ≤ q → q < inode_at i + 120 → m' q ≡ m q)
    → KeepsContent m m' i
content-SameIn m m' i same = (
  read_int-cong m m' (inode_at i + 112) (λ q a b. same q (omega arith) (omega arith)),
  read_int-cong m m' (inode_at i + 116) (λ q a b. same q (omega arith) (omega arith)),
)

-- The fields of the content are as before, and its block stays.
pub HoldsText-Stays :
    (m m' : Bytes) (bs after : List Block) (offset : ℤ) (i : ℕ) (c : Option (List ℕ))
    → KeepsContent m m' i
    → ((o : ℕ) → offset_of m i ≡ pos o → offset ≢ pos o)
    → Stays m bs offset m' after
    → HoldsText m bs i c
    → HoldsText m' after i c
HoldsText-Stays m m' bs after offset i none keeps other stays h = keeps.0 ∙ h
HoldsText-Stays m m' bs after offset i (some t) keeps other stays (o, e, u, held, size, fuel) =
    let (v, same) = stays o (length t + 1) (other o e) u in
    (
      o,
      keeps.0 ∙ e,
      v,
      IsString-cong m m' o t (λ q a b. same q a (omega arith)) held,
      keeps.1 ∙ size,
      fuel,
    )

-- Nothing in the data region is written.
pub HoldsText-cong :
    (m m' : Bytes) (bs : List Block) (i : ℕ) (c : Option (List ℕ))
    → KeepsContent m m' i
    → ((q : ℕ) → data_region_offset ≤ q → m' q ≡ m q)
    → HoldsText m bs i c
    → HoldsText m' bs i c
HoldsText-cong m m' bs i c keeps above =
    HoldsText-Stays m m' bs bs minus_one i c keeps (λ o e f. absurd (cc))
      (Stays-above m m m' bs bs minus_one above (Stays-refl m bs minus_one))

pub IsNode-KeepsLinks :
    (m m' : Bytes) (n i : ℕ)
    → i < n
    → KeepsLinks m m' i
    → ((d : ℕ) → d < n → KeepsParent m m' d)
    → IsNode m n i
    → IsNode m' n i
IsNode-KeepsLinks m m' n i order same parents v =
    let few = v.few in
    record {
      has_id = read_int-cong m m' (inode_at i) (λ q a b. same q (inl (a, b))) ∙ v.has_id;
      parent = HasParent-cong m m' n i order parents v.parent;
      c = v.c;
      ids = v.ids;
      few = v.few;
      kids = record {
        count =
            read_int-cong m m' (inode_at i + 108) (λ q a b. same q (inr (omega arith, omega arith)))
            ∙ v.kids.count;
        entry = λ j h.
            read_int-cong m m' (child_at (inode_at i) j)
              (λ q a b. same q (inr (omega arith, omega arith)))
            ∙ v.kids.entry j h;
        small = v.kids.small;
      };
      newer = v.newer;
      given = v.given;
      linked = λ j h. (parents (v.ids j) (v.given j h)).0 ∙ v.linked j h;
      distinct = v.distinct;
    }

-- More ids have been given.
pub IsNode-le : (m : Bytes) (n n' i : ℕ) → n ≤ n' → IsNode m n i → IsNode m n' i
IsNode-le m n n' i h v = record {
  has_id = v.has_id;
  parent = v.parent;
  c = v.c;
  ids = v.ids;
  few = v.few;
  kids = v.kids;
  newer = v.newer;
  given = λ j l. omega (arith, v.given j l);
  linked = v.linked;
  distinct = v.distinct;
}

-- A change that keeps all links keeps the tree.
pub IsTree-KeepsLinks :
    (m m' : Bytes) (n : ℕ) → ((i : ℕ) → i < n → KeepsLinks m m' i) → IsTree m n → IsTree m' n
IsTree-KeepsLinks m m' n same t = record {
  rooted = t.rooted;
  bound = t.bound;
  root = (parent-KeepsLinks m m' 0 (same 0 t.rooted)).1 ∙ t.root;
  node = λ i h.
      IsNode-KeepsLinks m m' n i h (same i h) (λ d l. parent-KeepsLinks m m' d (same d l))
        (t.node i h);
}
