-- ===== src/System/Six.antt =====
-- The directories that `fs_init` (core/fs.c) makes, with their names and parents.
use mineos.Base.{
  ℕ, ◌+◌, ◌<◌, ◌≤◌, ◌≡◌, ◌∙◌, arith, pos, List, codes, if◌then◌else◌, ◌==◌, true, length,
}
use mineos.Bytes.{Bytes, read_int}
use mineos.Bytes.Ints.{read_int-cong}
use mineos.Text.Strings.{IsString, IsString-cong}
use mineos.Memory.Chain.{Block}
use mineos.Fs.{is_dir}
use mineos.Fs.Inodes.{inode_at}
use mineos.Fs.Layout.{name_at, is_active_at}
use mineos.System.{parent_field}
use mineos.System.Nodes.{is_dir-cong}
use mineos.System.Start.{Fresh}
use mineos.System.Wired.{parents, wired, wired_dirs, kept, field}

-- The names of the six; that of the fourth is the user's.
abbrev pub six_names : List ℕ → ℕ → List ℕ
six_names user d =
    if d == 0
    then codes "/"
    else if d == 1
    then codes "bin"
    else if d == 2
    then codes "home"
    else if d == 3
    then user
    else if d == 4
    then codes "tmp"
    else codes "sys"

-- Inodes 0 to 5 are active directories with these names and parents.
pub record IsSix (m : Bytes) (user : List ℕ) : Type 0 where
  pub directory : (d : ℕ) → d < 6 → is_dir m (inode_at d) ≡ true
  pub active : (d : ℕ) → d < 6 → read_int m (is_active_at (inode_at d)) ≡ pos 1
  pub parent : (d : ℕ) → d < 6 → parent_field m d ≡ parents d
  pub named : (d : ℕ) → d < 6 → IsString m (name_at (inode_at d)) (six_names user d)
  pub short : (d : ℕ) → d < 6 → length (six_names user d) < 32

pub IsSix-cong :
    (m m' : Bytes) (user : List ℕ)
    → ((q : ℕ) → inode_at 0 ≤ q → q < inode_at 6 → m' q ≡ m q)
    → IsSix m user
    → IsSix m' user
IsSix-cong m m' user same v = record {
  directory = λ d h.
      is_dir-cong m m' (inode_at d) (λ q a b. same q (omega arith) (omega arith)) ∙ v.directory d h;
  active = λ d h.
      read_int-cong m m' (inode_at d + 120) (λ q a b. same q (omega arith) (omega arith))
      ∙ v.active d h;
  parent = λ d h.
      read_int-cong m m' (inode_at d + 40) (λ q a b. same q (omega arith) (omega arith))
      ∙ v.parent d h;
  named = λ d h.
      let short = v.short d h in
      IsString-cong m m' (inode_at d + 4) (six_names user d)
        (λ q a b. same q (omega arith) (omega arith)) (v.named d h);
  short = v.short;
}

pub wired-IsSix :
    (m : Bytes) (user : List ℕ) (bs : List Block)
    → Fresh parents (six_names user) bs 6 m
    → IsSix (wired m) user
wired-IsSix m user bs v = record {
  directory = wired_dirs m (six_names user) bs v;
  active =
      λ d h. field m (six_names user) bs v (inode_at d + 120) (omega arith) (v.new d h).is_active;
  parent =
      λ d h. field m (six_names user) bs v (inode_at d + 40) (omega arith) (v.new d h).parent_id;
  named = λ d h.
      let (held, l) = v.named d h in
      IsString-cong m (wired m) (inode_at d + 4) (six_names user d)
        (λ q a b. kept m (six_names user) bs v q (omega arith) (omega arith)) held;
  short = λ d h. (v.named d h).1;
}
