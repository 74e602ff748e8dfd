-- ===== src/System/Contract.antt =====
-- What the file system (core/fs.c) promises of the contents of its inodes, and the calls of the code.
use mineos.Base.{ℕ, ◌+◌, ◌<◌, ◌≡◌, ℤ, pos, minus_one, List, [], length, none, some}
use mineos.Math.{IsInt}
use mineos.Bytes.{Bytes, read_int}
use mineos.Machine.{Machine}
use mineos.Text.{text_fuel}
use mineos.Text.Strings.{IsString}
use mineos.Scheduler.{scheduler_tick}
use mineos.Fs.{fs_create}
use mineos.Fs.Inodes.{inode_at}
use mineos.Fs.Layout.{child_at, child_count_at}
use mineos.Fs.Files.{fs_write, fs_delete, fs_read}
use mineos.Fs.ReadBack.{IsOpenFile}
use mineos.System.{Contents}
use mineos.System.Store.{update}

-- A call as a client sees it; a read comes with the text that it has found.
pub data Call : Type 0 where
  create : Call
  write : ℕ → List ℕ → Call
  delete : ℕ → Call
  read : ℕ → List ℕ → Call
  tick : Call

-- The number of inodes, and what each holds.
abbrev pub View : Type 0
View = ℕ × Contents

-- The contract: a create adds an empty inode, a write replaces the text of one inode or loses it, a
-- delete empties one inode, and a read returns the text that is there; a call that returns -1 may have
-- changed nothing, and all else is kept.
pub data Promises : View → Call → ℤ → View → Type 0 where
  creates : (n : ℕ) (f : Contents) → Promises (n, f) create (pos n) (n + 1, update f n none)
  creates_not : (v : View) → Promises v create minus_one v
  writes :
      (n i : ℕ) (t : List ℕ) (f : Contents)
      → Promises (n, f) (write i t) (pos 0) (n, update f i (some t))
  loses :
      (n i : ℕ) (t : List ℕ) (f : Contents)
      → Promises (n, f) (write i t) minus_one (n, update f i none)
  writes_not : (i : ℕ) (t : List ℕ) (v : View) → Promises v (write i t) minus_one v
  deletes : (n d : ℕ) (f : Contents) → Promises (n, f) (delete d) (pos 0) (n, update f d none)
  deletes_not : (d : ℕ) (v : View) → Promises v (delete d) minus_one v
  reads :
      (n i : ℕ) (t : List ℕ) (f : Contents)
      → f i ≡ some t
      → Promises (n, f) (read i t) (pos (length t + 1)) (n, f)
  reads_nothing : (n i : ℕ) (f : Contents) → f i ≡ none → Promises (n, f) (read i []) (pos 0) (n, f)
  reads_not : (i : ℕ) (v : View) → Promises v (read i []) minus_one v
  ticks : (v : View) → Promises v tick (pos 0) v

-- Entry `x` of the children of inode `i` is `d`.
pub record IsChild (m : Bytes) (i x d : ℕ) : Type 0 where
  pub c : ℕ
  pub count : read_int m (child_count_at (inode_at i)) ≡ pos c
  pub index : x < c
  pub entry : read_int m (child_at (inode_at i) x) ≡ pos d

-- One call of the code, with its arguments in range.
pub data Step (k : Machine) : Call → ℤ → Machine → Type 0 where
  fs_creates :
      (i : ℕ) (a : Bytes) (s : ℕ) (t : List ℕ) (type : ℤ)
      → i < k.next_inode_id
      → IsString a s t
      → length t < 256
      → IsInt type
      → Step k create (fs_create (pos i) a s type k).0 (fs_create (pos i) a s type k).1
  fs_writes :
      (i : ℕ) (a : Bytes) (s : ℕ) (t : List ℕ)
      → i < k.next_inode_id
      → IsString a s t
      → length t < text_fuel
      → Step k (write i t) (fs_write (pos i) a s k).0 (fs_write (pos i) a s k).1
  fs_deletes :
      (i x d : ℕ)
      → i < k.next_inode_id
      → IsChild k.ram i x d
      → Step k (delete d) (fs_delete (pos d) k).0 (fs_delete (pos d) k).1
  fs_reads :
      (i : ℕ) (buf : Bytes) (t : List ℕ)
      → i < k.next_inode_id
      → IsOpenFile k.ram (inode_at i)
      → IsString (fs_read (pos i) buf k).1 0 t
      → Step k (read i t) (fs_read (pos i) buf k).0 (fs_read (pos i) buf k).2
  fs_reads_not :
      (i : ℕ) (buf : Bytes)
      → i < k.next_inode_id
      → ¬ IsOpenFile k.ram (inode_at i)
      → Step k (read i []) (fs_read (pos i) buf k).0 (fs_read (pos i) buf k).2
  scheduler_ticks : Step k tick (pos 0) (scheduler_tick k)
