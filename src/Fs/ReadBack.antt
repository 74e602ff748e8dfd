-- ===== src/Fs/ReadBack.antt =====
-- `fs_read` after `fs_write` (core/fs.c).
use mineos.Base.{
  ℕ, ◌+◌, ◌-◌, ◌≤◌, ◌<◌, ◌≡◌, refl, ◌⊎◌, inl, inr, arith, ℤ, pos, minus_one, true, List, [], length,
  All,
}
use mineos.Math.Bounds.{my_sub-pos, in_bounds-pos}
use mineos.Bytes.{Bytes, put, read_int}
use mineos.Bytes.Ints.{read_int-cong}
use mineos.Machine.{Machine}
use mineos.Memory.Layout.{ram_size, data_region_offset, max_inodes}
use mineos.Memory.Chain.{Block, IsHeap}
use mineos.Memory.FirstFit.{IsTooSmall}
use mineos.Text.{text_fuel}
use mineos.Text.Strings.{IsString}
use mineos.Text.Copy.{my_strcpy-IsString}
use mineos.Fs.Inodes.{inode_at, fs_get_inode-inode_at}
use mineos.Fs.Layout.{data_offset_at}
use mineos.Fs.Files.{
  is_active, is_file, fs_write, read_at, fs_read, read_in, write_in, write_at, Read,
}
use mineos.Fs.Content.{HasContent}
use mineos.Fs.Write.{KeepsTables, Saved, Wrote, write_at-Wrote}

-- An open file: active, and no directory.
pub record IsOpenFile (m : Bytes) (p : ℕ) : Type 0 where
  pub active : is_active m p ≡ true
  pub file : is_file m p ≡ true

KeepsTables-IsOpenFile :
    (m m' : Bytes) (p : ℕ)
    → p + 128 ≤ data_region_offset
    → KeepsTables m p m'
    → IsOpenFile m p
    → IsOpenFile m' p
unfolding is_active is_file
KeepsTables-IsOpenFile m m' p below keeps h =
    let active = read_int-cong m m' (p + 120) λ q a b. keeps q (omega arith) (omega arith) in
    let type = read_int-cong m m' (p + 36) λ q a b. keeps q (omega arith) (omega arith) in
    record { active = rw active h.active; file = rw type h.file }

-- What a read of the text `t` returns.
record ReadsBack (k : Machine) (t : List ℕ) (r : Read) : Type 0 where
  result : r.0 ≡ pos (length t + 1)
  content : IsString r.1 0 t
  machine : r.2 ≡ k

read_at-Saved :
    (k : Machine) (m0 : Bytes) (bs : List Block) (old : ℤ) (p : ℕ) (t : List ℕ) (buf : Bytes)
    → IsOpenFile k.ram p
    → Saved m0 bs old k.ram p t
    → length t < text_fuel
    → ReadsBack k t (read_at p buf k)
unfolding read_at
read_at-Saved k m0 bs old p t buf is_open s fuel =
    rw
      (
        is_open.active,
        is_open.file,
        s.offset,
        my_sub-pos ram_size 1 (omega arith) (omega arith),
        in_bounds-pos s.at data_region_offset (ram_size - 1) s.lower (omega (arith, s.upper)),
      )
      (record {
        result = s.size;
        content = (my_strcpy-IsString buf 0 k.ram s.at t fuel s.content).0;
        machine = refl;
      })

record ReadsNothing (k : Machine) (r : Read) : Type 0 where
  result : r.0 ≡ pos 0
  content : IsString r.1 0 []
  machine : r.2 ≡ k

read_at-empty :
    (k : Machine) (p : ℕ) (buf : Bytes)
    → IsOpenFile k.ram p
    → read_int k.ram (data_offset_at p) ≡ minus_one
    → ReadsNothing k (read_at p buf k)
unfolding read_at put
read_at-empty k p buf is_open e =
    rw (is_open.active, is_open.file, e) (record { result = refl; content = refl; machine = refl })

-- What a write of `t` to the inode at `p`, and a read of it, have done together.
abbrev pub WrittenBack : Bytes → ℕ → List ℕ → Bytes → ℤ × Machine → Read → Type 0
WrittenBack m p t buf w r =
    KeepsTables m p w.1.ram
    × IsOpenFile w.1.ram p
    × ((bs : List Block) × IsHeap w.1.ram bs
        × HasContent w.1.ram bs p
        × (r.2 ≡ w.1)
        × (((w.0 ≡ pos 0) × (r.0 ≡ pos (length t + 1)) × IsString r.1 0 t)
            ⊎ ((w.0 ≡ minus_one)
                × (r.0 ≡ pos 0)
                × IsString r.1 0 []
                × All (IsTooSmall (length t + 1)) bs)))

written_back :
    (m : Bytes) (bs : List Block) (p : ℕ) (t : List ℕ) (buf : Bytes) (w : ℤ × Machine)
    → p + 128 ≤ data_region_offset
    → IsOpenFile m p
    → length t < text_fuel
    → Wrote bs m p t w
    → WrittenBack m p t buf w (read_at p buf w.1)
written_back m bs p t buf w below is_open fuel (keeps, inl (e, s)) =
    let still = KeepsTables-IsOpenFile m w.1.ram p below keeps is_open in
    let r = read_at-Saved w.1 m bs (read_int m (data_offset_at p)) p t buf still s fuel in
    (keeps, still, (s.blocks, s.heap, s.owned, r.machine, inl (e, r.result, r.content)))
written_back m bs p t buf w below is_open fuel (keeps, inr (e, f)) =
    let still = KeepsTables-IsOpenFile m w.1.ram p below keeps is_open in
    let r = read_at-empty w.1 p buf still f.empty in
    (keeps, still, (f.blocks, f.heap, inl f.empty, r.machine, inr (e, r.result, r.content, f.full)))

-- On a heap, `fs_write` of a text to a file that is empty or has a block of the heap either
-- succeeds, and `fs_read` returns the length with the terminator and exactly that text, or returns
-- -1 because no free block has room for it, and `fs_read` then finds the file empty. Both leave a
-- heap, an open file and its claim to a block of it, and every byte of the tables but for the two
-- content fields of the inode; `fs_read` changes nothing.
pub fs_read-fs_write :
    (k : Machine) (i : ℕ) (bs : List Block) (a : Bytes) (s : ℕ) (t : List ℕ) (buf : Bytes)
    → i < max_inodes
    → IsHeap k.ram bs
    → HasContent k.ram bs (inode_at i)
    → IsOpenFile k.ram (inode_at i)
    → length t < text_fuel
    → IsString a s t
    → WrittenBack k.ram
        (inode_at i)
        t
        buf
        (fs_write (pos i) a s k)
        (fs_read (pos i) buf (fs_write (pos i) a s k).1)
unfolding fs_read read_in fs_write write_in
fs_read-fs_write k i bs a s t buf h heap content is_open fuel held =
    rw (fs_get_inode-inode_at i h) (
      written_back k.ram bs (inode_at i) t buf (write_at (inode_at i) a s k) (omega arith) is_open
        fuel
        (write_at-Wrote k (inode_at i) bs a s t (omega arith) heap content is_open.active
          is_open.file fuel held))
