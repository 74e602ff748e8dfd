-- ===== src/System/Refines.antt =====
-- Runs of the calls of the file system (core/fs.c) against what it promises.
use mineos.Base.{
  ℕ, ◌+◌, ◌<◌, ◌≡◌, refl, sym, subst, ◌∙◌, inl, inr, ℤ, pos, List, Option, [], ◌∷◌, none, some,
}
use mineos.Bytes.{Bytes}
use mineos.Machine.{Machine}
use mineos.Text.Strings.{IsString, IsString-unique}
use mineos.Fs.{fs_create}
use mineos.Fs.Files.{fs_write, fs_delete, fs_read, Read}
use mineos.System.Read.{Reads, ReadsNot, fs_read-Shows}
use mineos.Screen.OnlyPrints.{next_id-OnlyPrints}
use mineos.System.{IsSystem, Contents, Shows}
use mineos.System.Store.{update}
use mineos.System.Create.{Creates, fs_create-Creates, IsSystem-OnlyPrints, Shows-OnlyPrints}
use mineos.System.Write.{Writes, fs_write-Writes}
use mineos.System.Delete.{Deletes, fs_delete-Deletes}
use mineos.System.Tables.{scheduler_tick-IsSystem, scheduler_tick-Shows, next_id-scheduler_tick}
use mineos.System.Contract.{
  Call, create, write, delete, read, View, Promises, creates, creates_not, writes, loses,
  writes_not, deletes, deletes_not, reads, reads_nothing, reads_not, ticks, IsChild, Step,
  fs_creates, fs_writes, fs_deletes, fs_reads, fs_reads_not, scheduler_ticks,
}

-- The machine is well formed, and shows the view.
abbrev pub ShowsView : Machine → View → Type 0
ShowsView k w = (v : IsSystem k) × (k.next_inode_id ≡ w.0) × Shows k v w.1

-- What the code does is allowed.
abbrev pub Refines : View → Call → ℤ → Machine → Type 0
Refines w c r k' = (w' : View) × Promises w c r w' × ShowsView k' w'

create-Refines :
    (k : Machine) (v : IsSystem k) (f : Contents) (r : ℤ × Machine)
    → Shows k v f
    → Creates k v r
    → Refines (k.next_inode_id, f) create r.0 r.1
create-Refines k v f r shows (v', le, out) = elim (out f shows) [
  | inl (e, next, held) ↦ (
    (k.next_inode_id + 1, update f k.next_inode_id none),
    rw e (creates k.next_inode_id f),
    (v', next, held),
  )
  | inr (e, next, held) ↦
      ((k.next_inode_id, f), rw e (creates_not (k.next_inode_id, f)), (v', next, held))
]

write-Refines :
    (k : Machine) (v : IsSystem k) (f : Contents) (i : ℕ) (t : List ℕ) (r : ℤ × Machine)
    → Shows k v f
    → Writes k v i t r
    → Refines (k.next_inode_id, f) (write i t) r.0 r.1
write-Refines k v f i t r shows (v', (next, types), out) = elim (out f shows) [
  | inl (is_open, inl (e, held)) ↦ (
    (k.next_inode_id, update f i (some t)),
    rw e (writes k.next_inode_id i t f),
    (v', next, held),
  )
  | inl (is_open, inr (e, full, held)) ↦
      ((k.next_inode_id, update f i none), rw e (loses k.next_inode_id i t f), (v', next, held))
  | inr (shut, e, held) ↦
      ((k.next_inode_id, f), rw e (writes_not i t (k.next_inode_id, f)), (v', next, held))
]

delete-Refines :
    (k : Machine) (v : IsSystem k) (f : Contents) (d : ℕ) (r : ℤ × Machine)
    → Shows k v f
    → Deletes k v d r
    → Refines (k.next_inode_id, f) (delete d) r.0 r.1
delete-Refines k v f d r shows (v', (next, types), out) = elim (out f shows) [
  | inl (e, held) ↦
      ((k.next_inode_id, update f d none), rw e (deletes k.next_inode_id d f), (v', next, held))
  | inr (e, held) ↦
      ((k.next_inode_id, f), rw e (deletes_not d (k.next_inode_id, f)), (v', next, held))
]

-- The text that a read has found is the one that the inode holds.
read-Refines :
    (k : Machine) (v : IsSystem k) (f : Contents) (i : ℕ) (t : List ℕ) (r : Read)
    (c : Option (List ℕ))
    → Shows k v f
    → f i ≡ c
    → Reads k c r
    → IsString r.1 0 t
    → Refines (k.next_inode_id, f) (read i t) r.0 r.2
read-Refines k v f i t r none shows e (result, found, same) held =
    let empty = IsString-unique r.1 0 t [] held found in
    (
      (k.next_inode_id, f),
      rw (result, empty) (reads_nothing k.next_inode_id i f e),
      subst (λ k'. ShowsView k' (k.next_inode_id, f)) (sym same) (v, refl, shows),
    )
read-Refines k v f i t r (some s) shows e (result, found, same) held =
    let text = IsString-unique r.1 0 t s held found in
    (
      (k.next_inode_id, f),
      rw (result, text) (reads k.next_inode_id i s f e),
      subst (λ k'. ShowsView k' (k.next_inode_id, f)) (sym same) (v, refl, shows),
    )

read_not-Refines :
    (k : Machine) (v : IsSystem k) (f : Contents) (i : ℕ) (buf : Bytes) (r : Read)
    → Shows k v f
    → ReadsNot k buf r
    → Refines (k.next_inode_id, f) (read i []) r.0 r.2
read_not-Refines k v f i buf r shows (result, same, quiet) = (
  (k.next_inode_id, f),
  rw result (reads_not i (k.next_inode_id, f)),
  (
    IsSystem-OnlyPrints k r.2 quiet v,
    next_id-OnlyPrints quiet,
    Shows-OnlyPrints k r.2 quiet v f shows,
  ),
)

-- The entry is one of the children that the directory has on a well-formed file system.
child-IsChild :
    (k : Machine) (v : IsSystem k) (i x d : ℕ) (h : i < k.next_inode_id)
    → IsChild k.ram i x d
    → (x < (v.tree.node i h).c) × ((v.tree.node i h).ids x ≡ d)
child-IsChild k v i x d h child =
    let kids = (v.tree.node i h).kids in
    let index : x < (v.tree.node i h).c =
      subst (λ c. x < c) (pos_inj (sym child.count ∙ kids.count)) child.index in
    (index, pos_inj (sym (kids.entry x index) ∙ child.entry))
  where
    pos_inj : {a b : ℕ} → pos a ≡ pos b → a ≡ b
    pos_inj h = cc

call-Refines :
    (k k' : Machine) (v : IsSystem k) (f : Contents) (c : Call) (r : ℤ)
    → Shows k v f
    → Step k c r k'
    → Refines (k.next_inode_id, f) c r k'
call-Refines k k' v f c r shows (fs_creates i a s t type order held short int_type) =
    create-Refines k v f (fs_create (pos i) a s type k) shows
      (fs_create-Creates k v i a s t type order held short int_type)
call-Refines k k' v f c r shows (fs_writes i a s t order held fuel) =
    write-Refines k v f i t (fs_write (pos i) a s k) shows
      (fs_write-Writes k v i a s t order held fuel)
call-Refines k k' v f c r shows (fs_deletes i x d order child) =
    let (index, e) = child-IsChild k v i x d order child in
    delete-Refines k v f d (fs_delete (pos d) k) shows
      (subst (λ d. Deletes k v d (fs_delete (pos d) k)) e (fs_delete-Deletes k v i order x index))
call-Refines k k' v f c r shows (fs_reads i buf t order is_open held) =
    read-Refines k v f i t (fs_read (pos i) buf k) (f i) shows refl
      ((fs_read-Shows k v f i buf shows order).0 is_open) held
call-Refines k k' v f c r shows (fs_reads_not i buf order shut) =
    read_not-Refines k v f i buf (fs_read (pos i) buf k) shows
      ((fs_read-Shows k v f i buf shows order).1 shut)
call-Refines k k' v f c r shows scheduler_ticks = (
  (k.next_inode_id, f),
  ticks (k.next_inode_id, f),
  (scheduler_tick-IsSystem k v, next_id-scheduler_tick k, scheduler_tick-Shows k v f shows),
)

-- Calls one after the other, with what they return.
abbrev pub Log : Type 0
Log = List (Call × ℤ)

pub data Run (k : Machine) : Log → Machine → Type 0 where
  start : Run k [] k
  then_call :
      (k1 k2 : Machine) (c : Call) (r : ℤ) (rest : Log)
      → Run k rest k1
      → Step k1 c r k2
      → Run k ((c, r) ∷ rest) k2

pub data Replay (w : View) : Log → View → Type 0 where
  nothing : Replay w [] w
  then_promise :
      (w1 w2 : View) (c : Call) (r : ℤ) (rest : Log)
      → Replay w rest w1
      → Promises w1 c r w2
      → Replay w ((c, r) ∷ rest) w2

-- From a well-formed file system that shows a view, every run of calls of `fs_create`, `fs_write`,
-- `fs_delete`, `fs_read` and `scheduler_tick`, with whatever arguments in range and whatever they return, is a
-- run that the contract allows with the same results, and leaves a well-formed file system that
-- shows the view where the contract has come to.
pub run-Replay :
    (k k' : Machine) (w : View) (log : Log)
    → ShowsView k w
    → Run k log k'
    → (w' : View) × Replay w log w' × ShowsView k' w'
run-Replay k k' w log shown start = (w, nothing, shown)
run-Replay k k' w log shown (then_call k1 k2 c r rest run step) =
    let ((n, f), replay, (v, e, shows)) = run-Replay k k1 w rest shown run in
    let (w', promise, shown') =
      subst (λ n. Refines (n, f) c r k') e (call-Refines k1 k' v f c r shows step) in
    (w', then_promise (n, f) w' c r rest replay promise, shown')
