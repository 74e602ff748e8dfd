-- ===== src/System/Tables.antt =====
-- The process table (core/scheduler.c) and the invariant.
use mineos.Base.{ℕ, ◌+◌, ◌≤◌, ◌<◌, ◌≡◌, ◌∙◌, sym, subst, arith, List, Option}
use mineos.Bytes.{Bytes}
use mineos.Bytes.Outside.{SameOutside}
use mineos.Machine.{Machine}
use mineos.Memory.Layout.{process_table_offset, process_table_size, data_region_offset}
use mineos.Memory.Chain.{Block, IsChain-SameOutside}
use mineos.Screen.OnlyPrints.{next_id-OnlyPrints}
use mineos.Scheduler.{scheduler_tick}
use mineos.Scheduler.Tick.{scheduler_tick-ticked, tick-OnlyPrints}
use mineos.System.{HoldsText, IsTree, IsStore, IsSystem, Contents, Shows}
use mineos.System.Nodes.{KeepsContent, content-SameIn, HoldsText-cong, IsTree-KeepsLinks}

module _ (m m' : Bytes) (n : ℕ)
    (same : SameOutside process_table_offset (process_table_offset + process_table_size) m m') where
  tables-IsTree : IsTree m n → IsTree m' n
  tables-IsTree t =
      let bound = t.bound in IsTree-KeepsLinks m m' n (λ i h q k. same q (omega arith)) t

  keeps_content : (i : ℕ) → i < 128 → KeepsContent m m' i
  keeps_content i h = content-SameIn m m' i λ q a b. same q (omega arith)

  tables-HoldsText :
      (bs : List Block) (i : ℕ) (c : Option (List ℕ))
      → i < 128
      → HoldsText m bs i c
      → HoldsText m' bs i c
  tables-HoldsText bs i c h =
      HoldsText-cong m m' bs i c (keeps_content i h) (λ q a. same q (omega arith))

  tables-IsStore : (bs : List Block) → n ≤ 128 → IsStore m n bs → IsStore m' n bs
  tables-IsStore bs bound v = record {
    heap = IsChain-SameOutside m m' data_region_offset bs same (omega arith) v.heap;
    content =
        λ i h. let (c, held) = v.content i h in (c, tables-HoldsText bs i c (omega arith) held);
    separate = λ i j o hi hj ei ej.
        v.separate i j o hi hj (sym (keeps_content i (omega arith)).0 ∙ ei)
          (sym (keeps_content j (omega arith)).0 ∙ ej);
  }

-- A change of the process table alone.
pub tables-IsSystem :
    (k k' : Machine)
    → SameOutside process_table_offset (process_table_offset + process_table_size) k.ram k'.ram
    → k'.next_inode_id ≡ k.next_inode_id
    → IsSystem k
    → IsSystem k'
tables-IsSystem k k' same next v =
    let n : ℕ = k.next_inode_id in
    record {
      tree = subst (IsTree k'.ram) (sym next) (tables-IsTree k.ram k'.ram n same v.tree);
      blocks = v.blocks;
      store =
          subst (λ n. IsStore k'.ram n v.blocks) (sym next)
            (tables-IsStore k.ram k'.ram n same v.blocks v.tree.bound v.store);
    }

pub tables-Shows :
    (k k' : Machine)
    (same : SameOutside process_table_offset
      (process_table_offset + process_table_size)
      k.ram
      k'.ram)
    (next : k'.next_inode_id ≡ k.next_inode_id) (v : IsSystem k) (f : Contents)
    → Shows k v f
    → Shows k' (tables-IsSystem k k' same next v) f
unfolding tables-IsSystem
tables-Shows k k' same next v f shows i h =
    let bound = v.tree.bound in
    tables-HoldsText k.ram k'.ram k.next_inode_id same v.blocks i (f i) (omega arith)
      (shows i (omega arith))

pub next_id-scheduler_tick : (k : Machine) → (scheduler_tick k).next_inode_id ≡ k.next_inode_id
next_id-scheduler_tick k = next_id-OnlyPrints (tick-OnlyPrints k)

pub tick-SameOutside :
    (k : Machine)
    → SameOutside process_table_offset
        (process_table_offset + process_table_size)
        k.ram
        (scheduler_tick k).ram
tick-SameOutside k =
    let (a, pid, status, b, same, d) = scheduler_tick-ticked k 0 (omega arith) in same

pub scheduler_tick-IsSystem : (k : Machine) → IsSystem k → IsSystem (scheduler_tick k)
scheduler_tick-IsSystem k =
    tables-IsSystem k (scheduler_tick k) (tick-SameOutside k) (next_id-scheduler_tick k)

-- A tick of the scheduler changes no content.
pub scheduler_tick-Shows :
    (k : Machine) (v : IsSystem k) (f : Contents)
    → Shows k v f
    → Shows (scheduler_tick k) (scheduler_tick-IsSystem k v) f
unfolding scheduler_tick-IsSystem
scheduler_tick-Shows k =
    tables-Shows k (scheduler_tick k) (tick-SameOutside k) (next_id-scheduler_tick k)
