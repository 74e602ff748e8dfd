-- ===== src/Scheduler/Init.antt =====
-- `scheduler_init` (core/scheduler.c): the table after the start.
use mineos.Base.{
  ℕ, zero, suc, ◌+◌, ◌≤◌, ◌<◌, ◌≡◌, refl, ◌∙◌, inl, inr, ℤ, pos, minus_one, arith, some, true,
  false, dec_eq, subst, [], codes,
}
use mineos.Bytes.{Bytes, put, read_int, write_int, object}
use mineos.Bytes.Ints.{read_int-write_int, read_int-SameOutside, read_int-cong}
use mineos.Bytes.Outside.{SameOutside, put_other, write_int-SameOutside}
use mineos.Machine.{Machine}
use mineos.Memory.Layout.{max_processes, process_table_offset, process_table_size}
use mineos.Memory.Take.{read_past}
use mineos.Text.Strings.{IsString}
use mineos.Scheduler.{
  proc_running, proc_sleeping, clear_slot, init_loop, scheduler_init, scheduler_spawn,
}
use mineos.Scheduler.Slots.{slot_at, get_process-slot_at}
use mineos.Scheduler.Spawn.{empty_slot, IsSlot, WroteSlot, SpawnedFrom, scheduler_spawn-SpawnedFrom}

clear_slot-WroteSlot :
    (m : Bytes) (i : ℕ) → WroteSlot m i minus_one [] proc_sleeping (clear_slot m (some (slot_at i)))
unfolding clear_slot put
clear_slot-WroteSlot m i =
    let p : ℕ = slot_at i in
    let m1 : Bytes = write_int m p minus_one in
    let m2 : Bytes = put m1 (p + 4) 0 in
    let m3 : Bytes = write_int m2 (p + 20) proc_sleeping in
    let name : SameOutside (p + 4) (p + 5) m1 m2 =
      λ q out. put_other m1 (p + 4) 0 q (omega arith) in
    record {
      slot = record {
        has_pid = read_past m3 (p + 24) (pos 0) p (omega arith) (
            read_past m2 (p + 20) proc_sleeping p (omega arith) (
              read_int-SameOutside m1 m2 p name (omega arith)
              ∙ read_int-write_int m p minus_one (omega arith)));
        has_name =
            write_int-SameOutside m3 (p + 24) (pos 0) (p + 4) (omega arith)
            ∙ write_int-SameOutside m2 (p + 20) proc_sleeping (p + 4) (omega arith)
            ∙ ground arith;
        has_status =
            read_past m3 (p + 24) (pos 0) (p + 20) (omega arith)
              (read_int-write_int m2 (p + 20) proc_sleeping (omega arith));
        has_ticks = read_int-write_int m3 (p + 24) (pos 0) (omega arith);
      };
      same = λ q out.
          write_int-SameOutside m3 (p + 24) (pos 0) q (omega arith)
          ∙ write_int-SameOutside m2 (p + 20) proc_sleeping q (omega arith)
          ∙ name q (omega arith)
          ∙ write_int-SameOutside m p minus_one q (omega arith);
    }

abbrev pub IsEmptySlot : Bytes → ℕ → Type 0
IsEmptySlot m i = IsSlot m i minus_one [] proc_sleeping

-- Writes to other slots leave an empty slot empty.
IsEmptySlot-cong :
    (m m' : Bytes) (i : ℕ)
    → ((q : ℕ) → slot_at i ≤ q → q < slot_at i + 28 → m' q ≡ m q)
    → IsEmptySlot m i
    → IsEmptySlot m' i
IsEmptySlot-cong m m' i same s =
    let at = λ (f : ℕ) (l : slot_at i ≤ f) (h : f + 4 ≤ slot_at i + 28).
      read_int-cong m m' f λ q a b. same q (omega arith) (omega arith) in
    record {
      has_pid = at (slot_at i) (omega arith) (omega arith) ∙ s.has_pid;
      has_name = same (slot_at i + 4) (omega arith) (omega arith) ∙ s.has_name;
      has_status = at (slot_at i + 20) (omega arith) (omega arith) ∙ s.has_status;
      has_ticks = at (slot_at i + 24) (omega arith) (omega arith) ∙ s.has_ticks;
    }

-- The rounds from slot `i` on have emptied the next `n` slots.
record Emptied (m : Bytes) (i n : ℕ) (m' : Bytes) : Type 0 where
  among : (j : ℕ) → i ≤ j → j < i + n → IsEmptySlot m' j
  same : SameOutside (slot_at i) (slot_at (i + n)) m m'

init_loop-Emptied : (n i : ℕ) (m : Bytes) → i + n ≤ max_processes → Emptied m i n (init_loop n i m)
unfolding init_loop
init_loop-Emptied zero i m h = record {
  among = λ j a b. absurd (omega arith);
  same = λ q out. refl;
}
init_loop-Emptied (suc n) i m h = rw (get_process-slot_at i (omega arith)) (
    let m1 : Bytes = clear_slot m (some (slot_at i)) in
    let one = clear_slot-WroteSlot m i in
    let rest = init_loop-Emptied n (i + 1) m1 (omega arith) in
    record {
      among = λ j a b. elim (dec_eq i j) [
        | inl e ↦
            subst (IsEmptySlot (init_loop n (i + 1) m1)) e
              (IsEmptySlot-cong m1 _ i (λ q l r. rest.same q (omega arith)) one.slot)
        | inr ne ↦ rest.among j (omega arith) (omega arith)
      ];
      same = λ q out. rest.same q (omega arith) ∙ one.same q (omega arith);
    })

-- The table after the start: process 0 runs, the other slots are empty.
pub record Started (m m' : Bytes) : Type 0 where
  pub first : IsSlot m' 0 (pos 0) (codes "uptime") proc_running
  pub others : (i : ℕ) → 0 < i → i < max_processes → IsEmptySlot m' i
  pub same : SameOutside process_table_offset (process_table_offset + process_table_size) m m'

taken-ne-empty :
    (m : Bytes) (i : ℕ) → read_int m (slot_at i) ≡ minus_one → empty_slot m i ≡ false → ⊥
taken-ne-empty m i e taken = true-ne-false (rw e at taken)
  where
    true-ne-false : true ≡ false → ⊥
    true-ne-false h = ground arith

uptime_held : IsString (object (codes "uptime")) 0 (codes "uptime")
unfolding object
uptime_held = ground arith

spawned-Started :
    (m : Bytes) (k : Machine) (r : ℤ × Machine)
    → Emptied m 0 max_processes k.ram
    → SpawnedFrom 0 k (codes "uptime") r
    → Started m r.1.ram
spawned-Started m k r all (inl (zero, low, high, here, before, result, wrote)) = record {
  first = wrote.slot;
  others = λ i a b.
      IsEmptySlot-cong k.ram r.1.ram i (λ q l h. wrote.same q (omega arith))
        (all.among i (omega arith) (omega arith));
  same = λ q out. wrote.same q (omega arith) ∙ all.same q (omega arith);
}
spawned-Started m k r all (inl (suc j, low, high, here, before, result, wrote)) =
    let empty = all.among 0 (omega arith) (omega arith) in
    let taken = before 0 (omega arith) (omega arith) in
    absurd (taken-ne-empty k.ram 0 empty.has_pid taken)
spawned-Started m k r all (inr (full, result, same)) =
    let empty = all.among 0 (omega arith) (omega arith) in
    absurd (taken-ne-empty k.ram 0 empty.has_pid (full 0 (omega arith) (omega arith)))

-- Whatever the RAM held, after `scheduler_init` slot 0 holds the process "uptime", which runs, has
-- PID 0 and 0 ticks, the other 15 slots are empty, and nothing outside of the process table has
-- changed.
pub scheduler_init-Started : (k : Machine) → Started k.ram (scheduler_init k).ram
unfolding scheduler_init
scheduler_init-Started k =
    let k1 : Machine = record k { global_ticks = pos 0; ram = init_loop max_processes 0 k.ram } in
    spawned-Started k.ram k1 (scheduler_spawn (object (codes "uptime")) 0 k1)
      (init_loop-Emptied max_processes 0 k.ram (omega arith))
      (scheduler_spawn-SpawnedFrom k1 (object (codes "uptime")) 0 (codes "uptime") uptime_held
        (omega arith))
