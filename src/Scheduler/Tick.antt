-- ===== src/Scheduler/Tick.antt =====
-- `scheduler_tick` (core/scheduler.c) counts one tick for every running process, and for no other.
use mineos.Base.{
  ℕ, zero, suc, ◌+◌, ◌≤◌, ◌<◌, ◌≡◌, refl, ◌∙◌, inl, inr, ℤ, pos, minus_one, arith, some,
  if◌then◌else◌, Bool, true, false, not, ◌&&◌, eqb_ℤ, if_cases, ◌+ℤ◌, ◌⊎◌, dec_eq, subst, [],
}
use mineos.Math.{my_add, my_mod, IsInt}
use mineos.Math.Bounds.{IsInt-wrap}
use mineos.Bytes.{Bytes, read_int}
use mineos.Bytes.Ints.{read_int-write_int, read_int-SameOutside}
use mineos.Bytes.Outside.{SameOutside, write_int-SameOutside}
use mineos.Machine.{Machine}
use mineos.Memory.Layout.{
  process_table_offset, process_table_size, process_entry_size, max_processes,
}
use mathlib.Core.List.{append-nil}
use mineos.Screen.{color_magenta}
use mineos.Screen.OnlyPrints.{
  OnlyPrints, OnlyPrints-trans, str-OnlyPrints, color-OnlyPrints, ram-OnlyPrints, ticks-OnlyPrints,
}
use mineos.Scheduler.{
  is_running, count_tick, tick_loop, tick_message, scheduler_tick, pid_at, status_at, ticks_at,
  get_process, proc_running,
}
use mineos.Scheduler.Slots.{slot_at, get_process-slot_at}

-- Slot `i` holds a process that runs.
abbrev pub runs : Bytes → ℕ → Bool
runs m i =
    not (eqb_ℤ (read_int m (pid_at (slot_at i))) minus_one)
    && eqb_ℤ (read_int m (status_at (slot_at i))) proc_running

abbrev pub ticks_of : Bytes → ℕ → ℤ
ticks_of m i = read_int m (ticks_at (slot_at i))

abbrev pub ticked : Bytes → ℕ → ℤ
ticked m i = if runs m i then my_add (ticks_of m i) (pos 1) else ticks_of m i

IsInt-my_add : (a b : ℤ) → IsInt (my_add a b)
unfolding my_add
IsInt-my_add a b = IsInt-wrap (a +ℤ b)

-- One round at slot `i`.
record TickedOne (m : Bytes) (i : ℕ) (m' : Bytes) : Type 0 where
  ticks : ticks_of m' i ≡ ticked m i
  same : SameOutside (slot_at i + 24) (slot_at i + 28) m m'

count_TickedOne :
    (m : Bytes) (i : ℕ) → runs m i ≡ true → TickedOne m i (count_tick m (some (slot_at i)))
unfolding count_tick
count_TickedOne m i e = record {
  ticks = rw e (read_int-write_int m (slot_at i + 24) _ (IsInt-my_add _ _));
  same = λ q out. write_int-SameOutside m (slot_at i + 24) _ q (omega arith);
}

skip_TickedOne : (m : Bytes) (i : ℕ) → runs m i ≡ false → TickedOne m i m
skip_TickedOne m i e = record { ticks = rw e refl; same = λ q out. refl }

tick_step : Bytes → ℕ → Bytes
tick_step m i = if is_running m (get_process (pos i)) then count_tick m (get_process (pos i)) else m

tick_step-TickedOne : (m : Bytes) (i : ℕ) → i < max_processes → TickedOne m i (tick_step m i)
unfolding tick_step is_running
tick_step-TickedOne m i h =
    rw (get_process-slot_at i h)
      (if_cases (TickedOne m i) (runs m i) _ _ (count_TickedOne m i) (skip_TickedOne m i))

-- The rounds from slot `i` on: each of the next `n` slots is ticked, the others are not.
record Ticked (m : Bytes) (i n : ℕ) (m' : Bytes) : Type 0 where
  among : (j : ℕ) → i ≤ j → j < i + n → ticks_of m' j ≡ ticked m j
  below : (j : ℕ) → j < i → ticks_of m' j ≡ ticks_of m j
  pids : (j : ℕ) → read_int m' (slot_at j) ≡ read_int m (slot_at j)
  statuses : (j : ℕ) → read_int m' (slot_at j + 20) ≡ read_int m (slot_at j + 20)
  bytes :
      (j q : ℕ)
      → slot_at j ≤ q
      → q < slot_at j + process_entry_size
      → (q < ticks_at (slot_at j)) ⊎ (ticks_at (slot_at j) + 4 ≤ q)
      → m' q ≡ m q
  same : SameOutside process_table_offset (process_table_offset + process_table_size) m m'

module _ (m m1 m' : Bytes) (i n : ℕ) (one : TickedOne m i m1) (rest : Ticked m1 (i + 1) n m')
    (h : i < max_processes) where
  other : (p : ℕ) → (p + 4 ≤ slot_at i + 24) ⊎ (slot_at i + 28 ≤ p) → read_int m1 p ≡ read_int m p
  other p apart = read_int-SameOutside m m1 p one.same apart

  other_slot : (j : ℕ) → (j < i) ⊎ (i < j) → ticked m1 j ≡ ticked m j
  other_slot j (inl l) =
      rw
        (
          other (slot_at j) (omega arith),
          other (slot_at j + 20) (omega arith),
          other (slot_at j + 24) (omega arith),
        )
        refl
  other_slot j (inr l) =
      rw
        (
          other (slot_at j) (omega arith),
          other (slot_at j + 20) (omega arith),
          other (slot_at j + 24) (omega arith),
        )
        refl

  away :
      (j q : ℕ)
      → slot_at j ≤ q
      → q < slot_at j + process_entry_size
      → (q < ticks_at (slot_at j)) ⊎ (ticks_at (slot_at j) + 4 ≤ q)
      → (q < slot_at i + 24) ⊎ (slot_at i + 28 ≤ q)
  away j q a b out = ground arith

  Ticked-suc : Ticked m i (suc n) m'
  Ticked-suc = record {
    among = λ j a b. elim (dec_eq i j) [
      | inl e ↦ subst (λ j. ticks_of m' j ≡ ticked m j) e (rest.below i (omega arith) ∙ one.ticks)
      | inr l ↦ rest.among j (omega arith) (omega arith) ∙ other_slot j (omega arith)
    ];
    below = λ j a. rest.below j (omega arith) ∙ other (slot_at j + 24) (omega arith);
    pids = λ j. rest.pids j ∙ other (slot_at j) (omega arith);
    statuses = λ j. rest.statuses j ∙ other (slot_at j + 20) (omega arith);
    bytes = λ j q a b out. rest.bytes j q a b out ∙ one.same q (away j q a b out);
    same = λ q out. rest.same q out ∙ one.same q (omega arith);
  }

tick_loop-Ticked : (n i : ℕ) (m : Bytes) → i + n ≤ max_processes → Ticked m i n (tick_loop n i m)
unfolding tick_loop tick_step
tick_loop-Ticked zero i m h = record {
  among = λ j a b. absurd (omega arith);
  below = λ j a. refl;
  pids = λ j. refl;
  statuses = λ j. refl;
  bytes = λ j q a b out. refl;
  same = λ q out. refl;
}
tick_loop-Ticked (suc n) i m h =
    Ticked-suc m (tick_step m i) _ i n (tick_step-TickedOne m i (omega arith))
      (tick_loop-Ticked n (i + 1) (tick_step m i) (omega arith)) (omega arith)

message-OnlyPrints : (k : Machine) → OnlyPrints k (tick_message k)
unfolding tick_message
message-OnlyPrints k =
    OnlyPrints-trans k _ _
      (OnlyPrints-trans k _ _ (color-OnlyPrints _ color_magenta k)
        (color-OnlyPrints _ color_magenta _))
      (str-OnlyPrints _ _)

-- The tick without its message.
abbrev pub counted : Machine → Machine
counted k = record k {
  global_ticks = my_add k.global_ticks (pos 1);
  ram = tick_loop max_processes 0 k.ram;
}

pub tick-OnlyPrints : (k : Machine) → OnlyPrints (counted k) (scheduler_tick k)
unfolding scheduler_tick
tick-OnlyPrints k =
    if_cases (OnlyPrints (counted k))
      (eqb_ℤ (my_mod (my_add k.global_ticks (pos 1)) (pos 5)) (pos 0)) _ _
      (λ e. message-OnlyPrints (counted k)) (λ e. record { more = []; prints = rw append-nil refl })

-- `scheduler_tick` adds one to the tick count of each of the 16 slots that holds a running process
-- and of no other slot; it changes no other byte of a slot, so no PID, no status and no name, and
-- nothing outside of the process table, and adds one to the global tick count.
pub scheduler_tick-ticked :
    (k : Machine) (i : ℕ)
    → i < max_processes
    → let m' = (scheduler_tick k).ram in
      (ticks_of m' i ≡ ticked k.ram i)
      × (read_int m' (pid_at (slot_at i)) ≡ read_int k.ram (pid_at (slot_at i)))
      × (read_int m' (status_at (slot_at i)) ≡ read_int k.ram (status_at (slot_at i)))
      × ((q : ℕ)
          → slot_at i ≤ q
          → q < slot_at i + process_entry_size
          → (q < ticks_at (slot_at i)) ⊎ (ticks_at (slot_at i) + 4 ≤ q)
          → m' q ≡ k.ram q)
      × SameOutside process_table_offset (process_table_offset + process_table_size) k.ram m'
      × ((scheduler_tick k).global_ticks ≡ my_add k.global_ticks (pos 1))
scheduler_tick-ticked k i h =
    let all = tick_loop-Ticked max_processes 0 k.ram (omega arith) in
    let kept = tick-OnlyPrints k in
    rw (ram-OnlyPrints kept) (
      all.among i (omega arith) (omega arith),
      all.pids i,
      all.statuses i,
      all.bytes i,
      all.same,
      ticks-OnlyPrints kept,
    )
