-- ===== src/Scheduler/Spawn.antt =====
-- `scheduler_spawn` and `scheduler_kill` (core/scheduler.c).
use mineos.Base.{
  ℕ, zero, suc, ◌+◌, ◌-◌, ◌≤◌, ◌<◌, ◌≡◌, refl, ◌∙◌, ◌⊎◌, inl, inr, ℤ, pos, minus_one, arith, true,
  false, eqb_ℤ, Bool, Bool-cases, dec_eq, subst, List, [], length, if_cases,
}
use mineos.Math.Bounds.{my_sub-pos, in_bounds-pos}
use mineos.Bytes.{Bytes, put, read_int, write_int}
use mineos.Bytes.Ints.{read_int-write_int, read_int-SameOutside}
use mineos.Bytes.Outside.{SameOutside, put_other, write_int-SameOutside}
use mineos.Machine.{Machine}
use mineos.Memory.Layout.{max_processes}
use mineos.Memory.Take.{read_past}
use mineos.Screen.{color_red}
use mineos.Screen.OnlyPrints.{OnlyPrints, color-OnlyPrints}
use mineos.Text.{my_strcpy}
use mineos.Text.Strings.{IsString, IsString-cong}
use mineos.Text.Copy.{my_strcpy-IsString}
use mineos.Scheduler.{
  pid_at, proc_name_at, status_at, ticks_at, proc_running, proc_sleeping, fill_slot, is_empty,
  spawn_at, spawn_loop, scheduler_spawn, kill_at, scheduler_kill,
}
use mineos.Scheduler.Slots.{slot_at, get_process-slot_at}

-- Slot `i` holds no process.
abbrev pub empty_slot : Bytes → ℕ → Bool
empty_slot m i = eqb_ℤ (read_int m (pid_at (slot_at i))) minus_one

-- The fields of slot `i`.
pub record IsSlot (m : Bytes) (i : ℕ) (pid : ℤ) (name : List ℕ) (status : ℤ) : Type 0 where
  pub has_pid : read_int m (pid_at (slot_at i)) ≡ pid
  pub has_name : IsString m (proc_name_at (slot_at i)) name
  pub has_status : read_int m (status_at (slot_at i)) ≡ status
  pub has_ticks : read_int m (ticks_at (slot_at i)) ≡ pos 0

-- The four fields are written, and no other byte.
pub record WroteSlot (m : Bytes) (i : ℕ) (pid : ℤ) (name : List ℕ) (status : ℤ) (m' : Bytes)
    : Type 0 where
  pub slot : IsSlot m' i pid name status
  pub same : SameOutside (slot_at i) (slot_at i + 28) m m'

fill_slot-WroteSlot :
    (m : Bytes) (i : ℕ) (a : Bytes) (s : ℕ) (t : List ℕ)
    → i < max_processes
    → IsString a s t
    → length t < 16
    → WroteSlot m i (pos i) t proc_running (fill_slot m (slot_at i) i a s)
unfolding fill_slot
fill_slot-WroteSlot m i a s t h held short =
    let p : ℕ = slot_at i in
    let m1 : Bytes = write_int m p (pos i) in
    let m2 : Bytes = my_strcpy m1 (p + 4) a s in
    let m3 : Bytes = write_int m2 (p + 20) proc_running in
    let m4 : Bytes = write_int m3 (p + 24) (pos 0) in
    let copy = my_strcpy-IsString m1 (p + 4) a s t (omega arith) held in
    let last : SameOutside (p + 20) (p + 28) m2 m4 = λ q out.
      write_int-SameOutside m3 (p + 24) (pos 0) q (omega arith)
      ∙ write_int-SameOutside m2 (p + 20) proc_running q (omega arith) in
    record {
      slot = record {
        has_pid =
            read_int-SameOutside m2 m4 p last (omega arith)
            ∙ read_int-SameOutside m1 m2 p copy.1 (omega arith)
            ∙ read_int-write_int m p (pos i) (omega arith);
        has_name = IsString-cong m2 m4 (p + 4) t (λ q u v. last q (omega arith)) copy.0;
        has_status =
            read_past m3 (p + 24) (pos 0) (p + 20) (omega arith)
              (read_int-write_int m2 (p + 20) proc_running (omega arith));
        has_ticks = read_int-write_int m3 (p + 24) (pos 0) (omega arith);
      };
      same = λ q out.
          last q (omega arith)
          ∙ copy.1 q (omega arith)
          ∙ write_int-SameOutside m p (pos i) q (omega arith);
    }

-- What a spawn from slot `i` on does: it takes the first empty slot, or there is none.
abbrev pub SpawnedFrom : ℕ → Machine → List ℕ → ℤ × Machine → Type 0
SpawnedFrom i k t r =
    ((j : ℕ) × (i ≤ j)
      × (j < max_processes)
      × (empty_slot k.ram j ≡ true)
      × ((l : ℕ) → i ≤ l → l < j → empty_slot k.ram l ≡ false)
      × (r.0 ≡ pos j)
      × WroteSlot k.ram j (pos j) t proc_running r.1.ram)
    ⊎ (((l : ℕ) → i ≤ l → l < max_processes → empty_slot k.ram l ≡ false)
        × (r.0 ≡ minus_one)
        × OnlyPrints k r.1)

not_yet :
    (i j : ℕ) (m : Bytes)
    → empty_slot m i ≡ false
    → ((l : ℕ) → i + 1 ≤ l → l < j → empty_slot m l ≡ false)
    → (l : ℕ) → i ≤ l
    → l < j
    → empty_slot m l ≡ false
not_yet i j m e before l a b = elim (dec_eq i l) [
  | inl same ↦ subst (λ l. empty_slot m l ≡ false) same e
  | inr ne ↦ before l (omega arith) b
]

SpawnedFrom-suc :
    (i : ℕ) (k : Machine) (t : List ℕ) (r : ℤ × Machine)
    → empty_slot k.ram i ≡ false
    → SpawnedFrom (i + 1) k t r
    → SpawnedFrom i k t r
SpawnedFrom-suc i k t r e (inl (j, low, high, here, before, result, wrote)) =
    inl (j, omega arith, high, here, not_yet i j k.ram e before, result, wrote)
SpawnedFrom-suc i k t r e (inr (full, result, same)) =
    inr (not_yet i max_processes k.ram e full, result, same)

module _ (k : Machine) (a : Bytes) (s : ℕ) (t : List ℕ) (held : IsString a s t)
    (short : length t < 16) where
  spawn_loop-SpawnedFrom :
      (n i : ℕ) → i + n ≡ max_processes → SpawnedFrom i k t (spawn_loop n i a s k)
  unfolding spawn_loop is_empty spawn_at
  spawn_loop-SpawnedFrom zero i e =
      inr (λ l u v. absurd (omega arith), refl, color-OnlyPrints _ color_red k)
  spawn_loop-SpawnedFrom (suc n) i e = rw (get_process-slot_at i (omega arith)) (
      if_cases (SpawnedFrom i k t) (empty_slot k.ram i) _ _
        (λ here. inl (
          i,
          omega arith,
          omega arith,
          here,
          λ l u v. absurd (omega arith),
          refl,
          fill_slot-WroteSlot k.ram i a s t (omega arith) held short,
        ))
        λ taken. SpawnedFrom-suc i k t _ taken (spawn_loop-SpawnedFrom n (i + 1) (omega arith)))

  -- For a name of at most 15 characters `scheduler_spawn` takes the first of the 16 slots whose PID
  -- is -1: it returns the index of that slot, the slot holds a running process of that PID and name
  -- with 0 ticks, and no other byte of the RAM has changed. Where no slot is empty, it returns -1
  -- and changes nothing but the output.
  pub scheduler_spawn-SpawnedFrom : SpawnedFrom 0 k t (scheduler_spawn a s k)
  unfolding scheduler_spawn
  scheduler_spawn-SpawnedFrom = spawn_loop-SpawnedFrom max_processes 0 refl

-- The bytes that a kill leaves.
abbrev killed : Bytes → ℕ → Bytes
killed m p =
    write_int
      (put (write_int (write_int m (pid_at p) minus_one) (status_at p) proc_sleeping)
        (proc_name_at p) 0)
      (ticks_at p) (pos 0)

killed-WroteSlot :
    (m : Bytes) (i : ℕ) → WroteSlot m i minus_one [] proc_sleeping (killed m (slot_at i))
unfolding put
killed-WroteSlot m i =
    let p : ℕ = slot_at i in
    let m1 : Bytes = write_int m p minus_one in
    let m2 : Bytes = write_int m1 (p + 20) proc_sleeping in
    let m3 : Bytes = put m2 (p + 4) 0 in
    let m4 : Bytes = write_int m3 (p + 24) (pos 0) in
    let name : SameOutside (p + 4) (p + 5) m2 m3 =
      λ q out. put_other m2 (p + 4) 0 q (omega arith) in
    record {
      slot = record {
        has_pid = read_past m3 (p + 24) (pos 0) p (omega arith) (
            read_int-SameOutside m2 m3 p name (omega arith)
            ∙ read_past m1 (p + 20) proc_sleeping p (omega arith)
                (read_int-write_int m p minus_one (omega arith)));
        has_name = write_int-SameOutside m3 (p + 24) (pos 0) (p + 4) (omega arith) ∙ ground arith;
        has_status = read_past m3 (p + 24) (pos 0) (p + 20) (omega arith) (
            read_int-SameOutside m2 m3 (p + 20) name (omega arith)
            ∙ read_int-write_int m1 (p + 20) proc_sleeping (omega arith));
        has_ticks = read_int-write_int m3 (p + 24) (pos 0) (omega arith);
      };
      same = λ q out.
          write_int-SameOutside m3 (p + 24) (pos 0) q (omega arith)
          ∙ name q (omega arith)
          ∙ write_int-SameOutside m1 (p + 20) proc_sleeping q (omega arith)
          ∙ write_int-SameOutside m p minus_one q (omega arith);
    }

-- `scheduler_kill` of a slot that holds a process makes the slot an empty one and changes no other
-- byte of the RAM; of an empty slot, it changes nothing but the output.
pub scheduler_kill-WroteSlot :
    (k : Machine) (i : ℕ)
    → i < max_processes
    → ((empty_slot k.ram i ≡ true) × OnlyPrints k (scheduler_kill (pos i) k))
      ⊎ ((empty_slot k.ram i ≡ false)
          × WroteSlot k.ram i minus_one [] proc_sleeping (scheduler_kill (pos i) k).ram)
unfolding scheduler_kill kill_at
scheduler_kill-WroteSlot k i h =
    rw
      (
        my_sub-pos max_processes 1 (omega arith) (omega arith),
        in_bounds-pos i 0 (max_processes - 1) (omega arith) (omega arith),
        get_process-slot_at i h,
      )
      (elim (Bool-cases (empty_slot k.ram i)) [
        | inl e ↦ inl (e, rw e (color-OnlyPrints _ color_red k))
        | inr e ↦ inr (e, rw e (killed-WroteSlot k.ram i))
      ])
