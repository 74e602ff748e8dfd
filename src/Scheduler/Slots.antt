-- ===== src/Scheduler/Slots.antt =====
-- core/scheduler.c: where the slots lie, and what one slot's writes leave alone.
use mineos.Base.{ℕ, ◌+◌, ◌-◌, ◌*◌, ◌<◌, ◌≡◌, refl, pos, arith, some}
use mineos.Math.Bounds.{my_add-pos, my_sub-pos, my_mul-pos, in_bounds-pos}
use mineos.Memory.Layout.{process_table_offset, max_processes, process_entry_size}
use mineos.Scheduler.{get_process}

abbrev pub slot_at : ℕ → ℕ
slot_at i = process_table_offset + i * 64

pub get_process-slot_at : (i : ℕ) → i < max_processes → get_process (pos i) ≡ some (slot_at i)
unfolding get_process
get_process-slot_at i h =
    rw
      (
        my_sub-pos max_processes 1 (omega arith) (omega arith),
        in_bounds-pos i 0 (max_processes - 1) (omega arith) (omega arith),
        my_mul-pos i process_entry_size (omega arith),
        my_add-pos process_table_offset (i * process_entry_size) (omega arith),
      )
      refl
