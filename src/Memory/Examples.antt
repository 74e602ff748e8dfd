-- ===== src/Memory/Examples.antt =====
-- libs/memory.c at concrete inputs.
use mathlib.Core.Path.{subst}
use mineos.Base.{
  ℕ, ◌+◌, ◌-◌, ◌≤◌, ◌<◌, ◌≡◌, refl, ◌⊎◌, inl, true, false, List, [], ◌∷◌, arith, pos, none, some,
}
use mineos.Machine.{Machine}
use mineos.Memory.Layout.{data_region_size}
use mineos.Memory.{memory_init, alloc, dealloc, memory_used, memory_free}
use mineos.Memory.Init.{whole, memory_init-IsHeap}
use mineos.Memory.FirstFit.{first_fit, carve, IsFit, push, coalesce}
use mineos.Memory.Chain.{Block, block, IsHeap}
use mineos.Memory.Alloc.{alloc-first_fit, IsAllocated}
use mineos.Memory.Release.{dealloc-coalesce}
use mineos.Memory.Stats.{used_bytes, free_bytes, memory_used-add-free}
use mineos.Memory.Accounting.{UsesMore, memory_used-alloc}
use mineos.Memory.Live.{live_bytes_kept}

abbrev blank : Machine
blank = record {
  ram = λ q. 7;
  current_user = λ q. 0;
  next_inode_id = 0;
  global_ticks = pos 0;
  raw_mode_active = false;
  printed = [];
  image = none;
}

-- The machine after `memory_init`, and after `alloc(5)` on it.
abbrev booted : Machine
booted = memory_init blank

abbrev used_once : Machine
used_once = (alloc (pos 5) booted).1

abbrev fresh : List Block
fresh = block whole true ∷ []

abbrev once : List Block
once = block 5 false ∷ block (whole - 17) true ∷ []

booted-IsHeap : IsHeap booted.ram fresh
booted-IsHeap = (memory_init-IsHeap blank).0

first_fit_runs :
    first_fit 5 (block 9 false ∷ block 3 true ∷ block 20 true ∷ block 50 true ∷ [])
    ≡ some (record {
      before = block 9 false ∷ block 3 true ∷ [];
      found = block 20 true;
      behind = block 50 true ∷ [];
    })
unfolding first_fit push
first_fit_runs = refl

fresh_fit : first_fit 5 fresh ≡ some (record { before = []; found = block whole true; behind = [] })
unfolding first_fit
fresh_fit = refl

-- Room for the rest: 20 bytes are split at 5, 17 bytes are not.
carve_runs :
    (carve 5 (block 20 true) ≡ block 5 false ∷ block 3 true ∷ [])
    × (carve 5 (block 17 true) ≡ block 17 false ∷ [])
unfolding carve
carve_runs = (refl, refl)

alloc-first_fit_example :
    IsFit 5 fresh (first_fit 5 fresh)
    × IsAllocated booted 5 (first_fit 5 fresh) (alloc (pos 5) booted)
alloc-first_fit_example = alloc-first_fit booted fresh 5 booted-IsHeap (omega arith)

-- The allocation at the machine that was just booted, read off the theorem.
allocated :
    IsAllocated booted 5
      (some (record { before = []; found = block whole true; behind = [] }))
      (alloc (pos 5) booted)
allocated =
    subst (λ o. IsAllocated booted 5 o (alloc (pos 5) booted)) fresh_fit
      (alloc-first_fit booted fresh 5 booted-IsHeap (omega arith)).1

used_once-IsHeap : IsHeap used_once.ram once
unfolding carve
used_once-IsHeap = allocated.1

dealloc-coalesce_example :
    let k' = dealloc (some (pos 17484)) used_once in
    IsHeap k'.ram (coalesce (block 5 false) (block (whole - 17) true ∷ []))
    × ((q : ℕ) → (q < 17472) ⊎ (17484 ≤ q) → k'.ram q ≡ used_once.ram q)
    × (k'.printed ≡ used_once.printed)
dealloc-coalesce_example =
    dealloc-coalesce used_once [] (block 5 false) (block (whole - 17) true ∷ []) used_once-IsHeap

memory_used-add-free_example :
    (memory_used used_once ≡ pos (used_bytes once))
    × (memory_free used_once ≡ pos (free_bytes once))
    × (used_bytes once + free_bytes once + 24 ≡ data_region_size)
memory_used-add-free_example = memory_used-add-free used_once once used_once-IsHeap

memory_used-alloc_example : (g : ℕ) × (5 ≤ g) × (g < 18) × UsesMore g booted used_once
memory_used-alloc_example = memory_used-alloc booted fresh 5 booted-IsHeap (omega arith) allocated.0

-- Byte 17488 is the last of the five.
live_bytes_kept_example :
    ((alloc (pos 40) used_once).1.ram 17488 ≡ used_once.ram 17488)
    × ((dealloc (some (pos 17484)) used_once).ram 17488 ≡ used_once.ram 17488)
live_bytes_kept_example =
    live_bytes_kept used_once [] (block 5 false) (block (whole - 17) true ∷ []) 40 17488
      used_once-IsHeap (omega arith) (inl (inl (refl, omega arith, omega arith)))
