-- ===== src/System/Dispatch.antt =====
-- What a command line of core/commands.c does to the system.
use mineos.Base.{
  ◌≡◌, ◌≢◌, refl, ◌∙◌, sym, subst, arith, ℤ, pos, All, some, List, [], ◌∷◌, String, true, false,
  if_cases, ltb, ◌==◌, codes,
}
use mineos.Bytes.{object}
use mineos.Machine.{Machine}
use mineos.Text.{Tokens, my_strlen}
use mineos.Memory.Layout.{ram_size}
use mineos.Screen.OnlyPrints.{OnlyPrints-refl, OnlyPrints, ram-OnlyPrints, next_id-OnlyPrints}
use mineos.Keyboard.{keyboard_restore}
use mineos.Commands.{cmd_exit}
use mineos.Commands.Files.{Moved, stay, is_word}
use mineos.Commands.Image.{Stdio, cmd_save}
use mineos.Commands.Prints.{print_all-OnlyPrints}
use mineos.Commands.ReadOnly.{looks_only, call-OnlyPrints}
use mineos.Commands.Fits.{CallFits}
use mineos.Commands.Dispatch.{
  Command, echo, ls, mkdir, touch, memstat, ps, clear, help, exit, cat, write, rm, cd, pwd, save,
  load, halt, call, command_table, dispatch_loop, command_dispatch,
}
use mineos.System.{IsSystem}
use mineos.System.Create.{Keeps, OnlyPrints-Keeps}
use mineos.System.Nodes.{is_dir-cong}
use mineos.System.Tables.{scheduler_tick-IsSystem, next_id-scheduler_tick, tick-SameOutside}
use mineos.Scheduler.{scheduler_tick}
use mineos.Fs.Inodes.{inode_at}
use mineos.System.Words.{AreWords}
use mineos.System.Commands.{
  IsGiven, Kept, cmd_mkdir-Kept, cmd_touch-Kept, cmd_write-Kept, cmd_rm-Kept, cmd_cd-GoesTo,
}

-- A well-formed file system, in which inode 3, where `cd` goes to, and the current directory are
-- directories.
pub record IsReady (d : ℤ) (k : Machine) : Type 0 where
  pub system : IsSystem k
  pub home : IsGiven k (pos 3)
  pub at : IsGiven k d

abbrev pub LeavesReady : Moved → Type 0
LeavesReady r = IsReady r.1 r.2

-- The RAM and the ids are as before.
same-Keeps :
    (k k' : Machine) → k'.ram ≡ k.ram → k'.next_inode_id ≡ k.next_inode_id → IsSystem k → Keeps k k'
same-Keeps k k' m n v = (
  record { tree = rw (m, n) v.tree; blocks = v.blocks; store = rw (m, n) v.store },
  omega arith,
  λ i h. rw m refl,
)

-- What was a directory is one.
pub Keeps-IsGiven : (k k' : Machine) (d : ℤ) → Keeps k k' → IsGiven k d → IsGiven k' d
Keeps-IsGiven k k' d (system, l, dirs) (i, h, e, dir) = (i, omega arith, e, dirs i h ∙ dir)

ram-keyboard_restore :
    (k : Machine)
    → ((keyboard_restore k).ram ≡ k.ram) × ((keyboard_restore k).next_inode_id ≡ k.next_inode_id)
unfolding keyboard_restore
ram-keyboard_restore k =
    if_cases (λ (k' : Machine). (k'.ram ≡ k.ram) × (k'.next_inode_id ≡ k.next_inode_id))
      k.raw_mode_active _ k (λ e. (refl, refl)) (λ e. (refl, refl))

cmd_exit-Kept : (k : Machine) → IsSystem k → Kept k (cmd_exit k)
unfolding cmd_exit
cmd_exit-Kept k v =
    let (m, n) = ram-keyboard_restore _ in
    let o = print_all-OnlyPrints _ k in
    same-Keeps k _ (m ∙ ram-OnlyPrints o) (n ∙ next_id-OnlyPrints o) v

pub scheduler_tick-Keeps : (k : Machine) → IsSystem k → Keeps k (scheduler_tick k)
scheduler_tick-Keeps k v =
    let next = next_id-scheduler_tick k in
    let bound = v.tree.bound in
    (
      scheduler_tick-IsSystem k v,
      omega arith,
      λ i h.
          is_dir-cong k.ram (scheduler_tick k).ram (inode_at i)
            (λ q a b. tick-SameOutside k q (omega arith)),
    )

cmd_save-Kept : (io : Stdio) (k : Machine) → IsSystem k → Kept k (cmd_save io k)
unfolding cmd_save
cmd_save-Kept io k v =
    if_cases (Kept k) (io.creates k) _ _
      (λ e.
        let k' = record k { image = some (io.fwrite ram_size k.ram) } in
        let o = print_all-OnlyPrints _ k' in
        same-Keeps k _ (ram-OnlyPrints o) (next_id-OnlyPrints o) v)
      (λ e. OnlyPrints-Keeps k _ v (print_all-OnlyPrints _ k))

module _ (io : Stdio) (t : Tokens) (words : AreWords t) (d : ℤ) (k : Machine)
    (v : IsReady d k) where
  moved : (d' : ℤ) (k' : Machine) → Keeps k k' → IsGiven k d' → IsReady d' k'
  moved d' k' keeps to = record {
    system = keeps.0;
    home = Keeps-IsGiven k k' (pos 3) keeps v.home;
    at = Keeps-IsGiven k k' d' keeps to;
  }

  stay-LeavesReady : (r : ℤ × Machine) → Kept k r → LeavesReady (stay d r)
  unfolding stay
  stay-LeavesReady r kept = moved d r.1 kept v.at

  looks-LeavesReady : (c : Command) → looks_only c ≡ true → LeavesReady (call c io t d k)
  looks-LeavesReady c h =
      let (same, o) = call-OnlyPrints c io t d k h in
      moved _ _ (OnlyPrints-Keeps k _ v.system o) (subst (IsGiven k) (sym same) v.at)

  -- `load` and `halt` replace the RAM.
  pub call-LeavesReady : (c : Command) → c ≢ load → c ≢ halt → LeavesReady (call c io t d k)
  unfolding call looks_only
  call-LeavesReady echo nl nh = looks-LeavesReady echo refl
  call-LeavesReady ls nl nh = looks-LeavesReady ls refl
  call-LeavesReady memstat nl nh = looks-LeavesReady memstat refl
  call-LeavesReady ps nl nh = looks-LeavesReady ps refl
  call-LeavesReady clear nl nh = looks-LeavesReady clear refl
  call-LeavesReady help nl nh = looks-LeavesReady help refl
  call-LeavesReady cat nl nh = looks-LeavesReady cat refl
  call-LeavesReady pwd nl nh = looks-LeavesReady pwd refl
  call-LeavesReady exit nl nh = stay-LeavesReady _ (cmd_exit-Kept k v.system)
  call-LeavesReady save nl nh = stay-LeavesReady _ (cmd_save-Kept io k v.system)
  call-LeavesReady mkdir nl nh =
      let (i, h, e, dir) = v.at in stay-LeavesReady _ (rw e (cmd_mkdir-Kept k v.system i h t words))
  call-LeavesReady touch nl nh =
      let (i, h, e, dir) = v.at in stay-LeavesReady _ (rw e (cmd_touch-Kept k v.system i h t words))
  call-LeavesReady write nl nh =
      let (i, h, e, dir) = v.at in stay-LeavesReady _ (rw e (cmd_write-Kept k v.system i h t words))
  call-LeavesReady rm nl nh =
      let (i, h, e, dir) = v.at in stay-LeavesReady _ (rw e (cmd_rm-Kept k v.system i h t words))
  call-LeavesReady cd nl nh =
      let (i, h, e, dir) = v.at in
      let (o, to) = cmd_cd-GoesTo k v.system i h t words dir v.home in
      rw e (moved _ _ (OnlyPrints-Keeps k _ v.system o) to)
  call-LeavesReady load nl nh = absurd (nl refl)
  call-LeavesReady halt nl nh = absurd (nh refl)

  -- The comparisons end in the command that the first word names, or in the message.
  dispatch_loop-any :
      (P : Moved → Type 0) (table : List (String × Command))
      → P (dispatch_loop [] io t d k)
      → All (λ e. is_word t 0 (object (codes e.0)) ≡ true → P (call e.1 io t d k)) table
      → P (dispatch_loop table io t d k)
  unfolding dispatch_loop
  dispatch_loop-any P [] unknown each = unknown
  dispatch_loop-any P ((name, c) ∷ table) unknown each =
      if_cases P (is_word t 0 (object (codes name))) _ _ each.0
        (λ e. dispatch_loop-any P table unknown each.1)

  unknown-LeavesReady : LeavesReady (dispatch_loop [] io t d k)
  unfolding dispatch_loop
  unknown-LeavesReady =
      stay-LeavesReady _ (OnlyPrints-Keeps k _ v.system (print_all-OnlyPrints _ k))

  calls :
      (name : String) (c : Command)
      → c ≢ load
      → c ≢ halt
      → is_word t 0 (object (codes name)) ≡ true
      → LeavesReady (call c io t d k)
  calls name c nl nh e = call-LeavesReady c nl nh

  -- On a well-formed file system in which inode 3 and the current directory are directories,
  -- `command_dispatch` of a line of at most 16 words of at most 255 characters, whose first word is
  -- neither `load` nor `halt`, leaves a well-formed file system in which inode 3 and the new current
  -- directory are directories, whatever the command and its arguments are and whether it succeeds or
  -- fails, if the local arrays of `cmd_write`, `cmd_cat` and `cmd_pwd` have room for their texts.
  pub command_dispatch-LeavesReady :
      is_word t 0 (object (codes "load")) ≡ false
      → is_word t 0 (object (codes "halt")) ≡ false
      → CallFits t d k
      → LeavesReady (command_dispatch io t d k)
  unfolding command_dispatch
  command_dispatch-LeavesReady nl nh fits =
      let idle = λ (r : ℤ × Machine) (o : OnlyPrints k r.1).
        stay-LeavesReady r (OnlyPrints-Keeps k r.1 v.system o) in
      if_cases LeavesReady (t.count == 0) _ _ (λ e. idle (pos 0, k) (OnlyPrints-refl k))
        λ e.
          if_cases LeavesReady (my_strlen t.input (t.tokens 0) == 0) _ _
            (λ e. idle (pos 0, k) (OnlyPrints-refl k))
            λ e.
              if_cases LeavesReady (ltb 32 (my_strlen t.input (t.tokens 0))) _ _
                (λ e. stay-LeavesReady _ (OnlyPrints-Keeps k _ v.system (print_all-OnlyPrints _ k)))
                (λ e. dispatch_loop-any LeavesReady command_table unknown-LeavesReady table_ready)
    where
      table_ready :
          All
            (λ e. is_word t 0 (object (codes e.0)) ≡ true → LeavesReady (call e.1 io t d k))
            command_table
      table_ready = (
        calls "echo" echo (λ e. cc) (λ e. cc),
        (
          calls "ls" ls (λ e. cc) (λ e. cc),
          (
            calls "mkdir" mkdir (λ e. cc) (λ e. cc),
            (
              calls "touch" touch (λ e. cc) (λ e. cc),
              (
                calls "memstat" memstat (λ e. cc) (λ e. cc),
                (
                  calls "ps" ps (λ e. cc) (λ e. cc),
                  (
                    calls "clear" clear (λ e. cc) (λ e. cc),
                    (
                      calls "help" help (λ e. cc) (λ e. cc),
                      (
                        calls "exit" exit (λ e. cc) (λ e. cc),
                        (
                          calls "cat" cat (λ e. cc) (λ e. cc),
                          (
                            calls "write" write (λ e. cc) (λ e. cc),
                            (
                              calls "rm" rm (λ e. cc) (λ e. cc),
                              (
                                calls "cd" cd (λ e. cc) (λ e. cc),
                                (
                                  calls "pwd" pwd (λ e. cc) (λ e. cc),
                                  (
                                    calls "save" save (λ e. cc) (λ e. cc),
                                    (λ e. absurd (cc), (λ e. absurd (cc), tt)),
                                  ),
                                ),
                              ),
                            ),
                          ),
                        ),
                      ),
                    ),
                  ),
                ),
              ),
            ),
          ),
        ),
      )
