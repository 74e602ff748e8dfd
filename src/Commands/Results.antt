-- ===== src/Commands/Results.antt =====
-- The results of core/commands.c, which say whether core/shell.c goes on.
use mineos.Base.{
  ℕ, ◌≡◌, refl, ℤ, pos, minus_one, Bool, true, false, if◌then◌else◌, if_cases, ltb, not, Option,
  none, some, codes,
}
use mineos.Bytes.{object}
use mineos.Machine.{Machine, Out}
use mineos.Text.{Tokens}
use mineos.Fs.{fs_find_child, is_dir}
use mineos.Fs.Files.{is_file}
use mineos.Commands.{cmd_echo, cmd_memstat, cmd_ps, cmd_clear, cmd_exit, cmd_halt}
use mineos.Commands.Help.{cmd_help}
use mineos.Commands.Files.{
  usage, report, complain, file_missing, missing, no_file, report_write, write_to, cmd_write,
  show_content, cat_of, cmd_cat, report_rm, rm_of, cmd_rm, cmd_ls, cmd_mkdir, cmd_touch, Moved,
  stay, cd_to, is_word, cmd_cd, cmd_pwd,
}
use mineos.Commands.Image.{Stdio, cmd_save, cmd_load}
use mineos.Commands.Dispatch.{
  Command, echo, ls, mkdir, touch, memstat, ps, clear, help, exit, cat, write, rm, cd, pwd, save,
  load, halt, call,
}

-- The commands behind which the shell stops.
unfoldable pub stops : Command → Bool
stops exit = true
stops halt = true
stops echo = false
stops ls = false
stops mkdir = false
stops touch = false
stops memstat = false
stops ps = false
stops clear = false
stops help = false
stops cat = false
stops write = false
stops rm = false
stops cd = false
stops pwd = false
stops save = false
stops load = false

abbrev IsZero : ℤ × Machine → Type 0
IsZero r = r.0 ≡ pos 0

report-IsZero : (done : Out) (t : Tokens) (r : ℤ × Machine) → IsZero (report done t r)
unfolding report
report-IsZero done t (result, k) = refl

cmd_echo-IsZero : (t : Tokens) (k : Machine) → IsZero (cmd_echo t k)
unfolding cmd_echo
cmd_echo-IsZero t k = if_cases IsZero (ltb t.count 2) _ _ (λ e. refl) (λ e. refl)

cmd_mkdir-IsZero : (t : Tokens) (d : ℤ) (k : Machine) → IsZero (cmd_mkdir t d k)
unfolding cmd_mkdir usage
cmd_mkdir-IsZero t d k = if_cases IsZero (ltb t.count 2) _ _ (λ e. refl) (λ e. report-IsZero _ t _)

cmd_touch-IsZero : (t : Tokens) (d : ℤ) (k : Machine) → IsZero (cmd_touch t d k)
unfolding cmd_touch usage
cmd_touch-IsZero t d k = if_cases IsZero (ltb t.count 2) _ _ (λ e. refl) (λ e. report-IsZero _ t _)

cmd_write-IsZero : (t : Tokens) (d : ℤ) (k : Machine) → IsZero (cmd_write t d k)
unfolding cmd_write usage write_to file_missing no_file complain report_write
cmd_write-IsZero t d k =
    if_cases IsZero (ltb t.count 3) _ _ (λ e. refl)
      (λ e. found (fs_find_child d t.input (t.tokens 1) k))
  where
    found : (o : Option ℕ) → IsZero (write_to o t k)
    found none = refl
    found (some p) = if_cases IsZero (not (is_file k.ram p)) _ _ (λ e. refl) (λ e. refl)

cmd_cat-IsZero : (t : Tokens) (d : ℤ) (k : Machine) → IsZero (cmd_cat t d k)
unfolding cmd_cat usage cat_of file_missing no_file complain show_content
cmd_cat-IsZero t d k =
    if_cases IsZero (ltb t.count 2) _ _ (λ e. refl)
      (λ e. found (fs_find_child d t.input (t.tokens 1) k))
  where
    found : (o : Option ℕ) → IsZero (cat_of o t k)
    found none = refl
    found (some p) = if_cases IsZero (not (is_file k.ram p)) _ _ (λ e. refl) (λ e. refl)

cmd_rm-IsZero : (t : Tokens) (d : ℤ) (k : Machine) → IsZero (cmd_rm t d k)
unfolding cmd_rm usage rm_of missing complain report_rm
cmd_rm-IsZero t d k =
    if_cases IsZero (ltb t.count 2) _ _ (λ e. refl)
      (λ e. found (fs_find_child d t.input (t.tokens 1) k))
  where
    found : (o : Option ℕ) → IsZero (rm_of o t k)
    found none = refl
    found (some p) = refl

abbrev IsZeroMoved : Moved → Type 0
IsZeroMoved r = r.0 ≡ pos 0

cmd_cd-IsZero : (t : Tokens) (d : ℤ) (k : Machine) → IsZeroMoved (cmd_cd t d k)
unfolding cmd_cd cd_to missing complain stay
cmd_cd-IsZero t d k =
    if_cases IsZeroMoved (ltb t.count 2) _ _ (λ e. refl)
      λ e.
        if_cases IsZeroMoved (is_word t 1 (object (codes ".."))) _ _ (λ e. refl)
          λ e.
            if_cases IsZeroMoved (is_word t 1 (object (codes "/"))) _ _ (λ e. refl)
              (λ e. found (fs_find_child d t.input (t.tokens 1) k))
  where
    found : (o : Option ℕ) → IsZeroMoved (cd_to o t d k)
    found none = refl
    found (some p) = if_cases IsZeroMoved (not (is_dir k.ram p)) _ _ (λ e. refl) (λ e. refl)

cmd_save-IsZero : (io : Stdio) (k : Machine) → IsZero (cmd_save io k)
unfolding cmd_save
cmd_save-IsZero io k = if_cases IsZero (io.creates k) _ _ (λ e. refl) (λ e. refl)

-- `exit` and `halt` return -1, which ends the loop of the shell, and every other command returns 0,
-- whatever its arguments and the state are and whether it succeeds or fails.
pub call-stops :
    (c : Command) (io : Stdio) (t : Tokens) (d : ℤ) (k : Machine)
    → (call c io t d k).0 ≡ (if stops c then minus_one else pos 0)
unfolding call stops cmd_ls cmd_memstat cmd_ps cmd_clear cmd_help cmd_exit cmd_pwd cmd_load cmd_halt
    stay
call-stops echo io t d k = cmd_echo-IsZero t k
call-stops ls io t d k = refl
call-stops mkdir io t d k = cmd_mkdir-IsZero t d k
call-stops touch io t d k = cmd_touch-IsZero t d k
call-stops memstat io t d k = refl
call-stops ps io t d k = refl
call-stops clear io t d k = refl
call-stops help io t d k = refl
call-stops exit io t d k = refl
call-stops cat io t d k = cmd_cat-IsZero t d k
call-stops write io t d k = cmd_write-IsZero t d k
call-stops rm io t d k = cmd_rm-IsZero t d k
call-stops cd io t d k = cmd_cd-IsZero t d k
call-stops pwd io t d k = refl
call-stops save io t d k = cmd_save-IsZero io k
call-stops load io t d k = refl
call-stops halt io t d k = refl
