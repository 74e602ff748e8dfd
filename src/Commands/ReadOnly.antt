-- ===== src/Commands/ReadOnly.antt =====
-- The commands of core/commands.c that look and do not touch.
use mineos.Base.{
  ℕ, zero, suc, ◌+◌, ◌≡◌, refl, ltb, eqb_ℤ, ltb_ℤ, minus_one, not, ℤ, pos, Bool, true, false,
  if_cases, Option, none, some, Option-cases, inl, inr,
}
use mineos.Machine.{Machine, Out, text}
use mineos.Text.{Tokens, unset}
use mineos.Screen.OnlyPrints.{
  OnlyPrints-refl, OnlyPrints, OnlyPrints-trans, emit-OnlyPrints, str-OnlyPrints,
}
use mineos.Screen.{screen_clear}
use mineos.Fs.Files.{fs_read, read_in, read_at, read_error, is_active, Read, is_file}
use mineos.Fs.Layout.{id_at, data_offset_at}
use mineos.Memory.Layout.{ram_size, data_region_offset}
use mineos.Math.{my_sub, in_bounds}
use mineos.Fs.Refused.{fail-OnlyPrints}
use mineos.Bytes.{Bytes, read_int}
use mineos.Fs.{fs_find_child, fs_get_inode}
use mineos.Commands.{echo_loop, cmd_echo, cmd_memstat, cmd_ps, cmd_clear}
use mineos.Commands.Help.{cmd_help}
use mineos.Commands.Files.{
  usage, complain, file_missing, missing, no_file, show_content, cat_of, cmd_cat, cmd_ls, cmd_pwd,
  stay,
}
use mineos.Commands.Image.{Stdio}
use mineos.Commands.Dispatch.{
  Command, echo, ls, mkdir, touch, memstat, ps, clear, help, exit, cat, write, rm, cd, pwd, save,
  load, halt, call,
}
use mineos.Commands.Prints.{
  print_all-OnlyPrints, if-OnlyPrints, scheduler_list-OnlyPrints, fs_list-OnlyPrints,
}

echo_loop-OnlyPrints : (n i : ℕ) (t : Tokens) (k : Machine) → OnlyPrints k (echo_loop n i t k)
unfolding echo_loop
echo_loop-OnlyPrints zero i t k = OnlyPrints-refl k
echo_loop-OnlyPrints (suc n) i t k =
    OnlyPrints-trans k _ _
      (if-OnlyPrints k _ _ _ (OnlyPrints-trans k _ _ (str-OnlyPrints _ k) (str-OnlyPrints _ _))
        (str-OnlyPrints _ k))
      (echo_loop-OnlyPrints n (i + 1) t _)

-- A choice between two results.
abbrev pub Quiet : Machine → ℤ × Machine → Type 0
Quiet k r = OnlyPrints k r.1

cmd_echo-Quiet : (t : Tokens) (k : Machine) → Quiet k (cmd_echo t k)
unfolding cmd_echo
cmd_echo-Quiet t k =
    if_cases (Quiet k) (ltb t.count 2) _ _ (λ e. str-OnlyPrints (text "\n") k)
      (λ e.
        OnlyPrints-trans k _ _ (str-OnlyPrints _ k)
          (OnlyPrints-trans _ _ _ (echo_loop-OnlyPrints _ 1 t _) (str-OnlyPrints _ _)))

pub usage-Quiet : (o : Out) (k : Machine) → Quiet k (usage o k)
unfolding usage
usage-Quiet o k = print_all-OnlyPrints _ k

pub complain-Quiet : (a : Out) (t : Tokens) (b : Out) (k : Machine) → Quiet k (complain a t b k)
unfolding complain
complain-Quiet a t b k = print_all-OnlyPrints _ k

pub file_missing-Quiet : (t : Tokens) (k : Machine) → Quiet k (file_missing t k)
unfolding file_missing
file_missing-Quiet t k = complain-Quiet _ t _ k

pub missing-Quiet : (t : Tokens) (k : Machine) → Quiet k (missing t k)
unfolding missing
missing-Quiet t k = complain-Quiet _ t _ k

pub no_file-Quiet : (t : Tokens) (k : Machine) → Quiet k (no_file t k)
unfolding no_file
no_file-Quiet t k = complain-Quiet _ t _ k

-- `fs_read` only prints.
abbrev QuietRead : Machine → Read → Type 0
QuietRead k r = OnlyPrints k r.2

read_error-QuietRead :
    (k : Machine) (buf : Bytes) (r : ℤ × Machine) → Quiet k r → QuietRead k (read_error buf r)
unfolding read_error
read_error-QuietRead k buf r o = o

read_at-QuietRead : (p : ℕ) (buf : Bytes) (k : Machine) → QuietRead k (read_at p buf k)
unfolding read_at
read_at-QuietRead p buf k =
    let offset = read_int k.ram (data_offset_at p) in
    let quiet = OnlyPrints-refl k in
    if_cases (QuietRead k) (not (is_active k.ram p)) _ _
      (λ e. read_error-QuietRead k buf _ (fail-OnlyPrints _ k))
      λ e.
        if_cases (QuietRead k) (not (is_file k.ram p)) _ _
          (λ e. read_error-QuietRead k buf _ (fail-OnlyPrints _ k))
          λ e.
            if_cases (QuietRead k) (eqb_ℤ offset minus_one) _ _ (λ e. quiet)
              λ e.
                if_cases (QuietRead k)
                  (not (in_bounds offset (pos data_region_offset) (my_sub (pos ram_size) (pos 1))))
                  _ _ (λ e. read_error-QuietRead k buf _ (fail-OnlyPrints _ k)) (λ e. quiet)

fs_read-QuietRead : (id : ℤ) (buf : Bytes) (k : Machine) → QuietRead k (fs_read id buf k)
unfolding fs_read read_in
fs_read-QuietRead id buf k = elim (Option-cases (fs_get_inode id)) [
  | inl e ↦ rw e (read_error-QuietRead k buf _ (fail-OnlyPrints _ k))
  | inr (p, e) ↦ rw e (read_at-QuietRead p buf k)
]

show_content-Quiet : (k : Machine) (r : Read) → QuietRead k r → Quiet k (show_content r)
unfolding show_content
show_content-Quiet k (result, buf, k') o =
    if-OnlyPrints k (eqb_ℤ result (pos 0)) _ _
      (OnlyPrints-trans k k' _ o (print_all-OnlyPrints _ k'))
      (if-OnlyPrints k (ltb_ℤ (pos 0) result) _ _
        (OnlyPrints-trans k k' _ o (print_all-OnlyPrints _ k')) o)

cat_of-Quiet : (o : Option ℕ) (t : Tokens) (k : Machine) → Quiet k (cat_of o t k)
unfolding cat_of
cat_of-Quiet none t k = file_missing-Quiet t k
cat_of-Quiet (some file) t k =
    if_cases (Quiet k) (not (is_file k.ram file)) _ _ (λ e. no_file-Quiet t k)
      (λ e. show_content-Quiet k _ (fs_read-QuietRead (read_int k.ram (id_at file)) unset k))

cmd_cat-Quiet : (t : Tokens) (d : ℤ) (k : Machine) → Quiet k (cmd_cat t d k)
unfolding cmd_cat
cmd_cat-Quiet t d k =
    if_cases (Quiet k) (ltb t.count 2) _ _ (λ e. usage-Quiet (text "  Usage: cat <filename>\n") k)
      (λ e. cat_of-Quiet (fs_find_child d t.input (t.tokens 1) k) t k)

-- The commands that only look.
unfoldable pub looks_only : Command → Bool
looks_only echo = true
looks_only ls = true
looks_only memstat = true
looks_only ps = true
looks_only clear = true
looks_only help = true
looks_only cat = true
looks_only pwd = true
looks_only mkdir = false
looks_only touch = false
looks_only exit = false
looks_only write = false
looks_only rm = false
looks_only cd = false
looks_only save = false
looks_only load = false
looks_only halt = false

stay-result :
    (d : ℤ) (k : Machine) (r : ℤ × Machine)
    → Quiet k r
    → ((stay d r).1 ≡ d) × OnlyPrints k (stay d r).2
unfolding stay
stay-result d k r o = (refl, o)

-- `echo`, `ls`, `memstat`, `ps`, `clear`, `help`, `cat` and `pwd`, over arrays without an end, change
-- neither the current directory nor the machine: they only print.
pub call-OnlyPrints :
    (c : Command) (io : Stdio) (t : Tokens) (d : ℤ) (k : Machine)
    → looks_only c ≡ true
    → ((call c io t d k).1 ≡ d) × OnlyPrints k (call c io t d k).2
unfolding call looks_only cmd_ls cmd_memstat cmd_ps cmd_clear cmd_help cmd_pwd screen_clear
call-OnlyPrints echo io t d k h = stay-result d k _ (cmd_echo-Quiet t k)
call-OnlyPrints ls io t d k h = stay-result d k _ (fs_list-OnlyPrints d k)
call-OnlyPrints memstat io t d k h = stay-result d k _ (print_all-OnlyPrints _ k)
call-OnlyPrints ps io t d k h = stay-result d k _ (scheduler_list-OnlyPrints k)
call-OnlyPrints clear io t d k h = stay-result d k _ (emit-OnlyPrints _ k)
call-OnlyPrints help io t d k h = stay-result d k _ (print_all-OnlyPrints _ k)
call-OnlyPrints cat io t d k h = stay-result d k _ (cmd_cat-Quiet t d k)
call-OnlyPrints pwd io t d k h = stay-result d k _ (print_all-OnlyPrints _ k)
call-OnlyPrints mkdir io t d k h = absurd (cc)
call-OnlyPrints touch io t d k h = absurd (cc)
call-OnlyPrints exit io t d k h = absurd (cc)
call-OnlyPrints write io t d k h = absurd (cc)
call-OnlyPrints rm io t d k h = absurd (cc)
call-OnlyPrints cd io t d k h = absurd (cc)
call-OnlyPrints save io t d k h = absurd (cc)
call-OnlyPrints load io t d k h = absurd (cc)
call-OnlyPrints halt io t d k h = absurd (cc)
