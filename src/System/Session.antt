-- ===== src/System/Session.antt =====
-- The rounds of the loop of core/shell.c as a step relation, and the invariant.
use mineos.Base.{
  ℕ, ◌+◌, ◌≤◌, ◌<◌, ◌≡◌, refl, sym, subst, List, arith, length, false, ◌==◌, if_cases, ℤ, pos, some,
  codes,
}
use mineos.Bytes.{Bytes, object}
use mineos.Machine.{Machine}
use mineos.Text.{Tokens, my_strlen, my_str_trim, my_tokenize}
use mineos.Text.Strings.{IsString}
use mineos.Text.Trim.{my_str_trim-IsString}
use mineos.Text.Tokenize.{words, my_tokenize-words}
use mineos.Text.Words.{words-AreShort, AreTokens-at}
use mineos.Screen.OnlyPrints.{OnlyPrints, OnlyPrints-trans}
use mineos.Keyboard.{Line, read_line}
use mineos.Keyboard.Reads.{read_line-Reads}
use mineos.Scheduler.{scheduler_tick}
use mineos.Commands.Files.{Moved, is_word}
use mineos.Commands.Prints.{print_all-OnlyPrints}
use mineos.Commands.Image.{Stdio}
use mineos.Commands.Fits.{CallFits}
use mineos.Shell.{Session, prompt, Round, finish_round, dispatch_tokens, run_line, after_read}
use mineos.System.Create.{OnlyPrints-Keeps}
use mineos.System.Words.{AreWords}
use mineos.System.Dispatch.{
  IsReady, scheduler_tick-Keeps, Keeps-IsGiven, LeavesReady, command_dispatch-LeavesReady,
}

abbrev pub IsReadySession : Session → Type 0
IsReadySession s = IsReady s.current_dir s.machine

OnlyPrints-IsReady : (d : ℤ) (k k' : Machine) → OnlyPrints k k' → IsReady d k → IsReady d k'
OnlyPrints-IsReady d k k' o v =
    let keeps = OnlyPrints-Keeps k k' v.system o in
    record {
      system = keeps.0;
      home = Keeps-IsGiven k k' (pos 3) keeps v.home;
      at = Keeps-IsGiven k k' d keeps v.at;
    }

tick-IsReady : (d : ℤ) (k : Machine) → IsReady d k → IsReady d (scheduler_tick k)
tick-IsReady d k v =
    let keeps = scheduler_tick-Keeps k v.system in
    record {
      system = keeps.0;
      home = Keeps-IsGiven k _ (pos 3) keeps v.home;
      at = Keeps-IsGiven k _ d keeps v.at;
    }

-- The tokens of a line are words.
my_tokenize-AreWords :
    (input : Bytes) (tokens : ℕ → ℕ) (s : List ℕ)
    → IsString input 0 s
    → length s ≤ 255
    → (my_tokenize input tokens b' ').count ≤ 16
    → AreWords (my_tokenize input tokens b' ')
my_tokenize-AreWords input tokens s held short fit =
    let t : Tokens = my_tokenize input tokens b' ' in
    let (count, found) = my_tokenize-words input tokens b' ' s (omega arith) held in
    let small = words-AreShort b' ' 255 false s short in
    record {
      few = omega arith;
      word = λ j h.
          let (w, at, l) =
            AreTokens-at t.input t.tokens 255 0 (words b' ' false s) j found small (omega arith) in
          let e : 0 + j ≡ j = omega arith in
          (w, subst (λ i. IsString t.input (t.tokens i) w) e at, omega arith);
    }

finish_round-IsReady :
    (s : Session) (r : Moved) → LeavesReady r → IsReadySession (finish_round s r).1
unfolding finish_round
finish_round-IsReady s (result, d, k) v = tick-IsReady d k v

-- The tokens of the line of a session.
abbrev pub tokens_of : Session → Tokens
tokens_of s = my_tokenize (my_str_trim s.input) s.tokens b' '

-- The line's first word, if it has one, is neither `load`, which replaces the RAM, nor `halt`, which
-- wipes it; and `tokens[16]` and `path[256]` of the shell, and the arrays of the command, have room
-- for what is put there.
pub record IsPlain (s : Session) : Type 0 where
  pub few : (tokens_of s).count ≤ 16
  pub path_fits : my_strlen s.path 0 < 256
  pub call_fits :
      ((tokens_of s).count == 0) ≡ false → CallFits (tokens_of s) s.current_dir s.machine
  pub not_load :
      ((tokens_of s).count == 0) ≡ false → is_word (tokens_of s) 0 (object (codes "load")) ≡ false
  pub not_halt :
      ((tokens_of s).count == 0) ≡ false → is_word (tokens_of s) 0 (object (codes "halt")) ≡ false

dispatch_tokens-IsReady :
    (io : Stdio) (s : Session) (t : Tokens)
    → AreWords t
    → ((t.count == 0) ≡ false → is_word t 0 (object (codes "load")) ≡ false)
    → ((t.count == 0) ≡ false → is_word t 0 (object (codes "halt")) ≡ false)
    → ((t.count == 0) ≡ false → CallFits t s.current_dir s.machine)
    → IsReadySession s
    → IsReadySession (dispatch_tokens io s t).1
unfolding dispatch_tokens
dispatch_tokens-IsReady io s t words nl nh fits v =
    if_cases (λ (r : Round). IsReadySession r.1) (t.count == 0) _ _
      (λ e. record { system = v.system; home = v.home; at = v.at })
      (λ e.
        finish_round-IsReady _ _ (
          command_dispatch-LeavesReady io t words s.current_dir s.machine v (nl e) (nh e) (fits e)))

run_line-IsReady :
    (io : Stdio) (s : Session) (l : List ℕ)
    → IsString s.input 0 l
    → length l ≤ 255
    → IsPlain s
    → IsReadySession s
    → IsReadySession (run_line io s).1
unfolding run_line
run_line-IsReady io s l held short keeps v =
    let (t, trimmed, le) = my_str_trim-IsString s.input l (omega arith) held in
    if_cases (λ (r : Round). IsReadySession r.1) (my_strlen (my_str_trim s.input) 0 == 0) _ _
      (λ e. record { system = v.system; home = v.home; at = v.at })
      (λ e.
        dispatch_tokens-IsReady io s (tokens_of s)
          (my_tokenize-AreWords (my_str_trim s.input) s.tokens t trimmed (omega arith) keeps.few)
          keeps.not_load keeps.not_halt keeps.call_fits v)

-- The session in which a line has been read.
abbrev pub with_line : Session → Line → Session
with_line s r = record (prompt s) { input = r.0; machine = r.1 }

-- One round behind the other. The keys of each round are any that contain an Enter.
pub data Reaches (io : Stdio) (s0 : Session) : Session → Type 0 where
  here : Reaches io s0 s0
  round :
      (s : Session) (keys : List ℕ) (r : Line)
      → Reaches io s0 s
      → read_line keys (pos 256) s.input (prompt s).machine ≡ some r
      → IsPlain (with_line s r)
      → Reaches io s0 (after_read io (prompt s) r).0.1

prompt-OnlyPrints : (s : Session) → OnlyPrints s.machine (prompt s).machine
unfolding prompt
prompt-OnlyPrints s = print_all-OnlyPrints _ s.machine

dir-prompt : (s : Session) → (prompt s).current_dir ≡ s.current_dir
unfolding prompt
dir-prompt s = refl

after_read-IsReady :
    (io : Stdio) (s : Session) (keys : List ℕ) (r : Line)
    → read_line keys (pos 256) s.input (prompt s).machine ≡ some r
    → IsPlain (with_line s r)
    → IsReadySession s
    → IsReadySession (after_read io (prompt s) r).0.1
unfolding after_read
after_read-IsReady io s keys r e keeps v =
    let ((l, held, short), (o, less)) =
      read_line-Reads keys 255 s.input (prompt s).machine r (omega arith) e in
    let ready =
      OnlyPrints-IsReady s.current_dir s.machine r.1
        (OnlyPrints-trans s.machine (prompt s).machine r.1 (prompt-OnlyPrints s) o) v in
    run_line-IsReady io (with_line s r) l held short keeps
      (subst (λ d. IsReady d r.1) (sym (dir-prompt s)) ready)

-- From a session on a well-formed file system in which inode 3 and the current directory are
-- directories, every session that rounds of the shell reach is one, whatever keys are pressed, as
-- long as no line begins with the word `load` or `halt`, no line has more than 16 words, and the paths
-- and the texts of `write` and `cat` have room in the arrays of the code.
pub Reaches-IsReady :
    (io : Stdio) (s0 s : Session) → IsReadySession s0 → Reaches io s0 s → IsReadySession s
Reaches-IsReady io s0 s v here = v
Reaches-IsReady io s0 s v (round s1 keys r before e keeps) =
    after_read-IsReady io s1 keys r e keeps (Reaches-IsReady io s0 s1 v before)
