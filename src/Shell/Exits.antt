-- ===== src/Shell/Exits.antt =====
-- Which of the lines that are typed ends the loop of core/shell.c.
use mineos.Base.{
  ℕ, zero, suc, ◌+◌, ◌≤◌, ◌<◌, codes, ◌≡◌, refl, ◌∙◌, arith, Bool, true, false, not, if◌then◌else◌,
  Bool-cases, none, some, Option, List, [], ◌∷◌, ◌++◌, length, length-append, All, inl, inr,
}
use mineos.Machine.{Machine}
use mineos.Text.Tokenize.{words}
use mineos.Keyboard.{Line, read_line, read_loop, is_enter}
use mineos.Text.Backwards.{onto, length-onto}
use mineos.Keyboard.Line.{press_all, read_line-press_all}
use mineos.Commands.Image.{Stdio}
use mineos.Commands.Names.{same_text}
use mineos.Text.Strings.{IsString}
use mineos.Shell.{
  Session, Round, prompt, run_line, after_read, first_session, Outcome, exited, waiting, continue,
  on_line, shell_loop, shell_run, boot,
}
use mineos.Shell.Lines.{ends_shell, IsFlush, run_line-ends}

-- Some keys, and the Enter behind them.
pub record TypedLine : Type 0 where
  pub keys : List ℕ
  pub enter : ℕ

-- The text that the keys leave in the line.
abbrev pub text_of : TypedLine → List ℕ
text_of l = onto (press_all 255 l.keys []) []

abbrev pub ends : TypedLine → Bool
ends l = ends_shell (words b' ' false (text_of l))

-- The first word is neither `load`, which can bring in a RAM of any shape, nor `mkdir`, which can
-- make a path longer than the array `path`.
pub data IsTame : List (List ℕ) → Type 0 where
  no_words : IsTame []
  first_word :
      (w : List ℕ) (ws : List (List ℕ))
      → same_text w (codes "load") ≡ false
      → same_text w (codes "mkdir") ≡ false
      → IsTame (w ∷ ws)

-- The line is one that the arrays of the shell have room for, without a blank at either end.
pub record IsTyped (l : TypedLine) : Type 0 where
  pub none_enters : All (λ c. is_enter c ≡ false) l.keys
  pub enters : is_enter l.enter ≡ true
  pub flush : IsFlush (text_of l)
  pub few : length (words b' ' false (text_of l)) ≤ 16
  pub tame : IsTame (words b' ' false (text_of l))

-- All the keys of some lines.
abbrev pub typed_keys : List TypedLine → List ℕ
typed_keys [] = []
typed_keys (l ∷ ls) = l.keys ++ l.enter ∷ typed_keys ls

-- The lines behind the first that ends the shell.
unfoldable pub left_over : List TypedLine → Option (List TypedLine)
left_over [] = none
left_over (l ∷ ls) = let rest = left_over ls in if ends l then some ls else rest

-- The shell has left its loop at the first such line, with the keys behind it left, or there is none
-- and it waits.
abbrev pub Exits : Option (List TypedLine) → Outcome → Type 0
Exits none o = (s : Session) × (o ≡ waiting s)
Exits (some ls) o = (s : Session) × (o ≡ exited s (typed_keys ls))

continue-not :
    (b : Bool) (r : Round) (keys : List ℕ) (loop : Session → List ℕ → Outcome)
    → r.0 ≡ not b
    → continue (r, keys) loop ≡ (if b then exited r.1 keys else loop r.1 keys)
unfolding continue
continue-not true (true, s) keys loop e = absurd (cc)
continue-not true (false, s) keys loop e = refl
continue-not false (true, s) keys loop e = refl
continue-not false (false, s) keys loop e = absurd (cc)

after_read-round :
    (io : Stdio) (s : Session) (r : Line)
    → after_read io s r ≡ (run_line io (record s { input = r.0; machine = r.1 }), r.2)
unfolding after_read
after_read-round io s (input, k, keys) = refl

shell_loop-line :
    (n : ℕ) (io : Stdio) (s : Session) (l : TypedLine) (rest : List ℕ)
    → IsTyped l
    → (s' : Session) × (shell_loop (suc n) io s (l.keys ++ l.enter ∷ rest)
        ≡ (if ends l then exited s' rest else shell_loop n io s' rest))
unfolding shell_loop on_line
shell_loop-line n io s l rest v =
    let (r, e, read) =
      read_line-press_all l.keys 255 l.enter rest s.input (prompt s).machine (omega arith)
        v.none_enters v.enters in
    let s1 : Session = record (prompt s) { input = r.0; machine = r.1 } in
    let short = read.short in
    let goes_on =
      run_line-ends io s1 (text_of l) read.content
        (omega (arith, length-onto (press_all 255 l.keys []) [])) v.flush in
    (
      (run_line io s1).1,
      rw (e, after_read-round io (prompt s) r, read.left)
          (continue-not (ends l) (run_line io s1) rest (shell_loop n io) goes_on),
    )

shell_loop-nothing :
    (n : ℕ) (io : Stdio) (s : Session) → shell_loop (suc n) io s [] ≡ waiting (prompt s)
unfolding shell_loop on_line read_line read_loop
shell_loop-nothing n io s = refl

shell_loop-Exits :
    (ls : List TypedLine) (n : ℕ) (io : Stdio) (s : Session)
    → All IsTyped ls
    → length (typed_keys ls) < n
    → Exits (left_over ls) (shell_loop n io s (typed_keys ls))
unfolding left_over
shell_loop-Exits ls zero io s v h = absurd (omega arith)
shell_loop-Exits [] (suc n) io s v h = (prompt s, shell_loop-nothing n io s)
shell_loop-Exits (l ∷ ls) (suc n) io s v h =
    let (s', e) = shell_loop-line n io s l (typed_keys ls) v.0 in
    elim (Bool-cases (ends l)) [
      | inl f ↦ rw f (s', e ∙ rw f refl)
      | inr f ↦
          let next : shell_loop (suc n) io s (typed_keys (l ∷ ls))
              ≡ shell_loop n io s' (typed_keys ls) =
            e ∙ rw f refl in
          rw (f, next)
            (shell_loop-Exits ls n io s' v.1
              (omega (arith, length-append l.keys (l.enter ∷ typed_keys ls))))
    ]

-- When lines of at most 16 words without a blank at either end, none of which begins with the word
-- `load` or `mkdir`, are typed into `shell_run` on the system that `boot` leaves, with a user name of
-- at most 31 characters, it leaves its loop at the first one whose first word is `exit` or `halt`, with the keys behind
-- that line left, and if there is no such line it comes to wait for more keys.
pub shell_run-Exits :
    (io : Stdio) (k : Machine) (user : List ℕ) (ls : List TypedLine)
    → IsString k.current_user 0 user
    → length user < 32
    → All IsTyped ls
    → Exits (left_over ls) (shell_run io (boot k) (typed_keys ls))
unfolding shell_run
shell_run-Exits io k user ls held short v =
    shell_loop-Exits ls (length (typed_keys ls) + 1) io (first_session (boot k)) v (omega arith)
