-- ===== src/Shell/Lines.antt =====
-- The lines at which the loop of core/shell.c goes on, and those at which it ends.
use mineos.Base.{
  ℕ, ◌+◌, ◌≤◌, ◌<◌, ◌≡◌, refl, ◌∙◌, sym, ap, arith, ℤ, minus_one, Bool, true, false, not, if_cases,
  ◌==◌, eqb_ℤ, Option, none, some, List, [], ◌∷◌, length, All, ne→==, inl, inr, Bool-cases, get_or,
  dec_eq, zero, suc, ◌-◌,
}
use mineos.Bytes.{Bytes}
use mineos.Machine.{Machine}
use mineos.Text.{Tokens, text_fuel, my_str_trim, is_blank}
use mineos.Text.Strings.{IsString, IsString-cong, my_strlen-length}
use mineos.Text.Chars.{end-IsString}
use mineos.Text.Trim.{my_str_trim-Trimmed}
use mineos.Text.Words.{AreShort, words-AreShort}
use mineos.Text.Tokenize.{word, words, AreTokens, my_tokenize-words}
use mineos.Commands.Files.{Moved}
use mineos.Commands.Image.{Stdio}
use mineos.Commands.Dispatch.{Command, command_table}
use mineos.Commands.Names.{lookup, Dispatched, command_dispatch-Dispatched}
use mineos.Commands.Results.{stops, call-stops}
use mineos.Shell.{Session, Round, finish_round, dispatch_tokens, run_line}

-- Whether a line ends the shell, by its first word.
unfoldable pub stops_name : Option Command → Bool
stops_name none = false
stops_name (some c) = stops c

unfoldable pub ends_shell : List (List ℕ) → Bool
ends_shell [] = false
ends_shell (w ∷ ws) = stops_name (lookup command_table w)

Dispatched-stops :
    (w : List ℕ) (io : Stdio) (t : Tokens) (d : ℤ) (k : Machine) (r : Moved)
    → Dispatched w io t d k r
    → eqb_ℤ r.0 minus_one ≡ stops_name (lookup command_table w)
unfolding stops_name
Dispatched-stops w io t d k r (inl (c, found, e)) =
    rw (found, e, call-stops c io t d k)
      (elim (Bool-cases (stops c)) [ inl e' ↦ rw e' refl | inr e' ↦ rw e' refl ])
Dispatched-stops w io t d k r (inr (found, e)) = rw (found, e) refl

-- The words are not empty.
words-some_text : (d : ℕ) (inside : Bool) (s : List ℕ) → All (λ w. 0 < length w) (words d inside s)
unfolding words word
words-some_text d inside [] = tt
words-some_text d inside (c ∷ s) = elim (Bool-cases (c == d)) [
  | inl e ↦ rw e (words-some_text d false s)
  | inr e ↦ elim (Bool-cases inside) [
    | inl f ↦ rw (e, f) (words-some_text d true s)
    | inr f ↦ rw (e, f) (omega arith, words-some_text d true s)
  ]
]

finish_round-goes_on : (s : Session) (r : Moved) → (finish_round s r).0 ≡ not (eqb_ℤ r.0 minus_one)
unfolding finish_round
finish_round-goes_on s (result, d, k) = refl

-- No blank stands at either end of the line.
pub record IsFlush (l : List ℕ) : Type 0 where
  pub first : is_blank (get_or l 0 1) ≡ false
  pub last : is_blank (get_or l (length l - 1) 1) ≡ false

IsString-get :
    (m : Bytes) (p : ℕ) (l : List ℕ) (j : ℕ)
    → IsString m p l
    → j < length l
    → m (p + j) ≡ get_or l j 1
IsString-get m p [] j held h = absurd (omega arith)
IsString-get m p (c ∷ l) zero held h = ap m (omega arith) ∙ held.0
IsString-get m p (c ∷ l) (suc j) held h =
    ap m (omega arith) ∙ IsString-get m (p + 1) l j held.2 (omega arith)

module _ (m : Bytes) (l : List ℕ) (fuel : length l < text_fuel) (held : IsString m 0 l)
    (flush : IsFlush l) where
  clash :
      (q j : ℕ) → q ≡ j → j < length l → is_blank (m q) ≡ true → is_blank (get_or l j 1) ≡ false → ⊥
  clash q j e h blank not_blank =
      let at : m q ≡ get_or l j 1 = ap m (omega arith) ∙ IsString-get m 0 l j held h in
      let both : true ≡ false = sym blank ∙ rw at not_blank in cc

  -- Nothing is cut off.
  trim-IsFlush : IsString (my_str_trim m) 0 l
  trim-IsFlush =
      let v = my_str_trim-Trimmed m l fuel held in
      let order = v.order in
      let upper = v.upper in
      let begins : v.start ≡ 0 = elim (dec_eq v.start 0) [
        | inl e ↦ e
        | inr ne ↦
            absurd
              (clash 0 0 refl (omega arith) (v.front 0 (omega arith) (omega arith)) flush.first)
      ] in
      let ends : v.stop ≡ length l = elim (dec_eq v.stop (length l)) [
        | inl e ↦ e
        | inr ne ↦ absurd (
            clash (length l - 1) (length l - 1) refl (omega arith)
              (v.back (length l - 1) (omega arith) (omega arith)) flush.last)
      ] in
      let terminator : m (length l) ≡ 0 = ap m (omega arith) ∙ end-IsString m 0 l held in
      IsString-cong m (my_str_trim m) 0 l
        (λ q a b. elim (dec_eq q (length l)) [
          | inl e ↦ ap (my_str_trim m) (omega arith) ∙ v.ends ∙ sym terminator ∙ ap m (sym e)
          | inr ne ↦ v.copied q (omega arith) ∙ ap m (omega arith)
        ])
        held

words_ending :
    (io : Stdio) (s : Session) (t : Tokens) (ws : List (List ℕ))
    → (t.count ≡ length ws)
    → AreTokens t.input t.tokens 0 ws
    → All (λ w. 0 < length w) ws
    → AreShort 255 ws
    → (dispatch_tokens io s t).0 ≡ not (ends_shell ws)
unfolding dispatch_tokens ends_shell
words_ending io s t [] count found some_text short = rw (count) refl
words_ending io s t (w ∷ ws) count found some_text short = rw (ne→== t.count 0 (omega arith)) (
    finish_round-goes_on _ _
    ∙ ap not (
        Dispatched-stops w io t s.current_dir s.machine _ (
          command_dispatch-Dispatched t w found.0 (omega (arith, short.0)) io s.current_dir
            s.machine (omega arith) some_text.0)))

no_words : (l : List ℕ) → (length l == 0) ≡ true → true ≡ not (ends_shell (words b' ' false l))
unfolding words ends_shell
no_words [] e = refl
no_words (c ∷ l) e = absurd (ground arith)

-- On a line of at most 255 characters without a blank at either end, a round ends the loop if the first
-- word is the name of a command that does, and else goes on.
pub run_line-ends :
    (io : Stdio) (s : Session) (l : List ℕ)
    → IsString s.input 0 l
    → length l ≤ 255
    → IsFlush l
    → (run_line io s).0 ≡ not (ends_shell (words b' ' false l))
unfolding run_line
run_line-ends io s l held short flush =
    let trimmed = trim-IsFlush s.input l (omega arith) held flush in
    let (count, found) =
      my_tokenize-words (my_str_trim s.input) s.tokens b' ' l (omega arith) trimmed in
    let len = my_strlen-length (my_str_trim s.input) 0 l (omega arith) trimmed in
    rw len (
      if_cases (λ (r : Round). r.0 ≡ not (ends_shell (words b' ' false l))) (length l == 0) _ _
        (λ e. no_words l e)
        (λ e.
          words_ending io s _ (words b' ' false l) count found (words-some_text b' ' false l)
            (words-AreShort b' ' 255 false l short)))
