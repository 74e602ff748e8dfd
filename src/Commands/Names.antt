-- ===== src/Commands/Names.antt =====
-- `command_dispatch` (core/commands.c) and the text of a line's first word.
use mineos.Base.{
  ℕ, ◌+◌, ◌≤◌, ◌<◌, ◌≡◌, refl, ap, sym, subst, ◌∙◌, ◌⊎◌, inl, inr, arith, ℤ, pos, Bool, true, false,
  Bool-cases, ◌==◌, ◌&&◌, if◌then◌else◌, eqb_ℤ, eqb_ℤ_iff, ltb, Option, none, some, List, [], ◌∷◌,
  length, All, String, codes, ne→==,
}
use mineos.Bytes.{Bytes, object}
use mineos.Machine.{Machine, Out, text}
use mineos.Screen.{print_all, red}
use mineos.Commands.{token}
use mineos.Text.{Tokens, my_strcmp, text_fuel}
use mineos.Text.Strings.{IsChar, IsString, my_strlen-length}
use mineos.Text.Compare.{my_strcmp_iff}
use mineos.Commands.Files.{Moved, is_word, stay}
use mineos.Commands.Image.{Stdio}
use mineos.Commands.Dispatch.{Command, command_table, call, dispatch_loop, command_dispatch}

-- Equality of texts.
unfoldable pub same_text : List ℕ → List ℕ → Bool
same_text [] [] = true
same_text [] (d ∷ t) = false
same_text (c ∷ s) [] = false
same_text (c ∷ s) (d ∷ t) = c == d && same_text s t

pub same_text-eq : (s t : List ℕ) → same_text s t ≡ true → s ≡ t
unfolding same_text
same_text-eq [] [] e = refl
same_text-eq [] (d ∷ t) e = absurd (cc)
same_text-eq (c ∷ s) [] e = absurd (cc)
same_text-eq (c ∷ s) (d ∷ t) e = ground (arith, same_text-eq s t)

pub same_text_refl : (s : List ℕ) → same_text s s ≡ true
unfolding same_text
same_text_refl [] = refl
same_text_refl (c ∷ s) = ground (arith, same_text_refl s)

-- The command of a name.
unfoldable pub lookup : List (String × Command) → List ℕ → Option Command
lookup [] w = none
lookup ((name, c) ∷ table) w =
    let rest = lookup table w in if same_text w (codes name) then some c else rest

object-at :
    (m : Bytes) (p : ℕ) (s : List ℕ)
    → All IsChar s
    → ((q : ℕ) → m (p + q) ≡ object s q)
    → IsString m p s
unfolding object
object-at m p [] h same = ap m (omega arith) ∙ same 0
object-at m p (c ∷ s) h same = (
  ap m (omega arith) ∙ same 0,
  h.0,
  object-at m (p + 1) s h.1 (λ q. ap m (omega arith) ∙ same (q + 1) ∙ ground arith),
)

object-IsString : (s : List ℕ) → All IsChar s → IsString (object s) 0 s
object-IsString s h = object-at (object s) 0 s h (λ q. ap (object s) (omega arith))

module _ (t : Tokens) (i : ℕ) (w : List ℕ) (held : IsString t.input (t.tokens i) w)
    (fuel : length w < text_fuel) where
  pub is_word-same_text : (s : List ℕ) → All IsChar s → is_word t i (object s) ≡ same_text w s
  unfolding is_word
  is_word-same_text s chars =
      let (there, back) =
        my_strcmp_iff t.input (t.tokens i) (object s) 0 w s fuel held (object-IsString s chars) in
      elim (Bool-cases (same_text w s)) [
        | inl e ↦ rw (e, back (same_text-eq w s e)) refl
        | inr e ↦ elim (Bool-cases (eqb_ℤ (my_strcmp t.input (t.tokens i) (object s) 0) (pos 0))) [
          | inr f ↦ rw (e, f) refl
          | inl f ↦
              let same : w ≡ s = there (eqb_ℤ_iff _ (pos 0) f) in
              absurd (differ e (subst (λ s. same_text w s ≡ true) same (same_text_refl w)))
        ]
      ]
    where
      differ : {b : Bool} → b ≡ false → b ≡ true → ⊥
      differ e f = let g : false ≡ true = sym e ∙ f in cc

abbrev AreNames : List (String × Command) → Type 0
AreNames table = All (λ e. All IsChar (codes e.0) × (length (codes e.0) ≤ 32)) table

table-AreNames : AreNames command_table
table-AreNames = ground arith

lookup_long :
    (table : List (String × Command)) (w : List ℕ)
    → AreNames table
    → 32 < length w
    → lookup table w ≡ none
unfolding lookup
lookup_long [] w names l = refl
lookup_long ((name, c) ∷ table) w names l = elim (Bool-cases (same_text w (codes name))) [
  | inl e ↦ absurd (omega (arith, names.0.1, ap length (same_text-eq w (codes name) e)))
  | inr e ↦ rw e (lookup_long table w names.1 l)
]

-- The message of a line whose first word is no name.
abbrev pub complaint : List ℕ → Tokens → List (Out × Option ℤ)
complaint w t =
    if ltb 32 (length w)
    then red (text "  Error: command name too long\n") ∷ []
    else red (text "  Unknown command: '")
      ∷ red (token t 0)
      ∷ red (text "'. Type 'help' for available commands.\n")
      ∷ []

-- The outcome by the text: a command of the table is called; else there is only a message.
abbrev pub Dispatched : List ℕ → Stdio → Tokens → ℤ → Machine → Moved → Type 0
Dispatched w io t d k r =
    ((c : Command) × (lookup command_table w ≡ some c) × (r ≡ call c io t d k))
    ⊎ ((lookup command_table w ≡ none) × (r ≡ (pos 0, d, print_all (complaint w t) k)))

module _ (t : Tokens) (w : List ℕ) (held : IsString t.input (t.tokens 0) w)
    (fuel : length w < text_fuel) where
  dispatch_loop-lookup :
      (table : List (String × Command)) (io : Stdio) (d : ℤ) (k : Machine)
      → AreNames table
      → ((c : Command) × (lookup table w ≡ some c)
          × (dispatch_loop table io t d k ≡ call c io t d k))
        ⊎ ((lookup table w ≡ none) × (dispatch_loop table io t d k ≡ dispatch_loop [] io t d k))
  unfolding lookup dispatch_loop
  dispatch_loop-lookup [] io d k names = inr (refl, refl)
  dispatch_loop-lookup ((name, c) ∷ table) io d k names =
      let same = is_word-same_text t 0 w held fuel (codes name) names.0.0 in
      elim (Bool-cases (same_text w (codes name))) [
        | inl e ↦ inl (c, rw e refl, rw (same, e) refl)
        | inr e ↦ rw (same, e) (dispatch_loop-lookup table io d k names.1)
      ]

  -- When there is a token and the first one holds a text that is not empty, `command_dispatch` calls
  -- the command that has that text as its name; if none has, it returns 0 and only prints,
  -- that the name is too long if it has more than 32 characters, and else that it is unknown, with
  -- the name.
  pub command_dispatch-Dispatched :
      (io : Stdio) (d : ℤ) (k : Machine)
      → 0 < t.count
      → 0 < length w
      → Dispatched w io t d k (command_dispatch io t d k)
  unfolding command_dispatch dispatch_loop stay
  command_dispatch-Dispatched io d k some_token some_text =
      let len = my_strlen-length t.input (t.tokens 0) w fuel held in
      elim (Bool-cases (ltb 32 (length w))) [
        | inl e ↦
            rw (ne→== t.count 0 (omega arith), len, ne→== (length w) 0 (omega arith), e)
              (inr (lookup_long command_table w table-AreNames (ground arith), refl))
        | inr e ↦
            rw (ne→== t.count 0 (omega arith), len, ne→== (length w) 0 (omega arith), e)
              (elim (dispatch_loop-lookup command_table io d k table-AreNames) [
                | inl (c, found, r) ↦ inl (c, found, r)
                | inr (found, r) ↦ inr (found, r)
              ])
      ]
