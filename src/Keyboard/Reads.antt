-- ===== src/Keyboard/Reads.antt =====
-- What `read_line` (libs/keyboard.c) leaves of any keys.
use mineos.Base.{
  ℕ, ◌+◌, ◌-◌, ◌≤◌, ◌<◌, ◌≡◌, refl, ◌∙◌, sym, subst, ◌⊎◌, inl, inr, arith, true, false, ltb,
  Bool-cases, Option, none, some, List, [], ◌∷◌, ◌++◌, length, All, pos, ℤ, if_cases, ◌^◌,
}
use mineos.Bytes.{Bytes, put}
use mineos.Machine.{Machine, text}
use mineos.Screen.{emit}
use mineos.Screen.OnlyPrints.{OnlyPrints, OnlyPrints-refl, OnlyPrints-trans, emit-OnlyPrints}
use mineos.Keyboard.{is_enter, is_backspace, is_printable, Line, read_loop, read_line}
use mineos.Text.Strings.{IsString}
use mineos.Text.Backwards.{onto, length-onto}
use mineos.Keyboard.Line.{press_all, read_line-press_all}

-- What holds of the line, if one is read.
abbrev Whenever : (Line → Type 0) → Option Line → Type 0
Whenever P o = (r : Line) → o ≡ some r → P r

-- Reading prints, and takes at least the Enter from the keys.
abbrev pub Reads : Machine → ℕ → Line → Type 0
Reads k n r = OnlyPrints k r.1 × (length r.2 < n)

Reads-later :
    (k k' : Machine) (n : ℕ) (o : Option Line)
    → OnlyPrints k k'
    → Whenever (Reads k' n) o
    → Whenever (Reads k (n + 1)) o
Reads-later k k' n o p each r e =
    let (q, l) = each r e in (OnlyPrints-trans k k' r.1 p q, omega arith)

some_inj : (a b : Line) → some a ≡ some b → a ≡ b
some_inj a b e = cc

read_loop-Reads :
    (keys : List ℕ) (limit p : ℕ) (buf : Bytes) (k : Machine)
    → Whenever (Reads k (length keys)) (read_loop keys limit p buf k)
unfolding read_loop
read_loop-Reads [] limit p buf k = λ r e. absurd (cc)
read_loop-Reads (c ∷ keys) limit p buf k =
    let go = λ (k' : Machine) (o : OnlyPrints k k') (p' : ℕ) (buf' : Bytes).
      Reads-later k k' (length keys) _ o (read_loop-Reads keys limit p' buf' k') in
    let W = Whenever (Reads k (length keys + 1)) in
    let ignored = go k (OnlyPrints-refl k) p buf in
    let all : W (read_loop (c ∷ keys) limit p buf k) =
      if_cases W (is_enter c) _ _ (λ e. entered)
        λ e.
          if_cases W (is_backspace c) _ _
            (λ e.
              if_cases W (ltb 0 p) _ _ (λ e. go _ (emit-OnlyPrints _ k) (p - 1) buf) (λ e. ignored))
            λ e.
              if_cases W (is_printable c) _ _
                (λ e.
                  if_cases W (ltb p limit) _ _
                    (λ e. go _ (emit-OnlyPrints _ k) (p + 1) (put buf p c)) (λ e. ignored))
                (λ e. ignored) in
    λ r e. let (o, l) = all r e in (o, omega arith)
  where
    entered :
        Whenever (Reads k (length keys + 1)) (some (put buf p 0, emit (text "\n" ∷ []) k, keys))
    entered r e =
        subst (Reads k (length keys + 1)) (some_inj _ r e)
          (emit-OnlyPrints (text "\n" ∷ []) k, omega arith)

-- The first Enter among the keys, if there is one.
abbrev HasEnter : List ℕ → Type 0
HasEnter keys =
    (front : List ℕ) × (enter : ℕ) × (rest : List ℕ) × (keys ≡ front ++ enter ∷ rest)
    × All (λ c. is_enter c ≡ false) front
    × (is_enter enter ≡ true)

enter_cases : (keys : List ℕ) → All (λ c. is_enter c ≡ false) keys ⊎ HasEnter keys
enter_cases [] = inl tt
enter_cases (c ∷ keys) = elim (Bool-cases (is_enter c)) [
  | inl e ↦ inr ([], c, keys, refl, tt, e)
  | inr e ↦ more e (enter_cases keys)
]
  where
    more :
        is_enter c ≡ false
        → All (λ c. is_enter c ≡ false) keys ⊎ HasEnter keys
        → All (λ c. is_enter c ≡ false) (c ∷ keys) ⊎ HasEnter (c ∷ keys)
    more e (inl none_enters) = inl (e, none_enters)
    more e (inr (front, enter, rest, split, others, ends)) =
        inr (c ∷ front, enter, rest, rw split refl, (e, others), ends)

-- Without an Enter the function does not return.
read_loop-none :
    (keys : List ℕ) (limit p : ℕ) (buf : Bytes) (k : Machine)
    → All (λ c. is_enter c ≡ false) keys
    → read_loop keys limit p buf k ≡ none
unfolding read_loop
read_loop-none [] limit p buf k h = refl
read_loop-none (c ∷ keys) limit p buf k (e, h) =
    let go = λ (p' : ℕ) (buf' : Bytes) (k' : Machine). read_loop-none keys limit p' buf' k' h in
    let N = λ (o : Option Line). o ≡ none in
    rw e (
      if_cases N (is_backspace c) _ _
        (λ b. if_cases N (ltb 0 p) _ _ (λ l. go _ _ _) (λ l. go p buf k))
        λ b.
          if_cases N (is_printable c) _ _
            (λ b. if_cases N (ltb p limit) _ _ (λ l. go _ _ _) (λ l. go p buf k)) (λ b. go p buf k))

read_line-none :
    (keys : List ℕ) (max_len : ℤ) (buf : Bytes) (k : Machine)
    → All (λ c. is_enter c ≡ false) keys
    → read_line keys max_len buf k ≡ none
unfolding read_line
read_line-none keys max_len buf k h = read_loop-none keys _ 0 buf k h

-- The buffer holds a string of at most `limit` characters.
abbrev pub HoldsLine : ℕ → Line → Type 0
HoldsLine limit r = (s : List ℕ) × IsString r.0 0 s × (length s ≤ limit)

read_line-HoldsLine :
    (keys : List ℕ) (limit : ℕ) (buf : Bytes) (k : Machine) (r : Line)
    → limit < 2 ^ 31 - 1
    → read_line keys (pos (limit + 1)) buf k ≡ some r
    → HoldsLine limit r
read_line-HoldsLine keys limit buf k r h e = elim (enter_cases keys) [
  | inl no_enter ↦ absurd (clash no_enter)
  | inr (front, enter, rest, split, others, ends) ↦
      let (r', e', read) = read_line-press_all front limit enter rest buf k h others ends in
      let same : some r' ≡ some r = sym e' ∙ (rw split at e) in
      let short = read.short in
      subst (HoldsLine limit) (some_inj r' r same) (
        onto (press_all limit front []) [],
        read.content,
        omega (arith, length-onto (press_all limit front []) []),
      )
]
  where
    clash : All (λ c. is_enter c ≡ false) keys → ⊥
    clash none_enters =
        let c : none ≡ some r = sym (read_line-none keys _ buf k none_enters) ∙ e in cc

-- Whatever the keys are, if `read_line` with a buffer of `limit + 1` bytes returns, the buffer holds
-- a string of at most `limit` characters, the machine has only printed, and fewer keys are left.
pub read_line-Reads :
    (keys : List ℕ) (limit : ℕ) (buf : Bytes) (k : Machine) (r : Line)
    → limit < 2 ^ 31 - 1
    → read_line keys (pos (limit + 1)) buf k ≡ some r
    → HoldsLine limit r × Reads k (length keys) r
unfolding read_line
read_line-Reads keys limit buf k r h e =
    (read_line-HoldsLine keys limit buf k r h e, read_loop-Reads keys _ 0 buf k r e)
