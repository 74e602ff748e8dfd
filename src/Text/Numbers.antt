-- ===== src/Text/Numbers.antt =====
-- `my_int_to_str` and `my_str_to_int` (libs/string.c).
use mineos.Base.{
  ℕ, zero, suc, ◌+◌, ◌-◌, ◌^◌, ◌≤◌, ◌<◌, ◌≡◌, refl, ◌∙◌, ap, sym, subst, inl, inr, arith, false,
  dec_eq, ltb, ℤ, pos, negsuc, ◌≤ℤ◌, ◌-ℤ◌, List, [], ◌∷◌, ◌++◌, length, length-append, ne→==,
}
use mineos.Math.{my_abs, wrap}
use mineos.Bytes.{Bytes, put}
use mineos.Bytes.Outside.{SameOutside, put_other}
use mineos.Text.{digit_fuel, digits_loop, reverse_loop, my_int_to_str}
use mineos.Text.Strings.{IsChar, IsString}
use mineos.Text.Backwards.{
  onto, length-onto, onto-snoc, Spelled, Holds-IsString, put_same, reverse_loop-Turned,
  Turned-Holds,
}
use mineos.Text.Decimal.{
  backward_digits, decimal, digits_some, length-backward_digits, digits_loop-Extracts,
}

-- The buffer holds the text, and no byte behind its terminator has been written.
abbrev pub Prints : Bytes → List ℕ → Bytes → Type 0
Prints buf t r = IsString r 0 t × SameOutside 0 (length t + 1) buf r

Spelled-lt :
    (m : Bytes) (p : ℕ) (l : List ℕ) (q : ℕ) → Spelled m p l → p ≤ q → q < p + length l → m q < 256
Spelled-lt m p [] q h a b = absurd (omega arith)
Spelled-lt m p (c ∷ l) q h a b = elim (dec_eq q p) [
  | inl e ↦ rw (e, h.0) (omega (arith, h.1))
  | inr ne ↦ Spelled-lt m (p + 1) l q h.2 (omega arith) (omega arith)
]

Spelled-put :
    (m : Bytes) (p : ℕ) (l : List ℕ) (q c : ℕ)
    → p + length l ≤ q
    → Spelled m p l
    → Spelled (put m q c) p l
Spelled-put m p [] q c h held = tt
Spelled-put m p (d ∷ l) q c h held = (
  put_other m q c p (omega arith) ∙ held.0,
  held.1,
  Spelled-put m (p + 1) l q c (omega arith) held.2,
)

Spelled-snoc :
    (m : Bytes) (p : ℕ) (l : List ℕ) (q c : ℕ)
    → q ≡ p + length l
    → Spelled m p l
    → IsChar c
    → Spelled (put m q c) p (l ++ c ∷ [])
Spelled-snoc m p [] q c e held char =
    (ap (put m q c) (omega arith) ∙ put_same m q c (omega arith), char, tt)
Spelled-snoc m p (d ∷ l) q c e held char = (
  put_other m q c p (omega arith) ∙ held.0,
  held.1,
  Spelled-snoc m (p + 1) l q c (omega arith) held.2 char,
)

abs_negsuc : (n : ℕ) → suc n < 2 ^ 31 → my_abs (negsuc n) ≡ pos (suc n)
unfolding my_abs ◌-ℤ◌ wrap
abs_negsuc n h = ground arith

-- A text that has been spelled backwards, with a terminator behind it, is turned round.
turn_round :
    (buf m : Bytes) (l : List ℕ)
    → 0 < length l
    → Spelled m 0 l
    → m (length l) ≡ 0
    → SameOutside 0 (length l + 1) buf m
    → Prints buf (onto l []) (reverse_loop (length l) m 0 (length l - 1))
turn_round buf m l some_text spelled ends same =
    let small =
      λ (q : ℕ) (a : 0 ≤ q) (b : q ≤ length l - 1). Spelled-lt m 0 l q spelled a (omega arith) in
    let v = reverse_loop-Turned (length l) m 0 (length l - 1) (omega arith) small in
    let held =
      Turned-Holds m _ 0 l spelled
        (λ q h. v.inside q (omega arith) (omega arith) ∙ ap m (omega arith)) in
    (
      Holds-IsString _ l [] held (v.outside (length l) (inr (omega arith)) ∙ ends),
      λ q out.
          v.outside q (omega (arith, length-onto l [])) ∙ same q (omega (arith, length-onto l [])),
    )

int_to_str_pos :
    (n : ℕ) (buf : Bytes)
    → 0 < n
    → let r = digits_loop digit_fuel (pos n) buf 0 in
      my_int_to_str (pos n) buf ≡ reverse_loop r.1 (put r.0 r.1 0) 0 (r.1 - 1)
unfolding my_int_to_str
int_to_str_pos n buf h =
    let plus : ltb n 0 ≡ false = ground arith in rw (plus, ne→== n 0 (omega arith)) refl

int_to_str_negsuc :
    (n : ℕ) (buf : Bytes)
    → my_abs (negsuc n) ≡ pos (suc n)
    → let r = digits_loop digit_fuel (pos (suc n)) buf 0 in
      my_int_to_str (negsuc n) buf
      ≡ reverse_loop (r.1 + 1) (put (put r.0 r.1 b'-') (r.1 + 1) 0) 0 (r.1 + 1 - 1)
unfolding my_int_to_str
int_to_str_negsuc n buf e = rw e refl

-- A positive number: the loop's digits and the terminator.
print_pos :
    (n : ℕ) (buf : Bytes)
    → 0 < n
    → n < 2 ^ 31
    → Prints buf (onto (backward_digits digit_fuel n) []) (my_int_to_str (pos n) buf)
unfolding my_int_to_str
print_pos n buf some h =
    let l = backward_digits digit_fuel n in
    let ex = digits_loop-Extracts digit_fuel n buf 0 h in
    let m : Bytes = (digits_loop digit_fuel (pos n) buf 0).0 in
    let index : (digits_loop digit_fuel (pos n) buf 0).1 ≡ length l = ex.index ∙ omega arith in
    rw (int_to_str_pos n buf some, index)
      (turn_round buf (put m (length l) 0) l (digits_some 31 n some)
        (Spelled-put m 0 l (length l) 0 (omega arith) ex.spelled)
        (put_same m (length l) 0 (omega arith))
        (λ q out. put_other m (length l) 0 q (omega arith) ∙ ex.same q (omega arith)))

-- A negative number: the sign behind the digits.
print_negsuc :
    (n : ℕ) (buf : Bytes)
    → suc n < 2 ^ 31
    → Prints buf
        (b'-' ∷ onto (backward_digits digit_fuel (suc n)) [])
        (my_int_to_str (negsuc n) buf)
print_negsuc n buf h =
    let l = backward_digits digit_fuel (suc n) in
    let signed : List ℕ = l ++ b'-' ∷ [] in
    let ex = digits_loop-Extracts digit_fuel (suc n) buf 0 h in
    let m : Bytes = (digits_loop digit_fuel (pos (suc n)) buf 0).0 in
    let m1 : Bytes = put m (length l) b'-' in
    let longer : length signed ≡ length l + 1 = length-append l (b'-' ∷ []) in
    let index : (digits_loop digit_fuel (pos (suc n)) buf 0).1 ≡ length l =
      ex.index ∙ omega arith in
    let turned =
      turn_round buf (put m1 (length signed) 0) signed (omega arith)
        (Spelled-put m1 0 signed (length signed) 0 (omega arith)
          (Spelled-snoc m 0 l (length l) b'-' (omega arith) ex.spelled (omega arith)))
        (put_same m1 (length signed) 0 (omega arith))
        (λ q out.
          put_other m1 (length signed) 0 q (omega arith)
          ∙ put_other m (length l) b'-' q (omega arith)
          ∙ ex.same q (omega arith)) in
    let stored : my_int_to_str (negsuc n) buf
        ≡ reverse_loop (length l + 1) (put m1 (length l + 1) 0) 0 (length l + 1 - 1) =
      int_to_str_negsuc n buf (abs_negsuc n h)
      ∙ ap (λ i. reverse_loop (i + 1) (put (put m i b'-') (i + 1) 0) 0 (i + 1 - 1)) index in
    let text =
      subst
        (λ t.
          Prints buf t (reverse_loop (length l + 1) (put m1 (length l + 1) 0) 0 (length l + 1 - 1)))
        (onto-snoc l [] b'-')
        (subst (λ k. Prints buf (onto signed []) (reverse_loop k (put m1 k 0) 0 (k - 1))) longer
          turned) in
    subst (Prints buf (b'-' ∷ onto l [])) (sym stored) text

print_zero : (buf : Bytes) → Prints buf (b'0' ∷ []) (my_int_to_str (pos 0) buf)
unfolding my_int_to_str
print_zero buf = (
  (
    put_other (put buf 0 b'0') 1 0 0 (omega arith) ∙ put_same buf 0 b'0' (omega arith),
    (omega arith, omega arith),
    put_same (put buf 0 b'0') 1 0 (omega arith),
  ),
  λ q out. put_other (put buf 0 b'0') 1 0 q (omega arith) ∙ put_other buf 0 b'0' q (omega arith),
)

-- The decimal text of an `int` other than the least, with a terminator, is what
-- `my_int_to_str` writes to the front of the buffer; it takes at most 12 bytes, and no other is written.
pub my_int_to_str-decimal :
    (n : ℤ) (buf : Bytes)
    → negsuc (2 ^ 31 - 2) ≤ℤ n
    → n ≤ℤ pos (2 ^ 31 - 1)
    → Prints buf (decimal n) (my_int_to_str n buf) × (length (decimal n) ≤ 11)
unfolding decimal
my_int_to_str-decimal (pos zero) buf low high = (print_zero buf, omega arith)
my_int_to_str-decimal (pos (suc n)) buf low high = rw (ne→== (suc n) 0 (omega arith)) (
  print_pos (suc n) buf (omega arith) (omega arith),
  omega (
    arith,
    length-onto (backward_digits digit_fuel (suc n)) [],
    length-backward_digits digit_fuel 10 (suc n) (omega arith),
  ),
)
my_int_to_str-decimal (negsuc n) buf low high = (
  print_negsuc n buf (omega arith),
  omega (
    arith,
    length-onto (backward_digits digit_fuel (suc n)) [],
    length-backward_digits digit_fuel 10 (suc n) (omega arith),
  ),
)
