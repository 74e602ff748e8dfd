-- ===== src/Text/Trim.antt =====
-- `my_str_trim` (libs/string.c) cuts the blanks off both ends of a line.
use mineos.Base.{
  ℕ, zero, suc, ◌+◌, ◌-◌, ◌≤◌, ◌<◌, ◌≡◌, refl, ◌∙◌, sym, subst, ap, inl, inr, List, arith, length,
  true, false, ◌==◌, ◌&&◌, ltb, Bool-cases, dec_eq, if_cases, lt→ltb,
}
use mineos.Bytes.{Bytes, put}
use mineos.Text.{text_fuel, is_blank, trim_start, trim_stop, shift_loop, my_str_trim}
use mineos.Text.Chars.{end-IsString, IsChar-front, IsString-front}
use mineos.Text.Strings.{IsChar, IsString, my_strlen-length}

-- All bytes from `a` up to `b` are blanks.
abbrev pub Blank : Bytes → ℕ → ℕ → Type 0
Blank m a b = (q : ℕ) → a ≤ q → q < b → is_blank (m q) ≡ true

zero_not_blank : is_blank 0 ≡ false
unfolding is_blank
zero_not_blank = refl

record Starts (m : Bytes) (i len r : ℕ) : Type 0 where
  lower : i ≤ r
  upper : r ≤ len
  blank : Blank m i r
  first : is_blank (m r) ≡ false

trim_start-Starts :
    (fuel : ℕ) (m : Bytes) (i len : ℕ)
    → i ≤ len
    → len < i + fuel
    → m len ≡ 0
    → Starts m i len (trim_start fuel m i)
unfolding trim_start
trim_start-Starts zero m i len l f e = absurd (omega arith)
trim_start-Starts (suc fuel) m i len l f e = elim (Bool-cases (is_blank (m i))) [
  | inr b ↦
      rw b (record {
        lower = omega arith;
        upper = l;
        blank = λ q x y. absurd (omega arith);
        first = b;
      })
  | inl b ↦
      let ne : i < len = before b in
      let rest = trim_start-Starts fuel m (i + 1) len (omega arith) (omega arith) e in
      let lower = rest.lower in
      rw b (record {
        lower = omega arith;
        upper = rest.upper;
        blank = λ q x y. elim (dec_eq q i) [
          | inl same ↦ rw same b
          | inr other ↦ rest.blank q (omega arith) y
        ];
        first = rest.first;
      })
]
  where
    before : is_blank (m i) ≡ true → i < len
    before b = elim (dec_eq i len) [
      | inl same ↦
          let clash : false ≡ true = sym zero_not_blank ∙ ap is_blank (sym (rw same e)) ∙ b in
          absurd (cc)
      | inr ne ↦ omega arith
    ]

record Stops (m : Bytes) (start stop r : ℕ) : Type 0 where
  lower : start ≤ r
  upper : r ≤ stop
  blank : Blank m r stop
  last : start < r → is_blank (m (r - 1)) ≡ false

trim_stop-Stops :
    (fuel : ℕ) (m : Bytes) (start stop : ℕ)
    → start ≤ stop
    → stop ≤ start + fuel
    → Stops m start stop (trim_stop fuel m start stop)
unfolding trim_stop
trim_stop-Stops zero m start stop l f = record {
  lower = l;
  upper = omega arith;
  blank = λ q x y. absurd (omega arith);
  last = λ h. absurd (omega arith);
}
trim_stop-Stops (suc fuel) m start stop l f =
    let b = ltb start stop && is_blank (m (stop - 1)) in
    elim (Bool-cases b) [
      | inr e ↦ rw e (record {
        lower = l;
        upper = omega arith;
        blank = λ q x y. absurd (omega arith);
        last = λ h. rw (lt→ltb start stop h) at e;
      })
      | inl e ↦
          let more : start < stop = ground arith in
          let here : is_blank (m (stop - 1)) ≡ true = rw (lt→ltb start stop more) at e in
          let rest = trim_stop-Stops fuel m start (stop - 1) (omega arith) (omega arith) in
          let upper = rest.upper in
          rw e (record {
            lower = rest.lower;
            upper = omega arith;
            blank = λ q x y. elim (dec_eq q (stop - 1)) [
              | inl same ↦ rw same here
              | inr other ↦ rest.blank q x (omega arith)
            ];
            last = rest.last;
          })
    ]

record Shifted (m : Bytes) (start n i : ℕ) (r : Bytes) : Type 0 where
  before : (q : ℕ) → q < i → r q ≡ m q
  moved : (j : ℕ) → j < n → r (i + j) ≡ m (start + i + j)
  ends : r (i + n) ≡ 0

shift_loop-Shifted :
    (n : ℕ) (m : Bytes) (start i : ℕ)
    → 0 < start
    → ((q : ℕ) → q < start + i + n → m q < 256)
    → Shifted m start n i (shift_loop n m start i)
unfolding shift_loop put
shift_loop-Shifted zero m start i h small = record {
  before = λ q l. ground arith;
  moved = λ j l. absurd (omega arith);
  ends = ground arith;
}
shift_loop-Shifted (suc n) m start i h small =
    let m1 : Bytes = put m i (m (start + i)) in
    let r : Bytes = shift_loop n m1 start (i + 1) in
    let byte = small (start + i) (omega arith) in
    let rest =
      shift_loop-Shifted n m1 start (i + 1) h λ q l. ground (arith, small q (omega arith)) in
    record {
      before = λ q l. rest.before q (omega arith) ∙ ground arith;
      moved = λ j l. elim (dec_eq j 0) [
        | inl e ↦
            let at : i ≡ i + j = omega arith in
            let from : start + i ≡ start + i + j = omega arith in
            let written : m1 i ≡ m (start + i) = ground arith in
            subst (λ q. r q ≡ m (start + i + j)) at
              (rest.before i (omega arith) ∙ written ∙ ap m from)
        | inr ne ↦
            let at : i + 1 + (j - 1) ≡ i + j = omega arith in
            let from : start + (i + 1) + (j - 1) ≡ start + i + j = omega arith in
            let kept : m1 (start + i + j) ≡ m (start + i + j) = ground arith in
            subst (λ q. r q ≡ m (start + i + j)) at
              (rest.moved (j - 1) (omega arith) ∙ ap m1 from ∙ kept)
      ];
      ends = let e : i + 1 + n ≡ i + suc n = omega arith in subst (λ q. r q ≡ 0) e rest.ends;
    }

-- `r` holds the part of the `len` bytes of `m` between the blanks at both ends.
pub record Trimmed (m : Bytes) (len : ℕ) (r : Bytes) : Type 0 where
  pub start : ℕ
  pub stop : ℕ
  pub order : start ≤ stop
  pub upper : stop ≤ len
  pub front : Blank m 0 start
  pub back : Blank m stop len
  pub first : start < stop → is_blank (m start) ≡ false
  pub last : start < stop → is_blank (m (stop - 1)) ≡ false
  pub copied : (j : ℕ) → j < stop - start → r j ≡ m (start + j)
  pub ends : r (stop - start) ≡ 0

-- What the two branches of the end of `my_str_trim` leave.
record Fronted (m : Bytes) (start n : ℕ) (r : Bytes) : Type 0 where
  copied : (j : ℕ) → j < n → r j ≡ m (start + j)
  ends : r n ≡ 0

Shifted-Fronted :
    (m : Bytes) (start n : ℕ) (r : Bytes) → Shifted m start n 0 r → Fronted m start n r
Shifted-Fronted m start n r v = record {
  copied = λ j l.
      let at : 0 + j ≡ j = omega arith in
      let from : start + 0 + j ≡ start + j = omega arith in
      subst (λ q. r q ≡ m (start + j)) at (v.moved j l ∙ ap m from);
  ends = let at : 0 + n ≡ n = omega arith in subst (λ q. r q ≡ 0) at v.ends;
}

put_end-Fronted :
    (m : Bytes) (start stop : ℕ) → start ≡ 0 → Fronted m start (stop - start) (put m stop 0)
unfolding put
put_end-Fronted m start stop z = record {
  copied = λ j l.
      let e : j ≡ start + j = omega arith in
      let kept : put m stop 0 j ≡ m j = ground arith in kept ∙ ap m e;
  ends = ground arith;
}

-- `my_str_trim` of a line leaves the part of the line between the blanks at its two ends, moved to
-- the front and terminated: that part is empty, or its first and its last character are no blanks.
pub my_str_trim-Trimmed :
    (m : Bytes) (s : List ℕ)
    → length s < text_fuel
    → IsString m 0 s
    → Trimmed m (length s) (my_str_trim m)
unfolding my_str_trim
my_str_trim-Trimmed m s f h =
    let len : ℕ = length s in
    let plus : 0 + len ≡ len = omega arith in
    let at_end : m len ≡ 0 = subst (λ q. m q ≡ 0) plus (end-IsString m 0 s h) in
    let a = trim_start-Starts text_fuel m 0 len (omega arith) (omega arith) at_end in
    let start : ℕ = trim_start text_fuel m 0 in
    let upper_a = a.upper in
    let b = trim_stop-Stops len m start len upper_a (omega arith) in
    let stop : ℕ = trim_stop len m start len in
    let upper_b = b.upper in
    let done : (r : Bytes) → Fronted m start (stop - start) r → Trimmed m len r = λ r fronted.
      record {
        start = start;
        stop = stop;
        order = b.lower;
        upper = b.upper;
        front = a.blank;
        back = b.blank;
        first = λ l. a.first;
        last = b.last;
        copied = fronted.copied;
        ends = fronted.ends;
      } in
    let nothing : (len == 0) ≡ true → Fronted m start (stop - start) m = λ e.
      let z : len ≡ 0 = ground arith in
      let n : len ≡ stop - start = omega arith in
      record { copied = λ j l. absurd (omega arith); ends = subst (λ q. m q ≡ 0) n at_end } in
    rw (my_strlen-length m 0 s f h) (
      if_cases (Trimmed m len) (len == 0) _ _ (λ e. done m (nothing e))
        (λ e.
          if_cases (Trimmed m len) (ltb 0 start) _ _
            (λ l. done _ (
              Shifted-Fronted m start (stop - start) _ (
                shift_loop-Shifted (stop - start) m start 0 (ground arith)
                  (λ q x. small q (omega arith)))))
            (λ l. done _ (put_end-Fronted m start stop (ground arith)))))
  where
    small : (q : ℕ) → q < length s → m q < 256
    small q l = (IsChar-front m s h q l).1

-- The line that is left is no longer than the line was.
pub my_str_trim-IsString :
    (m : Bytes) (s : List ℕ)
    → length s < text_fuel
    → IsString m 0 s
    → (t : List ℕ) × IsString (my_str_trim m) 0 t × (length t ≤ length s)
my_str_trim-IsString m s f h =
    let v = my_str_trim-Trimmed m s f h in
    let upper = v.upper in
    let (t, held, l) =
      IsString-front (v.stop - v.start) (my_str_trim m)
        (λ j x. subst IsChar (sym (v.copied j x)) (IsChar-front m s h (v.start + j) (omega arith)))
        v.ends in
    (t, held, omega arith)
