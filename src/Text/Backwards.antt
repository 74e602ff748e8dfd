-- ===== src/Text/Backwards.antt =====
-- Texts that are built or stored with the last character first (libs/string.c, libs/keyboard.c).
use mineos.Base.{
  ℕ, zero, suc, ◌+◌, ◌-◌, ◌≤◌, ◌<◌, ◌≡◌, ◌≢◌, refl, ◌∙◌, ap, dec_eq, ◌⊎◌, inl, inr, arith,
  Bool-cases, ltb, List, [], ◌∷◌, ◌++◌, length,
}
use mineos.Bytes.{Bytes, put}
use mineos.Text.{reverse_loop}
use mineos.Text.Strings.{IsChar, IsString, IsString-eq}

-- A line, first character first, in front of `t`.
abbrev pub onto : List ℕ → List ℕ → List ℕ
onto [] t = t
onto (c ∷ line) t = onto line (c ∷ t)

-- The buffer holds the characters of the line, without a terminator.
abbrev pub Holds : Bytes → List ℕ → Type 0
Holds m [] = Unit
Holds m (c ∷ line) = (m (length line) ≡ c) × IsChar c × Holds m line

pub Holds-IsString :
    (m : Bytes) (line t : List ℕ)
    → Holds m line
    → IsString m (length line) t
    → IsString m 0 (onto line t)
Holds-IsString m [] t h s = s
Holds-IsString m (c ∷ line) t h s =
    Holds-IsString m line (c ∷ t) h.2 (h.0, h.1, IsString-eq m t (omega arith) s)

pub put_same : (m : Bytes) (q c : ℕ) → c < 256 → put m q c q ≡ c
unfolding put
put_same m q c h = ground arith

pub length-onto : (line t : List ℕ) → length (onto line t) ≡ length line + length t
length-onto [] t = omega arith
length-onto (c ∷ line) t = length-onto line (c ∷ t) ∙ omega arith

pub onto-snoc : (l t : List ℕ) (c : ℕ) → onto (l ++ c ∷ []) t ≡ c ∷ onto l t
onto-snoc [] t c = refl
onto-snoc (d ∷ l) t c = onto-snoc l (d ∷ t) c

-- The characters of `l` stand from `p` on, without a terminator.
abbrev pub Spelled : Bytes → ℕ → List ℕ → Type 0
Spelled m p [] = Unit
Spelled m p (c ∷ l) = (m p ≡ c) × IsChar c × Spelled m (p + 1) l

-- Two characters change places.
abbrev swapped : Bytes → ℕ → ℕ → Bytes
swapped m j i = put (put m j (m i)) i (m j)

record Swaps (m : Bytes) (j i : ℕ) : Type 0 where
  front : swapped m j i j ≡ m i
  back : swapped m j i i ≡ m j
  other : (q : ℕ) → q ≢ j → q ≢ i → swapped m j i q ≡ m q

swapped-Swaps : (m : Bytes) (j i : ℕ) → j < i → m j < 256 → m i < 256 → Swaps m j i
unfolding put
swapped-Swaps m j i h a b = record {
  front = ground arith;
  back = ground arith;
  other = λ q ne ne'. ground arith;
}

-- `r` holds what `m` holds, with what stands from `j` to `i` turned round.
pub record Turned (m : Bytes) (j i : ℕ) (r : Bytes) : Type 0 where
  pub inside : (q : ℕ) → j ≤ q → q ≤ i → r q ≡ m (j + i - q)
  pub outside : (q : ℕ) → (q < j) ⊎ (i < q) → r q ≡ m q

Turned-Swaps :
    (m r : Bytes) (j i : ℕ)
    → j < i
    → Swaps m j i
    → Turned (swapped m j i) (j + 1) (i - 1) r
    → Turned m j i r
Turned-Swaps m r j i h swaps v = record {
  inside = λ q a b. elim (dec_eq q j) [
    | inl e ↦
        v.outside q (inl (omega arith)) ∙ ap (swapped m j i) e ∙ swaps.front ∙ ap m (omega arith)
    | inr ne ↦ elim (dec_eq q i) [
      | inl e ↦
          v.outside q (inr (omega arith)) ∙ ap (swapped m j i) e ∙ swaps.back ∙ ap m (omega arith)
      | inr ne' ↦
          v.inside q (omega arith) (omega arith)
          ∙ swaps.other (j + 1 + (i - 1) - q) (λ e. omega arith) (λ e. omega arith)
          ∙ ap m (omega arith)
    ]
  ];
  outside =
      λ q out. v.outside q (omega arith) ∙ swaps.other q (λ e. omega arith) (λ e. omega arith);
}

-- `reverse_loop` between two indices turns what stands there round.
pub reverse_loop-Turned :
    (fuel : ℕ) (m : Bytes) (j i : ℕ)
    → i < j + fuel
    → ((q : ℕ) → j ≤ q → q ≤ i → m q < 256)
    → Turned m j i (reverse_loop fuel m j i)
unfolding reverse_loop
reverse_loop-Turned zero m j i h small = record {
  inside = λ q a b. absurd (omega arith);
  outside = λ q out. refl;
}
reverse_loop-Turned (suc fuel) m j i h small = elim (Bool-cases (ltb j i)) [
  | inr e ↦ rw e (record {
    inside = λ q a b. let l : i ≤ j = ground arith in ap m (omega arith);
    outside = λ q out. refl;
  })
  | inl e ↦
      let l : j < i = ground arith in
      let swaps =
        swapped-Swaps m j i l (small j (omega arith) (omega arith))
          (small i (omega arith) (omega arith)) in
      rw e (
        Turned-Swaps m _ j i l swaps (
          reverse_loop-Turned fuel (swapped m j i) (j + 1) (i - 1) (omega arith) (λ q a b.
            rw (swaps.other q (λ e. omega arith) (λ e. omega arith))
              (small q (omega arith) (omega arith)))))
]

-- A text that is turned round from its first character on is spelled forwards.
pub Turned-Holds :
    (m r : Bytes) (p : ℕ) (l : List ℕ)
    → Spelled m p l
    → ((q : ℕ) → q < length l → r q ≡ m (p + length l - 1 - q))
    → Holds r l
Turned-Holds m r p [] h turned = tt
Turned-Holds m r p (c ∷ l) h turned = (
  turned (length l) (omega arith) ∙ ap m (omega arith) ∙ h.0,
  h.1,
  Turned-Holds m r (p + 1) l h.2 (λ q a. turned q (omega arith) ∙ ap m (omega arith)),
)
