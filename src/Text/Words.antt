-- ===== src/Text/Words.antt =====
-- How many words a line has, and how long they are (libs/string.c).
use mineos.Base.{
  ℕ, zero, suc, ◌+◌, ◌*◌, ◌≤◌, ◌<◌, ◌≡◌, subst, inl, inr, List, [], ◌∷◌, arith, length, Bool, true,
  false, All, if◌then◌else◌, ◌==◌, Bool-cases,
}
use mineos.Bytes.{Bytes}
use mineos.Text.Strings.{IsString}
use mineos.Text.Tokenize.{word, words, AreTokens}

word-length : (d : ℕ) (s : List ℕ) → length (word d s) ≤ length s
unfolding word
word-length d [] = omega arith
word-length d (c ∷ s) = elim (Bool-cases (c == d)) [
  | inl e ↦ rw e (omega arith)
  | inr e ↦ rw e (omega (arith, word-length d s))
]

-- Two words have a delimiter between them.
pub words-few :
    (d : ℕ) (inside : Bool) (s : List ℕ)
    → 2 * length (words d inside s) ≤ length s + (if inside then 0 else 1)
unfolding words
words-few d inside [] = omega arith
words-few d true (c ∷ s) = elim (Bool-cases (c == d)) [
  | inl e ↦ rw e (omega (arith, words-few d false s))
  | inr e ↦ rw e (omega (arith, words-few d true s))
]
words-few d false (c ∷ s) = elim (Bool-cases (c == d)) [
  | inl e ↦ rw e (omega (arith, words-few d false s))
  | inr e ↦ rw e (omega (arith, words-few d true s))
]

abbrev pub AreShort : ℕ → List (List ℕ) → Type 0
AreShort n ws = All (λ w. length w ≤ n) ws

pub words-AreShort :
    (d n : ℕ) (inside : Bool) (s : List ℕ) → length s ≤ n → AreShort n (words d inside s)
unfolding words
words-AreShort d n inside [] h = tt
words-AreShort d n true (c ∷ s) h = elim (Bool-cases (c == d)) [
  | inl e ↦ rw e (words-AreShort d n false s (omega arith))
  | inr e ↦ rw e (words-AreShort d n true s (omega arith))
]
words-AreShort d n false (c ∷ s) h = elim (Bool-cases (c == d)) [
  | inl e ↦ rw e (words-AreShort d n false s (omega arith))
  | inr e ↦
      let first = word-length d (c ∷ s) in
      rw e (omega arith, words-AreShort d n true s (omega arith))
]

-- The token at index `j`.
pub AreTokens-at :
    (m : Bytes) (tokens : ℕ → ℕ) (n k : ℕ) (ws : List (List ℕ)) (j : ℕ)
    → AreTokens m tokens k ws
    → AreShort n ws
    → j < length ws
    → (w : List ℕ) × IsString m (tokens (k + j)) w × (length w ≤ n)
AreTokens-at m tokens n k [] j h g l = absurd (omega arith)
AreTokens-at m tokens n k (w ∷ ws) zero h g l =
    let e : k ≡ k + 0 = omega arith in (w, subst (λ i. IsString m (tokens i) w) e h.0, g.0)
AreTokens-at m tokens n k (w ∷ ws) (suc j) h g l =
    let e : k + 1 + j ≡ k + suc j = omega arith in
    let (v, held, short) = AreTokens-at m tokens n (k + 1) ws j h.1 g.1 (omega arith) in
    (v, subst (λ i. IsString m (tokens i) v) e held, short)
