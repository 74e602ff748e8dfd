-- ===== src/System/Words.antt =====
-- The words of a command line, and the content that `cmd_write` (core/commands.c) joins from them.
use mineos.Base.{
  ℕ, zero, suc, ◌+◌, ◌*◌, ◌≤◌, ◌<◌, ◌≡◌, refl, arith, List, [], ◌∷◌, ◌++◌, length, codes, ltb_ℤ,
  pos, Bool-cases, inl, inr,
}
use mineos.Math.{my_sub}
use mineos.Bytes.{Bytes, object}
use mineos.Text.{Tokens, text_fuel, my_strcat}
use mineos.Text.Strings.{IsString}
use mineos.Text.Copy.{my_strcat-append}
use mineos.Commands.Files.{join_loop}

-- A word that token `j` points to.
abbrev pub WordAt : Tokens → ℕ → Type 0
WordAt t j = (w : List ℕ) × IsString t.input (t.tokens j) w × (length w < 256)

-- The tokens are words, and `tokens[16]` of the shell has room for them.
pub record AreWords (t : Tokens) : Type 0 where
  pub few : t.count ≤ 16
  pub word : (j : ℕ) → j < t.count → WordAt t j

-- A string of at most `n` characters.
abbrev pub HoldsAtMost : ℕ → Bytes → Type 0
HoldsAtMost n m = (s : List ℕ) × IsString m 0 s × (length s ≤ n)

length-++ : (s t : List ℕ) → length (s ++ t) ≡ length s + length t
length-++ [] t = omega arith
length-++ (c ∷ s) t = omega (arith, length-++ s t)

append-HoldsAtMost :
    (n l : ℕ) (m src : Bytes) (p : ℕ) (w : List ℕ)
    → n < text_fuel
    → length w < text_fuel
    → length w ≤ l
    → IsString src p w
    → HoldsAtMost n m
    → HoldsAtMost (n + l) (my_strcat m 0 src p)
append-HoldsAtMost n l m src p w fn fw h at (s, held, short) =
    let joined = my_strcat-append m 0 src p s w (omega arith) fw held at in
    (s ++ w, joined.0, omega (arith, length-++ s w))

blank_str : IsString (object (codes " ")) 0 (32 ∷ [])
unfolding object
blank_str = (refl, (omega arith, omega arith), refl)

widen : (n l : ℕ) (m : Bytes) → n ≤ l → HoldsAtMost n m → HoldsAtMost l m
widen n l m h (s, e, d) = (s, e, omega arith)

pub join_loop-HoldsAtMost :
    (n i l : ℕ) (t : Tokens) (m : Bytes)
    → AreWords t
    → i + n ≤ t.count
    → l + n * 256 < text_fuel
    → HoldsAtMost l m
    → HoldsAtMost (l + n * 256) (join_loop n i t m)
unfolding join_loop
join_loop-HoldsAtMost zero i l t m words h f (s, held, short) = (s, held, omega arith)
join_loop-HoldsAtMost (suc n) i l t m words h f held =
    let (w, at, short) = words.word i (omega arith) in
    let m1 = my_strcat m 0 t.input (t.tokens i) in
    let joined : HoldsAtMost (l + 255) m1 =
      append-HoldsAtMost l 255 m t.input (t.tokens i) w (omega arith) (omega arith) (omega arith) at
        held in
    elim (Bool-cases (ltb_ℤ (pos i) (my_sub (pos t.count) (pos 1)))) [
      | inl b ↦ rw b (
          widen (l + 255 + 1 + n * 256) _ _ (omega arith) (
            join_loop-HoldsAtMost n (i + 1) (l + 255 + 1) t _ words (omega arith) (omega arith) (
              append-HoldsAtMost (l + 255) 1 m1 (object (codes " ")) 0 (32 ∷ []) (omega arith)
                (omega arith) (omega arith) blank_str joined)))
      | inr b ↦ rw b (
          widen (l + 255 + n * 256) _ _ (omega arith) (
            join_loop-HoldsAtMost n (i + 1) (l + 255) t m1 words (omega arith) (omega arith)
              joined))
    ]
