-- ===== src/Text/Strings.antt =====
-- The C strings that byte arrays hold.
use mineos.Base.{
  ℕ, zero, suc, ◌+◌, ◌≤◌, ◌<◌, ◌≡◌, refl, ◌∙◌, subst, List, [], ◌∷◌, arith, length, All, ne→==,
}
use mineos.Bytes.{Bytes}
use mineos.Text.{text_fuel, strlen_loop, my_strlen}

abbrev pub IsChar : ℕ → Type 0
IsChar c = (0 < c) × (c < 256)

-- From `p` on stand the characters of `s`, and a 0 behind them.
abbrev pub IsString : Bytes → ℕ → List ℕ → Type 0
IsString m p [] = m p ≡ 0
IsString m p (c ∷ s) = (m p ≡ c) × IsChar c × IsString m (p + 1) s

pub IsString-All : (m : Bytes) (p : ℕ) (s : List ℕ) → IsString m p s → All IsChar s
IsString-All m p [] h = tt
IsString-All m p (c ∷ s) h = (h.1, IsString-All m (p + 1) s h.2)

pub IsString-eq : (m : Bytes) (s : List ℕ) {p q : ℕ} → p ≡ q → IsString m p s → IsString m q s
IsString-eq m s e h = subst (λ p. IsString m p s) e h

pub IsString-cong :
    (m m' : Bytes) (p : ℕ) (s : List ℕ)
    → ((q : ℕ) → p ≤ q → q < p + length s + 1 → m' q ≡ m q)
    → IsString m p s
    → IsString m' p s
IsString-cong m m' p [] same h = same p (omega arith) (omega arith) ∙ h
IsString-cong m m' p (c ∷ s) same h = (
  same p (omega arith) (omega arith) ∙ h.0,
  h.1,
  IsString-cong m m' (p + 1) s (λ q a b. same q (omega arith) (omega arith)) h.2,
)

-- One array holds one string at an index.
pub IsString-unique : (m : Bytes) (p : ℕ) (s t : List ℕ) → IsString m p s → IsString m p t → s ≡ t
IsString-unique m p [] [] h k = refl
IsString-unique m p [] (d ∷ t) h k = absurd (omega arith)
IsString-unique m p (c ∷ s) [] h k = absurd (omega arith)
IsString-unique m p (c ∷ s) (d ∷ t) h k = ground (arith, IsString-unique m (p + 1) s t h.2 k.2)

strlen_loop-length :
    (s : List ℕ) (fuel : ℕ) (m : Bytes) (p len q : ℕ)
    → q ≡ p + len
    → length s < fuel
    → IsString m q s
    → strlen_loop fuel m p len ≡ len + length s
unfolding strlen_loop
strlen_loop-length s zero m p len q e f h = absurd (omega arith)
strlen_loop-length [] (suc fuel) m p len q e f h = rw (← e, h) (omega arith)
strlen_loop-length (c ∷ s) (suc fuel) m p len q e f h =
    rw (← e, h.0, ne→== c 0 (omega arith))
      (strlen_loop-length s fuel m p (len + 1) (q + 1) (omega arith) (omega arith) h.2
        ∙ omega arith)

-- `my_strlen` is the number of characters in front of the terminator.
pub my_strlen-length :
    (m : Bytes) (p : ℕ) (s : List ℕ)
    → length s < text_fuel
    → IsString m p s
    → my_strlen m p ≡ length s
unfolding my_strlen
my_strlen-length m p s f h = strlen_loop-length s text_fuel m p 0 p (omega arith) f h ∙ omega arith
