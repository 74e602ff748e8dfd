-- ===== src/Text/Chars.antt =====
-- The single characters of C strings (libs/string.c).
use mineos.Base.{ℕ, zero, suc, ◌+◌, ◌<◌, ◌≡◌, refl, subst, List, [], ◌∷◌, arith, length}
use mineos.Bytes.{Bytes}
use mineos.Text.Strings.{IsChar, IsString}

IsChar-IsString :
    (m : Bytes) (p : ℕ) (s : List ℕ) → IsString m p s → (j : ℕ) → j < length s → IsChar (m (p + j))
IsChar-IsString m p [] h j l = absurd (omega arith)
IsChar-IsString m p (c ∷ s) h zero l =
    let e : p ≡ p + 0 = omega arith in subst (λ q. IsChar (m q)) e (rw h.0 h.1)
IsChar-IsString m p (c ∷ s) h (suc j) l =
    let e : p + 1 + j ≡ p + suc j = omega arith in
    subst (λ q. IsChar (m q)) e (IsChar-IsString m (p + 1) s h.2 j (omega arith))

pub end-IsString : (m : Bytes) (p : ℕ) (s : List ℕ) → IsString m p s → m (p + length s) ≡ 0
end-IsString m p [] h = let e : p ≡ p + 0 = omega arith in subst (λ q. m q ≡ 0) e h
end-IsString m p (c ∷ s) h =
    let e : p + 1 + length s ≡ p + suc (length s) = omega arith in
    subst (λ q. m q ≡ 0) e (end-IsString m (p + 1) s h.2)

pub IsChar-front : (m : Bytes) (s : List ℕ) → IsString m 0 s → (j : ℕ) → j < length s → IsChar (m j)
IsChar-front m s h j l =
    let e : 0 + j ≡ j = omega arith in subst (λ q. IsChar (m q)) e (IsChar-IsString m 0 s h j l)

-- A buffer with `n` characters in front of a 0 holds a string of that length.
IsString-of :
    (n : ℕ) (m : Bytes) (p : ℕ)
    → ((j : ℕ) → j < n → IsChar (m (p + j)))
    → m (p + n) ≡ 0
    → (t : List ℕ) × IsString m p t × (length t ≡ n)
IsString-of zero m p chars e =
    let at : p + 0 ≡ p = omega arith in ([], subst (λ q. m q ≡ 0) at e, refl)
IsString-of (suc n) m p chars e =
    let at : p + suc n ≡ p + 1 + n = omega arith in
    let zero_at : p + 0 ≡ p = omega arith in
    let (t, held, l) =
      IsString-of n m (p + 1)
        (λ j h.
          let next : p + suc j ≡ p + 1 + j = omega arith in
          subst (λ q. IsChar (m q)) next (chars (suc j) (omega arith)))
        (subst (λ q. m q ≡ 0) at e) in
    (m p ∷ t, (refl, subst (λ q. IsChar (m q)) zero_at (chars 0 (omega arith)), held), omega arith)

pub IsString-front :
    (n : ℕ) (m : Bytes)
    → ((j : ℕ) → j < n → IsChar (m j))
    → m n ≡ 0
    → (t : List ℕ) × IsString m 0 t × (length t ≡ n)
IsString-front n m chars e =
    let plus : (q : ℕ) → q ≡ 0 + q = λ q. omega arith in
    IsString-of n m 0 (λ j h. subst (λ q. IsChar (m q)) (plus j) (chars j h))
      (subst (λ q. m q ≡ 0) (plus n) e)
