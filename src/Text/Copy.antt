-- ===== src/Text/Copy.antt =====
-- `my_strcpy` and `my_strcat` (libs/string.c).
use mineos.Base.{
  ℕ, zero, suc, ◌+◌, ◌<◌, ◌≡◌, refl, inl, ◌∙◌, List, [], ◌∷◌, ◌++◌, arith, length, All, ne→==,
  subst,
}
use mineos.Bytes.{Bytes, put}
use mineos.Bytes.Outside.{SameOutside, put_other}
use mineos.Text.{text_fuel, strcpy_loop, my_strcpy, my_strcat}
use mineos.Text.Strings.{IsChar, IsString, IsString-All, my_strlen-length}

-- The characters of `s` and a 0, written from `d` on.
unfoldable pub write_str : Bytes → ℕ → List ℕ → Bytes
write_str m d [] = put m d 0
write_str m d (c ∷ s) = write_str (put m d c) (d + 1) s

pub write_str-SameOutside :
    (s : List ℕ) (m : Bytes) (d : ℕ) → SameOutside d (d + length s + 1) m (write_str m d s)
unfolding write_str
write_str-SameOutside [] m d q out = put_other m d 0 q (omega arith)
write_str-SameOutside (c ∷ s) m d q out =
    write_str-SameOutside s (put m d c) (d + 1) q (omega arith) ∙ put_other m d c q (omega arith)

put_self : (m : Bytes) (d c : ℕ) → c < 256 → put m d c d ≡ c
unfolding put
put_self m d c h = ground arith

pub IsString-write_str :
    (s : List ℕ) (m : Bytes) (d : ℕ) → All IsChar s → IsString (write_str m d s) d s
unfolding write_str
IsString-write_str [] m d h = put_self m d 0 (omega arith)
IsString-write_str (c ∷ s) m d h = (
  write_str-SameOutside s (put m d c) (d + 1) d (omega arith) ∙ put_self m d c (omega arith),
  h.0,
  IsString-write_str s (put m d c) (d + 1) h.1,
)

strcpy_loop-write_str :
    (s : List ℕ) (fuel : ℕ) (dst : Bytes) (d : ℕ) (src : Bytes) (p i to from : ℕ)
    → to ≡ d + i
    → from ≡ p + i
    → length s < fuel
    → IsString src from s
    → strcpy_loop fuel dst d src p i ≡ write_str dst to s
unfolding strcpy_loop write_str
strcpy_loop-write_str s zero dst d src p i to from e g f h = absurd (omega arith)
strcpy_loop-write_str [] (suc fuel) dst d src p i to from e g f h = rw (← e, ← g, h) refl
strcpy_loop-write_str (c ∷ s) (suc fuel) dst d src p i to from e g f h =
    rw (← e, ← g, h.0, ne→== c 0 (omega arith))
      (strcpy_loop-write_str s fuel (put dst to c) d src p (i + 1) (to + 1) (from + 1) (omega arith)
        (omega arith) (omega arith) h.2)

pub my_strcpy-write_str :
    (dst : Bytes) (d : ℕ) (src : Bytes) (p : ℕ) (s : List ℕ)
    → length s < text_fuel
    → IsString src p s
    → my_strcpy dst d src p ≡ write_str dst d s
unfolding my_strcpy
my_strcpy-write_str dst d src p s f h =
    strcpy_loop-write_str s text_fuel dst d src p 0 d p (omega arith) (omega arith) f h

-- After `my_strcpy` of a string the target holds that string, and nothing outside of its characters
-- and its terminator has been written.
pub my_strcpy-IsString :
    (dst : Bytes) (d : ℕ) (src : Bytes) (p : ℕ) (s : List ℕ)
    → length s < text_fuel
    → IsString src p s
    → IsString (my_strcpy dst d src p) d s
      × SameOutside d (d + length s + 1) dst (my_strcpy dst d src p)
my_strcpy-IsString dst d src p s f h =
    rw (my_strcpy-write_str dst d src p s f h)
      (IsString-write_str s dst d (IsString-All src p s h), write_str-SameOutside s dst d)

-- A string in front of another is the concatenation of the two.
IsString-append :
    (s t : List ℕ) (m m' : Bytes) (d : ℕ)
    → IsString m d s
    → ((q : ℕ) → q < d + length s → m' q ≡ m q)
    → IsString m' (d + length s) t
    → IsString m' d (s ++ t)
IsString-append [] t m m' d h same k = subst (λ p. IsString m' p t) (omega arith) k
IsString-append (c ∷ s) t m m' d h same k = (
  same d (omega arith) ∙ h.0,
  h.1,
  IsString-append s t m m' (d + 1) h.2 (λ q a. same q (omega arith))
      (subst (λ p. IsString m' p t) (omega arith) k),
)

-- After `my_strcat` of one string to another the target holds their concatenation, and nothing has
-- been written in front of the old terminator or behind the new one.
pub my_strcat-append :
    (dst : Bytes) (d : ℕ) (src : Bytes) (p : ℕ) (s t : List ℕ)
    → length s < text_fuel
    → length t < text_fuel
    → IsString dst d s
    → IsString src p t
    → IsString (my_strcat dst d src p) d (s ++ t)
      × SameOutside (d + length s) (d + length s + length t + 1) dst (my_strcat dst d src p)
unfolding my_strcat
my_strcat-append dst d src p s t fs ft h k =
    let copied =
      strcpy_loop-write_str t text_fuel dst (d + length s) src p 0 (d + length s) p (omega arith)
        (omega arith) ft k in
    let same = write_str-SameOutside t dst (d + length s) in
    rw (my_strlen-length dst d s fs h, copied)
      (
        IsString-append s t dst (write_str dst (d + length s) t) d h (λ q a. same q (inl a))
            (IsString-write_str t dst (d + length s) (IsString-All src p t k)),
        same,
      )
