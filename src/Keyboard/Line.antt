-- ===== src/Keyboard/Line.antt =====
-- `read_line` (libs/keyboard.c) against the line that the keys spell.
use mineos.Base.{
  ℕ, ◌+◌, ◌-◌, ◌≤◌, ◌<◌, ◌≡◌, refl, subst, ◌∙◌, inl, inr, arith, ◌^◌, Bool-cases, true, false,
  if◌then◌else◌, ltb, Option, some, List, [], ◌∷◌, ◌++◌, length, All, pos, ◌&&◌,
}
use mineos.Math.Bounds.{my_sub-pos}
use mineos.Bytes.{Bytes, put}
use mineos.Bytes.Outside.{SameOutside, put_other}
use mineos.Machine.{Machine, text}
use mineos.Screen.{emit}
use mineos.Text.Strings.{IsChar, IsString}
use mineos.Text.Backwards.{onto, Holds, Holds-IsString, put_same}
use mineos.Keyboard.{is_enter, is_backspace, is_printable, Line, read_loop, read_line}

abbrev tail : List ℕ → List ℕ
tail [] = []
tail (c ∷ line) = line

-- The line after one key, last character first.
abbrev pub press : ℕ → ℕ → List ℕ → List ℕ
press limit c line =
    if is_backspace c
    then tail line
    else if is_printable c && ltb (length line) limit
    then c ∷ line
    else line

-- The line after some keys, last character first.
abbrev pub press_all : ℕ → List ℕ → List ℕ → List ℕ
press_all limit [] line = line
press_all limit (c ∷ keys) line = press_all limit keys (press limit c line)

Holds-put :
    (m : Bytes) (line : List ℕ) (q c : ℕ) → length line ≤ q → Holds m line → Holds (put m q c) line
Holds-put m [] q c h held = tt
Holds-put m (d ∷ line) q c h held = (
  put_other m q c (length line) (omega arith) ∙ held.0,
  held.1,
  Holds-put m line q c (omega arith) held.2,
)

-- The loop has read the line: it is in the buffer, and the writes keep to the buffer's `limit + 1`
-- bytes.
pub record HasRead (buf : Bytes) (limit : ℕ) (line rest : List ℕ) (r : Line) : Type 0 where
  pub content : IsString r.0 0 (onto line [])
  pub short : length line ≤ limit
  pub same : SameOutside 0 (limit + 1) buf r.0
  pub left : r.2 ≡ rest

-- The loop returns, with that.
abbrev pub Returns : Bytes → ℕ → List ℕ → List ℕ → Option Line → Type 0
Returns buf limit line rest o = (r : Line) × (o ≡ some r) × HasRead buf limit line rest r

Returns-later :
    (buf buf' : Bytes) (limit : ℕ) (line rest : List ℕ) (o : Option Line)
    → SameOutside 0 (limit + 1) buf buf'
    → Returns buf' limit line rest o
    → Returns buf limit line rest o
Returns-later buf buf' limit line rest o same (r, e, h) = (
  r,
  e,
  record {
    content = h.content;
    short = h.short;
    same = λ q out. h.same q out ∙ same q out;
    left = h.left;
  },
)

tail-length : (line : List ℕ) → length (tail line) ≡ length line - 1
tail-length [] = refl
tail-length (c ∷ line) = omega arith

Holds-tail : (m : Bytes) (line : List ℕ) → Holds m line → Holds m (tail line)
Holds-tail m [] h = tt
Holds-tail m (c ∷ line) h = h.2

tail-empty : (line : List ℕ) → ltb 0 (length line) ≡ false → tail line ≡ line
tail-empty [] e = refl
tail-empty (c ∷ line) e = absurd (ground arith)

printable-IsChar : (c : ℕ) → is_printable c ≡ true → IsChar c
unfolding is_printable
printable-IsChar c e = ground arith

module _ (limit enter : ℕ) (rest : List ℕ) (ends : is_enter enter ≡ true) where
  read_loop-press_all :
      (keys : List ℕ) (p : ℕ) (line : List ℕ) (buf : Bytes) (k : Machine)
      → All (λ c. is_enter c ≡ false) keys
      → p ≡ length line
      → length line ≤ limit
      → Holds buf line
      → Returns buf limit
          (press_all limit keys line)
          rest
          (read_loop (keys ++ enter ∷ rest) limit p buf k)
  unfolding read_loop
  read_loop-press_all [] p line buf k none_enters e short held =
      rw (ends, e)
        (
          (put buf (length line) 0, emit (text "\n" ∷ []) k, rest),
          refl,
          record {
            content =
                Holds-IsString (put buf (length line) 0) line []
                  (Holds-put buf line (length line) 0 (omega arith) held)
                  (put_same buf (length line) 0 (omega arith));
            short = short;
            same = λ q out. put_other buf (length line) 0 q (omega arith);
            left = refl;
          },
        )
  read_loop-press_all (c ∷ keys) p line buf k (not_enter, none_enters) e short held =
      let go = λ (p : ℕ) (line : List ℕ) (buf : Bytes) (k : Machine).
        read_loop-press_all keys p line buf k none_enters in
      rw not_enter (elim (Bool-cases (is_backspace c)) [
        | inl back ↦ elim (Bool-cases (ltb 0 p)) [
          | inl some_left ↦
              rw (back, some_left)
                (go (p - 1) (tail line) buf _ (omega (arith, tail-length line))
                  (omega (arith, tail-length line)) (Holds-tail buf line held))
          | inr none_left ↦
              rw (back, none_left, tail-empty line (rw e at none_left))
                (go p line buf k e short held)
        ]
        | inr other ↦ elim (Bool-cases (is_printable c)) [
          | inl shown ↦ elim (Bool-cases (ltb p limit)) [
            | inl room ↦
                rw (other, shown, room, ← e, room)
                  (Returns-later buf (put buf p c) limit _ rest _
                    (λ q out. put_other buf p c q (ground arith))
                    (go (p + 1) (c ∷ line) (put buf p c) _ (omega arith) (ground arith)
                      (typed_Holds p line buf c e shown held)))
            | inr full ↦ rw (other, shown, full, ← e, full) (go p line buf k e short held)
          ]
          | inr hidden ↦ rw (other, hidden) (go p line buf k e short held)
        ]
      ])
    where
      typed_Holds :
          (p : ℕ) (line : List ℕ) (buf : Bytes) (c : ℕ)
          → p ≡ length line
          → is_printable c ≡ true
          → Holds buf line
          → Holds (put buf p c) (c ∷ line)
      typed_Holds p line buf c e shown held =
          let char = printable-IsChar c shown in
          (
            subst (λ q. put buf p c q ≡ c) e (put_same buf p c (omega arith)),
            char,
            Holds-put buf line p c (omega arith) held,
          )

-- On keys of which the first Enter stands behind `keys`, `read_line` returns: the buffer holds the
-- line that `keys` spell, where a backspace takes the last character away, a printable key adds one
-- while there are fewer than `limit`, and other keys do nothing; only the first `limit + 1` bytes of
-- the buffer, the size that the caller gives, have been written; and the keys behind the Enter are
-- left.
pub read_line-press_all :
    (keys : List ℕ) (limit enter : ℕ) (rest : List ℕ) (buf : Bytes) (k : Machine)
    → limit < 2 ^ 31 - 1
    → All (λ c. is_enter c ≡ false) keys
    → is_enter enter ≡ true
    → Returns buf limit
        (press_all limit keys [])
        rest
        (read_line (keys ++ enter ∷ rest) (pos (limit + 1)) buf k)
unfolding read_line
read_line-press_all keys limit enter rest buf k bound none_enters ends =
    rw (my_sub-pos (limit + 1) 1 (omega arith) (omega arith), plus_minus limit)
      (read_loop-press_all limit enter rest ends keys 0 [] buf k none_enters refl (omega arith) tt)
  where
    plus_minus : (n : ℕ) → n + 1 - 1 ≡ n
    plus_minus n = omega arith
