-- ===== src/Text.antt =====
-- The functions of libs/string.c on byte arrays: a `char *` is an array and an index into it. An
-- index counts up from 0 and stays far below 2^31, so it is a plain number. A loop that looks for
-- the terminator reads at most `text_fuel` bytes, more than any object of the program has.
pub mod Strings
pub mod Copy
pub mod Compare
pub mod Tokenize
pub mod Chars
pub mod Backwards
pub mod Decimal
pub mod Numbers
pub mod Parsed
pub mod Trim
pub mod Words
mod Examples
use mineos.Base.{
  ℕ, zero, suc, ◌+◌, ◌-◌, ◌*◌, ℤ, pos, pos_part, Bool, true, false, not, ◌&&◌, ◌||◌, if◌then◌else◌,
  ltb, leb, ◌==◌, eqb_ℤ, ltb_ℤ, Option, none, some, sub_ℕ, List, [], ◌∷◌,
}
use mineos.Math.{my_add, my_sub, my_mul, my_div, my_mod, my_abs}
use mineos.Bytes.{Bytes, put}

abbrev pub text_fuel : ℕ
text_fuel = 10 * 1024 * 1024

unfoldable pub strlen_loop : ℕ → Bytes → ℕ → ℕ → ℕ
strlen_loop zero s p len = len
strlen_loop (suc fuel) s p len =
    let rest = strlen_loop fuel s p (len + 1) in if s (p + len) == 0 then len else rest

unfoldable pub my_strlen : Bytes → ℕ → ℕ
my_strlen s p = strlen_loop text_fuel s p 0

-- `dst` and `src` are different objects in every call of the program.
unfoldable pub strcpy_loop : ℕ → Bytes → ℕ → Bytes → ℕ → ℕ → Bytes
strcpy_loop zero dst d src s i = dst
strcpy_loop (suc fuel) dst d src s i =
    let rest = strcpy_loop fuel (put dst (d + i) (src (s + i))) d src s (i + 1) in
    if src (s + i) == 0 then put dst (d + i) 0 else rest

unfoldable pub my_strcpy : Bytes → ℕ → Bytes → ℕ → Bytes
my_strcpy dst d src s = strcpy_loop text_fuel dst d src s 0

-- The value of a `char`, which is signed.
unfoldable pub char_value : ℕ → ℤ
char_value c = if ltb c 128 then pos c else sub_ℕ c 256

unfoldable pub strcmp_loop : ℕ → Bytes → ℕ → Bytes → ℕ → ℕ → ℤ
strcmp_loop zero a p b q i = my_sub (char_value (a (p + i))) (char_value (b (q + i)))
strcmp_loop (suc fuel) a p b q i =
    let difference = my_sub (char_value (a (p + i))) (char_value (b (q + i))) in
    let rest = strcmp_loop fuel a p b q (i + 1) in
    if not (a (p + i) == 0) && not (b (q + i) == 0)
    then if a (p + i) == b (q + i) then rest else difference
    else difference

unfoldable pub my_strcmp : Bytes → ℕ → Bytes → ℕ → ℤ
my_strcmp a p b q = strcmp_loop text_fuel a p b q 0

unfoldable pub my_strcat : Bytes → ℕ → Bytes → ℕ → Bytes
my_strcat dst d src s = strcpy_loop text_fuel dst (d + my_strlen dst d) src s 0

-- The index of the character, or NULL.
unfoldable pub strchr_loop : ℕ → Bytes → ℕ → ℕ → ℕ → Option ℕ
strchr_loop zero s p c i = none
strchr_loop (suc fuel) s p c i =
    let rest = strchr_loop fuel s p c (i + 1) in
    if s (p + i) == 0
    then if c == 0 then some (p + i) else none
    else if s (p + i) == c
    then some (p + i)
    else rest

unfoldable pub my_strchr : Bytes → ℕ → ℕ → Option ℕ
my_strchr s p c = strchr_loop text_fuel s p c 0

-- The variables of `my_tokenize`: `tokens` holds indices into `input`.
pub record Tokens : Type 0 where
  pub input : Bytes
  pub tokens : ℕ → ℕ
  pub count : ℕ
  pub in_token : Bool

-- One round: the character at `i`.
unfoldable pub token_step : ℕ → ℕ → Tokens → Tokens
token_step delim i t =
    if t.input i == delim
    then record t { input = put t.input i 0; in_token = false }
    else if not t.in_token
    then record t {
      tokens = λ k. if k == t.count then i else t.tokens k;
      count = t.count + 1;
      in_token = true;
    }
    else t

-- The rounds that are left from index `i`.
unfoldable pub tokenize_loop : ℕ → ℕ → ℕ → Tokens → Tokens
tokenize_loop zero delim i t = t
tokenize_loop (suc n) delim i t = tokenize_loop n delim (i + 1) (token_step delim i t)

unfoldable pub my_tokenize : Bytes → (ℕ → ℕ) → ℕ → Tokens
my_tokenize input tokens delim =
    tokenize_loop (my_strlen input 0) delim 0
      (record { input = input; tokens = tokens; count = 0; in_token = false })

-- The digits of `n`, the last first, from index `i` of `buf` on; the buffer and the index behind.
unfoldable pub digits_loop : ℕ → ℤ → Bytes → ℕ → Bytes × ℕ
digits_loop zero n buf i = (buf, i)
digits_loop (suc fuel) n buf i =
    let digit = my_mod n (pos 10) in
    let rest =
      digits_loop fuel (my_div n (pos 10)) (put buf i (pos_part (my_add digit (pos b'0'))))
        (i + 1) in
    if ltb_ℤ (pos 0) n then rest else (buf, i)

-- Swaps the characters at `j` and `i`, and goes on inwards.
unfoldable pub reverse_loop : ℕ → Bytes → ℕ → ℕ → Bytes
reverse_loop zero buf j i = buf
reverse_loop (suc fuel) buf j i =
    let temp = buf j in
    let rest = reverse_loop fuel (put (put buf j (buf i)) i temp) (j + 1) (i - 1) in
    if ltb j i then rest else buf

-- An `int` has at most ten digits.
abbrev pub digit_fuel : ℕ
digit_fuel = 32

-- `i - 1` is computed at 0 < i only: a digit or a sign has been written.
unfoldable pub my_int_to_str : ℤ → Bytes → Bytes
my_int_to_str n buf =
    let is_negative = ltb_ℤ n (pos 0) in
    let (buf1, i1) = digits_loop digit_fuel (if is_negative then my_abs n else n) buf 0 in
    let buf2 = if is_negative then put buf1 i1 b'-' else buf1 in
    let i2 = if is_negative then i1 + 1 else i1 in
    if eqb_ℤ n (pos 0) then put (put buf 0 b'0') 1 0 else reverse_loop i2 (put buf2 i2 0) 0 (i2 - 1)

unfoldable pub skip_blanks : ℕ → Bytes → ℕ → ℕ
skip_blanks zero s i = i
skip_blanks (suc fuel) s i =
    let rest = skip_blanks fuel s (i + 1) in if s i == b' ' || s i == 9 then rest else i

unfoldable pub read_digits : ℕ → Bytes → ℕ → ℤ → ℤ
read_digits zero s i result = result
read_digits (suc fuel) s i result =
    let rest =
      read_digits fuel s (i + 1)
        (my_add (my_mul result (pos 10)) (my_sub (pos (s i)) (pos b'0'))) in
    if leb b'0' (s i) && leb (s i) b'9' then rest else result

unfoldable pub my_str_to_int : Bytes → ℕ → ℤ
my_str_to_int s p =
    let i = skip_blanks text_fuel s p in
    if s i == b'-'
    then my_sub (pos 0) (read_digits text_fuel s (i + 1) (pos 0))
    else if s i == b'+'
    then read_digits text_fuel s (i + 1) (pos 0)
    else read_digits text_fuel s i (pos 0)

unfoldable pub is_blank : ℕ → Bool
is_blank c = c == b' ' || c == 9 || c == 10 || c == 13

unfoldable pub trim_start : ℕ → Bytes → ℕ → ℕ
trim_start zero s start = start
trim_start (suc fuel) s start =
    let rest = trim_start fuel s (start + 1) in if is_blank (s start) then rest else start

-- `stop` is `end + 1`, since `end` may fall to `start - 1`.
unfoldable pub trim_stop : ℕ → Bytes → ℕ → ℕ → ℕ
trim_stop zero s start stop = stop
trim_stop (suc fuel) s start stop =
    let rest = trim_stop fuel s start (stop - 1) in
    if ltb start stop && is_blank (s (stop - 1)) then rest else stop

-- The rounds that are left of the loop that moves the content to the front.
unfoldable pub shift_loop : ℕ → Bytes → ℕ → ℕ → Bytes
shift_loop zero s start i = put s i 0
shift_loop (suc n) s start i = shift_loop n (put s i (s (start + i))) start (i + 1)

unfoldable pub my_str_trim : Bytes → Bytes
my_str_trim s =
    let len = my_strlen s 0 in
    let start = trim_start text_fuel s 0 in
    let stop = trim_stop len s start len in
    if len == 0
    then s
    else if ltb 0 start
    then shift_loop (stop - start) s start 0
    else put s stop 0

-- The bytes that printf("%s", …) prints of the string at `p`.
unfoldable pub str_at : ℕ → Bytes → ℕ → List ℕ
str_at zero m p = []
str_at (suc fuel) m p = let rest = str_at fuel m (p + 1) in if m p == 0 then [] else m p ∷ rest

-- A local array before it is written.
abbrev pub unset : Bytes
unset q = 0
