-- ===== src/Text/Examples.antt =====
-- libs/string.c at concrete inputs.
use mineos.Base.{
  ℕ, ◌≤◌, ◌<◌, ◌≡◌, refl, arith, false, List, [], ◌∷◌, length, codes, negsuc, ◌+ℤ◌, ◌-ℤ◌, ◌*ℤ◌, ◌⊎◌,
}
use mineos.Math.{my_add, my_sub, my_mul, my_div, my_mod, my_abs, wrap}
use mineos.Bytes.{put, object}
use mineos.Text.{
  token_step, tokenize_loop, my_tokenize, my_strlen, strlen_loop, my_strcpy, my_strcat,
  my_int_to_str, digits_loop, reverse_loop, my_str_to_int, skip_blanks, read_digits, my_str_trim,
  trim_start, trim_stop, shift_loop, is_blank, str_at, unset,
}
use mineos.Text.Strings.{IsString, my_strlen-length}
use mineos.Text.Trim.{Trimmed, my_str_trim-Trimmed}
use mineos.Text.Copy.{my_strcpy-IsString, my_strcat-append}
use mineos.Text.Decimal.{decimal, backward_digits}
use mineos.Text.Numbers.{Prints, my_int_to_str-decimal}
use mineos.Text.Parsed.{str_to_int-int_to_str}
use mineos.Text.Tokenize.{words, word, AreTokens, my_tokenize-words}

abbrev line : List ℕ
line = codes "mkdir  a"

line_held : IsString (object line) 0 line
unfolding object
line_held = ground arith

words_run : words b' ' false line ≡ codes "mkdir" ∷ codes "a" ∷ []
unfolding words word
words_run = refl

tokens_run : (my_tokenize (object line) unset b' ').tokens 1 ≡ 7
unfolding my_tokenize tokenize_loop token_step my_strlen strlen_loop object put
tokens_run = refl

-- The least `int` is printed as a lone sign.
numbers_run :
    (str_at 20 (my_int_to_str (negsuc 119) unset) 0 ≡ codes "-120")
    × (str_at 20 (my_int_to_str (negsuc 2147483647) unset) 0 ≡ codes "-")
    × (my_str_to_int (object (codes " -120x")) 0 ≡ negsuc 119)
unfolding my_int_to_str digits_loop reverse_loop my_str_to_int skip_blanks read_digits my_add my_sub
    my_mul my_div my_mod my_abs wrap ◌+ℤ◌ ◌-ℤ◌ ◌*ℤ◌ str_at put object
numbers_run = (refl, refl, refl)

trim_runs :
    (str_at 20 (my_str_trim (object (codes "  ab c "))) 0 ≡ codes "ab c")
    × (str_at 20 (my_str_trim (object (codes "   "))) 0 ≡ [])
unfolding my_str_trim trim_start trim_stop shift_loop is_blank my_strlen strlen_loop str_at put
    object
trim_runs = (refl, refl)

my_strlen-length_example : my_strlen (object line) 0 ≡ 8
my_strlen-length_example = my_strlen-length (object line) 0 line (omega arith) line_held

my_strcpy-IsString_example :
    IsString (my_strcpy unset 4 (object line) 0) 4 line
    × ((q : ℕ) → (q < 4) ⊎ (13 ≤ q) → my_strcpy unset 4 (object line) 0 q ≡ 0)
my_strcpy-IsString_example = my_strcpy-IsString unset 4 (object line) 0 line (omega arith) line_held

my_strcat-append_example :
    IsString (my_strcat (object line) 0 (object line) 0) 0 (codes "mkdir  amkdir  a")
    × ((q : ℕ) → (q < 8) ⊎ (17 ≤ q) → my_strcat (object line) 0 (object line) 0 q ≡ object line q)
my_strcat-append_example =
    my_strcat-append (object line) 0 (object line) 0 line line (omega arith) (omega arith) line_held
      line_held

my_tokenize-words_example :
    ((my_tokenize (object line) unset b' ').count ≡ length (words b' ' false line))
    × AreTokens
        (my_tokenize (object line) unset b' ').input
        (my_tokenize (object line) unset b' ').tokens
        0
        (words b' ' false line)
my_tokenize-words_example = my_tokenize-words (object line) unset b' ' line (omega arith) line_held

abbrev padded : List ℕ
padded = codes "  ls "

padded_held : IsString (object padded) 0 padded
unfolding object
padded_held = ground arith

my_str_trim-Trimmed_example : Trimmed (object padded) (length padded) (my_str_trim (object padded))
my_str_trim-Trimmed_example = my_str_trim-Trimmed (object padded) padded (omega arith) padded_held

my_int_to_str-decimal_example :
    Prints unset (decimal (negsuc 119)) (my_int_to_str (negsuc 119) unset)
    × (length (decimal (negsuc 119)) ≤ 11)
my_int_to_str-decimal_example = my_int_to_str-decimal (negsuc 119) unset (omega arith) (omega arith)

decimal_run : decimal (negsuc 119) ≡ codes "-120"
unfolding decimal backward_digits
decimal_run = refl

str_to_int-int_to_str_example : my_str_to_int (my_int_to_str (negsuc 119) unset) 0 ≡ negsuc 119
str_to_int-int_to_str_example = str_to_int-int_to_str (negsuc 119) unset (omega arith) (omega arith)
