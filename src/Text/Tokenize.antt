-- ===== src/Text/Tokenize.antt =====
-- `my_tokenize` (libs/string.c) cuts a line into its words.
use mineos.Base.{
  ℕ, zero, suc, ◌+◌, ◌<◌, ◌≡◌, refl, ◌∙◌, ap, inl, inr, List, [], ◌∷◌, arith, length, Bool, true,
  false, if◌then◌else◌, ◌==◌, Bool-cases,
}
use mineos.Bytes.{Bytes, put}
use mineos.Text.{text_fuel, Tokens, token_step, tokenize_loop, my_tokenize}
use mineos.Text.Strings.{IsChar, IsString, IsString-cong, my_strlen-length}

-- The characters in front of the first delimiter.
unfoldable pub word : ℕ → List ℕ → List ℕ
word d [] = []
word d (c ∷ s) = if c == d then [] else c ∷ word d s

-- The maximal non-empty pieces without a delimiter; `inside` means that the text goes on with the
-- rest of a piece that does not count.
unfoldable pub words : ℕ → Bool → List ℕ → List (List ℕ)
words d inside [] = []
words d inside (c ∷ s) =
    if c == d
    then words d false s
    else if inside
    then words d true s
    else word d (c ∷ s) ∷ words d true s

-- The slots from `k` on point to the words.
abbrev pub AreTokens : Bytes → (ℕ → ℕ) → ℕ → List (List ℕ) → Type 0
AreTokens m tokens k [] = Unit
AreTokens m tokens k (w ∷ ws) = IsString m (tokens k) w × AreTokens m tokens (k + 1) ws

-- What the rounds from index `i` on have done, when `s` stands there.
record Cut (d i : ℕ) (s : List ℕ) (t r : Tokens) : Type 0 where
  count : r.count ≡ t.count + length (words d t.in_token s)
  found : AreTokens r.input r.tokens t.count (words d t.in_token s)
  kept : (k : ℕ) → k < t.count → r.tokens k ≡ t.tokens k
  before : (q : ℕ) → q < i → r.input q ≡ t.input q
  here : IsString r.input i (word d s)

step_delimiter :
    (d i c : ℕ) (t : Tokens)
    → t.input i ≡ c
    → (c == d) ≡ true
    → token_step d i t ≡ record t { input = put t.input i 0; in_token = false }
unfolding token_step
step_delimiter d i c t h e = rw (h, e) refl

step_start :
    (d i c : ℕ) (t : Tokens)
    → t.input i ≡ c
    → (c == d) ≡ false
    → t.in_token ≡ false
    → token_step d i t ≡ record t {
      tokens = λ k. if k == t.count then i else t.tokens k;
      count = t.count + 1;
      in_token = true;
    }
unfolding token_step
step_start d i c t h e b = simp (h, e, b) refl

step_inside :
    (d i c : ℕ) (t : Tokens)
    → t.input i ≡ c
    → (c == d) ≡ false
    → t.in_token ≡ true
    → token_step d i t ≡ t
unfolding token_step
step_inside d i c t h e b = simp (h, e, b) refl

Cut-delimiter :
    (d i c : ℕ) (s : List ℕ) (t r : Tokens)
    → (c == d) ≡ true
    → Cut d (i + 1) s (record t { input = put t.input i 0; in_token = false }) r
    → Cut d i (c ∷ s) t r
unfolding words word put
Cut-delimiter d i c s t r e cut = record {
  count = simp e (cut.count);
  found = simp e (cut.found);
  kept = cut.kept;
  before = λ q h. cut.before q (omega arith) ∙ ground arith;
  here = simp e (cut.before i (omega arith) ∙ ground arith);
}

Cut-start :
    (d i c : ℕ) (s : List ℕ) (t r : Tokens)
    → (c == d) ≡ false
    → t.in_token ≡ false
    → t.input i ≡ c
    → IsChar c
    → Cut d
        (i + 1)
        s
        (record t {
          tokens = λ k. if k == t.count then i else t.tokens k;
          count = t.count + 1;
          in_token = true;
        })
        r
    → Cut d i (c ∷ s) t r
unfolding words word
Cut-start d i c s t r e b h char cut =
    let slot : r.tokens t.count ≡ i = cut.kept t.count (omega arith) ∙ ground arith in
    let first : IsString r.input i (c ∷ word d s) =
      (cut.before i (omega arith) ∙ h, char, cut.here) in
    record {
      count = simp (b, e) (cut.count ∙ omega arith);
      found = simp (b, e) (rw slot first, cut.found);
      kept = λ k l. cut.kept k (omega arith) ∙ ground arith;
      before = λ q l. cut.before q (omega arith);
      here = simp e first;
    }

Cut-inside :
    (d i c : ℕ) (s : List ℕ) (t r : Tokens)
    → (c == d) ≡ false
    → t.in_token ≡ true
    → t.input i ≡ c
    → IsChar c
    → Cut d (i + 1) s t r
    → Cut d i (c ∷ s) t r
unfolding words word
Cut-inside d i c s t r e b h char cut = record {
  count = simp (b, e) (simp b at cut.count);
  found = simp (b, e) (simp b at cut.found);
  kept = cut.kept;
  before = λ q l. cut.before q (omega arith);
  here = simp e (cut.before i (omega arith) ∙ h, char, cut.here);
}

-- One round, by the character that it finds.
Cut-cons :
    (d i c : ℕ) (s : List ℕ) (t r : Tokens)
    → t.input i ≡ c
    → IsChar c
    → Cut d (i + 1) s (token_step d i t) r
    → Cut d i (c ∷ s) t r
Cut-cons d i c s t r h char cut = elim (Bool-cases (c == d)) [
  | inl e ↦ Cut-delimiter d i c s t r e (rw (step_delimiter d i c t h e) at cut)
  | inr e ↦ elim (Bool-cases t.in_token) [
    | inl b ↦ Cut-inside d i c s t r e b h char (rw (step_inside d i c t h e b) at cut)
    | inr b ↦ Cut-start d i c s t r e b h char (rw (step_start d i c t h e b) at cut)
  ]
]

-- A step does not touch the text behind its index.
token_step-behind : (d i q : ℕ) (t : Tokens) → i < q → (token_step d i t).input q ≡ t.input q
unfolding token_step put
token_step-behind d i q t h = ground arith

tokenize_loop-Cut :
    (d : ℕ) (s : List ℕ) (i : ℕ) (t : Tokens)
    → IsString t.input i s
    → Cut d i s t (tokenize_loop (length s) d i t)
unfolding tokenize_loop words word
tokenize_loop-Cut d [] i t h = record {
  count = omega arith;
  found = tt;
  kept = λ k l. refl;
  before = λ q l. refl;
  here = h;
}
tokenize_loop-Cut d (c ∷ s) i t h = Cut-cons d i c s t _ h.0 h.1 (
    tokenize_loop-Cut d s (i + 1) (token_step d i t) (
      IsString-cong t.input (token_step d i t).input (i + 1) s
        (λ q a b. token_step-behind d i q t (omega arith)) h.2))

-- `my_tokenize` of a line finds its words, the maximal pieces without the delimiter: it returns
-- their number, and the slots of `tokens` point, in order, to strings that are these words.
pub my_tokenize-words :
    (input : Bytes) (tokens : ℕ → ℕ) (d : ℕ) (s : List ℕ)
    → length s < text_fuel
    → IsString input 0 s
    → let t = my_tokenize input tokens d in
      (t.count ≡ length (words d false s)) × AreTokens t.input t.tokens 0 (words d false s)
unfolding my_tokenize
my_tokenize-words input tokens d s f h =
    let t : Tokens = record { input = input; tokens = tokens; count = 0; in_token = false } in
    let cut = tokenize_loop-Cut d s 0 t h in
    rw (my_strlen-length input 0 s f h) (cut.count ∙ omega arith, cut.found)

-- `n` words of one letter.
unfoldable pub letters : ℕ → List ℕ
letters zero = []
letters (suc n) = b'a' ∷ b' ' ∷ letters n

letters-words : (n : ℕ) → length (words b' ' false (letters n)) ≡ n
unfolding words letters
letters-words zero = refl
letters-words (suc n) = ap suc (letters-words n)

-- A line of `n` words of one letter fills `n` slots, whatever `n` is: for 16 < n, and n is up to
-- 128 in a line of 255 characters, more than the 16 slots of the `tokens` of the shell.
pub my_tokenize-letters :
    (input : Bytes) (tokens : ℕ → ℕ) (n : ℕ)
    → length (letters n) < text_fuel
    → IsString input 0 (letters n)
    → (my_tokenize input tokens b' ').count ≡ n
my_tokenize-letters input tokens n f h =
    (my_tokenize-words input tokens b' ' (letters n) f h).0 ∙ letters-words n
