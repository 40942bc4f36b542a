-- ===== src/Proto/SfString.antt =====
-- src/proto/sf_string.h and sf_string.c: the strings of structured fields. A text is a list of
-- bytes; a cursor `off` into `in` is the text from there on, and a span in `out_buf` is the text
-- that it holds. `room` is `out_cap - *out_off`. The status -2, MALFORMED, is `Status.invalid`.
pub mod Item
pub mod Fields
pub mod Choice
pub mod Write
pub mod Lists
pub mod Shape
mod Tests
use wtquic.Base.{
  ℕ, zero, suc, ◌+◌, ◌-◌, Bool, true, false, not, ◌&&◌, ◌||◌, List, [], ◌∷◌, ◌++◌, Option, some,
  none, ltb, leb, ◌==◌, if◌then◌else◌, length,
}
use wtquic.Proto.Varint.{Status, Result, done, fail, buffer}

infixl 5 ◌>>=◌
abbrev pub ◌>>=◌ : {A B : Type 0} → Result A → (A → Result B) → Result B
done a >>= f = f a
fail s >>= f = fail s

unfoldable pub is_alpha : ℕ → Bool
is_alpha c = (leb 0x61 c && leb c 0x7a) || (leb 0x41 c && leb c 0x5a)

unfoldable pub is_digit : ℕ → Bool
is_digit c = leb 0x30 c && leb c 0x39

-- `strchr(s, c) != NULL`, for a `c` that is not the terminator
unfoldable pub occurs : ℕ → List ℕ → Bool
occurs c [] = false
occurs c (d ∷ s) = (c == d) || occurs c s

-- "!#$%&'*+-.^_`|~"
abbrev pub tchar_marks : List ℕ
tchar_marks =
    0x21 ∷ 0x23 ∷ 0x24 ∷ 0x25 ∷ 0x26 ∷ 0x27 ∷ 0x2a ∷ 0x2b ∷ 0x2d ∷ 0x2e ∷ 0x5e ∷ 0x5f ∷ 0x60 ∷ 0x7c
    ∷ 0x7e ∷ []

unfoldable pub is_tchar : ℕ → Bool
unfolding is_alpha is_digit occurs
is_tchar c = is_alpha c || is_digit c || occurs c tchar_marks

unfoldable pub is_token_char : ℕ → Bool
unfolding is_tchar
is_token_char c = is_tchar c || (c == 0x3a) || (c == 0x2f)

unfoldable pub is_lcalpha : ℕ → Bool
is_lcalpha c = leb 0x61 c && leb c 0x7a

-- `while (i < len && p(in[i])) i++`
unfoldable pub skip_while : (ℕ → Bool) → List ℕ → List ℕ
skip_while p [] = []
skip_while p (c ∷ src) = let rest = skip_while p src in if p c then rest else (c ∷ src)

abbrev pub is_sp : ℕ → Bool
is_sp c = c == 0x20

abbrev pub is_ows : ℕ → Bool
is_ows c = (c == 0x20) || (c == 0x09)

unfoldable pub skip_sp : List ℕ → List ℕ
unfolding skip_while
skip_sp src = skip_while is_sp src

unfoldable pub skip_ows : List ℕ → List ℕ
unfolding skip_while
skip_ows src = skip_while is_ows src

unfoldable pub is_base64_char : ℕ → Bool
unfolding is_alpha is_digit
is_base64_char c = is_alpha c || is_digit c || (c == 0x2b) || (c == 0x2f) || (c == 0x3d)

-- `u < 0x20 || u > 0x7e`
abbrev pub unprintable : ℕ → Bool
unprintable c = ltb c 0x20 || ltb 0x7e c

abbrev pub is_special : ℕ → Bool
is_special c = (c == 0x22) || (c == 0x5c)

unfoldable pub string_valid : List ℕ → Bool
string_valid [] = true
string_valid (c ∷ s) = let rest = string_valid s in if unprintable c then false else rest

-- The store of one byte of output in front of what the rest of the loop stores.
abbrev pub store : ℕ → ℕ → Result (List ℕ × List ℕ) → Result (List ℕ × List ℕ)
store c zero rest = fail buffer
store c (suc room) rest = rest >>= λ (out, src). done (c ∷ out, src)

-- The loop of `parse_string`, behind the opening quote: the string, and the text behind the
-- closing quote. The source takes both bytes of an escape in one round; here the backslash is a
-- round of its own, and `escaped` tells the next one of it.
unfoldable pub string_loop : Bool → List ℕ → ℕ → Result (List ℕ × List ℕ)
string_loop escaped [] room = fail Status.invalid
string_loop escaped (c ∷ src) room =
    let opens = not escaped && (c == 0x5c) in
    let rest = string_loop opens src (if opens then room else room - 1) in
    if escaped
    then (if is_special c then store c room rest else fail Status.invalid)
    else if c == 0x22
    then done ([], src)
    else if c == 0x5c
    then rest
    else if unprintable c
    then fail Status.invalid
    else store c room rest

unfoldable pub parse_string : List ℕ → ℕ → Result (List ℕ × List ℕ)
unfolding string_loop
parse_string [] room = fail Status.invalid
parse_string (c ∷ src) room =
    if not (c == 0x22) then fail Status.invalid else string_loop false src room

unfoldable pub token_loop : List ℕ → ℕ → Result (List ℕ × List ℕ)
unfolding is_token_char
token_loop [] room = done ([], [])
token_loop (c ∷ src) room =
    let rest = token_loop src (room - 1) in
    if is_token_char c then store c room rest else done ([], c ∷ src)

unfoldable pub parse_token_lenient : List ℕ → ℕ → Result (List ℕ × List ℕ)
unfolding token_loop
parse_token_lenient [] room = fail Status.invalid
parse_token_lenient (c ∷ src) room =
    if not (is_alpha c || (c == 0x2a)) then fail Status.invalid else token_loop (c ∷ src) room
