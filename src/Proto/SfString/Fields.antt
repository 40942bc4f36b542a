-- ===== src/Proto/SfString/Fields.antt =====
-- The members of a field in src/proto/sf_string.c: the parameters that are skipped, and the
-- parsers of an item and of a list.
use wtquic.Base.{
  ℕ, zero, suc, ◌-◌, Bool, true, false, not, ◌&&◌, ◌||◌, List, [], ◌∷◌, ltb, ◌==◌, if◌then◌else◌,
  length,
}
use wtquic.Proto.Varint.{Status, Result, done, fail, buffer}
use wtquic.Proto.SfString.{
  ◌>>=◌, is_alpha, is_digit, is_lcalpha, is_token_char, is_base64_char, is_special, unprintable,
  is_sp, skip_while, skip_sp, skip_ows, parse_string, parse_token_lenient,
}

-- The string of `skip_bare_item`, behind its opening quote; `escaped` as in `string_loop`.
unfoldable pub skip_quoted : Bool → List ℕ → Result (List ℕ)
skip_quoted escaped [] = fail Status.invalid
skip_quoted escaped (c ∷ src) =
    let rest = skip_quoted (not escaped && (c == 0x5c)) src in
    if escaped
    then (if is_special c then rest else fail Status.invalid)
    else if c == 0x5c
    then rest
    else if c == 0x22
    then done src
    else if unprintable c
    then fail Status.invalid
    else rest

-- A byte sequence, behind its content.
unfoldable pub skip_colon : List ℕ → Result (List ℕ)
skip_colon [] = fail Status.invalid
skip_colon (c ∷ src) = if not (c == 0x3a) then fail Status.invalid else done src

unfoldable pub skip_boolean : List ℕ → Result (List ℕ)
skip_boolean [] = fail Status.invalid
skip_boolean (c ∷ src) =
    if not (c == 0x30) && not (c == 0x31) then fail Status.invalid else done src

unfoldable pub digits_len : List ℕ → ℕ
unfolding is_digit
digits_len [] = 0
digits_len (c ∷ src) = let rest = digits_len src in if is_digit c then suc rest else 0

-- The number from behind its integer digits.
unfoldable pub skip_fraction : ℕ → List ℕ → Result (List ℕ)
unfolding digits_len skip_while
skip_fraction int_digits [] = if ltb 15 int_digits then fail Status.invalid else done []
skip_fraction int_digits (c ∷ src) =
    if c == 0x2e
    then (if ltb 12 int_digits
        then fail Status.invalid
        else if (digits_len src == 0) || ltb 3 (digits_len src)
        then fail Status.invalid
        else done (skip_while is_digit src))
    else if ltb 15 int_digits
    then fail Status.invalid
    else done (c ∷ src)

-- The number from behind its sign.
unfoldable pub skip_number : List ℕ → Result (List ℕ)
unfolding skip_fraction
skip_number src =
    if digits_len src == 0
    then fail Status.invalid
    else skip_fraction (digits_len src) (skip_while is_digit src)

unfoldable pub skip_bare_item : List ℕ → Result (List ℕ)
unfolding skip_quoted skip_colon skip_boolean skip_number is_base64_char is_token_char
skip_bare_item [] = fail Status.invalid
skip_bare_item (c ∷ src) =
    if c == 0x22
    then skip_quoted false src
    else if c == 0x3a
    then skip_colon (skip_while is_base64_char src)
    else if c == 0x3f
    then skip_boolean src
    else if (c == 0x2d) || is_digit c
    then skip_number (if c == 0x2d then src else (c ∷ src))
    else if is_alpha c || (c == 0x2a)
    then done (skip_while is_token_char src)
    else fail Status.invalid

-- What may stand in a key behind its first byte.
unfoldable pub is_key_char : ℕ → Bool
unfolding is_lcalpha is_digit
is_key_char c =
    is_lcalpha c || is_digit c || (c == 0x5f) || (c == 0x2d) || (c == 0x2e) || (c == 0x2a)

-- The optional value of a parameter, behind its key.
unfoldable pub skip_value : List ℕ → Result (List ℕ)
unfolding skip_bare_item
skip_value [] = done []
skip_value (c ∷ src) = if c == 0x3d then skip_bare_item src else done (c ∷ src)

unfoldable pub skip_key : List ℕ → Result (List ℕ)
unfolding skip_value is_key_char
skip_key [] = fail Status.invalid
skip_key (c ∷ src) =
    if not (is_lcalpha c || (c == 0x2a))
    then fail Status.invalid
    else skip_value (skip_while is_key_char src)

-- The loop of `skip_params`. A round takes a byte at least; `Status.range` is no status of these
-- functions: the fuel ran out.
unfoldable pub params_loop : ℕ → List ℕ → Result (List ℕ)
unfolding skip_key
params_loop fuel [] = done []
params_loop zero (c ∷ src) = fail Status.range
params_loop (suc fuel) (c ∷ src) =
    if c == 0x3b
    then skip_key (skip_while is_sp src) >>= (λ rest. params_loop fuel rest)
    else done (c ∷ src)

unfoldable pub skip_params : List ℕ → Result (List ℕ)
unfolding params_loop
skip_params src = params_loop (length src) src

-- The string or token of a member.
unfoldable pub member_text : Bool → List ℕ → ℕ → Result (List ℕ × List ℕ)
unfolding parse_string parse_token_lenient
member_text lenient [] room = if lenient then parse_token_lenient [] room else fail Status.invalid
member_text lenient (c ∷ src) room =
    if c == 0x28
    then fail Status.invalid
    else if c == 0x22
    then parse_string (c ∷ src) room
    else if lenient
    then parse_token_lenient (c ∷ src) room
    else fail Status.invalid

unfoldable pub parse_member : Bool → List ℕ → ℕ → Result (List ℕ × List ℕ)
unfolding member_text skip_params
parse_member lenient src room = do
  (out, rest) ← member_text lenient src room
  rest' ← skip_params rest
  done (out, rest')

-- `if (off != len) return WTQ_SF_MALFORMED;`
abbrev pub at_end : List ℕ → List ℕ → Result (List ℕ)
at_end out [] = done out
at_end out (c ∷ rest) = fail Status.invalid

unfoldable pub parse_item : List ℕ → Bool → ℕ → Result (List ℕ)
unfolding parse_member skip_sp
parse_item src lenient out_cap = do
  (out, rest) ← parse_member lenient (skip_sp src) out_cap
  at_end out (skip_sp rest)

-- The loop of `parse_list`, with `slots` members left. A round takes a byte at least.
unfoldable pub list_loop : ℕ → Bool → List ℕ → ℕ → ℕ → Result (List (List ℕ))
unfolding parse_member skip_ows
list_loop fuel lenient [] room slots = done []
list_loop zero lenient (c ∷ src) room slots = fail Status.range
list_loop (suc fuel) lenient (c ∷ src) room slots = do
  (v, rest) ← parse_member lenient (c ∷ src) room
  if slots == 0 then fail buffer else elim (skip_ows rest) [
    | [] ↦ done (v ∷ [])
    | d ∷ tail ↦ elim (d == 0x2c) [
      | false ↦ fail Status.invalid
      | true ↦ elim (skip_ows tail) [
        | [] ↦ fail Status.invalid
        | e ∷ next ↦
            list_loop fuel lenient (e ∷ next) (room - length v) (slots - 1)
            >>= (λ vs. done (v ∷ vs))
      ]
    ]
  ]

unfoldable pub parse_list : List ℕ → Bool → ℕ → ℕ → Result (List (List ℕ))
unfolding list_loop
parse_list src lenient out_cap max_members =
    list_loop (length src) lenient (skip_sp src) out_cap max_members
