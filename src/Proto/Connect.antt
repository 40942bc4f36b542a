-- ===== src/Proto/Connect.antt =====
-- src/proto/connect.c and connect.h: the header fields of the WebTransport CONNECT exchange. Here
-- are the character tests and the rules for every field; the children hold the messages. A span is
-- the list of its bytes; a NULL pointer with length 0 is the empty list, an optional one `none`.
-- Each text constant stands in front of its first use, with its letters as bytes.
pub mod Rules
pub mod Request
pub mod Response
pub mod Encode
pub mod Written
pub mod RoundTrip
pub mod Answer
mod Tests
use wtquic.Base.{
  ◌≡◌, refl, ℕ, zero, suc, ◌+◌, ◌-◌, Bool, true, false, not, ◌&&◌, ◌||◌, List, [], ◌∷◌, Option,
  some, none, ltb, leb, ◌==◌, if◌then◌else◌,
}
use wtquic.Proto.Varint
use wtquic.Proto.Varint.{Result, done, fail}
use wtquic.Proto.SfString.{is_alpha, is_digit, occurs, tchar_marks, is_ows, skip_ows}
use wtquic.Proto.SfString.Write.{text_eq}
use wtquic.Proto.Qpack.Section.{Field, decode_section}

-- The statuses other than OK.
pub data Status : Type 0 where
  buffer malformed no_protocol not_webtransport qpack_failed : Status

-- OK comes with the outputs, any other status leaves them unwritten.
pub data Outcome (A : Type 0) : Type 0 where
  ok : A → Outcome A
  err : Status → Outcome A

infixl 5 ◌>>=◌
abbrev pub ◌>>=◌ : {A B : Type 0} → Outcome A → (A → Outcome B) → Outcome B
ok a >>= f = f a
err s >>= f = err s

pub ok-injective : {A : Type 0} {a b : A} → ok a ≡ ok b → a ≡ b
ok-injective e = cc

-- A chain of steps is OK only when its first step is.
pub >>=_ok :
    {A B : Type 0} (o : Outcome A) (f : A → Outcome B) (b : B)
    → (o >>= f) ≡ ok b
    → (a : A) × (o ≡ ok a) × (f a ≡ ok b)
>>=_ok (ok a) f b e = (a, refl, e)
>>=_ok (err s) f b e = absurd cc

-- A guard that fails ends the function.
pub guard_passed :
    {A : Type 0} (b : Bool) (s : Status) (o : Outcome A) (a : A)
    → (if b then err s else o) ≡ ok a
    → (b ≡ false) × (o ≡ ok a)
guard_passed true s o a e = absurd cc
guard_passed false s o a e = (refl, e)

abbrev pub max_fields : ℕ
max_fields = 32

-- `wtq_connect_opts_t`
pub record Opts : Type 0 where
  pub lenient_sf_tokens : Bool
  pub accept_legacy_protocol : Bool

abbrev pub is_empty : {A : Type 0} → List A → Bool
is_empty [] = true
is_empty (c ∷ s) = false

unfoldable pub name_is : Field → List ℕ → Bool
unfolding text_eq
name_is f lit = text_eq f.name lit

unfoldable pub value_is : Field → List ℕ → Bool
unfolding text_eq
value_is f lit = text_eq f.value lit

unfoldable pub is_token_char : ℕ → Bool
unfolding is_alpha is_digit occurs
is_token_char c = is_alpha c || is_digit c || (not (c == 0) && occurs c tchar_marks)

-- The test of the same name in connect.c, which leaves out uppercase.
unfoldable pub is_tchar : ℕ → Bool
unfolding is_token_char
is_tchar c = not (leb 0x41 c && leb c 0x5a) && is_token_char c

-- `for (...) if (!p(v[i])) return false; return true;`
unfoldable pub every : (ℕ → Bool) → List ℕ → Bool
every p [] = true
every p (c ∷ s) = let rest = every p s in if p c then rest else false

unfoldable pub value_is_token : List ℕ → Bool
unfolding every is_token_char
value_is_token v = if is_empty v then false else every is_token_char v

-- What may stand in a scheme behind its first letter.
unfoldable pub is_scheme_char : ℕ → Bool
unfolding is_alpha is_digit
is_scheme_char c = is_alpha c || is_digit c || (c == 0x2b) || (c == 0x2d) || (c == 0x2e)

unfoldable pub scheme_is_valid : List ℕ → Bool
unfolding every is_scheme_char
scheme_is_valid [] = false
scheme_is_valid (c ∷ v) = if not (is_alpha c) then false else every is_scheme_char v

unfoldable pub ascii_lower : ℕ → ℕ
ascii_lower c = if leb 0x41 c && leb c 0x5a then c + 0x20 else c

unfoldable pub span_ieq : List ℕ → List ℕ → Bool
unfolding ascii_lower
span_ieq [] [] = true
span_ieq [] (d ∷ b) = false
span_ieq (c ∷ a) [] = false
span_ieq (c ∷ a) (d ∷ b) =
    let rest = span_ieq a b in if not (ascii_lower c == ascii_lower d) then false else rest

unfoldable pub scheme_ieq : Field → List ℕ → Bool
unfolding span_ieq
scheme_ieq f lit = span_ieq f.value lit

-- The members of a list that its commas separate. A comma at the end opens an empty member here
-- and none in the source; empty members are ignored.
unfoldable pub comma_members : List ℕ → List (List ℕ)
comma_members [] = [] ∷ []
comma_members (c ∷ s) = if c == 0x2c then ([] ∷ comma_members s) else with_head c (comma_members s)
  where
    with_head : ℕ → List (List ℕ) → List (List ℕ)
    with_head c [] = (c ∷ []) ∷ []
    with_head c (m ∷ ms) = (c ∷ m) ∷ ms

-- `while (end > start && ...) end--`
unfoldable pub trim_end : List ℕ → List ℕ
trim_end [] = []
trim_end (c ∷ s) = let rest = trim_end s in if is_empty rest && is_ows c then [] else (c ∷ rest)

abbrev pub trailers : List ℕ
trailers = 0x74 ∷ 0x72 ∷ 0x61 ∷ 0x69 ∷ 0x6c ∷ 0x65 ∷ 0x72 ∷ 0x73 ∷ []

-- The loop over the members.
unfoldable pub te_loop : Bool → List (List ℕ) → Bool
unfolding trim_end skip_ows span_ieq
te_loop seen [] = seen
te_loop seen (m ∷ ms) =
    let member = trim_end (skip_ows m) in
    let rest = te_loop (seen || not (is_empty member)) ms in
    if is_empty member then rest else if not (span_ieq member trailers) then false else rest

unfoldable pub te_is_trailers : Field → Bool
unfolding te_loop comma_members
te_is_trailers f = te_loop false (comma_members f.value)

-- The loop over a value; `first` says that the index is 0.
unfoldable pub value_loop : Bool → List ℕ → Bool
value_loop first [] = true
value_loop first (c ∷ s) =
    let rest = value_loop false s in
    if (c == 0x20) || (c == 0x09)
    then (if first || is_empty s then false else rest)
    else if ltb c 0x21 || (c == 0x7f)
    then false
    else rest

unfoldable pub value_is_valid : List ℕ → Bool
unfolding value_loop
value_is_valid v = value_loop true v

-- The name from its first byte on.
unfoldable pub name_chars : List ℕ → Bool
unfolding every is_tchar
name_chars [] = false
name_chars (c ∷ s) =
    if c == 0x3a then (if is_empty s then false else every is_tchar s) else every is_tchar (c ∷ s)

unfoldable pub name_is_valid : Field → Bool
unfolding name_chars
name_is_valid f = name_chars f.name

-- `name[0] == ':'`
abbrev pub colon_first : List ℕ → Bool
colon_first [] = false
colon_first (c ∷ s) = c == 0x3a

unfoldable pub is_pseudo : Field → Bool
is_pseudo f = colon_first f.name

abbrev pub connection : List ℕ
connection = 0x63 ∷ 0x6f ∷ 0x6e ∷ 0x6e ∷ 0x65 ∷ 0x63 ∷ 0x74 ∷ 0x69 ∷ 0x6f ∷ 0x6e ∷ []

abbrev pub keep_alive : List ℕ
keep_alive = 0x6b ∷ 0x65 ∷ 0x65 ∷ 0x70 ∷ 0x2d ∷ 0x61 ∷ 0x6c ∷ 0x69 ∷ 0x76 ∷ 0x65 ∷ []

abbrev pub proxy_connection : List ℕ
proxy_connection =
    0x70 ∷ 0x72 ∷ 0x6f ∷ 0x78 ∷ 0x79 ∷ 0x2d ∷ 0x63 ∷ 0x6f ∷ 0x6e ∷ 0x6e ∷ 0x65 ∷ 0x63 ∷ 0x74 ∷ 0x69
    ∷ 0x6f ∷ 0x6e ∷ []

abbrev pub transfer_encoding : List ℕ
transfer_encoding =
    0x74 ∷ 0x72 ∷ 0x61 ∷ 0x6e ∷ 0x73 ∷ 0x66 ∷ 0x65 ∷ 0x72 ∷ 0x2d ∷ 0x65 ∷ 0x6e ∷ 0x63 ∷ 0x6f ∷ 0x64
    ∷ 0x69 ∷ 0x6e ∷ 0x67 ∷ []

abbrev pub upgrade : List ℕ
upgrade = 0x75 ∷ 0x70 ∷ 0x67 ∷ 0x72 ∷ 0x61 ∷ 0x64 ∷ 0x65 ∷ []

abbrev pub te : List ℕ
te = 0x74 ∷ 0x65 ∷ []

unfoldable pub is_connection_field : Field → Bool
unfolding name_is
is_connection_field f =
    name_is f connection
    || name_is f keep_alive
    || name_is f proxy_connection
    || name_is f transfer_encoding
    || name_is f upgrade

-- `false` is MALFORMED.
unfoldable pub walk_loop : Bool → Bool → List Field → Bool
unfolding is_connection_field name_is_valid value_is_valid is_pseudo te_is_trailers
walk_loop request_headers seen_regular [] = true
walk_loop request_headers seen_regular (f ∷ fields) =
    let rest = walk_loop request_headers (seen_regular || not (is_pseudo f)) fields in
    if not (name_is_valid f)
    then false
    else if not (value_is_valid f.value)
    then false
    else if is_pseudo f
    then (if seen_regular then false else rest)
    else if is_connection_field f
    then false
    else if name_is f te && (not request_headers || not (te_is_trailers f))
    then false
    else rest

-- `walk_t`, with `scratch_cap - sf_off` as `sf_room`. The decoder fills the scratch buffer from
-- its start without gaps, so `scratch_high_water` is what it has used.
pub record Walk : Type 0 where
  pub fields : List Field
  pub sf_room : ℕ

unfoldable pub walked : Bool → Result (List Field × ℕ) → Outcome Walk
unfolding walk_loop
walked request_headers (fail Varint.buffer) = err buffer
walked request_headers (fail Varint.need_more) = err qpack_failed
walked request_headers (fail Varint.range) = err qpack_failed
walked request_headers (fail Varint.invalid) = err qpack_failed
walked request_headers (done (fields, room)) =
    if walk_loop request_headers false fields
    then ok (record { fields = fields; sf_room = room })
    else err malformed

unfoldable pub walk_init : List ℕ → ℕ → Bool → Outcome Walk
unfolding walked
walk_init section scratch_cap request_headers =
    walked request_headers (decode_section section max_fields scratch_cap)
