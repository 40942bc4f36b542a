-- ===== src/Proto/Qpack.antt =====
-- src/proto/qpack_static.h and qpack_static.c: prefixed integers and the static table. A text is a
-- list of bytes, MALFORMED is `Status.invalid`; shifts of a `uint64_t` keep their `% 2 ^ 64`.
pub mod Table
pub mod Section
pub mod Ints
pub mod Lookup
pub mod Strings
pub mod Lines
pub mod RoundTrip
mod Tests
use wtquic.Base.{
  ℕ, zero, suc, ◌+◌, ◌-◌, ◌*◌, ◌/◌, ◌%◌, ◌^◌, bit_and, bit_or, Bool, true, false, not, ◌&&◌, ◌||◌,
  List, [], ◌∷◌, Option, some, none, get_elem?, ltb, leb, ◌==◌, if◌then◌else◌, length,
}
use wtquic.Proto.Varint.{Status, Result, done, fail, buffer, need_more}
use wtquic.Proto.SfString.Write.{text_eq}
use wtquic.Proto.Qpack.Table.{Entry, static_table}

abbrev pub max_int : ℕ
max_int = 2 ^ 62 - 1

-- `do { n++; value >>= 7; } while (value > 0)`: the rounds. Ten use up 64 bits.
unfoldable pub len_loop : ℕ → ℕ → ℕ
len_loop zero value = 0
len_loop (suc fuel) value =
    let rest = len_loop fuel (value / 2 ^ 7) in if ltb 0 (value / 2 ^ 7) then suc rest else 1

unfoldable pub int_encoded_len : ℕ → ℕ → ℕ
unfolding len_loop
int_encoded_len value prefix_bits =
    let max_prefix = 2 ^ prefix_bits - 1 in
    if ltb value max_prefix then 1 else 1 + len_loop 10 (value - max_prefix)

-- `while (value >= 0x80)`, and the store of the last byte. Nine rounds leave no more than a byte.
unfoldable pub tail_bytes : ℕ → ℕ → List ℕ
tail_bytes zero value = (value % 256) ∷ []
tail_bytes (suc fuel) value =
    let rest = tail_bytes fuel (value / 2 ^ 7) in
    if leb 0x80 value then (bit_or 0x80 (bit_and value 0x7f) ∷ rest) else ((value % 256) ∷ [])

unfoldable pub int_encode : ℕ → ℕ → ℕ → ℕ → Result (List ℕ)
unfolding int_encoded_len tail_bytes
int_encode value first_byte_flags prefix_bits cap =
    let max_prefix = 2 ^ prefix_bits - 1 in
    if ltb prefix_bits 3 || ltb 8 prefix_bits || ltb max_int value
    then fail Status.range
    else if ltb cap (int_encoded_len value prefix_bits)
    then fail buffer
    else if ltb value max_prefix
    then done ((bit_or first_byte_flags value % 256) ∷ [])
    else done ((bit_or first_byte_flags max_prefix % 256) ∷ tail_bytes 9 (value - max_prefix))

-- The loop over the bytes behind the prefix, `i` of them consumed so far.
unfoldable pub int_loop : List ℕ → ℕ → ℕ → ℕ → Result (ℕ × ℕ)
int_loop [] v shift i = fail need_more
int_loop (b ∷ src) v shift i =
    let chunk = bit_and b 0x7f in
    let v' = (v + chunk * 2 ^ shift % 2 ^ 64) % 2 ^ 64 in
    let rest = int_loop src v' (shift + 7) (i + 1) in
    if ltb 62 shift || (ltb 0 shift && ltb (max_int / 2 ^ shift) chunk)
    then fail Status.invalid
    else if ltb max_int v'
    then fail Status.invalid
    else if bit_and b 0x80 == 0
    then done (v', i + 1)
    else rest

unfoldable pub int_decode : List ℕ → ℕ → Result (ℕ × ℕ)
unfolding int_loop
int_decode [] prefix_bits =
    if ltb prefix_bits 3 || ltb 8 prefix_bits then fail Status.invalid else fail need_more
int_decode (b ∷ src) prefix_bits =
    let max_prefix = 2 ^ prefix_bits - 1 in
    let v = bit_and b max_prefix in
    if ltb prefix_bits 3 || ltb 8 prefix_bits
    then fail Status.invalid
    else if v == max_prefix
    then int_loop src v 0 1
    else done (v, 1)

unfoldable pub static_get : ℕ → Option Entry
unfolding static_table
static_get index = get_elem? static_table index

-- The loops of the two searches, from index `i` on.
unfoldable pub find_from : ℕ → List Entry → List ℕ → List ℕ → Option ℕ
unfolding text_eq
find_from i [] name value = none
find_from i (e ∷ table) name value =
    let rest = find_from (suc i) table name value in
    if text_eq e.name name && text_eq e.value value then some i else rest

unfoldable pub find_name_from : ℕ → List Entry → List ℕ → Option ℕ
unfolding text_eq
find_name_from i [] name = none
find_name_from i (e ∷ table) name =
    let rest = find_name_from (suc i) table name in if text_eq e.name name then some i else rest

unfoldable pub static_find : List ℕ → List ℕ → Option ℕ
unfolding find_from static_table
static_find name value = find_from 0 static_table name value

unfoldable pub static_find_name : List ℕ → Option ℕ
unfolding find_name_from static_table
static_find_name name = find_name_from 0 static_table name
