-- ===== src/Proto/Qpack/Section.antt =====
-- Field sections of src/proto/qpack_static.c: Huffman texts, string literals, and the lines of a
-- section. A cursor `off` is the list of bytes from there on, and `room` what the scratch buffer
-- has left.
use wtquic.Base.{
  ℕ, zero, suc, ◌+◌, ◌-◌, ◌*◌, ◌/◌, ◌%◌, ◌^◌, bit_and, bit_or, Bool, false, not, ◌&&◌, ◌||◌, List,
  [], ◌∷◌, ◌++◌, Option, some, none, get_elem?, ltb, leb, ◌==◌, if◌then◌else◌, length, take, drop,
}
use wtquic.Proto.Varint.{Status, Result, done, fail, buffer}
use wtquic.Proto.Frame.{written}
use wtquic.Proto.Qpack.{
  max_int, int_encoded_len, int_encode, int_decode, static_get, static_find, static_find_name,
}
use wtquic.Proto.Qpack.Table.{Entry, Row, huff_lengths, huff_symbols, huff_eos_bits}

infixl 5 ◌>>=◌
abbrev pub ◌>>=◌ : {A B : Type 0} → Result A → (A → Result B) → Result B
done a >>= f = f a
fail s >>= f = fail s

-- The bits of the bytes, the highest of each first.
unfoldable pub bits_of : List ℕ → List ℕ
bits_of [] = []
bits_of (b ∷ src) =
    (b / 2 ^ 7 % 2)
    ∷ (b / 2 ^ 6 % 2)
    ∷ (b / 2 ^ 5 % 2)
    ∷ (b / 2 ^ 4 % 2)
    ∷ (b / 2 ^ 3 % 2)
    ∷ (b / 2 ^ 2 % 2)
    ∷ (b / 2 % 2)
    ∷ (b % 2)
    ∷ bits_of src

-- `while (row < N && lengths[row].bits < nbits) row++`, over the rows from `row` on.
unfoldable pub advance : ℕ → List Row → List Row
advance nbits [] = []
advance nbits (r ∷ rows) =
    let rest = advance nbits rows in if ltb r.bits nbits then rest else (r ∷ rows)

-- The symbol of a code that the row at hand holds.
unfoldable pub hit : ℕ → ℕ → List Row → Option ℕ
hit code nbits [] = none
hit code nbits (r ∷ rows) =
    if (r.bits == nbits) && ltb code ((r.first_code + r.count) % 2 ^ 32)
    then get_elem? huff_symbols (r.first_index + (code + 2 ^ 32 - r.first_code) % 2 ^ 32)
    else none

-- The padding at the end.
unfoldable pub huffman_end : ℕ → ℕ → Result (List ℕ)
huffman_end code nbits =
    if ltb 7 nbits
    then fail Status.invalid
    else if ltb 0 nbits && not (code == 2 ^ nbits - 1)
    then fail Status.invalid
    else done []

-- The loops over the bytes and the bits of a byte, as one over all bits.
unfoldable pub huffman_loop : List ℕ → ℕ → ℕ → List Row → ℕ → Result (List ℕ)
unfolding advance hit huffman_end
huffman_loop [] code nbits rows room = huffman_end code nbits
huffman_loop (bit ∷ src) code nbits rows room =
    let code' = bit_or (code * 2 % 2 ^ 32) bit in
    let nbits' = nbits + 1 in
    let rows' = advance nbits' rows in
    elim (hit code' nbits' rows') [
      | some symbol ↦
          if room == 0
          then fail buffer
          else huffman_loop src 0 0 huff_lengths (room - 1) >>= (λ out. done (symbol ∷ out))
      | none ↦
          if leb huff_eos_bits nbits'
          then fail Status.invalid
          else huffman_loop src code' nbits' rows' room
    ]

unfoldable pub huffman_decode : List ℕ → ℕ → Result (List ℕ)
unfolding bits_of huffman_loop
huffman_decode src cap = huffman_loop (bits_of src) 0 0 huff_lengths cap

-- `if (... != WTQ_QPACK_OK) return WTQ_QPACK_MALFORMED;`
abbrev pub or_malformed : {A : Type 0} → Result A → Result A
or_malformed (done a) = done a
or_malformed (fail s) = fail Status.invalid

-- The bytes of a string literal, from behind its length.
unfoldable pub string_body : Bool → ℕ → List ℕ → ℕ → Result (List ℕ × List ℕ)
unfolding huffman_decode
string_body huffman slen src room =
    if ltb (length src) slen
    then fail Status.invalid
    else if huffman
    then huffman_decode (take slen src) room >>= (λ out. done (out, drop slen src))
    else if ltb room slen
    then fail buffer
    else done (take slen src, drop slen src)

unfoldable pub decode_string : List ℕ → ℕ → ℕ → Result (List ℕ × List ℕ)
unfolding string_body
decode_string [] prefix_bits room = fail Status.invalid
decode_string (b ∷ src) prefix_bits room = do
  (slen, c) ← or_malformed (int_decode (b ∷ src) prefix_bits)
  string_body (not (bit_and b (2 ^ prefix_bits) == 0)) slen (drop c (b ∷ src)) room

-- `wtq_qpack_field_t`
pub record Field : Type 0 where
  pub name : List ℕ
  pub value : List ℕ
  pub never_index : Bool

-- What a line gives: the field, the room left in the scratch buffer, and the bytes behind.
pub record Line : Type 0 where
  pub field : Field
  pub room : ℕ
  pub rest : List ℕ

-- A static entry, or MALFORMED beyond the table.
abbrev pub or_out_of_table : Option Entry → Result Entry
or_out_of_table (some e) = done e
or_out_of_table none = fail Status.invalid

-- Indexed Field Line
unfoldable pub indexed_line : List ℕ → ℕ → Result Line
indexed_line src room = do
  (idx, c) ← or_malformed (int_decode src 6)
  e ← or_out_of_table (static_get idx)
  done (record {
    field = record { name = e.name; value = e.value; never_index = false };
    room = room;
    rest = drop c src;
  })

-- Literal With Name Reference
unfoldable pub name_reference_line : Bool → List ℕ → ℕ → Result Line
unfolding decode_string
name_reference_line never_index src room = do
  (idx, c) ← or_malformed (int_decode src 4)
  e ← or_out_of_table (static_get idx)
  (value, rest) ← decode_string (drop c src) 7 room
  done (record {
    field = record { name = e.name; value = value; never_index = never_index };
    room = room - length value;
    rest = rest;
  })

-- Literal With Literal Name
unfoldable pub literal_name_line : Bool → List ℕ → ℕ → Result Line
unfolding decode_string
literal_name_line never_index src room = do
  (name, next) ← decode_string src 3 room
  (value, rest) ← decode_string next 7 (room - length name)
  done (record {
    field = record { name = name; value = value; never_index = never_index };
    room = room - length name - length value;
    rest = rest;
  })

-- The forms of a line, by the bits of its first byte `b`.
unfoldable pub field_line : ℕ → List ℕ → ℕ → Result Line
unfolding indexed_line name_reference_line literal_name_line
field_line b src room =
    if not (bit_and b 0x80 == 0)
    then (if bit_and b 0x40 == 0 then fail Status.invalid else indexed_line src room)
    else if not (bit_and b 0x40 == 0)
    then (if bit_and b 0x10 == 0
        then fail Status.invalid
        else name_reference_line (not (bit_and b 0x20 == 0)) src room)
    else if not (bit_and b 0x20 == 0)
    then literal_name_line (not (bit_and b 0x10 == 0)) src room
    else fail Status.invalid

-- The loop over the lines, with `slots` fields left. A line takes a byte at least;
-- `Status.range` is no status of the decoder: the fuel ran out. The fields come with what the
-- scratch buffer has left.
unfoldable pub lines_loop : ℕ → List ℕ → ℕ → ℕ → Result (List Field × ℕ)
unfolding field_line
lines_loop fuel [] room slots = done ([], room)
lines_loop zero (b ∷ src) room slots = fail Status.range
lines_loop (suc fuel) (b ∷ src) room slots = do
  l ← field_line b (b ∷ src) room
  if slots == 0
      then fail buffer
      else (lines_loop fuel (l.rest) (l.room) (slots - 1)
          >>= (λ (fields, left). done (l.field ∷ fields, left)))

-- The Base of the prefix, and the lines behind it.
unfoldable pub decode_base : ℕ → List ℕ → ℕ → ℕ → Result (List Field × ℕ)
unfolding lines_loop
decode_base ric [] max_fields scratch_cap = fail Status.invalid
decode_base ric (b ∷ src) max_fields scratch_cap = do
  (delta_base, c) ← or_malformed (int_decode (b ∷ src) 7)
  if not (bit_and b 0x80 == 0) && leb ric delta_base
      then fail Status.invalid
      else lines_loop (length (b ∷ src)) (drop c (b ∷ src)) scratch_cap max_fields

unfoldable pub decode_section : List ℕ → ℕ → ℕ → Result (List Field × ℕ)
unfolding decode_base
decode_section src max_fields scratch_cap = do
  (ric, c) ← or_malformed (int_decode src 8)
  if not (ric == 0)
      then fail Status.invalid
      else decode_base ric (drop c src) max_fields scratch_cap

unfoldable pub field_encoded_len : Field → ℕ
field_encoded_len f = elim (static_find f.name f.value) [
  | some idx ↦ int_encoded_len idx 6
  | none ↦ elim (static_find_name f.name) [
    | some nidx ↦ int_encoded_len nidx 4 + int_encoded_len (length f.value) 7 + length f.value
    | none ↦
        int_encoded_len (length f.name) 3
        + length f.name
        + int_encoded_len (length f.value) 7
        + length f.value
  ]
]

-- One round of the encoding loop, with `room` bytes of the buffer left.
unfoldable pub encode_field : Field → ℕ → List ℕ
encode_field f room = elim (static_find f.name f.value) [
  | some idx ↦ written (int_encode idx 0xc0 6 room)
  | none ↦ elim (static_find_name f.name) [
    | some nidx ↦
        let flags = bit_or (bit_or 0x40 (if f.never_index then 0x20 else 0)) 0x10 in
        let head = written (int_encode nidx flags 4 room) in
        head ++ (written (int_encode (length f.value) 0x00 7 (room - length head)) ++ f.value)
    | none ↦
        let flags = bit_or 0x20 (if f.never_index then 0x10 else 0) in
        let head = written (int_encode (length f.name) flags 3 room) in
        let used = length head + length f.name in
        head ++ (f.name ++ (written (int_encode (length f.value) 0x00 7 (room - used)) ++ f.value))
  ]
]

unfoldable pub encode_fields : List Field → ℕ → List ℕ
unfolding encode_field
encode_fields [] room = []
encode_fields (f ∷ fields) room =
    let line = encode_field f room in line ++ encode_fields fields (room - length line)

-- The first loop: the length of the lines, or RANGE.
unfoldable pub section_len : List Field → Result ℕ
unfolding field_encoded_len
section_len [] = done 0
section_len (f ∷ fields) =
    if ltb max_int (length f.name) || ltb max_int (length f.value)
    then fail Status.range
    else section_len fields >>= (λ n. done (field_encoded_len f + n))

unfoldable pub encode_section : List Field → ℕ → Result (List ℕ)
unfolding section_len encode_fields
encode_section fields cap = do
  n ← section_len fields
  if ltb cap (2 + n) then fail buffer else done (0x00 ∷ 0x00 ∷ encode_fields fields (cap - 2))
