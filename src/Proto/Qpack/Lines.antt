-- ===== src/Proto/Qpack/Lines.antt =====
-- One line of a field section of src/proto/qpack_static.c: the decoder reads what the encoder
-- wrote.
use wtquic.Base.{
  ℕ, ◌+◌, ◌-◌, ◌*◌, ◌^◌, ◌≤◌, ◌<◌, ◌≡◌, refl, sym, ap, ◌∙◌, arith, bit_and, Bool, true, false, List,
  ◌∷◌, ◌++◌, some, none, append_assoc, if◌then◌else◌, length, length-append, drop-length,
}
use wtquic.Base.Bits.Masks.{bit_and-high}
use wtquic.Proto.Varint.{done}
use wtquic.Proto.Qpack.{int_encoded_len, static_get, static_find, static_find_name}
use wtquic.Proto.Qpack.Table.{Entry}
use wtquic.Proto.Qpack.Section.{
  Field, indexed_line, name_reference_line, literal_name_line, field_line,
}
use wtquic.Proto.Qpack.Strings.{
  IntBytes, decode_string-bytes, bit_and-bit6, bit_and-bit5, bit_and-bit4, bit_and-bit3,
}

-- What the receiver gets of a field: an indexed line has no bit for `never_index`.
unfoldable pub sent : Field → Field
sent f = elim (static_find f.name f.value) [ some k ↦ record f { never_index = false } | none ↦ f ]

-- The bytes of scratch that the texts of the line take.
unfoldable pub literal_len : Field → ℕ
literal_len f = elim (static_find f.name f.value) [
  | some k ↦ 0
  | none ↦ elim (static_find_name f.name) [
    | some k ↦ length f.value
    | none ↦ length f.name + length f.value
  ]
]

-- A line of `size` bytes reads back as the field, with `used` bytes of scratch.
pub record Reads (line rest : List ℕ) (scratch size : ℕ) (field : Field) (used : ℕ) : Type 0 where
  pub first : ℕ
  pub tail : List ℕ
  pub bytes : line ≡ first ∷ tail
  pub line_size : length line ≡ size
  pub reads :
      field_line first (first ∷ (tail ++ rest)) scratch
      ≡ done (record { field = field; room = scratch - used; rest = rest })

indexed_line-bytes :
    (k : ℕ) (e : Entry) (bs rest : List ℕ) (scratch : ℕ) (i : IntBytes k 3 6 bs)
    → static_get k ≡ some e
    → indexed_line (bs ++ rest) scratch
      ≡ done (record {
        field = record { name = e.name; value = e.value; never_index = false };
        room = scratch;
        rest = rest;
      })
unfolding indexed_line
indexed_line-bytes k e bs rest scratch i g = rw (i.reads rest, g, drop-length bs rest) refl

-- The first byte of an indexed line.
field_line-indexed :
    (x : ℕ) (src : List ℕ) (scratch : ℕ)
    → x < 64
    → field_line (3 * 2 ^ 6 + x) src scratch ≡ indexed_line src scratch
unfolding field_line
field_line-indexed x src scratch h =
    ground (arith, bit_and-high (192 + x) (omega arith), bit_and-bit6 (192 + x) (omega arith))

pub indexed-Reads :
    (f : Field) (k scratch : ℕ) (e : Entry) (bs rest : List ℕ) (i : IntBytes k 3 6 bs)
    → static_get k ≡ some e
    → e.name ≡ f.name
    → e.value ≡ f.value
    → Reads bs rest scratch (int_encoded_len k 6) (record f { never_index = false }) 0
indexed-Reads f k scratch e bs rest i g en ev = record {
  first = 3 * 2 ^ 6 + i.low;
  tail = i.tail;
  bytes = i.bytes;
  line_size = i.size;
  reads =
      field_line-indexed i.low ((3 * 2 ^ 6 + i.low) ∷ (i.tail ++ rest)) scratch i.low_fits
      ∙ ap (λ t. indexed_line (t ++ rest) scratch) (sym i.bytes)
      ∙ indexed_line-bytes k e bs rest scratch i g
      ∙ rw (en, ev, no_scratch) refl;
}
  where
    no_scratch : scratch - 0 ≡ scratch
    no_scratch = omega arith

-- The flags of the two literal forms, by the bit for `never_index`.
abbrev pub name_flags : Bool → ℕ
name_flags b = if b then 7 else 5

abbrev pub text_flags : Bool → ℕ
text_flags b = if b then 6 else 4

field_line-reference :
    (b : Bool) (x : ℕ) (src : List ℕ) (scratch : ℕ)
    → x < 16
    → field_line (name_flags b * 2 ^ 4 + x) src scratch ≡ name_reference_line b src scratch
unfolding field_line
field_line-reference true x src scratch h = ground (
  arith,
  bit_and-high (112 + x) (omega arith),
  bit_and-bit6 (112 + x) (omega arith),
  bit_and-bit5 (112 + x) (omega arith),
  bit_and-bit4 (112 + x) (omega arith),
)
field_line-reference false x src scratch h = ground (
  arith,
  bit_and-high (80 + x) (omega arith),
  bit_and-bit6 (80 + x) (omega arith),
  bit_and-bit5 (80 + x) (omega arith),
  bit_and-bit4 (80 + x) (omega arith),
)

field_line-literal :
    (b : Bool) (x : ℕ) (src : List ℕ) (scratch : ℕ)
    → x < 8
    → field_line (text_flags b * 2 ^ 3 + x) src scratch ≡ literal_name_line b src scratch
unfolding field_line
field_line-literal true x src scratch h = ground (
  arith,
  bit_and-high (48 + x) (omega arith),
  bit_and-bit6 (48 + x) (omega arith),
  bit_and-bit5 (48 + x) (omega arith),
  bit_and-bit4 (48 + x) (omega arith),
)
field_line-literal false x src scratch h = ground (
  arith,
  bit_and-high (32 + x) (omega arith),
  bit_and-bit6 (32 + x) (omega arith),
  bit_and-bit5 (32 + x) (omega arith),
  bit_and-bit4 (32 + x) (omega arith),
)

-- No Huffman bit.
plain7 : (x : ℕ) → x < 128 → bit_and (0 * 2 ^ 7 + x) (2 ^ 7) ≡ 0
plain7 x h = ground (arith, bit_and-high x (omega arith))

plain3 : (b : Bool) (x : ℕ) → x < 8 → bit_and (text_flags b * 2 ^ 3 + x) (2 ^ 3) ≡ 0
plain3 true x h = ground (arith, bit_and-bit3 (48 + x) (omega arith))
plain3 false x h = ground (arith, bit_and-bit3 (32 + x) (omega arith))

regroup : (a b c d : List ℕ) → (a ++ (b ++ c)) ++ d ≡ a ++ (b ++ (c ++ d))
regroup a b c d = append_assoc a (b ++ c) d ∙ ap (λ t. a ++ t) (append_assoc b c d)

length3 : (a b c : List ℕ) → length (a ++ (b ++ c)) ≡ length a + length b + length c
length3 a b c = omega (arith, length-append a (b ++ c), length-append b c)

reference_line-bytes :
    (b : Bool) (k : ℕ) (e : Entry) (v head mid rest : List ℕ) (scratch : ℕ)
    → IntBytes k (name_flags b) 4 head
    → IntBytes (length v) 0 7 mid
    → static_get k ≡ some e
    → length v ≤ scratch
    → name_reference_line b (head ++ (mid ++ (v ++ rest))) scratch
      ≡ done (record {
        field = record { name = e.name; value = v; never_index = b };
        room = scratch - length v;
        rest = rest;
      })
unfolding name_reference_line
reference_line-bytes b k e v head mid rest scratch i j g h =
    let value = decode_string-bytes v rest mid 0 7 scratch j (plain7 j.low j.low_fits) h in
    rw (i.reads (mid ++ (v ++ rest)), g, drop-length head (mid ++ (v ++ rest)), value) refl

pub reference-Reads :
    (f : Field) (k : ℕ) (e : Entry) (head mid rest : List ℕ) (scratch : ℕ)
    → IntBytes k (name_flags f.never_index) 4 head
    → IntBytes (length f.value) 0 7 mid
    → static_get k ≡ some e
    → e.name ≡ f.name
    → length f.value ≤ scratch
    → Reads
        (head ++ (mid ++ f.value))
        rest
        scratch
        (int_encoded_len k 4 + int_encoded_len (length f.value) 7 + length f.value)
        f
        (length f.value)
reference-Reads f k e head mid rest scratch i j g en h = record {
  first = name_flags f.never_index * 2 ^ 4 + i.low;
  tail = i.tail ++ (mid ++ f.value);
  bytes = ap (λ t. t ++ (mid ++ f.value)) i.bytes;
  line_size = omega (arith, i.size, j.size, length3 head mid f.value);
  reads =
      field_line-reference f.never_index i.low _ scratch i.low_fits
      ∙ ap (λ t. name_reference_line f.never_index t scratch)
          (ap (λ t. (t ++ (mid ++ f.value)) ++ rest) (sym i.bytes) ∙ regroup head mid f.value rest)
      ∙ reference_line-bytes f.never_index k e f.value head mid rest scratch i j g h
      ∙ rw en refl;
}

literal_line-bytes :
    (f : Field) (head mid rest : List ℕ) (scratch : ℕ)
    → IntBytes (length f.name) (text_flags f.never_index) 3 head
    → IntBytes (length f.value) 0 7 mid
    → length f.name + length f.value ≤ scratch
    → literal_name_line f.never_index (head ++ (f.name ++ (mid ++ (f.value ++ rest)))) scratch
      ≡ done (record { field = f; room = scratch - length f.name - length f.value; rest = rest })
unfolding literal_name_line
literal_line-bytes f head mid rest scratch i j h =
    let room = scratch - length f.name in
    let behind = mid ++ (f.value ++ rest) in
    let value =
      decode_string-bytes f.value rest mid 0 7 room j (plain7 j.low j.low_fits) (omega arith) in
    let name =
      decode_string-bytes f.name behind head (text_flags f.never_index) 3 scratch i
        (plain3 f.never_index i.low i.low_fits) (omega arith) in
    rw (name, value) refl

pub literal-Reads :
    (f : Field) (head mid rest : List ℕ) (scratch : ℕ)
    → IntBytes (length f.name) (text_flags f.never_index) 3 head
    → IntBytes (length f.value) 0 7 mid
    → length f.name + length f.value ≤ scratch
    → Reads
        (head ++ (f.name ++ (mid ++ f.value)))
        rest
        scratch
        (int_encoded_len (length f.name) 3
          + length f.name
          + int_encoded_len (length f.value) 7
          + length f.value)
        f
        (length f.name + length f.value)
literal-Reads f head mid rest scratch i j h = record {
  first = text_flags f.never_index * 2 ^ 3 + i.low;
  tail = i.tail ++ (f.name ++ (mid ++ f.value));
  bytes = ap (λ t. t ++ (f.name ++ (mid ++ f.value))) i.bytes;
  line_size = omega (
    arith,
    i.size,
    j.size,
    length-append head (f.name ++ (mid ++ f.value)),
    length3 f.name mid f.value,
  );
  reads =
      field_line-literal f.never_index i.low _ scratch i.low_fits
      ∙ ap (λ t. literal_name_line f.never_index t scratch)
          (ap (λ t. (t ++ (f.name ++ (mid ++ f.value))) ++ rest) (sym i.bytes)
            ∙ append_assoc head (f.name ++ (mid ++ f.value)) rest
            ∙ ap (λ t. head ++ t) (regroup f.name mid f.value rest))
      ∙ literal_line-bytes f head mid rest scratch i j h
      ∙ ap (λ (n : ℕ). done (record { field = f; room = n; rest = rest })) (omega arith);
}
