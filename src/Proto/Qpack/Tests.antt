-- ===== src/Proto/Qpack/Tests.antt =====
-- Runs of src/proto/qpack_static.c, and instances of what is proved of it.
use wtquic.Base.{
  ℕ, ◌-◌, ◌≤◌, map, ◌≡◌, refl, arith, true, false, List, [], ◌∷◌, ◌++◌, ◌⊎◌, some, none, length,
}
use wtquic.Proto.Varint.{done, fail, Status}
use wtquic.Proto.Qpack.{int_encode, int_decode, static_get, static_find}
use wtquic.Proto.Qpack.Table.{Entry}
use wtquic.Proto.Qpack.Section.{Field, huffman_decode, decode_section, encode_section}
use wtquic.Proto.Qpack.Ints.{int_decode-int_encode}
use wtquic.Proto.Qpack.Lookup.{Matches, static_find_lem}
use wtquic.Proto.Qpack.RoundTrip.{decode_section-encode_section, literals_len}
use wtquic.Proto.Qpack.Lines.{sent}

-- The value 1337 with a prefix of 5 bits, of RFC 7541, C.1.2, under the flag 0x20.
abbrev int_bytes : List ℕ
int_bytes = 0x3f ∷ 0x9a ∷ 0x0a ∷ []

encode_int : int_encode 1337 0x20 5 8 ≡ done int_bytes
unfolding int_encode
encode_int = refl

decode_int_too_large :
    int_decode (0xff ∷ 0xff ∷ 0xff ∷ 0xff ∷ 0xff ∷ 0xff ∷ 0xff ∷ 0xff ∷ 0xff ∷ 0xff ∷ 0x01 ∷ []) 8
    ≡ fail Status.invalid
unfolding int_decode
decode_int_too_large = refl

-- "a0", with the padding bits 111111
decode_huffman : huffman_decode (0x18 ∷ 0x3f ∷ []) 8 ≡ done (0x61 ∷ 0x30 ∷ [])
unfolding huffman_decode
decode_huffman = refl

-- :method
abbrev method : List ℕ
method = 0x3a ∷ 0x6d ∷ 0x65 ∷ 0x74 ∷ 0x68 ∷ 0x6f ∷ 0x64 ∷ []

-- GET
abbrev get : List ℕ
get = 0x47 ∷ 0x45 ∷ 0x54 ∷ []

-- An indexed line, a name reference and a literal name.
abbrev fields : List Field
fields =
    record { name = method; value = get; never_index = false }
    ∷ record { name = method; value = 0x58 ∷ []; never_index = true }
    ∷ record { name = 0x78 ∷ []; value = []; never_index = false }
    ∷ []

abbrev section_bytes : List ℕ
section_bytes = 0x00 ∷ 0x00 ∷ 0xd1 ∷ 0x7f ∷ 0x00 ∷ 0x01 ∷ 0x58 ∷ 0x21 ∷ 0x78 ∷ 0x00 ∷ []

encode_fields : encode_section fields 32 ≡ done section_bytes
unfolding encode_section static_find wtquic.Proto.Qpack.int_encoded_len
    wtquic.Proto.Qpack.static_find_name int_encode
encode_fields = refl

decode_fields : decode_section section_bytes 4 32 ≡ done (fields, 30)
unfolding decode_section int_decode static_get
decode_fields = refl

int_decode-int_encode_example : int_decode (int_bytes ++ (7 ∷ [])) 5 ≡ done (1337, length int_bytes)
int_decode-int_encode_example =
    int_decode-int_encode 1337 1 5 8 int_bytes (7 ∷ []) (omega arith) encode_int

static_find_lem_example :
    ((k : ℕ) × (e : Entry) × (static_find method get ≡ some k)
      × (static_get k ≡ some e)
      × Matches e method get)
    ⊎ ((static_find method get ≡ none)
        × ((k : ℕ) (e : Entry) → static_get k ≡ some e → ¬ Matches e method get))
static_find_lem_example = static_find_lem method get

literals : literals_len fields ≤ 32
unfolding literals_len static_find wtquic.Proto.Qpack.static_find_name
    wtquic.Proto.Qpack.Lines.literal_len
literals = omega arith

decode_section-encode_section_example :
    decode_section section_bytes 4 32 ≡ done (map sent fields, 32 - literals_len fields)
decode_section-encode_section_example =
    decode_section-encode_section fields 32 4 32 section_bytes encode_fields (omega arith) literals
