-- ===== src/Proto/Connect/Tests.antt =====
-- Runs of the CONNECT codec, and its theorems at concrete messages.
use wtquic.Base.{ℕ, ◌≡◌, refl, arith, List, [], ◌∷◌, true, false, some, All}
use wtquic.Proto.Varint.{done}
use wtquic.Proto.Qpack.{static_find, static_find_name, int_encode, int_encoded_len}
use wtquic.Proto.Qpack.Section.{
  Field, decode_section, encode_section, encode_field, encode_fields, section_len,
  field_encoded_len,
}
use wtquic.Proto.Connect.{Opts, Outcome, ok, err, te_loop, comma_members, walk_init, max_fields}
use wtquic.Proto.Connect.Rules.{IsMessage, IsRegular, walk_init-IsMessage}
use wtquic.Proto.Connect.Request.{
  decode_request, validate_trailers, protocol_token, protocol_name, method_name, scheme_name,
  authority_name, path_name, host_name, connect, https,
}
use wtquic.Proto.Connect.Request.Collect.{values}
use wtquic.Proto.Connect.Request.Sound.{
  IsConnect, AgreesWith, decode_request_sound, validate_trailers_sound,
}
use wtquic.Proto.Connect.Response.{decode_response, wtp_name}
use wtquic.Proto.Connect.Response.Sound.{IsResponse, IsChoice, decode_response_sound}
use wtquic.Proto.Connect.Encode.{
  plain_field, request_fields, staged_list, encode_request_d02, encode_response_ex,
}
use wtquic.Proto.Connect.RoundTrip.{received, decode_request-encode_request_d02}
use wtquic.Proto.Connect.Answer.{answered, decode_response-encode_response_ex}

abbrev opts : Opts
opts = record { lenient_sf_tokens = false; accept_legacy_protocol = false }

abbrev host : List ℕ
host = 0x61 ∷ []

abbrev slash : List ℕ
slash = 0x2f ∷ []

abbrev chat : List ℕ
chat = 0x63 ∷ []

line_method : encode_field (plain_field method_name connect) 62 ≡ 0xcf ∷ []
unfolding encode_field static_find static_find_name int_encode
line_method = refl

size_method : field_encoded_len (plain_field method_name connect) ≡ 1
unfolding field_encoded_len static_find static_find_name int_encoded_len
size_method = refl

line_scheme : encode_field (plain_field scheme_name https) 61 ≡ 0xd7 ∷ []
unfolding encode_field static_find static_find_name int_encode
line_scheme = refl

size_scheme : field_encoded_len (plain_field scheme_name https) ≡ 1
unfolding field_encoded_len static_find static_find_name int_encoded_len
size_scheme = refl

line_authority : encode_field (plain_field authority_name host) 60 ≡ 0x50 ∷ 0x01 ∷ 0x61 ∷ []
unfolding encode_field static_find static_find_name int_encode
line_authority = refl

size_authority : field_encoded_len (plain_field authority_name host) ≡ 3
unfolding field_encoded_len static_find static_find_name int_encoded_len
size_authority = refl

line_path : encode_field (plain_field path_name slash) 57 ≡ 0xc1 ∷ []
unfolding encode_field static_find static_find_name int_encode
line_path = refl

size_path : field_encoded_len (plain_field path_name slash) ≡ 1
unfolding field_encoded_len static_find static_find_name int_encoded_len
size_path = refl

line_protocol :
    encode_field (plain_field protocol_name protocol_token) 56
    ≡ 0x27 ∷ 0x02 ∷ 0x3a ∷ 0x70 ∷ 0x72 ∷ 0x6f ∷ 0x74 ∷ 0x6f ∷ 0x63 ∷ 0x6f ∷ 0x6c ∷ 0x0f ∷ 0x77
      ∷ 0x65 ∷ 0x62 ∷ 0x74 ∷ 0x72 ∷ 0x61 ∷ 0x6e ∷ 0x73 ∷ 0x70 ∷ 0x6f ∷ 0x72 ∷ 0x74 ∷ 0x2d ∷ 0x68
      ∷ 0x33 ∷ []
unfolding encode_field static_find static_find_name int_encode
line_protocol = refl

size_protocol : field_encoded_len (plain_field protocol_name protocol_token) ≡ 27
unfolding field_encoded_len static_find static_find_name int_encoded_len
size_protocol = refl

abbrev request_bytes : List ℕ
request_bytes =
    0x00 ∷ 0x00 ∷ 0xcf ∷ 0xd7 ∷ 0x50 ∷ 0x01 ∷ 0x61 ∷ 0xc1 ∷ 0x27 ∷ 0x02 ∷ 0x3a ∷ 0x70 ∷ 0x72 ∷ 0x6f
    ∷ 0x74 ∷ 0x6f ∷ 0x63 ∷ 0x6f ∷ 0x6c ∷ 0x0f ∷ 0x77 ∷ 0x65 ∷ 0x62 ∷ 0x74 ∷ 0x72 ∷ 0x61 ∷ 0x6e
    ∷ 0x73 ∷ 0x70 ∷ 0x6f ∷ 0x72 ∷ 0x74 ∷ 0x2d ∷ 0x68 ∷ 0x33 ∷ []

section_run :
    encode_section (request_fields host slash [] protocol_token false false []) 64
    ≡ done request_bytes
unfolding encode_section encode_fields section_len request_fields
section_run =
    rw
      (
        size_method, size_scheme, size_authority, size_path, size_protocol, line_method,
        line_scheme, line_authority, line_path, line_protocol,
      )
      refl

request_run : encode_request_d02 host slash [] [] [] false 64 ≡ ok request_bytes
unfolding encode_request_d02 staged_list wtquic.Proto.Connect.value_is_token
    wtquic.Proto.Connect.value_is_valid
request_run = rw section_run refl

abbrev response_bytes : List ℕ
response_bytes =
    0 ∷ 0 ∷ 217 ∷ 39 ∷ 4 ∷ 119 ∷ 116 ∷ 45 ∷ 112 ∷ 114 ∷ 111 ∷ 116 ∷ 111 ∷ 99 ∷ 111 ∷ 108 ∷ 3 ∷ 34
    ∷ 99 ∷ 34 ∷ []

response_run : encode_response_ex 200 (some chat) false 64 ≡ ok response_bytes
unfolding encode_response_ex encode_section int_encode wtquic.Proto.SfString.Write.encode_item
    static_find static_find_name
response_run = refl

-- A refused value cannot hide in a list of trailers.
trailers_run :
    te_loop false
      (comma_members (0x54 ∷ 0x72 ∷ 0x61 ∷ 0x69 ∷ 0x6c ∷ 0x65 ∷ 0x72 ∷ 0x73 ∷ 0x2c ∷ 0x20 ∷ []))
    ≡ true
unfolding te_loop comma_members
trailers_run = refl

request_read : decode_request request_bytes opts 4 64 ≡ ok (received host slash [] [] false false)
request_read =
    decode_request-encode_request_d02 host slash [] [] [] false false 64 request_bytes opts 4 64
      request_run refl refl (omega arith) (omega arith)

response_read : decode_response response_bytes opts 64 ≡ ok (answered 200 (some chat) false)
response_read =
    decode_response-encode_response_ex 200 (some chat) false 64 response_bytes opts 64 response_run
      (omega arith)

decode_request-encode_request_d02_example :
    decode_request request_bytes opts 4 64 ≡ ok (received host slash [] [] false false)
decode_request-encode_request_d02_example =
    decode_request-encode_request_d02 host slash [] [] [] false false 64 request_bytes opts 4 64
      request_run refl refl (omega arith) (omega arith)

decode_response-encode_response_ex_example :
    decode_response response_bytes opts 64 ≡ ok (answered 200 (some chat) false)
decode_response-encode_response_ex_example =
    decode_response-encode_response_ex 200 (some chat) false 64 response_bytes opts 64 response_run
      (omega arith)

decode_request_sound_example :
    (fields : List Field) × (room : ℕ) × (decode_section request_bytes max_fields 64
      ≡ done (fields, room))
    × IsConnect opts fields (received host slash [] [] false false)
    × AgreesWith host (values host_name fields)
decode_request_sound_example =
    decode_request_sound request_bytes opts 4 64 (received host slash [] [] false false)
      request_read

decode_response_sound_example :
    (fields : List Field) × (room : ℕ) × (decode_section response_bytes max_fields 64
      ≡ done (fields, room))
    × IsMessage false fields
    × IsResponse fields (answered 200 (some chat) false)
    × IsChoice opts room (values wtp_name fields) (some chat)
decode_response_sound_example =
    decode_response_sound response_bytes opts 64 (answered 200 (some chat) false) response_read

-- A trailer `a: c`.
abbrev trailer_bytes : List ℕ
trailer_bytes = 0 ∷ 0 ∷ 0x21 ∷ 0x61 ∷ 0x01 ∷ 0x63 ∷ []

trailer_run : validate_trailers trailer_bytes 8 ≡ ok tt
unfolding validate_trailers walk_init decode_section wtquic.Proto.Qpack.int_decode
trailer_run = refl

validate_trailers_sound_example :
    (fields : List Field) × (room : ℕ) × (decode_section trailer_bytes max_fields 8
      ≡ done (fields, room))
    × All (IsRegular false) fields
validate_trailers_sound_example = validate_trailers_sound trailer_bytes 8 tt trailer_run

walk_run :
    walk_init trailer_bytes 8 false
    ≡ ok (record { fields = plain_field (0x61 ∷ []) chat ∷ []; sf_room = 6 })
unfolding walk_init decode_section wtquic.Proto.Qpack.int_decode
walk_run = refl

walk_init-IsMessage_example :
    (decode_section trailer_bytes max_fields 8 ≡ done ((plain_field (0x61 ∷ []) chat) ∷ [], 6))
    × IsMessage false (plain_field (0x61 ∷ []) chat ∷ [])
walk_init-IsMessage_example =
    walk_init-IsMessage trailer_bytes 8 false
      (record { fields = plain_field (0x61 ∷ []) chat ∷ []; sf_room = 6 }) walk_run
