-- ===== src/Proto/Varint/Tests.antt =====
-- Runs of src/proto/varint.c, and instances of what is proved of it.
use wtquic.Base.{
  take, ℕ, ◌^◌, ◌≤◌, ◌<◌, ◌≡◌, refl, arith, List, [], ◌∷◌, ◌++◌, length, All, ◌⊎◌, false,
}
use wtquic.Proto.Varint.{
  done, fail, buffer, Status, Decoder, init, varint_len, varint_max, is_minimal, encode, decode,
  feed,
}
use wtquic.Proto.Varint.Push.{IsByte}
use wtquic.Proto.Varint.Encode.{Shape, decode-encode, encode_cases}
use wtquic.Proto.Varint.Decode.{decode_sound}
use wtquic.Proto.Varint.Stream.{after, feed-append}
use wtquic.Proto.Varint.Whole.{answer, feed-decode}

-- The value 494878333 of RFC 9000, A.1.
abbrev four_bytes : List ℕ
four_bytes = 0x9d ∷ 0x7f ∷ 0x3e ∷ 0x7d ∷ []

encode_four : encode 494878333 16 ≡ done four_bytes
unfolding encode
encode_four = refl

encode_short_buffer : encode 494878333 3 ≡ fail buffer
unfolding encode
encode_short_buffer = refl

encode_too_large : encode (2 ^ 62) 16 ≡ fail Status.range
unfolding encode
encode_too_large = refl

decode_non_minimal : decode (0x40 ∷ 0x25 ∷ []) ≡ done (37, 2)
unfolding decode
decode_non_minimal = refl

is_minimal_long : is_minimal 37 2 ≡ false
unfolding is_minimal varint_len
is_minimal_long = refl

-- The decoder inside the number.
abbrev inside : Decoder
inside = record { acc = 7551; need = 4; have = 2 }

decode-encode_example :
    (decode (four_bytes ++ (0xff ∷ [])) ≡ done (494878333, length four_bytes))
    × (length four_bytes ≡ varint_len 494878333)
    × (length four_bytes ≤ 16)
    × All IsByte four_bytes
decode-encode_example = decode-encode 494878333 16 four_bytes (0xff ∷ []) encode_four

encode_cases_example :
    ((varint_max < 300) × (encode 300 1 ≡ fail Status.range))
    ⊎ ((300 ≤ varint_max) × (1 < varint_len 300) × (encode 300 1 ≡ fail buffer))
    ⊎ ((300 ≤ varint_max)
        × (varint_len 300 ≤ 1)
        × ((bs : List ℕ) × (encode 300 1 ≡ done bs) × Shape 300 bs))
encode_cases_example = encode_cases 300 1

decode_sound_example :
    (494878333 < 2 ^ 62)
    × (1 ≤ 4)
    × (4 ≤ 8)
    × (4 ≤ length four_bytes)
    × (decode (take 4 four_bytes) ≡ done (494878333, 4))
    × (decode (take 4 four_bytes ++ (1 ∷ [])) ≡ done (494878333, 4))
unfolding decode
decode_sound_example = decode_sound four_bytes (1 ∷ []) 494878333 4 (ground arith) refl

feed-append_example :
    (2 ≡ length {A = ℕ} (0x9d ∷ 0x7f ∷ []))
    × (feed init ((0x9d ∷ 0x7f ∷ []) ++ (0x3e ∷ 0x7d ∷ []))
        ≡ after 2 (feed inside (0x3e ∷ 0x7d ∷ [])))
unfolding feed
feed-append_example = feed-append init inside 2 (0x9d ∷ 0x7f ∷ []) (0x3e ∷ 0x7d ∷ []) refl

feed-decode_example : answer (feed init four_bytes) ≡ decode four_bytes
feed-decode_example = feed-decode four_bytes (ground arith)
