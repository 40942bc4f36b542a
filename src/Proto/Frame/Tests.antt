-- ===== src/Proto/Frame/Tests.antt =====
-- Runs of src/proto/h3_frame.c, and instances of what is proved of it.
use wtquic.Base.{ℕ, ◌≤◌, ◌<◌, ◌≡◌, refl, arith, List, [], ◌∷◌, ◌++◌, length, All, ◌⊎◌}
use wtquic.Proto.Varint
use wtquic.Proto.Varint.{Result, done, fail, need_more, buffer, Status, Fed, varint_max}
use wtquic.Proto.Varint.Push.{IsByte}
use wtquic.Proto.Varint.Stream.{after}
use wtquic.Proto.Frame.{
  Decoder, DecState, init, feed, frame_header_len, encode_header, decode_header,
}
use wtquic.Proto.Frame.Header.{Written, decode_header-encode_header, encode_header_cases}
use wtquic.Proto.Frame.Stream.{feed_header-append, feed-decode_header}

-- A DATA frame of 300 bytes.
abbrev data_header : List ℕ
data_header = 0x00 ∷ 0x41 ∷ 0x2c ∷ []

encode_data : encode_header 0 300 8 ≡ done data_header
unfolding encode_header frame_header_len Varint.encode
encode_data = refl

-- The decoder behind the type and the first byte of the length.
abbrev in_length : Decoder
in_length = record {
  vi = record { acc = 1; need = 2; have = 1 };
  type = 0;
  hdr_bytes = 2;
  state = DecState.reading_length;
}

decode_header-encode_header_example :
    (decode_header (data_header ++ (9 ∷ []))
      ≡ done (record { type = 0; length = 300; header_len = length data_header }))
    × (length data_header ≡ frame_header_len 0 300)
    × (length data_header ≤ 8)
    × All IsByte data_header
decode_header-encode_header_example =
    decode_header-encode_header 0 300 8 data_header (9 ∷ []) encode_data

encode_header_cases_example :
    (((varint_max < 0) ⊎ (varint_max < 300)) × (encode_header 0 300 2 ≡ fail Status.range))
    ⊎ ((0 ≤ varint_max)
        × (300 ≤ varint_max)
        × (2 < frame_header_len 0 300)
        × (encode_header 0 300 2 ≡ fail buffer))
    ⊎ ((0 ≤ varint_max) × (300 ≤ varint_max) × (frame_header_len 0 300 ≤ 2) × Written 0 300 2)
encode_header_cases_example = encode_header_cases 0 300 2

feed_header-append_example :
    (2 ≡ length {A = ℕ} (0x00 ∷ 0x41 ∷ []))
    × (feed init ((0x00 ∷ 0x41 ∷ []) ++ (0x2c ∷ [])) ≡ after 2 (feed in_length (0x2c ∷ [])))
unfolding feed Varint.feed
feed_header-append_example = feed_header-append init in_length 2 (0x00 ∷ 0x41 ∷ []) (0x2c ∷ []) refl

feed-decode_header_example : (feed init data_header).out ≡ decode_header data_header
feed-decode_header_example = feed-decode_header data_header (ground arith)
