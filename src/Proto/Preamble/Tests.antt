-- ===== src/Proto/Preamble/Tests.antt =====
-- Runs of src/proto/preamble.c, and instances of what is proved of it.
use wtquic.Base.{ℕ, ◌≤◌, ◌≡◌, ◌≢◌, ◌⊎◌, refl, List, [], ◌∷◌, ◌++◌, length}
use wtquic.Proto.Varint
use wtquic.Proto.Varint.{Result, done, fail, need_more, buffer, Status, Fed}
use wtquic.Proto.Varint.Stream.{after}
use wtquic.Proto.Preamble.{
  Kind, preamble, unexpected, Decoder, DecState, init, kind_codepoint, encode, feed, decode,
}
use wtquic.Proto.Preamble.Stream.{feed_preamble-append}
use wtquic.Proto.Preamble.RoundTrip.{HasType, decode_preamble-encode, unexpected_stays}

-- A unidirectional stream of session 300.
abbrev uni_bytes : List ℕ
uni_bytes = 0x40 ∷ 0x54 ∷ 0x41 ∷ 0x2c ∷ []

encode_uni : encode Kind.uni 300 8 ≡ done uni_bytes
unfolding encode Varint.encode kind_codepoint
encode_uni = refl

encode_no_kind : encode Kind.other 300 8 ≡ fail Status.range
unfolding encode kind_codepoint
encode_no_kind = refl

-- The decoder behind the type.
abbrev in_session : Decoder
in_session = record {
  vi = Varint.init;
  state = DecState.reading_session;
  wire_type = 0x54;
  hdr_bytes = 2;
}

-- The decoder that met another type.
abbrev refused : Decoder
refused = record in_session { state = DecState.poisoned }

feed_preamble-append_example :
    (2 ≡ length {A = ℕ} (0x40 ∷ 0x54 ∷ []))
    × (feed init Kind.uni ((0x40 ∷ 0x54 ∷ []) ++ (0x41 ∷ 0x2c ∷ []))
        ≡ after 2 (feed in_session Kind.uni (0x41 ∷ 0x2c ∷ [])))
unfolding feed Varint.feed kind_codepoint
feed_preamble-append_example =
    feed_preamble-append init in_session Kind.uni 2 (0x40 ∷ 0x54 ∷ []) (0x41 ∷ 0x2c ∷ []) refl

decode_preamble-encode_example :
    (length uni_bytes ≤ 8)
    × ((w : ℕ) × HasType Kind.uni w
        × (((Kind.uni ≡ Kind.uni)
              × (decode Kind.uni (uni_bytes ++ (7 ∷ []))
                  ≡ done (
                      preamble (record {
                        kind = Kind.uni;
                        session_id = 300;
                        header_len = length uni_bytes;
                        wire_type = w;
                      }))))
            ⊎ ((Kind.uni ≢ Kind.uni)
                × (decode Kind.uni (uni_bytes ++ (7 ∷ [])) ≡ done (unexpected w)))))
decode_preamble-encode_example =
    decode_preamble-encode Kind.uni Kind.uni 300 8 uni_bytes (7 ∷ []) encode_uni

unexpected_stays_example :
    feed refused Kind.uni (1 ∷ 2 ∷ [])
    ≡ record { dec = refused; out = done (unexpected 0x54); consumed = 0 }
unfolding feed Varint.feed kind_codepoint
unexpected_stays_example =
    unexpected_stays init refused Kind.bidi Kind.uni uni_bytes (1 ∷ 2 ∷ []) 0x54 2 refl
