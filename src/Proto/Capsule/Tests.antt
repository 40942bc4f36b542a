-- ===== src/Proto/Capsule/Tests.antt =====
-- Runs of src/proto/capsule.c, and instances of what is proved of it.
use wtquic.Base.{ℕ, ◌+◌, ◌≤◌, ◌≡◌, refl, arith, List, [], ◌∷◌, ◌++◌, length}
use wtquic.Proto.Varint
use wtquic.Proto.Varint.{Result, done, fail, need_more, buffer, Status, Fed}
use wtquic.Proto.Varint.Stream.{after}
use wtquic.Proto.Frame
use wtquic.Proto.Capsule.{
  Kind, Capsule, Decoder, DecState, init, close, drain, unknown, close_session, drain_session,
  encode_close, encode_drain, feed,
}
use wtquic.Proto.Capsule.Stream.{feed_capsule-append}
use wtquic.Proto.Capsule.RoundTrip.{feed-encode_close}
use wtquic.Proto.Capsule.Bounds.{Safe, init-IsValid, feed-IsValid, malformed_stays}

-- CLOSE 258 with the reason "no".
abbrev close_start : List ℕ
close_start = 0x68 ∷ 0x43 ∷ 0x06 ∷ 0x00 ∷ 0x00 ∷ []

abbrev close_rest : List ℕ
close_rest = 0x01 ∷ 0x02 ∷ 0x6e ∷ 0x6f ∷ []

abbrev close_bytes : List ℕ
close_bytes = close_start ++ close_rest

abbrev drain_bytes : List ℕ
drain_bytes = 0x80 ∷ 0x00 ∷ 0x78 ∷ 0xae ∷ 0x00 ∷ []

-- A CLOSE whose payload is too short for a code.
abbrev bad_close : List ℕ
bad_close = 0x68 ∷ 0x43 ∷ 0x03 ∷ []

encode_no : encode_close 258 (0x6e ∷ 0x6f ∷ []) 32 ≡ done close_bytes
unfolding encode_close Frame.frame_header_len Varint.varint_len Frame.encode_header Varint.encode
    wtquic.Proto.Capsule.code_bytes
encode_no = refl

encode_drained : encode_drain 32 ≡ done drain_bytes
unfolding encode_drain Frame.encode_header Frame.frame_header_len Varint.varint_len Varint.encode
encode_drained = refl

-- The decoder behind two bytes of the code.
abbrev in_code : Decoder
in_code = record {
  hdr = Frame.init;
  state = DecState.reading_payload;
  kind = close;
  code_have = 2;
  type = close_session;
  payload_len = 6;
  remaining = 4;
  header_len = 3;
  code_acc = 0;
  reason = [];
}

feed_capsule-append_example :
    (5 ≡ length close_start)
    × (feed init (close_start ++ close_rest) ≡ after 5 (feed in_code close_rest))
unfolding feed Frame.feed Varint.feed
feed_capsule-append_example = feed_capsule-append init in_code 5 close_start close_rest refl

feed-encode_close_example :
    (length close_bytes ≤ 32)
    × ((n : ℕ) × (length close_bytes ≡ n + (4 + length {A = ℕ} (0x6e ∷ 0x6f ∷ [])))
        × (feed init (close_bytes ++ (9 ∷ [])) ≡ record {
          dec = init;
          out = done (record {
            kind = close;
            type = close_session;
            length = 4 + length {A = ℕ} (0x6e ∷ 0x6f ∷ []);
            header_len = n;
            close_code = 258;
            reason = 0x6e ∷ 0x6f ∷ [];
          });
          consumed = length close_bytes;
        }))
feed-encode_close_example =
    feed-encode_close 258 32 (0x6e ∷ 0x6f ∷ []) close_bytes (9 ∷ []) (omega arith) encode_no

feed-IsValid_example : Safe (feed init close_bytes)
feed-IsValid_example = feed-IsValid init close_bytes init-IsValid

malformed_stays_example :
    feed (feed init bad_close).dec close_bytes
    ≡ record { dec = (feed init bad_close).dec; out = fail Status.invalid; consumed = 0 }
unfolding feed Frame.feed Varint.feed
malformed_stays_example = malformed_stays init bad_close close_bytes refl
