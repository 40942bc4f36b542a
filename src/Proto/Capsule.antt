-- ===== src/Proto/Capsule.antt =====
-- src/proto/capsule.h and capsule.c: the capsules of a session stream, CLOSE with a 32-bit code and
-- a reason, DRAIN, and any other, which is skipped. `uint32_t` shifts keep their `% 2 ^ 32`.
pub mod Payload
pub mod Pieces
pub mod Stream
pub mod Bounds
pub mod RoundTrip
pub mod Progress
mod Tests
use wtquic.Base.{
  ℕ, zero, suc, ◌+◌, ◌-◌, ◌*◌, ◌/◌, ◌%◌, ◌^◌, bit_or, Bool, ◌&&◌, ◌||◌, not, List, [], ◌∷◌, ◌++◌,
  ltb, ◌==◌, if◌then◌else◌, length, take, drop,
}
use wtquic.Proto.Varint.{Status, Result, done, fail, buffer, need_more, Fed}
use wtquic.Proto.Frame
use wtquic.Proto.Frame.{Frame, written, frame_header_len}

abbrev pub close_session : ℕ
close_session = 0x2843

abbrev pub drain_session : ℕ
drain_session = 0x78ae

abbrev pub max_reason : ℕ
max_reason = 1024

-- A capsule header has the wire shape of an HTTP/3 frame header.
unfoldable pub encode_header : ℕ → ℕ → ℕ → Result (List ℕ)
encode_header type length cap = Frame.encode_header type length cap

unfoldable pub decode_header : List ℕ → Result Frame
decode_header src = Frame.decode_header src

unfoldable pub encode_drain : ℕ → Result (List ℕ)
unfolding encode_header
encode_drain cap = encode_header drain_session 0 cap

-- The four stores of the code, network byte order.
unfoldable pub code_bytes : ℕ → List ℕ
code_bytes code =
    (code / 2 ^ 24 % 256) ∷ (code / 2 ^ 16 % 256) ∷ (code / 2 ^ 8 % 256) ∷ (code % 256) ∷ []

unfoldable pub encode_close : ℕ → List ℕ → ℕ → Result (List ℕ)
unfolding encode_header
encode_close code reason cap =
    let payload_len = 4 + length reason in
    if ltb max_reason (length reason)
    then fail Status.range
    else if ltb cap (frame_header_len close_session payload_len + payload_len)
    then fail buffer
    else done (written (encode_header close_session payload_len cap) ++ (code_bytes code ++ reason))

-- `wtq_capsule_kind_t`; `unset` is the 0 of a decoder between two capsules.
pub data Kind : Type 0 where
  unset close drain unknown : Kind

-- `wtq_capsule_t`; `reason` with its length is the list of bytes pointed to.
pub record Capsule : Type 0 where
  pub kind : Kind
  pub type : ℕ
  pub length : ℕ
  pub header_len : ℕ
  pub close_code : ℕ
  pub reason : List ℕ

pub data DecState : Type 0 where
  reading_header reading_payload poisoned : DecState

-- `wtq_capsule_dec_t`. `reason` is the written part of the array, whose length is `reason_len`.
pub record Decoder : Type 0 where
  pub hdr : Frame.Decoder
  pub state : DecState
  pub kind : Kind
  pub code_have : ℕ
  pub type : ℕ
  pub payload_len : ℕ
  pub remaining : ℕ
  pub header_len : ℕ
  pub code_acc : ℕ
  pub reason : List ℕ

abbrev pub init : Decoder
init = record {
  hdr = Frame.init;
  state = DecState.reading_header;
  kind = unset;
  code_have = 0;
  type = 0;
  payload_len = 0;
  remaining = 0;
  header_len = 0;
  code_acc = 0;
  reason = [];
}

pub classify : Decoder → Result Decoder
classify dec =
    if dec.type == close_session
    then (if ltb dec.payload_len 4 || ltb (4 + max_reason) dec.payload_len
        then fail Status.invalid
        else done (record dec { kind = close }))
    else if dec.type == drain_session
    then (if not (dec.payload_len == 0)
        then fail Status.invalid
        else done (record dec { kind = drain }))
    else done (record dec { kind = unknown })

-- The capsule that `emit` writes out.
pub emitted : Decoder → Capsule
emitted dec = record {
  kind = dec.kind;
  type = dec.type;
  length = dec.payload_len;
  header_len = dec.header_len;
  close_code = dec.code_acc;
  reason = dec.reason;
}

-- `emit`, and the return of OK behind it.
pub emit : Decoder → ℕ → Fed Decoder Capsule
unfolding emitted
emit dec eaten = record { dec = init; out = done (emitted dec); consumed = eaten }

-- The loop over the bytes of the code; it gives the bytes that it did not take.
pub code_loop : Decoder → List ℕ → Decoder × List ℕ
code_loop dec [] = (dec, [])
code_loop dec (b ∷ src) =
    if ltb dec.code_have 4
    then code_loop
        (record dec {
          code_acc = bit_or (dec.code_acc * 256 % 2 ^ 32) b;
          code_have = (dec.code_have + 1) % 256;
        })
        src
    else (dec, b ∷ src)

-- The loop over the bytes of the reason.
pub reason_loop : Decoder → List ℕ → Decoder
reason_loop dec [] = dec
reason_loop dec (b ∷ src) = reason_loop (record dec { reason = dec.reason ++ (b ∷ []) }) src

pub close_bytes : Decoder × List ℕ → Decoder
unfolding reason_loop
close_bytes (dec, src) = reason_loop dec src

-- One round of the payload loop over the `n` bytes `taken`.
pub payload_round : Decoder → List ℕ → Decoder
unfolding code_loop close_bytes
payload_round dec taken =
    let dec' : Decoder = elim (dec.kind) [ close ↦ close_bytes (code_loop dec taken) | _ ↦ dec ] in
    record dec' { remaining = dec'.remaining - length taken }

-- `while (dec->remaining > 0 && eaten < len)`: a round takes `min remaining avail` bytes. Each
-- takes one at least, so `length src` rounds are enough.
pub payload_loop : ℕ → Decoder → ℕ → List ℕ → Decoder × ℕ
payload_loop zero dec eaten src = (dec, eaten)
payload_loop (suc fuel) dec eaten src =
    let n = if ltb dec.remaining (length src) then dec.remaining else length src in
    let next = payload_loop fuel (payload_round dec (take n src)) (eaten + n) (drop n src) in
    if ltb 0 dec.remaining && ltb 0 (length src) then next else (dec, eaten)

-- The code below the payload loop.
pub payload_end : Decoder × ℕ → Fed Decoder Capsule
unfolding emit
payload_end (dec, eaten) =
    if ltb 0 dec.remaining
    then record { dec = dec; out = fail need_more; consumed = eaten }
    else emit dec eaten

pub feed_payload : Decoder → ℕ → List ℕ → Fed Decoder Capsule
unfolding payload_loop payload_round payload_end
feed_payload dec eaten next = payload_end (payload_loop (length next) dec eaten next)

-- The fields set from a complete header.
pub with_header : Decoder → Frame.Decoder → Frame → Decoder
with_header dec hdr f = record dec {
  hdr = hdr;
  type = f.type;
  payload_len = f.length;
  remaining = f.length;
  header_len = f.header_len;
  code_have = 0;
  code_acc = 0;
  reason = [];
}

-- The code behind `wtq_h3_frame_dec_feed`, which gave `r`, and the payload.
pub header_read : Decoder → List ℕ → Fed Frame.Decoder Frame → Fed Decoder Capsule
unfolding classify with_header emit feed_payload
header_read dec src r = elim (r.out) [
  | fail s ↦ record { dec = record dec { hdr = r.dec }; out = fail s; consumed = r.consumed }
  | done f ↦ elim (classify (with_header dec r.dec f)) [
    | fail s ↦ record {
      dec = record (with_header dec r.dec f) { state = DecState.poisoned };
      out = fail s;
      consumed = r.consumed;
    }
    | done dec' ↦
        if dec'.remaining == 0
        then emit dec' r.consumed
        else feed_payload (record dec' { state = DecState.reading_payload }) r.consumed
            (drop r.consumed src)
  ]
]

unfoldable pub feed : Decoder → List ℕ → Fed Decoder Capsule
unfolding header_read feed_payload
feed dec src = elim (dec.state) [
  | DecState.reading_header ↦ header_read dec src (Frame.feed dec.hdr src)
  | DecState.reading_payload ↦ feed_payload dec 0 src
  | DecState.poisoned ↦ record { dec = dec; out = fail Status.invalid; consumed = 0 }
]
