-- ===== src/Proto/Frame.antt =====
-- src/proto/h3_frame.h and h3_frame.c: the HTTP/3 frame header, a type and a length as varints.
pub mod Header
pub mod Stream
pub mod Progress
mod Tests
use wtquic.Base.{
  ℕ, ◌+◌, ◌-◌, Bool, ◌||◌, List, [], ◌∷◌, ◌++◌, ltb, ◌==◌, if◌then◌else◌, length, drop,
}
use wtquic.Proto.Varint
use wtquic.Proto.Varint.{Status, Result, done, fail, buffer, Fed, varint_len}

-- `wtq_h3_frame_t`; the payload is not part of it.
pub record Frame : Type 0 where
  pub type : ℕ
  pub length : ℕ
  pub header_len : ℕ

unfoldable pub frame_header_len : ℕ → ℕ → ℕ
frame_header_len type length =
    let tl = varint_len type in
    let ll = varint_len length in if tl == 0 || ll == 0 then 0 else tl + ll

-- What a call of `wtq_varint_encode` wrote whose status is not looked at.
abbrev pub written : Result (List ℕ) → List ℕ
written (done bs) = bs
written (fail s) = []

unfoldable pub encode_header : ℕ → ℕ → ℕ → Result (List ℕ)
encode_header type length cap =
    let need = frame_header_len type length in
    if need == 0
    then fail Status.range
    else if ltb cap need
    then fail buffer
    else let head = written (Varint.encode type cap) in
      done (head ++ written (Varint.encode length (cap - wtquic.Base.length head)))

infixl 5 ◌>>=◌
abbrev pub ◌>>=◌ : {A B : Type 0} → Result A → (A → Result B) → Result B
done a >>= f = f a
fail s >>= f = fail s

unfoldable pub decode_header : List ℕ → Result Frame
decode_header src = do
  (type, tl) ← Varint.decode src
  (length, ll) ← Varint.decode (drop tl src)
  done (record { type = type; length = length; header_len = tl + ll })

-- `wtq_h3_frame_dec_state_t`
pub data DecState : Type 0 where
  reading_type reading_length : DecState

pub record Decoder : Type 0 where
  pub vi : Varint.Decoder
  pub type : ℕ
  pub hdr_bytes : ℕ
  pub state : DecState

abbrev pub init : Decoder
init = record { vi = Varint.init; type = 0; hdr_bytes = 0; state = DecState.reading_type }

-- The code behind the second `wtq_varint_dec_feed`, which gave `r`, `eaten` bytes into the piece.
pub length_read : Decoder → ℕ → Fed Varint.Decoder ℕ → Fed Decoder Frame
length_read dec eaten r =
    let hdr = dec.hdr_bytes + r.consumed in
    elim (r.out) [
      | fail s ↦ record {
        dec = record dec { vi = r.dec; hdr_bytes = hdr };
        out = fail s;
        consumed = eaten + r.consumed;
      }
      | done length ↦ record {
        dec = init;
        out = done (record { type = dec.type; length = length; header_len = hdr });
        consumed = eaten + r.consumed;
      }
    ]

-- The second half of `wtq_h3_frame_dec_feed`; `next` is `src + eaten`.
pub feed_length : Decoder → ℕ → List ℕ → Fed Decoder Frame
unfolding length_read
feed_length dec eaten next = length_read dec eaten (Varint.feed dec.vi next)

-- The code behind the first `wtq_varint_dec_feed`, which gave `r`, and the second half.
pub type_read : Decoder → List ℕ → Fed Varint.Decoder ℕ → Fed Decoder Frame
unfolding feed_length
type_read dec src r =
    let hdr = dec.hdr_bytes + r.consumed in
    elim (r.out) [
      | fail s ↦ record {
        dec = record dec { vi = r.dec; hdr_bytes = hdr };
        out = fail s;
        consumed = r.consumed;
      }
      | done v ↦
          feed_length
            (record { vi = r.dec; type = v; hdr_bytes = hdr; state = DecState.reading_length })
            r.consumed (drop r.consumed src)
    ]

unfoldable pub feed : Decoder → List ℕ → Fed Decoder Frame
unfolding type_read feed_length
feed dec src = elim (dec.state) [
  | DecState.reading_type ↦ type_read dec src (Varint.feed dec.vi src)
  | DecState.reading_length ↦ feed_length dec 0 src
]
