-- ===== src/Proto/Preamble.antt =====
-- src/proto/preamble.h and preamble.c: the prefix of a WebTransport stream, a type varint that
-- tells the kind and the session id.
pub mod RoundTrip
pub mod Stream
mod Tests
use wtquic.Base.{ℕ, ◌+◌, ◌-◌, ◌^◌, Bool, ◌||◌, List, ◌++◌, ltb, ◌==◌, if◌then◌else◌, length, drop}
use wtquic.Proto.Varint
use wtquic.Proto.Varint.{Status, Result, done, fail, buffer, Fed, varint_len, varint_max}
use wtquic.Proto.Frame.{written}

-- `wtq_preamble_kind_t`; `other` is any value of the C enumeration's type that names no kind.
pub data Kind : Type 0 where
  bidi uni other : Kind

abbrev pub invalid_type : ℕ
invalid_type = 2 ^ 64 - 1

unfoldable pub kind_codepoint : Kind → ℕ
kind_codepoint Kind.bidi = 0x41
kind_codepoint Kind.uni = 0x54
kind_codepoint Kind.other = invalid_type

unfoldable pub encode : Kind → ℕ → ℕ → Result (List ℕ)
encode kind session_id cap =
    let type = kind_codepoint kind in
    if type == invalid_type || ltb varint_max session_id
    then fail Status.range
    else if ltb cap (varint_len type + varint_len session_id)
    then fail buffer
    else let head = written (Varint.encode type cap) in
      done (head ++ written (Varint.encode session_id (cap - length head)))

-- `wtq_preamble_t`
pub record Preamble : Type 0 where
  pub kind : Kind
  pub session_id : ℕ
  pub header_len : ℕ
  pub wire_type : ℕ

-- The two statuses that write to `*out`: OK, and UNEXPECTED, which writes `wire_type` alone.
pub data Answer : Type 0 where
  preamble : Preamble → Answer
  unexpected : ℕ → Answer

pub data DecState : Type 0 where
  reading_type reading_session poisoned : DecState

pub record Decoder : Type 0 where
  pub vi : Varint.Decoder
  pub state : DecState
  pub wire_type : ℕ
  pub hdr_bytes : ℕ

abbrev pub init : Decoder
init = record { vi = Varint.init; state = DecState.reading_type; wire_type = 0; hdr_bytes = 0 }

-- The code behind the second `wtq_varint_dec_feed`, which gave `r`.
pub session_read : Decoder → Kind → ℕ → Fed Varint.Decoder ℕ → Fed Decoder Answer
session_read dec expect eaten r =
    let hdr = dec.hdr_bytes + r.consumed in
    elim (r.out) [
      | fail s ↦ record {
        dec = record dec { vi = r.dec; hdr_bytes = hdr };
        out = fail s;
        consumed = eaten + r.consumed;
      }
      | done sid ↦ record {
        dec = init;
        out = done (
            preamble (record {
              kind = expect;
              session_id = sid;
              header_len = hdr;
              wire_type = dec.wire_type;
            }));
        consumed = eaten + r.consumed;
      }
    ]

-- The second half of `wtq_preamble_dec_feed`; `next` is `src + eaten`.
pub feed_session : Decoder → Kind → ℕ → List ℕ → Fed Decoder Answer
unfolding session_read
feed_session dec expect eaten next = session_read dec expect eaten (Varint.feed dec.vi next)

-- The code behind the first `wtq_varint_dec_feed`, which gave `r`, and the second half.
pub type_read : Decoder → Kind → List ℕ → Fed Varint.Decoder ℕ → Fed Decoder Answer
unfolding feed_session kind_codepoint
type_read dec expect src r =
    let hdr = dec.hdr_bytes + r.consumed in
    elim (r.out) [
      | fail s ↦ record {
        dec = record dec { vi = r.dec; hdr_bytes = hdr };
        out = fail s;
        consumed = r.consumed;
      }
      | done v ↦
          let session : Decoder = record {
            vi = r.dec;
            state = DecState.reading_session;
            wire_type = v;
            hdr_bytes = hdr;
          } in
          if v == kind_codepoint expect
          then feed_session session expect r.consumed (drop r.consumed src)
          else record {
            dec = record session { state = DecState.poisoned };
            out = done (unexpected v);
            consumed = r.consumed;
          }
    ]

unfoldable pub feed : Decoder → Kind → List ℕ → Fed Decoder Answer
unfolding type_read feed_session
feed dec expect src = elim (dec.state) [
  | DecState.reading_type ↦ type_read dec expect src (Varint.feed dec.vi src)
  | DecState.reading_session ↦ feed_session dec expect 0 src
  | DecState.poisoned ↦ record { dec = dec; out = done (unexpected dec.wire_type); consumed = 0 }
]

unfoldable pub decode : Kind → List ℕ → Result Answer
unfolding feed
decode expect src = (feed init expect src).out
