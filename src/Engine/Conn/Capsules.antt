-- ===== src/Engine/Conn/Capsules.antt =====
-- src/engine/conn.c: the life of an established session, that is the capsules on its stream in both
-- directions, and the FIN of a request stream.
use wtquic.Base.{
  ℕ, zero, suc, ◌+◌, ◌-◌, Bool, true, false, not, ◌&&◌, ◌||◌, List, [], ◌∷◌, ◌++◌, Option, some,
  none, ltb, if◌then◌else◌, length, drop,
}
use wtquic.Proto.Varint.{Result, Fed, done, fail, need_more}
use wtquic.Proto.Varint
use wtquic.Proto.Frame.{written}
use wtquic.Proto.Frame
use wtquic.Proto.Capsule
use wtquic.Engine.Conn.{
  Conn, Estream, SessionState, bad_response, call, send, is_connect, is_request, session_active,
  session_failed, session_draining, session_closed, conn_fatal, h3_internal_error, h3_frame_error,
  h3_request_incomplete, h3_message_error,
}
use wtquic.Engine.Conn.Exchange.{
  is_sent, request_stream_refuse_err, request_stream_fail, session_stream_poisoned,
  forget_session_stream,
}

abbrev pub is_over : SessionState → Bool
is_over SessionState.closed = true
is_over _ = false

-- What a round of the loop over the capsules ends with: a return, or the bytes to go on with.
pub data Round : Type 0 where
  return : Conn → Round
  continue : List ℕ → Conn → Round

-- Bytes behind a CLOSE in the same delivery poison the stream.
abbrev pub after_close : ℕ → List ℕ → Conn → Round
after_close i [] c = continue [] c
after_close i (b ∷ data_) c = return (session_stream_poisoned i c)

-- A capsule of a session that is over is consumed silently; a CLOSE is recorded.
unfoldable pub late_capsule : ℕ → Capsule.Kind → List ℕ → Conn → Round
late_capsule i Capsule.close rest c = after_close i rest (record c { close_capsule_rx = true })
late_capsule i Capsule.drain rest c = continue rest c
late_capsule i Capsule.unset rest c = continue rest c
late_capsule i Capsule.unknown rest c = continue rest c

unfoldable pub live_capsule : ℕ → Capsule.Capsule → Capsule.Kind → List ℕ → Conn → Round
unfolding session_closed session_draining
live_capsule i cap Capsule.close rest c =
    after_close i rest
      (session_closed cap.close_code cap.reason true (record c { close_capsule_rx = true }))
live_capsule i cap Capsule.drain rest c = continue rest (session_draining c)
live_capsule i cap Capsule.unset rest c = continue rest c
live_capsule i cap Capsule.unknown rest c = continue rest c

-- MALFORMED ends the stream of a session that is over, and the connection of one that is not.
abbrev pub bad_capsule : Bool → ℕ → Estream → Conn → Conn
bad_capsule terminal i es c =
    if terminal then request_stream_fail i es h3_message_error c else conn_fatal h3_message_error c

unfoldable pub capsule_fed : ℕ → Estream → Bool → Result Capsule.Capsule → List ℕ → Conn → Round
unfolding late_capsule live_capsule
capsule_fed i es terminal (fail need_more) rest c = return c
capsule_fed i es terminal (fail Varint.buffer) rest c = return (bad_capsule terminal i es c)
capsule_fed i es terminal (fail Varint.range) rest c = return (bad_capsule terminal i es c)
capsule_fed i es terminal (fail Varint.invalid) rest c = return (bad_capsule terminal i es c)
capsule_fed i es terminal (done cap) rest c =
    if terminal then late_capsule i cap.kind rest c else live_capsule i cap cap.kind rest c

unfoldable pub capsule_round : ℕ → Estream → List ℕ → Conn → Round
unfolding capsule_fed
capsule_round i es bytes c =
    let fed = Capsule.feed c.caps_dec bytes in
    capsule_fed i es (is_over c.sess_state) fed.out (drop fed.consumed bytes)
      (record c { caps_dec = fed.dec })

-- `while (off < len && !conn->closed)`. A round takes a byte at least, but for the first one, which
-- goes on with a decoder that is left inside a capsule. `none` is out of fuel.
unfoldable pub capsule_loop : ℕ → ℕ → Estream → List ℕ → Conn → Option Conn
unfolding capsule_round
capsule_loop fuel i es [] c = some c
capsule_loop zero i es (b ∷ bytes) c = none
capsule_loop (suc fuel) i es (b ∷ bytes) c =
    if c.is_closed then some c else elim (capsule_round i es (b ∷ bytes) c) [
      | return c' ↦ some c'
      | continue rest c' ↦ capsule_loop fuel i es rest c'
    ]

-- The connection that a loop leaves; it is never out of fuel.
abbrev pub left_by : Option Conn → Conn → Conn
left_by none c = c
left_by (some d) c = d

unfoldable pub session_capsule_bytes : ℕ → Estream → List ℕ → Conn → Conn
unfolding capsule_loop
session_capsule_bytes i es bytes c =
    if c.close_capsule_rx
    then session_stream_poisoned i c
    else left_by (capsule_loop (suc (length bytes)) i es bytes c) c

-- The results of the calls below: `WTQ_OK` and the errors.
pub data CallResult : Type 0 where
  success invalid_arg too_large closed_error state_error backend_error : CallResult

-- `unit`: sixteen bytes for each header, and the reason.
abbrev pub unit_cap : ℕ
unit_cap = 16 + 16 + Capsule.max_reason

abbrev pub submitted : Bool → Conn → CallResult × Conn
submitted true c = (success, c)
submitted false c = (backend_error, conn_fatal h3_internal_error c)

abbrev pub send_unit : Result (List ℕ) → List ℕ → Bool → ℕ → Conn → CallResult × Conn
send_unit (fail s) cap fin ds c = (backend_error, c)
send_unit (done header) cap fin ds c =
    if ltb (unit_cap - length header) (length cap)
    then (backend_error, c)
    else (let c' = call (send ds (header ++ cap) fin) c in
        submitted (c.ops.send_accepted c'.log) c')

-- The DATA frame of a capsule, in one submission on the stream `ds`.
unfoldable pub session_send_capsule : List ℕ → Bool → ℕ → Conn → CallResult × Conn
session_send_capsule cap fin ds c =
    send_unit (Frame.encode_header 0x00 (length cap) unit_cap) cap fin ds c

abbrev pub then_closed : ℕ → List ℕ → CallResult × Conn → CallResult × Conn
then_closed code reason (success, c) = (success, session_closed code reason true c)
then_closed code reason (invalid_arg, c) = (invalid_arg, c)
then_closed code reason (too_large, c) = (too_large, c)
then_closed code reason (closed_error, c) = (closed_error, c)
then_closed code reason (state_error, c) = (state_error, c)
then_closed code reason (backend_error, c) = (backend_error, c)

abbrev pub close_encoded : Result (List ℕ) → ℕ → List ℕ → ℕ → Conn → CallResult × Conn
close_encoded (fail s) code reason ds c = (invalid_arg, c)
close_encoded (done cap) code reason ds c =
    then_closed code reason (session_send_capsule cap true ds c)

-- The session's stream, which a call needs besides an active session.
abbrev pub on_session_stream : Option ℕ → (ℕ → Conn → CallResult × Conn) → Conn → CallResult × Conn
on_session_stream none f c = (state_error, c)
on_session_stream (some ds) f c = if not (session_active c) then (state_error, c) else f ds c

unfoldable pub session_close : ℕ → List ℕ → Conn → CallResult × Conn
unfolding session_send_capsule session_closed
session_close code reason c =
    if ltb Capsule.max_reason (length reason)
    then (too_large, c)
    else if c.is_closed
    then (closed_error, c)
    else on_session_stream c.session_es
        (close_encoded (Capsule.encode_close code reason (16 + Capsule.max_reason)) code reason) c

abbrev pub drain_encoded : Result (List ℕ) → ℕ → Conn → CallResult × Conn
drain_encoded (fail s) ds c = (backend_error, c)
drain_encoded (done cap) ds c = session_send_capsule cap false ds c

-- Draining is advisory: the state does not change.
unfoldable pub session_drain : Conn → CallResult × Conn
unfolding session_send_capsule
session_drain c =
    if c.is_closed
    then (closed_error, c)
    else on_session_stream c.session_es (drain_encoded (Capsule.encode_drain 8)) c

-- The capsule decoder is inside a capsule.
unfoldable pub capsule_truncated : Capsule.Decoder → Bool
capsule_truncated dec = in_payload dec.state || ltb 0 dec.hdr.hdr_bytes
  where
    in_payload : Capsule.DecState → Bool
    in_payload Capsule.reading_header = false
    in_payload Capsule.reading_payload = true
    in_payload Capsule.poisoned = false

unfoldable pub session_stream_fin : ℕ → Bool → Conn → Conn
unfolding conn_fatal request_stream_refuse_err session_closed
session_stream_fin i truncated c =
    if truncated
    then conn_fatal h3_frame_error c
    else if c.close_capsule_rx
    then c
    else if capsule_truncated c.caps_dec
    then (if is_over c.sess_state
        then request_stream_refuse_err i h3_message_error c
        else conn_fatal h3_message_error c)
    else session_closed 0 [] true c

unfoldable pub request_stream_fin : ℕ → Estream → Conn → Conn
unfolding session_stream_fin session_failed
request_stream_fin i es c =
    let truncated = es.frame_active || ltb 0 es.frame_dec.hdr_bytes in
    let pending = is_connect es.kind && not c.session_established && is_sent c.sess_state in
    if es.request_dead
    then c
    else if es.is_session_stream
    then session_stream_fin i truncated (forget_session_stream i c)
    else if truncated
    then conn_fatal h3_frame_error (if pending then session_failed bad_response c else c)
    else if is_request es.kind && not es.headers_done
    then conn_fatal h3_request_incomplete c
    else if pending
    then session_failed bad_response c
    else c
