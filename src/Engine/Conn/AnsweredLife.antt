-- ===== src/Engine/Conn/AnsweredLife.antt =====
-- The handlers of an established session in src/engine/conn.c keep to the invariant of the waiting
-- streams.
use wtquic.Base.{
  ℕ, zero, suc, ◌+◌, ◌-◌, ◌≡◌, refl, Bool, true, false, not, List, [], ◌∷◌, ◌++◌, Option, some,
  none, if◌then◌else◌, length, ltb, drop,
}
use wtquic.Proto.Varint
use wtquic.Proto.Varint.{Result, done, fail, need_more}
use wtquic.Proto.Capsule
use wtquic.Proto.Frame
use wtquic.Engine.Conn.{
  Conn, Estream, call, send, same, session_active, estream_release, shutdown_raw, h3_internal_error,
  h3_frame_error, h3_message_error,
}
use wtquic.Engine.Conn.Exchange.{
  dead, request_stream_refuse_err, request_stream_fail, parked_request_cancel,
  forget_session_stream, session_stream_poisoned,
}
use wtquic.Engine.Conn.Waits.{Waits}
use wtquic.Engine.Conn.Answered.{
  Waits-if, core-Waits, conn_fatal-Waits, dead-Mild, update-Waits, shutdown_raw-Waits,
  estream_release-Waits, session_closed-Waits, session_draining-Waits,
}
use wtquic.Engine.Conn.Capsules.{
  Round, return, continue, is_over, after_close, late_capsule, live_capsule, bad_capsule,
  capsule_fed, capsule_round, capsule_loop, left_by, session_capsule_bytes, CallResult, submitted,
  send_unit, unit_cap, session_send_capsule, then_closed, close_encoded, on_session_stream,
  session_close, drain_encoded, session_drain, session_stream_fin, capsule_truncated,
}

refuse-Waits : (i code : ℕ) (c : Conn) → Waits c → Waits (request_stream_refuse_err i code c)
unfolding request_stream_refuse_err
refuse-Waits i code c w =
    update-Waits i dead (shutdown_raw i true true code c) dead-Mild
      (shutdown_raw-Waits i true true code c w)

pub forget-Waits : (i : ℕ) (c : Conn) → Waits c → Waits (forget_session_stream i c)
forget-Waits i c w = core-Waits c (forget_session_stream i c) refl refl refl w

pub cancel-Waits : (c : Conn) → Waits c → Waits (parked_request_cancel c)
unfolding parked_request_cancel
cancel-Waits c w = core-Waits c (parked_request_cancel c) refl refl refl w

pub request_stream_fail-Waits :
    (i : ℕ) (es : Estream) (code : ℕ) (c : Conn) → Waits c → Waits (request_stream_fail i es code c)
unfolding request_stream_fail
request_stream_fail-Waits i es code c w =
    let c1 = request_stream_refuse_err i code c in
    let w1 = refuse-Waits i code c w in
    let c2 = if same c1.parked_es i then parked_request_cancel c1 else c1 in
    let w2 : Waits c2 = Waits-if (same c1.parked_es i) _ _ (λ b. cancel-Waits c1 w1) (λ b. w1) in
    let c3 = forget_session_stream i c2 in
    Waits-if es.is_session_stream _ _
      (λ b.
        session_closed-Waits 0 [] false (estream_release i c3)
          (estream_release-Waits i c3 (forget-Waits i c2 w2)))
      (λ b. w2)

poisoned-Waits : (i : ℕ) (c : Conn) → Waits c → Waits (session_stream_poisoned i c)
unfolding session_stream_poisoned
poisoned-Waits i c w =
    let d = shutdown_raw i true true h3_message_error c in
    estream_release-Waits i (forget_session_stream i d)
      (forget-Waits i d (shutdown_raw-Waits i true true h3_message_error c w))

abbrev WaitsRound : Round → Type 0
WaitsRound (return d) = Waits d
WaitsRound (continue rest d) = Waits d

after_close-Waits : (i : ℕ) (rest : List ℕ) (d : Conn) → Waits d → WaitsRound (after_close i rest d)
after_close-Waits i [] d w = w
after_close-Waits i (b ∷ rest) d w = poisoned-Waits i d w

module _ (i : ℕ) (es : Estream) (rest : List ℕ) (c : Conn) (w : Waits c) where
  recorded : Waits (record c { close_capsule_rx = true })
  recorded = core-Waits c (record c { close_capsule_rx = true }) refl refl refl w

  late-Waits : (k : Capsule.Kind) → WaitsRound (late_capsule i k rest c)
  unfolding late_capsule
  late-Waits Capsule.close = after_close-Waits i rest _ recorded
  late-Waits Capsule.drain = w
  late-Waits Capsule.unset = w
  late-Waits Capsule.unknown = w

  live-Waits : (cp : Capsule.Capsule) (k : Capsule.Kind) → WaitsRound (live_capsule i cp k rest c)
  unfolding live_capsule
  live-Waits cp Capsule.close =
      after_close-Waits i rest _ (session_closed-Waits cp.close_code cp.reason true _ recorded)
  live-Waits cp Capsule.drain = session_draining-Waits c w
  live-Waits cp Capsule.unset = w
  live-Waits cp Capsule.unknown = w

  bad-Waits : (terminal : Bool) → Waits (bad_capsule terminal i es c)
  bad-Waits true = request_stream_fail-Waits i es h3_message_error c w
  bad-Waits false = conn_fatal-Waits h3_message_error c

  fed-Waits :
      (terminal : Bool) (r : Result Capsule.Capsule)
      → WaitsRound (capsule_fed i es terminal r rest c)
  unfolding capsule_fed
  fed-Waits terminal (fail need_more) = w
  fed-Waits terminal (fail Varint.buffer) = bad-Waits terminal
  fed-Waits terminal (fail Varint.range) = bad-Waits terminal
  fed-Waits terminal (fail Varint.invalid) = bad-Waits terminal
  fed-Waits true (done cp) = late-Waits cp.kind
  fed-Waits false (done cp) = live-Waits cp cp.kind

capsule_round-Waits :
    (i : ℕ) (es : Estream) (bytes : List ℕ) (c : Conn)
    → Waits c
    → WaitsRound (capsule_round i es bytes c)
unfolding capsule_round
capsule_round-Waits i es bytes c w =
    let fed = Capsule.feed c.caps_dec bytes in
    let d = record c { caps_dec = fed.dec } in
    fed-Waits i es (drop fed.consumed bytes) d (core-Waits c d refl refl refl w)
      (is_over c.sess_state) fed.out

abbrev WaitsLoop : Option Conn → Type 0
WaitsLoop none = true ≡ true
WaitsLoop (some d) = Waits d

round-Waits :
    (fuel i : ℕ) (es : Estream)
    → ((rest : List ℕ) (d : Conn) → Waits d → WaitsLoop (capsule_loop fuel i es rest d))
    → (r : Round) → WaitsRound r
    → WaitsLoop (elim r [ return d ↦ some d | continue rest d ↦ capsule_loop fuel i es rest d ])
round-Waits fuel i es h (return d) w = w
round-Waits fuel i es h (continue rest d) w = h rest d w

loop_if :
    (b : Bool) (x y : Option Conn) → WaitsLoop x → WaitsLoop y → WaitsLoop (if b then x else y)
loop_if true x y h k = h
loop_if false x y h k = k

capsule_loop-Waits :
    (fuel i : ℕ) (es : Estream) (bytes : List ℕ) (c : Conn)
    → Waits c
    → WaitsLoop (capsule_loop fuel i es bytes c)
unfolding capsule_loop
capsule_loop-Waits zero i es [] c w = w
capsule_loop-Waits (suc fuel) i es [] c w = w
capsule_loop-Waits zero i es (b ∷ bytes) c w = refl
capsule_loop-Waits (suc fuel) i es (b ∷ bytes) c w = loop_if c.is_closed (some c) _ w (
    round-Waits fuel i es (λ rest d v. capsule_loop-Waits fuel i es rest d v)
      (capsule_round i es (b ∷ bytes) c) (capsule_round-Waits i es (b ∷ bytes) c w))

left_by-Waits : (o : Option Conn) (c : Conn) → Waits c → WaitsLoop o → Waits (left_by o c)
left_by-Waits none c w v = w
left_by-Waits (some d) c w v = v

pub session_capsule_bytes-Waits :
    (i : ℕ) (es : Estream) (bytes : List ℕ) (c : Conn)
    → Waits c
    → Waits (session_capsule_bytes i es bytes c)
unfolding session_capsule_bytes
session_capsule_bytes-Waits i es bytes c w =
    Waits-if c.close_capsule_rx _ _ (λ b. poisoned-Waits i c w)
      (λ b.
        left_by-Waits (capsule_loop (suc (length bytes)) i es bytes c) c w
          (capsule_loop-Waits (suc (length bytes)) i es bytes c w))

abbrev WaitsCall : CallResult × Conn → Type 0
WaitsCall r = Waits r.1

call_if :
    (b : Bool) (x y : CallResult × Conn)
    → WaitsCall x
    → WaitsCall y
    → WaitsCall (if b then x else y)
call_if true x y h k = h
call_if false x y h k = k

submitted-Waits : (b : Bool) (c : Conn) → Waits c → WaitsCall (submitted b c)
submitted-Waits true c w = w
submitted-Waits false c w = conn_fatal-Waits h3_internal_error c

send_unit-Waits :
    (r : Result (List ℕ)) (cp : List ℕ) (fin : Bool) (ds : ℕ) (c : Conn)
    → Waits c
    → WaitsCall (send_unit r cp fin ds c)
send_unit-Waits (fail s) cp fin ds c w = w
send_unit-Waits (done header) cp fin ds c w =
    let d = call (send ds (header ++ cp) fin) c in
    call_if (ltb (unit_cap - length header) (length cp)) _ _ w
      (submitted-Waits (c.ops.send_accepted d.log) d (core-Waits c d refl refl refl w))

send_capsule-Waits :
    (cp : List ℕ) (fin : Bool) (ds : ℕ) (c : Conn)
    → Waits c
    → WaitsCall (session_send_capsule cp fin ds c)
unfolding session_send_capsule
send_capsule-Waits cp fin ds c w =
    send_unit-Waits (Frame.encode_header 0x00 (length cp) unit_cap) cp fin ds c w

then_closed-Waits :
    (code : ℕ) (reason : List ℕ) (r : CallResult × Conn)
    → WaitsCall r
    → WaitsCall (then_closed code reason r)
then_closed-Waits code reason (CallResult.success, d) w = session_closed-Waits code reason true d w
then_closed-Waits code reason (CallResult.invalid_arg, d) w = w
then_closed-Waits code reason (CallResult.too_large, d) w = w
then_closed-Waits code reason (CallResult.closed_error, d) w = w
then_closed-Waits code reason (CallResult.state_error, d) w = w
then_closed-Waits code reason (CallResult.backend_error, d) w = w

on_stream-Waits :
    (o : Option ℕ) (f : ℕ → Conn → CallResult × Conn) (c : Conn)
    → Waits c
    → ((ds : ℕ) → WaitsCall (f ds c))
    → WaitsCall (on_session_stream o f c)
on_stream-Waits none f c w h = w
on_stream-Waits (some ds) f c w h = call_if (not (session_active c)) _ _ w (h ds)

close_encoded-Waits :
    (r : Result (List ℕ)) (code : ℕ) (reason : List ℕ) (ds : ℕ) (c : Conn)
    → Waits c
    → WaitsCall (close_encoded r code reason ds c)
close_encoded-Waits (fail s) code reason ds c w = w
close_encoded-Waits (done cp) code reason ds c w =
    then_closed-Waits code reason (session_send_capsule cp true ds c)
      (send_capsule-Waits cp true ds c w)

pub session_close-Waits :
    (code : ℕ) (reason : List ℕ) (c : Conn) → Waits c → WaitsCall (session_close code reason c)
unfolding session_close
session_close-Waits code reason c w = call_if (ltb Capsule.max_reason (length reason)) _ _ w (
    call_if c.is_closed _ _ w (
      on_stream-Waits c.session_es
        (close_encoded (Capsule.encode_close code reason (16 + Capsule.max_reason)) code reason) c w
        (λ ds.
          close_encoded-Waits (Capsule.encode_close code reason (16 + Capsule.max_reason)) code
            reason ds c w)))

drain_encoded-Waits :
    (r : Result (List ℕ)) (ds : ℕ) (c : Conn) → Waits c → WaitsCall (drain_encoded r ds c)
drain_encoded-Waits (fail s) ds c w = w
drain_encoded-Waits (done cp) ds c w = send_capsule-Waits cp false ds c w

pub session_drain-Waits : (c : Conn) → Waits c → WaitsCall (session_drain c)
unfolding session_drain
session_drain-Waits c w = call_if c.is_closed _ _ w (
    on_stream-Waits c.session_es (drain_encoded (Capsule.encode_drain 8)) c w
      (λ ds. drain_encoded-Waits (Capsule.encode_drain 8) ds c w))

pub session_stream_fin-Waits :
    (i : ℕ) (truncated : Bool) (c : Conn) → Waits c → Waits (session_stream_fin i truncated c)
unfolding session_stream_fin
session_stream_fin-Waits i truncated c w =
    Waits-if truncated _ _ (λ b. conn_fatal-Waits h3_frame_error c)
      (λ b.
        Waits-if c.close_capsule_rx _ _ (λ b. w)
          (λ b.
            Waits-if (capsule_truncated c.caps_dec) _ _
              (λ b.
                Waits-if (is_over c.sess_state) _ _ (λ b. refuse-Waits i h3_message_error c w)
                  (λ b. conn_fatal-Waits h3_message_error c))
              (λ b. session_closed-Waits 0 [] true c w)))
