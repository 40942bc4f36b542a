-- ===== src/Engine/Conn/Life.antt =====
-- The life of an established session in src/engine/conn.c preserves the agreement of the log with
-- the state.
use wtquic.Base.{
  ℕ, zero, suc, ◌+◌, ◌-◌, ◌≡◌, refl, Bool, true, false, not, ◌&&◌, ◌||◌, List, [], ◌∷◌, ◌++◌,
  Option, some, none, if◌then◌else◌, length, ltb, drop, arith,
}
use wtquic.Proto.Varint
use wtquic.Proto.Varint.{Result, done, fail, need_more}
use wtquic.Proto.Capsule
use wtquic.Proto.Frame
use wtquic.Engine.Conn.{
  Conn, Estream, send, call, bad_response, is_connect, is_request, session_active, session_failed,
  estream_release, shutdown_raw, same, h3_internal_error, h3_frame_error, h3_request_incomplete,
  h3_message_error,
}
use wtquic.Engine.Conn.Preserves.{
  Preserves, Preserves-refl, Preserves-trans, Preserves-if, conn_fatal-Preserves,
  session_failed-Preserves, session_closed-Preserves, session_draining-Preserves,
}
use wtquic.Engine.Conn.Exchange.{
  is_sent, dead, request_stream_refuse_err, request_stream_fail, parked_request_cancel,
  forget_session_stream, session_stream_poisoned,
}
use wtquic.Engine.Conn.Steps.{
  core-Preserves, call-Preserves, update-Preserves, shutdown_raw-Preserves,
  estream_release-Preserves, sent→early,
}
use wtquic.Engine.Conn.Capsules.{
  Round, return, continue, is_over, after_close, late_capsule, live_capsule, bad_capsule,
  capsule_fed, capsule_round, capsule_loop, left_by, session_capsule_bytes, CallResult, submitted,
  send_unit, unit_cap, session_send_capsule, then_closed, close_encoded, on_session_stream,
  session_close, drain_encoded, session_drain, session_stream_fin, capsule_truncated,
  request_stream_fin,
}

refuse-Preserves : (i code : ℕ) (c : Conn) → Preserves c (request_stream_refuse_err i code c)
unfolding request_stream_refuse_err
refuse-Preserves i code c =
    Preserves-trans (shutdown_raw-Preserves i true true code c)
      (update-Preserves i dead (shutdown_raw i true true code c))

pub forget-Preserves : (i : ℕ) (c : Conn) → Preserves c (forget_session_stream i c)
forget-Preserves i c = core-Preserves c (forget_session_stream i c) refl refl refl refl refl refl

pub cancel-Preserves : (c : Conn) → Preserves c (parked_request_cancel c)
unfolding parked_request_cancel
cancel-Preserves c = core-Preserves c (parked_request_cancel c) refl refl refl refl refl refl

pub request_stream_fail-Preserves :
    (i : ℕ) (es : Estream) (code : ℕ) (c : Conn) → Preserves c (request_stream_fail i es code c)
unfolding request_stream_fail
request_stream_fail-Preserves i es code c =
    let c1 = request_stream_refuse_err i code c in
    let p1 = refuse-Preserves i code c in
    let c2 = if same c1.parked_es i then parked_request_cancel c1 else c1 in
    let p2 : Preserves c c2 =
      Preserves-if (same c1.parked_es i) c _ _ (λ b. Preserves-trans p1 (cancel-Preserves c1))
        (λ b. p1) in
    Preserves-if es.is_session_stream c _ _
      (λ b. Preserves-trans p2 (
        Preserves-trans (forget-Preserves i c2) (
          Preserves-trans (estream_release-Preserves i (forget_session_stream i c2)) (
            session_closed-Preserves 0 [] false (estream_release i (forget_session_stream i c2))))))
      (λ b. p2)

poisoned-Preserves : (i : ℕ) (c : Conn) → Preserves c (session_stream_poisoned i c)
unfolding session_stream_poisoned
poisoned-Preserves i c =
    let d = shutdown_raw i true true h3_message_error c in
    Preserves-trans (shutdown_raw-Preserves i true true h3_message_error c) (
      Preserves-trans (forget-Preserves i d)
        (estream_release-Preserves i (forget_session_stream i d)))

-- What a round leaves.
abbrev PreservesRound : Conn → Round → Type 0
PreservesRound c (return d) = Preserves c d
PreservesRound c (continue rest d) = Preserves c d

after_close-Preserves :
    (i : ℕ) (rest : List ℕ) (c d : Conn) → Preserves c d → PreservesRound c (after_close i rest d)
after_close-Preserves i [] c d p = p
after_close-Preserves i (b ∷ rest) c d p = Preserves-trans p (poisoned-Preserves i d)

module _ (i : ℕ) (es : Estream) (rest : List ℕ) (c : Conn) where
  recorded : Preserves c (record c { close_capsule_rx = true })
  recorded = core-Preserves c (record c { close_capsule_rx = true }) refl refl refl refl refl refl

  late-Preserves : (k : Capsule.Kind) → PreservesRound c (late_capsule i k rest c)
  unfolding late_capsule
  late-Preserves Capsule.close = after_close-Preserves i rest c _ recorded
  late-Preserves Capsule.drain = Preserves-refl c
  late-Preserves Capsule.unset = Preserves-refl c
  late-Preserves Capsule.unknown = Preserves-refl c

  live-Preserves :
      (cap : Capsule.Capsule) (k : Capsule.Kind) → PreservesRound c (live_capsule i cap k rest c)
  unfolding live_capsule
  live-Preserves cap Capsule.close = after_close-Preserves i rest c _ (
      Preserves-trans recorded (
        session_closed-Preserves cap.close_code cap.reason true
          (record c { close_capsule_rx = true })))
  live-Preserves cap Capsule.drain = session_draining-Preserves c
  live-Preserves cap Capsule.unset = Preserves-refl c
  live-Preserves cap Capsule.unknown = Preserves-refl c

  bad-Preserves : (terminal : Bool) → Preserves c (bad_capsule terminal i es c)
  bad-Preserves true = request_stream_fail-Preserves i es h3_message_error c
  bad-Preserves false = conn_fatal-Preserves h3_message_error c

  fed-Preserves :
      (terminal : Bool) (r : Result Capsule.Capsule)
      → PreservesRound c (capsule_fed i es terminal r rest c)
  unfolding capsule_fed
  fed-Preserves terminal (fail need_more) = Preserves-refl c
  fed-Preserves terminal (fail Varint.buffer) = bad-Preserves terminal
  fed-Preserves terminal (fail Varint.range) = bad-Preserves terminal
  fed-Preserves terminal (fail Varint.invalid) = bad-Preserves terminal
  fed-Preserves true (done cap) = late-Preserves cap.kind
  fed-Preserves false (done cap) = live-Preserves cap cap.kind

round_trans : (c d : Conn) (r : Round) → Preserves c d → PreservesRound d r → PreservesRound c r
round_trans c d (return e) p q = Preserves-trans p q
round_trans c d (continue rest e) p q = Preserves-trans p q

capsule_round-Preserves :
    (i : ℕ) (es : Estream) (bytes : List ℕ) (c : Conn)
    → PreservesRound c (capsule_round i es bytes c)
unfolding capsule_round
capsule_round-Preserves i es bytes c =
    let fed = Capsule.feed c.caps_dec bytes in
    let d = record c { caps_dec = fed.dec } in
    round_trans c d _ (core-Preserves c d refl refl refl refl refl refl)
      (fed-Preserves i es (drop fed.consumed bytes) d (is_over c.sess_state) fed.out)

-- What a loop leaves.
abbrev PreservesLoop : Conn → Option Conn → Type 0
PreservesLoop c none = c ≡ c
PreservesLoop c (some d) = Preserves c d

loop_trans : (c d : Conn) (o : Option Conn) → Preserves c d → PreservesLoop d o → PreservesLoop c o
loop_trans c d none p q = refl
loop_trans c d (some e) p q = Preserves-trans p q

-- A round and what comes behind it.
round-Preserves :
    (fuel i : ℕ) (es : Estream) (c : Conn)
    → ((rest : List ℕ) (d : Conn) → PreservesLoop d (capsule_loop fuel i es rest d))
    → (r : Round) → PreservesRound c r
    → PreservesLoop c
        (elim r [ return d ↦ some d | continue rest d ↦ capsule_loop fuel i es rest d ])
round-Preserves fuel i es c h (return d) p = p
round-Preserves fuel i es c h (continue rest d) p =
    loop_trans c d (capsule_loop fuel i es rest d) p (h rest d)

loop_if :
    (b : Bool) (c : Conn) (x y : Option Conn)
    → PreservesLoop c x
    → PreservesLoop c y
    → PreservesLoop c (if b then x else y)
loop_if true c x y h k = h
loop_if false c x y h k = k

capsule_loop-Preserves :
    (fuel i : ℕ) (es : Estream) (bytes : List ℕ) (c : Conn)
    → PreservesLoop c (capsule_loop fuel i es bytes c)
unfolding capsule_loop
capsule_loop-Preserves zero i es [] c = Preserves-refl c
capsule_loop-Preserves (suc fuel) i es [] c = Preserves-refl c
capsule_loop-Preserves zero i es (b ∷ bytes) c = refl
capsule_loop-Preserves (suc fuel) i es (b ∷ bytes) c =
    loop_if c.is_closed c (some c) _ (Preserves-refl c) (
      round-Preserves fuel i es c (λ rest d. capsule_loop-Preserves fuel i es rest d)
        (capsule_round i es (b ∷ bytes) c) (capsule_round-Preserves i es (b ∷ bytes) c))

left_by-Preserves : (o : Option Conn) (c : Conn) → PreservesLoop c o → Preserves c (left_by o c)
left_by-Preserves none c p = Preserves-refl c
left_by-Preserves (some d) c p = p

pub session_capsule_bytes-Preserves :
    (i : ℕ) (es : Estream) (bytes : List ℕ) (c : Conn)
    → Preserves c (session_capsule_bytes i es bytes c)
unfolding session_capsule_bytes
session_capsule_bytes-Preserves i es bytes c =
    Preserves-if c.close_capsule_rx c _ _ (λ b. poisoned-Preserves i c)
      (λ b.
        left_by-Preserves (capsule_loop (suc (length bytes)) i es bytes c) c
          (capsule_loop-Preserves (suc (length bytes)) i es bytes c))

-- What a call leaves, whatever it answers.
abbrev PreservesCall : Conn → CallResult × Conn → Type 0
PreservesCall c r = Preserves c r.1

submitted-Preserves : (b : Bool) (c : Conn) → PreservesCall c (submitted b c)
submitted-Preserves true c = Preserves-refl c
submitted-Preserves false c = conn_fatal-Preserves h3_internal_error c

call_if :
    (b : Bool) (c : Conn) (x y : CallResult × Conn)
    → PreservesCall c x
    → PreservesCall c y
    → PreservesCall c (if b then x else y)
call_if true c x y h k = h
call_if false c x y h k = k

send_unit-Preserves :
    (r : Result (List ℕ)) (cap : List ℕ) (fin : Bool) (ds : ℕ) (c : Conn)
    → PreservesCall c (send_unit r cap fin ds c)
send_unit-Preserves (fail s) cap fin ds c = Preserves-refl c
send_unit-Preserves (done header) cap fin ds c =
    let d = call (send ds (header ++ cap) fin) c in
    call_if (ltb (unit_cap - length header) (length cap)) c _ _ (Preserves-refl c) (
      Preserves-trans (call-Preserves (send ds (header ++ cap) fin) c refl refl refl refl)
        (submitted-Preserves (c.ops.send_accepted d.log) d))

send_capsule-Preserves :
    (cap : List ℕ) (fin : Bool) (ds : ℕ) (c : Conn)
    → PreservesCall c (session_send_capsule cap fin ds c)
unfolding session_send_capsule
send_capsule-Preserves cap fin ds c =
    send_unit-Preserves (Frame.encode_header 0x00 (length cap) unit_cap) cap fin ds c

then_closed-Preserves :
    (code : ℕ) (reason : List ℕ) (c : Conn) (r : CallResult × Conn)
    → PreservesCall c r
    → PreservesCall c (then_closed code reason r)
then_closed-Preserves code reason c (CallResult.success, d) p =
    Preserves-trans p (session_closed-Preserves code reason true d)
then_closed-Preserves code reason c (CallResult.invalid_arg, d) p = p
then_closed-Preserves code reason c (CallResult.too_large, d) p = p
then_closed-Preserves code reason c (CallResult.closed_error, d) p = p
then_closed-Preserves code reason c (CallResult.state_error, d) p = p
then_closed-Preserves code reason c (CallResult.backend_error, d) p = p

on_stream-Preserves :
    (o : Option ℕ) (f : ℕ → Conn → CallResult × Conn) (c : Conn)
    → ((ds : ℕ) → PreservesCall c (f ds c))
    → PreservesCall c (on_session_stream o f c)
on_stream-Preserves none f c h = Preserves-refl c
on_stream-Preserves (some ds) f c h =
    call_if (not (session_active c)) c _ _ (Preserves-refl c) (h ds)

close_encoded-Preserves :
    (r : Result (List ℕ)) (code : ℕ) (reason : List ℕ) (ds : ℕ) (c : Conn)
    → PreservesCall c (close_encoded r code reason ds c)
close_encoded-Preserves (fail s) code reason ds c = Preserves-refl c
close_encoded-Preserves (done cap) code reason ds c =
    then_closed-Preserves code reason c (session_send_capsule cap true ds c)
      (send_capsule-Preserves cap true ds c)

pub session_close-Preserves :
    (code : ℕ) (reason : List ℕ) (c : Conn) → PreservesCall c (session_close code reason c)
unfolding session_close
session_close-Preserves code reason c =
    call_if (ltb Capsule.max_reason (length reason)) c _ _ (Preserves-refl c) (
      call_if c.is_closed c _ _ (Preserves-refl c) (
        on_stream-Preserves c.session_es
          (close_encoded (Capsule.encode_close code reason (16 + Capsule.max_reason)) code reason) c
          (λ ds.
            close_encoded-Preserves (Capsule.encode_close code reason (16 + Capsule.max_reason))
              code reason ds c)))

drain_encoded-Preserves :
    (r : Result (List ℕ)) (ds : ℕ) (c : Conn) → PreservesCall c (drain_encoded r ds c)
drain_encoded-Preserves (fail s) ds c = Preserves-refl c
drain_encoded-Preserves (done cap) ds c = send_capsule-Preserves cap false ds c

pub session_drain-Preserves : (c : Conn) → PreservesCall c (session_drain c)
unfolding session_drain
session_drain-Preserves c = call_if c.is_closed c _ _ (Preserves-refl c) (
    on_stream-Preserves c.session_es (drain_encoded (Capsule.encode_drain 8)) c
      (λ ds. drain_encoded-Preserves (Capsule.encode_drain 8) ds c))

session_stream_fin-Preserves :
    (i : ℕ) (truncated : Bool) (c : Conn) → Preserves c (session_stream_fin i truncated c)
unfolding session_stream_fin
session_stream_fin-Preserves i truncated c =
    Preserves-if truncated c _ _ (λ b. conn_fatal-Preserves h3_frame_error c)
      (λ b.
        Preserves-if c.close_capsule_rx c _ _ (λ b. Preserves-refl c)
          (λ b.
            Preserves-if (capsule_truncated c.caps_dec) c _ _
              (λ b.
                Preserves-if (is_over c.sess_state) c _ _
                  (λ b. refuse-Preserves i h3_message_error c)
                  (λ b. conn_fatal-Preserves h3_message_error c))
              (λ b. session_closed-Preserves 0 [] true c)))

pub request_stream_fin-Preserves :
    (i : ℕ) (es : Estream) (c : Conn) → Preserves c (request_stream_fin i es c)
unfolding request_stream_fin
request_stream_fin-Preserves i es c =
    let truncated = es.frame_active || ltb 0 es.frame_dec.hdr_bytes in
    let pending = is_connect es.kind && not c.session_established && is_sent c.sess_state in
    let failed : pending ≡ true → Preserves c (session_failed bad_response c) =
      λ b. session_failed-Preserves bad_response c (sent→early c.sess_state (ground (arith, b))) in
    Preserves-if es.request_dead c _ _ (λ b. Preserves-refl c)
      (λ b.
        Preserves-if es.is_session_stream c _ _
          (λ b.
            Preserves-trans (forget-Preserves i c)
              (session_stream_fin-Preserves i truncated (forget_session_stream i c)))
          (λ b.
            Preserves-if truncated c _ _
              (λ b. Preserves-trans (Preserves-if pending c _ _ failed (λ b. Preserves-refl c)) (
                conn_fatal-Preserves h3_frame_error
                  (if pending then session_failed bad_response c else c)))
              (λ b.
                Preserves-if (is_request es.kind && not es.headers_done) c _ _
                  (λ b. conn_fatal-Preserves h3_request_incomplete c)
                  (λ b. Preserves-if pending c _ _ failed (λ b. Preserves-refl c)))))
