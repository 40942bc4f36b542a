-- ===== src/Engine/Conn/Answered.antt =====
-- The handlers of src/engine/conn.c keep to the invariant of the waiting streams.
use wtquic.Base.{
  ℕ, ◌≡◌, refl, ap, arith, Bool, true, false, not, ◌&&◌, ◌||◌, ◌⊎◌, inl, inr, List, ◌==◌, Option,
  some, none, if◌then◌else◌, length, ltb,
}
use wtquic.Proto.Connect.{Outcome, ok, err}
use wtquic.Proto.Connect.Response.{Resp, decode_response, status_is_success}
use wtquic.Engine.Conn.{
  Conn, Estream, SessionState, FailReason, bad_response, no_protocol, connection, call, is_active,
  is_connect, update, session_active, session_failed, session_draining, estream_release,
  shutdown_raw, close_streams, session_closed, session_closed_with, conn_fatal, on_session_rejected,
  DriverResult, accepted, already_closed, refused, unless_refused, shutdown_raw_with,
  shutdown_stream, h3_internal_error, h3_message_error, h3_request_rejected, protocol_storage,
}
use wtquic.Engine.Conn.Outcome.{and_not, bit}
use wtquic.Engine.Conn.Exchange.{
  adopt, establish_as, session_established, is_sent, id_at_least, dead, offer_at, request_rejected,
  client_maybe_establish, find_offer, marker_missing, response_accepted, selection_found,
  protocol_selected, response_received, response_error, response_decoded, client_response_done,
  strict_opts,
}
use wtquic.Engine.Conn.Waits.{
  awaits, waiting, connects, unanswered, Waits, Mild, set_at-any, Fades-same, Fades-trans,
  update-Fades, estream_release-Fades, close_streams-Fades, Fades-Waits, settled-Waits,
}
use wtquic.Engine.Conn.Closed.{conn_fatal-closed}

pub Waits-if :
    (b : Bool) (x y : Conn)
    → (b ≡ true → Waits x)
    → (b ≡ false → Waits y)
    → Waits (if b then x else y)
Waits-if true x y h k = h refl
Waits-if false x y h k = k refl

-- A change of fields that the invariant does not read.
pub core-Waits :
    (c d : Conn)
    → d.is_closed ≡ c.is_closed
    → d.peer ≡ c.peer
    → unanswered d ≡ unanswered c
    → Waits c
    → Waits d
core-Waits c d b p u w =
    Fades-Waits c d (Fades-same c d b (omega (arith, ap waiting p), omega (arith, ap connects p))) u
      w

pub closed-Waits : (c : Conn) → c.is_closed ≡ true → Waits c
unfolding Waits
closed-Waits c h = inl h

pub conn_fatal-Waits : (code : ℕ) (c : Conn) → Waits (conn_fatal code c)
conn_fatal-Waits code c = closed-Waits (conn_fatal code c) (conn_fatal-closed code c)

active→answered : (s : SessionState) (b : Bool) → is_active s ≡ true → (is_sent s && b) ≡ false
active→answered SessionState.established b h = refl
active→answered SessionState.draining b h = refl
active→answered SessionState.idle b h = refl
active→answered SessionState.pending b h = refl
active→answered SessionState.sent b h = absurd cc
active→answered SessionState.closed b h = refl
active→answered SessionState.rejected b h = refl
active→answered SessionState.failed b h = refl

pub session_failed-Waits :
    (r : FailReason) (c : Conn)
    → (unanswered c ≡ false) ⊎ (waiting c.peer ≡ 0)
    → Waits c
    → Waits (session_failed r c)
unfolding session_failed
session_failed-Waits r c s w =
    settled-Waits c (session_failed r c) (Fades-same c (session_failed r c) refl (omega arith)) s w

pub session_draining-Waits : (c : Conn) → Waits c → Waits (session_draining c)
unfolding session_draining session_active
session_draining-Waits c w =
    Waits-if (c.is_closed || c.drain_rx || not (is_active c.sess_state)) c _ (λ b. w)
      (λ b.
        settled-Waits c _ (Fades-same c _ refl (omega arith))
          (inl (active→answered c.sess_state (not c.client_response_ok) (ground (arith, b)))) w)

pub session_closed-Waits :
    (code : ℕ) (reason : List ℕ) (clean : Bool) (c : Conn)
    → Waits c
    → Waits (session_closed code reason clean c)
unfolding session_closed session_closed_with session_active
session_closed-Waits code reason clean c w =
    Waits-if (not (is_active c.sess_state)) c _ (λ b. w)
      (λ b.
        let c' = record c { sess_state = SessionState.closed } in
        let d = close_streams conn_fatal (length c.peer) 0 c' in
        settled-Waits c _
          (Fades-trans (Fades-same c c' refl (omega arith)) (
            Fades-trans (close_streams-Fades (length c.peer) 0 c')
              (Fades-same d _ refl (omega arith))))
          (inl (active→answered c.sess_state (not c.client_response_ok) (ground (arith, b)))) w)

pub estream_release-Waits : (i : ℕ) (c : Conn) → Waits c → Waits (estream_release i c)
unfolding estream_release
estream_release-Waits i c w = Fades-Waits c (estream_release i c) (estream_release-Fades i c) refl w

pub update-Waits :
    (i : ℕ) (f : Estream → Estream) (c : Conn) → Mild f → Waits c → Waits (update i f c)
update-Waits i f c m w = Fades-Waits c (update i f c) (update-Fades i f c m) refl w

pub dead-Mild : Mild dead
dead-Mild es = ground arith

unless-Waits : (r : DriverResult) (x y : Conn) → Waits x → Waits y → Waits (unless_refused r x y)
unless-Waits accepted x y h k = h
unless-Waits already_closed x y h k = h
unless-Waits refused x y h k = k

-- A failure of the driver closes the connection, and else nothing changes.
pub shutdown_raw-Waits :
    (i : ℕ) (s r : Bool) (code : ℕ) (c : Conn) → Waits c → Waits (shutdown_raw i s r code c)
unfolding shutdown_raw shutdown_raw_with
shutdown_raw-Waits i s r code c w =
    let d = call (shutdown_stream i s r code) c in
    unless-Waits (c.ops.shutdown_result d.log) d _ (core-Waits c d refl refl refl w)
      (conn_fatal-Waits h3_internal_error d)

-- Nothing waits, unless the connection is closed.
Settled : Conn → Type 0
Settled c = (unanswered c ≡ false) ⊎ (waiting c.peer ≡ 0)

adopt-Waits : (i id : ℕ) (sel : List ℕ) (c : Conn) → Settled c → Waits c → Waits (adopt i id sel c)
unfolding Settled
adopt-Waits i id sel c s w =
    let f : Estream → Estream = λ es. record es { is_session_stream = true } in
    settled-Waits c (adopt i id sel c)
      (Fades-trans (update-Fades i f c (λ es. (and_not (awaits es), and_not (is_connect es.kind))))
        (Fades-same (update i f c) (adopt i id sel c) refl (omega arith)))
      s w

establish_as-Waits :
    (id : Option ℕ) (i : ℕ) (sel : List ℕ) (c : Conn)
    → Settled c
    → Waits c
    → Waits (establish_as id i sel c)
unfolding establish_as
establish_as-Waits none i sel c s w = conn_fatal-Waits h3_internal_error c
establish_as-Waits (some id) i sel c s w =
    let v = adopt-Waits i id sel c s w in
    Waits-if c.goaway_received _ _ (λ b. session_draining-Waits (adopt i id sel c) v) (λ b. v)

session_established-Waits :
    (i : ℕ) (es : Estream) (sel : List ℕ) (c : Conn)
    → Settled c
    → Waits c
    → Waits (session_established i es sel c)
unfolding session_established Settled
session_established-Waits i es sel c s w =
    Waits-if (ltb protocol_storage (length sel)) _ _ (λ b. conn_fatal-Waits h3_internal_error c)
      (λ b.
        establish_as-Waits es.id i sel (record c { selected = sel }) s
          (core-Waits c (record c { selected = sel }) refl refl refl w))

-- The rejection, once the failed session is within the invariant.
pub request_rejected-Waits :
    (i : ℕ) (c : Conn)
    → Waits (session_failed connection (update i dead c))
    → Waits (request_rejected i c)
unfolding request_rejected
request_rejected-Waits i c w =
    let d = session_failed connection (update i dead c) in
    Waits-if (not d.is_closed) _ d (λ b. shutdown_raw-Waits i true true h3_request_rejected d w)
      (λ b. w)

pub client_maybe_establish-Waits :
    (i : ℕ) (es : Estream) (c : Conn) → Waits c → Waits (client_maybe_establish i es c)
unfolding client_maybe_establish Settled
client_maybe_establish-Waits i es c w =
    Waits-if (not (is_sent c.sess_state) || not c.client_response_ok || es.native_id_pending) c _
      (λ b. w)
      (λ b.
        let answered : unanswered c ≡ false = ground (arith, b) in
        Waits-if (c.goaway_received && id_at_least es.id c.goaway_id) _ _
          (λ g. request_rejected-Waits i c (
            session_failed-Waits connection (update i dead c) (inl answered)
              (update-Waits i dead c dead-Mild w)))
          (λ g.
            session_established-Waits i es (offer_at c.client_selected_offer c.offered) c
              (inl answered) w))

-- The response of the only stream that waited.
module _ (i : ℕ) (es : Estream) (c : Conn) (h : unanswered c ≡ true) (z : waiting c.peer ≡ 0)
    (w : Waits c) where
  response_accepted-Waits : (k : Option ℕ) → Waits (response_accepted i es k c)
  unfolding response_accepted
  response_accepted-Waits k =
      let d = record c { client_response_ok = true; client_selected_offer = k } in
      client_maybe_establish-Waits i es d
        (settled-Waits c d (Fades-same c d refl (omega arith)) (inr z) w)

  failed-Waits : (r : FailReason) → Waits (session_failed r c)
  failed-Waits r = session_failed-Waits r c (inr z) w

  selection_found-Waits : (k : Option ℕ) → Waits (selection_found i es k c)
  unfolding selection_found
  selection_found-Waits none = failed-Waits no_protocol
  selection_found-Waits (some k) = response_accepted-Waits (some k)

  protocol_selected-Waits : (p : Option (List ℕ)) → Waits (protocol_selected i es p c)
  unfolding protocol_selected
  protocol_selected-Waits none =
      Waits-if c.require_protocol _ _ (λ b. failed-Waits no_protocol)
        (λ b. response_accepted-Waits none)
  protocol_selected-Waits (some p) =
      Waits-if (length c.offered == 0) _ _ (λ b. failed-Waits no_protocol)
        (λ b. selection_found-Waits (find_offer 0 p c.offered))

  -- After an informational response the stream waits again.
  Waits-again : Waits (update i (λ e. record e { headers_done = false }) c)
  unfolding Waits
  Waits-again =
      let (x, y) = set_at-any i (λ e. record e { headers_done = false }) c.peer (λ e. refl) in
      elim w [
        | inl b ↦ inl b
        | inr (k, u) ↦ inr (omega (arith, y, k), omega (arith, x, z, ap bit h))
      ]

  rejected-Waits :
      (status : ℕ)
      → Waits (call (on_session_rejected status) (record c { sess_state = SessionState.rejected }))
  rejected-Waits status = settled-Waits c _ (Fades-same c _ refl (omega arith)) (inr z) w

  response_received-Waits : (resp : Resp) → Waits (response_received i es resp c)
  unfolding response_received
  response_received-Waits resp =
      Waits-if (ltb resp.status 200) _ _
        (λ b.
          Waits-if (resp.status == 101) _ _
            (λ b. conn_fatal-Waits h3_message_error (session_failed bad_response c))
            (λ b. Waits-again))
        (λ b.
          Waits-if (not (status_is_success resp.status)) _ _ (λ b. rejected-Waits resp.status)
            (λ b.
              Waits-if (marker_missing c resp) _ _ (λ b. failed-Waits bad_response)
                (λ b. protocol_selected-Waits resp.protocol)))

  response_decoded-Waits : (o : Outcome Resp) → Waits (response_decoded i es o c)
  unfolding response_decoded
  response_decoded-Waits (err s) =
      conn_fatal-Waits (response_error s) (session_failed bad_response c)
  response_decoded-Waits (ok resp) = response_received-Waits resp

  pub client_response_done-Waits : Waits (client_response_done i es c)
  unfolding client_response_done
  client_response_done-Waits = response_decoded-Waits (decode_response es.set_buf strict_opts 512)
