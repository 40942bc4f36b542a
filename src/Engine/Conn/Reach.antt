-- ===== src/Engine/Conn/Reach.antt =====
-- The states that a client's connection of src/engine/conn.c reaches once its request is sent.
use wtquic.Base.{
  ℕ, ◌≤◌, ◌≡◌, refl, ap, ◌∙◌, arith, Bool, true, false, not, ◌&&◌, List, [], some, get_elem?,
  if◌then◌else◌, inr,
}
use wtquic.Engine.Conn.{
  Conn, Estream, Event, call, ErrorKind, SessionState, TransportError, has_kind, is_connect, update,
  conn_fatal, error_of, conn_latch_error, on_conn_closed, set_transport_error, seal_transport_error,
  estream_release,
}
use wtquic.Engine.Conn.Outcome.{
  is_terminal, is_outcome, is_error, is_drain, is_establishment, count, bit, IsValid,
}
use wtquic.Engine.Conn.Preserves.{
  Preserves, Preserves-refl, Preserves-if, Preserves-trans, conn_fatal-Preserves, conn_fatal-Quiet,
  on_conn_closed-Preserves,
}
use wtquic.Engine.Conn.Closed.{closed_if, lost-closed, conn_fatal-closed}
use wtquic.Engine.Conn.Exchange.{request_stream_fail}
use wtquic.Engine.Conn.Capsules.{session_capsule_bytes, session_close, session_drain}
use wtquic.Engine.Conn.Events.{
  is_client, headers_on, response_headers, connect_native_id, request_stream_closed,
  request_stream_reset, goaway,
}
use wtquic.Engine.Conn.Steps.{
  core-Preserves, call-Preserves, latch-Preserves, estream_release-Preserves,
}
use wtquic.Engine.Conn.Life.{
  request_stream_fail-Preserves, session_capsule_bytes-Preserves, session_close-Preserves,
  session_drain-Preserves,
}
use wtquic.Engine.Conn.Waits.{
  awaits, waiting, connects, Waits, Fades-same, Fades-Waits, waiting-le-connects,
}
use wtquic.Engine.Conn.Answered.{
  Waits-if, core-Waits, closed-Waits, conn_fatal-Waits, estream_release-Waits,
}
use wtquic.Engine.Conn.AnsweredLife.{
  request_stream_fail-Waits, session_capsule_bytes-Waits, session_close-Waits, session_drain-Waits,
}
use wtquic.Engine.Conn.EventsKept.{
  response_headers-Waits, connect_native_id-Preserves, connect_native_id-Waits,
  request_stream_closed-Preserves, request_stream_closed-Waits, request_stream_reset-Preserves,
  request_stream_reset-Waits, goaway-Preserves, goaway-Waits,
}
use wtquic.Engine.Conn.Latched.{client_response_done-latched}

-- What reaches a client's connection, one handler each, with the stream `es` at index `i`. A response
-- is the end of the first HEADERS frame of an open CONNECT stream that is not dead. The other handlers
-- change streams, open and release them and fill their buffers, in any way that makes no further
-- stream a CONNECT stream and no further one wait for a response, and make calls of their own.
pub data Step : Conn → Conn → Type 0 where
  protocol_error : (c : Conn) (err : ℕ) → Step c (conn_fatal err c)
  connection_closed : (c : Conn) (err : ℕ) (remote : Bool) → Step c (on_conn_closed err remote c)
  backend_error : (c : Conn) (e : TransportError) → Step c (set_transport_error e c)
  sealed : (c : Conn) → Step c (seal_transport_error c)
  response :
      (c : Conn) (i : ℕ) (es : Estream)
      → get_elem? c.peer i ≡ some es
      → awaits es ≡ true
      → c.is_closed ≡ false
      → Step c (response_headers i es c)
  id_known :
      (c : Conn) (i : ℕ) (es : Estream) (id : ℕ)
      → get_elem? c.peer i ≡ some es
      → is_connect es.kind ≡ true
      → Step c (connect_native_id i es id c)
  limit_set : (c : Conn) (v : ℕ) → Step c (goaway v c)
  capsules :
      (c : Conn) (i : ℕ) (es : Estream) (bytes : List ℕ)
      → get_elem? c.peer i ≡ some es
      → Step c (session_capsule_bytes i es bytes c)
  stream_failed :
      (c : Conn) (i : ℕ) (es : Estream) (err : ℕ)
      → get_elem? c.peer i ≡ some es
      → Step c (request_stream_fail i es err c)
  stream_ended :
      (c : Conn) (i : ℕ) (es : Estream)
      → get_elem? c.peer i ≡ some es
      → Step c (request_stream_closed i es c)
  stream_reset :
      (c : Conn) (i : ℕ) (es : Estream)
      → get_elem? c.peer i ≡ some es
      → Step c (request_stream_reset i es c)
  close_called : (c : Conn) (code : ℕ) (reason : List ℕ) → Step c (session_close code reason c).1
  drain_called : (c : Conn) → Step c (session_drain c).1
  streams_changed :
      (c : Conn) (peer : List Estream)
      → waiting peer ≤ waiting c.peer
      → connects peer ≤ connects c.peer
      → Step c (record c { peer = peer })
  stream_released : (c : Conn) (i : ℕ) → Step c (estream_release i c)
  called :
      (c : Conn) (e : Event)
      → is_outcome e ≡ false
      → is_error e ≡ false
      → is_drain e ≡ false
      → is_establishment e ≡ false
      → Step c (call e c)

pub data Reach : Conn → Conn → Type 0 where
  here : (c : Conn) → Reach c c
  after : (c d e : Conn) → Reach c d → Step d e → Reach c e

set_error-Preserves : (e : TransportError) (c : Conn) → Preserves c (set_transport_error e c)
unfolding set_transport_error
set_error-Preserves e c =
    Preserves-if (has_kind e.kind) c _ c (λ b. latch-Preserves e c) (λ b. Preserves-refl c)

set_error-Waits : (e : TransportError) (c : Conn) → Waits c → Waits (set_transport_error e c)
unfolding set_transport_error conn_latch_error
set_error-Waits e c w =
    Waits-if (has_kind e.kind) _ c (λ b. core-Waits c _ refl refl refl w) (λ b. w)

on_conn_closed-Waits : (err : ℕ) (remote : Bool) (c : Conn) → Waits (on_conn_closed err remote c)
unfolding on_conn_closed
on_conn_closed-Waits err remote c = closed-Waits _ (
    closed_if c.is_closed c _ (λ b. b)
      (lost-closed conn_fatal conn_fatal-Quiet
        (if remote then ErrorKind.quic_app else ErrorKind.local) err [] c))

Step-Preserves : (c d : Conn) → Step c d → Waits c → Preserves c d × Waits d
unfolding seal_transport_error conn_latch_error
Step-Preserves _ _ (protocol_error c err) w = (conn_fatal-Preserves err c, conn_fatal-Waits err c)
Step-Preserves _ _ (connection_closed c err remote) w =
    (on_conn_closed-Preserves err remote c, on_conn_closed-Waits err remote c)
Step-Preserves _ _ (backend_error c e) w = (set_error-Preserves e c, set_error-Waits e c w)
Step-Preserves _ _ (sealed c) w =
    (latch-Preserves (error_of ErrorKind.no_error 0) c, core-Waits c _ refl refl refl w)
Step-Preserves _ _ (response c i es g a o) w = response_headers-Waits i es c g a o w
Step-Preserves _ _ (id_known c i es id g h) w =
    (connect_native_id-Preserves i es id c, connect_native_id-Waits i es id c w)
Step-Preserves _ _ (limit_set c v) w = (goaway-Preserves v c, goaway-Waits v c w)
Step-Preserves _ _ (capsules c i es bytes g) w =
    (session_capsule_bytes-Preserves i es bytes c, session_capsule_bytes-Waits i es bytes c w)
Step-Preserves _ _ (stream_failed c i es err g) w =
    (request_stream_fail-Preserves i es err c, request_stream_fail-Waits i es err c w)
Step-Preserves _ _ (stream_ended c i es g) w =
    (request_stream_closed-Preserves i es c, request_stream_closed-Waits i es c g w)
Step-Preserves _ _ (stream_reset c i es g) w =
    (request_stream_reset-Preserves i es c, request_stream_reset-Waits i es c g w)
Step-Preserves _ _ (close_called c code reason) w =
    (session_close-Preserves code reason c, session_close-Waits code reason c w)
Step-Preserves _ _ (drain_called c) w = (session_drain-Preserves c, session_drain-Waits c w)
Step-Preserves _ _ (streams_changed c peer x y) w = (
  core-Preserves c (record c { peer = peer }) refl refl refl refl refl refl,
  Fades-Waits c (record c { peer = peer }) (Fades-same c (record c { peer = peer }) refl (x, y))
      refl w,
)
Step-Preserves _ _ (stream_released c i) w =
    (estream_release-Preserves i c, estream_release-Waits i c w)
Step-Preserves _ _ (called c e o f g h) w =
    (call-Preserves e c o f g h, core-Waits c (call e c) refl refl refl w)

Reach-Preserves : (c d : Conn) → Reach c d → Waits c → Preserves c d × Waits d
Reach-Preserves _ _ (here c) w = (Preserves-refl c, w)
Reach-Preserves _ _ (after c d e r s) w =
    let (p, v) = Reach-Preserves c d r w in
    let (q, x) = Step-Preserves d e s v in (Preserves-trans p q, x)

-- A client's connection that has sent its request on its only CONNECT stream, before anything was
-- called.
pub record IsStart (c : Conn) : Type 0 where
  pub client : is_client c.persp ≡ true
  pub silent : c.log ≡ []
  pub is_open : c.is_closed ≡ false
  pub sent : c.sess_state ≡ SessionState.sent
  pub unanswered : c.client_response_ok ≡ false
  pub single : connects c.peer ≤ 1
  pub not_established : c.session_established ≡ false
  pub not_drained : c.drain_rx ≡ false

IsStart-IsValid : (c : Conn) → IsStart c → IsValid c
IsStart-IsValid c s = record {
  sound = record {
    outcomes = rw (s.silent, s.sent) refl;
    drains = rw (s.silent, s.not_drained) refl;
    establishments = rw (s.silent, s.not_established) refl;
    active = rw s.sent refl;
    early = rw (s.sent, s.not_established, s.not_drained) refl;
  };
  errors = rw (s.silent, s.is_open) refl;
  ended = rw s.is_open refl;
}

IsStart-Waits : (c : Conn) → IsStart c → Waits c
unfolding Waits
IsStart-Waits c s =
    inr (s.single, rw (s.sent, s.unanswered) (omega (arith, waiting-le-connects c.peer, s.single)))

-- From a client's connection that has sent its request, through any events of `Step`: in every state
-- that is reached the application was told one outcome of the session (failed, rejected or closed)
-- when the state is terminal and none before, one error of the connection when it is closed, which
-- ends the session too, and one establishment and one drain when the flags say so.
pub Reach-IsValid : (c d : Conn) → IsStart c → Reach c d → IsValid d
Reach-IsValid c d s r = (Reach-Preserves c d r (IsStart-Waits c s)).0.valid (IsStart-IsValid c s)

-- The end of a session is final: when a client's connection that has sent its request reaches a
-- state that is terminal, every state that it reaches from there, through any events of `Step`, is
-- the same terminal one, the application is told no further outcome, and a closed connection is not
-- opened again.
pub Reach-terminal :
    (s c d : Conn)
    → IsStart s
    → Reach s c
    → is_terminal c.sess_state ≡ true
    → Reach c d
    → (d.sess_state ≡ c.sess_state)
      × (count is_outcome d.log ≡ 1)
      × ((c.is_closed && not d.is_closed) ≡ false)
Reach-terminal s c d a q h r =
    let (b, w) = Reach-Preserves s c q (IsStart-Waits s a) in
    let v = b.valid (IsStart-IsValid s a) in
    let p = (Reach-Preserves c d r w).0 in
    let same_state = p.stays_final h in
    (
      same_state,
      (p.valid v).sound.outcomes ∙ ap (λ s. bit (is_terminal s)) same_state ∙ ap bit h,
      p.stays_closed,
    )

Step-latched :
    (c d : Conn) (e : TransportError)
    → Step c d
    → c.transport_error ≡ some e
    → d.transport_error ≡ some e
unfolding seal_transport_error response_headers
Step-latched _ _ e (protocol_error c err) h = (conn_fatal-Preserves err c).latched e h
Step-latched _ _ e (connection_closed c err remote) h =
    (on_conn_closed-Preserves err remote c).latched e h
Step-latched _ _ e (backend_error c t) h = (set_error-Preserves t c).latched e h
Step-latched _ _ e (sealed c) h = (latch-Preserves (error_of ErrorKind.no_error 0) c).latched e h
Step-latched _ _ e (response c i es g a o) h =
    client_response_done-latched e i (headers_on es) (update i headers_on c) h
Step-latched _ _ e (id_known c i es id g k) h = (connect_native_id-Preserves i es id c).latched e h
Step-latched _ _ e (limit_set c v) h = (goaway-Preserves v c).latched e h
Step-latched _ _ e (capsules c i es bytes g) h =
    (session_capsule_bytes-Preserves i es bytes c).latched e h
Step-latched _ _ e (stream_failed c i es err g) h =
    (request_stream_fail-Preserves i es err c).latched e h
Step-latched _ _ e (stream_ended c i es g) h = (request_stream_closed-Preserves i es c).latched e h
Step-latched _ _ e (stream_reset c i es g) h = (request_stream_reset-Preserves i es c).latched e h
Step-latched _ _ e (close_called c code reason) h =
    (session_close-Preserves code reason c).latched e h
Step-latched _ _ e (drain_called c) h = (session_drain-Preserves c).latched e h
Step-latched _ _ e (streams_changed c peer x y) h = h
Step-latched _ _ e (stream_released c i) h = (estream_release-Preserves i c).latched e h
Step-latched _ _ e (called c t o f g k) h = h

-- The first cause of an error that was recorded stays the recorded one in every state that is
-- reached.
pub Reach-transport_error :
    (c d : Conn) (e : TransportError)
    → Reach c d
    → c.transport_error ≡ some e
    → d.transport_error ≡ some e
Reach-transport_error _ _ e (here c) h = h
Reach-transport_error _ _ e (after c d f r s) h =
    Step-latched d f e s (Reach-transport_error c d e r h)

-- An error of the protocol always ends the session: from a valid state it leaves a valid one with
-- the connection closed and a terminal session, of which the application was told one outcome,
-- besides one error of the connection.
pub conn_fatal_ends :
    (err : ℕ) (c : Conn)
    → IsValid c
    → let d = conn_fatal err c in
      IsValid d
      × (d.is_closed ≡ true)
      × (is_terminal d.sess_state ≡ true)
      × (count is_outcome d.log ≡ 1)
      × (count is_error d.log ≡ 1)
conn_fatal_ends err c v =
    let d = conn_fatal err c in
    let w = (conn_fatal-Preserves err c).valid v in
    let b = conn_fatal-closed err c in
    let t : is_terminal d.sess_state ≡ true = ground (arith, b, w.ended) in
    (w, b, t, w.sound.outcomes ∙ ap bit t, w.errors ∙ ap bit b)
