-- ===== src/Engine/Conn/Tests.antt =====
-- Runs of the model of src/engine/conn.c.
use wtquic.Base.{
  arith, if◌then◌else◌, ℕ, ◌+◌, List, ◌≡◌, refl, not, ◌&&◌, true, false, [], ◌∷◌, some, none,
}
use wtquic.Proto.Settings
use wtquic.Proto.Frame
use wtquic.Proto.Capsule
use wtquic.Engine.Conn.{
  Conn, Estream, Event, Perspective, SessionState, StreamKind, ErrorKind, TransportError, accepted,
  conn_fatal, conn_fatal_loop, on_conn_closed, on_conn_error, seal_transport_error, error_of,
  h3_internal_error, h3_message_error, on_session_closed, set_transport_error,
}
use wtquic.Engine.Conn.Outcome.{is_terminal, count, is_outcome, is_error, IsValid}
use wtquic.Engine.Conn.Reach.{
  Reach, here, after, connection_closed, protocol_error, sealed, IsStart, Reach-IsValid,
  Reach-terminal, Reach-transport_error, conn_fatal_ends, backend_error,
}
use wtquic.Engine.Conn.Fuel.{fatal_by, requests, conn_fatal_loop-enough}
use wtquic.Engine.Conn.Capsules.{capsule_loop, session_capsule_bytes}
use wtquic.Engine.Conn.Exchange.{session_stream_poisoned}
use wtquic.Engine.Conn.CapsuleFuel.{capsule_loop-enough}

abbrev connect_stream : Estream
connect_stream = record {
  kind = StreamKind.connect;
  id = some 0;
  native_id_pending = false;
  frame_dec = Frame.init;
  frame_active = false;
  set_buf = [];
  headers_done = false;
  request_dead = false;
  is_session_stream = false;
  wt_send_open = false;
  wt_fin_pending = false;
  wt_recv_open = false;
  wt_recv_drain = false;
}

abbrev wt_stream : Estream
wt_stream = record connect_stream {
  kind = StreamKind.wt;
  id = some 4;
  wt_send_open = true;
  wt_recv_open = true;
}

-- A client that has sent its request, with no driver that refuses.
abbrev start : Conn
start = record {
  persp = Perspective.client;
  ops = record { shutdown_result = λ log. accepted; send_accepted = λ log. true };
  log = [];
  wt_profile = Settings.current;
  profile_latched = true;
  goaway_received = false;
  goaway_id = 0;
  is_closed = false;
  close_code = 0;
  transport_error = none;
  sess_state = SessionState.sent;
  offered = [];
  require_protocol = false;
  client_response_ok = false;
  client_selected_offer = none;
  parked_es = none;
  parked_buf = [];
  parked_fin = false;
  session_established = false;
  selected = [];
  session_id = 0;
  session_es = none;
  caps_dec = Capsule.init;
  close_capsule_rx = false;
  drain_rx = false;
  qsid_prefix = [];
  admission_enabled = false;
  admission_peers = [];
  peer = connect_stream ∷ wt_stream ∷ [];
}

abbrev start_IsStart : IsStart start
start_IsStart = record {
  client = refl;
  silent = refl;
  is_open = refl;
  sent = refl;
  unanswered = refl;
  single = omega arith;
  not_established = refl;
  not_drained = refl;
}

-- The same connection with its session established, on the first stream.
abbrev running : Conn
running = record start {
  log = Event.on_session_established [] Settings.current ∷ [];
  sess_state = SessionState.established;
  session_established = true;
  session_es = some 0;
}

abbrev running-IsValid : IsValid running
running-IsValid = record {
  sound = record {
    outcomes = refl;
    drains = refl;
    establishments = refl;
    active = refl;
    early = refl;
  };
  errors = refl;
  ended = refl;
}

abbrev cause : TransportError
cause = error_of ErrorKind.quic_transport 7

-- The backend reports a cause, the connection goes, and the error is sealed.
abbrev lost_run : Conn → Conn
unfolding set_transport_error on_conn_closed seal_transport_error
lost_run c = seal_transport_error (on_conn_closed 9 true (set_transport_error cause c))

abbrev caused : Conn
unfolding set_transport_error
caused = set_transport_error cause running

abbrev caused_run : Reach caused (lost_run running)
unfolding lost_run caused
caused_run =
    after _ _ _ (after _ _ _ (here _) (connection_closed caused 9 true))
      (sealed (on_conn_closed 9 true caused))

abbrev start_run : Reach start (lost_run start)
unfolding lost_run
start_run =
    after _ _ _
      (after _ _ _ (after _ _ _ (here _) (backend_error start cause))
        (connection_closed (set_transport_error cause start) 9 true))
      (sealed (on_conn_closed 9 true (set_transport_error cause start)))

-- The second stream is shut down, and the callbacks come after it.
running_closed_log :
    (conn_fatal h3_internal_error running).log
    ≡ on_conn_error h3_internal_error
      ∷ on_session_closed 0 [] false
      ∷ Event.conn_close h3_internal_error
      ∷ Event.on_session_established [] Settings.current
      ∷ []
unfolding conn_fatal
running_closed_log = refl

Reach-IsValid_example : IsValid (lost_run start)
Reach-IsValid_example = Reach-IsValid start (lost_run start) start_IsStart start_run

-- A protocol error ends the session that is asked for, and the error is sealed.
Reach-terminal_example :
    ((seal_transport_error (conn_fatal 3 start)).sess_state ≡ (conn_fatal 3 start).sess_state)
    × (count is_outcome (seal_transport_error (conn_fatal 3 start)).log ≡ 1)
    × (((conn_fatal 3 start).is_closed && not (seal_transport_error (conn_fatal 3 start)).is_closed)
        ≡ false)
unfolding conn_fatal
Reach-terminal_example =
    Reach-terminal start (conn_fatal 3 start) (seal_transport_error (conn_fatal 3 start))
      start_IsStart (after _ _ _ (here _) (protocol_error start 3)) refl
      (after _ _ _ (here _) (sealed (conn_fatal 3 start)))

Reach-transport_error_example : (lost_run running).transport_error ≡ some cause
unfolding set_transport_error
Reach-transport_error_example =
    Reach-transport_error caused (lost_run running) cause caused_run refl

conn_fatal_loop-enough_example :
    (conn_fatal_loop 3 h3_message_error running ≡ conn_fatal h3_message_error running)
    × ((fatal : ℕ → Conn → Conn)
        → fatal_by fatal h3_message_error running ≡ conn_fatal h3_message_error running)
    × (requests (conn_fatal h3_message_error running).log ≡ (
        if running.is_closed
        then requests running.log
        else Event.conn_close h3_message_error ∷ requests running.log))
conn_fatal_loop-enough_example = conn_fatal_loop-enough 2 h3_message_error running

conn_fatal_ends_example :
    IsValid (conn_fatal h3_message_error running)
    × ((conn_fatal h3_message_error running).is_closed ≡ true)
    × (is_terminal (conn_fatal h3_message_error running).sess_state ≡ true)
    × (count is_outcome (conn_fatal h3_message_error running).log ≡ 1)
    × (count is_error (conn_fatal h3_message_error running).log ≡ 1)
conn_fatal_ends_example = conn_fatal_ends h3_message_error running running-IsValid

-- A DRAIN capsule, and the start of another.
abbrev drain_bytes : List ℕ
drain_bytes = 0x80 ∷ 0x00 ∷ 0x78 ∷ 0xae ∷ 0x00 ∷ 0x80 ∷ []

capsule_loop-enough_example :
    (d : Conn) × ((extra : ℕ)
      → capsule_loop (extra + 7) 0 connect_stream drain_bytes running ≡ some d)
    × (session_capsule_bytes 0 connect_stream drain_bytes running
        ≡ (if running.close_capsule_rx then session_stream_poisoned 0 running else d))
capsule_loop-enough_example = capsule_loop-enough 0 connect_stream drain_bytes running
