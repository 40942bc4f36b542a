-- ===== src/Engine/Conn.antt =====
-- src/engine/conn.c: the state of a connection and the outcomes of its session. A pointer to a
-- stream is its index into `peer`. What the engine calls, the driver and the application, is a log:
-- the driver answers by a function of the log, and the application's callbacks do not call back.
pub mod Outcome
pub mod Valid
pub mod Preserves
pub mod Fuel
pub mod Exchange
pub mod Closed
pub mod Waits
pub mod Events
pub mod Answered
pub mod AnsweredLife
pub mod EventsKept
pub mod Latched
pub mod Steps
pub mod Capsules
pub mod Life
pub mod Reach
pub mod CapsuleFuel
mod Tests
use wtquic.Base.{
  ℕ, zero, suc, ◌+◌, ◌/◌, ◌%◌, Bool, true, false, not, ◌&&◌, ◌||◌, List, [], ◌∷◌, Option, some,
  none, ◌++◌, get_elem?, ltb, ◌==◌, if◌then◌else◌, length,
}
use wtquic.Proto.Varint
use wtquic.Proto.Frame
use wtquic.Proto.Frame.{written}
use wtquic.Proto.Capsule
use wtquic.Proto.Settings.{Profile}

-- `wtq_session_state_t`.
pub data SessionState : Type 0 where
  idle pending sent established draining closed rejected failed : SessionState

-- `wtq_session_fail_reason_t`
pub data FailReason : Type 0 where
  no_wt_support no_protocol bad_response connection : FailReason

pub data Perspective : Type 0 where
  client server : Perspective

-- `wtq_error_kind_t`
pub data ErrorKind : Type 0 where
  no_error quic_transport quic_app local : ErrorKind

-- `wtq_transport_error_t`, less its size.
pub record TransportError : Type 0 where
  pub kind : ErrorKind
  pub quic_code : ℕ
  pub native_domain : ℕ
  pub native_code : ℕ

-- What the engine calls: the driver's operations and the callbacks.
pub data Event : Type 0 where
  conn_close : ℕ → Event
  shutdown_stream : ℕ → Bool → Bool → ℕ → Event
  send : ℕ → List ℕ → Bool → Event
  detach : ℕ → Event
  on_session_failed : FailReason → Event
  on_session_draining : Event
  on_session_established : List ℕ → Profile → Event
  on_session_rejected : ℕ → Event
  on_session_closed : ℕ → List ℕ → Bool → Event
  on_conn_error : ℕ → Event

-- What `shutdown_stream` answers.
pub data DriverResult : Type 0 where
  accepted already_closed refused : DriverResult

-- The driver's answers, by all that was called before.
pub record Ops : Type 0 where
  pub shutdown_result : List Event → DriverResult
  pub send_accepted : List Event → Bool

-- The classes of a peer stream.
pub data StreamKind : Type 0 where
  free type btype control qpack drain connect request wt reserved : StreamKind

abbrev pub is_wt : StreamKind → Bool
is_wt StreamKind.wt = true
is_wt _ = false

abbrev pub is_connect : StreamKind → Bool
is_connect StreamKind.connect = true
is_connect _ = false

abbrev pub is_request : StreamKind → Bool
is_request StreamKind.request = true
is_request _ = false

-- `struct wtq_estream`: the part that the session's life depends on, of a stream that the driver
-- has. An unknown id is `none`.
pub record Estream : Type 0 where
  pub kind : StreamKind
  pub id : Option ℕ
  pub native_id_pending : Bool
  pub frame_dec : Frame.Decoder
  pub frame_active : Bool
  pub set_buf : List ℕ
  pub headers_done : Bool
  pub request_dead : Bool
  pub is_session_stream : Bool
  pub wt_send_open : Bool
  pub wt_fin_pending : Bool
  pub wt_recv_open : Bool
  pub wt_recv_drain : Bool

-- `wtq_peer_admission_t`: the stream that it stands for, and its state.
pub record Admission : Type 0 where
  pub es : Option ℕ
  pub state : ℕ

-- `struct wtq_conn`: the part that the session's life depends on.
pub record Conn : Type 0 where
  pub persp : Perspective
  pub ops : Ops
  pub log : List Event
  pub wt_profile : Profile
  pub profile_latched : Bool
  pub goaway_received : Bool
  pub goaway_id : ℕ
  pub is_closed : Bool
  pub close_code : ℕ
  pub transport_error : Option TransportError
  pub sess_state : SessionState
  pub offered : List (List ℕ)
  pub require_protocol : Bool
  pub client_response_ok : Bool
  pub client_selected_offer : Option ℕ
  pub parked_es : Option ℕ
  pub parked_buf : List ℕ
  pub parked_fin : Bool
  pub session_established : Bool
  pub selected : List ℕ
  pub session_id : ℕ
  pub session_es : Option ℕ
  pub caps_dec : Capsule.Decoder
  pub close_capsule_rx : Bool
  pub drain_rx : Bool
  pub qsid_prefix : List ℕ
  pub admission_enabled : Bool
  pub admission_peers : List Admission
  pub peer : List Estream

-- H3_ERR values, and `WTQ_WT_SESSION_GONE`.
abbrev pub h3_internal_error : ℕ
h3_internal_error = 0x0102

abbrev pub h3_frame_error : ℕ
h3_frame_error = 0x0106

abbrev pub h3_request_rejected : ℕ
h3_request_rejected = 0x010b

abbrev pub h3_request_incomplete : ℕ
h3_request_incomplete = 0x010d

abbrev pub h3_message_error : ℕ
h3_message_error = 0x010e

abbrev pub qpack_decompression_failed : ℕ
qpack_decompression_failed = 0x0200

abbrev pub wt_session_gone : ℕ
wt_session_gone = 0x170d7b68

abbrev pub protocol_storage : ℕ
protocol_storage = 512

abbrev pub call : Event → Conn → Conn
call e c = record c { log = e ∷ c.log }

-- `sess_state == ESTABLISHED || sess_state == DRAINING`
abbrev pub is_active : SessionState → Bool
is_active SessionState.established = true
is_active SessionState.draining = true
is_active _ = false

unfoldable pub session_active : Conn → Bool
session_active c = is_active c.sess_state

unfoldable pub session_failed : FailReason → Conn → Conn
session_failed reason c =
    call (on_session_failed reason) (record c { sess_state = SessionState.failed })

unfoldable pub session_draining : Conn → Conn
unfolding session_active
session_draining c =
    if c.is_closed || c.drain_rx || not (session_active c)
    then c
    else call on_session_draining (record c { drain_rx = true; sess_state = SessionState.draining })

-- The stream at an index, changed.
abbrev pub set_at : ℕ → (Estream → Estream) → List Estream → List Estream
set_at i f [] = []
set_at zero f (es ∷ peer) = f es ∷ peer
set_at (suc i) f (es ∷ peer) = es ∷ set_at i f peer

abbrev pub update : ℕ → (Estream → Estream) → Conn → Conn
update i f c = record c { peer = set_at i f c.peer }

abbrev pub same : Option ℕ → ℕ → Bool
same none i = false
same (some j) i = j == i

-- The loop over the admissions in `estream_release`.
unfoldable pub release_admissions : ℕ → List Admission → List Admission
release_admissions i [] = []
release_admissions i (p ∷ ps) =
    (if same p.es i then record { es = none; state = 3 } else p) ∷ release_admissions i ps

unfoldable pub estream_release : ℕ → Conn → Conn
unfolding release_admissions
estream_release i c =
    update i (λ es. record es { kind = StreamKind.free; native_id_pending = false })
      (call (detach i) (record c {
        admission_peers =
            if c.admission_enabled
            then release_admissions i c.admission_peers
            else c.admission_peers;
      }))

abbrev pub wt_done : Estream → Bool
wt_done es =
    is_wt es.kind
    && not es.wt_send_open
    && not es.wt_fin_pending
    && not es.wt_recv_open
    && not es.wt_recv_drain

unfoldable pub wt_release_if_done : ℕ → Conn → Conn
unfolding estream_release
wt_release_if_done i c = elim (get_elem? c.peer i) [
  | none ↦ c
  | some es ↦ if wt_done es then estream_release i c else c
]

abbrev pub set_error : TransportError → Option TransportError → Option TransportError
set_error e none = some e
set_error e (some old) = some old

unfoldable pub conn_latch_error : TransportError → Conn → Conn
conn_latch_error e c = record c { transport_error = set_error e c.transport_error }

-- WTQ_ERR_CLOSED is benign, any other failure is not.
abbrev pub unless_refused : DriverResult → Conn → Conn → Conn
unless_refused accepted c d = c
unless_refused already_closed c d = c
unless_refused refused c d = d

-- `shutdown_raw`, with the function that it calls on a failure.
unfoldable pub shutdown_raw_with : (ℕ → Conn → Conn) → ℕ → Bool → Bool → ℕ → Conn → Conn
shutdown_raw_with fatal i abort_send abort_recv code c =
    let c' = call (shutdown_stream i abort_send abort_recv code) c in
    unless_refused (c.ops.shutdown_result c'.log) c' (fatal h3_internal_error c')

-- Both directions closed, the receive side left to drain.
abbrev pub close_sides : Estream → Estream
close_sides es = record es {
  wt_send_open = false;
  wt_fin_pending = false;
  wt_recv_open = false;
  wt_recv_drain = es.wt_recv_open || es.wt_recv_drain;
}

-- A round of the loop in `session_closed`.
unfoldable pub close_stream : (ℕ → Conn → Conn) → ℕ → Conn → Conn
unfolding shutdown_raw_with wt_release_if_done
close_stream fatal i c = elim (get_elem? c.peer i) [
  | none ↦ c
  | some es ↦
      if not (is_wt es.kind)
      then c
      else wt_release_if_done i (
          update i close_sides (
            if not c.is_closed && (es.wt_send_open || es.wt_fin_pending || es.wt_recv_open)
            then shutdown_raw_with fatal i (es.wt_send_open || es.wt_fin_pending) es.wt_recv_open
                wt_session_gone c
            else c))
]

-- The loop, with `k` streams to go from index `i` on.
unfoldable pub close_streams : (ℕ → Conn → Conn) → ℕ → ℕ → Conn → Conn
unfolding close_stream
close_streams fatal zero i c = c
close_streams fatal (suc k) i c = close_streams fatal k (suc i) (close_stream fatal i c)

unfoldable pub session_closed_with : (ℕ → Conn → Conn) → ℕ → List ℕ → Bool → Conn → Conn
unfolding session_active close_streams
session_closed_with fatal code reason clean c =
    if not (session_active c)
    then c
    else call (on_session_closed code reason clean)
        (close_streams fatal (length c.peer) 0 (record c { sess_state = SessionState.closed }))

-- `session_conn_lost`, by the state.
unfoldable pub lost_in : (ℕ → Conn → Conn) → SessionState → Conn → Conn
unfolding session_closed_with session_failed
lost_in fatal SessionState.established c = session_closed_with fatal 0 [] false c
lost_in fatal SessionState.draining c = session_closed_with fatal 0 [] false c
lost_in fatal SessionState.idle c = session_failed connection c
lost_in fatal SessionState.pending c = session_failed connection c
lost_in fatal SessionState.sent c = session_failed connection c
lost_in fatal SessionState.closed c = c
lost_in fatal SessionState.rejected c = c
lost_in fatal SessionState.failed c = c

unfoldable pub session_conn_lost_with : (ℕ → Conn → Conn) → Conn → Conn
unfolding lost_in
session_conn_lost_with fatal c = lost_in fatal c.sess_state c

abbrev pub error_of : ErrorKind → ℕ → TransportError
error_of kind code = record { kind = kind; quic_code = code; native_domain = 0; native_code = 0 }

-- The end of a connection, in both of its causes.
unfoldable pub conn_lost_with : (ℕ → Conn → Conn) → ErrorKind → ℕ → List Event → Conn → Conn
unfolding session_conn_lost_with conn_latch_error
conn_lost_with fatal kind err calls c =
    let c' = conn_latch_error (error_of kind err) c in
    call (on_conn_error err) (
      session_conn_lost_with fatal
        (record c' { is_closed = true; close_code = err; log = calls ++ c'.log }))

-- `conn_fatal` reaches itself through the streams that it closes. The fuel bounds the nesting; one
-- is enough, for the connection is closed before they are.
unfoldable pub conn_fatal_loop : ℕ → ℕ → Conn → Conn
unfolding conn_lost_with
conn_fatal_loop zero err c = c
conn_fatal_loop (suc fuel) err c =
    let fatal = conn_fatal_loop fuel in
    if c.is_closed then c else conn_lost_with fatal ErrorKind.quic_app err (conn_close err ∷ []) c

unfoldable pub conn_fatal : ℕ → Conn → Conn
unfolding conn_fatal_loop
conn_fatal err c = conn_fatal_loop 1 err c

unfoldable pub shutdown_raw : ℕ → Bool → Bool → ℕ → Conn → Conn
unfolding conn_fatal
shutdown_raw i abort_send abort_recv code c =
    shutdown_raw_with conn_fatal i abort_send abort_recv code c

unfoldable pub session_closed : ℕ → List ℕ → Bool → Conn → Conn
unfolding conn_fatal
session_closed code reason clean c = session_closed_with conn_fatal code reason clean c

unfoldable pub on_conn_closed : ℕ → Bool → Conn → Conn
unfolding conn_fatal
on_conn_closed err remote c =
    if c.is_closed
    then c
    else conn_lost_with conn_fatal (if remote then ErrorKind.quic_app else ErrorKind.local) err [] c

-- A record of the kind NONE is ignored.
abbrev pub has_kind : ErrorKind → Bool
has_kind ErrorKind.no_error = false
has_kind _ = true

unfoldable pub set_transport_error : TransportError → Conn → Conn
unfolding conn_latch_error
set_transport_error e c = if has_kind e.kind then conn_latch_error e c else c

unfoldable pub seal_transport_error : Conn → Conn
unfolding conn_latch_error
seal_transport_error c = conn_latch_error (error_of ErrorKind.no_error 0) c
