-- ===== src/Engine/Conn/Events.antt =====
-- src/engine/conn.c: what the transport and the peer tell of the client's CONNECT stream. A response
-- is a complete HEADERS frame, an id, a FIN or a reset is reported, GOAWAY sets a limit.
use wtquic.Base.{
  ℕ, suc, ◌/◌, ◌%◌, ◌^◌, Bool, true, false, not, ◌&&◌, ◌||◌, List, [], ◌∷◌, Option, some, none, ltb,
  leb, ◌==◌, if◌then◌else◌,
}
use wtquic.Engine.Conn.{
  Conn, Estream, Perspective, StreamKind, bad_response, is_connect, update, same, session_failed,
  session_closed, session_draining, conn_fatal, estream_release, h3_internal_error,
}
use wtquic.Engine.Conn.Exchange.{
  is_sent, id_at_least, request_rejected, client_maybe_establish, client_response_done,
  parked_request_cancel, forget_session_stream,
}
use wtquic.Engine.Conn.Capsules.{request_stream_fin}

abbrev pub h3_id_error : ℕ
h3_id_error = 0x0108

abbrev pub is_client : Perspective → Bool
is_client Perspective.client = true
is_client Perspective.server = false

abbrev pub is_free : StreamKind → Bool
is_free StreamKind.free = true
is_free _ = false

abbrev pub headers_on : Estream → Estream
headers_on es = record es { headers_done = true }

-- The end of the first HEADERS frame of a CONNECT stream, in the walk over its frames.
unfoldable pub response_headers : ℕ → Estream → Conn → Conn
unfolding client_response_done
response_headers i es c = client_response_done i (headers_on es) (update i headers_on c)

-- Another stream than the one at index `i` has the id; `k` is the index of the first.
unfoldable pub id_taken : ℕ → ℕ → ℕ → List Estream → Bool
id_taken i id k [] = false
id_taken i id k (o ∷ peer) =
    let rest = id_taken i id (suc k) peer in
    (not (k == i) && not (is_free o.kind) && same o.id id) || rest

abbrev pub reported : ℕ → Estream → Estream
reported id es = record es { id = some id; native_id_pending = false }

-- `wtq_conn_on_stream_native_id` on a CONNECT stream.
unfoldable pub connect_native_id : ℕ → Estream → ℕ → Conn → Conn
unfolding conn_fatal client_maybe_establish id_taken
connect_native_id i es id c =
    if c.is_closed
    then c
    else if not es.native_id_pending
        || leb (2 ^ 62) id
        || not (id % 2 == (if is_client c.persp then 0 else 1))
        || not (id / 2 % 2 == 0)
        || (c.session_established && id == c.session_id)
        || id_taken i id 0 c.peer
    then conn_fatal h3_internal_error c
    else if is_client c.persp
    then client_maybe_establish i (reported id es) (update i (reported id) c)
    else update i (reported id) c

-- A FIN on a request stream that is not parked: what `wtq_conn_on_stream_bytes` does with it.
unfoldable pub request_stream_closed : ℕ → Estream → Conn → Conn
unfolding request_stream_fin estream_release
request_stream_closed i es c =
    estream_release i (forget_session_stream i (request_stream_fin i es c))

abbrev pub cancel_parked : ℕ → Conn → Conn
cancel_parked i c = if same c.parked_es i then parked_request_cancel c else c

-- `wtq_conn_on_stream_reset` on the session's stream.
abbrev pub session_stream_reset : ℕ → Conn → Conn
session_stream_reset i c = session_closed 0 [] false (estream_release i (forget_session_stream i c))

-- And on any request stream.
unfoldable pub request_stream_reset : ℕ → Estream → Conn → Conn
unfolding session_closed session_failed parked_request_cancel estream_release
request_stream_reset i es c =
    if c.is_closed
    then c
    else if es.is_session_stream
    then session_stream_reset i c
    else estream_release i (
        cancel_parked i (
          if is_connect es.kind && is_sent c.sess_state && not c.session_established
          then session_failed bad_response c
          else c))

-- The loop over the streams: the first request that is out of the limit `v`.
unfoldable pub beyond_limit : ℕ → ℕ → List Estream → Option ℕ
beyond_limit v k [] = none
beyond_limit v k (es ∷ peer) =
    let rest = beyond_limit v (suc k) peer in
    if is_connect es.kind && not es.native_id_pending && id_at_least es.id v then some k else rest

abbrev pub reject_at : Option ℕ → Conn → Conn
reject_at none c = c
reject_at (some i) c = request_rejected i c

-- A GOAWAY frame with the value `v`.
unfoldable pub goaway : ℕ → Conn → Conn
unfolding conn_fatal session_draining request_rejected beyond_limit
goaway v c =
    if (is_client c.persp && not (v % 4 == 0)) || (c.goaway_received && ltb c.goaway_id v)
    then conn_fatal h3_id_error c
    else let c' = record c { goaway_received = true; goaway_id = v } in
      session_draining (
        if is_client c.persp && is_sent c.sess_state
        then reject_at (beyond_limit v 0 c.peer) c'
        else c')
