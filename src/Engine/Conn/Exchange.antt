-- ===== src/Engine/Conn/Exchange.antt =====
-- src/engine/conn.c: the client's side of the CONNECT exchange, from the response on, and the
-- failures of a request stream.
use wtquic.Base.{
  ℕ, suc, ◌/◌, Bool, true, false, not, ◌&&◌, ◌||◌, List, [], ◌∷◌, Option, some, none, get_elem?,
  ltb, leb, ◌==◌, if◌then◌else◌, length,
}
use wtquic.Proto.Varint
use wtquic.Proto.Frame.{written}
use wtquic.Proto.Capsule
use wtquic.Proto.Settings.{Profile}
use wtquic.Proto.SfString.Write.{text_eq}
use wtquic.Proto.Connect.{Opts, Outcome, ok, err, Status}
use wtquic.Proto.Connect
use wtquic.Proto.Connect.Response.{Resp, decode_response, status_is_success}
use wtquic.Proto.Connect.Encode.{draft02}
use wtquic.Engine.Conn.{
  Conn, Estream, SessionState, bad_response, no_protocol, connection, call, update, same,
  on_session_established, on_session_rejected, session_failed, session_draining, session_closed,
  shutdown_raw, conn_fatal, estream_release, h3_internal_error, h3_request_rejected,
  h3_message_error, qpack_decompression_failed, protocol_storage,
}

abbrev pub strict_opts : Opts
strict_opts = record { lenient_sf_tokens = false; accept_legacy_protocol = false }

abbrev pub compat_opts : Opts
compat_opts = record { lenient_sf_tokens = false; accept_legacy_protocol = true }

-- `conn_profile_policy_t`
pub record Policy : Type 0 where
  pub opts : Opts
  pub expect_legacy_token : Bool
  pub require_d02_request_marker : Bool
  pub emit_d02_response_marker : Bool
  pub require_origin : Bool
  pub max_outbound_app_error : ℕ

-- The three profiles are all; the answer `false` for another value has no counterpart.
unfoldable pub conn_connect_policy : Profile → Policy
conn_connect_policy Profile.current = record {
  opts = strict_opts;
  expect_legacy_token = false;
  require_d02_request_marker = false;
  emit_d02_response_marker = false;
  require_origin = false;
  max_outbound_app_error = 0xffffffff;
}
conn_connect_policy Profile.d13_14_compat = record {
  opts = compat_opts;
  expect_legacy_token = true;
  require_d02_request_marker = false;
  emit_d02_response_marker = false;
  require_origin = false;
  max_outbound_app_error = 0xffffffff;
}
conn_connect_policy Profile.d02_rfc9297_compat = record {
  opts = compat_opts;
  expect_legacy_token = true;
  require_d02_request_marker = true;
  emit_d02_response_marker = true;
  require_origin = true;
  max_outbound_app_error = 255;
}

-- The stream becomes the session's.
abbrev pub adopt : ℕ → ℕ → List ℕ → Conn → Conn
adopt i id sel c = call (on_session_established sel c.wt_profile) (
    update i (λ es. record es { is_session_stream = true })
      (record c {
        session_established = true;
        sess_state = SessionState.established;
        session_id = id;
        session_es = some i;
        caps_dec = Capsule.init;
        qsid_prefix = written (Varint.encode (id / 4) 8);
      }))

-- An unknown id is an error of the engine.
unfoldable pub establish_as : Option ℕ → ℕ → List ℕ → Conn → Conn
unfolding conn_fatal session_draining
establish_as none i sel c = conn_fatal h3_internal_error c
establish_as (some id) i sel c =
    let c' = adopt i id sel c in if c'.goaway_received then session_draining c' else c'

unfoldable pub session_established : ℕ → Estream → List ℕ → Conn → Conn
unfolding establish_as
session_established i es sel c =
    if ltb protocol_storage (length sel)
    then conn_fatal h3_internal_error c
    else establish_as es.id i sel (record c { selected = sel })

abbrev pub is_sent : SessionState → Bool
is_sent SessionState.sent = true
is_sent _ = false

-- `es->id >= limit`; the unknown id is the largest number.
abbrev pub id_at_least : Option ℕ → ℕ → Bool
id_at_least none limit = true
id_at_least (some id) limit = leb limit id

abbrev pub dead : Estream → Estream
dead es = record es { request_dead = true }

unfoldable pub offer_at : Option ℕ → List (List ℕ) → List ℕ
offer_at none offered = []
offer_at (some k) offered = elim (get_elem? offered k) [ none ↦ [] | some p ↦ p ]

-- GOAWAY put the request out of its limit.
unfoldable pub request_rejected : ℕ → Conn → Conn
unfolding session_failed shutdown_raw
request_rejected i c =
    let c' = session_failed connection (update i dead c) in
    if not c'.is_closed then shutdown_raw i true true h3_request_rejected c' else c'

unfoldable pub client_maybe_establish : ℕ → Estream → Conn → Conn
unfolding request_rejected session_established offer_at
client_maybe_establish i es c =
    if not (is_sent c.sess_state) || not c.client_response_ok || es.native_id_pending
    then c
    else if c.goaway_received && id_at_least es.id c.goaway_id
    then request_rejected i c
    else session_established i es (offer_at c.client_selected_offer c.offered) c

-- The loop over the offer, from index `k` on.
unfoldable pub find_offer : ℕ → List ℕ → List (List ℕ) → Option ℕ
unfolding text_eq
find_offer k p [] = none
find_offer k p (q ∷ offered) =
    let rest = find_offer (suc k) p offered in if text_eq q p then some k else rest

-- The successful response without the marker that its profile asks for.
unfoldable pub marker_missing : Conn → Resp → Bool
unfolding conn_connect_policy text_eq
marker_missing c resp =
    c.profile_latched
    && (conn_connect_policy c.wt_profile).emit_d02_response_marker
    && not (resp.has_d02_marker && text_eq resp.d02_marker draft02)

unfoldable pub response_accepted : ℕ → Estream → Option ℕ → Conn → Conn
unfolding client_maybe_establish
response_accepted i es selected c =
    client_maybe_establish i es
      (record c { client_response_ok = true; client_selected_offer = selected })

-- The selection that was found in the offer.
unfoldable pub selection_found : ℕ → Estream → Option ℕ → Conn → Conn
unfolding response_accepted
selection_found i es none c = session_failed no_protocol c
selection_found i es (some k) c = response_accepted i es (some k) c

unfoldable pub protocol_selected : ℕ → Estream → Option (List ℕ) → Conn → Conn
unfolding selection_found find_offer
protocol_selected i es none c =
    if c.require_protocol then session_failed no_protocol c else response_accepted i es none c
protocol_selected i es (some p) c =
    if length c.offered == 0
    then session_failed no_protocol c
    else selection_found i es (find_offer 0 p c.offered) c

unfoldable pub response_received : ℕ → Estream → Resp → Conn → Conn
unfolding protocol_selected marker_missing
response_received i es resp c =
    if ltb resp.status 200
    then (if resp.status == 101
        then conn_fatal h3_message_error (session_failed bad_response c)
        else update i (λ e. record e { headers_done = false }) c)
    else if not (status_is_success resp.status)
    then call (on_session_rejected resp.status) (record c { sess_state = SessionState.rejected })
    else if marker_missing c resp
    then session_failed bad_response c
    else protocol_selected i es resp.protocol c

abbrev pub response_error : Status → ℕ
response_error Connect.qpack_failed = qpack_decompression_failed
response_error _ = h3_message_error

unfoldable pub response_decoded : ℕ → Estream → Outcome Resp → Conn → Conn
unfolding response_received
response_decoded i es (err s) c = conn_fatal (response_error s) (session_failed bad_response c)
response_decoded i es (ok resp) c = response_received i es resp c

-- `char scratch[512]`
unfoldable pub client_response_done : ℕ → Estream → Conn → Conn
unfolding response_decoded
client_response_done i es c = response_decoded i es (decode_response es.set_buf strict_opts 512) c

unfoldable pub request_stream_refuse_err : ℕ → ℕ → Conn → Conn
unfolding shutdown_raw
request_stream_refuse_err i h3_err c = update i dead (shutdown_raw i true true h3_err c)

unfoldable pub request_stream_refuse : ℕ → Conn → Conn
unfolding request_stream_refuse_err
request_stream_refuse i c = request_stream_refuse_err i h3_request_rejected c

unfoldable pub parked_request_cancel : Conn → Conn
parked_request_cancel c = record c { parked_es = none; parked_buf = []; parked_fin = false }

-- `if (conn->session_es == es) conn->session_es = NULL;`
abbrev pub forget_session_stream : ℕ → Conn → Conn
forget_session_stream i c = record c {
  session_es = if same c.session_es i then none else c.session_es;
}

unfoldable pub request_stream_fail : ℕ → Estream → ℕ → Conn → Conn
unfolding request_stream_refuse_err parked_request_cancel estream_release
request_stream_fail i es h3_err c =
    let c1 = request_stream_refuse_err i h3_err c in
    let c2 = if same c1.parked_es i then parked_request_cancel c1 else c1 in
    if es.is_session_stream
    then session_closed 0 [] false (estream_release i (forget_session_stream i c2))
    else c2

unfoldable pub session_stream_poisoned : ℕ → Conn → Conn
unfolding shutdown_raw estream_release
session_stream_poisoned i c =
    estream_release i (forget_session_stream i (shutdown_raw i true true h3_message_error c))
