-- ===== src/Engine/Conn/Latched.antt =====
-- The response handler of src/engine/conn.c keeps the first cause of an error, in any state.
use wtquic.Base.{
  ℕ, ◌≡◌, Bool, true, false, not, List, Option, some, none, if◌then◌else◌, length, ltb, ◌==◌,
}
use wtquic.Proto.Connect.{Outcome, ok, err}
use wtquic.Proto.Connect.Response.{Resp, decode_response, status_is_success}
use wtquic.Engine.Conn.{
  Conn, Estream, TransportError, bad_response, session_failed, conn_fatal, h3_message_error,
}
use wtquic.Engine.Conn.Preserves.{conn_fatal-Preserves}
use wtquic.Engine.Conn.Steps.{client_maybe_establish-Preserves}
use wtquic.Engine.Conn.Exchange.{
  find_offer, marker_missing, response_accepted, selection_found, protocol_selected,
  response_received, response_error, response_decoded, client_response_done, strict_opts,
}

-- A state with the cause recorded.
abbrev Has : TransportError → Conn → Type 0
Has e c = c.transport_error ≡ some e

Has-if :
    (e : TransportError) (b : Bool) (x y : Conn) → Has e x → Has e y → Has e (if b then x else y)
Has-if e true x y h k = h
Has-if e false x y h k = k

module _ (e : TransportError) (i : ℕ) (es : Estream) (c : Conn)
    (h : c.transport_error ≡ some e) where
  failed_bad : Has e (conn_fatal h3_message_error (session_failed bad_response c))
  unfolding session_failed
  failed_bad = (conn_fatal-Preserves h3_message_error (session_failed bad_response c)).latched e h

  accepted-Has : (k : Option ℕ) → Has e (response_accepted i es k c)
  unfolding response_accepted
  accepted-Has k =
      (client_maybe_establish-Preserves i es
          (record c { client_response_ok = true; client_selected_offer = k })).latched
        e h

  found-Has : (k : Option ℕ) → Has e (selection_found i es k c)
  unfolding selection_found session_failed
  found-Has none = h
  found-Has (some k) = accepted-Has (some k)

  selected-Has : (p : Option (List ℕ)) → Has e (protocol_selected i es p c)
  unfolding protocol_selected session_failed
  selected-Has none = Has-if e c.require_protocol _ _ h (accepted-Has none)
  selected-Has (some p) =
      Has-if e (length c.offered == 0) _ _ h (found-Has (find_offer 0 p c.offered))

  received-Has : (resp : Resp) → Has e (response_received i es resp c)
  unfolding response_received session_failed
  received-Has resp =
      Has-if e (ltb resp.status 200) _ _ (Has-if e (resp.status == 101) _ _ failed_bad h) (
        Has-if e (not (status_is_success resp.status)) _ _ h
          (Has-if e (marker_missing c resp) _ _ h (selected-Has resp.protocol)))

  decoded-Has : (o : Outcome Resp) → Has e (response_decoded i es o c)
  unfolding response_decoded session_failed
  decoded-Has (err s) =
      (conn_fatal-Preserves (response_error s) (session_failed bad_response c)).latched e h
  decoded-Has (ok resp) = received-Has resp

  pub client_response_done-latched : (client_response_done i es c).transport_error ≡ some e
  unfolding client_response_done
  client_response_done-latched = decoded-Has (decode_response es.set_buf strict_opts 512)
