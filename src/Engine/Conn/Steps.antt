-- ===== src/Engine/Conn/Steps.antt =====
-- The handlers of src/engine/conn.c preserve the agreement of the log with the state.
use wtquic.Base.{
  ℕ, suc, ◌≡◌, refl, ap, ◌∙◌, arith, Bool, true, false, not, ◌&&◌, ◌||◌, List, ◌∷◌, Option, some,
  none, length, ltb, ◌==◌,
}
use wtquic.Proto.Connect.{Outcome, ok, err}
use wtquic.Proto.Connect.Response.{Resp, decode_response, status_is_success}
use wtquic.Engine.Conn.{
  Conn, Estream, Event, SessionState, bad_response, no_protocol, connection, call, update,
  DriverResult, accepted, already_closed, refused, unless_refused, shutdown_stream, detach,
  session_failed, shutdown_raw, shutdown_raw_with, conn_fatal, estream_release, h3_internal_error,
  h3_request_rejected, h3_message_error, protocol_storage, conn_latch_error, TransportError,
  set_error, on_session_rejected,
}
use wtquic.Engine.Conn.Outcome.{
  is_early, is_outcome, is_error, is_drain, is_establishment, bit, and_not,
}
use wtquic.Engine.Conn.Valid.{early→live}
use wtquic.Engine.Conn.Preserves.{
  Preserves, Preserves-refl, Preserves-trans, Preserves-if, conn_fatal-Preserves,
  session_failed-Preserves, session_draining-Preserves, ended_when_over,
}
use wtquic.Engine.Conn.Exchange.{
  adopt, establish_as, session_established, is_sent, id_at_least, dead, offer_at, request_rejected,
  client_maybe_establish, find_offer, marker_missing, response_accepted, selection_found,
  protocol_selected, response_received, response_error, response_decoded, client_response_done,
  strict_opts,
}

-- A change of fields that the session's life does not read.
pub core-Preserves :
    (c d : Conn)
    → d.log ≡ c.log
    → d.sess_state ≡ c.sess_state
    → d.is_closed ≡ c.is_closed
    → d.drain_rx ≡ c.drain_rx
    → d.session_established ≡ c.session_established
    → d.transport_error ≡ c.transport_error
    → Preserves c d
core-Preserves c d l s b r e x = record {
  valid = λ v. record {
    sound = record {
      outcomes = rw (l, s) v.sound.outcomes;
      drains = rw (l, r) v.sound.drains;
      establishments = rw (l, e) v.sound.establishments;
      active = rw (s, e) v.sound.active;
      early = rw (s, e, r) v.sound.early;
    };
    errors = rw (l, b) v.errors;
    ended = rw (b, s) v.ended;
  };
  stays_closed = rw b (and_not c.is_closed);
  latched = λ t h. x ∙ h;
  stays_final = λ h. s;
}

-- A call that is none of the counted events.
pub call-Preserves :
    (e : Event) (c : Conn)
    → is_outcome e ≡ false
    → is_error e ≡ false
    → is_drain e ≡ false
    → is_establishment e ≡ false
    → Preserves c (call e c)
call-Preserves e c o f d s = record {
  valid = λ v. record {
    sound = record {
      outcomes = rw o v.sound.outcomes;
      drains = rw d v.sound.drains;
      establishments = rw s v.sound.establishments;
      active = v.sound.active;
      early = v.sound.early;
    };
    errors = rw f v.errors;
    ended = v.ended;
  };
  stays_closed = and_not c.is_closed;
  latched = λ e h. h;
  stays_final = λ h. refl;
}

pub update-Preserves : (i : ℕ) (f : Estream → Estream) (c : Conn) → Preserves c (update i f c)
update-Preserves i f c = core-Preserves c (update i f c) refl refl refl refl refl refl

pub estream_release-Preserves : (i : ℕ) (c : Conn) → Preserves c (estream_release i c)
unfolding estream_release
estream_release-Preserves i c =
    Preserves-trans (call-Preserves (detach i) c refl refl refl refl)
      (core-Preserves (call (detach i) c) (estream_release i c) refl refl refl refl refl refl)

unless-Preserves :
    (r : DriverResult) (c x y : Conn)
    → Preserves c x
    → Preserves c y
    → Preserves c (unless_refused r x y)
unless-Preserves accepted c x y h k = h
unless-Preserves already_closed c x y h k = h
unless-Preserves refused c x y h k = k

pub shutdown_raw-Preserves :
    (i : ℕ) (s r : Bool) (code : ℕ) (c : Conn) → Preserves c (shutdown_raw i s r code c)
unfolding shutdown_raw shutdown_raw_with
shutdown_raw-Preserves i s r code c =
    let called = call-Preserves (shutdown_stream i s r code) c refl refl refl refl in
    unless-Preserves (c.ops.shutdown_result (shutdown_stream i s r code ∷ c.log)) c _ _ called (
      Preserves-trans called
        (conn_fatal-Preserves h3_internal_error (call (shutdown_stream i s r code) c)))

-- An early session becomes the stream's.
adopt-Preserves :
    (i id : ℕ) (sel : List ℕ) (c : Conn)
    → is_early c.sess_state ≡ true
    → Preserves c (adopt i id sel c)
adopt-Preserves i id sel c h =
    let live = early→live c.sess_state h in
    record {
      valid = λ v.
          let open_ : c.is_closed ≡ false = ground (arith, live, v.ended) in
          let fresh : c.session_established ≡ false = ground (arith, h, v.sound.early) in
          record {
            sound = record {
              outcomes = v.sound.outcomes ∙ ap bit live;
              drains = v.sound.drains;
              establishments = ap suc (v.sound.establishments ∙ ap bit fresh);
              active = refl;
              early = refl;
            };
            errors = v.errors;
            ended = rw open_ refl;
          };
      stays_closed = and_not c.is_closed;
      latched = λ e h. h;
      stays_final = λ t. absurd (cc (t, live));
    }

establish_as-Preserves :
    (id : Option ℕ) (i : ℕ) (sel : List ℕ) (c : Conn)
    → is_early c.sess_state ≡ true
    → Preserves c (establish_as id i sel c)
unfolding establish_as
establish_as-Preserves none i sel c h = conn_fatal-Preserves h3_internal_error c
establish_as-Preserves (some id) i sel c h =
    let p = adopt-Preserves i id sel c h in
    Preserves-if c.goaway_received c _ _
      (λ b. Preserves-trans p (session_draining-Preserves (adopt i id sel c))) (λ b. p)

session_established-Preserves :
    (i : ℕ) (es : Estream) (sel : List ℕ) (c : Conn)
    → is_early c.sess_state ≡ true
    → Preserves c (session_established i es sel c)
unfolding session_established
session_established-Preserves i es sel c h =
    Preserves-if (ltb protocol_storage (length sel)) c _ _
      (λ b. conn_fatal-Preserves h3_internal_error c)
      (λ b.
        Preserves-trans
          (core-Preserves c (record c { selected = sel }) refl refl refl refl refl refl)
          (establish_as-Preserves es.id i sel (record c { selected = sel }) h))

pub request_rejected-Preserves :
    (i : ℕ) (c : Conn) → is_early c.sess_state ≡ true → Preserves c (request_rejected i c)
unfolding request_rejected
request_rejected-Preserves i c h =
    let d = session_failed connection (update i dead c) in
    let p =
      Preserves-trans (update-Preserves i dead c)
        (session_failed-Preserves connection (update i dead c) h) in
    Preserves-if (not d.is_closed) c _ _
      (λ b. Preserves-trans p (shutdown_raw-Preserves i true true h3_request_rejected d)) (λ b. p)

pub sent→early : (s : SessionState) → is_sent s ≡ true → is_early s ≡ true
sent→early SessionState.sent h = refl
sent→early SessionState.idle h = absurd cc
sent→early SessionState.pending h = absurd cc
sent→early SessionState.established h = absurd cc
sent→early SessionState.draining h = absurd cc
sent→early SessionState.closed h = absurd cc
sent→early SessionState.rejected h = absurd cc
sent→early SessionState.failed h = absurd cc

pub client_maybe_establish-Preserves :
    (i : ℕ) (es : Estream) (c : Conn) → Preserves c (client_maybe_establish i es c)
unfolding client_maybe_establish
client_maybe_establish-Preserves i es c =
    Preserves-if (not (is_sent c.sess_state) || not c.client_response_ok || es.native_id_pending) c
      c _ (λ b. Preserves-refl c)
      (λ b.
        let h = sent→early c.sess_state (ground (arith, b)) in
        Preserves-if (c.goaway_received && id_at_least es.id c.goaway_id) c _ _
          (λ g. request_rejected-Preserves i c h)
          (λ g.
            session_established-Preserves i es (offer_at c.client_selected_offer c.offered) c h))

-- The response on a request that was sent.
module _ (i : ℕ) (es : Estream) (c : Conn) (h : is_sent c.sess_state ≡ true) where
  early : is_early c.sess_state ≡ true
  early = sent→early c.sess_state h

  response_accepted-Preserves : (k : Option ℕ) → Preserves c (response_accepted i es k c)
  unfolding response_accepted
  response_accepted-Preserves k =
      Preserves-trans
        (core-Preserves c (record c { client_response_ok = true; client_selected_offer = k }) refl
          refl refl refl refl refl)
        (client_maybe_establish-Preserves i es
          (record c { client_response_ok = true; client_selected_offer = k }))

  selection_found-Preserves : (k : Option ℕ) → Preserves c (selection_found i es k c)
  unfolding selection_found
  selection_found-Preserves none = session_failed-Preserves no_protocol c early
  selection_found-Preserves (some k) = response_accepted-Preserves (some k)

  protocol_selected-Preserves : (p : Option (List ℕ)) → Preserves c (protocol_selected i es p c)
  unfolding protocol_selected
  protocol_selected-Preserves none =
      Preserves-if c.require_protocol c _ _ (λ b. session_failed-Preserves no_protocol c early)
        (λ b. response_accepted-Preserves none)
  protocol_selected-Preserves (some p) =
      Preserves-if (length c.offered == 0) c _ _ (λ b. session_failed-Preserves no_protocol c early)
        (λ b. selection_found-Preserves (find_offer 0 p c.offered))

  bad_response-Preserves :
      (code : ℕ) → Preserves c (conn_fatal code (session_failed bad_response c))
  bad_response-Preserves code =
      Preserves-trans (session_failed-Preserves bad_response c early)
        (conn_fatal-Preserves code (session_failed bad_response c))

  rejected-Preserves :
      (status : ℕ)
      → Preserves c
          (call (on_session_rejected status) (record c { sess_state = SessionState.rejected }))
  rejected-Preserves status =
      let live = early→live c.sess_state early in
      record {
        valid = λ v. record {
          sound = record {
            outcomes = ap suc (v.sound.outcomes ∙ ap bit live);
            drains = v.sound.drains;
            establishments = v.sound.establishments;
            active = refl;
            early = refl;
          };
          errors = v.errors;
          ended = ended_when_over c.is_closed SessionState.rejected refl;
        };
        stays_closed = and_not c.is_closed;
        latched = λ e h. h;
        stays_final = λ t. absurd (cc (t, live));
      }

  response_received-Preserves : (resp : Resp) → Preserves c (response_received i es resp c)
  unfolding response_received
  response_received-Preserves resp =
      Preserves-if (ltb resp.status 200) c _ _
        (λ b.
          Preserves-if (resp.status == 101) c _ _ (λ b. bad_response-Preserves h3_message_error)
            (λ b. update-Preserves i (λ e. record e { headers_done = false }) c))
        (λ b.
          Preserves-if (not (status_is_success resp.status)) c _ _
            (λ b. rejected-Preserves resp.status)
            (λ b.
              Preserves-if (marker_missing c resp) c _ _
                (λ b. session_failed-Preserves bad_response c early)
                (λ b. protocol_selected-Preserves resp.protocol)))

  response_decoded-Preserves : (o : Outcome Resp) → Preserves c (response_decoded i es o c)
  unfolding response_decoded
  response_decoded-Preserves (err s) = bad_response-Preserves (response_error s)
  response_decoded-Preserves (ok resp) = response_received-Preserves resp

  pub client_response_done-Preserves : Preserves c (client_response_done i es c)
  unfolding client_response_done
  client_response_done-Preserves =
      response_decoded-Preserves (decode_response es.set_buf strict_opts 512)

pub latch-Preserves : (e : TransportError) (c : Conn) → Preserves c (conn_latch_error e c)
unfolding conn_latch_error
latch-Preserves e c = record {
  valid = λ v. record {
    sound = record {
      outcomes = v.sound.outcomes;
      drains = v.sound.drains;
      establishments = v.sound.establishments;
      active = v.sound.active;
      early = v.sound.early;
    };
    errors = v.errors;
    ended = v.ended;
  };
  stays_closed = and_not c.is_closed;
  latched = λ t h. ap (set_error e) h;
  stays_final = λ h. refl;
}
