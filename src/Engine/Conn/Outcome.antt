-- ===== src/Engine/Conn/Outcome.antt =====
-- What the ends of a session and of a connection in src/engine/conn.c leave in the log.
use wtquic.Base.{
  ℕ, zero, suc, ◌+◌, ◌≡◌, refl, ap, ◌∙◌, arith, Bool, true, false, not, ◌&&◌, ◌||◌, inl, inr, List,
  [], ◌∷◌, ◌++◌, some, get_elem?, if◌then◌else◌, Option-cases,
}
use wtquic.Engine.Conn.{
  SessionState, Event, on_session_failed, on_session_rejected, on_session_closed, on_conn_error,
  on_session_draining, on_session_established, shutdown_stream, DriverResult, accepted,
  already_closed, refused, Conn, Estream, call, is_active, is_wt, wt_done, update, close_sides,
  unless_refused, h3_internal_error, wt_session_gone, estream_release, wt_release_if_done,
  shutdown_raw_with, close_stream, close_streams, lost_in, session_conn_lost_with, conn_latch_error,
  conn_lost_with, conn_fatal_loop, conn_close, TransportError, set_error, error_of, ErrorKind,
}

abbrev pub is_terminal : SessionState → Bool
is_terminal SessionState.closed = true
is_terminal SessionState.rejected = true
is_terminal SessionState.failed = true
is_terminal _ = false

-- Not yet established.
abbrev pub is_early : SessionState → Bool
is_early SessionState.idle = true
is_early SessionState.pending = true
is_early SessionState.sent = true
is_early _ = false

abbrev pub is_outcome : Event → Bool
is_outcome (on_session_failed r) = true
is_outcome (on_session_rejected s) = true
is_outcome (on_session_closed n r b) = true
is_outcome _ = false

abbrev pub is_error : Event → Bool
is_error (on_conn_error e) = true
is_error _ = false

abbrev pub is_drain : Event → Bool
is_drain on_session_draining = true
is_drain _ = false

abbrev pub is_establishment : Event → Bool
is_establishment (on_session_established s p) = true
is_establishment _ = false

abbrev pub count : (Event → Bool) → List Event → ℕ
count p [] = 0
count p (e ∷ log) = let rest = count p log in if p e then suc rest else rest

abbrev pub bit : Bool → ℕ
bit b = if b then 1 else 0

-- The log agrees with the state of the session: one outcome when it is terminal and none before,
-- and one drain and one establishment when the flags say so.
pub record IsSound (c : Conn) : Type 0 where
  pub outcomes : count is_outcome c.log ≡ bit (is_terminal c.sess_state)
  pub drains : count is_drain c.log ≡ bit c.drain_rx
  pub establishments : count is_establishment c.log ≡ bit c.session_established
  pub active : (is_active c.sess_state && not c.session_established) ≡ false
  pub early : (is_early c.sess_state && (c.session_established || c.drain_rx)) ≡ false

-- And with the state of the connection: one error when it is closed, which ends the session too.
pub record IsValid (c : Conn) : Type 0 where
  pub sound : IsSound c
  pub errors : count is_error c.log ≡ bit c.is_closed
  pub ended : (c.is_closed && not (is_terminal c.sess_state)) ≡ false

-- A closed connection stays closed, it closes with one error, and the first cause stays.
pub record Closes (c d : Conn) : Type 0 where
  pub errors : count is_error d.log + bit c.is_closed ≡ count is_error c.log + bit d.is_closed
  pub stays : (c.is_closed && not d.is_closed) ≡ false
  pub latched : (e : TransportError) → c.transport_error ≡ some e → d.transport_error ≡ some e

pub and_not : (b : Bool) → (b && not b) ≡ false
and_not true = refl
and_not false = refl

pub Closes-refl : (c : Conn) → Closes c c
Closes-refl c = record { errors = refl; stays = and_not c.is_closed; latched = λ e h. h }

pub Closes-trans : {c d e : Conn} → Closes c d → Closes d e → Closes c e
Closes-trans p q = record {
  errors = omega (arith, p.errors, q.errors);
  stays = ground (arith, p.stays, q.stays);
  latched = λ e h. q.latched e (p.latched e h);
}

-- A part of the code that leaves the session alone: it may close the connection, with one error.
pub record Quiet (c d : Conn) : Type 0 where
  pub sess_state : d.sess_state ≡ c.sess_state
  pub drain_rx : d.drain_rx ≡ c.drain_rx
  pub session_established : d.session_established ≡ c.session_established
  pub outcomes : count is_outcome d.log ≡ count is_outcome c.log
  pub closes : Closes c d
  pub drains : count is_drain d.log ≡ count is_drain c.log
  pub establishments : count is_establishment d.log ≡ count is_establishment c.log

pub Quiet-refl : (c : Conn) → Quiet c c
Quiet-refl c = record {
  sess_state = refl;
  drain_rx = refl;
  session_established = refl;
  outcomes = refl;
  closes = Closes-refl c;
  drains = refl;
  establishments = refl;
}

pub Quiet-trans : {c d e : Conn} → Quiet c d → Quiet d e → Quiet c e
Quiet-trans p q = record {
  sess_state = q.sess_state ∙ p.sess_state;
  drain_rx = q.drain_rx ∙ p.drain_rx;
  session_established = q.session_established ∙ p.session_established;
  outcomes = q.outcomes ∙ p.outcomes;
  closes = Closes-trans p.closes q.closes;
  drains = q.drains ∙ p.drains;
  establishments = q.establishments ∙ p.establishments;
}

-- A function that is called when the session is over, and is quiet then.
abbrev pub QuietAtEnd : (ℕ → Conn → Conn) → Type 0
QuietAtEnd fatal = (err : ℕ) (c : Conn) → is_terminal c.sess_state ≡ true → Quiet c (fatal err c)

pub lost_in-terminal :
    (fatal : ℕ → Conn → Conn) (s : SessionState) (c : Conn)
    → is_terminal s ≡ true
    → lost_in fatal s c ≡ c
unfolding lost_in
lost_in-terminal fatal SessionState.closed c h = refl
lost_in-terminal fatal SessionState.rejected c h = refl
lost_in-terminal fatal SessionState.failed c h = refl
lost_in-terminal fatal SessionState.idle c h = absurd cc
lost_in-terminal fatal SessionState.pending c h = absurd cc
lost_in-terminal fatal SessionState.sent c h = absurd cc
lost_in-terminal fatal SessionState.established c h = absurd cc
lost_in-terminal fatal SessionState.draining c h = absurd cc

-- At the end of the session the loss of the connection is one error, and no outcome.
conn_lost-Quiet :
    (fatal : ℕ → Conn → Conn) (kind : ErrorKind) (err : ℕ) (calls : List Event) (c : Conn)
    → is_terminal c.sess_state ≡ true
    → c.is_closed ≡ false
    → (count is_outcome (calls ++ c.log) ≡ count is_outcome c.log)
    → (count is_error (calls ++ c.log) ≡ count is_error c.log)
    → (count is_drain (calls ++ c.log) ≡ count is_drain c.log)
    → (count is_establishment (calls ++ c.log) ≡ count is_establishment c.log)
    → Quiet c (conn_lost_with fatal kind err calls c)
unfolding conn_lost_with conn_latch_error session_conn_lost_with
conn_lost-Quiet fatal kind err calls c h b o e d s =
    rw (lost_in-terminal fatal c.sess_state _ h) (record {
      sess_state = refl;
      drain_rx = refl;
      session_established = refl;
      outcomes = o;
      closes = record {
        errors = omega (arith, e, ap bit b);
        stays = rw b refl;
        latched = λ t l. ap (set_error (error_of kind err)) l;
      };
      drains = d;
      establishments = s;
    })

pub Quiet-if :
    (b : Bool) (c x y : Conn)
    → (b ≡ true → Quiet c x)
    → (b ≡ false → Quiet c y)
    → Quiet c (if b then x else y)
Quiet-if true c x y h k = h refl
Quiet-if false c x y h k = k refl

pub Quiet-unless :
    (r : DriverResult) (c x y : Conn) → Quiet c x → Quiet c y → Quiet c (unless_refused r x y)
Quiet-unless accepted c x y h k = h
Quiet-unless already_closed c x y h k = h
Quiet-unless refused c x y h k = k

pub conn_fatal_loop-Quiet : (fuel : ℕ) → QuietAtEnd (conn_fatal_loop fuel)
unfolding conn_fatal_loop
conn_fatal_loop-Quiet zero err c h = Quiet-refl c
conn_fatal_loop-Quiet (suc fuel) err c h =
    Quiet-if c.is_closed c c _ (λ b. Quiet-refl c)
      (λ b.
        conn_lost-Quiet (conn_fatal_loop fuel) ErrorKind.quic_app err (conn_close err ∷ []) c h b
          refl refl refl refl)

pub Quiet-call :
    (e : Event) (c : Conn)
    → is_outcome e ≡ false
    → is_error e ≡ false
    → is_drain e ≡ false
    → is_establishment e ≡ false
    → Quiet c (call e c)
Quiet-call e c o f d s = record {
  sess_state = refl;
  drain_rx = refl;
  session_established = refl;
  outcomes = rw o refl;
  closes = record { errors = rw f refl; stays = and_not c.is_closed; latched = λ e h. h };
  drains = rw d refl;
  establishments = rw s refl;
}

pub Quiet-update : (i : ℕ) (f : Estream → Estream) (c : Conn) → Quiet c (update i f c)
Quiet-update i f c = record {
  sess_state = refl;
  drain_rx = refl;
  session_established = refl;
  outcomes = refl;
  closes = record { errors = refl; stays = and_not c.is_closed; latched = λ e h. h };
  drains = refl;
  establishments = refl;
}

pub estream_release-Quiet : (i : ℕ) (c : Conn) → Quiet c (estream_release i c)
unfolding estream_release
estream_release-Quiet i c = record {
  sess_state = refl;
  drain_rx = refl;
  session_established = refl;
  outcomes = refl;
  closes = record { errors = refl; stays = and_not c.is_closed; latched = λ e h. h };
  drains = refl;
  establishments = refl;
}

wt_release-Quiet : (i : ℕ) (c : Conn) → Quiet c (wt_release_if_done i c)
unfolding wt_release_if_done
wt_release-Quiet i c = elim (Option-cases (get_elem? c.peer i)) [
  | inl e ↦ rw (wt_release_if_done, e) (Quiet-refl c)
  | inr (es, e) ↦
      rw (wt_release_if_done, e)
        (Quiet-if (wt_done es) c _ c (λ b. estream_release-Quiet i c) (λ b. Quiet-refl c))
]

module _ (fatal : ℕ → Conn → Conn) (q : QuietAtEnd fatal) where
  pub shutdown_raw-Quiet :
      (i : ℕ) (s r : Bool) (code : ℕ) (c : Conn)
      → is_terminal c.sess_state ≡ true
      → Quiet c (shutdown_raw_with fatal i s r code c)
  unfolding shutdown_raw_with
  shutdown_raw-Quiet i s r code c h =
      let called = Quiet-call (shutdown_stream i s r code) c refl refl refl refl in
      Quiet-unless (c.ops.shutdown_result (shutdown_stream i s r code ∷ c.log)) c _ _ called
        (Quiet-trans called (q h3_internal_error (call (shutdown_stream i s r code) c) h))

  close_stream-Quiet :
      (i : ℕ) (c : Conn) → is_terminal c.sess_state ≡ true → Quiet c (close_stream fatal i c)
  unfolding close_stream
  close_stream-Quiet i c h = elim (Option-cases (get_elem? c.peer i)) [
    | inl e ↦ rw (close_stream, e) (Quiet-refl c)
    | inr (es, e) ↦
        rw (close_stream, e)
          (Quiet-if (not (is_wt es.kind)) c c _ (λ b. Quiet-refl c)
            (λ b.
              Quiet-trans
                (Quiet-if
                  (not c.is_closed && (es.wt_send_open || es.wt_fin_pending || es.wt_recv_open)) c _
                  c
                  (λ b.
                    shutdown_raw-Quiet i (es.wt_send_open || es.wt_fin_pending) es.wt_recv_open
                      wt_session_gone c h)
                  (λ b. Quiet-refl c))
                (Quiet-trans (Quiet-update i close_sides _) (wt_release-Quiet i _))))
  ]

  pub close_streams-Quiet :
      (k i : ℕ) (c : Conn) → is_terminal c.sess_state ≡ true → Quiet c (close_streams fatal k i c)
  unfolding close_streams
  close_streams-Quiet zero i c h = Quiet-refl c
  close_streams-Quiet (suc k) i c h =
      let head = close_stream-Quiet i c h in
      Quiet-trans head (
        close_streams-Quiet k (suc i) (close_stream fatal i c) (ap is_terminal head.sess_state ∙ h))
