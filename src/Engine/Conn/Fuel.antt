-- ===== src/Engine/Conn/Fuel.antt =====
-- The nesting of `conn_fatal` in src/engine/conn.c.
use wtquic.Base.{
  ℕ, zero, suc, ◌≡◌, refl, sym, subst, ap, ◌∙◌, arith, Bool, true, false, not, ◌&&◌, ◌||◌, inl, inr,
  List, [], ◌∷◌, some, none, get_elem?, if◌then◌else◌, length, Option-cases,
}
use wtquic.Engine.Conn.{
  Event, ErrorKind, conn_close, SessionState, call, is_active, on_session_closed, on_conn_error,
  Conn, Estream, is_wt, wt_done, update, close_sides, estream_release, wt_release_if_done,
  close_stream, close_streams, session_closed_with, session_active, lost_in, session_conn_lost_with,
  conn_latch_error, session_failed, conn_lost_with, conn_fatal_loop, conn_fatal, shutdown_raw_with,
  wt_session_gone,
}

closed_if :
    (b : Bool) (x y : Conn)
    → x.is_closed ≡ true
    → y.is_closed ≡ true
    → (if b then x else y).is_closed ≡ true
closed_if true x y h k = h
closed_if false x y h k = k

wt_release-closed :
    (i : ℕ) (c : Conn) → c.is_closed ≡ true → (wt_release_if_done i c).is_closed ≡ true
unfolding wt_release_if_done estream_release
wt_release-closed i c h = elim (Option-cases (get_elem? c.peer i)) [
  | inl e ↦ rw (wt_release_if_done, e) h
  | inr (es, e) ↦ rw (wt_release_if_done, e) (closed_if (wt_done es) (estream_release i c) c h h)
]

-- A round of the loop over the streams of a closed connection calls no driver.
closed_round : ℕ → Estream → Conn → Conn
closed_round i es c =
    if not (is_wt es.kind) then c else wt_release_if_done i (update i close_sides c)

close_stream-some :
    (f : ℕ → Conn → Conn) (i : ℕ) (c : Conn) (es : Estream)
    → c.is_closed ≡ true
    → get_elem? c.peer i ≡ some es
    → close_stream f i c ≡ closed_round i es c
unfolding close_stream closed_round
close_stream-some f i c es h e =
    let skip : (not c.is_closed && (es.wt_send_open || es.wt_fin_pending || es.wt_recv_open))
        ≡ false =
      ground (arith, h) in
    rw (close_stream, e)
      (subst
        (λ b.
          (if not (is_wt es.kind)
            then c
            else wt_release_if_done i (
                update i close_sides (
                  if b
                  then shutdown_raw_with f i (es.wt_send_open || es.wt_fin_pending) es.wt_recv_open
                      wt_session_gone c
                  else c)))
          ≡ (if not (is_wt es.kind) then c else wt_release_if_done i (update i close_sides c)))
        (sym skip) refl)

close_stream-none :
    (f : ℕ → Conn → Conn) (i : ℕ) (c : Conn) → get_elem? c.peer i ≡ none → close_stream f i c ≡ c
unfolding close_stream
close_stream-none f i c e = rw (close_stream, e) refl

closed_round-closed :
    (i : ℕ) (es : Estream) (c : Conn) → c.is_closed ≡ true → (closed_round i es c).is_closed ≡ true
unfolding closed_round
closed_round-closed i es c h =
    closed_if (not (is_wt es.kind)) c _ h (wt_release-closed i (update i close_sides c) h)

-- What is called on a failure does not matter for the streams of a closed connection.
module _ (f g : ℕ → Conn → Conn) where
  close_stream-closed :
      (i : ℕ) (c : Conn)
      → c.is_closed ≡ true
      → (close_stream f i c ≡ close_stream g i c) × ((close_stream g i c).is_closed ≡ true)
  close_stream-closed i c h = elim (Option-cases (get_elem? c.peer i)) [
    | inl e ↦ (
      close_stream-none f i c e ∙ sym (close_stream-none g i c e),
      ap Conn.is_closed (close_stream-none g i c e) ∙ h,
    )
    | inr (es, e) ↦ (
      close_stream-some f i c es h e ∙ sym (close_stream-some g i c es h e),
      ap Conn.is_closed (close_stream-some g i c es h e) ∙ closed_round-closed i es c h,
    )
  ]

  close_streams-closed :
      (k i : ℕ) (c : Conn) → c.is_closed ≡ true → close_streams f k i c ≡ close_streams g k i c
  unfolding close_streams
  close_streams-closed zero i c h = refl
  close_streams-closed (suc k) i c h =
      let s = close_stream-closed i c h in
      ap (close_streams f k (suc i)) s.0 ∙ close_streams-closed k (suc i) (close_stream g i c) s.1

  session_closed-closed :
      (code : ℕ) (reason : List ℕ) (clean : Bool) (c : Conn)
      → c.is_closed ≡ true
      → session_closed_with f code reason clean c ≡ session_closed_with g code reason clean c
  unfolding session_closed_with session_active
  session_closed-closed code reason clean c h =
      ap
        (λ d.
          if not (is_active c.sess_state) then c else call (on_session_closed code reason clean) d)
        (close_streams-closed (length c.peer) 0 (record c { sess_state = SessionState.closed }) h)

  lost_in-closed :
      (s : SessionState) (c : Conn) → c.is_closed ≡ true → lost_in f s c ≡ lost_in g s c
  unfolding lost_in
  lost_in-closed SessionState.established c h = session_closed-closed 0 [] false c h
  lost_in-closed SessionState.draining c h = session_closed-closed 0 [] false c h
  lost_in-closed SessionState.idle c h = refl
  lost_in-closed SessionState.pending c h = refl
  lost_in-closed SessionState.sent c h = refl
  lost_in-closed SessionState.closed c h = refl
  lost_in-closed SessionState.rejected c h = refl
  lost_in-closed SessionState.failed c h = refl

-- What the driver was asked to do, less `detach`, which only forgets a stream.
abbrev pub requests : List Event → List Event
requests [] = []
requests (Event.conn_close err ∷ log) = let rest = requests log in Event.conn_close err ∷ rest
requests (Event.shutdown_stream i s r code ∷ log) =
    let rest = requests log in Event.shutdown_stream i s r code ∷ rest
requests (Event.send i bs fin ∷ log) = let rest = requests log in Event.send i bs fin ∷ rest
requests (Event.detach i ∷ log) = requests log
requests (Event.on_session_failed r ∷ log) = requests log
requests (Event.on_session_draining ∷ log) = requests log
requests (Event.on_session_established s p ∷ log) = requests log
requests (Event.on_session_rejected s ∷ log) = requests log
requests (Event.on_session_closed code r clean ∷ log) = requests log
requests (Event.on_conn_error err ∷ log) = requests log

requests_if :
    (b : Bool) (x y : Conn) (log : List Event)
    → requests x.log ≡ log
    → requests y.log ≡ log
    → requests (if b then x else y).log ≡ log
requests_if true x y log h k = h
requests_if false x y log h k = k

wt_release-requests : (i : ℕ) (c : Conn) → requests (wt_release_if_done i c).log ≡ requests c.log
unfolding wt_release_if_done estream_release
wt_release-requests i c = elim (Option-cases (get_elem? c.peer i)) [
  | inl e ↦ rw (wt_release_if_done, e) refl
  | inr (es, e) ↦
      rw (wt_release_if_done, e)
        (requests_if (wt_done es) (estream_release i c) c (requests c.log) refl refl)
]

closed_round-requests :
    (i : ℕ) (es : Estream) (c : Conn) → requests (closed_round i es c).log ≡ requests c.log
unfolding closed_round
closed_round-requests i es c =
    requests_if (not (is_wt es.kind)) c _ (requests c.log) refl
      (wt_release-requests i (update i close_sides c))

-- Nothing is requested for the streams of a closed connection.
module _ (f : ℕ → Conn → Conn) where
  close_stream-requests :
      (i : ℕ) (c : Conn) → c.is_closed ≡ true → requests (close_stream f i c).log ≡ requests c.log
  close_stream-requests i c h = elim (Option-cases (get_elem? c.peer i)) [
    | inl e ↦ ap (λ (d : Conn). requests d.log) (close_stream-none f i c e)
    | inr (es, e) ↦
        ap (λ (d : Conn). requests d.log) (close_stream-some f i c es h e)
        ∙ closed_round-requests i es c
  ]

  close_streams-requests :
      (k i : ℕ) (c : Conn)
      → c.is_closed ≡ true
      → requests (close_streams f k i c).log ≡ requests c.log
  unfolding close_streams
  close_streams-requests zero i c h = refl
  close_streams-requests (suc k) i c h =
      close_streams-requests k (suc i) (close_stream f i c) (close_stream-closed f f i c h).1
      ∙ close_stream-requests i c h

  session_closed-requests :
      (c : Conn)
      → c.is_closed ≡ true
      → requests (session_closed_with f 0 [] false c).log ≡ requests c.log
  unfolding session_closed_with session_active
  session_closed-requests c h =
      requests_if (not (is_active c.sess_state)) c _ (requests c.log) refl
        (close_streams-requests (length c.peer) 0 (record c { sess_state = SessionState.closed }) h)

  lost_in-requests :
      (s : SessionState) (c : Conn)
      → c.is_closed ≡ true
      → requests (lost_in f s c).log ≡ requests c.log
  unfolding lost_in session_failed
  lost_in-requests SessionState.established c h = session_closed-requests c h
  lost_in-requests SessionState.draining c h = session_closed-requests c h
  lost_in-requests SessionState.idle c h = refl
  lost_in-requests SessionState.pending c h = refl
  lost_in-requests SessionState.sent c h = refl
  lost_in-requests SessionState.closed c h = refl
  lost_in-requests SessionState.rejected c h = refl
  lost_in-requests SessionState.failed c h = refl

-- What `conn_fatal` is where a failure of a stream inside it calls `fatal`.
abbrev pub fatal_by : (ℕ → Conn → Conn) → ℕ → Conn → Conn
fatal_by fatal err c =
    if c.is_closed then c else conn_lost_with fatal ErrorKind.quic_app err (conn_close err ∷ []) c

requests_of_if :
    (b : Bool) (c d : Conn) (log : List Event)
    → requests d.log ≡ log
    → requests (if b then c else d).log ≡ (if b then requests c.log else log)
requests_of_if true c d log h = refl
requests_of_if false c d log h = h

-- `conn_fatal` does not reach itself: whatever a failure of a stream inside it would call, and with
-- whatever fuel from one on, it is the same. All that it asks of the driver is to close the
-- connection, once, and nothing where the connection is closed already: it shuts no stream down and
-- sends nothing. (That a stream is detached is not counted.)
pub conn_fatal_loop-enough :
    (fuel err : ℕ) (c : Conn)
    → (conn_fatal_loop (suc fuel) err c ≡ conn_fatal err c)
      × ((fatal : ℕ → Conn → Conn) → fatal_by fatal err c ≡ conn_fatal err c)
      × (requests (conn_fatal err c).log
          ≡ (if c.is_closed then requests c.log else conn_close err ∷ requests c.log))
unfolding conn_fatal conn_fatal_loop conn_lost_with session_conn_lost_with conn_latch_error
conn_fatal_loop-enough fuel err c = (
  ap (λ d. if c.is_closed then c else call (on_conn_error err) d)
      (lost_in-closed (conn_fatal_loop fuel) (conn_fatal_loop 0) c.sess_state _ refl),
  λ fatal.
      ap (λ d. if c.is_closed then c else call (on_conn_error err) d)
        (lost_in-closed fatal (conn_fatal_loop 0) c.sess_state _ refl),
  requests_of_if c.is_closed c _ (conn_close err ∷ requests c.log)
      (lost_in-requests (conn_fatal_loop 0) c.sess_state _ refl),
)
