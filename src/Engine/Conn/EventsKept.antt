-- ===== src/Engine/Conn/EventsKept.antt =====
-- What src/engine/conn.c does with the events of the client's CONNECT stream preserves the agreement
-- of the log with the state, and the invariant of the waiting streams.
use wtquic.Base.{
  ℕ, suc, ◌+◌, ◌≡◌, refl, sym, ap, ◌∙◌, arith, Bool, true, false, not, ◌&&◌, ◌||◌, inl, inr, List,
  [], ◌∷◌, Option, some, none, get_elem?, if◌then◌else◌, ltb, Bool-cases,
}
use wtquic.Engine.Conn.{
  Conn, Estream, StreamKind, bad_response, connection, is_connect, is_request, update, set_at, same,
  session_failed, conn_fatal, estream_release, h3_internal_error, h3_frame_error,
  h3_request_incomplete,
}
use wtquic.Engine.Conn.Outcome.{bit}
use wtquic.Engine.Conn.Preserves.{
  Preserves, Preserves-refl, Preserves-trans, Preserves-if, conn_fatal-Preserves,
  session_failed-Preserves, session_closed-Preserves, session_draining-Preserves,
}
use wtquic.Engine.Conn.Steps.{
  core-Preserves, update-Preserves, estream_release-Preserves, sent→early,
  request_rejected-Preserves, client_maybe_establish-Preserves, client_response_done-Preserves,
}
use wtquic.Engine.Conn.Life.{forget-Preserves, cancel-Preserves, request_stream_fin-Preserves}
use wtquic.Engine.Conn.Exchange.{
  is_sent, dead, id_at_least, parked_request_cancel, forget_session_stream,
}
use wtquic.Engine.Conn.Capsules.{request_stream_fin, session_stream_fin}
use wtquic.Engine.Conn.Events.{
  h3_id_error, is_client, headers_on, response_headers, reported, connect_native_id,
  request_stream_closed, cancel_parked, request_stream_reset, beyond_limit, reject_at, goaway,
}
use wtquic.Engine.Conn.Waits.{
  awaits, waiting, connects, unanswered, Waits, set_at-Mild, set_at-answered, set_at-connect,
}
use wtquic.Engine.Conn.Answered.{
  Waits-if, core-Waits, conn_fatal-Waits, session_draining-Waits, session_closed-Waits,
  estream_release-Waits, update-Waits, request_rejected-Waits, client_maybe_establish-Waits,
  client_response_done-Waits,
}
use wtquic.Engine.Conn.AnsweredLife.{forget-Waits, cancel-Waits, session_stream_fin-Waits}

-- The stream that waited was the only one, and the request is unanswered.
alone :
    (i : ℕ) (c : Conn)
    → c.is_closed ≡ false
    → suc (waiting (set_at i headers_on c.peer)) ≡ waiting c.peer
    → Waits c
    → (unanswered c ≡ true) × (waiting (set_at i headers_on c.peer) ≡ 0)
unfolding Waits
alone i c o fewer (inl h) = absurd (cc (h, o))
alone i c o fewer (inr (k, x)) = elim (Bool-cases (unanswered c)) [
  | inl u ↦ (u, omega (arith, fewer, x, ap bit u))
  | inr u ↦ absurd (omega (arith, fewer, x, ap bit u))
]

-- The response that a stream waited for: the request is unanswered, and nothing waits any more.
pub response_headers-Waits :
    (i : ℕ) (es : Estream) (c : Conn)
    → get_elem? c.peer i ≡ some es
    → awaits es ≡ true
    → c.is_closed ≡ false
    → Waits c
    → Preserves c (response_headers i es c) × Waits (response_headers i es c)
unfolding response_headers
response_headers-Waits i es c g a o w =
    let d = update i headers_on c in
    let fewer = set_at-answered i headers_on c.peer es g a (ground arith) in
    let (u, z) = alone i c o fewer w in
    let v = update-Waits i headers_on c (λ e. ground arith) w in
    let sent : is_sent d.sess_state ≡ true = ground (arith, u) in
    (
      Preserves-trans (update-Preserves i headers_on c)
          (client_response_done-Preserves i (headers_on es) d sent),
      client_response_done-Waits i (headers_on es) d u z v,
    )

pub connect_native_id-Preserves :
    (i : ℕ) (es : Estream) (id : ℕ) (c : Conn) → Preserves c (connect_native_id i es id c)
unfolding connect_native_id
connect_native_id-Preserves i es id c =
    let d = update i (reported id) c in
    let p = update-Preserves i (reported id) c in
    Preserves-if c.is_closed c _ _ (λ b. Preserves-refl c)
      (λ b.
        Preserves-if _ c _ _ (λ b. conn_fatal-Preserves h3_internal_error c)
          (λ b.
            Preserves-if (is_client c.persp) c _ _
              (λ b. Preserves-trans p (client_maybe_establish-Preserves i (reported id es) d))
              (λ b. p)))

pub connect_native_id-Waits :
    (i : ℕ) (es : Estream) (id : ℕ) (c : Conn) → Waits c → Waits (connect_native_id i es id c)
unfolding connect_native_id
connect_native_id-Waits i es id c w =
    let d = update i (reported id) c in
    let v = update-Waits i (reported id) c (λ e. ground arith) w in
    Waits-if c.is_closed _ _ (λ b. w)
      (λ b.
        Waits-if _ _ _ (λ b. conn_fatal-Waits h3_internal_error c)
          (λ b.
            Waits-if (is_client c.persp) _ _
              (λ b. client_maybe_establish-Waits i (reported id es) d v) (λ b. v)))

pub request_stream_closed-Preserves :
    (i : ℕ) (es : Estream) (c : Conn) → Preserves c (request_stream_closed i es c)
unfolding request_stream_closed
request_stream_closed-Preserves i es c =
    let d = request_stream_fin i es c in
    Preserves-trans (request_stream_fin-Preserves i es c) (
      Preserves-trans (forget-Preserves i d)
        (estream_release-Preserves i (forget_session_stream i d)))

-- What a function makes of a branch.
under_if :
    (b : Bool) (g : Conn → Conn) (x y : Conn)
    → (b ≡ true → Waits (g x))
    → (b ≡ false → Waits (g y))
    → Waits (g (if b then x else y))
under_if true g x y h k = h refl
under_if false g x y h k = k refl

-- Where the CONNECT stream is gone, nothing waits, whatever the session is.
connect_gone :
    (i : ℕ) (es : Estream) (c d : Conn)
    → d.is_closed ≡ c.is_closed
    → d.peer ≡ c.peer
    → get_elem? c.peer i ≡ some es
    → is_connect es.kind ≡ true
    → Waits c
    → Waits (estream_release i d)
unfolding Waits estream_release
connect_gone i es c d b p g h (inl k) = inl (b ∙ k)
connect_gone i es c d b p g h (inr (k, x)) =
    let f : Estream → Estream =
      λ e. record e { kind = StreamKind.free; native_id_pending = false } in
    let fewer = set_at-connect i f c.peer es g h refl in
    let (m, n) = set_at-Mild i f c.peer (λ e. (refl, refl)) in
    let q = ap (set_at i f) p in
    inr (omega (arith, n, k, ap connects q), omega (arith, fewer, k, ap waiting q))

-- The stream is released, and the session's pointer to it with it.
let_go : ℕ → Conn → Conn
let_go i d = estream_release i (forget_session_stream i d)

let_go-Waits : (i : ℕ) (d : Conn) → Waits d → Waits (let_go i d)
unfolding let_go
let_go-Waits i d v = estream_release-Waits i (forget_session_stream i d) (forget-Waits i d v)

failed_gone :
    (i : ℕ) (es : Estream) (c : Conn)
    → get_elem? c.peer i ≡ some es
    → is_connect es.kind ≡ true
    → Waits c
    → Waits (let_go i (session_failed bad_response c))
unfolding session_failed let_go
failed_gone i es c g h w =
    connect_gone i es c (forget_session_stream i (session_failed bad_response c)) refl refl g h w

fin-Waits :
    (i : ℕ) (es : Estream) (c : Conn)
    → get_elem? c.peer i ≡ some es
    → Waits c
    → Waits (let_go i (request_stream_fin i es c))
unfolding request_stream_fin
fin-Waits i es c g w =
    let truncated = es.frame_active || ltb 0 es.frame_dec.hdr_bytes in
    let pending = is_connect es.kind && not c.session_established && is_sent c.sess_state in
    let failed = session_failed bad_response c in
    let told = if pending then failed else c in
    let forgotten = forget_session_stream i c in
    let over = session_stream_fin i truncated forgotten in
    let incomplete = is_request es.kind && not es.headers_done in
    let last = if incomplete then conn_fatal h3_request_incomplete c else told in
    let fatal = conn_fatal h3_frame_error told in
    let rest = if truncated then fatal else last in
    under_if es.request_dead (let_go i) c (if es.is_session_stream then over else rest)
      (λ b. let_go-Waits i c w)
      (λ b.
        under_if es.is_session_stream (let_go i) over rest
          (λ b.
            let_go-Waits i over
              (session_stream_fin-Waits i truncated forgotten (forget-Waits i c w)))
          (λ b.
            under_if truncated (let_go i) fatal last
              (λ b. let_go-Waits i fatal (conn_fatal-Waits h3_frame_error told))
              (λ b.
                under_if incomplete (let_go i) (conn_fatal h3_request_incomplete c) told
                  (λ b.
                    let_go-Waits i (conn_fatal h3_request_incomplete c)
                      (conn_fatal-Waits h3_request_incomplete c))
                  (λ b.
                    under_if pending (let_go i) failed c
                      (λ b. failed_gone i es c g (ground (arith, b)) w)
                      (λ b. let_go-Waits i c w)))))

pub request_stream_closed-Waits :
    (i : ℕ) (es : Estream) (c : Conn)
    → get_elem? c.peer i ≡ some es
    → Waits c
    → Waits (request_stream_closed i es c)
unfolding request_stream_closed let_go
request_stream_closed-Waits i es c g w = fin-Waits i es c g w

cancel_parked-Preserves : (i : ℕ) (c : Conn) → Preserves c (cancel_parked i c)
cancel_parked-Preserves i c =
    Preserves-if (same c.parked_es i) c _ _ (λ b. cancel-Preserves c) (λ b. Preserves-refl c)

pub request_stream_reset-Preserves :
    (i : ℕ) (es : Estream) (c : Conn) → Preserves c (request_stream_reset i es c)
unfolding request_stream_reset
request_stream_reset-Preserves i es c =
    let d =
      if is_connect es.kind && is_sent c.sess_state && not c.session_established
      then session_failed bad_response c
      else c in
    let p : Preserves c d =
      Preserves-if (is_connect es.kind && is_sent c.sess_state && not c.session_established) c _ _
        (λ b. session_failed-Preserves bad_response c (sent→early c.sess_state (ground (arith, b))))
        (λ b. Preserves-refl c) in
    Preserves-if c.is_closed c _ _ (λ b. Preserves-refl c)
      (λ b.
        Preserves-if es.is_session_stream c _ _
          (λ b. Preserves-trans (forget-Preserves i c) (
            Preserves-trans (estream_release-Preserves i (forget_session_stream i c)) (
              session_closed-Preserves 0 [] false (estream_release i (forget_session_stream i c)))))
          (λ b. Preserves-trans p (
            Preserves-trans (cancel_parked-Preserves i d)
              (estream_release-Preserves i (cancel_parked i d)))))

pub request_stream_reset-Waits :
    (i : ℕ) (es : Estream) (c : Conn)
    → get_elem? c.peer i ≡ some es
    → Waits c
    → Waits (request_stream_reset i es c)
unfolding request_stream_reset session_failed parked_request_cancel
request_stream_reset-Waits i es c g w =
    let failed = session_failed bad_response c in
    Waits-if c.is_closed _ _ (λ b. w)
      (λ b.
        Waits-if es.is_session_stream _ _
          (λ b.
            session_closed-Waits 0 [] false _
              (estream_release-Waits i (forget_session_stream i c) (forget-Waits i c w)))
          (λ b.
            under_if (is_connect es.kind && is_sent c.sess_state && not c.session_established)
              (λ d. estream_release i (cancel_parked i d)) failed c
              (λ b.
                let h : is_connect es.kind ≡ true = ground (arith, b) in
                under_if (same failed.parked_es i) (estream_release i)
                  (parked_request_cancel failed) failed
                  (λ t. connect_gone i es c (parked_request_cancel failed) refl refl g h w)
                  (λ t. connect_gone i es c failed refl refl g h w))
              (λ b.
                estream_release-Waits i (cancel_parked i c)
                  (Waits-if (same c.parked_es i) _ _ (λ t. cancel-Waits c w) (λ t. w)))))

-- The stream that the loop finds is a CONNECT stream.
beyond_limit_found :
    (v k : ℕ) (peer : List Estream) (i : ℕ)
    → beyond_limit v k peer ≡ some i
    → (j : ℕ) × (es : Estream) × (i ≡ k + j)
      × (get_elem? peer j ≡ some es)
      × (is_connect es.kind ≡ true)
unfolding beyond_limit
beyond_limit_found v k [] i h = absurd (cc h)
beyond_limit_found v k (es ∷ peer) i h =
    elim (Bool-cases (is_connect es.kind && not es.native_id_pending && id_at_least es.id v)) [
      | inl b ↦ let p : k ≡ i = cc (rw b at h) in (0, es, omega (arith, p), refl, ground (arith, b))
      | inr b ↦
          let (j, e, q, g, t) = beyond_limit_found v (suc k) peer i (rw b at h) in
          (suc j, e, omega (arith, q), g, t)
    ]

rejected_connect :
    (i : ℕ) (es : Estream) (c : Conn)
    → get_elem? c.peer i ≡ some es
    → is_connect es.kind ≡ true
    → Waits c
    → Waits (session_failed connection (update i dead c))
unfolding Waits session_failed
rejected_connect i es c g h (inl k) = inl k
rejected_connect i es c g h (inr (k, x)) =
    let fewer = set_at-connect i dead c.peer es g h (ground arith) in
    let (m, n) = set_at-Mild i dead c.peer (λ e. ground arith) in
    inr (omega (arith, n, k), omega (arith, fewer, k))

reject_at-Preserves :
    (o : Option ℕ) (c : Conn) → is_sent c.sess_state ≡ true → Preserves c (reject_at o c)
reject_at-Preserves none c h = Preserves-refl c
reject_at-Preserves (some i) c h = request_rejected-Preserves i c (sent→early c.sess_state h)

reject_at-Waits :
    (v : ℕ) (c : Conn) (o : Option ℕ)
    → beyond_limit v 0 c.peer ≡ o
    → Waits c
    → Waits (reject_at o c)
reject_at-Waits v c none h w = w
reject_at-Waits v c (some i) h w =
    let (j, es, q, g, t) = beyond_limit_found v 0 c.peer i h in
    let p : j ≡ i = omega (arith, q) in
    request_rejected-Waits i c
      (rejected_connect i es c (ap (λ n. get_elem? c.peer n) (sym p) ∙ g) t w)

pub goaway-Preserves : (v : ℕ) (c : Conn) → Preserves c (goaway v c)
unfolding goaway
goaway-Preserves v c =
    let d = record c { goaway_received = true; goaway_id = v } in
    let p = core-Preserves c d refl refl refl refl refl refl in
    let e =
      if is_client c.persp && is_sent c.sess_state
      then reject_at (beyond_limit v 0 c.peer) d
      else d in
    let q : Preserves c e =
      Preserves-if (is_client c.persp && is_sent c.sess_state) c _ _
        (λ b.
          Preserves-trans p (reject_at-Preserves (beyond_limit v 0 c.peer) d (ground (arith, b))))
        (λ b. p) in
    Preserves-if _ c _ _ (λ b. conn_fatal-Preserves h3_id_error c)
      (λ b. Preserves-trans q (session_draining-Preserves e))

pub goaway-Waits : (v : ℕ) (c : Conn) → Waits c → Waits (goaway v c)
unfolding goaway
goaway-Waits v c w =
    let d = record c { goaway_received = true; goaway_id = v } in
    let x = core-Waits c d refl refl refl w in
    Waits-if _ _ _ (λ b. conn_fatal-Waits h3_id_error c)
      (λ b. session_draining-Waits _ (
        Waits-if (is_client c.persp && is_sent c.sess_state) _ _
          (λ b. reject_at-Waits v d (beyond_limit v 0 c.peer) refl x) (λ b. x)))
