-- ===== src/Engine/Conn/Waits.antt =====
-- The streams of src/engine/conn.c that still read a response: how many there are, and what the
-- state of the session has to do with them.
use wtquic.Base.{
  ℕ, zero, suc, ◌≤◌, ◌≡◌, refl, ap, ◌∙◌, arith, Bool, true, false, not, ◌&&◌, ◌||◌, ◌⊎◌, inl, inr,
  List, [], ◌∷◌, some, get_elem?, if◌then◌else◌, Option-cases,
}
use wtquic.Engine.Conn.{
  Conn, Estream, call, is_connect, is_wt, set_at, update, estream_release, wt_done,
  wt_release_if_done, close_sides, shutdown_raw_with, shutdown_stream, DriverResult, accepted,
  already_closed, refused, unless_refused, close_stream, close_streams, conn_fatal,
  h3_internal_error, wt_session_gone,
}
use wtquic.Engine.Conn.Outcome.{bit, and_not}
use wtquic.Engine.Conn.Closed.{conn_fatal-closed}
use wtquic.Engine.Conn.Exchange.{is_sent}

-- A CONNECT stream that has not read its response.
abbrev pub awaits : Estream → Bool
awaits es = is_connect es.kind && not es.headers_done && not es.request_dead

abbrev pub waiting : List Estream → ℕ
waiting [] = 0
waiting (es ∷ peer) = let rest = waiting peer in if awaits es then suc rest else rest

abbrev pub connects : List Estream → ℕ
connects [] = 0
connects (es ∷ peer) = let rest = connects peer in if is_connect es.kind then suc rest else rest

-- The request is sent, and no successful response has come.
abbrev pub unanswered : Conn → Bool
unanswered c = is_sent c.sess_state && not c.client_response_ok

-- Of an open connection at most one stream is a CONNECT stream, and it waits for its response only
-- while the request is unanswered.
unfoldable pub Waits : Conn → Type 0
Waits c = (c.is_closed ≡ true) ⊎ ((connects c.peer ≤ 1) × (waiting c.peer ≤ bit (unanswered c)))

-- A change of a stream that makes it no CONNECT stream, and makes it not wait.
abbrev pub Mild : (Estream → Estream) → Type 0
Mild f =
    (es : Estream)
    → ((awaits (f es) && not (awaits es)) ≡ false)
      × ((is_connect (f es).kind && not (is_connect es.kind)) ≡ false)

pub set_at-Mild :
    (i : ℕ) (f : Estream → Estream) (peer : List Estream)
    → Mild f
    → (waiting (set_at i f peer) ≤ waiting peer) × (connects (set_at i f peer) ≤ connects peer)
set_at-Mild i f [] m = omega arith
set_at-Mild zero f (es ∷ peer) m = ground (arith, m es)
set_at-Mild (suc i) f (es ∷ peer) m = ground (arith, set_at-Mild i f peer m)

some_inj : {x y : Estream} → some x ≡ some y → x ≡ y
some_inj p = cc p

-- The stream that waited does not any more.
pub set_at-answered :
    (i : ℕ) (f : Estream → Estream) (peer : List Estream) (es : Estream)
    → get_elem? peer i ≡ some es
    → awaits es ≡ true
    → awaits (f es) ≡ false
    → suc (waiting (set_at i f peer)) ≡ waiting peer
set_at-answered i f [] es g h k = absurd (cc g)
set_at-answered zero f (x ∷ peer) es g h k =
    let p : x ≡ es = some_inj g in ground (arith, ap awaits p ∙ h, ap (λ e. awaits (f e)) p ∙ k)
set_at-answered (suc i) f (x ∷ peer) es g h k = ground (arith, set_at-answered i f peer es g h k)

pub waiting-le-connects : (peer : List Estream) → waiting peer ≤ connects peer
waiting-le-connects [] = omega arith
waiting-le-connects (es ∷ peer) = ground (arith, waiting-le-connects peer)

-- Where a CONNECT stream is made not to wait, the other CONNECT streams are all that may.
pub set_at-connect :
    (i : ℕ) (f : Estream → Estream) (peer : List Estream) (es : Estream)
    → get_elem? peer i ≡ some es
    → is_connect es.kind ≡ true
    → awaits (f es) ≡ false
    → suc (waiting (set_at i f peer)) ≤ connects peer
set_at-connect i f [] es g h k = absurd (cc g)
set_at-connect zero f (x ∷ peer) es g h k =
    let p : x ≡ es = some_inj g in
    ground (
      arith,
      ap (λ (e : Estream). is_connect e.kind) p ∙ h,
      ap (λ e. awaits (f e)) p ∙ k,
      waiting-le-connects peer,
    )
set_at-connect (suc i) f (x ∷ peer) es g h k = ground (arith, set_at-connect i f peer es g h k)

-- Any change makes one stream wait at most.
pub set_at-any :
    (i : ℕ) (f : Estream → Estream) (peer : List Estream)
    → ((es : Estream) → is_connect (f es).kind ≡ is_connect es.kind)
    → (waiting (set_at i f peer) ≤ suc (waiting peer))
      × (connects (set_at i f peer) ≤ connects peer)
set_at-any i f [] k = omega arith
set_at-any zero f (es ∷ peer) k = ground (arith, k es)
set_at-any (suc i) f (es ∷ peer) k = ground (arith, set_at-any i f peer k)

-- The parts of a step, which fade: a closed connection stays closed, and while it is open no more
-- streams wait and no more are CONNECT streams.
pub record Fades (c d : Conn) : Type 0 where
  pub stays : (c.is_closed && not d.is_closed) ≡ false
  pub fades :
      (d.is_closed ≡ true)
      ⊎ ((waiting d.peer ≤ waiting c.peer) × (connects d.peer ≤ connects c.peer))

pub Fades-same :
    (c d : Conn)
    → d.is_closed ≡ c.is_closed
    → (waiting d.peer ≤ waiting c.peer) × (connects d.peer ≤ connects c.peer)
    → Fades c d
Fades-same c d b p = record { stays = ground (arith, b); fades = inr p }

pub Fades-refl : (c : Conn) → Fades c c
Fades-refl c = Fades-same c c refl (omega arith)

pub Fades-trans : {c d e : Conn} → Fades c d → Fades d e → Fades c e
Fades-trans p q = record {
  stays = ground (arith, p.stays, q.stays);
  fades = elim (q.fades) [
    | inl h ↦ inl h
    | inr y ↦ elim (p.fades) [
      | inl h ↦ inl (ground (arith, h, q.stays))
      | inr x ↦ inr (omega (arith, x.0, y.0), omega (arith, x.1, y.1))
    ]
  ];
}

Fades-if : (b : Bool) (c x y : Conn) → Fades c x → Fades c y → Fades c (if b then x else y)
Fades-if true c x y h k = h
Fades-if false c x y h k = k

pub update-Fades : (i : ℕ) (f : Estream → Estream) (c : Conn) → Mild f → Fades c (update i f c)
update-Fades i f c m = Fades-same c (update i f c) refl (set_at-Mild i f c.peer m)

conn_fatal-Fades : (err : ℕ) (c : Conn) → Fades c (conn_fatal err c)
conn_fatal-Fades err c = record {
  stays = ground (arith, conn_fatal-closed err c);
  fades = inl (conn_fatal-closed err c);
}

pub estream_release-Fades : (i : ℕ) (c : Conn) → Fades c (estream_release i c)
unfolding estream_release
estream_release-Fades i c =
    Fades-same c (estream_release i c) refl (set_at-Mild i _ c.peer (λ es. (refl, refl)))

wt_release-Fades : (i : ℕ) (c : Conn) → Fades c (wt_release_if_done i c)
unfolding wt_release_if_done
wt_release-Fades i c = elim (Option-cases (get_elem? c.peer i)) [
  | inl e ↦ rw (wt_release_if_done, e) (Fades-refl c)
  | inr (es, e) ↦
      rw (wt_release_if_done, e)
        (Fades-if (wt_done es) c _ _ (estream_release-Fades i c) (Fades-refl c))
]

unless-Fades :
    (r : DriverResult) (c x y : Conn) → Fades c x → Fades c y → Fades c (unless_refused r x y)
unless-Fades accepted c x y h k = h
unless-Fades already_closed c x y h k = h
unless-Fades refused c x y h k = k

pub shutdown_raw-Fades :
    (i : ℕ) (s r : Bool) (code : ℕ) (c : Conn) → Fades c (shutdown_raw_with conn_fatal i s r code c)
unfolding shutdown_raw_with
shutdown_raw-Fades i s r code c =
    let d = call (shutdown_stream i s r code) c in
    let called = Fades-same c d refl (omega arith) in
    unless-Fades (c.ops.shutdown_result d.log) c _ _ called
      (Fades-trans called (conn_fatal-Fades h3_internal_error d))

close_stream-Fades : (i : ℕ) (c : Conn) → Fades c (close_stream conn_fatal i c)
unfolding close_stream
close_stream-Fades i c = elim (Option-cases (get_elem? c.peer i)) [
  | inl e ↦ rw (close_stream, e) (Fades-refl c)
  | inr (es, e) ↦
      let d =
        if not c.is_closed && (es.wt_send_open || es.wt_fin_pending || es.wt_recv_open)
        then shutdown_raw_with conn_fatal i (es.wt_send_open || es.wt_fin_pending) es.wt_recv_open
            wt_session_gone c
        else c in
      let shut : Fades c d =
        Fades-if _ c _ _ (shutdown_raw-Fades i _ _ wt_session_gone c) (Fades-refl c) in
      rw (close_stream, e)
        (Fades-if (not (is_wt es.kind)) c _ _ (Fades-refl c) (
          Fades-trans shut (
            Fades-trans (update-Fades i close_sides d (λ es. (and_not _, and_not _)))
              (wt_release-Fades i (update i close_sides d)))))
]

pub close_streams-Fades : (k i : ℕ) (c : Conn) → Fades c (close_streams conn_fatal k i c)
unfolding close_streams
close_streams-Fades zero i c = Fades-refl c
close_streams-Fades (suc k) i c =
    Fades-trans (close_stream-Fades i c)
      (close_streams-Fades k (suc i) (close_stream conn_fatal i c))

-- A part of a step that leaves the answer alone.
pub Fades-Waits : (c d : Conn) → Fades c d → unanswered d ≡ unanswered c → Waits c → Waits d
unfolding Waits
Fades-Waits c d f u (inl h) = inl (ground (arith, h, f.stays))
Fades-Waits c d f u (inr (k, w)) = elim (f.fades) [
  | inl h ↦ inl h
  | inr (x, y) ↦ inr (omega (arith, y, k), omega (arith, x, w, ap bit u))
]

-- When nothing waits, the session may take any state.
pub settled-Waits :
    (c d : Conn) → Fades c d → (unanswered c ≡ false) ⊎ (waiting c.peer ≡ 0) → Waits c → Waits d
unfolding Waits
settled-Waits c d f s (inl h) = inl (ground (arith, h, f.stays))
settled-Waits c d f (inl s) (inr (k, w)) = elim (f.fades) [
  | inl h ↦ inl h
  | inr (x, y) ↦ inr (omega (arith, y, k), omega (arith, x, w, ap bit s))
]
settled-Waits c d f (inr s) (inr (k, w)) = elim (f.fades) [
  | inl h ↦ inl h
  | inr (x, y) ↦ inr (omega (arith, y, k), omega (arith, x, w, s))
]
