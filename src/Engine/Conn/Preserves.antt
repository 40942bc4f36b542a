-- ===== src/Engine/Conn/Preserves.antt =====
-- The ends of a session and of a connection in src/engine/conn.c preserve the agreement of the log
-- with the state.
use wtquic.Base.{
  ℕ, suc, ◌≡◌, refl, sym, subst, ap, ◌∙◌, arith, Bool, true, false, not, ◌&&◌, ◌||◌, inl, inr, List,
  [], ◌∷◌, ◌++◌, some, if◌then◌else◌, length, Bool-cases,
}
use wtquic.Engine.Conn.{
  SessionState, Event, FailReason, on_session_closed, conn_close, ErrorKind, TransportError, Conn,
  set_error, call, is_active, session_failed, session_active, session_draining, close_streams,
  session_closed_with, lost_in, session_conn_lost_with, conn_latch_error, conn_lost_with, error_of,
  conn_fatal_loop, conn_fatal, session_closed, on_conn_closed,
}
use wtquic.Engine.Conn.Outcome.{
  is_terminal, is_early, is_outcome, is_error, is_drain, is_establishment, count, bit, IsValid,
  Quiet, and_not, QuietAtEnd, conn_fatal_loop-Quiet,
}
use wtquic.Engine.Conn.Valid.{
  Keeps, session_failed-Keeps, session_closed-Keeps, session_closed-terminal, lost_in-Keeps,
  active→live, quiet→Keeps,
}

-- A step of the code: what it preserves, and what stays.
pub record Preserves (c d : Conn) : Type 0 where
  pub valid : IsValid c → IsValid d
  pub stays_closed : (c.is_closed && not d.is_closed) ≡ false
  pub latched : (e : TransportError) → c.transport_error ≡ some e → d.transport_error ≡ some e
  pub stays_final : is_terminal c.sess_state ≡ true → d.sess_state ≡ c.sess_state

pub Preserves-refl : (c : Conn) → Preserves c c
Preserves-refl c = record {
  valid = λ v. v;
  stays_closed = and_not c.is_closed;
  latched = λ e h. h;
  stays_final = λ h. refl;
}

pub Preserves-trans : {c d e : Conn} → Preserves c d → Preserves d e → Preserves c e
Preserves-trans p q = record {
  valid = λ v. q.valid (p.valid v);
  stays_closed = ground (arith, p.stays_closed, q.stays_closed);
  latched = λ e h. q.latched e (p.latched e h);
  stays_final = λ h. q.stays_final (ap is_terminal (p.stays_final h) ∙ h) ∙ p.stays_final h;
}

pub Preserves-if :
    (b : Bool) (c x y : Conn)
    → (b ≡ true → Preserves c x)
    → (b ≡ false → Preserves c y)
    → Preserves c (if b then x else y)
Preserves-if true c x y h k = h refl
Preserves-if false c x y h k = k refl

pub keeps→Preserves :
    (c d : Conn)
    → Keeps c d
    → (IsValid c → (d.is_closed && not (is_terminal d.sess_state)) ≡ false)
    → Preserves c d
keeps→Preserves c d k e = record {
  valid = λ v. record {
    sound = k.sound v.sound;
    errors = omega (arith, k.closes.errors, v.errors);
    ended = e v;
  };
  stays_closed = k.closes.stays;
  latched = k.closes.latched;
  stays_final = k.final;
}

pub ended_when_over :
    (b : Bool) (s : SessionState) → is_terminal s ≡ true → (b && not (is_terminal s)) ≡ false
ended_when_over true s h = rw h refl
ended_when_over false s h = refl

-- The loss of a connection that was not closed.
module _ (fatal : ℕ → Conn → Conn) (q : QuietAtEnd fatal) where
  conn_lost-Preserves :
      (kind : ErrorKind) (err : ℕ) (calls : List Event) (c : Conn)
      → c.is_closed ≡ false
      → (count is_outcome (calls ++ c.log) ≡ count is_outcome c.log)
      → (count is_error (calls ++ c.log) ≡ count is_error c.log)
      → (count is_drain (calls ++ c.log) ≡ count is_drain c.log)
      → (count is_establishment (calls ++ c.log) ≡ count is_establishment c.log)
      → Preserves c (conn_lost_with fatal kind err calls c)
  unfolding conn_lost_with conn_latch_error session_conn_lost_with
  conn_lost-Preserves kind err calls c b o f d s =
      let m = record (conn_latch_error (error_of kind err) c) {
        is_closed = true;
        close_code = err;
        log = calls ++ c.log;
      } in
      let k = lost_in-Keeps fatal q c.sess_state m refl in
      let e = lost_in fatal c.sess_state m in
      let stays : e.is_closed ≡ true = ground (arith, k.0.closes.stays) in
      record {
        valid = λ v.
            let sound = k.0.sound (record {
              outcomes = o ∙ v.sound.outcomes;
              drains = d ∙ v.sound.drains;
              establishments = s ∙ v.sound.establishments;
              active = v.sound.active;
              early = v.sound.early;
            }) in
            record {
              sound = record {
                outcomes = sound.outcomes;
                drains = sound.drains;
                establishments = sound.establishments;
                active = sound.active;
                early = sound.early;
              };
              errors = omega (arith, k.0.closes.errors, ap bit stays, f, v.errors, ap bit b);
              ended = ended_when_over e.is_closed e.sess_state k.1;
            };
        stays_closed = rw b refl;
        latched = λ t l. k.0.closes.latched t (ap (set_error (error_of kind err)) l);
        stays_final = k.0.final;
      }

conn_fatal_loop-Preserves :
    (fuel err : ℕ) (c : Conn) → Preserves c (conn_fatal_loop (suc fuel) err c)
unfolding conn_fatal_loop
conn_fatal_loop-Preserves fuel err c =
    Preserves-if c.is_closed c c _ (λ b. Preserves-refl c)
      (λ b.
        conn_lost-Preserves (conn_fatal_loop fuel) (conn_fatal_loop-Quiet fuel) ErrorKind.quic_app
          err (conn_close err ∷ []) c b refl refl refl refl)

pub conn_fatal-Preserves : (err : ℕ) (c : Conn) → Preserves c (conn_fatal err c)
unfolding conn_fatal
conn_fatal-Preserves err c = conn_fatal_loop-Preserves 0 err c

pub conn_fatal-Quiet : QuietAtEnd conn_fatal
unfolding conn_fatal
conn_fatal-Quiet = conn_fatal_loop-Quiet 1

pub on_conn_closed-Preserves :
    (err : ℕ) (remote : Bool) (c : Conn) → Preserves c (on_conn_closed err remote c)
unfolding on_conn_closed
on_conn_closed-Preserves err remote c =
    Preserves-if c.is_closed c c _ (λ b. Preserves-refl c)
      (λ b.
        conn_lost-Preserves conn_fatal conn_fatal-Quiet
          (if remote then ErrorKind.quic_app else ErrorKind.local) err [] c b refl refl refl refl)

session_closed-inactive :
    (fatal : ℕ → Conn → Conn) (code : ℕ) (reason : List ℕ) (clean : Bool) (c : Conn)
    → is_active c.sess_state ≡ false
    → session_closed_with fatal code reason clean c ≡ c
unfolding session_closed_with session_active
session_closed-inactive fatal code reason clean c h =
    subst
      (λ b.
        (if not b
          then c
          else call (on_session_closed code reason clean) (
              close_streams fatal (length c.peer) 0
                (record c { sess_state = SessionState.closed })))
        ≡ c)
      (sym h) refl

pub session_closed-Preserves :
    (code : ℕ) (reason : List ℕ) (clean : Bool) (c : Conn)
    → Preserves c (session_closed code reason clean c)
unfolding session_closed
session_closed-Preserves code reason clean c =
    let k = session_closed-Keeps conn_fatal conn_fatal-Quiet code reason clean c in
    elim (Bool-cases (is_active c.sess_state)) [
      | inl h ↦ keeps→Preserves c _ k (λ v.
          ended_when_over _ _
            (session_closed-terminal conn_fatal conn_fatal-Quiet code reason clean c h))
      | inr h ↦
          subst (Preserves c) (sym (session_closed-inactive conn_fatal code reason clean c h))
            (Preserves-refl c)
    ]

pub session_failed-Preserves :
    (r : FailReason) (c : Conn) → is_early c.sess_state ≡ true → Preserves c (session_failed r c)
unfolding session_failed
session_failed-Preserves r c h =
    keeps→Preserves c (session_failed r c) (session_failed-Keeps r c h)
      (λ v. ended_when_over c.is_closed SessionState.failed refl)

pub session_draining-Preserves : (c : Conn) → Preserves c (session_draining c)
unfolding session_draining session_active
session_draining-Preserves c =
    Preserves-if (c.is_closed || c.drain_rx || not (is_active c.sess_state)) c c _
      (λ b. Preserves-refl c)
      (λ b.
        let live : is_active c.sess_state ≡ true = ground (arith, b) in
        let over = active→live c.sess_state live in
        let fresh : c.drain_rx ≡ false = ground (arith, b) in
        let open_ : c.is_closed ≡ false = ground (arith, b) in
        record {
          valid = λ v. record {
            sound = record {
              outcomes = v.sound.outcomes ∙ ap bit over;
              drains = ap suc (v.sound.drains ∙ ap bit fresh);
              establishments = v.sound.establishments;
              active =
                  established_when_active c.sess_state c.session_established live v.sound.active;
              early = refl;
            };
            errors = v.errors;
            ended = rw open_ refl;
          };
          stays_closed = and_not c.is_closed;
          latched = λ e h. h;
          stays_final = λ t. absurd (cc (t, over));
        })
  where
    established_when_active :
        (s : SessionState) (b : Bool)
        → is_active s ≡ true
        → (is_active s && not b) ≡ false
        → (true && not b) ≡ false
    established_when_active s b h e = ground (arith, h, e)

pub Quiet-Preserves : (c d : Conn) → Quiet c d → is_terminal c.sess_state ≡ true → Preserves c d
Quiet-Preserves c d q h =
    keeps→Preserves c d (quiet→Keeps c d q)
      (λ v. ended_when_over d.is_closed d.sess_state (ap is_terminal q.sess_state ∙ h))
