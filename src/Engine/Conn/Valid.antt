-- ===== src/Engine/Conn/Valid.antt =====
-- The ends of a session and of a connection in src/engine/conn.c keep the log in agreement with the
-- state.
use wtquic.Base.{
  ℕ, suc, ◌≡◌, refl, sym, subst, ap, ◌∙◌, arith, Bool, true, false, not, List, [], if◌then◌else◌,
  length,
}
use wtquic.Engine.Conn.{
  SessionState, FailReason, connection, on_session_closed, Conn, call, is_active, session_failed,
  session_active, close_streams, session_closed_with, lost_in,
}
use wtquic.Engine.Conn.Outcome.{
  is_terminal, is_early, bit, IsSound, Closes, Quiet, and_not, Closes-refl, Closes-trans,
  QuietAtEnd, close_streams-Quiet,
}

pub early→live : (s : SessionState) → is_early s ≡ true → is_terminal s ≡ false
early→live SessionState.idle h = refl
early→live SessionState.pending h = refl
early→live SessionState.sent h = refl
early→live SessionState.established h = absurd cc
early→live SessionState.draining h = absurd cc
early→live SessionState.closed h = absurd cc
early→live SessionState.rejected h = absurd cc
early→live SessionState.failed h = absurd cc

pub active→live : (s : SessionState) → is_active s ≡ true → is_terminal s ≡ false
active→live SessionState.established h = refl
active→live SessionState.draining h = refl
active→live SessionState.idle h = absurd cc
active→live SessionState.pending h = absurd cc
active→live SessionState.sent h = absurd cc
active→live SessionState.closed h = absurd cc
active→live SessionState.rejected h = absurd cc
active→live SessionState.failed h = absurd cc

-- What a step of the code may do: it keeps the log in agreement, and a terminal state for good.
pub record Keeps (c d : Conn) : Type 0 where
  pub sound : IsSound c → IsSound d
  pub closes : Closes c d
  pub final : is_terminal c.sess_state ≡ true → d.sess_state ≡ c.sess_state

pub Keeps-refl : (c : Conn) → Keeps c c
Keeps-refl c = record { sound = λ s. s; closes = Closes-refl c; final = λ h. refl }

pub Keeps-trans : {c d e : Conn} → Keeps c d → Keeps d e → Keeps c e
Keeps-trans p q = record {
  sound = λ s. q.sound (p.sound s);
  closes = Closes-trans p.closes q.closes;
  final = λ h. q.final (ap is_terminal (p.final h) ∙ h) ∙ p.final h;
}

pub Keeps-if :
    (b : Bool) (c x y : Conn)
    → (b ≡ true → Keeps c x)
    → (b ≡ false → Keeps c y)
    → Keeps c (if b then x else y)
Keeps-if true c x y h k = h refl
Keeps-if false c x y h k = k refl

pub quiet→Keeps : (c d : Conn) → Quiet c d → Keeps c d
quiet→Keeps c d q = record {
  sound = λ s. record {
    outcomes = q.outcomes ∙ s.outcomes ∙ ap (λ t. bit (is_terminal t)) (sym q.sess_state);
    drains = q.drains ∙ s.drains ∙ ap bit (sym q.drain_rx);
    establishments = q.establishments ∙ s.establishments ∙ ap bit (sym q.session_established);
    active = rw (q.sess_state, q.session_established) s.active;
    early = rw (q.sess_state, q.session_established, q.drain_rx) s.early;
  };
  closes = q.closes;
  final = λ h. q.sess_state;
}

pub session_failed-Keeps :
    (r : FailReason) (c : Conn) → is_early c.sess_state ≡ true → Keeps c (session_failed r c)
unfolding session_failed
session_failed-Keeps r c h = record {
  sound = λ s. record {
    outcomes = ap suc (s.outcomes ∙ ap bit (early→live c.sess_state h));
    drains = s.drains;
    establishments = s.establishments;
    active = refl;
    early = refl;
  };
  closes = record { errors = refl; stays = and_not c.is_closed; latched = λ e h. h };
  final = λ t. absurd (cc (t, early→live c.sess_state h));
}

-- A session that was active is over.
module _ (fatal : ℕ → Conn → Conn) (q : QuietAtEnd fatal) where
  pub session_closed-Keeps :
      (code : ℕ) (reason : List ℕ) (clean : Bool) (c : Conn)
      → Keeps c (session_closed_with fatal code reason clean c)
  unfolding session_closed_with session_active
  session_closed-Keeps code reason clean c =
      Keeps-if (not (is_active c.sess_state)) c c _ (λ b. Keeps-refl c)
        (λ b.
          let c' = record c { sess_state = SessionState.closed } in
          let d = close_streams fatal (length c.peer) 0 c' in
          let k = close_streams-Quiet fatal q (length c.peer) 0 c' refl in
          let live : is_terminal c.sess_state ≡ false =
            active→live c.sess_state (ground (arith, b)) in
          record {
            sound = λ s. record {
              outcomes =
                  ap suc (k.outcomes ∙ s.outcomes ∙ ap bit live)
                  ∙ ap (λ t. bit (is_terminal t)) (sym k.sess_state);
              drains = k.drains ∙ s.drains ∙ ap bit (sym k.drain_rx);
              establishments =
                  k.establishments ∙ s.establishments ∙ ap bit (sym k.session_established);
              active = rw k.sess_state refl;
              early = rw k.sess_state refl;
            };
            closes = record {
              errors = k.closes.errors;
              stays = k.closes.stays;
              latched = k.closes.latched;
            };
            final = λ t. absurd (cc (t, live));
          })

  pub session_closed-terminal :
      (code : ℕ) (reason : List ℕ) (clean : Bool) (c : Conn)
      → is_active c.sess_state ≡ true
      → is_terminal (session_closed_with fatal code reason clean c).sess_state ≡ true
  unfolding session_closed_with session_active
  session_closed-terminal code reason clean c h =
      let c' = record c { sess_state = SessionState.closed } in
      let k = close_streams-Quiet fatal q (length c.peer) 0 c' refl in
      subst
        (λ b.
          is_terminal
            (if not b
              then c
              else call (on_session_closed code reason clean)
                  (close_streams fatal (length c.peer) 0 c')).sess_state
          ≡ true)
        (sym h) (ap is_terminal k.sess_state)

  -- Whatever the state, the loss of the connection ends the session.
  pub lost_in-Keeps :
      (s : SessionState) (c : Conn)
      → c.sess_state ≡ s
      → Keeps c (lost_in fatal s c) × (is_terminal (lost_in fatal s c).sess_state ≡ true)
  unfolding lost_in session_failed
  lost_in-Keeps SessionState.idle c h = (session_failed-Keeps connection c (rw h refl), refl)
  lost_in-Keeps SessionState.pending c h = (session_failed-Keeps connection c (rw h refl), refl)
  lost_in-Keeps SessionState.sent c h = (session_failed-Keeps connection c (rw h refl), refl)
  lost_in-Keeps SessionState.established c h =
      (session_closed-Keeps 0 [] false c, session_closed-terminal 0 [] false c (rw h refl))
  lost_in-Keeps SessionState.draining c h =
      (session_closed-Keeps 0 [] false c, session_closed-terminal 0 [] false c (rw h refl))
  lost_in-Keeps SessionState.closed c h = (Keeps-refl c, rw h refl)
  lost_in-Keeps SessionState.rejected c h = (Keeps-refl c, rw h refl)
  lost_in-Keeps SessionState.failed c h = (Keeps-refl c, rw h refl)
