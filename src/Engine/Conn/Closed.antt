-- ===== src/Engine/Conn/Closed.antt =====
-- An error of the protocol closes the connection of src/engine/conn.c.
use wtquic.Base.{ℕ, ◌≡◌, refl, arith, Bool, true, false, List, [], ◌∷◌, ◌++◌, if◌then◌else◌}
use wtquic.Engine.Conn.{
  Conn, Event, ErrorKind, conn_close, conn_lost_with, conn_latch_error, session_conn_lost_with,
  error_of, conn_fatal, conn_fatal_loop,
}
use wtquic.Engine.Conn.Outcome.{QuietAtEnd, conn_fatal_loop-Quiet}
use wtquic.Engine.Conn.Valid.{lost_in-Keeps}

-- The loss of a connection closes it.
pub lost-closed :
    (fatal : ℕ → Conn → Conn) (q : QuietAtEnd fatal) (kind : ErrorKind) (err : ℕ)
    (calls : List Event) (c : Conn)
    → (conn_lost_with fatal kind err calls c).is_closed ≡ true
unfolding conn_lost_with conn_latch_error session_conn_lost_with
lost-closed fatal q kind err calls c =
    let m = record (conn_latch_error (error_of kind err) c) {
      is_closed = true;
      close_code = err;
      log = calls ++ c.log;
    } in
    let k = lost_in-Keeps fatal q c.sess_state m refl in ground (arith, k.0.closes.stays)

pub closed_if :
    (b : Bool) (x y : Conn)
    → (b ≡ true → x.is_closed ≡ true)
    → y.is_closed ≡ true
    → (if b then x else y).is_closed ≡ true
closed_if true x y h k = h refl
closed_if false x y h k = k

-- So does an error of the protocol.
pub conn_fatal-closed : (err : ℕ) (c : Conn) → (conn_fatal err c).is_closed ≡ true
unfolding conn_fatal conn_fatal_loop
conn_fatal-closed err c =
    closed_if c.is_closed c _ (λ b. b)
      (lost-closed (conn_fatal_loop 0) (conn_fatal_loop-Quiet 0) ErrorKind.quic_app err
        (conn_close err ∷ []) c)
