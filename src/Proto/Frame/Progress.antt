-- ===== src/Proto/Frame/Progress.antt =====
-- `wtq_h3_frame_dec_feed` (src/proto/h3_frame.c): the bytes that a call takes.
use wtquic.Base.{ℕ, ◌≤◌, arith, List, ◌∷◌}
use wtquic.Proto.Varint
use wtquic.Proto.Varint.{Fed, done, fail, Result}
use wtquic.Proto.Varint.Progress.{feed-init-grows}
use wtquic.Proto.Frame.{Decoder, init, feed, feed_length, length_read, type_read}

feed_length-grows : (dec : Decoder) (e : ℕ) (src : List ℕ) → e ≤ (feed_length dec e src).consumed
unfolding feed_length length_read
feed_length-grows dec e src = ground arith

type_read-grows :
    (dec : Decoder) (src : List ℕ) (d : Varint.Decoder) (c : ℕ) (out : Result ℕ)
    → c ≤ (type_read dec src (record { dec = d; out = out; consumed = c })).consumed
unfolding type_read
type_read-grows dec src d c (fail s) = omega arith
type_read-grows dec src d c (done v) = feed_length-grows _ c _

-- A fresh decoder takes a byte at least.
pub feed_header-init-grows : (b : ℕ) (src : List ℕ) → 1 ≤ (feed init (b ∷ src)).consumed
unfolding feed
feed_header-init-grows b src =
    let r = Varint.feed Varint.init (b ∷ src) in
    omega (arith, feed-init-grows b src, type_read-grows init (b ∷ src) r.dec r.consumed r.out)
