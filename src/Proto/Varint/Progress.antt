-- ===== src/Proto/Varint/Progress.antt =====
-- `wtq_varint_dec_feed` (src/proto/varint.c): the bytes that a call takes.
use wtquic.Base.{ℕ, ◌+◌, ◌%◌, ◌≤◌, ◌≡◌, arith, ltb, List, [], ◌∷◌, Bool-cases, inl, inr}
use wtquic.Proto.Varint.{Decoder, init, feed, feed_loop, feed_end, feed_first, push}

feed_loop-grows : (dec : Decoder) (e : ℕ) (src : List ℕ) → e ≤ (feed_loop dec e src).1
unfolding feed_loop
feed_loop-grows dec e [] = omega arith
feed_loop-grows dec e (b ∷ src) = elim (Bool-cases (ltb dec.have dec.need)) [
  | inl h ↦ rw h (
      omega (
        arith,
        feed_loop-grows (record dec { acc = push dec.acc b; have = (dec.have + 1) % 256 }) (e + 1)
            src,
      ))
  | inr h ↦ rw h (omega arith)
]

feed_end-consumed : (p : Decoder × ℕ) → (feed_end p).consumed ≡ p.1
unfolding feed_end
feed_end-consumed (dec, e) = ground arith

-- A fresh decoder takes a byte at least.
pub feed-init-grows : (b : ℕ) (src : List ℕ) → 1 ≤ (feed init (b ∷ src)).consumed
unfolding feed feed_first
feed-init-grows b src = rw (feed_end-consumed (feed_loop _ 1 src)) (feed_loop-grows _ 1 src)
