-- ===== src/Proto/Varint/Whole.antt =====
-- `wtq_varint_dec_feed` on one piece (src/proto/varint.c): the incremental decoder is the one-shot
-- decoder, and reads what the encoder wrote.
use wtquic.Base.{
  ℕ, zero, suc, ◌+◌, ◌-◌, ◌%◌, ◌^◌, ◌≤◌, ◌<◌, ◌≡◌, refl, ap, arith, true, List, [], ◌∷◌, ◌++◌,
  append-nil, bit_and, length, All, ltb, if◌then◌else◌, inl, inr,
}
use wtquic.Proto.Varint.{
  Result, done, fail, need_more, varint_len, len_from_first, decode, decode_loop, Decoder, init,
  Fed, feed, feed_loop, feed_end, push,
}
use wtquic.Proto.Varint.Push.{IsByte}
use wtquic.Proto.Varint.Decode.{len_from_first_bounds}
use wtquic.Proto.Varint.Encode.{Shape, Shape-IsByte, Shape-decode}
use wtquic.Proto.Varint.Stream.{feed_loop_stopped, feed-Outcome, feed_done-append}

abbrev at_have : ℕ → ℕ → ℕ → Decoder
at_have acc need have = record { acc = acc; need = need; have = have }

-- With the missing `n` bytes at hand the loop ends where the loop of `decode` ends.
feed_loop-decode_loop :
    (n e acc need have : ℕ) (src : List ℕ)
    → have + n ≡ need
    → need < 256
    → n ≤ length src
    → feed_loop (at_have acc need have) e src ≡ (at_have (decode_loop n acc src) need need, e + n)
unfolding feed_loop decode_loop
feed_loop-decode_loop zero e acc need have src h k l =
    ground (arith, feed_loop_stopped (at_have acc need have) e src)
feed_loop-decode_loop (suc n) e acc need have [] h k l = absurd (omega arith)
feed_loop-decode_loop (suc n) e acc need have (b ∷ src) h k l =
    ground (arith, feed_loop-decode_loop n (e + 1) (push acc b) need ((have + 1) % 256) src)

feed_loop_short :
    (n e acc need have : ℕ) (src : List ℕ)
    → have + n ≡ need
    → need < 256
    → length src < n
    → let d = (feed_loop (at_have acc need have) e src).0 in ltb d.have d.need ≡ true
unfolding feed_loop
feed_loop_short zero e acc need have src h k l = absurd (omega arith)
feed_loop_short (suc n) e acc need have [] h k l = ground arith
feed_loop_short (suc n) e acc need have (b ∷ src) h k l =
    ground (arith, feed_loop_short n (e + 1) (push acc b) need ((have + 1) % 256) src)

-- The status, value and byte count of a call, without the decoder it leaves.
abbrev pub answer : Fed Decoder ℕ → Result (ℕ × ℕ)
answer r = elim r.out [ done v ↦ done (v, r.consumed) | fail s ↦ fail s ]

feed_end-decode :
    (need v : ℕ) (src : List ℕ)
    → 1 ≤ need
    → need < 256
    → answer (feed_end (feed_loop (at_have v need 1) 1 src)) ≡ (
        if ltb (suc (length src)) need
        then fail need_more
        else done (decode_loop (need - 1) v src, need))
unfolding feed_end
feed_end-decode need v src h k = ground (
  arith,
  feed_loop_short (need - 1) 1 v need 1 src,
  feed_loop-decode_loop (need - 1) 1 v need 1 src,
)

-- On one piece, each entry below 256, a fresh incremental decoder is the one-shot decoder.
pub feed-decode : (src : List ℕ) → All IsByte src → answer (feed init src) ≡ decode src
unfolding feed decode
feed-decode [] h = refl
feed-decode (b ∷ src) h =
    let (low, high, fits) = len_from_first_bounds b h.0 in
    rw small (feed_end-decode (len_from_first b) (bit_and b 0x3f) src low (omega arith))
  where
    small : len_from_first b % 256 ≡ len_from_first b
    small = omega (arith, len_from_first_bounds b h.0)

-- What the encoder wrote, with any bytes behind it, gives the value in one call.
pub Shape-feed :
    {v : ℕ} {bs : List ℕ} (rest : List ℕ)
    → v < 2 ^ 62
    → Shape v bs
    → feed init (bs ++ rest) ≡ record { dec = init; out = done v; consumed = varint_len v }
Shape-feed {v} {bs} rest h s = elim (feed-Outcome init bs) [
  | inl (d, q) ↦ cc (ap answer q, decoded, feed-decode bs (Shape-IsByte s))
  | inr (w, c, q, l) ↦ ground (
    arith,
    ap answer q,
    decoded,
    feed-decode bs (Shape-IsByte s),
    feed_done-append init init w c bs rest q,
  )
]
  where
    decoded : decode bs ≡ done (v, varint_len v)
    decoded = rw append-nil at (Shape-decode [] h s)
