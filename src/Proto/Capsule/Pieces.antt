-- ===== src/Proto/Capsule/Pieces.antt =====
-- The payload part of `wtq_capsule_dec_feed` (src/proto/capsule.c) on one piece and on two.
use native.Mathlib.Nat.{add_assoc}
use wtquic.Base.{
  ℕ, ◌+◌, ◌-◌, ◌≤◌, ◌<◌, ◌≡◌, refl, sym, ap, ◌∙◌, arith, lt→ltb, le→ltb, List, ◌++◌, length,
  length-append, length-take, take, take-all, take_beyond, dec_lt,
}
use wtquic.Proto.Varint.{done, fail, need_more, Fed}
use wtquic.Proto.Varint.Stream.{after}
use wtquic.Proto.Capsule.{Decoder, feed_payload, payload_end, emit, emitted}
use wtquic.Proto.Capsule.Payload.{
  absorb_all, absorb_all-append, absorb_all_kept, payload_loop_lem, taken,
}

-- A piece shorter than what remains is absorbed whole.
pub feed_payload_short :
    (dec : Decoder) (e : ℕ) (src : List ℕ)
    → length src < dec.remaining
    → feed_payload dec e src
      ≡ record { dec = absorb_all dec src; out = fail need_more; consumed = e + length src }
unfolding feed_payload
feed_payload_short dec e src h =
    ap payload_end (payload_loop_lem dec e src)
    ∙ rw
        (
          le→ltb dec.remaining (length src) (omega arith),
          take-all (length src) src (omega arith),
          lt→ltb 0 (absorb_all dec src).remaining (omega (arith, absorb_all_kept dec src)),
        )
        refl

taken_full :
    (dec : Decoder) (src : List ℕ) → dec.remaining ≤ length src → taken dec src ≡ dec.remaining
taken_full dec src h = ground arith

-- Otherwise what remains is absorbed, and the capsule emitted.
pub feed_payload_full :
    (dec : Decoder) (e : ℕ) (src : List ℕ)
    → dec.remaining ≤ length src
    → feed_payload dec e src ≡ emit (absorb_all dec (take dec.remaining src)) (e + dec.remaining)
unfolding feed_payload
feed_payload_full dec e src h =
    ap payload_end (payload_loop_lem dec e src)
    ∙ ap (λ (n : ℕ). payload_end (absorb_all dec (take n src), e + n)) (taken_full dec src h)
    ∙ rw
        (le→ltb 0 (absorb_all dec (take dec.remaining src)).remaining (
          omega
            (arith, absorb_all_kept dec (take dec.remaining src), length-take dec.remaining src)))
        refl

pub emit_out : (dec : Decoder) (e : ℕ) → (emit dec e).out ≡ done (emitted dec)
unfolding emit
emit_out dec e = refl

pub emit-after : (dec : Decoder) (n e : ℕ) → emit dec (n + e) ≡ after n (emit dec e)
unfolding emit
emit-after dec n e = refl

-- The payload over two pieces.
pub feed_payload-append :
    (dec d : Decoder) (e c : ℕ) (xs ys : List ℕ)
    → feed_payload dec e xs ≡ record { dec = d; out = fail need_more; consumed = c }
    → (c ≡ e + length xs)
      × (d.state ≡ dec.state)
      × (feed_payload dec e (xs ++ ys) ≡ after c (feed_payload d 0 ys))
feed_payload-append dec d e c xs ys h = elim (dec_lt (length xs) dec.remaining) [
  | yes l ↦
      let q = sym (feed_payload_short dec e xs l) ∙ h in
      let p : absorb_all dec xs ≡ d = ap Fed.dec q in
      let n : e + length xs ≡ c = ap Fed.consumed q in
      (sym n, rw (← p) (absorb_all_kept dec xs).2, rw (← p, ← n) (joined l))
  | no g ↦ cc (
    emit_out (absorb_all dec (take dec.remaining xs)) (e + dec.remaining),
    ap Fed.out (sym (feed_payload_full dec e xs (omega arith)) ∙ h),
  )
]
  where
    joined :
        length xs < dec.remaining
        → feed_payload dec e (xs ++ ys)
          ≡ after (e + length xs) (feed_payload (absorb_all dec xs) 0 ys)
    joined l = elim (dec_lt (length (xs ++ ys)) dec.remaining) [
      | yes m ↦ ground (
        arith,
        feed_payload_short dec e (xs ++ ys) m,
        feed_payload_short (absorb_all dec xs) 0 ys,
        absorb_all-append dec xs ys,
        absorb_all_kept dec xs,
        length-append xs ys,
      )
      | no g ↦
          let r = (absorb_all dec xs).remaining in
          let t = dec.remaining - length xs in
          let same : r ≡ t = (absorb_all_kept dec xs).0 in
          let long : r ≤ length ys = omega (arith, same, length-append xs ys) in
          feed_payload_full dec e (xs ++ ys) (omega arith)
          ∙ ap (λ zs. emit (absorb_all dec zs) (e + dec.remaining))
              (take_beyond dec.remaining xs ys (omega arith))
          ∙ ap (λ z. emit z (e + dec.remaining)) (absorb_all-append dec xs (take t ys))
          ∙ ap (λ (n : ℕ). emit (absorb_all (absorb_all dec xs) (take t ys)) n)
              (omega (arith, same))
          ∙ emit-after (absorb_all (absorb_all dec xs) (take t ys)) (e + length xs) (0 + r)
          ∙ ap (after (e + length xs)) (
              ap (λ (n : ℕ). emit (absorb_all (absorb_all dec xs) (take n ys)) (0 + r)) (sym same)
              ∙ sym (feed_payload_full (absorb_all dec xs) 0 ys long))
    ]

payload_end-after :
    (dec : Decoder) (n e : ℕ) → payload_end (dec, n + e) ≡ after n (payload_end (dec, e))
unfolding payload_end emit
payload_end-after dec n e = ground arith

pub feed_payload-after :
    (dec : Decoder) (n e : ℕ) (ys : List ℕ)
    → feed_payload dec (n + e) ys ≡ after n (feed_payload dec e ys)
unfolding feed_payload
feed_payload-after dec n e ys =
    let t = absorb_all dec (take (taken dec ys) ys) in
    ap payload_end (payload_loop_lem dec (n + e) ys)
    ∙ ap (λ (m : ℕ). payload_end (t, m)) (add_assoc n e (taken dec ys))
    ∙ payload_end-after t n (e + taken dec ys)
    ∙ ap (λ p. after n (payload_end p)) (sym (payload_loop_lem dec e ys))
