-- ===== src/Proto/Capsule/Progress.antt =====
-- `wtq_capsule_dec_feed` (src/proto/capsule.c): the bytes that a call takes, and what a capsule that
-- is complete leaves.
use wtquic.Base.{
  subst, Bool, true, false, ℕ, zero, suc, ◌+◌, ◌≤◌, ◌≡◌, refl, arith, ltb, ◌==◌, ◌&&◌,
  if◌then◌else◌, length, take, drop, List, ◌∷◌, Bool-cases, inl, inr, sym,
}
use wtquic.Proto.Varint.{Fed, done, fail, Result}
use wtquic.Proto.Frame
use wtquic.Proto.Frame.Progress.{feed_header-init-grows}
use wtquic.Proto.Capsule.{
  Capsule, Decoder, init, feed, feed_payload, payload_loop, payload_round, payload_end, emit,
  classify, with_header, header_read,
}
use wtquic.Proto.Capsule.Stream.{
  DecState-cases, feed_at_header, feed_at_payload, feed_at_poisoned, classified,
  header_read-classified,
}

payload_loop-grows :
    (fuel : ℕ) (dec : Decoder) (e : ℕ) (src : List ℕ) → e ≤ (payload_loop fuel dec e src).1
unfolding payload_loop
payload_loop-grows zero dec e src = omega arith
payload_loop-grows (suc fuel) dec e src =
    let n = if ltb dec.remaining (length src) then dec.remaining else length src in
    elim (Bool-cases (ltb 0 dec.remaining && ltb 0 (length src))) [
      | inl h ↦ rw h (
          omega
            (arith, payload_loop-grows fuel (payload_round dec (take n src)) (e + n) (drop n src)))
      | inr h ↦ rw h (omega arith)
    ]

payload_end-consumed : (p : Decoder × ℕ) → (payload_end p).consumed ≡ p.1
unfolding payload_end emit
payload_end-consumed (dec, e) = ground arith

feed_payload-grows : (dec : Decoder) (e : ℕ) (src : List ℕ) → e ≤ (feed_payload dec e src).consumed
unfolding feed_payload
feed_payload-grows dec e src =
    rw (payload_end-consumed (payload_loop (length src) dec e src))
      (payload_loop-grows (length src) dec e src)

-- A capsule that is complete leaves a fresh decoder.
unfoldable pub Afresh : Fed Decoder Capsule → Type 0
Afresh r = (cap : Capsule) → r.out ≡ done cap → r.dec ≡ init

payload_end-Afresh : (p : Decoder × ℕ) → Afresh (payload_end p)
unfolding payload_end emit Afresh
payload_end-Afresh (dec, e) cap h = ground (arith, h)

feed_payload-Afresh : (dec : Decoder) (e : ℕ) (src : List ℕ) → Afresh (feed_payload dec e src)
unfolding feed_payload
feed_payload-Afresh dec e src = payload_end-Afresh (payload_loop (length src) dec e src)

emit-Afresh : (dec : Decoder) (e : ℕ) → (e ≤ (emit dec e).consumed) × Afresh (emit dec e)
unfolding emit Afresh
emit-Afresh dec e = (omega arith, λ cap h. refl)

pair_if :
    (b : Bool) (e : ℕ) (x y : Fed Decoder Capsule)
    → (e ≤ x.consumed) × Afresh x
    → (e ≤ y.consumed) × Afresh y
    → (e ≤ (if b then x else y).consumed) × Afresh (if b then x else y)
pair_if true e x y h k = h
pair_if false e x y h k = k

classified-grows :
    (r : Result Decoder) (dec : Decoder) (src : List ℕ) (c : ℕ)
    → (c ≤ (classified r dec src c).consumed) × Afresh (classified r dec src c)
unfolding classified Afresh
classified-grows (fail s) dec src c = (omega arith, λ cap h. absurd cc)
classified-grows (done dec') dec src c =
    pair_if (dec'.remaining == 0) c (emit dec' c) _ (emit-Afresh dec' c)
      (feed_payload-grows _ c (drop c src), feed_payload-Afresh _ c (drop c src))

header_read-grows :
    (dec : Decoder) (src : List ℕ) (h : Frame.Decoder) (c : ℕ) (out : Result Frame.Frame)
    → let r = header_read dec src (record { dec = h; out = out; consumed = c }) in
      (c ≤ r.consumed) × Afresh r
unfolding header_read Afresh
header_read-grows dec src h c (fail s) = (omega arith, λ cap k. absurd cc)
header_read-grows dec src h c (done f) =
    subst (λ r. (c ≤ r.consumed) × Afresh r) (sym (header_read-classified dec h f c src))
      (classified-grows (classify (with_header dec h f)) (with_header dec h f) src c)

-- A fresh decoder takes a byte at least.
pub feed_capsule-init-grows : (b : ℕ) (src : List ℕ) → 1 ≤ (feed init (b ∷ src)).consumed
unfolding feed
feed_capsule-init-grows b src =
    let r = Frame.feed Frame.init (b ∷ src) in
    omega (
      arith,
      feed_header-init-grows b src,
      (header_read-grows init (b ∷ src) r.dec r.consumed r.out).0,
    )

pub feed_capsule-Afresh : (dec : Decoder) (src : List ℕ) → Afresh (feed dec src)
unfolding Afresh
feed_capsule-Afresh dec src = elim (DecState-cases dec.state) [
  | inl s ↦
      let r = Frame.feed dec.hdr src in
      subst Afresh (sym (feed_at_header dec src s))
        (header_read-grows dec src r.dec r.consumed r.out).1
  | inr (inl s) ↦ subst Afresh (sym (feed_at_payload dec src s)) (feed_payload-Afresh dec 0 src)
  | inr (inr s) ↦ subst Afresh (sym (feed_at_poisoned dec src s)) (λ cap h. absurd (cc h))
]
