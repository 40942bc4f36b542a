-- ===== src/Proto/Capsule/Bounds.antt =====
-- The reason array of `wtq_capsule_dec_t` is never written out of bounds (src/proto/capsule.c), and
-- a decoder that met a malformed capsule stays so.
use wtquic.Base.{
  ℕ, ◌+◌, ◌≤◌, ◌<◌, ◌≡◌, ◌≢◌, refl, sym, ap, ◌∙◌, arith, List, [], ◌∷◌, inl, inr, length,
  length-append, take, length-take, drop, dec_lt, Bool-cases, ◌==◌,
}
use wtquic.Proto.Varint.{Result, done, fail, need_more, Status, Fed}
use wtquic.Proto.Frame
use wtquic.Proto.Frame.{Frame}
use wtquic.Proto.Frame.Stream.{frame-Outcome}
use wtquic.Proto.Capsule.{
  Kind, close, unset, Decoder, DecState, Capsule, init, feed, feed_payload, header_read, emit,
  classify, with_header, max_reason,
}
use wtquic.Proto.Capsule.Payload.{absorb, absorb_all, absorb_all_kept}
use wtquic.Proto.Capsule.Pieces.{feed_payload_short, feed_payload_full, emit_out}
use wtquic.Proto.Capsule.Stream.{
  feed_at_header, feed_at_payload, feed_at_poisoned, DecState-cases, header_read-classified,
  header_read-fail, classified,
}

-- A reason is kept in a CLOSE alone, from its fifth payload byte on; with what remains of the
-- payload it fits the array.
pub record IsValid (dec : Decoder) : Type 0 where
  pub have_capped : dec.code_have ≤ 4
  pub reason_later : dec.code_have < 4 → length dec.reason ≡ 0
  pub reason_close : dec.kind ≢ close → length dec.reason ≡ 0
  pub fits : dec.kind ≡ close → length dec.reason + dec.remaining + dec.code_have ≤ 4 + max_reason
  pub between : dec.state ≡ DecState.reading_header → dec.kind ≡ unset

absorb-IsValid : (dec : Decoder) (b : ℕ) → 0 < dec.remaining → IsValid dec → IsValid (absorb dec b)
unfolding absorb
absorb-IsValid dec b r v = ground (arith, length-append dec.reason (b ∷ []))

absorb_all-IsValid :
    (dec : Decoder) (xs : List ℕ)
    → length xs ≤ dec.remaining
    → IsValid dec
    → IsValid (absorb_all dec xs)
unfolding absorb_all
absorb_all-IsValid dec [] l v = v
absorb_all-IsValid dec (b ∷ xs) l v =
    absorb_all-IsValid (absorb dec b) xs (omega (arith, absorb_all_kept dec (b ∷ [])))
      (absorb-IsValid dec b (omega arith) v)

Kind-discrete : Discrete Kind
Kind-discrete = hlevel

pub IsValid-reason : (dec : Decoder) → IsValid dec → length dec.reason ≤ max_reason
IsValid-reason dec v = elim (dec_lt dec.code_have 4) [
  | yes h ↦ omega (arith, v.reason_later h)
  | no h ↦ elim (Kind-discrete dec.kind close) [
    | yes k ↦ omega (arith, v.fits k)
    | no k ↦ omega (arith, v.reason_close k)
  ]
]

pub init-IsValid : IsValid init
init-IsValid = ground arith

-- What a call leaves and gives out.
abbrev pub FitsArray : Result Capsule → Type 0
FitsArray (done c) = length c.reason ≤ max_reason
FitsArray (fail s) = Unit

abbrev pub Safe : Fed Decoder Capsule → Type 0
Safe r = IsValid r.dec × FitsArray r.out

emit-Safe : (dec : Decoder) (e : ℕ) → IsValid dec → Safe (emit dec e)
unfolding emit
emit-Safe dec e v = (init-IsValid, IsValid-reason dec v)

payload-Safe : (dec : Decoder) (e : ℕ) (src : List ℕ) → IsValid dec → Safe (feed_payload dec e src)
payload-Safe dec e src v = elim (dec_lt (length src) dec.remaining) [
  | yes l ↦ rw (feed_payload_short dec e src l) (absorb_all-IsValid dec src (omega arith) v, tt)
  | no g ↦
      let used = take dec.remaining src in
      rw (feed_payload_full dec e src (omega arith)) (
        emit-Safe (absorb_all dec used) (e + dec.remaining)
          (absorb_all-IsValid dec used (omega (arith, length-take dec.remaining src)) v))
]

-- What `classify` accepts in a decoder whose header is just set.
classify-IsValid :
    (dec d : Decoder) (f : Frame)
    → classify (with_header dec Frame.init f) ≡ done d
    → IsValid (record d { state = DecState.reading_payload })
unfolding classify with_header
classify-IsValid dec d f h = ground arith

refused-IsValid :
    (dec : Decoder) (f : Frame)
    → dec.kind ≡ unset
    → IsValid (record (with_header dec Frame.init f) { state = DecState.poisoned })
unfolding with_header
refused-IsValid dec f k = ground arith

-- A header clears the reason; a CLOSE that is not refused has one that fits.
classified-Safe :
    (dec : Decoder) (f : Frame) (c : ℕ) (src : List ℕ)
    → dec.kind ≡ unset
    → let new = with_header dec Frame.init f in Safe (classified (classify new) new src c)
unfolding emit
classified-Safe dec f c src k = by_result (classify new) refl
  where
    new : Decoder
    new = with_header dec Frame.init f

    by_result : (r : Result Decoder) → classify new ≡ r → Safe (classified r new src c)
    by_result (fail s) e = unfold classified in (refused-IsValid dec f k, tt)
    by_result (done d) e =
        let v : IsValid (record d { state = DecState.reading_payload }) =
          classify-IsValid dec d f e in
        elim (Bool-cases (d.remaining == 0)) [
          | inl z ↦
              unfold classified in
              rw z (emit-Safe (record d { state = DecState.reading_payload }) c v)
          | inr z ↦
              unfold classified in
              rw z (payload-Safe (record d { state = DecState.reading_payload }) c (drop c src) v)
        ]

header_fail-Safe :
    (dec : Decoder) (h : Frame.Decoder) (c : ℕ) (src : List ℕ)
    → IsValid dec
    → dec.state ≡ DecState.reading_header
    → Safe (header_read dec src (record { dec = h; out = fail need_more; consumed = c }))
unfolding header_read
header_fail-Safe dec h c src v s = (ground arith, tt)

-- Every call, on any piece, keeps a decoder valid; its reason and any reason given out fit the
-- array of 1024 bytes.
pub feed-IsValid : (dec : Decoder) (src : List ℕ) → IsValid dec → Safe (feed dec src)
feed-IsValid dec src v = elim (DecState-cases dec.state) [
  | inl s ↦ rw (feed_at_header dec src s) (elim (frame-Outcome dec.hdr src) [
    | inl (h, q) ↦ rw q (header_fail-Safe dec h (length src) src v s)
    | inr (f, n, q, l) ↦
        rw (q, header_read-classified dec Frame.init f n src)
          (classified-Safe dec f n src (v.between s))
  ])
  | inr (inl s) ↦ rw (feed_at_payload dec src s) (payload-Safe dec 0 src v)
  | inr (inr s) ↦ rw (feed_at_poisoned dec src s) (v, tt)
]

payload-ne-invalid :
    (dec : Decoder) (e : ℕ) (src : List ℕ) → (feed_payload dec e src).out ≢ fail Status.invalid
payload-ne-invalid dec e src h = elim (dec_lt (length src) dec.remaining) [
  | yes l ↦ cc (h, ap Fed.out (feed_payload_short dec e src l))
  | no g ↦
      let d = absorb_all dec (take dec.remaining src) in
      cc (h, ap Fed.out (feed_payload_full dec e src (omega arith)), emit_out d (e + dec.remaining))
]

classified_invalid :
    (r : Result Decoder) (new : Decoder) (src : List ℕ) (c : ℕ)
    → (classified r new src c).out ≡ fail Status.invalid
    → (classified r new src c).dec.state ≡ DecState.poisoned
unfolding classified
classified_invalid (fail s) new src c h = refl
classified_invalid (done d) new src c h = elim (Bool-cases (d.remaining == 0)) [
  | inl z ↦ cc (emit_out d c)
  | inr z ↦ absurd (
      payload-ne-invalid (record d { state = DecState.reading_payload }) c (drop c src) (rw z at h))
]

invalid_state :
    (dec : Decoder) (xs : List ℕ)
    → (feed dec xs).out ≡ fail Status.invalid
    → (feed dec xs).dec.state ≡ DecState.poisoned
invalid_state dec xs h = elim (DecState-cases dec.state) [
  | inl s ↦
      let at = feed_at_header dec xs s in
      elim (frame-Outcome dec.hdr xs) [
        | inl (v, q) ↦
            cc (
              h,
              ap Fed.out (at ∙ ap (header_read dec xs) q ∙ header_read-fail dec v (length xs) xs),
            )
        | inr (f, n, q, l) ↦
            let new = with_header dec Frame.init f in
            let read =
              at ∙ ap (header_read dec xs) q ∙ header_read-classified dec Frame.init f n xs in
            ap (λ (r : Fed Decoder Capsule). r.dec.state) read
            ∙ classified_invalid (classify new) new xs n (sym (ap Fed.out read) ∙ h)
      ]
  | inr (inl s) ↦
      absurd (payload-ne-invalid dec 0 xs (sym (ap Fed.out (feed_at_payload dec xs s)) ∙ h))
  | inr (inr s) ↦ ap (λ (r : Fed Decoder Capsule). r.dec.state) (feed_at_poisoned dec xs s) ∙ s
]

-- A decoder that refused a capsule refuses all that follows, takes no byte of it and does not
-- change.
pub malformed_stays :
    (dec : Decoder) (xs ys : List ℕ)
    → (feed dec xs).out ≡ fail Status.invalid
    → feed (feed dec xs).dec ys
      ≡ record { dec = (feed dec xs).dec; out = fail Status.invalid; consumed = 0 }
malformed_stays dec xs ys h = feed_at_poisoned (feed dec xs).dec ys (invalid_state dec xs h)
