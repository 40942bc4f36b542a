-- ===== src/Proto/Frame/Stream.antt =====
-- `wtq_h3_frame_dec_feed` (src/proto/h3_frame.c): however the header is cut into pieces, the
-- incremental decoder answers as on the whole.
use wtquic.Base.{
  ℕ, ◌+◌, ◌≤◌, ◌≡◌, refl, sym, ap, ◌∙◌, arith, List, ◌++◌, length, length-drop, drop,
  drop-append_le, drop_beyond, All, All-drop, inl, inr, ◌⊎◌,
}
use wtquic.Proto.Varint
use wtquic.Proto.Varint.{Result, done, fail, need_more, Status, Fed}
use wtquic.Proto.Varint.Stream
use wtquic.Proto.Varint.Stream.{after, feed-Outcome}
use wtquic.Proto.Varint.Whole.{feed-decode}
use wtquic.Proto.Varint.Push.{IsByte}
use wtquic.Proto.Frame.{
  Frame, Decoder, DecState, init, feed, feed_length, length_read, type_read, decode_header,
}

feed_length-after :
    (dec : Decoder) (n e : ℕ) (ys : List ℕ)
    → feed_length dec (n + e) ys ≡ after n (feed_length dec e ys)
unfolding feed_length length_read
feed_length-after dec n e ys = ground arith

-- The length varint over two pieces.
feed_length-append :
    (dec d : Decoder) (e c : ℕ) (xs ys : List ℕ)
    → dec.state ≡ DecState.reading_length
    → feed_length dec e xs ≡ record { dec = d; out = fail need_more; consumed = c }
    → (c ≡ e + length xs) × (feed_length dec e (xs ++ ys) ≡ after c (feed d ys))
unfolding feed feed_length length_read
feed_length-append dec d e c xs ys s h = elim (feed-Outcome dec.vi xs) [
  | inl (v, q) ↦ ground (arith, Stream.feed-append dec.vi v (length xs) xs ys q)
  | inr (v, k, q, l) ↦ ground arith
]

-- The type varint read on, `n` bytes further, with `d` left by the first piece.
type_read-after :
    (dec d : Decoder) (vi : Varint.Decoder) (out : Result ℕ) (c : ℕ) (xs ys : List ℕ)
    → d.hdr_bytes ≡ dec.hdr_bytes + length xs
    → d.type ≡ dec.type
    → d.state ≡ dec.state
    → type_read dec (xs ++ ys) (after (length xs) (record { dec = vi; out = out; consumed = c }))
      ≡ after (length xs) (type_read d ys (record { dec = vi; out = out; consumed = c }))
unfolding type_read
type_read-after dec d vi (fail s) c xs ys h t e = ground arith
type_read-after dec d vi (done v) c xs ys h t e = ground (
  arith,
  drop_beyond c xs ys,
  feed_length-after
      (record { vi = vi; type = v; hdr_bytes = d.hdr_bytes + c; state = DecState.reading_length })
      (length xs) c (drop c ys),
)

feed_at_type :
    (dec : Decoder) (xs : List ℕ)
    → dec.state ≡ DecState.reading_type
    → feed dec xs ≡ type_read dec xs (Varint.feed dec.vi xs)
unfolding feed
feed_at_type dec xs s = ground arith

feed_at_length :
    (dec : Decoder) (xs : List ℕ)
    → dec.state ≡ DecState.reading_length
    → feed dec xs ≡ feed_length dec 0 xs
unfolding feed
feed_at_length dec xs s = ground arith

DecState-cases : (s : DecState) → (s ≡ DecState.reading_type) ⊎ (s ≡ DecState.reading_length)
DecState-cases DecState.reading_type = inl refl
DecState-cases DecState.reading_length = inr refl

type_read-append :
    (dec d : Decoder) (c : ℕ) (xs ys : List ℕ)
    → dec.state ≡ DecState.reading_type
    → type_read dec xs (Varint.feed dec.vi xs)
      ≡ record { dec = d; out = fail need_more; consumed = c }
    → (c ≡ length xs)
      × (type_read dec (xs ++ ys) (Varint.feed dec.vi (xs ++ ys)) ≡ after c (feed d ys))
type_read-append dec d c xs ys s h = elim (feed-Outcome dec.vi xs) [
  | inl (v, q) ↦
      let mid : Decoder = record dec { vi = v; hdr_bytes = dec.hdr_bytes + length xs } in
      let left : type_read dec xs (record { dec = v; out = fail need_more; consumed = length xs })
          ≡ record { dec = d; out = fail need_more; consumed = c } =
        rw q at h in
      let p : mid ≡ d = unfold type_read in ap Fed.dec left in
      let n : length xs ≡ c = unfold type_read in ap Fed.consumed left in
      let r = Varint.feed v ys in
      let a = (Stream.feed-append dec.vi v (length xs) xs ys q).1 in
      let t = type_read-after dec mid r.dec r.out r.consumed xs ys refl refl refl in
      (sym n, rw (a, ← n, ← p) (t ∙ ap (after (length xs)) (sym (feed_at_type mid ys s))))
  | inr (v, k, q, l) ↦
      let mid : Decoder = record {
        vi = Varint.init;
        type = v;
        hdr_bytes = dec.hdr_bytes + k;
        state = DecState.reading_length;
      } in
      let whole = Stream.feed_done-append dec.vi Varint.init v k xs ys q ∙ q in
      let cut = drop-append_le k xs ys l in
      let rest = feed_length-append mid d k c (drop k xs) ys refl (unfold type_read in rw q at h) in
      (omega (arith, rest.0, length-drop k xs), unfold type_read in rw (whole, cut) rest.1)
]

-- A call that asks for more took the whole piece, and a second piece fed to the decoder that it
-- leaves gives what both pieces give when fed joined, the bytes of the first counted in.
pub feed_header-append :
    (dec d : Decoder) (c : ℕ) (xs ys : List ℕ)
    → feed dec xs ≡ record { dec = d; out = fail need_more; consumed = c }
    → (c ≡ length xs) × (feed dec (xs ++ ys) ≡ after c (feed d ys))
feed_header-append dec d c xs ys h = elim (DecState-cases dec.state) [
  | inl s ↦
      let (l, a) = type_read-append dec d c xs ys s (sym (feed_at_type dec xs s) ∙ h) in
      (l, feed_at_type dec (xs ++ ys) s ∙ a)
  | inr s ↦
      let (l, a) = feed_length-append dec d 0 c xs ys s (sym (feed_at_length dec xs s) ∙ h) in
      (omega (arith, l), feed_at_length dec (xs ++ ys) s ∙ a)
]

-- A call asks for more after the whole piece, or ends a header inside it and starts afresh.
abbrev pub Outcome : List ℕ → Fed Decoder Frame → Type 0
Outcome xs r =
    ((d : Decoder) × (r ≡ record { dec = d; out = fail need_more; consumed = length xs }))
    ⊎ ((f : Frame) × (c : ℕ) × (r ≡ record { dec = init; out = done f; consumed = c })
        × (c ≤ length xs))

feed_length-Outcome :
    (dec : Decoder) (e : ℕ) (all xs : List ℕ)
    → length all ≡ e + length xs
    → Outcome all (feed_length dec e xs)
unfolding feed_length length_read
feed_length-Outcome dec e all xs h = elim (feed-Outcome dec.vi xs) [
  | inl (v, q) ↦
      rw (q, h) (inl (record dec { vi = v; hdr_bytes = dec.hdr_bytes + length xs }, refl))
  | inr (v, k, q, l) ↦
      let f : Frame = record { type = dec.type; length = v; header_len = dec.hdr_bytes + k } in
      rw q (inr (f, e + k, refl, omega arith))
]

pub frame-Outcome : (dec : Decoder) (xs : List ℕ) → Outcome xs (feed dec xs)
frame-Outcome dec xs = elim (DecState-cases dec.state) [
  | inl s ↦ rw (feed_at_type dec xs s) (elim (feed-Outcome dec.vi xs) [
    | inl (v, q) ↦ rw q (
        unfold type_read in
        inl (record dec { vi = v; hdr_bytes = dec.hdr_bytes + length xs }, refl))
    | inr (v, k, q, l) ↦
        let mid : Decoder = record {
          vi = Varint.init;
          type = v;
          hdr_bytes = dec.hdr_bytes + k;
          state = DecState.reading_length;
        } in
        rw q (
          unfold type_read in
          feed_length-Outcome mid k xs (drop k xs) (omega (arith, length-drop k xs)))
  ])
  | inr s ↦ rw (feed_at_length dec xs s) (feed_length-Outcome dec 0 xs xs (omega arith))
]

feed_length_done-append :
    (dec d : Decoder) (f : Frame) (e c : ℕ) (xs ys : List ℕ)
    → feed_length dec e xs ≡ record { dec = d; out = done f; consumed = c }
    → feed_length dec e (xs ++ ys) ≡ feed_length dec e xs
unfolding feed_length length_read
feed_length_done-append dec d f e c xs ys h = elim (feed-Outcome dec.vi xs) [
  | inl (v, q) ↦ cc (ap Fed.out (rw q at h))
  | inr (v, k, q, l) ↦ rw (Stream.feed_done-append dec.vi Varint.init v k xs ys q) refl
]

type_read-fail :
    (dec : Decoder) (v : Varint.Decoder) (xs : List ℕ)
    → (type_read dec xs (record { dec = v; out = fail need_more; consumed = length xs })).out
      ≡ fail need_more
unfolding type_read
type_read-fail dec v xs = refl

-- Bytes behind a header that is complete are not looked at.
pub feed_done-append :
    (dec d : Decoder) (f : Frame) (c : ℕ) (xs ys : List ℕ)
    → feed dec xs ≡ record { dec = d; out = done f; consumed = c }
    → feed dec (xs ++ ys) ≡ feed dec xs
feed_done-append dec d f c xs ys h = elim (DecState-cases dec.state) [
  | inl s ↦
      rw (feed_at_type dec xs s, feed_at_type dec (xs ++ ys) s)
        (elim (feed-Outcome dec.vi xs) [
          | inl (v, q) ↦ cc (
            type_read-fail dec v xs,
            ap Fed.out (sym (feed_at_type dec xs s) ∙ h),
            ap (λ (r : Fed Varint.Decoder ℕ). (type_read dec xs r).out) q,
          )
          | inr (v, k, q, l) ↦
              let mid : Decoder = record {
                vi = Varint.init;
                type = v;
                hdr_bytes = dec.hdr_bytes + k;
                state = DecState.reading_length;
              } in
              unfold type_read in
              rw
                (
                  Stream.feed_done-append dec.vi Varint.init v k xs ys q,
                  q,
                  drop-append_le k xs ys l,
                )
                (feed_length_done-append mid d f k c (drop k xs) ys
                  (rw (feed_at_type dec xs s, q) at h))
        ])
  | inr s ↦
      rw (feed_at_length dec xs s, feed_at_length dec (xs ++ ys) s)
        (feed_length_done-append dec d f 0 c xs ys (sym (feed_at_length dec xs s) ∙ h))
]

-- On one piece, each entry below 256, a fresh incremental decoder is the one-shot decoder.
pub feed-decode_header : (src : List ℕ) → All IsByte src → (feed init src).out ≡ decode_header src
unfolding decode_header feed type_read feed_length length_read
feed-decode_header src h = elim (feed-Outcome Varint.init src) [
  | inl (v, q) ↦ rw (← feed-decode src h, q) refl
  | inr (v, k, q, l) ↦
      rw (← feed-decode src h, q)
        (elim (feed-Outcome Varint.init (drop k src)) [
          | inl (w, r) ↦ rw (← feed-decode (drop k src) (All-drop IsByte k src h), r) refl
          | inr (w, j, r, m) ↦
              rw (← feed-decode (drop k src) (All-drop IsByte k src h), r) (ground arith)
        ])
]

-- A fresh decoder that ends a header took the bytes that it counts.
pub feed-init-header_len :
    (d : Decoder) (f : Frame) (c : ℕ) (xs : List ℕ)
    → feed init xs ≡ record { dec = d; out = done f; consumed = c }
    → c ≡ f.header_len
unfolding feed type_read feed_length length_read
feed-init-header_len d f c xs h = ground arith
