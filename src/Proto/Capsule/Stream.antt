-- ===== src/Proto/Capsule/Stream.antt =====
-- `wtq_capsule_dec_feed` (src/proto/capsule.c): however a capsule is cut into pieces, the
-- incremental decoder answers as on the whole.
use wtquic.Base.{
  ℕ, ◌+◌, ◌≤◌, ◌≡◌, ◌≢◌, refl, sym, ap, ◌∙◌, arith, Bool-cases, if◌then◌else◌, List, ◌++◌, ◌==◌,
  length, length-drop, drop, drop-append_le, drop_beyond, inl, inr, ◌⊎◌,
}
use wtquic.Proto.Varint.{Result, done, fail, need_more, Status, Fed}
use wtquic.Proto.Varint.Stream.{after}
use wtquic.Proto.Frame
use wtquic.Proto.Frame.{Frame}
use wtquic.Proto.Frame.Stream
use wtquic.Proto.Frame.Stream.{frame-Outcome}
use wtquic.Proto.Capsule.{
  Decoder, DecState, Capsule, feed, feed_payload, header_read, emit, classify, with_header,
}
use wtquic.Proto.Capsule.Pieces.{emit-after, emit_out, feed_payload-append, feed_payload-after}

-- What `header_read` does with a complete header, by the outcome of `classify`.
unfoldable pub classified : Result Decoder → Decoder → List ℕ → ℕ → Fed Decoder Capsule
classified (fail s) dec src c = record {
  dec = record dec { state = DecState.poisoned };
  out = fail s;
  consumed = c;
}
classified (done dec') dec src c =
    if dec'.remaining == 0
    then emit dec' c
    else feed_payload (record dec' { state = DecState.reading_payload }) c (drop c src)

pub header_read-classified :
    (dec : Decoder) (h : Frame.Decoder) (f : Frame) (c : ℕ) (src : List ℕ)
    → header_read dec src (record { dec = h; out = done f; consumed = c })
      ≡ classified (classify (with_header dec h f)) (with_header dec h f) src c
unfolding header_read classified
header_read-classified dec h f c src = ground arith

classified-after :
    (r : Result Decoder) (dec : Decoder) (xs ys : List ℕ) (c : ℕ)
    → classified r dec (xs ++ ys) (length xs + c) ≡ after (length xs) (classified r dec ys c)
unfolding classified
classified-after (fail s) dec xs ys c = refl
classified-after (done dec') dec xs ys c = ground (
  arith,
  emit-after dec' (length xs) c,
  drop_beyond c xs ys,
  feed_payload-after (record dec' { state = DecState.reading_payload }) (length xs) c (drop c ys),
)

classified-append :
    (r : Result Decoder) (dec d : Decoder) (xs ys : List ℕ) (k c : ℕ)
    → k ≤ length xs
    → classified r dec xs k ≡ record { dec = d; out = fail need_more; consumed = c }
    → (r ≢ fail need_more)
    → (c ≡ length xs)
      × (d.state ≡ DecState.reading_payload)
      × (classified r dec (xs ++ ys) k ≡ after c (feed_payload d 0 ys))
unfolding classified
classified-append (fail s) dec d xs ys k c l h n = ground arith
classified-append (done dec') dec d xs ys k c l h n = elim (Bool-cases (dec'.remaining == 0)) [
  | inl z ↦ cc (emit_out dec' k, ap Fed.out (rw z at h))
  | inr z ↦
      let start : Decoder = record dec' { state = DecState.reading_payload } in
      let (u, s, a) = feed_payload-append start d k c (drop k xs) ys (rw z at h) in
      (omega (arith, u, length-drop k xs), s, rw (z, drop-append_le k xs ys l) a)
]

classify-ne-need_more : (dec : Decoder) → classify dec ≢ fail need_more
unfolding classify
classify-ne-need_more dec h = ground arith

pub feed_at_header :
    (dec : Decoder) (src : List ℕ)
    → dec.state ≡ DecState.reading_header
    → feed dec src ≡ header_read dec src (Frame.feed dec.hdr src)
unfolding feed
feed_at_header dec src s = ground arith

pub feed_at_payload :
    (dec : Decoder) (src : List ℕ)
    → dec.state ≡ DecState.reading_payload
    → feed dec src ≡ feed_payload dec 0 src
unfolding feed
feed_at_payload dec src s = ground arith

pub feed_at_poisoned :
    (dec : Decoder) (src : List ℕ)
    → dec.state ≡ DecState.poisoned
    → feed dec src ≡ record { dec = dec; out = fail Status.invalid; consumed = 0 }
unfolding feed
feed_at_poisoned dec src s = ground arith

pub DecState-cases :
    (s : DecState)
    → (s ≡ DecState.reading_header) ⊎ (s ≡ DecState.reading_payload) ⊎ (s ≡ DecState.poisoned)
DecState-cases DecState.reading_header = inl refl
DecState-cases DecState.reading_payload = inr (inl refl)
DecState-cases DecState.poisoned = inr (inr refl)

with_header-hdr :
    (dec : Decoder) (v h : Frame.Decoder) (f : Frame)
    → with_header (record dec { hdr = v }) h f ≡ with_header dec h f
unfolding with_header
with_header-hdr dec v h f = refl

pub header_read-fail :
    (dec : Decoder) (h : Frame.Decoder) (c : ℕ) (src : List ℕ)
    → header_read dec src (record { dec = h; out = fail need_more; consumed = c })
      ≡ record { dec = record dec { hdr = h }; out = fail need_more; consumed = c }
unfolding header_read
header_read-fail dec h c src = refl

-- The header read on after the first piece, which left `v`.
header_read-after :
    (dec : Decoder) (v h : Frame.Decoder) (out : Result Frame) (c : ℕ) (xs ys : List ℕ)
    → header_read dec (xs ++ ys) (after (length xs) (record { dec = h; out = out; consumed = c }))
      ≡ after
          (length xs)
          (header_read (record dec { hdr = v }) ys (record { dec = h; out = out; consumed = c }))
header_read-after dec v h (fail s) c xs ys = unfold header_read in refl
header_read-after dec v h (done f) c xs ys =
    header_read-classified dec h f (length xs + c) (xs ++ ys)
    ∙ classified-after (classify (with_header dec h f)) (with_header dec h f) xs ys c
    ∙ ap (after (length xs)) (
        sym (
          header_read-classified (record dec { hdr = v }) h f c ys
          ∙ ap (λ n. classified (classify n) n ys c) (with_header-hdr dec v h f)))

header_read-append :
    (dec d : Decoder) (c : ℕ) (xs ys : List ℕ)
    → dec.state ≡ DecState.reading_header
    → header_read dec xs (Frame.feed dec.hdr xs)
      ≡ record { dec = d; out = fail need_more; consumed = c }
    → (c ≡ length xs)
      × (header_read dec (xs ++ ys) (Frame.feed dec.hdr (xs ++ ys)) ≡ after c (feed d ys))
header_read-append dec d c xs ys s h = elim (frame-Outcome dec.hdr xs) [
  | inl (v, q) ↦
      let left =
        sym (header_read-fail dec v (length xs) xs) ∙ sym (ap (header_read dec xs) q) ∙ h in
      let p : record dec { hdr = v } ≡ d = ap Fed.dec left in
      let n : length xs ≡ c = ap Fed.consumed left in
      let r = Frame.feed v ys in
      let a = (Stream.feed_header-append dec.hdr v (length xs) xs ys q).1 in
      let t = header_read-after dec v r.dec r.out r.consumed xs ys in
      (
        sym n,
        rw (a, ← n, ← p)
            (t ∙ ap (after (length xs)) (sym (feed_at_header (record dec { hdr = v }) ys s))),
      )
  | inr (f, k, q, l) ↦
      let new = with_header dec Frame.init f in
      let whole = Stream.feed_done-append dec.hdr Frame.init f k xs ys q ∙ q in
      let left =
        sym (header_read-classified dec Frame.init f k xs) ∙ sym (ap (header_read dec xs) q) ∙ h in
      let (u, e, a) =
        classified-append (classify new) new d xs ys k c l left (classify-ne-need_more new) in
      (
        u,
        ap (header_read dec (xs ++ ys)) whole
            ∙ header_read-classified dec Frame.init f k (xs ++ ys)
            ∙ a
            ∙ ap (after c) (sym (feed_at_payload d ys e)),
      )
]

-- A call that asks for more took the whole piece, and a second piece fed to the decoder that it
-- leaves gives what both pieces give when fed joined, the bytes of the first counted in.
pub feed_capsule-append :
    (dec d : Decoder) (c : ℕ) (xs ys : List ℕ)
    → feed dec xs ≡ record { dec = d; out = fail need_more; consumed = c }
    → (c ≡ length xs) × (feed dec (xs ++ ys) ≡ after c (feed d ys))
feed_capsule-append dec d c xs ys h = elim (DecState-cases dec.state) [
  | inl s ↦
      let (l, a) = header_read-append dec d c xs ys s (sym (feed_at_header dec xs s) ∙ h) in
      (l, feed_at_header dec (xs ++ ys) s ∙ a)
  | inr (inl s) ↦
      let (l, e, a) = feed_payload-append dec d 0 c xs ys (sym (feed_at_payload dec xs s) ∙ h) in
      (
        omega (arith, l),
        feed_at_payload dec (xs ++ ys) s ∙ a ∙ ap (after c) (sym (feed_at_payload d ys (e ∙ s))),
      )
  | inr (inr s) ↦ cc (ap Fed.out (sym (feed_at_poisoned dec xs s) ∙ h))
]
