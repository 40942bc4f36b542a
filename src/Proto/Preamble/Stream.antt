-- ===== src/Proto/Preamble/Stream.antt =====
-- `wtq_preamble_dec_feed` (src/proto/preamble.c): however the preamble is cut into pieces, the
-- incremental decoder answers as on the whole, and a decoder that met another type stays so.
use wtquic.Base.{
  ℕ, ◌+◌, ◌≡◌, refl, sym, ap, ◌∙◌, arith, List, ◌++◌, length, length-drop, drop, drop-append_le,
  drop_beyond, inl, inr, ◌⊎◌,
}
use wtquic.Proto.Varint
use wtquic.Proto.Varint.{Result, done, fail, need_more, Status, Fed}
use wtquic.Proto.Varint.Stream
use wtquic.Proto.Varint.Stream.{after, feed-Outcome}
use wtquic.Proto.Preamble.{
  Kind, unexpected, Decoder, DecState, feed, feed_session, session_read, type_read,
}

feed_session-after :
    (dec : Decoder) (k : Kind) (n e : ℕ) (ys : List ℕ)
    → feed_session dec k (n + e) ys ≡ after n (feed_session dec k e ys)
unfolding feed_session session_read
feed_session-after dec k n e ys = ground arith

-- The session id over two pieces.
feed_session-append :
    (dec d : Decoder) (k : Kind) (e c : ℕ) (xs ys : List ℕ)
    → dec.state ≡ DecState.reading_session
    → feed_session dec k e xs ≡ record { dec = d; out = fail need_more; consumed = c }
    → (c ≡ e + length xs) × (feed_session dec k e (xs ++ ys) ≡ after c (feed d k ys))
unfolding feed feed_session session_read
feed_session-append dec d k e c xs ys s h = elim (feed-Outcome dec.vi xs) [
  | inl (v, q) ↦ ground (arith, Stream.feed-append dec.vi v (length xs) xs ys q)
  | inr (v, j, q, l) ↦ ground arith
]

-- The type varint read on, `length xs` bytes further, with `d` left by the first piece.
type_read-after :
    (dec d : Decoder) (k : Kind) (vi : Varint.Decoder) (out : Result ℕ) (c : ℕ) (xs ys : List ℕ)
    → d.hdr_bytes ≡ dec.hdr_bytes + length xs
    → d.wire_type ≡ dec.wire_type
    → d.state ≡ dec.state
    → type_read dec k (xs ++ ys) (after (length xs) (record { dec = vi; out = out; consumed = c }))
      ≡ after (length xs) (type_read d k ys (record { dec = vi; out = out; consumed = c }))
unfolding type_read
type_read-after dec d k vi (fail s) c xs ys h t e = ground arith
type_read-after dec d k vi (done v) c xs ys h t e = ground (
  arith,
  drop_beyond c xs ys,
  feed_session-after
      (record {
        vi = vi;
        state = DecState.reading_session;
        wire_type = v;
        hdr_bytes = d.hdr_bytes + c;
      })
      k (length xs) c (drop c ys),
)

pub feed_at_type :
    (dec : Decoder) (k : Kind) (xs : List ℕ)
    → dec.state ≡ DecState.reading_type
    → feed dec k xs ≡ type_read dec k xs (Varint.feed dec.vi xs)
unfolding feed
feed_at_type dec k xs s = ground arith

pub feed_at_session :
    (dec : Decoder) (k : Kind) (xs : List ℕ)
    → dec.state ≡ DecState.reading_session
    → feed dec k xs ≡ feed_session dec k 0 xs
unfolding feed
feed_at_session dec k xs s = ground arith

pub feed_at_poisoned :
    (dec : Decoder) (k : Kind) (xs : List ℕ)
    → dec.state ≡ DecState.poisoned
    → feed dec k xs ≡ record { dec = dec; out = done (unexpected dec.wire_type); consumed = 0 }
unfolding feed
feed_at_poisoned dec k xs s = ground arith

pub DecState-cases :
    (s : DecState)
    → (s ≡ DecState.reading_type) ⊎ (s ≡ DecState.reading_session) ⊎ (s ≡ DecState.poisoned)
DecState-cases DecState.reading_type = inl refl
DecState-cases DecState.reading_session = inr (inl refl)
DecState-cases DecState.poisoned = inr (inr refl)

abbrev at_session : Decoder → ℕ → ℕ → Decoder
at_session dec v c = record {
  vi = Varint.init;
  state = DecState.reading_session;
  wire_type = v;
  hdr_bytes = dec.hdr_bytes + c;
}

type_read-append :
    (dec d : Decoder) (k : Kind) (c : ℕ) (xs ys : List ℕ)
    → dec.state ≡ DecState.reading_type
    → type_read dec k xs (Varint.feed dec.vi xs)
      ≡ record { dec = d; out = fail need_more; consumed = c }
    → (c ≡ length xs)
      × (type_read dec k (xs ++ ys) (Varint.feed dec.vi (xs ++ ys)) ≡ after c (feed d k ys))
type_read-append dec d k c xs ys s h = elim (feed-Outcome dec.vi xs) [
  | inl (v, q) ↦
      let mid : Decoder = record dec { vi = v; hdr_bytes = dec.hdr_bytes + length xs } in
      let left : type_read dec k xs (record { dec = v; out = fail need_more; consumed = length xs })
          ≡ record { dec = d; out = fail need_more; consumed = c } =
        rw q at h in
      let p : mid ≡ d = unfold type_read in ap Fed.dec left in
      let n : length xs ≡ c = unfold type_read in ap Fed.consumed left in
      let r = Varint.feed v ys in
      let a = (Stream.feed-append dec.vi v (length xs) xs ys q).1 in
      let t = type_read-after dec mid k r.dec r.out r.consumed xs ys refl refl refl in
      (sym n, rw (a, ← n, ← p) (t ∙ ap (after (length xs)) (sym (feed_at_type mid k ys s))))
  | inr (v, j, q, l) ↦
      let whole = Stream.feed_done-append dec.vi Varint.init v j xs ys q ∙ q in
      let cut = drop-append_le j xs ys l in
      unfold type_read in
      rw (whole, cut)
        (ground (
          arith,
          rw q at h,
          feed_session-append (at_session dec v j) d k j c (drop j xs) ys refl,
          length-drop j xs,
        ))
]

-- A call that asks for more took the whole piece, and a second piece fed to the decoder that it
-- leaves gives what both pieces give when fed joined, the bytes of the first counted in.
pub feed_preamble-append :
    (dec d : Decoder) (k : Kind) (c : ℕ) (xs ys : List ℕ)
    → feed dec k xs ≡ record { dec = d; out = fail need_more; consumed = c }
    → (c ≡ length xs) × (feed dec k (xs ++ ys) ≡ after c (feed d k ys))
feed_preamble-append dec d k c xs ys h = elim (DecState-cases dec.state) [
  | inl s ↦
      let (l, a) = type_read-append dec d k c xs ys s (sym (feed_at_type dec k xs s) ∙ h) in
      (l, feed_at_type dec k (xs ++ ys) s ∙ a)
  | inr (inl s) ↦
      let (l, a) = feed_session-append dec d k 0 c xs ys s (sym (feed_at_session dec k xs s) ∙ h) in
      (omega (arith, l), feed_at_session dec k (xs ++ ys) s ∙ a)
  | inr (inr s) ↦ cc (ap Fed.out (sym (feed_at_poisoned dec k xs s) ∙ h))
]
