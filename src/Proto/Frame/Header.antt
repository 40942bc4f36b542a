-- ===== src/Proto/Frame/Header.antt =====
-- The frame header in one buffer (src/proto/h3_frame.c): what the encoder writes, that the
-- decoder reads it back, and that the incremental decoder answers like the one-shot one.
use wtquic.Base.{
  ℕ, ◌+◌, ◌-◌, ◌≤◌, ◌<◌, ◌≡◌, refl, sym, ap, ◌∙◌, arith, List, [], ◌++◌, append_assoc, append-nil,
  length, length-append, drop-length, All, All-append, inl, inr, dec_le, ◌⊎◌,
}
use wtquic.Proto.Varint.{done, done-injective, fail, buffer, Status, Fed, varint_len, varint_max}
use wtquic.Proto.Varint.Encode
use wtquic.Proto.Varint.Push.{IsByte}
use wtquic.Proto.Varint.Encode.{
  encode_cases, Shape, Shape-length, Shape-IsByte, Shape-decode, varint_len_bounds,
  varint_len_out_of_range,
}
use wtquic.Proto.Frame.Stream.{
  frame-Outcome, feed_done-append, feed-decode_header, feed-init-header_len,
}
use wtquic.Proto.Frame.{init, feed, frame_header_len, encode_header, decode_header}

pub frame_header_len_in_range :
    (type len : ℕ)
    → type ≤ varint_max
    → len ≤ varint_max
    → frame_header_len type len ≡ varint_len type + varint_len len
unfolding frame_header_len
frame_header_len_in_range type len ht hl =
    ground (arith, varint_len_bounds type, varint_len_bounds len)

-- In range and capacity both varints are written whole.
pub encode_header_lem :
    (type len cap : ℕ)
    → type ≤ varint_max
    → len ≤ varint_max
    → frame_header_len type len ≤ cap
    → (ts : List ℕ) × (ls : List ℕ) × (encode_header type len cap ≡ done (ts ++ ls))
      × Shape type ts
      × Shape len ls
unfolding encode_header
encode_header_lem type len cap ht hl hc =
    let both = frame_header_len_in_range type len ht hl in
    let (ts, et, st) = Encode.encode-Shape type cap ht (omega (arith, both)) in
    let (ls, el, sl) =
      Encode.encode-Shape len (cap - length ts) hl (omega (arith, both, Shape-length st)) in
    (ts, ls, ground (arith, et, el, both, varint_len_bounds type), st, sl)

abbrev pub Written : ℕ → ℕ → ℕ → Type 0
Written type len cap =
    (ts : List ℕ) × (ls : List ℕ) × (encode_header type len cap ≡ done (ts ++ ls))
    × Shape type ts
    × Shape len ls

encode_header_range :
    (type len cap : ℕ)
    → (varint_max < type) ⊎ (varint_max < len)
    → encode_header type len cap ≡ fail Status.range
unfolding encode_header frame_header_len
encode_header_range type len cap h =
    ground (arith, varint_len_out_of_range type, varint_len_out_of_range len)

encode_header_buffer :
    (type len cap : ℕ)
    → type ≤ varint_max
    → len ≤ varint_max
    → cap < frame_header_len type len
    → encode_header type len cap ≡ fail buffer
unfolding encode_header
encode_header_buffer type len cap ht hl h =
    ground (arith, varint_len_bounds type, frame_header_len_in_range type len)

-- The encoder answers RANGE where the type or the length is above 62 bits and BUFFER where the
-- header exceeds the capacity; in any other case it writes the encodings of both, one behind the
-- other.
pub encode_header_cases :
    (type len cap : ℕ)
    → (((varint_max < type) ⊎ (varint_max < len))
        × (encode_header type len cap ≡ fail Status.range))
      ⊎ ((type ≤ varint_max)
          × (len ≤ varint_max)
          × (cap < frame_header_len type len)
          × (encode_header type len cap ≡ fail buffer))
      ⊎ ((type ≤ varint_max)
          × (len ≤ varint_max)
          × (frame_header_len type len ≤ cap)
          × Written type len cap)
encode_header_cases type len cap = elim (dec_le type varint_max) [
  | no ht ↦ inl (inl (omega arith), encode_header_range type len cap (inl (omega arith)))
  | yes ht ↦ elim (dec_le len varint_max) [
    | no hl ↦ inl (inr (omega arith), encode_header_range type len cap (inr (omega arith)))
    | yes hl ↦ elim (dec_le (frame_header_len type len) cap) [
      | no hc ↦
          inr (inl (ht, hl, omega arith, encode_header_buffer type len cap ht hl (omega arith)))
      | yes hc ↦ inr (inr (ht, hl, hc, encode_header_lem type len cap ht hl hc))
    ]
  ]
]

pub Shape-decode_header :
    {type len : ℕ} {ts ls : List ℕ} (rest : List ℕ)
    → type ≤ varint_max
    → len ≤ varint_max
    → Shape type ts
    → Shape len ls
    → decode_header ((ts ++ ls) ++ rest)
      ≡ done (record { type = type; length = len; header_len = length (ts ++ ls) })
unfolding decode_header
Shape-decode_header {type} {len} {ts} {ls} rest ht hl st sl =
    rw (append_assoc ts ls rest, Shape-decode (ls ++ rest) (omega arith) st, ← Shape-length st)
      (rw
        (
          drop-length ts (ls ++ rest),
          Shape-decode rest (omega arith) sl,
          ← Shape-length sl,
          length-append ts ls,
        )
        refl)

-- The header that the encoder writes decodes, with any bytes behind it, to the type, the length
-- and the number of bytes written.
pub decode_header-encode_header :
    (type len cap : ℕ) (bs rest : List ℕ)
    → encode_header type len cap ≡ done bs
    → (decode_header (bs ++ rest)
        ≡ done (record { type = type; length = len; header_len = length bs }))
      × (length bs ≡ frame_header_len type len)
      × (length bs ≤ cap)
      × All IsByte bs
decode_header-encode_header type len room bs rest e = elim (encode_header_cases type len room) [
  | inl (h, f) ↦ cc
  | inr (inl (ht, hl, hc, f)) ↦ cc
  | inr (inr (ht, hl, hc, (ts, ls, f, st, sl))) ↦
      let p : ts ++ ls ≡ bs = done-injective (sym f ∙ e) in
      let n : length bs ≡ frame_header_len type len = rw (← p) (
        omega (
          arith,
          length-append ts ls,
          Shape-length st,
          Shape-length sl,
          frame_header_len_in_range type len ht hl,
        )) in
      (
        rw (← p) (Shape-decode_header rest ht hl st sl),
        n,
        omega (arith, n),
        rw (← p) (All-append IsByte ts ls (Shape-IsByte st) (Shape-IsByte sl)),
      )
]

-- What the encoder wrote, with any bytes behind it, gives the header in one call.
pub Shape-feed_header :
    {type len : ℕ} {ts ls : List ℕ} (rest : List ℕ)
    → type ≤ varint_max
    → len ≤ varint_max
    → Shape type ts
    → Shape len ls
    → feed init ((ts ++ ls) ++ rest) ≡ record {
      dec = init;
      out = done (record { type = type; length = len; header_len = length (ts ++ ls) });
      consumed = length (ts ++ ls);
    }
Shape-feed_header {type} {len} {ts} {ls} rest ht hl st sl = elim (frame-Outcome init hs) [
  | inl (d, q) ↦ cc (ap Fed.out q, whole)
  | inr (f, c, q, l) ↦
      feed_done-append init init f c hs rest q
      ∙ q
      ∙ ground (arith, ap Fed.out q, whole, feed-init-header_len init f c hs q)
]
  where
    hs : List ℕ
    hs = ts ++ ls

    whole : (feed init hs).out ≡ done (record { type = type; length = len; header_len = length hs })
    whole =
        feed-decode_header hs (All-append IsByte ts ls (Shape-IsByte st) (Shape-IsByte sl))
        ∙ (rw append-nil at (Shape-decode_header [] ht hl st sl))
