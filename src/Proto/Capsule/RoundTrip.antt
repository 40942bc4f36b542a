-- ===== src/Proto/Capsule/RoundTrip.antt =====
-- The capsules that src/proto/capsule.c writes, read back by its incremental decoder, whole or in
-- pieces.
use wtquic.Base.{
  ℕ, ◌+◌, ◌-◌, ◌*◌, ◌/◌, ◌%◌, ◌^◌, ◌≤◌, ◌<◌, ◌≡◌, refl, sym, ap, ◌∙◌, arith, bit_or, List, [], ◌∷◌,
  ◌++◌, append-nil, append_assoc, length, length-append, take, take-length, drop, drop-length,
}
use wtquic.Base.Bits.{bit_or-byte}
use wtquic.Proto.Varint.{done, done-injective}
use wtquic.Proto.Varint.Encode.{Shape}
use wtquic.Proto.Frame
use wtquic.Proto.Frame.{Frame, frame_header_len, written}
use wtquic.Proto.Frame.Header.{encode_header_lem, Shape-feed_header, decode_header-encode_header}
use wtquic.Proto.Capsule.{
  close, drain, Decoder, DecState, Capsule, init, feed, feed_payload, header_read, emit, classify,
  with_header, encode_close, encode_drain, code_bytes, close_session, drain_session, max_reason,
}
use wtquic.Proto.Capsule.Payload.{absorb, absorb_all, absorb_all-append}
use wtquic.Proto.Capsule.Pieces.{feed_payload_full}
use wtquic.Proto.Capsule.Stream.{feed_at_header, header_read-classified, classified}

-- A decoder in a CLOSE payload.
abbrev in_close : Decoder → ℕ → ℕ → ℕ → List ℕ → Decoder
in_close dec have acc remaining reason = record dec {
  kind = close;
  code_have = have;
  code_acc = acc;
  remaining = remaining;
  reason = reason;
}

abbrev push32 : ℕ → ℕ → ℕ
push32 acc b = bit_or (acc * 256 % 2 ^ 32) b

push32_lem : (acc b : ℕ) → acc < 2 ^ 24 → b < 256 → push32 acc b ≡ acc * 256 + b
push32_lem acc b h k = ground (arith, bit_or-byte acc b k)

-- The four bytes of the code.
absorb_all-code_bytes :
    (dec : Decoder) (code m : ℕ)
    → code < 2 ^ 32
    → absorb_all (in_close dec 0 0 (4 + m) []) (code_bytes code) ≡ in_close dec 4 code m []
unfolding absorb_all absorb code_bytes
absorb_all-code_bytes dec code m h =
    ap (λ acc. in_close dec 4 acc (4 + m - 1 - 1 - 1 - 1) []) assembled
    ∙ ap (λ (n : ℕ). in_close dec 4 code n []) (omega arith)
  where
    b₁ : ℕ
    b₁ = code / 2 ^ 24 % 256

    b₂ : ℕ
    b₂ = code / 2 ^ 16 % 256

    b₃ : ℕ
    b₃ = code / 2 ^ 8 % 256

    assembled : push32 (push32 (push32 (push32 0 b₁) b₂) b₃) (code % 256) ≡ code
    assembled =
        rw
          (
            push32_lem 0 b₁ (omega arith) (omega arith),
            push32_lem (0 * 256 + b₁) b₂ (omega arith) (omega arith),
            push32_lem ((0 * 256 + b₁) * 256 + b₂) b₃ (omega arith) (omega arith),
            push32_lem (((0 * 256 + b₁) * 256 + b₂) * 256 + b₃) (code % 256) (omega arith)
                (omega arith),
          )
          (omega arith)

-- The bytes of the reason.
absorb_all-reason :
    (dec : Decoder) (code m : ℕ) (reason more : List ℕ)
    → absorb_all (in_close dec 4 code (length more + m) reason) more
      ≡ in_close dec 4 code m (reason ++ more)
unfolding absorb_all absorb
absorb_all-reason dec code m reason [] =
    rw append-nil (ap (λ (n : ℕ). in_close dec 4 code n reason) (omega arith))
absorb_all-reason dec code m reason (b ∷ more) =
    ap (λ (n : ℕ). absorb_all (in_close dec 4 code n (reason ++ (b ∷ []))) more) (omega arith)
    ∙ absorb_all-reason dec code m (reason ++ (b ∷ [])) more
    ∙ ap (in_close dec 4 code m) (append_assoc reason (b ∷ []) more)

encode_close_in_bounds :
    (code cap : ℕ) (reason bs : List ℕ)
    → encode_close code reason cap ≡ done bs
    → (length reason ≤ max_reason)
      × (frame_header_len close_session (4 + length reason) + (4 + length reason) ≤ cap)
unfolding encode_close
encode_close_in_bounds code room reason bs e = ground arith

encode_close_bytes :
    (code cap : ℕ) (reason hs : List ℕ)
    → length reason ≤ max_reason
    → frame_header_len close_session (4 + length reason) + (4 + length reason) ≤ cap
    → Frame.encode_header close_session (4 + length reason) cap ≡ done hs
    → encode_close code reason cap ≡ done (hs ++ (code_bytes code ++ reason))
unfolding encode_close
encode_close_bytes code room reason hs small fits w = ground (arith, w)

length-code_bytes : (code : ℕ) → length (code_bytes code) ≡ 4
unfolding code_bytes
length-code_bytes code = refl

-- The bytes of a CLOSE: the two varints of the header, the code and the reason.
encode_close_done :
    (code cap : ℕ) (reason bs : List ℕ)
    → encode_close code reason cap ≡ done bs
    → (length reason ≤ max_reason)
      × (length bs ≤ cap)
      × ((ts : List ℕ) × (ls : List ℕ) × Shape close_session ts
          × Shape (4 + length reason) ls
          × (bs ≡ (ts ++ ls) ++ (code_bytes code ++ reason)))
encode_close_done code room reason bs e =
    let n = 4 + length reason in
    let (small, fits) = encode_close_in_bounds code room reason bs e in
    let (ts, ls, w, st, sl) =
      encode_header_lem close_session n room (omega arith) (omega (arith, small))
        (omega (arith, fits)) in
    let written_len = (decode_header-encode_header close_session n room (ts ++ ls) [] w).1 in
    let b = done-injective (sym e ∙ encode_close_bytes code room reason (ts ++ ls) small fits w) in
    (
      small,
      rw b (
          omega (
            arith,
            fits,
            written_len,
            length-append (ts ++ ls) (code_bytes code ++ reason),
            length-append (code_bytes code) reason,
            length-code_bytes code,
          )),
      (ts, ls, st, sl, b),
    )

abbrev close_capsule : ℕ → ℕ → List ℕ → Capsule
close_capsule header_len code reason = record {
  kind = close;
  type = close_session;
  length = 4 + length reason;
  header_len = header_len;
  close_code = code;
  reason = reason;
}

abbrev close_frame : ℕ → List ℕ → Frame
close_frame header_len reason = record {
  type = close_session;
  length = 4 + length reason;
  header_len = header_len;
}

-- The decoder at the first byte of the payload.
abbrev close_start : ℕ → List ℕ → Decoder
close_start header_len reason = record {
  hdr = Frame.init;
  state = DecState.reading_payload;
  kind = close;
  code_have = 0;
  type = close_session;
  payload_len = 4 + length reason;
  remaining = 4 + length reason;
  header_len = header_len;
  code_acc = 0;
  reason = [];
}

close_classified :
    (n : ℕ) (reason src : List ℕ)
    → length reason ≤ max_reason
    → let new = with_header init Frame.init (close_frame n reason) in
      classified (classify new) new src n ≡ feed_payload (close_start n reason) n (drop n src)
unfolding classified classify with_header
close_classified n reason src h = ground arith

close_absorbed :
    (n code : ℕ) (reason : List ℕ)
    → code < 2 ^ 32
    → absorb_all (close_start n reason) (code_bytes code ++ reason)
      ≡ in_close (close_start n reason) 4 code 0 reason
close_absorbed n code reason h =
    let start = close_start n reason in
    absorb_all-append start (code_bytes code) reason
    ∙ ap (λ d. absorb_all d reason) (absorb_all-code_bytes start code (length reason) h)
    ∙ ap (λ (m : ℕ). absorb_all (in_close start 4 code m []) reason) (omega arith)
    ∙ absorb_all-reason start code 0 [] reason

-- A CLOSE in front of any bytes, met by a fresh decoder.
close_header_read :
    (n code : ℕ) (reason rest src : List ℕ)
    → code < 2 ^ 32
    → length reason ≤ max_reason
    → drop n src ≡ (code_bytes code ++ reason) ++ rest
    → header_read init src
        (record { dec = Frame.init; out = done (close_frame n reason); consumed = n })
      ≡ record {
        dec = init;
        out = done (close_capsule n code reason);
        consumed = n + (4 + length reason);
      }
unfolding emit
close_header_read n code reason rest src hc hr hd =
    let start = close_start n reason in
    let body = code_bytes code ++ reason in
    let size : length body ≡ 4 + length reason =
      omega (arith, length-append (code_bytes code) reason, length-code_bytes code) in
    header_read-classified init Frame.init (close_frame n reason) n src
    ∙ close_classified n reason src hr
    ∙ ap (feed_payload start n) hd
    ∙ feed_payload_full start n (body ++ rest) (omega (arith, size, length-append body rest))
    ∙ ap (λ (m : ℕ). emit (absorb_all start (take m (body ++ rest))) (n + (4 + length reason)))
        (sym size)
    ∙ ap (λ b. emit (absorb_all start b) (n + (4 + length reason))) (take-length body rest)
    ∙ ap (λ d. emit d (n + (4 + length reason))) (close_absorbed n code reason hc)

-- A CLOSE that the encoder wrote for a code of 32 bits, with any bytes behind it, gives in one call its code and
-- reason and takes exactly the bytes written, which fit the capacity.
pub feed-encode_close :
    (code cap : ℕ) (reason bs rest : List ℕ)
    → code < 2 ^ 32
    → encode_close code reason cap ≡ done bs
    → (length bs ≤ cap)
      × ((n : ℕ) × (length bs ≡ n + (4 + length reason))
          × (feed init (bs ++ rest) ≡ record {
            dec = init;
            out = done (record {
              kind = close;
              type = close_session;
              length = 4 + length reason;
              header_len = n;
              close_code = code;
              reason = reason;
            });
            consumed = length bs;
          }))
feed-encode_close code room reason bs rest hc e =
    let (small, fits, (ts, ls, st, sl, b)) = encode_close_done code room reason bs e in
    let hs = ts ++ ls in
    let body = code_bytes code ++ reason in
    let n = length hs in
    let size : length bs ≡ n + (4 + length reason) = rw b (
      omega (
        arith,
        length-append hs body,
        length-append (code_bytes code) reason,
        length-code_bytes code,
      )) in
    let joined : bs ++ rest ≡ hs ++ (body ++ rest) = rw b (append_assoc hs body rest) in
    let header = Shape-feed_header (body ++ rest) (omega arith) (omega (arith, small)) st sl in
    (
      fits,
      (
        n,
        size,
        ap (feed init) joined
            ∙ feed_at_header init (hs ++ (body ++ rest)) refl
            ∙ ap (header_read init (hs ++ (body ++ rest))) header
            ∙ close_header_read n code reason rest (hs ++ (body ++ rest)) hc small
                (drop-length hs (body ++ rest))
            ∙ ap
                (λ (m : ℕ). record {
                  dec = init;
                  out = done (close_capsule n code reason);
                  consumed = m;
                })
                (sym size),
      ),
    )

abbrev drain_frame : ℕ → Frame
drain_frame header_len = record { type = drain_session; length = 0; header_len = header_len }

drain_classified :
    (n : ℕ) (src : List ℕ)
    → let new = with_header init Frame.init (drain_frame n) in
      classified (classify new) new src n ≡ record {
        dec = init;
        out = done (record {
          kind = drain;
          type = drain_session;
          length = 0;
          header_len = n;
          close_code = 0;
          reason = [];
        });
        consumed = n;
      }
unfolding classified classify with_header emit
drain_classified n src = refl

-- A DRAIN that the encoder wrote, with any bytes behind it, gives in one call a DRAIN and takes
-- exactly the bytes written, which fit the capacity.
feed-encode_drain :
    (cap : ℕ) (bs rest : List ℕ)
    → encode_drain cap ≡ done bs
    → (length bs ≤ cap)
      × (feed init (bs ++ rest) ≡ record {
        dec = init;
        out = done (record {
          kind = drain;
          type = drain_session;
          length = 0;
          header_len = length bs;
          close_code = 0;
          reason = [];
        });
        consumed = length bs;
      })
unfolding encode_drain
feed-encode_drain room bs rest e =
    let (_, size, fits, _) = decode_header-encode_header drain_session 0 room bs [] e in
    let (ts, ls, w, st, sl) =
      encode_header_lem drain_session 0 room (omega arith) (omega arith) (omega (arith, size)) in
    let b : ts ++ ls ≡ bs = done-injective (sym w ∙ e) in
    (
      fits,
      rw (← b) (
          feed_at_header init ((ts ++ ls) ++ rest) refl
          ∙ ap (header_read init ((ts ++ ls) ++ rest))
              (Shape-feed_header rest (omega arith) (omega arith) st sl)
          ∙ header_read-classified init Frame.init (drain_frame (length (ts ++ ls)))
              (length (ts ++ ls)) ((ts ++ ls) ++ rest)
          ∙ drain_classified (length (ts ++ ls)) ((ts ++ ls) ++ rest)),
    )
