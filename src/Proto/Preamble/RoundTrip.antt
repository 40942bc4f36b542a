-- ===== src/Proto/Preamble/RoundTrip.antt =====
-- `wtq_preamble_encode` against `wtq_preamble_decode` (src/proto/preamble.c), and the decoder that
-- met another type.
use wtquic.Base.{
  ℕ, ◌+◌, ◌-◌, ◌≤◌, ◌≡◌, ◌≢◌, refl, sym, ap, ◌∙◌, arith, List, ◌++◌, append_assoc, ◌==◌, length,
  length-append, drop-length, inl, inr, ◌⊎◌, if◌then◌else◌,
}
use wtquic.Proto.Varint
use wtquic.Proto.Varint.{
  Result, done, done-injective, fail, need_more, buffer, Status, Fed, varint_len, varint_max,
}
use wtquic.Proto.Varint.Encode
use wtquic.Proto.Varint.Encode.{Shape, Shape-length, varint_len_bounds}
use wtquic.Proto.Varint.Whole.{Shape-feed}
use wtquic.Proto.Preamble.{
  Kind, preamble, unexpected, Decoder, DecState, init, feed, feed_session, session_read, type_read,
  kind_codepoint, encode, decode,
}
use wtquic.Proto.Preamble.Stream.{feed_at_poisoned}

codepoint_bound : (k : Kind) → k ≢ Kind.other → kind_codepoint k ≤ 0x54
unfolding kind_codepoint
codepoint_bound Kind.bidi h = omega arith
codepoint_bound Kind.uni h = omega arith
codepoint_bound Kind.other h = absurd (h refl)

abbrev pub Written : Kind → ℕ → ℕ → Type 0
Written k sid cap =
    (ts : List ℕ) × (ss : List ℕ) × (encode k sid cap ≡ done (ts ++ ss))
    × Shape (kind_codepoint k) ts
    × Shape sid ss

encode-Written :
    (k : Kind) (sid cap : ℕ)
    → k ≢ Kind.other
    → sid ≤ varint_max
    → varint_len (kind_codepoint k) + varint_len sid ≤ cap
    → Written k sid cap
unfolding encode
encode-Written k sid cap hk hs hc =
    let small = codepoint_bound k hk in
    let (ts, et, st) =
      Encode.encode-Shape (kind_codepoint k) cap (omega (arith, small)) (omega arith) in
    let (ss, es, ss') =
      Encode.encode-Shape sid (cap - length ts) hs (omega (arith, Shape-length st)) in
    (ts, ss, ground (arith, et, es, small), st, ss')

-- The encoder succeeds only for a known kind, a session id in range and a buffer large enough.
encode_done :
    (k : Kind) (sid cap : ℕ) (bs : List ℕ)
    → encode k sid cap ≡ done bs
    → (k ≢ Kind.other) × (sid ≤ varint_max) × (varint_len (kind_codepoint k) + varint_len sid ≤ cap)
unfolding encode kind_codepoint
encode_done Kind.bidi sid room bs e = (λ p. cc, ground arith, ground arith)
encode_done Kind.uni sid room bs e = (λ p. cc, ground arith, ground arith)
encode_done Kind.other sid room bs e = (λ p. cc, ground arith, ground arith)

decode_lem :
    (e : Kind) (src : List ℕ)
    → decode e src ≡ (type_read init e src (Varint.feed Varint.init src)).out
unfolding decode
decode_lem e src = refl

-- What a fresh decoder that expects `e` makes of an encoding for `k`.
decode-Shape :
    (e k : Kind) (sid : ℕ) (ts ss rest : List ℕ)
    → kind_codepoint k ≤ varint_max
    → sid ≤ varint_max
    → Shape (kind_codepoint k) ts
    → Shape sid ss
    → decode e ((ts ++ ss) ++ rest) ≡ (
        if kind_codepoint k == kind_codepoint e
        then done (
            preamble (record {
              kind = e;
              session_id = sid;
              header_len = length (ts ++ ss);
              wire_type = kind_codepoint k;
            }))
        else done (unexpected (kind_codepoint k)))
unfolding type_read feed_session session_read
decode-Shape e k sid ts ss rest hk hs st s =
    decode_lem e ((ts ++ ss) ++ rest)
    ∙ rw (append_assoc ts ss rest, Shape-feed (ss ++ rest) (omega arith) st)
        (ground (
          arith,
          drop-length ts (ss ++ rest),
          Shape-length st,
          Shape-length s,
          Shape-feed rest (omega arith) s,
          length-append ts ss,
        ))

-- The two kinds have the types 0x41 and 0x54 on the wire.
abbrev pub HasType : Kind → ℕ → Type 0
HasType k w = ((k ≡ Kind.bidi) × (w ≡ 0x41)) ⊎ ((k ≡ Kind.uni) × (w ≡ 0x54))

kind_codepoint-HasType : (k : Kind) → k ≢ Kind.other → HasType k (kind_codepoint k)
unfolding kind_codepoint
kind_codepoint-HasType Kind.bidi h = inl (refl, refl)
kind_codepoint-HasType Kind.uni h = inr (refl, refl)
kind_codepoint-HasType Kind.other h = absurd (h refl)

-- Kinds are told apart by their types.
same_kind :
    (k e : Kind)
    → ((k ≡ e) × (kind_codepoint k ≡ kind_codepoint e))
      ⊎ ((k ≢ e) × (kind_codepoint k ≢ kind_codepoint e))
unfolding kind_codepoint
same_kind Kind.bidi Kind.bidi = inl (refl, refl)
same_kind Kind.bidi Kind.uni = inr (λ p. cc, λ p. omega (arith, p))
same_kind Kind.bidi Kind.other = inr (λ p. cc, λ p. omega (arith, p))
same_kind Kind.uni Kind.bidi = inr (λ p. cc, λ p. omega (arith, p))
same_kind Kind.uni Kind.uni = inl (refl, refl)
same_kind Kind.uni Kind.other = inr (λ p. cc, λ p. omega (arith, p))
same_kind Kind.other Kind.bidi = inr (λ p. cc, λ p. omega (arith, p))
same_kind Kind.other Kind.uni = inr (λ p. cc, λ p. omega (arith, p))
same_kind Kind.other Kind.other = inl (refl, refl)

-- What is encoded has the type 0x41 for a bidirectional stream and 0x54 for a unidirectional one,
-- and no other kind is encoded. A fresh decoder that expects the kind encoded gives back the kind,
-- the session id and the number of bytes written, whatever follows; one that expects another kind
-- answers UNEXPECTED with the type it met. The encoder writes within its capacity.
pub decode_preamble-encode :
    (e k : Kind) (sid cap : ℕ) (bs rest : List ℕ)
    → encode k sid cap ≡ done bs
    → (length bs ≤ cap)
      × ((w : ℕ) × HasType k w
          × (((k ≡ e)
                × (decode e (bs ++ rest)
                    ≡ done (
                        preamble (record {
                          kind = e;
                          session_id = sid;
                          header_len = length bs;
                          wire_type = w;
                        }))))
              ⊎ ((k ≢ e) × (decode e (bs ++ rest) ≡ done (unexpected w)))))
decode_preamble-encode e k sid room bs rest h =
    let (hk, hs, hc) = encode_done k sid room bs h in
    let small = codepoint_bound k hk in
    let (ts, ss, w, st, s) = encode-Written k sid room hk hs hc in
    let p : ts ++ ss ≡ bs = done-injective (sym w ∙ h) in
    let d = decode-Shape e k sid ts ss rest (omega (arith, small)) hs st s in
    (
      rw (← p) (omega (arith, length-append ts ss, Shape-length st, Shape-length s)),
      (
        kind_codepoint k,
        kind_codepoint-HasType k hk,
        rw (← p) (elim (same_kind k e) [
          | inl (q, t) ↦ inl (q, ground (arith, d, t))
          | inr (q, t) ↦ inr (q, ground (arith, d, t))
        ]),
      ),
    )

unexpected_state :
    (dec d : Decoder) (k : Kind) (xs : List ℕ) (w c : ℕ)
    → feed dec k xs ≡ record { dec = d; out = done (unexpected w); consumed = c }
    → (d.state ≡ DecState.poisoned) × (d.wire_type ≡ w)
unfolding feed type_read feed_session session_read
unexpected_state dec d k xs w c h = ground arith

-- A decoder that answered UNEXPECTED answers so ever after, with the same type, and takes no
-- byte and changes nothing, whatever it is fed and whatever kind is expected then.
pub unexpected_stays :
    (dec d : Decoder) (k k' : Kind) (xs ys : List ℕ) (w c : ℕ)
    → feed dec k xs ≡ record { dec = d; out = done (unexpected w); consumed = c }
    → feed d k' ys ≡ record { dec = d; out = done (unexpected w); consumed = 0 }
unexpected_stays dec d k k' xs ys w c h =
    let (s, t) = unexpected_state dec d k xs w c h in
    feed_at_poisoned d k' ys s
    ∙ ap (λ (v : ℕ). record { dec = d; out = done (unexpected v); consumed = 0 }) t
