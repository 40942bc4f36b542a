-- ===== src/Proto/Capsule/Payload.antt =====
-- The payload loops of `wtq_capsule_dec_feed` (src/proto/capsule.c) byte by byte.
use wtquic.Base.{
  ℕ, zero, suc, ◌+◌, ◌-◌, ◌*◌, ◌%◌, ◌^◌, ◌≡◌, ◌≢◌, refl, sym, ap, ◌∙◌, arith, bit_or, true, false,
  ◌&&◌, List, [], ◌∷◌, ◌++◌, ltb, lt→ltb, if◌then◌else◌, Bool-cases, length, length-drop,
  length-take, take, drop, inl, inr,
}
use wtquic.Proto.Capsule.{
  Kind, unset, close, drain, unknown, Decoder, code_loop, reason_loop, close_bytes, payload_round,
  payload_loop,
}

-- One byte of the payload.
unfoldable pub absorb : Decoder → ℕ → Decoder
absorb dec b =
    let code = bit_or (dec.code_acc * 256 % 2 ^ 32) b in
    let rest = dec.remaining - 1 in
    elim (dec.kind) [
      | close ↦
          if ltb dec.code_have 4
          then record dec {
            code_acc = code;
            code_have = (dec.code_have + 1) % 256;
            remaining = rest;
          }
          else record dec { reason = dec.reason ++ (b ∷ []); remaining = rest }
      | _ ↦ record dec { remaining = rest }
    ]

unfoldable pub absorb_all : Decoder → List ℕ → Decoder
absorb_all dec [] = dec
absorb_all dec (b ∷ src) = absorb_all (absorb dec b) src

pub absorb_all-append :
    (dec : Decoder) (xs ys : List ℕ) → absorb_all dec (xs ++ ys) ≡ absorb_all (absorb_all dec xs) ys
unfolding absorb_all
absorb_all-append dec [] ys = refl
absorb_all-append dec (b ∷ xs) ys = absorb_all-append (absorb dec b) xs ys

pub absorb_all_kept :
    (dec : Decoder) (xs : List ℕ)
    → let d = absorb_all dec xs in
      (d.remaining ≡ dec.remaining - length xs) × (d.kind ≡ dec.kind) × (d.state ≡ dec.state)
unfolding absorb_all absorb
absorb_all_kept dec [] = (omega arith, refl, refl)
absorb_all_kept dec (b ∷ xs) = ground (arith, absorb_all_kept (absorb dec b) xs)

abbrev with_remaining : ℕ → Decoder → Decoder
with_remaining m dec = record dec { remaining = m }

reason_loop-remaining :
    (dec : Decoder) (m : ℕ) (xs : List ℕ)
    → reason_loop (with_remaining m dec) xs ≡ with_remaining m (reason_loop dec xs)
unfolding reason_loop
reason_loop-remaining dec m [] = refl
reason_loop-remaining dec m (b ∷ xs) =
    reason_loop-remaining (record dec { reason = dec.reason ++ (b ∷ []) }) m xs

abbrev code_pushed : Decoder → ℕ → Decoder
code_pushed dec b = record dec {
  code_acc = bit_or (dec.code_acc * 256 % 2 ^ 32) b;
  code_have = (dec.code_have + 1) % 256;
}

close_bytes-remaining :
    (dec : Decoder) (m : ℕ) (xs : List ℕ)
    → close_bytes (code_loop (with_remaining m dec) xs)
      ≡ with_remaining m (close_bytes (code_loop dec xs))
unfolding close_bytes code_loop
close_bytes-remaining dec m [] = refl
close_bytes-remaining dec m (b ∷ xs) = elim (Bool-cases (ltb dec.code_have 4)) [
  | inl t ↦ rw t (close_bytes-remaining (code_pushed dec b) m xs)
  | inr f ↦ rw f (reason_loop-remaining dec m (b ∷ xs))
]

close_bytes_kept :
    (dec : Decoder) (xs : List ℕ) → (close_bytes (code_loop dec xs)).remaining ≡ dec.remaining
close_bytes_kept dec xs = ap Decoder.remaining (close_bytes-remaining dec dec.remaining xs)

code_loop_full :
    (dec : Decoder) (xs : List ℕ) → ltb dec.code_have 4 ≡ false → code_loop dec xs ≡ (dec, xs)
unfolding code_loop
code_loop_full dec [] f = refl
code_loop_full dec (b ∷ xs) f = rw f

-- Where a byte of a CLOSE payload goes.
abbrev stored : Decoder → ℕ → Decoder
stored dec b =
    if ltb dec.code_have 4
    then code_pushed dec b
    else record dec { reason = dec.reason ++ (b ∷ []) }

stored_kind : (dec : Decoder) (b : ℕ) → (stored dec b).kind ≡ dec.kind
stored_kind dec b = ground arith

absorb_close :
    (dec : Decoder) (b : ℕ)
    → dec.kind ≡ close
    → absorb dec b ≡ with_remaining (dec.remaining - 1) (stored dec b)
unfolding absorb
absorb_close dec b k = ground arith

absorb_other :
    (dec : Decoder) (b : ℕ)
    → dec.kind ≢ close
    → absorb dec b ≡ with_remaining (dec.remaining - 1) dec
unfolding absorb
absorb_other dec b k = ground arith

close_bytes-stored :
    (dec : Decoder) (b : ℕ) (xs : List ℕ)
    → close_bytes (code_loop dec (b ∷ xs)) ≡ close_bytes (code_loop (stored dec b) xs)
unfolding code_loop close_bytes
close_bytes-stored dec b xs = elim (Bool-cases (ltb dec.code_have 4)) [
  | inl t ↦ rw t refl
  | inr f ↦
      rw f (
        sym (ap close_bytes (code_loop_full (record dec { reason = dec.reason ++ (b ∷ []) }) xs f)))
]

sub-suc : (m n : ℕ) → m - 1 - n ≡ m - suc n
sub-suc m n = omega arith

absorb_all-close :
    (dec : Decoder) (xs : List ℕ)
    → dec.kind ≡ close
    → absorb_all dec xs
      ≡ with_remaining (dec.remaining - length xs) (close_bytes (code_loop dec xs))
unfolding absorb_all code_loop close_bytes
absorb_all-close dec [] k = ap (λ (n : ℕ). with_remaining n dec) (omega arith)
absorb_all-close dec (b ∷ xs) k =
    let m = dec.remaining - 1 in
    ap (λ d. absorb_all d xs) (absorb_close dec b k)
    ∙ absorb_all-close (with_remaining m (stored dec b)) xs (stored_kind dec b ∙ k)
    ∙ ap (with_remaining (m - length xs)) (
        close_bytes-remaining (stored dec b) m xs
        ∙ ap (with_remaining m) (sym (close_bytes-stored dec b xs)))
    ∙ ap (λ (n : ℕ). with_remaining n (close_bytes (code_loop dec (b ∷ xs))))
        (sub-suc dec.remaining (length xs))

absorb_all-other :
    (dec : Decoder) (xs : List ℕ)
    → dec.kind ≢ close
    → absorb_all dec xs ≡ with_remaining (dec.remaining - length xs) dec
unfolding absorb_all
absorb_all-other dec [] k = ap (λ (n : ℕ). with_remaining n dec) (omega arith)
absorb_all-other dec (b ∷ xs) k =
    let m = dec.remaining - 1 in
    ap (λ d. absorb_all d xs) (absorb_other dec b k)
    ∙ absorb_all-other (with_remaining m dec) xs k
    ∙ ap (λ (n : ℕ). with_remaining n dec) (sub-suc dec.remaining (length xs))

-- A round is the absorption of its bytes.
pub payload_round-absorb_all :
    (dec : Decoder) (xs : List ℕ) → payload_round dec xs ≡ absorb_all dec xs
payload_round-absorb_all dec xs = by_kind dec.kind refl
  where
    by_kind : (k : Kind) → dec.kind ≡ k → payload_round dec xs ≡ absorb_all dec xs
    by_kind close k =
        unfold payload_round in ground (arith, absorb_all-close dec xs k, close_bytes_kept dec xs)
    by_kind unset k = unfold payload_round in ground (arith, absorb_all-other dec xs)
    by_kind drain k = unfold payload_round in ground (arith, absorb_all-other dec xs)
    by_kind unknown k = unfold payload_round in ground (arith, absorb_all-other dec xs)

payload_loop_stop :
    (fuel : ℕ) (dec : Decoder) (e : ℕ) (src : List ℕ)
    → (ltb 0 dec.remaining && ltb 0 (length src)) ≡ false
    → payload_loop fuel dec e src ≡ (dec, e)
unfolding payload_loop
payload_loop_stop zero dec e src h = refl
payload_loop_stop (suc fuel) dec e src h = rw h

-- What is taken of a piece.
abbrev pub taken : Decoder → List ℕ → ℕ
taken dec src = if ltb dec.remaining (length src) then dec.remaining else length src

payload_loop_step :
    (fuel : ℕ) (dec : Decoder) (e b : ℕ) (src : List ℕ)
    → ltb 0 dec.remaining ≡ true
    → let n = taken dec (b ∷ src) in
      payload_loop (suc fuel) dec e (b ∷ src)
      ≡ payload_loop fuel (payload_round dec (take n (b ∷ src))) (e + n) (drop n (b ∷ src))
unfolding payload_loop
payload_loop_step fuel dec e b src t = rw (t, lt→ltb 0 (suc (length src)) (omega arith)) refl

-- After one round nothing remains, of the payload or of the piece.
used_up :
    (dec : Decoder) (src : List ℕ)
    → (ltb 0 (absorb_all dec (take (taken dec src) src)).remaining
        && ltb 0 (length (drop (taken dec src) src)))
      ≡ false
used_up dec src = ground (
  arith,
  absorb_all_kept dec (take (taken dec src) src),
  length-take (taken dec src) src,
  length-drop (taken dec src) src,
)

nothing_taken :
    (dec : Decoder) (e : ℕ) (src : List ℕ)
    → ltb 0 dec.remaining ≡ false
    → ◌≡◌ {A = Decoder × ℕ} (dec, e) (absorb_all dec (take (taken dec src) src), e + taken dec src)
unfolding absorb_all
nothing_taken dec e src f = rw (let z : taken dec src ≡ 0 = ground arith in z) (ground arith)

-- The loop ends with fuel to spare, and absorbs as many bytes as remain or are there.
pub payload_loop_lem :
    (dec : Decoder) (e : ℕ) (src : List ℕ)
    → payload_loop (length src) dec e src
      ≡ (absorb_all dec (take (taken dec src) src), e + taken dec src)
payload_loop_lem dec e [] = unfold payload_loop absorb_all in ground arith
payload_loop_lem dec e (b ∷ src) = elim (Bool-cases (ltb 0 dec.remaining)) [
  | inl t ↦
      let all = b ∷ src in
      let n = taken dec all in
      payload_loop_step (length src) dec e b src t
      ∙ rw payload_round-absorb_all (
          payload_loop_stop (length src) (absorb_all dec (take n all)) (e + n) (drop n all)
            (used_up dec all))
  | inr f ↦
      payload_loop_stop (suc (length src)) dec e (b ∷ src) (rw f refl)
      ∙ nothing_taken dec e (b ∷ src) f
]
