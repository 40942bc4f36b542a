-- ===== src/Proto/Varint/Stream.antt =====
-- `wtq_varint_dec_feed` (src/proto/varint.c): however the bytes are cut into pieces, the
-- incremental decoder answers as `wtq_varint_decode` does on the whole buffer.
use wtquic.Base.{
  ℕ, suc, ◌+◌, ◌%◌, ◌≤◌, ◌≡◌, refl, sym, ap, ◌∙◌, arith, true, false, List, [], ◌∷◌, ◌++◌, bit_and,
  length, ltb, Bool-cases, ◌==◌, ◌⊎◌, inl, inr,
}
use native.Mathlib.Nat.{zero-add}
use wtquic.Proto.Varint.{
  done, fail, need_more, len_from_first, Decoder, init, Fed, feed, feed_loop, feed_end, feed_first,
  push,
}

-- The same answer, `n` bytes further on.
abbrev pub after : {D A : Type 0} → ℕ → Fed D A → Fed D A
after n r = record r { consumed = n + r.consumed }

abbrev pushed : Decoder → ℕ → Decoder
pushed dec b = record dec { acc = push dec.acc b; have = (dec.have + 1) % 256 }

after-zero : {D A : Type 0} (r : Fed D A) → after 0 r ≡ r
after-zero r = ap (λ (n : ℕ). record r { consumed = n }) (zero-add r.consumed)

feed_loop-after :
    (dec : Decoder) (n e : ℕ) (ys : List ℕ)
    → feed_loop dec (n + e) ys ≡ ((feed_loop dec e ys).0, n + (feed_loop dec e ys).1)
unfolding feed_loop
feed_loop-after dec n e [] = refl
feed_loop-after dec n e (b ∷ ys) =
    ground (arith, feed_loop-after (pushed dec b) n (e + 1) ys, shift)
  where
    shift : n + e + 1 ≡ n + (e + 1)
    shift = omega arith

pub feed_loop_stopped :
    (dec : Decoder) (e : ℕ) (ys : List ℕ)
    → ltb dec.have dec.need ≡ false
    → feed_loop dec e ys ≡ (dec, e)
unfolding feed_loop
feed_loop_stopped dec e [] f = refl
feed_loop_stopped dec e (b ∷ ys) f = rw f

-- A loop that stopped for want of bytes goes on with the next piece.
feed_loop-append :
    (dec : Decoder) (e : ℕ) (xs ys : List ℕ)
    → let (dec', e') = feed_loop dec e xs in
      ((ltb dec'.have dec'.need ≡ true)
        × (e' ≡ e + length xs)
        × (feed_loop dec e (xs ++ ys) ≡ feed_loop dec' e' ys))
      ⊎ ((ltb dec'.have dec'.need ≡ false) × (feed_loop dec e (xs ++ ys) ≡ (dec', e')))
unfolding feed_loop
feed_loop-append dec e [] ys = elim (Bool-cases (ltb dec.have dec.need)) [
  | inl t ↦ inl (t, omega arith, refl)
  | inr f ↦ inr (f, feed_loop_stopped dec e ys f)
]
feed_loop-append dec e (b ∷ xs) ys = ground (arith, feed_loop-append (pushed dec b) (e + 1) xs ys)

feed_end-after :
    (dec : Decoder) (n : ℕ) (ys : List ℕ)
    → feed_end (feed_loop dec n ys) ≡ after n (feed_end (feed_loop dec 0 ys))
unfolding feed_end
feed_end-after dec n ys = ground (arith, feed_loop-after dec n 0 ys, n-zero)
  where
    n-zero : n + 0 ≡ n
    n-zero = omega arith

-- The end of a call that asked for more, and of one that did not.
feed_end-need_more :
    (r : Decoder × ℕ) {d : Decoder} {c : ℕ}
    → feed_end r ≡ record { dec = d; out = fail need_more; consumed = c }
    → (ltb r.0.have r.0.need ≡ true) × (r ≡ (d, c))
unfolding feed_end
feed_end-need_more r h = ground arith

feed_end-done :
    (r : Decoder × ℕ) {d : Decoder} {v c : ℕ}
    → feed_end r ≡ record { dec = d; out = done v; consumed = c }
    → ltb r.0.have r.0.need ≡ false
unfolding feed_end
feed_end-done r h = ground arith

-- A piece that asked for more was used up.
feed_end-append :
    (dec d : Decoder) (e c : ℕ) (xs ys : List ℕ)
    → feed_end (feed_loop dec e xs) ≡ record { dec = d; out = fail need_more; consumed = c }
    → (c ≡ e + length xs)
      × (ltb d.have d.need ≡ true)
      × (feed_end (feed_loop dec e (xs ++ ys)) ≡ after c (feed_end (feed_loop d 0 ys)))
feed_end-append dec d e c xs ys h =
    let (t, q) = feed_end-need_more (feed_loop dec e xs) h in
    elim (feed_loop-append dec e xs ys) [
      | inl (u, l, a) ↦ (
        cc (ap (λ (r : Decoder × ℕ). r.1) q),
        rw q at t,
        ap feed_end (rw q at a) ∙ feed_end-after d c ys,
      )
      | inr (f, a) ↦ cc
    ]

need_of_have : (d : Decoder) → ltb d.have d.need ≡ true → (d.need == 0) ≡ false
need_of_have d t = ground arith

-- Feeding two pieces one after the other is feeding them joined: a piece that asks for more is
-- used up whole, and the decoder it leaves answers for the rest, counted on.
pub feed-append :
    (dec d : Decoder) (c : ℕ) (xs ys : List ℕ)
    → feed dec xs ≡ record { dec = d; out = fail need_more; consumed = c }
    → (c ≡ length xs) × (feed dec (xs ++ ys) ≡ after c (feed d ys))
unfolding feed
feed-append dec d c xs ys h = elim (Bool-cases (dec.need == 0)) [
  | inl z ↦ fresh xs (rw z at h) z
  | inr z ↦
      let (l, t, a) = feed_end-append dec d 0 c xs ys (rw z at h) in
      (omega (arith, l), rw (z, need_of_have d t) a)
]
  where
    fresh :
        (xs : List ℕ)
        → feed_first xs dec ≡ record { dec = d; out = fail need_more; consumed = c }
        → (dec.need == 0) ≡ true
        → (c ≡ length xs) × (feed dec (xs ++ ys) ≡ after c (feed d ys))
    fresh [] h z =
        let p : dec ≡ d = ap Fed.dec h in
        let q : 0 ≡ c = ap Fed.consumed h in (sym q, rw (← p, ← q) (sym (after-zero (feed dec ys))))
    fresh (b ∷ xs) h z =
        let (l, t, a) = feed_end-append _ d 1 c xs ys h in
        (omega (arith, l), rw (z, need_of_have d t) a)

-- Bytes behind a number that is complete are not looked at.
pub feed_done-append :
    (dec d : Decoder) (v c : ℕ) (xs ys : List ℕ)
    → feed dec xs ≡ record { dec = d; out = done v; consumed = c }
    → feed dec (xs ++ ys) ≡ feed dec xs
unfolding feed
feed_done-append dec d v c xs ys h = elim (Bool-cases (dec.need == 0)) [
  | inl z ↦ rw z (fresh xs (rw z at h))
  | inr z ↦ rw z (whole dec 0 xs (rw z at h))
]
  where
    whole :
        (dec : Decoder) (e : ℕ) (xs : List ℕ)
        → feed_end (feed_loop dec e xs) ≡ record { dec = d; out = done v; consumed = c }
        → feed_end (feed_loop dec e (xs ++ ys)) ≡ feed_end (feed_loop dec e xs)
    whole dec e xs h = elim (feed_loop-append dec e xs ys) [
      | inl (u, l, a) ↦ cc (feed_end-done (feed_loop dec e xs) h)
      | inr (f, a) ↦ ap feed_end a
    ]

    fresh :
        (xs : List ℕ)
        → feed_first xs dec ≡ record { dec = d; out = done v; consumed = c }
        → feed_first (xs ++ ys) dec ≡ feed_first xs dec
    fresh [] h = cc (ap Fed.out h)
    fresh (b ∷ xs) h = whole _ 1 xs h

feed_loop_eaten :
    (dec : Decoder) (e : ℕ) (xs : List ℕ)
    → let r = feed_loop dec e xs in
      (r.1 ≤ e + length xs) × (ltb r.0.have r.0.need ≡ true → r.1 ≡ e + length xs)
unfolding feed_loop
feed_loop_eaten dec e [] = (omega arith, λ _. omega arith)
feed_loop_eaten dec e (b ∷ xs) = elim (Bool-cases (ltb dec.have dec.need)) [
  | inl t ↦
      let (le, eq) = feed_loop_eaten (pushed dec b) (e + 1) xs in
      rw t (omega (arith, le), λ h. omega (arith, eq h))
  | inr f ↦ rw f (omega arith, λ h. cc)
]

-- A call asks for more after the whole piece, or ends a number inside it and starts afresh.
abbrev pub Outcome : List ℕ → Fed Decoder ℕ → Type 0
Outcome xs r =
    ((d : Decoder) × (r ≡ record { dec = d; out = fail need_more; consumed = length xs }))
    ⊎ ((v : ℕ) × (c : ℕ) × (r ≡ record { dec = init; out = done v; consumed = c })
        × (c ≤ length xs))

feed_end-Outcome :
    (r : Decoder × ℕ) (xs : List ℕ)
    → (r.1 ≤ length xs) × (ltb r.0.have r.0.need ≡ true → r.1 ≡ length xs)
    → Outcome xs (feed_end r)
unfolding feed_end
feed_end-Outcome (d, e) xs (le, eq) = elim (Bool-cases (ltb d.have d.need)) [
  | inl t ↦ inl (d, rw (t, eq t) refl)
  | inr f ↦ inr (d.acc, e, rw f refl, le)
]

pub feed-Outcome : (dec : Decoder) (xs : List ℕ) → Outcome xs (feed dec xs)
unfolding feed
feed-Outcome dec xs = elim (Bool-cases (dec.need == 0)) [
  | inl z ↦ rw z (fresh xs)
  | inr z ↦
      rw z (feed_end-Outcome (feed_loop dec 0 xs) xs (rw zero-add at (feed_loop_eaten dec 0 xs)))
]
  where
    fresh : (xs : List ℕ) → Outcome xs (feed_first xs dec)
    fresh [] = inl (dec, refl)
    fresh (b ∷ xs) =
        let d : Decoder = record {
          acc = bit_and b 0x3f;
          need = len_from_first b % 256;
          have = 1;
        } in
        feed_end-Outcome (feed_loop d 1 xs) (b ∷ xs) (rw one-add at (feed_loop_eaten d 1 xs))
      where
        one-add : 1 + length xs ≡ suc (length xs)
        one-add = omega arith
