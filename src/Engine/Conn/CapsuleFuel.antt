-- ===== src/Engine/Conn/CapsuleFuel.antt =====
-- The loop over the capsules in src/engine/conn.c ends: the fuel of the model is enough.
use wtquic.Base.{
  ℕ, zero, suc, ◌+◌, ◌-◌, ◌≤◌, ◌≡◌, ◌⊎◌, refl, ap, ◌∙◌, arith, Bool, true, false, List, [], ◌∷◌,
  Option, some, if◌then◌else◌, length, length-drop, drop, inl, inr,
}
use wtquic.Proto.Varint.{Result, Fed, done, fail, need_more}
use wtquic.Proto.Varint
use wtquic.Proto.Capsule
use wtquic.Proto.Capsule.Progress.{Afresh, feed_capsule-init-grows, feed_capsule-Afresh}
use wtquic.Engine.Conn.{Conn, Estream, session_draining}
use wtquic.Engine.Conn.Exchange.{session_stream_poisoned}
use wtquic.Engine.Conn.Capsules.{
  Round, return, continue, after_close, late_capsule, live_capsule, capsule_fed, capsule_round,
  capsule_loop, is_over, left_by, session_capsule_bytes,
}

-- What a round goes on with: nothing, or the rest of the delivery and a fresh decoder.
GoesOn : List ℕ → Round → Type 0
GoesOn rest (return c) = c ≡ c
GoesOn rest (continue more c) = (more ≡ []) ⊎ (more ≡ rest) × (c.caps_dec ≡ Capsule.init)

after_close-GoesOn : (i : ℕ) (rest : List ℕ) (c : Conn) → GoesOn rest (after_close i rest c)
unfolding GoesOn
after_close-GoesOn i [] c = inl refl
after_close-GoesOn i (b ∷ rest) c = refl

late_capsule-GoesOn :
    (i : ℕ) (k : Capsule.Kind) (rest : List ℕ) (c : Conn)
    → c.caps_dec ≡ Capsule.init
    → GoesOn rest (late_capsule i k rest c)
unfolding GoesOn late_capsule
late_capsule-GoesOn i Capsule.close rest c h =
    after_close-GoesOn i rest (record c { close_capsule_rx = true })
late_capsule-GoesOn i Capsule.drain rest c h = inr (refl, h)
late_capsule-GoesOn i Capsule.unset rest c h = inr (refl, h)
late_capsule-GoesOn i Capsule.unknown rest c h = inr (refl, h)

dec_if :
    (b : Bool) (x y : Conn)
    → x.caps_dec ≡ Capsule.init
    → y.caps_dec ≡ Capsule.init
    → (if b then x else y).caps_dec ≡ Capsule.init
dec_if true x y h k = h
dec_if false x y h k = k

live_capsule-GoesOn :
    (i : ℕ) (cp : Capsule.Capsule) (k : Capsule.Kind) (rest : List ℕ) (c : Conn)
    → c.caps_dec ≡ Capsule.init
    → GoesOn rest (live_capsule i cp k rest c)
unfolding GoesOn live_capsule session_draining
live_capsule-GoesOn i cp Capsule.close rest c h = after_close-GoesOn i rest _
live_capsule-GoesOn i cp Capsule.drain rest c h = inr (refl, dec_if _ c _ h h)
live_capsule-GoesOn i cp Capsule.unset rest c h = inr (refl, h)
live_capsule-GoesOn i cp Capsule.unknown rest c h = inr (refl, h)

GoesOn-if :
    (b : Bool) (rest : List ℕ) (x y : Round)
    → GoesOn rest x
    → GoesOn rest y
    → GoesOn rest (if b then x else y)
GoesOn-if true rest x y h k = h
GoesOn-if false rest x y h k = k

capsule_fed-GoesOn :
    (i : ℕ) (es : Estream) (over : Bool) (out : Result Capsule.Capsule) (rest : List ℕ) (c : Conn)
    → ((cap : Capsule.Capsule) → out ≡ done cap → c.caps_dec ≡ Capsule.init)
    → GoesOn rest (capsule_fed i es over out rest c)
unfolding GoesOn capsule_fed
capsule_fed-GoesOn i es over (fail need_more) rest c h = refl
capsule_fed-GoesOn i es over (fail Varint.buffer) rest c h = refl
capsule_fed-GoesOn i es over (fail Varint.range) rest c h = refl
capsule_fed-GoesOn i es over (fail Varint.invalid) rest c h = refl
capsule_fed-GoesOn i es over (done cp) rest c h =
    let fresh = h cp refl in
    GoesOn-if over rest _ _ (late_capsule-GoesOn i cp.kind rest c fresh)
      (live_capsule-GoesOn i cp cp.kind rest c fresh)

capsule_round-GoesOn :
    (i : ℕ) (es : Estream) (bytes : List ℕ) (c : Conn)
    → GoesOn (drop (Capsule.feed c.caps_dec bytes).consumed bytes) (capsule_round i es bytes c)
unfolding capsule_round Afresh
capsule_round-GoesOn i es bytes c =
    let fed = Capsule.feed c.caps_dec bytes in
    capsule_fed-GoesOn i es (is_over c.sess_state) fed.out (drop fed.consumed bytes)
      (record c { caps_dec = fed.dec }) (feed_capsule-Afresh c.caps_dec bytes)

-- The loop behind a round.
next : ℕ → ℕ → Estream → Round → Option Conn
next fuel i es (return c) = some c
next fuel i es (continue rest c) = capsule_loop fuel i es rest c

run_next :
    (fuel i : ℕ) (es : Estream) (r : Round)
    → (elim r [ return c ↦ some c | continue rest c ↦ capsule_loop fuel i es rest c ])
      ≡ next fuel i es r
unfolding next
run_next fuel i es (return c) = refl
run_next fuel i es (continue rest c) = refl

capsule_loop-next :
    (fuel i : ℕ) (es : Estream) (b : ℕ) (bytes : List ℕ) (c : Conn)
    → capsule_loop (suc fuel) i es (b ∷ bytes) c
      ≡ (if c.is_closed then some c else next fuel i es (capsule_round i es (b ∷ bytes) c))
unfolding capsule_loop next
capsule_loop-next fuel i es b bytes c =
    ap (λ d. if c.is_closed then some c else d)
      (run_next fuel i es (capsule_round i es (b ∷ bytes) c))

capsule_loop_empty : (fuel i : ℕ) (es : Estream) (c : Conn) → capsule_loop fuel i es [] c ≡ some c
unfolding capsule_loop
capsule_loop_empty zero i es c = refl
capsule_loop_empty (suc fuel) i es c = refl

-- The loop ends, with one result whatever fuel there is from `n` on.
Ends : ℕ → (ℕ → Option Conn) → Type 0
Ends n f = (d : Conn) × ((extra : ℕ) → f (extra + n) ≡ some d)

next-Ends :
    (n i : ℕ) (es : Estream) (rest : List ℕ) (r : Round)
    → GoesOn rest r
    → ((c : Conn) → c.caps_dec ≡ Capsule.init → Ends n (λ f. capsule_loop f i es rest c))
    → Ends n (λ f. next f i es r)
unfolding GoesOn next Ends
next-Ends n i es rest (return c) h k = (c, λ x. refl)
next-Ends n i es rest (continue more c) (inl h) k =
    (c, λ x. ap (λ m. capsule_loop (x + n) i es m c) h ∙ capsule_loop_empty (x + n) i es c)
next-Ends n i es rest (continue more c) (inr (h, fresh)) k =
    let (d, e) = k c fresh in (d, λ x. ap (λ m. capsule_loop (x + n) i es m c) h ∙ e x)

-- A round and the loop behind it.
step-Ends :
    (n i : ℕ) (es : Estream) (b : ℕ) (bytes : List ℕ) (c : Conn)
    → Ends n (λ f. next f i es (capsule_round i es (b ∷ bytes) c))
    → Ends (suc n) (λ f. capsule_loop f i es (b ∷ bytes) c)
unfolding Ends
step-Ends n i es b bytes c (d, e) = (
  if c.is_closed then c else d,
  λ x.
      let more : x + suc n ≡ suc (x + n) = omega arith in
      ap (λ f. capsule_loop f i es (b ∷ bytes) c) more
      ∙ capsule_loop-next (x + n) i es b bytes c
      ∙ ap (λ o. if c.is_closed then some c else o) (e x)
      ∙ some_if c.is_closed c d,
)
  where
    some_if : (t : Bool) (c d : Conn) → (if t then some c else some d) ≡ some (if t then c else d)
    some_if true c d = refl
    some_if false c d = refl

Ends-from : (m n : ℕ) (f : ℕ → Option Conn) → m ≤ n → Ends m f → Ends n f
unfolding Ends
Ends-from m n f l (d, e) =
    (d, λ x. let more : x + n ≡ (x + (n - m)) + m = omega (arith, l) in ap f more ∙ e (x + (n - m)))

capsule_loop_fresh :
    (n i : ℕ) (es : Estream) (bytes : List ℕ) (c : Conn)
    → c.caps_dec ≡ Capsule.init
    → length bytes ≤ n
    → Ends n (λ f. capsule_loop f i es bytes c)
unfolding Ends
capsule_loop_fresh n i es [] c h l = (c, λ x. capsule_loop_empty (x + n) i es c)
capsule_loop_fresh zero i es (b ∷ bytes) c h l = absurd (omega (arith, l))
capsule_loop_fresh (suc n) i es (b ∷ bytes) c h l =
    let k = (Capsule.feed c.caps_dec (b ∷ bytes)).consumed in
    let grows : 1 ≤ k = rw h (feed_capsule-init-grows b bytes) in
    let cut = length-drop k (b ∷ bytes) in
    step-Ends n i es b bytes c (
      next-Ends n i es (drop k (b ∷ bytes)) (capsule_round i es (b ∷ bytes) c)
        (capsule_round-GoesOn i es (b ∷ bytes) c)
        (λ c' fresh.
          capsule_loop_fresh n i es (drop k (b ∷ bytes)) c' fresh (omega (arith, l, grows, cut))))

capsule_loop-Ends :
    (i : ℕ) (es : Estream) (bytes : List ℕ) (c : Conn)
    → Ends (suc (length bytes)) (λ f. capsule_loop f i es bytes c)
unfolding Ends
capsule_loop-Ends i es [] c = (c, λ x. capsule_loop_empty (x + 1) i es c)
capsule_loop-Ends i es (b ∷ bytes) c =
    let k = (Capsule.feed c.caps_dec (b ∷ bytes)).consumed in
    let n = suc (length bytes) in
    let cut = length-drop k (b ∷ bytes) in
    step-Ends n i es b bytes c (
      next-Ends n i es (drop k (b ∷ bytes)) (capsule_round i es (b ∷ bytes) c)
        (capsule_round-GoesOn i es (b ∷ bytes) c)
        (λ c' fresh. capsule_loop_fresh n i es (drop k (b ∷ bytes)) c' fresh (omega (arith, cut))))

-- The loop over the capsules ends within one round for each byte of the delivery and one more, in
-- whatever state the capsule decoder is: it is not out of fuel, with more fuel it leaves the same
-- connection, and this is what `session_capsule_bytes` leaves where no CLOSE was received before.
pub capsule_loop-enough :
    (i : ℕ) (es : Estream) (bytes : List ℕ) (c : Conn)
    → (d : Conn) × ((extra : ℕ) → capsule_loop (extra + suc (length bytes)) i es bytes c ≡ some d)
      × (session_capsule_bytes i es bytes c
          ≡ (if c.close_capsule_rx then session_stream_poisoned i c else d))
unfolding session_capsule_bytes Ends
capsule_loop-enough i es bytes c =
    let (d, e) = capsule_loop-Ends i es bytes c in
    let n = suc (length bytes) in
    let none_more : n ≡ 0 + n = omega arith in
    (
      d,
      e,
      ap (λ o. if c.close_capsule_rx then session_stream_poisoned i c else left_by o c)
          (ap (λ k. capsule_loop k i es bytes c) none_more ∙ e 0),
    )
