-- ===== src/Proto/Connect/Written.antt =====
-- What the encoders of src/proto/connect.c put into a section, as the walk sees it.
use wtquic.Base.{
  ℕ, ◌+◌, ◌-◌, ◌≤◌, ◌≡◌, refl, sym, subst, ap, arith, Bool, true, false, ◌||◌, inl, inr, List, [],
  ◌∷◌, ◌++◌, map, All, length, Option-cases,
}
use wtquic.Proto.Varint
use wtquic.Proto.Varint.{Result, done, fail}
use wtquic.Proto.SfString.Item.{IsPrintable}
use wtquic.Proto.SfString.Shape.{IsQuoted}
use wtquic.Proto.Qpack.{static_find}
use wtquic.Proto.Qpack.Section.{Field, encode_section}
use wtquic.Proto.Qpack.Lines.{sent}
use wtquic.Proto.Qpack.RoundTrip.{decode_section-encode_section, literals_len}
use wtquic.Proto.Connect.{
  walk_init, walked, walk_loop, name_is_valid, is_pseudo, is_connection_field, name_is, te,
  max_fields, value_loop, value_is_valid, ok, ok-injective,
}
use wtquic.Proto.Connect.Encode.{encoded, field_if}

printable_value : (s : List ℕ) → All IsPrintable s → value_loop false (s ++ (0x22 ∷ [])) ≡ true
unfolding value_loop
printable_value [] h = refl
printable_value (c ∷ []) (p, h) = ground arith
printable_value (c ∷ d ∷ s) (p, h) = ground (arith, printable_value (d ∷ s) h)

-- A written string or list is a valid field value.
pub IsQuoted-value : (bs : List ℕ) → IsQuoted bs → value_is_valid bs ≡ true
unfolding value_is_valid
IsQuoted-value bs q =
    subst (λ t. value_loop true t ≡ true) (sym q.bytes) (printable_value q.inner q.printable)

abbrev pub IsPlain : Field → Type 0
IsPlain f = f.never_index ≡ false

sent-IsPlain : (f : Field) → IsPlain f → sent f ≡ f
unfolding sent
sent-IsPlain f h = elim (Option-cases (static_find f.name f.value)) [
  | inl e ↦ rw (sent, e) refl
  | inr (k, e) ↦ rw (sent, e) (ap (λ b. record f { never_index = b }) (sym h))
]

map-sent : (fields : List Field) → All IsPlain fields → map sent fields ≡ fields
map-sent [] h = refl
map-sent (f ∷ fields) (p, h) = rw (sent-IsPlain f p, map-sent fields h) refl

pub field_if-IsPlain :
    (b : Bool) (f : Field) (fields : List Field)
    → IsPlain f
    → All IsPlain fields
    → All IsPlain (field_if b f fields) × (length (field_if b f fields) ≤ length fields + 1)
field_if-IsPlain true f fields p h = ((p, h), omega arith)
field_if-IsPlain false f fields p h = (h, omega arith)

pub encoded_ok : (r : Result (List ℕ)) (bs : List ℕ) → encoded r ≡ ok bs → r ≡ done bs
encoded_ok (done cs) bs h = ap done (ok-injective h)
encoded_ok (fail Varint.buffer) bs h = absurd cc
encoded_ok (fail Varint.need_more) bs h = absurd cc
encoded_ok (fail Varint.range) bs h = absurd cc
encoded_ok (fail Varint.invalid) bs h = absurd cc

-- The walk over a section that was encoded.
pub walk_init-encode_section :
    (fields : List Field) (room scratch_cap : ℕ) (request_headers : Bool) (bs : List ℕ)
    → encoded (encode_section fields room) ≡ ok bs
    → All IsPlain fields
    → length fields ≤ max_fields
    → literals_len fields ≤ scratch_cap
    → walk_loop request_headers false fields ≡ true
    → walk_init bs scratch_cap request_headers
      ≡ ok (record { fields = fields; sf_room = scratch_cap - literals_len fields })
unfolding walk_init walked
walk_init-encode_section fields room sc b bs h p n l w =
    let d =
      decode_section-encode_section fields room max_fields sc bs
        (encoded_ok (encode_section fields room) bs h) n l in
    rw (d, map-sent fields p, w) refl

-- A pseudo-header in front keeps the walk going.
pub walk_loop-pseudo :
    (b : Bool) (f : Field) (fields : List Field)
    → name_is_valid f ≡ true
    → value_is_valid f.value ≡ true
    → is_pseudo f ≡ true
    → walk_loop b false fields ≡ true
    → walk_loop b false (f ∷ fields) ≡ true
unfolding walk_loop
walk_loop-pseudo b f fields n v p w = rw (n, v, p, w) refl

-- So does a regular field that does not belong to the connection, under a condition.
pub walk_loop-field_if :
    (b c : Bool) (f : Field) (fields : List Field)
    → name_is_valid f ≡ true
    → value_is_valid f.value ≡ true
    → is_pseudo f ≡ false
    → is_connection_field f ≡ false
    → name_is f te ≡ false
    → ((seen : Bool) → walk_loop b seen fields ≡ true)
    → (seen : Bool) → walk_loop b seen (field_if c f fields) ≡ true
unfolding walk_loop
walk_loop-field_if b false f fields n v p o t w seen = w seen
walk_loop-field_if b true f fields n v p o t w seen = rw (n, v, p, o, t, w (seen || true)) refl
