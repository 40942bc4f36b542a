-- ===== src/Proto/Varint/Encode.antt =====
-- What `wtq_varint_encode` writes, and that `wtq_varint_decode` reads it back
-- (src/proto/varint.c).
use wtquic.Base.{
  ℕ, zero, suc, ◌+◌, ◌*◌, ◌/◌, ◌%◌, ◌^◌, ◌≤◌, ◌<◌, ◌≡◌, refl, sym, ap, ◌∙◌, arith, List, ◌⊎◌, inl,
  inr, subst, dec_le, ◌∷◌, ◌++◌, bit_and, bit_or, length, length-append, All,
}
use wtquic.Base.Bits.{bit_and-low6, bit_or-tag}
use wtquic.Proto.Varint.{
  done, done-injective, fail, buffer, Status, varint_len, varint_max, len_from_first, encode,
  tag_of, payload, decode,
}
use wtquic.Proto.Varint.Push.{IsByte, decode_loop-payload}

-- The bytes of an encoding: a first byte with the tag and the top six bits, then the rest.
pub record Shape (v : ℕ) (bs : List ℕ) : Type 0 where
  pub after : ℕ
  pub first : ℕ
  pub bytes : bs ≡ first ∷ payload after v
  pub is_byte : first < 256
  pub announced : len_from_first first ≡ suc after
  pub top_bits : bit_and first 0x3f ≡ v / 2 ^ (8 * after)
  pub width : varint_len v ≡ suc after

-- The first byte, for each of the four tags.
first_byte :
    (tag x : ℕ)
    → tag < 4
    → x < 64
    → (bit_or (bit_and (x % 256) 0x3f) (tag * 64) % 256 ≡ tag * 64 + x)
      × (bit_and (tag * 64 + x) 0x3f ≡ x)
      × (len_from_first (tag * 64 + x) ≡ 2 ^ tag)
unfolding len_from_first
first_byte tag x ht hx = (
  omega (arith, low, bit_or-tag tag x ht hx, ap (λ (t : ℕ). bit_or t (tag * 64)) low),
  omega (arith, bit_and-low6 (tag * 64 + x) (omega arith)),
  rw quotient (omega arith),
)
  where
    low : bit_and (x % 256) 0x3f ≡ x
    low = omega (arith, bit_and-low6 (x % 256) (omega arith))

    quotient : (tag * 64 + x) / 64 ≡ tag
    quotient = omega arith

-- The four lengths, with what each needs of the value: `after` more bytes under tag `tag`.
encode_case :
    (v cap after tag : ℕ)
    → tag < 4
    → suc after ≡ 2 ^ tag
    → tag_of (suc after) ≡ tag
    → varint_len v ≡ suc after
    → v / 2 ^ (8 * after) < 64
    → suc after ≤ cap
    → (bs : List ℕ) × (encode v cap ≡ done bs) × Shape v bs
unfolding encode
encode_case v cap after tag ht hn ho hl hx hc =
    let x : ℕ = v / 2 ^ (8 * after) in
    let (head, low, announced) = first_byte tag x ht hx in
    (
      (tag * 64 + x) ∷ payload after v,
      rw (hl, ho, head) (ground arith),
      record {
        after = after;
        first = tag * 64 + x;
        bytes = refl;
        is_byte = omega arith;
        announced = announced ∙ sym hn;
        top_bits = low;
        width = hl;
      },
    )

pub varint_len_cases :
    (v : ℕ)
    → v ≤ varint_max
    → ((v < 2 ^ 6) × (varint_len v ≡ 1))
      ⊎ ((v < 2 ^ 14) × (varint_len v ≡ 2))
      ⊎ ((v < 2 ^ 30) × (varint_len v ≡ 4))
      ⊎ ((v < 2 ^ 62) × (varint_len v ≡ 8))
unfolding varint_len
varint_len_cases v h = ground arith

pub varint_len_bounds : (v : ℕ) → v ≤ varint_max → (1 ≤ varint_len v) × (varint_len v ≤ 8)
varint_len_bounds v h = ground (arith, varint_len_cases v h)

pub varint_len_out_of_range : (v : ℕ) → varint_max < v → varint_len v ≡ 0
unfolding varint_len
varint_len_out_of_range v h = ground arith

-- Within range and capacity the encoder succeeds, and writes an encoding of the shortest length.
pub encode-Shape :
    (v cap : ℕ)
    → v ≤ varint_max
    → varint_len v ≤ cap
    → (bs : List ℕ) × (encode v cap ≡ done bs) × Shape v bs
unfolding tag_of
encode-Shape v cap h hc = elim (varint_len_cases v h) [
  | inl (b, e) ↦ encode_case v cap 0 0 (omega arith) refl refl e (omega arith) (omega arith)
  | inr (inl (b, e)) ↦ encode_case v cap 1 1 (omega arith) refl refl e (omega arith) (omega arith)
  | inr (inr (inl (b, e))) ↦
      encode_case v cap 3 2 (omega arith) refl refl e (omega arith) (omega arith)
  | inr (inr (inr (b, e))) ↦
      encode_case v cap 7 3 (omega arith) refl refl e (omega arith) (omega arith)
]

length-payload : (n v : ℕ) → length (payload n v) ≡ n
unfolding payload
length-payload zero v = refl
length-payload (suc n) v = ap suc (length-payload n v)

payload-IsByte : (n v : ℕ) → All IsByte (payload n v)
unfolding payload
payload-IsByte zero v = tt
payload-IsByte (suc n) v = (omega arith, payload-IsByte n v)

pub Shape-length : {v : ℕ} {bs : List ℕ} → Shape v bs → length bs ≡ varint_len v
Shape-length {v} s = rw (s.bytes, s.width) (ap suc (length-payload s.after v))

pub Shape-IsByte : {v : ℕ} {bs : List ℕ} → Shape v bs → All IsByte bs
Shape-IsByte {v} s = rw s.bytes (s.is_byte, payload-IsByte s.after v)

pub Shape-decode :
    {v : ℕ} {bs : List ℕ} (rest : List ℕ)
    → v < 2 ^ 62
    → Shape v bs
    → decode (bs ++ rest) ≡ done (v, varint_len v)
unfolding decode
Shape-decode {v} rest h s =
    rw (s.bytes, s.announced, s.top_bits, s.width)
      (ground (
        arith,
        decode_loop-payload s.after v rest h,
        length-append (payload s.after v) rest,
        length-payload s.after v,
      ))

-- The encoder answers RANGE for a value above 62 bits and BUFFER where the length of the value
-- exceeds the capacity; in any other case it writes the encoding of the value, of that length.
pub encode_cases :
    (v cap : ℕ)
    → ((varint_max < v) × (encode v cap ≡ fail Status.range))
      ⊎ ((v ≤ varint_max) × (cap < varint_len v) × (encode v cap ≡ fail buffer))
      ⊎ ((v ≤ varint_max)
          × (varint_len v ≤ cap)
          × ((bs : List ℕ) × (encode v cap ≡ done bs) × Shape v bs))
encode_cases v cap = elim (dec_le v varint_max) [
  | yes h ↦ elim (dec_le (varint_len v) cap) [
    | yes k ↦ inr (inr (h, k, encode-Shape v cap h k))
    | no k ↦ inr (inl (h, omega arith, too_small h (omega arith)))
  ]
  | no h ↦ inl (omega arith, too_large (omega arith))
]
  where
    too_small : v ≤ varint_max → cap < varint_len v → encode v cap ≡ fail buffer
    too_small h k = unfold encode in ground (arith, varint_len_cases v)

    too_large : varint_max < v → encode v cap ≡ fail Status.range
    too_large h = unfold encode varint_len in ground arith

pub encode_done :
    (v cap : ℕ) (bs : List ℕ)
    → encode v cap ≡ done bs
    → (v ≤ varint_max) × (varint_len v ≤ cap) × Shape v bs
encode_done v room bs e = elim (encode_cases v room) [
  | inl (h, k) ↦ cc
  | inr (inl (h, k, j)) ↦ cc
  | inr (inr (h, k, (cs, j, s))) ↦ (h, k, subst (Shape v) (done-injective (sym j ∙ e)) s)
]

-- What the encoder writes, with any bytes behind it, decodes to the value and to the number of
-- bytes written; that number is the length that the encoder computed, and each byte is one.
pub decode-encode :
    (v cap : ℕ) (bs rest : List ℕ)
    → encode v cap ≡ done bs
    → (decode (bs ++ rest) ≡ done (v, length bs))
      × (length bs ≡ varint_len v)
      × (length bs ≤ cap)
      × All IsByte bs
decode-encode v cap bs rest e =
    let (h, k, s) = encode_done v cap bs e in
    let l : length bs ≡ varint_len v = Shape-length s in
    (rw l (Shape-decode rest (omega arith) s), l, omega (arith, l, k), Shape-IsByte s)
