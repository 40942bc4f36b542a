-- ===== src/Proto/Qpack/Strings.antt =====
-- What the encoder of src/proto/qpack_static.c writes in one piece, and how it reads back: the
-- prefixed integers where there is room, and the string literals.
use wtquic.Base.{
  ℕ, zero, suc, ◌+◌, ◌-◌, ◌*◌, ◌/◌, ◌%◌, ◌^◌, ◌≤◌, ◌<◌, ◌≡◌, refl, sym, subst, arith, bit_and,
  false, ◌||◌, inl, inr, List, [], ◌∷◌, ◌++◌, ltb, Bool-cases, le→ltb, length, length-append, drop,
  drop-length, take-length,
}
use wtquic.Base.Bits.{agree_below, agree_below→eq}
use wtquic.Proto.Varint.{done}
use wtquic.Proto.Frame.{written}
use wtquic.Proto.Qpack.{max_int, len_loop, tail_bytes, int_encoded_len, int_encode, int_decode}
use wtquic.Proto.Qpack.Ints.{int_decode-int_encode, int_encode-done, one_le_pow}
use wtquic.Proto.Qpack.Section.{string_body, decode_string}

length-tail_bytes : (fuel w : ℕ) → length (tail_bytes fuel w) ≡ len_loop (suc fuel) w
unfolding tail_bytes len_loop
length-tail_bytes zero w = ground arith
length-tail_bytes (suc fuel) w = ground (arith, length-tail_bytes fuel (w / 2 ^ 7))

-- The bytes of an integer `v` under flags `f` above a prefix of `p` bits.
pub record IntBytes (v f p : ℕ) (bs : List ℕ) : Type 0 where
  pub low : ℕ
  pub tail : List ℕ
  pub bytes : bs ≡ (f * 2 ^ p + low) ∷ tail
  pub low_fits : low < 2 ^ p
  pub size : length bs ≡ int_encoded_len v p
  pub reads : (rest : List ℕ) → int_decode (bs ++ rest) p ≡ done (v, length bs)

int_encode-room :
    (v f p room : ℕ)
    → 3 ≤ p
    → p ≤ 8
    → v ≤ max_int
    → int_encoded_len v p ≤ room
    → (int_encode v f p room ≡ done (written (int_encode v f p room)))
      × (length (written (int_encode v f p room)) ≡ int_encoded_len v p)
unfolding int_encode
int_encode-room v f p room l u m r =
    let in_range : (ltb p 3 || ltb 8 p || ltb max_int v) ≡ false = ground arith in
    let fits = le→ltb room (int_encoded_len v p) r in
    elim (Bool-cases (ltb v (2 ^ p - 1))) [
      | inl b ↦ (rw (in_range, fits, b) refl, rw (in_range, fits, b) refl)
      | inr b ↦ (
        rw (in_range, fits, b) refl,
        rw (in_range, fits, b) (omega (arith, length-tail_bytes 9 (v - (2 ^ p - 1)))),
      )
    ]

pub int-IntBytes :
    (v f p room : ℕ)
    → f * 2 ^ p + 2 ^ p ≤ 256
    → 3 ≤ p
    → p ≤ 8
    → v ≤ max_int
    → int_encoded_len v p ≤ room
    → IntBytes v f p (written (int_encode v (f * 2 ^ p) p room))
int-IntBytes v f p room h l u m r =
    let bs = written (int_encode v (f * 2 ^ p) p room) in
    let (e, s) = int_encode-room v (f * 2 ^ p) p room l u m r in
    let (k0, k1, k2, forms) = int_encode-done v f p room bs h e in
    let read : (rest : List ℕ) → int_decode (bs ++ rest) p ≡ done (v, length bs) =
      λ rest. int_decode-int_encode v f p room bs rest h e in
    elim forms [
      | inl (k, q) ↦ record {
        low = v;
        tail = [];
        bytes = q;
        low_fits = omega arith;
        size = s;
        reads = read;
      }
      | inr (k, q) ↦ record {
        low = 2 ^ p - 1;
        tail = tail_bytes 9 (v - (2 ^ p - 1));
        bytes = q;
        low_fits = omega (arith, one_le_pow p);
        size = s;
        reads = read;
      }
    ]

-- `b & (1 << k)` for the bits above a prefix
pub bit_and-bit6 : (b : ℕ) → b < 256 → bit_and b 0x40 ≡ b / 64 % 2 * 64
unfolding agree_below
bit_and-bit6 = agree_below→eq (λ b. bit_and b 64) (λ b. b / 64 % 2 * 64) 256 refl

pub bit_and-bit5 : (b : ℕ) → b < 256 → bit_and b 0x20 ≡ b / 32 % 2 * 32
unfolding agree_below
bit_and-bit5 = agree_below→eq (λ b. bit_and b 32) (λ b. b / 32 % 2 * 32) 256 refl

pub bit_and-bit4 : (b : ℕ) → b < 256 → bit_and b 0x10 ≡ b / 16 % 2 * 16
unfolding agree_below
bit_and-bit4 = agree_below→eq (λ b. bit_and b 16) (λ b. b / 16 % 2 * 16) 256 refl

pub bit_and-bit3 : (b : ℕ) → b < 256 → bit_and b 0x08 ≡ b / 8 % 2 * 8
unfolding agree_below
bit_and-bit3 = agree_below→eq (λ b. bit_and b 8) (λ b. b / 8 % 2 * 8) 256 refl

string_body-plain :
    (s rest : List ℕ) (room : ℕ)
    → length s ≤ room
    → string_body false (length s) (s ++ rest) room ≡ done (s, rest)
unfolding string_body
string_body-plain s rest room h =
    rw (length-append s rest, take-length s rest, drop-length s rest) (ground arith)

-- A literal whose flags leave the Huffman bit clear reads back, whatever stands behind it.
module _ (s rest bs : List ℕ) (f p room : ℕ) (i : IntBytes (length s) f p bs) where
  pub decode_string-bytes :
      bit_and (f * 2 ^ p + i.low) (2 ^ p) ≡ 0
      → length s ≤ room
      → decode_string (bs ++ (s ++ rest)) p room ≡ done (s, rest)
  unfolding decode_string
  decode_string-bytes z r =
      let head = f * 2 ^ p + i.low in
      let read : int_decode (head ∷ (i.tail ++ (s ++ rest))) p ≡ done (length s, length bs) =
        subst (λ t. int_decode (t ++ (s ++ rest)) p ≡ done (length s, length bs)) i.bytes
          (i.reads (s ++ rest)) in
      let behind : drop (length bs) (head ∷ (i.tail ++ (s ++ rest))) ≡ s ++ rest =
        subst (λ t. drop (length bs) (t ++ (s ++ rest)) ≡ s ++ rest) i.bytes
          (drop-length bs (s ++ rest)) in
      subst (λ t. decode_string (t ++ (s ++ rest)) p room ≡ done (s, rest)) (sym i.bytes)
        (rw (read, behind, z) (string_body-plain s rest room r))
