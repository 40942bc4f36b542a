-- ===== src/Proto/Varint.antt =====
-- src/proto/varint.h and varint.c: QUIC variable-length integers. A buffer `src` with its length
-- is a list of bytes; what an encoder writes to `dst` is the list of bytes written, whose length
-- is `*out_len`. A `uint64_t` shift to the left keeps its `% 2 ^ 64`.
pub mod Push
pub mod Encode
pub mod Decode
pub mod Stream
pub mod Whole
pub mod Progress
mod Tests
use wtquic.Base.{
  ◌≡◌, ℕ, zero, suc, ◌+◌, ◌-◌, ◌*◌, ◌/◌, ◌%◌, ◌^◌, bit_and, bit_or, Bool, List, [], ◌∷◌, ltb, leb,
  ◌==◌, if◌then◌else◌, length,
}

-- The statuses below zero and `NEED_MORE`. `invalid` is the value -3 that the headers of the
-- codecs above this one add: UNEXPECTED, MALFORMED and ERR_SETTING.
pub data Status : Type 0 where
  need_more buffer range invalid : Status

-- A status of OK comes with the outputs, any other leaves them unwritten.
pub data Result (A : Type 0) : Type 0 where
  done : A → Result A
  fail : Status → Result A

pub done-injective : {A : Type 0} {a b : A} → done a ≡ done b → a ≡ b
done-injective e = cc

abbrev pub varint_max : ℕ
varint_max = 2 ^ 62 - 1

unfoldable pub varint_len : ℕ → ℕ
varint_len value =
    if ltb value (2 ^ 6)
    then 1
    else if ltb value (2 ^ 14)
    then 2
    else if ltb value (2 ^ 30)
    then 4
    else if leb value varint_max
    then 8
    else 0

-- `(size_t)1 << (first_byte >> 6)`
unfoldable pub len_from_first : ℕ → ℕ
len_from_first first_byte = 1 * 2 ^ (first_byte / 2 ^ 6)

unfoldable pub is_minimal : ℕ → ℕ → Bool
is_minimal value encoded_len = varint_len value == encoded_len

pub tag_of : ℕ → ℕ
tag_of need = if need == 1 then 0 else if need == 2 then 1 else if need == 4 then 2 else 3

-- The loop over `dst`, at its last `k` positions: `(uint8_t)(value >> (8 * (need - 1 - i)))`.
pub payload : ℕ → ℕ → List ℕ
payload zero value = []
payload (suc k) value = (value / 2 ^ (8 * k) % 256) ∷ payload k value

-- `dst[0] = (dst[0] & 0x3f) | (tag << 6)`
pub set_tag : ℕ → List ℕ → List ℕ
set_tag tag [] = []
set_tag tag (b ∷ dst) = (bit_or (bit_and b 0x3f) (tag * 64) % 256) ∷ dst

unfoldable pub encode : ℕ → ℕ → Result (List ℕ)
unfolding varint_len tag_of payload set_tag
encode value cap =
    let need = varint_len value in
    if need == 0
    then fail Status.range
    else if ltb cap need
    then fail buffer
    else done (set_tag (tag_of need) (payload need value))

-- `(v << 8) | b`
unfoldable pub push : ℕ → ℕ → ℕ
push v b = bit_or (v * 256 % 2 ^ 64) b

-- The loop over `src[1 .. need)`; the length test before it keeps it inside the buffer.
pub decode_loop : ℕ → ℕ → List ℕ → ℕ
decode_loop zero v src = v
decode_loop (suc n) v [] = v
decode_loop (suc n) v (b ∷ src) = decode_loop n (push v b) src

-- The value and `*consumed`.
unfoldable pub decode : List ℕ → Result (ℕ × ℕ)
unfolding len_from_first push decode_loop
decode [] = fail need_more
decode (b ∷ src) =
    let need = len_from_first b in
    if ltb (length (b ∷ src)) need
    then fail need_more
    else done (decode_loop (need - 1) (bit_and b 0x3f) src, need)

-- `wtq_varint_dec_t`; `need` is 0 before the first byte.
pub record Decoder : Type 0 where
  pub acc : ℕ
  pub need : ℕ
  pub have : ℕ

abbrev pub init : Decoder
init = record { acc = 0; need = 0; have = 0 }

-- What a `feed` leaves: the decoder, the status with its outputs, and `*consumed`.
pub record Fed (D A : Type 0) : Type 0 where
  pub dec : D
  pub out : Result A
  pub consumed : ℕ

-- `while (dec->have < dec->need && eaten < len)`, over the bytes from `src + eaten` on.
pub feed_loop : Decoder → ℕ → List ℕ → Decoder × ℕ
feed_loop dec eaten [] = (dec, eaten)
feed_loop dec eaten (b ∷ src) =
    if ltb dec.have dec.need
    then feed_loop (record dec { acc = push dec.acc b; have = (dec.have + 1) % 256 }) (eaten + 1)
        src
    else (dec, eaten)

-- The code below the loop.
pub feed_end : Decoder × ℕ → Fed Decoder ℕ
feed_end (dec, eaten) =
    if ltb dec.have dec.need
    then record { dec = dec; out = fail need_more; consumed = eaten }
    else record { dec = init; out = done dec.acc; consumed = eaten }

-- A fresh decoder takes the first byte, which tells the length.
pub feed_first : List ℕ → Decoder → Fed Decoder ℕ
feed_first [] dec = record { dec = dec; out = fail need_more; consumed = 0 }
feed_first (b ∷ src) dec =
    feed_end
      (feed_loop (record { acc = bit_and b 0x3f; need = len_from_first b % 256; have = 1 }) 1 src)

unfoldable pub feed : Decoder → List ℕ → Fed Decoder ℕ
unfolding len_from_first push feed_loop feed_end feed_first
feed dec src = if dec.need == 0 then feed_first src dec else feed_end (feed_loop dec 0 src)
