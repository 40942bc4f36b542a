-- ===== src/Proto/SfString/Item.antt =====
-- One string of src/proto/sf_string.c: what the writer makes of it, and what the parser reads.
use wtquic.Base.{
  ℕ, zero, suc, ◌≤◌, ◌<◌, ◌≡◌, refl, ap, ◌∙◌, arith, Bool, true, false, ◌⊎◌, inl, inr, List, [],
  ◌∷◌, ◌++◌, length, length-append, All, append_assoc, Bool-cases,
}
use wtquic.Proto.Varint.{Status, done, fail, buffer}
use wtquic.Proto.SfString.{
  is_special, unprintable, store, string_valid, string_loop, parse_string, skip_while, skip_sp,
}
use wtquic.Proto.SfString.Fields.{parse_member, member_text, skip_params, params_loop, parse_item}
use wtquic.Proto.SfString.Write.{item_len, encoded_item_len, escape, encode_item}

-- The bytes that a string of a field may hold.
abbrev pub IsPrintable : ℕ → Type 0
IsPrintable c = (0x20 ≤ c) × (c ≤ 0x7e)

pub string_valid→All : (s : List ℕ) → string_valid s ≡ true → All IsPrintable s
unfolding string_valid
string_valid→All [] h = tt
string_valid→All (c ∷ s) h = (ground arith, string_valid→All s (ground arith))

pub All→string_valid : (s : List ℕ) → All IsPrintable s → string_valid s ≡ true
unfolding string_valid
All→string_valid [] h = refl
All→string_valid (c ∷ s) (p, h) = ground (arith, All→string_valid s h)

length-escape : (s : List ℕ) → length (escape s) ≡ item_len s
unfolding escape item_len
length-escape [] = refl
length-escape (c ∷ s) = ground (arith, length-escape s)

string_loop_plain :
    (c : ℕ) (src : List ℕ) (room : ℕ)
    → is_special c ≡ false
    → unprintable c ≡ false
    → string_loop false (c ∷ src) (suc room) ≡ store c (suc room) (string_loop false src room)
unfolding string_loop
string_loop_plain c src room h k = ground arith

string_loop_special :
    (c : ℕ) (src : List ℕ) (room : ℕ)
    → is_special c ≡ true
    → string_loop false (0x5c ∷ c ∷ src) (suc room)
      ≡ store c (suc room) (string_loop false src room)
unfolding string_loop
string_loop_special c src room h = ground arith

-- The parser reads the escaped text up to the closing quote.
string_loop-escape :
    (s rest : List ℕ) (room : ℕ)
    → string_valid s ≡ true
    → length s ≤ room
    → string_loop false (escape s ++ (0x22 ∷ rest)) room ≡ done (s, rest)
unfolding string_loop escape string_valid
string_loop-escape [] [] room h k = refl
string_loop-escape [] (c ∷ rest) room h k = refl
string_loop-escape (c ∷ s) rest zero h k = absurd (omega arith)
string_loop-escape (c ∷ s) rest (suc room) h k = elim (Bool-cases (is_special c)) [
  | inl e ↦ rw e (
      string_loop_special c (escape s ++ (0x22 ∷ rest)) room e
      ∙ ap (store c (suc room)) (string_loop-escape s rest room (ground arith) (omega arith)))
  | inr e ↦ rw e (
      string_loop_plain c (escape s ++ (0x22 ∷ rest)) room e (ground arith)
      ∙ ap (store c (suc room)) (string_loop-escape s rest room (ground arith) (omega arith)))
]

pub encode_item_cases :
    (s : List ℕ) (cap : ℕ)
    → ((string_valid s ≡ false) × (encode_item s cap ≡ fail Status.invalid))
      ⊎ ((string_valid s ≡ true) × (cap < encoded_item_len s) × (encode_item s cap ≡ fail buffer))
      ⊎ ((string_valid s ≡ true)
          × (encoded_item_len s ≤ cap)
          × (encode_item s cap ≡ done (0x22 ∷ (escape s ++ (0x22 ∷ [])))))
unfolding encode_item
encode_item_cases s cap = ground arith

pub length-encode_item :
    (s : List ℕ) → length (0x22 ∷ (escape s ++ (0x22 ∷ []))) ≡ encoded_item_len s
unfolding encoded_item_len
length-encode_item s = omega (arith, length-append (escape s) (0x22 ∷ []), length-escape s)

-- What stands behind a string: nothing that a parameter or another string could start with.
pub parse_member-string :
    (s rest : List ℕ) (lenient : Bool) (room : ℕ)
    → string_valid s ≡ true
    → length s ≤ room
    → skip_params rest ≡ done rest
    → parse_member lenient ((0x22 ∷ (escape s ++ (0x22 ∷ []))) ++ rest) room ≡ done (s, rest)
unfolding parse_member member_text parse_string
parse_member-string s rest lenient room h k p =
    rw (append_assoc (escape s) (0x22 ∷ []) rest, string_loop-escape s rest room h k) (rw p refl)

parse_item-quoted :
    (s : List ℕ) (lenient : Bool) (room : ℕ)
    → string_valid s ≡ true
    → length s ≤ room
    → parse_item (0x22 ∷ (escape s ++ (0x22 ∷ []))) lenient room ≡ done s
unfolding parse_item skip_sp skip_while skip_params parse_member member_text parse_string
    params_loop
parse_item-quoted s lenient room h k = rw (string_loop-escape s [] room h k) refl

-- The writer of an item refuses a string with a byte outside %x20-7E and a buffer shorter than
-- the announced length. In any other case it writes that many bytes, and the parser, lenient or
-- not, reads the string back from them into a buffer that holds the string.
pub parse_item-encode_item :
    (s : List ℕ) (cap : ℕ) (lenient : Bool) (room : ℕ)
    → length s ≤ room
    → ((¬ All IsPrintable s) × (encode_item s cap ≡ fail Status.invalid))
      ⊎ (All IsPrintable s × (cap < encoded_item_len s) × (encode_item s cap ≡ fail buffer))
      ⊎ (All IsPrintable s
          × ((bs : List ℕ) × (encode_item s cap ≡ done bs)
              × (length bs ≡ encoded_item_len s)
              × (length bs ≤ cap)
              × (parse_item bs lenient room ≡ done s)))
parse_item-encode_item s cap lenient room k = elim (encode_item_cases s cap) [
  | inl (v, e) ↦ inl (λ h. cc (All→string_valid s h, v), e)
  | inr (inl (v, h, e)) ↦ inr (inl (string_valid→All s v, h, e))
  | inr (inr (v, h, e)) ↦ inr (
      inr (
        string_valid→All s v,
        (
          0x22 ∷ (escape s ++ (0x22 ∷ [])),
          e,
          length-encode_item s,
          omega (arith, length-encode_item s, h),
          parse_item-quoted s lenient room v k,
        ),
      ))
]
