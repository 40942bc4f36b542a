-- ===== src/Proto/Qpack/RoundTrip.antt =====
-- Field sections of src/proto/qpack_static.c: the decoder reads what the encoder wrote.
use wtquic.Base.{
  ℕ, zero, suc, ◌+◌, ◌-◌, ◌*◌, ◌^◌, ◌≤◌, ◌≡◌, refl, sym, subst, ap, ◌∙◌, arith, bit_or, Bool, true,
  false, ◌||◌, inl, inr, List, [], ◌∷◌, ◌++◌, map, ltb, if◌then◌else◌, Bool-cases, length,
  length-append,
}
use wtquic.Proto.Varint.{Result, done, fail, done-injective}
use wtquic.Proto.Frame.{written}
use wtquic.Proto.Qpack.{max_int, int_encoded_len, int_encode, int_decode}
use wtquic.Proto.Qpack.Lookup.{static_find_lem, static_find_name_lem, static_get-lt}
use wtquic.Proto.Qpack.Section.{
  ◌>>=◌, Field, lines_loop, decode_section, field_encoded_len, encode_field, encode_fields,
  section_len, encode_section,
}
use wtquic.Proto.Qpack.Strings.{int-IntBytes}
use wtquic.Proto.Qpack.Lines.{
  sent, literal_len, name_flags, text_flags, Reads, indexed-Reads, reference-Reads, literal-Reads,
}

reference_flags :
    (b : Bool) → bit_or (bit_or 0x40 (if b then 0x20 else 0)) 0x10 ≡ name_flags b * 2 ^ 4
reference_flags true = refl
reference_flags false = refl

literal_flags : (b : Bool) → bit_or 0x20 (if b then 0x10 else 0) ≡ text_flags b * 2 ^ 3
literal_flags true = refl
literal_flags false = refl

flags_fit : (b : Bool) → (name_flags b * 2 ^ 4 + 2 ^ 4 ≤ 256) × (text_flags b * 2 ^ 3 + 2 ^ 3 ≤ 256)
flags_fit true = (omega arith, omega arith)
flags_fit false = (omega arith, omega arith)

encode_field-Reads :
    (f : Field) (room scratch : ℕ) (rest : List ℕ)
    → length f.name ≤ max_int
    → length f.value ≤ max_int
    → field_encoded_len f ≤ room
    → literal_len f ≤ scratch
    → Reads (encode_field f room) rest scratch (field_encoded_len f) (sent f) (literal_len f)
unfolding encode_field field_encoded_len sent literal_len
encode_field-Reads f room scratch rest m n r h = elim (static_find_lem f.name f.value) [
  | inl (k, e, q, g, (en, ev)) ↦
      let size : field_encoded_len f ≡ int_encoded_len k 6 = rw (field_encoded_len, q) refl in
      let i =
        int-IntBytes k 3 6 room (omega arith) (omega arith) (omega arith)
          (omega (arith, static_get-lt k e g)) (omega (arith, size, r)) in
      rw (encode_field, field_encoded_len, sent, literal_len, q)
        (indexed-Reads f k scratch e (written (int_encode k 0xc0 6 room)) rest i g en ev)
  | inr (q, none_of) ↦ elim (static_find_name_lem f.name) [
    | inl (k, e, p, g, en) ↦
        let size : field_encoded_len f
            ≡ int_encoded_len k 4 + int_encoded_len (length f.value) 7 + length f.value =
          rw (field_encoded_len, q, p) refl in
        let used : literal_len f ≡ length f.value = rw (literal_len, q, p) refl in
        let head = written (int_encode k (name_flags f.never_index * 2 ^ 4) 4 room) in
        let i =
          int-IntBytes k (name_flags f.never_index) 4 room ((flags_fit f.never_index).0)
            (omega arith) (omega arith) (omega (arith, static_get-lt k e g))
            (omega (arith, size, r)) in
        let left = room - length head in
        let fits : int_encoded_len (length f.value) 7 ≤ left = omega (arith, size, r, i.size) in
        let j =
          int-IntBytes (length f.value) 0 7 left (omega arith) (omega arith) (omega arith) n fits in
        rw (encode_field, field_encoded_len, sent, literal_len, q, p, reference_flags f.never_index)
          (reference-Reads f k e head (written (int_encode (length f.value) 0 7 left)) rest scratch
            i j g en (omega (arith, used, h)))
    | inr p ↦
        let size : field_encoded_len f
            ≡ int_encoded_len (length f.name) 3
              + length f.name
              + int_encoded_len (length f.value) 7
              + length f.value =
          rw (field_encoded_len, q, p) refl in
        let used : literal_len f ≡ length f.name + length f.value = rw (literal_len, q, p) refl in
        let head = written (int_encode (length f.name) (text_flags f.never_index * 2 ^ 3) 3 room) in
        let i =
          int-IntBytes (length f.name) (text_flags f.never_index) 3 room
            ((flags_fit f.never_index).1) (omega arith) (omega arith) m (omega (arith, size, r)) in
        let left = room - (length head + length f.name) in
        let fits : int_encoded_len (length f.value) 7 ≤ left = omega (arith, size, r, i.size) in
        let j =
          int-IntBytes (length f.value) 0 7 left (omega arith) (omega arith) (omega arith) n fits in
        rw (encode_field, field_encoded_len, sent, literal_len, q, p, literal_flags f.never_index)
          (literal-Reads f head (written (int_encode (length f.value) 0 7 left)) rest scratch i j
            (omega (arith, used, h)))
  ]
]

-- The scratch bytes of the fields.
unfoldable pub literals_len : List Field → ℕ
literals_len [] = 0
literals_len (f ∷ fields) = literal_len f + literals_len fields

-- A chain of steps gives a result only when its first step does.
>>=_done :
    {A B : Type 0} (o : Result A) (f : A → Result B) (b : B)
    → (o >>= f) ≡ done b
    → (a : A) × (o ≡ done a) × (f a ≡ done b)
>>=_done (done a) f b e = (a, refl, e)
>>=_done (fail s) f b e = absurd cc

section_len-cons :
    (f : Field) (fields : List Field) (n : ℕ)
    → section_len (f ∷ fields) ≡ done n
    → (length f.name ≤ max_int)
      × (length f.value ≤ max_int)
      × (m : ℕ) × (section_len fields ≡ done m)
      × (n ≡ field_encoded_len f + m)
unfolding section_len
section_len-cons f fields n h =
    elim (Bool-cases (ltb max_int (length f.name) || ltb max_int (length f.value))) [
      | inl b ↦ absurd (ground (arith, b, h))
      | inr b ↦
          let sum : (section_len fields >>= (λ m. done (field_encoded_len f + m))) ≡ done n =
            ground (arith, b, h) in
          let (m, e, k) = >>=_done (section_len fields) _ n sum in
          (ground (arith, b), ground (arith, b), m, e, sym (done-injective k))
    ]

-- A round of the loop.
loop_round :
    (line more : List ℕ) (scratch size used : ℕ) (field : Field)
    (i : Reads line more scratch size field used) (fuel slots left : ℕ) (fields : List Field)
    → lines_loop fuel more (scratch - used) slots ≡ done (fields, left)
    → lines_loop (suc fuel) (line ++ more) scratch (suc slots) ≡ done (field ∷ fields, left)
unfolding lines_loop
loop_round line more scratch size used field i fuel slots left fields h =
    let one_less : suc slots - 1 ≡ slots = omega arith in
    subst (λ t. lines_loop (suc fuel) (t ++ more) scratch (suc slots) ≡ done (field ∷ fields, left))
      (sym i.bytes) (rw (i.reads, one_less, h) (ground arith))

-- The loop over the lines, with fuel for every byte.
lines_loop-encode_fields :
    (fields : List Field) (n room fuel scratch slots : ℕ)
    → section_len fields ≡ done n
    → n ≤ room
    → length (encode_fields fields room) ≤ fuel
    → literals_len fields ≤ scratch
    → length fields ≤ slots
    → lines_loop fuel (encode_fields fields room) scratch slots
      ≡ done (map sent fields, scratch - literals_len fields)
unfolding lines_loop encode_fields literals_len
lines_loop-encode_fields [] n room fuel scratch slots e r u h s =
    ap (λ (k : ℕ). done ([], k)) (omega arith)
lines_loop-encode_fields (f ∷ fields) n room fuel scratch zero e r u h s = absurd (omega arith)
lines_loop-encode_fields (f ∷ fields) n room fuel scratch (suc slots) e r u h s =
    let (a, b, m, k, q) = section_len-cons f fields n e in
    let line = encode_field f room in
    let more = encode_fields fields (room - length line) in
    let i = encode_field-Reads f room scratch more a b (omega arith) (omega arith) in
    let whole = length-append line more in
    let some_bytes : length line ≡ suc (length i.tail) = ap (λ (t : List ℕ). length t) i.bytes in
    let rest =
      lines_loop-encode_fields fields m (room - length line) (fuel - 1) (scratch - literal_len f)
        slots k (omega (arith, i.line_size)) (omega arith) (omega arith) (omega arith) in
    let fuel' : suc (fuel - 1) ≡ fuel = omega arith in
    subst
      (λ x.
        lines_loop x (line ++ more) scratch (suc slots)
        ≡ done (sent f ∷ map sent fields, scratch - (literal_len f + literals_len fields)))
      fuel'
      (loop_round line more scratch _ _ (sent f) i (fuel - 1) slots _ (map sent fields) rest
        ∙ ap (λ (k : ℕ). done (sent f ∷ map sent fields, k)) (omega arith))

-- The prefix `{0x00, 0x00}` asks for nothing of the dynamic table.
decode_section-prefix :
    (lines : List ℕ) (max_fields scratch_cap : ℕ)
    → decode_section (0 ∷ 0 ∷ lines) max_fields scratch_cap
      ≡ lines_loop (suc (length lines)) lines scratch_cap max_fields
unfolding decode_section int_decode
decode_section-prefix lines max_fields scratch_cap = refl

-- A section that the encoder writes decodes to its fields, in their order, where the decoder has
-- room for them and for their literal texts; a field that the static table holds whole comes out
-- without its `never_index`, for its line has no bit for it. What is left of the scratch buffer is
-- what the literal texts do not take.
pub decode_section-encode_section :
    (fields : List Field) (cap max_fields scratch_cap : ℕ) (bs : List ℕ)
    → encode_section fields cap ≡ done bs
    → length fields ≤ max_fields
    → literals_len fields ≤ scratch_cap
    → decode_section bs max_fields scratch_cap
      ≡ done (map sent fields, scratch_cap - literals_len fields)
unfolding encode_section
decode_section-encode_section fields room mf sc bs h s l =
    let (n, e, k) = >>=_done (section_len fields) _ bs h in
    let lines = encode_fields fields (room - 2) in
    let fits : n ≤ room - 2 = ground (arith, k) in
    let eq : 0 ∷ 0 ∷ lines ≡ bs = ground (arith, k) in
    subst (λ x. decode_section x mf sc ≡ done (map sent fields, sc - literals_len fields)) eq
      (decode_section-prefix lines mf sc
        ∙ lines_loop-encode_fields fields n (room - 2) (suc (length lines)) sc mf e fits
            (omega arith) l s)

literal_len_le : (f : Field) (room : ℕ) → literal_len f ≤ length (encode_field f room)
unfolding literal_len encode_field
literal_len_le f room = elim (static_find_lem f.name f.value) [
  | inl (k, e, q, g, m) ↦ rw (literal_len, q) (omega arith)
  | inr (q, none_of) ↦ elim (static_find_name_lem f.name) [
    | inl (k, e, p, g, m) ↦ rw (literal_len, encode_field, q, p) (tail_le _ _ f.value)
    | inr p ↦ rw (literal_len, encode_field, q, p) (texts_le _ f.name _ f.value)
  ]
]
  where
    tail_le : (a b c : List ℕ) → length c ≤ length (a ++ (b ++ c))
    tail_le a b c = omega (arith, length-append a (b ++ c), length-append b c)

    texts_le : (a b c d : List ℕ) → length b + length d ≤ length (a ++ (b ++ (c ++ d)))
    texts_le a b c d =
        omega (arith, length-append a (b ++ (c ++ d)), length-append b (c ++ d), length-append c d)

literals_len_le :
    (fields : List Field) (room : ℕ) → literals_len fields ≤ length (encode_fields fields room)
unfolding literals_len encode_fields
literals_len_le [] room = omega arith
literals_len_le (f ∷ fields) room =
    let line = encode_field f room in
    let more = encode_fields fields (room - length line) in
    let whole = length-append line more in
    let head = literal_len_le f room in
    let tail = literals_len_le fields (room - length line) in omega (arith, whole, head, tail)

-- The literal texts stand in the section.
pub encode_section-literals_len :
    (fields : List Field) (room : ℕ) (bs : List ℕ)
    → encode_section fields room ≡ done bs
    → literals_len fields ≤ length bs
unfolding encode_section
encode_section-literals_len fields room bs h =
    let (n, e, k) = >>=_done (section_len fields) _ bs h in
    let lines = encode_fields fields (room - 2) in
    let eq : 0 ∷ 0 ∷ lines ≡ bs = ground (arith, k) in
    subst (λ t. literals_len fields ≤ length t) eq
      (omega (arith, literals_len_le fields (room - 2)))
