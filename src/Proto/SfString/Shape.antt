-- ===== src/Proto/SfString/Shape.antt =====
-- The bytes that the writers of src/proto/sf_string.c leave: a quote at either end, and printable
-- ones between.
use wtquic.Base.{
  ℕ, ◌≡◌, refl, sym, subst, ap, ◌∙◌, arith, inl, inr, List, [], ◌∷◌, ◌++◌, append_assoc, All,
  All-append, Bool-cases,
}
use wtquic.Proto.Varint.{done, done-injective}
use wtquic.Proto.SfString.{is_special}
use wtquic.Proto.SfString.Item.{IsPrintable, string_valid→All, encode_item_cases}
use wtquic.Proto.SfString.Lists.{Valid, quoted, joined, write_list-joined, check_room_lem}
use wtquic.Proto.SfString.Write.{escape, encode_item, encode_list, list_len, write_list}

pub record IsQuoted (bs : List ℕ) : Type 0 where
  pub inner : List ℕ
  pub bytes : bs ≡ 0x22 ∷ (inner ++ (0x22 ∷ []))
  pub printable : All IsPrintable inner

escape-IsPrintable : (s : List ℕ) → All IsPrintable s → All IsPrintable (escape s)
unfolding escape
escape-IsPrintable [] h = tt
escape-IsPrintable (c ∷ s) (p, h) = elim (Bool-cases (is_special c)) [
  | inl e ↦ rw e ((omega arith, omega arith), (p, escape-IsPrintable s h))
  | inr e ↦ rw e (p, escape-IsPrintable s h)
]

quoted-IsQuoted : (s : List ℕ) → Valid s → IsQuoted (quoted s)
unfolding quoted
quoted-IsQuoted s v = record {
  inner = escape s;
  bytes = refl;
  printable = escape-IsPrintable s (string_valid→All s v);
}

joined-IsQuoted :
    (s : List ℕ) (members : List (List ℕ))
    → All Valid (s ∷ members)
    → IsQuoted (joined (s ∷ members))
unfolding joined quoted
joined-IsQuoted s [] (v, vs) = quoted-IsQuoted s v
joined-IsQuoted s (t ∷ members) (v, vs) =
    let i = joined-IsQuoted t members vs in
    let printable = escape-IsPrintable s (string_valid→All s v) in
    let between = 0x22 ∷ 0x2c ∷ 0x20 ∷ 0x22 ∷ i.inner in
    record {
      inner = escape s ++ between;
      bytes =
          ap (λ t. 0x22 ∷ ((escape s ++ (0x22 ∷ [])) ++ (0x2c ∷ 0x20 ∷ t))) i.bytes
          ∙ ap (λ t. 0x22 ∷ t)
              (append_assoc (escape s) (0x22 ∷ []) (0x2c ∷ 0x20 ∷ 0x22 ∷ (i.inner ++ (0x22 ∷ [])))
                ∙ sym (append_assoc (escape s) between (0x22 ∷ [])));
      printable = All-append IsPrintable (escape s) between printable (
        (omega arith, omega arith),
        (
          (omega arith, omega arith),
          ((omega arith, omega arith), ((omega arith, omega arith), i.printable)),
        ),
      );
    }

pub encode_list-IsQuoted :
    (members : List (List ℕ)) (room : ℕ) (bs : List ℕ)
    → encode_list members room ≡ done bs
    → IsQuoted bs
unfolding encode_list
encode_list-IsQuoted [] room bs e = absurd cc
encode_list-IsQuoted (s ∷ members) room bs e =
    let (need, l, h, b) =
      check_room_lem room (list_len (s ∷ members)) (write_list (s ∷ members) room) bs e in
    let (w, n, v) = write_list-joined (s ∷ members) need room l h in
    subst IsQuoted (sym (b ∙ w)) (joined-IsQuoted s members v)

pub encode_item-IsQuoted :
    (s : List ℕ) (room : ℕ) (bs : List ℕ) → encode_item s room ≡ done bs → IsQuoted bs
unfolding quoted
encode_item-IsQuoted s room bs h = elim (encode_item_cases s room) [
  | inl (w, e) ↦ absurd cc
  | inr (inl (w, k, e)) ↦ absurd cc
  | inr (inr (w, k, e)) ↦ subst IsQuoted (done-injective (sym e ∙ h)) (quoted-IsQuoted s w)
]
