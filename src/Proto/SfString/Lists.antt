-- ===== src/Proto/SfString/Lists.antt =====
-- The lists of strings of src/proto/sf_string.c: the parser reads what the writer wrote.
use wtquic.Base.{
  ℕ, zero, suc, ◌+◌, ◌-◌, ◌≤◌, ◌≡◌, refl, sym, ap, ◌∙◌, arith, Bool, true, false, inl, inr, List,
  [], ◌∷◌, ◌++◌, ◌==◌, length, length-append, All, append-nil,
}
use wtquic.Proto.Varint.{Result, done, fail}
use wtquic.Proto.SfString.{string_valid, skip_while, skip_sp, skip_ows, ◌>>=◌}
use wtquic.Proto.SfString.Fields.{parse_member, skip_params, params_loop, list_loop, parse_list}
use wtquic.Proto.SfString.Write.{
  encoded_item_len, escape, encode_item, list_len, write_list, encode_list, check_room,
}
use wtquic.Proto.SfString.Item.{encode_item_cases, length-encode_item, parse_member-string}

unfoldable pub quoted : List ℕ → List ℕ
quoted s = 0x22 ∷ (escape s ++ (0x22 ∷ []))

-- The members with `, ` between them.
unfoldable pub joined : List (List ℕ) → List ℕ
joined [] = []
joined (s ∷ []) = quoted s
joined (s ∷ t ∷ members) = quoted s ++ (0x2c ∷ 0x20 ∷ joined (t ∷ members))

-- The room that the strings of a list take in the parser's buffer.
abbrev pub text_len : List (List ℕ) → ℕ
text_len [] = 0
text_len (s ∷ members) = length s + text_len members

encode_item-quoted :
    (s : List ℕ) (cap : ℕ)
    → string_valid s ≡ true
    → encoded_item_len s ≤ cap
    → encode_item s cap ≡ done (quoted s)
unfolding quoted
encode_item-quoted s cap v h = elim (encode_item_cases s cap) [
  | inl (w, e) ↦ cc
  | inr (inl (w, k, e)) ↦ absurd (omega arith)
  | inr (inr (w, k, e)) ↦ e
]

length-quoted : (s : List ℕ) → length (quoted s) ≡ encoded_item_len s
unfolding quoted
length-quoted s = length-encode_item s

abbrev pub Valid : List ℕ → Type 0
Valid s = string_valid s ≡ true

abbrev Read : List ℕ → List ℕ → List (List ℕ) → ℕ → ℕ → Type 0
Read s t members need room =
    (write_list (s ∷ t ∷ members) room ≡ joined (s ∷ t ∷ members))
    × (length (joined (s ∷ t ∷ members)) ≡ need)
    × All Valid (s ∷ t ∷ members)

pub write_list-joined :
    (members : List (List ℕ)) (need room : ℕ)
    → list_len members ≡ done need
    → need ≤ room
    → (write_list members room ≡ joined members)
      × (length (joined members) ≡ need)
      × All Valid members
unfolding write_list joined list_len
write_list-joined [] need room h k = (refl, ground arith, tt)
write_list-joined (s ∷ []) need room h k =
    let v : Valid s = ground arith in
    let n : need ≡ encoded_item_len s = ground arith in
    (
      rw (encode_item-quoted s room v (omega (arith, n, k))) refl,
      omega (arith, length-quoted s, n),
      (v, tt),
    )
write_list-joined (s ∷ t ∷ members) need room h k =
    elim (list_len (t ∷ members))
        as (λ r. list_len (t ∷ members) ≡ r → Read s t members need room) [
          | done rest ↦ λ e.
              let v : Valid s = ground arith in
              let n : need ≡ encoded_item_len s + 2 + rest = ground arith in
              let (w, l, vs) =
                write_list-joined (t ∷ members) rest (room - encoded_item_len s - 2) e
                  (omega (arith, n, k)) in
              (
                rw (encode_item-quoted s room v (omega (arith, n, k)), length-quoted s, w) refl,
                omega (
                  arith,
                  length-append (quoted s) (0x2c ∷ 0x20 ∷ joined (t ∷ members)),
                  length-quoted s,
                  l,
                  n,
                ),
                (v, vs),
              )
          | fail st ↦ λ e. ground arith
        ]
      refl

joined-head :
    (s : List ℕ) (members : List (List ℕ)) → (tail : List ℕ) × (joined (s ∷ members) ≡ 0x22 ∷ tail)
unfolding joined quoted
joined-head s [] = (_, refl)
joined-head s (t ∷ members) = (_, refl)

suc-sub : (n : ℕ) → suc n - 1 ≡ n
suc-sub n = omega arith

suc-not-zero : (n : ℕ) → (suc n == 0) ≡ false
suc-not-zero n = ground arith

-- A member with nothing behind it, or with a separator.
parse_member-last :
    (s : List ℕ) (lenient : Bool) (room : ℕ)
    → Valid s
    → length s ≤ room
    → parse_member lenient (quoted s) room ≡ done (s, [])
unfolding quoted skip_params params_loop
parse_member-last s lenient room v r =
    ap (λ t. parse_member lenient (0x22 ∷ t) room) (sym (append-nil (escape s ++ (0x22 ∷ []))))
    ∙ parse_member-string s [] lenient room v r refl

parse_member-next :
    (s j : List ℕ) (lenient : Bool) (room : ℕ)
    → Valid s
    → length s ≤ room
    → parse_member lenient (quoted s ++ (0x2c ∷ 0x20 ∷ j)) room ≡ done (s, 0x2c ∷ 0x20 ∷ j)
unfolding quoted skip_params params_loop
parse_member-next s j lenient room v r =
    parse_member-string s (0x2c ∷ 0x20 ∷ j) lenient room v r refl

list_loop-last :
    (s : List ℕ) (lenient : Bool) (room slots fuel : ℕ)
    → Valid s
    → length s ≤ room
    → list_loop (suc fuel) lenient (quoted s) room (suc slots) ≡ done (s ∷ [])
unfolding list_loop quoted skip_ows skip_while
list_loop-last s lenient room slots fuel v r =
    rw (parse_member-last s lenient room v r) (rw (suc-not-zero slots) refl)

list_loop-next :
    (s tail : List ℕ) (lenient : Bool) (room slots fuel : ℕ)
    → Valid s
    → length s ≤ room
    → list_loop (suc fuel) lenient (quoted s ++ (0x2c ∷ 0x20 ∷ 0x22 ∷ tail)) room (suc slots)
      ≡ (list_loop fuel lenient (0x22 ∷ tail) (room - length s) slots >>= (λ vs. done (s ∷ vs)))
unfolding list_loop quoted skip_ows skip_while
list_loop-next s tail lenient room slots fuel v r =
    rw (parse_member-next s (0x22 ∷ tail) lenient room v r)
      (rw (suc-not-zero slots, suc-sub slots) refl)

list_loop-joined :
    (members : List (List ℕ)) (s : List ℕ) (lenient : Bool) (room slots fuel : ℕ)
    → All Valid (s ∷ members)
    → text_len (s ∷ members) ≤ room
    → length (s ∷ members) ≤ slots
    → length (s ∷ members) ≤ fuel
    → list_loop fuel lenient (joined (s ∷ members)) room slots ≡ done (s ∷ members)
unfolding joined
list_loop-joined members s lenient room zero fuel v r m f = absurd (omega arith)
list_loop-joined members s lenient room (suc slots) zero v r m f = absurd (omega arith)
list_loop-joined [] s lenient room (suc slots) (suc fuel) (v, vs) r m f =
    list_loop-last s lenient room slots fuel v (omega arith)
list_loop-joined (t ∷ members) s lenient room (suc slots) (suc fuel) (v, vs) r m f =
    let (tail, h) = joined-head t members in
    ap (λ j. list_loop (suc fuel) lenient (quoted s ++ (0x2c ∷ 0x20 ∷ j)) room (suc slots)) h
    ∙ list_loop-next s tail lenient room slots fuel v (omega arith)
    ∙ rw
        (
          ← h,
          list_loop-joined members t lenient (room - length s) slots fuel vs (omega arith)
              (omega arith) (omega arith),
        )
        refl

joined-long : (members : List (List ℕ)) → length members ≤ length (joined members)
unfolding joined quoted
joined-long [] = omega arith
joined-long (s ∷ []) = omega arith
joined-long (s ∷ t ∷ members) = omega (
  arith,
  joined-long (t ∷ members),
  length-append (quoted s) (0x2c ∷ 0x20 ∷ joined (t ∷ members)),
)

skip_sp-joined :
    (s : List ℕ) (members : List (List ℕ)) → skip_sp (joined (s ∷ members)) ≡ joined (s ∷ members)
unfolding skip_sp skip_while
skip_sp-joined s members = let (tail, h) = joined-head s members in rw h refl

pub check_room_lem :
    (cap : ℕ) (need : Result ℕ) (cs bs : List ℕ)
    → check_room cap need cs ≡ done bs
    → (n : ℕ) × (need ≡ done n) × (n ≤ cap) × (bs ≡ cs)
unfolding check_room
check_room_lem cap (fail st) cs bs e = cc
check_room_lem cap (done n) cs bs e = (n, refl, ground arith, ground arith)

parse_list-joined :
    (s : List ℕ) (members : List (List ℕ)) (lenient : Bool) (room slots : ℕ)
    → All Valid (s ∷ members)
    → text_len (s ∷ members) ≤ room
    → length (s ∷ members) ≤ slots
    → parse_list (joined (s ∷ members)) lenient room slots ≡ done (s ∷ members)
unfolding parse_list skip_sp skip_while
parse_list-joined s members lenient room slots v r m =
    ap (λ j. list_loop (length (joined (s ∷ members))) lenient j room slots)
      (skip_sp-joined s members)
    ∙ list_loop-joined members s lenient room slots (length (joined (s ∷ members))) v r m
        (joined-long (s ∷ members))

-- What the list writer writes has the announced length and fits the buffer, and the parser,
-- lenient or not, reads the members back from it in their order, with room for their texts and
-- for their number.
pub parse_list-encode_list :
    (members : List (List ℕ)) (cap : ℕ) (bs : List ℕ) (lenient : Bool) (room slots : ℕ)
    → encode_list members cap ≡ done bs
    → text_len members ≤ room
    → length members ≤ slots
    → (list_len members ≡ done (length bs))
      × (length bs ≤ cap)
      × (parse_list bs lenient room slots ≡ done members)
unfolding encode_list
parse_list-encode_list [] cap bs lenient room slots e r m = cc
parse_list-encode_list (s ∷ members) cap bs lenient room slots e r m =
    let (need, l, h, b) =
      check_room_lem cap (list_len (s ∷ members)) (write_list (s ∷ members) cap) bs e in
    let (w, n, v) = write_list-joined (s ∷ members) need cap l h in
    let p : bs ≡ joined (s ∷ members) = b ∙ w in
    (rw (p, n) l, rw (p, n) h, rw p (parse_list-joined s members lenient room slots v r m))
