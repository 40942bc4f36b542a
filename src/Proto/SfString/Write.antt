-- ===== src/Proto/SfString/Write.antt =====
-- The writers of src/proto/sf_string.c, and the choice of a subprotocol.
use wtquic.Base.{
  ℕ, suc, ◌+◌, ◌-◌, Bool, true, false, not, ◌&&◌, List, [], ◌∷◌, ◌++◌, Option, some, none, ltb,
  ◌==◌, if◌then◌else◌, length,
}
use wtquic.Proto.Varint.{Status, Result, done, fail, buffer}
use wtquic.Proto.Frame.{written}
use wtquic.Proto.SfString.{is_special, string_valid}

unfoldable pub item_len : List ℕ → ℕ
item_len [] = 0
item_len (c ∷ s) = (if is_special c then 2 else 1) + item_len s

unfoldable pub encoded_item_len : List ℕ → ℕ
unfolding item_len
encoded_item_len s = 2 + item_len s

-- The loop of `encode_item`: the text with its escapes.
unfoldable pub escape : List ℕ → List ℕ
escape [] = []
escape (c ∷ s) = if is_special c then (0x5c ∷ c ∷ escape s) else (c ∷ escape s)

unfoldable pub encode_item : List ℕ → ℕ → Result (List ℕ)
unfolding encoded_item_len escape string_valid
encode_item s cap =
    if not (string_valid s)
    then fail Status.invalid
    else if ltb cap (encoded_item_len s)
    then fail buffer
    else done (0x22 ∷ (escape s ++ (0x22 ∷ [])))

abbrev pub add_len : ℕ → Result ℕ → Result ℕ
add_len n (done rest) = done (n + rest)
add_len n (fail st) = fail st

-- The first loop of `encode_list`: the length, or MALFORMED.
unfoldable pub list_len : List (List ℕ) → Result ℕ
unfolding encoded_item_len string_valid
list_len [] = done 0
list_len (s ∷ []) = if not (string_valid s) then fail Status.invalid else done (encoded_item_len s)
list_len (s ∷ t ∷ members) =
    let rest = list_len (t ∷ members) in
    if not (string_valid s) then fail Status.invalid else add_len (encoded_item_len s + 2) rest

-- The second loop, with `room` bytes of the buffer left.
unfoldable pub write_list : List (List ℕ) → ℕ → List ℕ
unfolding encode_item
write_list [] room = []
write_list (s ∷ []) room = written (encode_item s room)
write_list (s ∷ t ∷ members) room =
    let item = written (encode_item s room) in
    item ++ (0x2c ∷ 0x20 ∷ write_list (t ∷ members) (room - length item - 2))

-- The length test between the loops.
unfoldable pub check_room : ℕ → Result ℕ → List ℕ → Result (List ℕ)
check_room cap (fail st) bs = fail st
check_room cap (done need) bs = if ltb cap need then fail buffer else done bs

unfoldable pub encode_list : List (List ℕ) → ℕ → Result (List ℕ)
unfolding list_len write_list check_room
encode_list [] cap = fail Status.invalid
encode_list (s ∷ members) cap =
    check_room cap (list_len (s ∷ members)) (write_list (s ∷ members) cap)

-- Equal lengths and `memcmp(...) == 0`
unfoldable pub text_eq : List ℕ → List ℕ → Bool
text_eq [] [] = true
text_eq [] (d ∷ t) = false
text_eq (c ∷ s) [] = false
text_eq (c ∷ s) (d ∷ t) = (c == d) && text_eq s t

-- The inner loop.
unfoldable pub is_supported : List ℕ → List (List ℕ) → Bool
unfolding text_eq
is_supported s [] = false
is_supported s (t ∷ supported) =
    let rest = is_supported s supported in if text_eq s t then true else rest

-- The outer loop, from index `i` on; `none` is the answer `false`.
unfoldable pub select_from : ℕ → List (List ℕ) → List (List ℕ) → Option ℕ
unfolding is_supported
select_from i [] supported = none
select_from i (s ∷ offered) supported =
    let rest = select_from (suc i) offered supported in
    if is_supported s supported then some i else rest

unfoldable pub select : List (List ℕ) → List (List ℕ) → Option ℕ
unfolding select_from
select offered supported = select_from 0 offered supported
