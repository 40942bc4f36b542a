-- ===== src/Proto/SfString/Tests.antt =====
-- Runs of src/proto/sf_string.c, and instances of what is proved of it.
use wtquic.Base.{
  ℕ, ◌≤◌, ◌<◌, ◌≡◌, refl, arith, true, false, List, [], ◌∷◌, some, none, get_elem?, length, All,
  ◌⊎◌,
}
use wtquic.Proto.Varint.{done, fail, buffer, Status}
use wtquic.Proto.SfString.Fields.{parse_item, parse_list}
use wtquic.Proto.SfString.Write.{encoded_item_len, encode_item, list_len, encode_list, select}
use wtquic.Proto.SfString.Item.{IsPrintable, parse_item-encode_item}
use wtquic.Proto.SfString.Lists.{parse_list-encode_list}
use wtquic.Proto.SfString.Choice.{Listed, select_lem}

-- a"
abbrev first : List ℕ
first = 0x61 ∷ 0x22 ∷ []

-- b
abbrev second : List ℕ
second = 0x62 ∷ []

abbrev offers : List (List ℕ)
offers = first ∷ second ∷ []

-- "a\"", "b"
abbrev offers_text : List ℕ
offers_text = 0x22 ∷ 0x61 ∷ 0x5c ∷ 0x22 ∷ 0x22 ∷ 0x2c ∷ 0x20 ∷ 0x22 ∷ 0x62 ∷ 0x22 ∷ []

encode_offers : encode_list offers 32 ≡ done offers_text
unfolding encode_list
encode_offers = refl

-- "b";q=1.5, the parameter skipped
parse_parameter :
    parse_item (0x22 ∷ 0x62 ∷ 0x22 ∷ 0x3b ∷ 0x71 ∷ 0x3d ∷ 0x31 ∷ 0x2e ∷ 0x35 ∷ []) false 8
    ≡ done second
unfolding parse_item
parse_parameter = refl

-- A token is no string, and is taken for one where the parser is lenient.
parse_token : parse_item second false 8 ≡ fail Status.invalid
unfolding parse_item
parse_token = refl

parse_token_taken : parse_item second true 8 ≡ done second
unfolding parse_item
parse_token_taken = refl

parse_trailing_comma : parse_list (0x62 ∷ 0x2c ∷ []) true 8 8 ≡ fail Status.invalid
unfolding parse_list wtquic.Proto.SfString.skip_sp
parse_trailing_comma = refl

parse_item-encode_item_example :
    ((¬ All IsPrintable first) × (encode_item first 8 ≡ fail Status.invalid))
    ⊎ (All IsPrintable first × (8 < encoded_item_len first) × (encode_item first 8 ≡ fail buffer))
    ⊎ (All IsPrintable first
        × ((bs : List ℕ) × (encode_item first 8 ≡ done bs)
            × (length bs ≡ encoded_item_len first)
            × (length bs ≤ 8)
            × (parse_item bs false 2 ≡ done first)))
parse_item-encode_item_example = parse_item-encode_item first 8 false 2 (omega arith)

parse_list-encode_list_example :
    (list_len offers ≡ done (length offers_text))
    × (length offers_text ≤ 32)
    × (parse_list offers_text false 3 2 ≡ done offers)
parse_list-encode_list_example =
    parse_list-encode_list offers 32 offers_text false 3 2 encode_offers (omega arith) (omega arith)

select_lem_example :
    ((k : ℕ) × (s : List ℕ) × (select offers (second ∷ []) ≡ some k)
      × (get_elem? offers k ≡ some s)
      × Listed s (second ∷ [])
      × ((j : ℕ) (t : List ℕ) → j < k → get_elem? offers j ≡ some t → ¬ Listed t (second ∷ [])))
    ⊎ ((select offers (second ∷ []) ≡ none)
        × ((j : ℕ) (t : List ℕ) → get_elem? offers j ≡ some t → ¬ Listed t (second ∷ [])))
select_lem_example = select_lem offers (second ∷ [])
