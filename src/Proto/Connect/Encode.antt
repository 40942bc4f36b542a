-- ===== src/Proto/Connect/Encode.antt =====
-- The encoders of src/proto/connect.c. A NULL `origin` or `protocol_token` is the empty list.
use wtquic.Base.{
  ℕ, ◌+◌, ◌/◌, ◌%◌, Bool, true, false, not, ◌||◌, List, [], ◌∷◌, Option, some, none, ltb,
  if◌then◌else◌,
}
use wtquic.Proto.Varint
use wtquic.Proto.Varint.{Result, done, fail}
use wtquic.Proto.SfString.{string_valid}
use wtquic.Proto.SfString.Write.{encode_item, encode_list}
use wtquic.Proto.Qpack.Section.{Field, encode_section}
use wtquic.Proto.Connect.{
  buffer, malformed, Outcome, ok, err, ◌>>=◌, is_empty, value_is_token, value_is_valid,
}
use wtquic.Proto.Connect.Request.{
  connect, https, protocol_token, method_name, scheme_name, authority_name, path_name,
  protocol_name, origin_name, d02_marker_name, wtap_name,
}
use wtquic.Proto.Connect.Response.{status_name, rmark_name, wtp_name}

abbrev pub sf_staging : ℕ
sf_staging = 1024

-- A writer's BUFFER stays BUFFER, its other failures are MALFORMED.
abbrev pub encoded : Result (List ℕ) → Outcome (List ℕ)
encoded (done bs) = ok bs
encoded (fail Varint.buffer) = err buffer
encoded (fail Varint.need_more) = err malformed
encoded (fail Varint.range) = err malformed
encoded (fail Varint.invalid) = err malformed

abbrev pub plain_field : List ℕ → List ℕ → Field
plain_field name value = record { name = name; value = value; never_index = false }

-- No protocol is empty or holds a byte that no string can.
unfoldable pub all_strings : List (List ℕ) → Bool
unfolding string_valid
all_strings [] = true
all_strings (p ∷ protocols) =
    let rest = all_strings protocols in if is_empty p || not (string_valid p) then false else rest

-- What `sf_staging` holds; nothing is read of it where there is no protocol.
unfoldable pub staged_list : List (List ℕ) → Outcome (List ℕ)
unfolding all_strings
staged_list [] = ok []
staged_list (p ∷ protocols) =
    if not (all_strings (p ∷ protocols))
    then err malformed
    else encoded (encode_list (p ∷ protocols) sf_staging)

abbrev pub token_or_default : List ℕ → List ℕ
token_or_default [] = protocol_token
token_or_default (c ∷ s) = c ∷ s

abbrev pub marker_one : List ℕ
marker_one = 0x31 ∷ []

-- A field that stands only under a condition.
abbrev pub field_if : Bool → Field → List Field → List Field
field_if true f fields = f ∷ fields
field_if false f fields = fields

unfoldable pub request_fields :
    List ℕ → List ℕ → List ℕ → List ℕ → Bool → Bool → List ℕ → List Field
request_fields authority path origin token emit_d02_marker has_protocols staged =
    plain_field method_name connect
    ∷ plain_field scheme_name https
    ∷ plain_field authority_name authority
    ∷ plain_field path_name path
    ∷ plain_field protocol_name token
    ∷ field_if (not (is_empty origin)) (plain_field origin_name origin) (
        field_if emit_d02_marker (plain_field d02_marker_name marker_one)
          (field_if has_protocols (plain_field wtap_name staged) []))

unfoldable pub encode_request_d02 :
    List ℕ → List ℕ → List ℕ → List (List ℕ) → List ℕ → Bool → ℕ → Outcome (List ℕ)
unfolding request_fields staged_list
encode_request_d02 authority path origin protocols token emit_d02_marker cap =
    if is_empty authority || is_empty path
    then err malformed
    else if not (value_is_token (token_or_default token))
    then err malformed
    else if not (value_is_valid authority)
        || not (value_is_valid path)
        || not (value_is_valid origin)
    then err malformed
    else (staged_list protocols >>= λ staged. encoded (
        encode_section
          (request_fields authority path origin (token_or_default token) emit_d02_marker
            (not (is_empty protocols)) staged)
          cap))

unfoldable pub encode_request_ex :
    List ℕ → List ℕ → List ℕ → List (List ℕ) → List ℕ → ℕ → Outcome (List ℕ)
unfolding encode_request_d02
encode_request_ex authority path origin protocols token cap =
    encode_request_d02 authority path origin protocols token false cap

unfoldable pub encode_request : List ℕ → List ℕ → List ℕ → List (List ℕ) → ℕ → Outcome (List ℕ)
unfolding encode_request_ex
encode_request authority path origin protocols cap =
    encode_request_ex authority path origin protocols [] cap

unfoldable pub staged_item : Option (List ℕ) → Outcome (List ℕ)
unfolding string_valid
staged_item none = ok []
staged_item (some s) =
    if is_empty s || not (string_valid s) then err malformed else encoded (encode_item s sf_staging)

abbrev pub selected? : Option (List ℕ) → Bool
selected? none = false
selected? (some s) = true

unfoldable pub code_text : ℕ → List ℕ
code_text status = (0x30 + status / 100) ∷ (0x30 + status / 10 % 10) ∷ (0x30 + status % 10) ∷ []

abbrev pub draft02 : List ℕ
draft02 = 0x64 ∷ 0x72 ∷ 0x61 ∷ 0x66 ∷ 0x74 ∷ 0x30 ∷ 0x32 ∷ []

unfoldable pub response_fields : ℕ → Bool → Bool → List ℕ → List Field
unfolding code_text
response_fields status emit_d02_marker has_selected staged =
    plain_field status_name (code_text status)
    ∷ field_if emit_d02_marker (plain_field rmark_name draft02)
        (field_if has_selected (plain_field wtp_name staged) [])

unfoldable pub encode_response_ex : ℕ → Option (List ℕ) → Bool → ℕ → Outcome (List ℕ)
unfolding response_fields staged_item
encode_response_ex status selected emit_d02_marker cap =
    if ltb status 100 || ltb 999 status
    then err malformed
    else (staged_item selected >>= λ staged.
        encoded
          (encode_section (response_fields status emit_d02_marker (selected? selected) staged) cap))

unfoldable pub encode_response : ℕ → Option (List ℕ) → ℕ → Outcome (List ℕ)
unfolding encode_response_ex
encode_response status selected cap = encode_response_ex status selected false cap
