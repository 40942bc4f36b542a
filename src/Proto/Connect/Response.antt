-- ===== src/Proto/Connect/Response.antt =====
-- Responses in src/proto/connect.c, and the choice of a protocol.
pub mod Sound
use wtquic.Base.{
  ℕ, zero, suc, ◌+◌, ◌-◌, ◌*◌, ◌%◌, ◌^◌, Bool, true, false, not, ◌&&◌, ◌||◌, List, [], ◌∷◌, Option,
  some, none, ltb, leb, ◌==◌, if◌then◌else◌,
}
use wtquic.Proto.Varint
use wtquic.Proto.Varint.{Result, done, fail}
use wtquic.Proto.SfString.Fields.{parse_item}
use wtquic.Proto.SfString.Write.{select}
use wtquic.Proto.Qpack.Section.{Field}
use wtquic.Proto.Connect.{
  Status, buffer, malformed, no_protocol, Outcome, ok, err, ◌>>=◌, Opts, is_empty, name_is,
  is_pseudo, walk_init,
}
use wtquic.Proto.Connect.Request.{put, present, value_or_empty}

-- `wtq_connect_resp_t`; `protocol` is `none` where `has_protocol` is false.
pub record Resp : Type 0 where
  pub status : ℕ
  pub protocol : Option (List ℕ)
  pub d02_marker : List ℕ
  pub has_d02_marker : Bool

unfoldable pub status_is_success : ℕ → Bool
status_is_success status = leb 200 status && leb status 299

-- The local pointers of `wtq_connect_decode_response`.
pub record Slots : Type 0 where
  pub status : Option Field
  pub wtp : Option Field
  pub rmark : Option Field

abbrev pub no_slots : Slots
no_slots = record { status = none; wtp = none; rmark = none }

abbrev pub status_name : List ℕ
status_name = 0x3a ∷ 0x73 ∷ 0x74 ∷ 0x61 ∷ 0x74 ∷ 0x75 ∷ 0x73 ∷ []

abbrev pub rmark_name : List ℕ
rmark_name =
    0x73 ∷ 0x65 ∷ 0x63 ∷ 0x2d ∷ 0x77 ∷ 0x65 ∷ 0x62 ∷ 0x74 ∷ 0x72 ∷ 0x61 ∷ 0x6e ∷ 0x73 ∷ 0x70 ∷ 0x6f
    ∷ 0x72 ∷ 0x74 ∷ 0x2d ∷ 0x68 ∷ 0x74 ∷ 0x74 ∷ 0x70 ∷ 0x33 ∷ 0x2d ∷ 0x64 ∷ 0x72 ∷ 0x61 ∷ 0x66
    ∷ 0x74 ∷ []

abbrev pub wtp_name : List ℕ
wtp_name = 0x77 ∷ 0x74 ∷ 0x2d ∷ 0x70 ∷ 0x72 ∷ 0x6f ∷ 0x74 ∷ 0x6f ∷ 0x63 ∷ 0x6f ∷ 0x6c ∷ []

unfoldable pub place : Slots → Field → Outcome Slots
unfolding name_is is_pseudo
place s f =
    if is_pseudo f
    then (if not (name_is f status_name)
        then err malformed
        else put s.status (record s { status = some f }))
    else if name_is f rmark_name
    then put s.rmark (record s { rmark = some f })
    else if name_is f wtp_name
    then put s.wtp (record s { wtp = some f })
    else ok s

-- The loop over the fields.
unfoldable pub collect : Slots → List Field → Outcome Slots
unfolding place
collect s [] = ok s
collect s (f ∷ fields) = place s f >>= λ s'. collect s' fields

-- The loop over the digits of the code.
unfoldable pub code_loop : ℕ → List ℕ → Outcome ℕ
code_loop code [] = ok code
code_loop code (c ∷ v) =
    let rest = code_loop ((code * 10 + (c - 0x30)) % 2 ^ 16) v in
    if ltb c 0x30 || ltb 0x39 c then err malformed else rest

-- `value_len != 3` first.
unfoldable pub code_digits : List ℕ → Outcome ℕ
unfolding code_loop
code_digits (a ∷ b ∷ c ∷ []) = code_loop 0 (a ∷ b ∷ c ∷ [])
code_digits (a ∷ b ∷ c ∷ d ∷ v) = err malformed
code_digits (a ∷ b ∷ []) = err malformed
code_digits (a ∷ []) = err malformed
code_digits [] = err malformed

unfoldable pub status_code : Option Field → Outcome ℕ
unfolding code_digits
status_code none = err malformed
status_code (some status) = do
  code ← code_digits status.value
  if ltb code 100 then err malformed else ok code

-- The rule for `wt-protocol`: a malformed or empty one is ignored.
unfoldable pub chosen : Result (List ℕ) → Outcome (Option (List ℕ))
chosen (fail Varint.buffer) = err buffer
chosen (fail Varint.need_more) = ok none
chosen (fail Varint.range) = ok none
chosen (fail Varint.invalid) = ok none
chosen (done v) = ok (if is_empty v then none else some v)

unfoldable pub response_protocol : Opts → ℕ → Option Field → Outcome (Option (List ℕ))
unfolding chosen
response_protocol opts sf_room none = ok none
response_protocol opts sf_room (some wtp) =
    chosen (parse_item wtp.value opts.lenient_sf_tokens sf_room)

unfoldable pub decode_response : List ℕ → Opts → ℕ → Outcome Resp
unfolding collect status_code response_protocol
decode_response section opts scratch_cap = do
  w ← walk_init section scratch_cap false
  s ← collect no_slots w.fields
  code ← status_code s.status
  protocol ← response_protocol opts w.sf_room s.wtp
  ok (record {
    status = code;
    protocol = protocol;
    d02_marker = value_or_empty s.rmark;
    has_d02_marker = present s.rmark;
  })

abbrev pub index_or_none : Option ℕ → Outcome ℕ
index_or_none none = err no_protocol
index_or_none (some i) = ok i

unfoldable pub select_protocol : List (List ℕ) → List (List ℕ) → Outcome ℕ
select_protocol offered supported = index_or_none (select offered supported)
