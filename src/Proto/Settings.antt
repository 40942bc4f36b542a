-- ===== src/Proto/Settings.antt =====
-- src/proto/h3_settings.h and h3_settings.c: the SETTINGS payload. A profile set is a `uint64_t`
-- with one bit for each profile.
pub mod Encode
pub mod Select
mod Tests
use wtquic.Base.{
  ℕ, zero, suc, ◌+◌, ◌-◌, ◌%◌, ◌^◌, bit_and, Bool, true, false, not, ◌&&◌, ◌||◌, List, [], ◌∷◌,
  ◌++◌, Option, some, none, ltb, leb, ◌==◌, if◌then◌else◌, length, take, drop,
}
use wtquic.Proto.Varint
use wtquic.Proto.Varint.{Status, Result, done, fail, buffer, need_more, varint_len}
use wtquic.Proto.Frame.{written, frame_header_len, encode_header}

abbrev pub set_qpack_max_table_capacity : ℕ
set_qpack_max_table_capacity = 0x01

abbrev pub set_max_field_section_size : ℕ
set_max_field_section_size = 0x06

abbrev pub set_qpack_blocked_streams : ℕ
set_qpack_blocked_streams = 0x07

abbrev pub set_enable_connect_protocol : ℕ
set_enable_connect_protocol = 0x08

abbrev pub set_h3_datagram : ℕ
set_h3_datagram = 0x33

abbrev pub set_wt_enabled : ℕ
set_wt_enabled = 0x2c7cf000

abbrev pub set_wt_max_sessions_d13 : ℕ
set_wt_max_sessions_d13 = 0x14e9cd29

abbrev pub set_wt_max_sessions_d07 : ℕ
set_wt_max_sessions_d07 = 0xc671706a

abbrev pub set_enable_webtransport_leg : ℕ
set_enable_webtransport_leg = 0x2b603742

-- `wtq_h3_settings_t`. A `has_` flag with its value is one field: `none` where the flag is not
-- set and the value is 0.
pub record Settings : Type 0 where
  pub qpack_max_table_capacity : Option ℕ
  pub max_field_section_size : Option ℕ
  pub qpack_blocked_streams : Option ℕ
  pub enable_connect_protocol : Option ℕ
  pub h3_datagram : Option ℕ
  pub wt_enabled : Option ℕ
  pub wt_max_sessions_d13 : Option ℕ
  pub wt_max_sessions_d07 : Option ℕ
  pub enable_webtransport_leg : Option ℕ
  pub unknown_count : ℕ

abbrev pub no_settings : Settings
no_settings = record {
  qpack_max_table_capacity = none;
  max_field_section_size = none;
  qpack_blocked_streams = none;
  enable_connect_protocol = none;
  h3_datagram = none;
  wt_enabled = none;
  wt_max_sessions_d13 = none;
  wt_max_sessions_d07 = none;
  enable_webtransport_leg = none;
  unknown_count = 0;
}

unfoldable pub setting_is_h2_reserved : ℕ → Bool
setting_is_h2_reserved id = leb 0x02 id && leb id 0x05

-- The outputs of a call whose status is not looked at: `before` where it writes nothing.
abbrev pub or_unchanged : Result (ℕ × ℕ) → ℕ × ℕ → ℕ × ℕ
or_unchanged (done out) before = out
or_unchanged (fail s) before = before

-- The loop over the prefix, of which `src` is what stands at `off`. A round takes a byte at
-- least where the prefix is well formed, so the length of the prefix is fuel enough.
unfoldable pub seen_loop : ℕ → List ℕ → ℕ → Bool
seen_loop zero src id = false
seen_loop (suc fuel) [] id = false
seen_loop (suc fuel) (b ∷ src) id =
    let (prev_id, c) = or_unchanged (Varint.decode (b ∷ src)) (0, 0) in
    let after_id = drop c (b ∷ src) in
    let (prev_value, c') = or_unchanged (Varint.decode after_id) (0, c) in
    let rest = seen_loop fuel (drop c' after_id) id in if prev_id == id then true else rest

unfoldable pub setting_seen_before : List ℕ → ℕ → ℕ → Bool
unfolding seen_loop
setting_seen_before payload prefix_len id = seen_loop prefix_len (take prefix_len payload) id

-- The `switch` over the identifier.
unfoldable pub store_setting : Settings → ℕ → ℕ → Result Settings
store_setting s id value =
    if id == set_qpack_max_table_capacity
    then done (record s { qpack_max_table_capacity = some value })
    else if id == set_max_field_section_size
    then done (record s { max_field_section_size = some value })
    else if id == set_qpack_blocked_streams
    then done (record s { qpack_blocked_streams = some value })
    else if id == set_enable_connect_protocol
    then (if ltb 1 value
        then fail Status.invalid
        else done (record s { enable_connect_protocol = some value }))
    else if id == set_h3_datagram
    then (if ltb 1 value then fail Status.invalid else done (record s { h3_datagram = some value }))
    else if id == set_wt_enabled
    then (if ltb 1 value then fail Status.invalid else done (record s { wt_enabled = some value }))
    else if id == set_wt_max_sessions_d13
    then done (record s { wt_max_sessions_d13 = some value })
    else if id == set_wt_max_sessions_d07
    then done (record s { wt_max_sessions_d07 = some value })
    else if id == set_enable_webtransport_leg
    then (if ltb 1 value
        then fail Status.invalid
        else done (record s { enable_webtransport_leg = some value }))
    else done (record s { unknown_count = s.unknown_count + 1 })

-- The checks of one identifier and its store.
unfoldable pub accept_setting : List ℕ → ℕ → ℕ → ℕ → Settings → Result Settings
unfolding setting_is_h2_reserved setting_seen_before store_setting
accept_setting payload id_off id value s =
    if setting_is_h2_reserved id
    then fail Status.invalid
    else if setting_seen_before payload id_off id
    then fail Status.invalid
    else store_setting s id value

infixl 5 ◌>>=◌
abbrev pub ◌>>=◌ : {A B : Type 0} → Result A → (A → Result B) → Result B
done a >>= f = f a
fail s >>= f = fail s

-- `if (st != WTQ_VARINT_OK) return WTQ_H3_SETTINGS_NEED_MORE;`
abbrev pub or_need_more : Result (ℕ × ℕ) → Result (ℕ × ℕ)
or_need_more (done out) = done out
or_need_more (fail s) = fail need_more

-- `while (off < len)`. `buffer` is no answer of the decoder: the fuel ran out.
unfoldable pub decode_loop : ℕ → List ℕ → ℕ → Settings → Result Settings
unfolding accept_setting
decode_loop zero payload off s = if ltb off (length payload) then fail buffer else done s
decode_loop (suc fuel) payload off s =
    let round : Result Settings = (do
      (id, c) ← or_need_more (Varint.decode (drop off payload))
      (value, c') ← or_need_more (Varint.decode (drop (off + c) payload))
      s' ← accept_setting payload off id value s
      decode_loop fuel payload (off + c + c') s') in
    if ltb off (length payload) then round else done s

-- A round takes two bytes at least.
unfoldable pub decode : List ℕ → Result Settings
unfolding decode_loop
decode payload = decode_loop (length payload) payload 0 no_settings

pub data Profile : Type 0 where
  current d13_14_compat d02_rfc9297_compat : Profile

unfoldable pub profile_bit : Profile → ℕ
profile_bit Profile.current = 0x1
profile_bit Profile.d13_14_compat = 0x2
profile_bit Profile.d02_rfc9297_compat = 0x4

abbrev pub profiles_all : ℕ
profiles_all = 0x7

-- `wtq_h3_settings_encode_cfg_t`
pub record EncodeConfig : Type 0 where
  pub enable_connect_protocol : Bool
  pub wt_profiles : ℕ

-- `set & mask` as a test
abbrev pub has_bit : ℕ → ℕ → Bool
has_bit set mask = not (bit_and set mask == 0)

-- The identifiers and values of `build_out_settings`, from a masked set that is not empty.
unfoldable pub out_settings_for : Bool → ℕ → List (ℕ × ℕ)
out_settings_for connect profiles =
    (set_qpack_max_table_capacity, 0)
    ∷ (set_qpack_blocked_streams, 0)
    ∷ ((if connect then (set_enable_connect_protocol, 1) ∷ [] else [])
        ++ ((set_h3_datagram, 1)
            ∷ ((if has_bit profiles 0x2 then (set_wt_max_sessions_d13, 1) ∷ [] else [])
                ++ ((if has_bit profiles 0x4 then (set_enable_webtransport_leg, 1) ∷ [] else [])
                    ++ (if has_bit profiles 0x1 then (set_wt_enabled, 1) ∷ [] else [])))))

unfoldable pub build_out_settings : EncodeConfig → List (ℕ × ℕ)
unfolding out_settings_for
build_out_settings cfg =
    let masked = bit_and cfg.wt_profiles profiles_all in
    out_settings_for cfg.enable_connect_protocol (if masked == 0 then 0x1 else masked)

unfoldable pub total_len : List (ℕ × ℕ) → ℕ
total_len [] = 0
total_len ((id, value) ∷ rest) = varint_len id + varint_len value + total_len rest

unfoldable pub payload_len : EncodeConfig → ℕ
unfolding build_out_settings total_len
payload_len cfg = total_len (build_out_settings cfg)

-- The encoding loop, with `room` bytes of the buffer left.
unfoldable pub encode_settings : List (ℕ × ℕ) → ℕ → List ℕ
encode_settings [] room = []
encode_settings ((id, value) ∷ rest) room =
    let head = written (Varint.encode id room) in
    let body = written (Varint.encode value (room - length head)) in
    head ++ (body ++ encode_settings rest (room - length head - length body))

unfoldable pub encode_payload : EncodeConfig → ℕ → Result (List ℕ)
unfolding payload_len build_out_settings encode_settings
encode_payload cfg cap =
    if ltb cap (payload_len cfg)
    then fail buffer
    else done (encode_settings (build_out_settings cfg) cap)

abbrev pub frame_settings : ℕ
frame_settings = 0x04

unfoldable pub encode_frame : EncodeConfig → ℕ → Result (List ℕ)
unfolding payload_len encode_payload
encode_frame cfg cap =
    let body_len = payload_len cfg in
    if ltb cap (frame_header_len frame_settings body_len + body_len)
    then fail buffer
    else let head = written (encode_header frame_settings body_len cap) in
      done (head ++ written (encode_payload cfg (cap - length head)))

-- The precedence of the profiles, newest draft first.
abbrev pub wt_precedence : List Profile
wt_precedence = Profile.current ∷ Profile.d13_14_compat ∷ Profile.d02_rfc9297_compat ∷ []

-- `has_x && x == 1`
abbrev pub is_one : Option ℕ → Bool
is_one none = false
is_one (some value) = value == 1

unfoldable pub peer_advertises : Settings → Profile → Bool
peer_advertises peer Profile.current = is_one peer.wt_enabled
peer_advertises peer Profile.d13_14_compat = elim (peer.wt_max_sessions_d13) [
  | none ↦ false
  | some value ↦ ltb 0 value
]
peer_advertises peer Profile.d02_rfc9297_compat =
    is_one peer.enable_webtransport_leg && is_one peer.h3_datagram

-- The two `continue`s over the requirements that CURRENT and D13/14 share.
unfoldable pub shared_requirements : Settings → Bool → Profile → Bool
shared_requirements peer peer_is_server Profile.d02_rfc9297_compat = true
shared_requirements peer peer_is_server _ =
    is_one peer.h3_datagram && not (peer_is_server && not (is_one peer.enable_connect_protocol))

-- The loop over the precedence.
unfoldable pub select_loop : List Profile → Settings → Bool → ℕ → Option Profile
unfolding shared_requirements peer_advertises profile_bit
select_loop [] peer peer_is_server set = none
select_loop (p ∷ rest) peer peer_is_server set =
    let next = select_loop rest peer peer_is_server set in
    if bit_and set (profile_bit p) == 0
    then next
    else if not (shared_requirements peer peer_is_server p)
    then next
    else if not (peer_advertises peer p)
    then next
    else some p

-- `false` is `none`; the pointers are there.
unfoldable pub select_profile : Settings → Bool → ℕ → Option Profile
unfolding select_loop
select_profile peer peer_is_server set = select_loop wt_precedence peer peer_is_server set

unfoldable pub peer_supports_wt : Settings → Bool → Profile → Bool
unfolding select_profile
peer_supports_wt peer peer_is_server profile =
    elim (select_profile peer peer_is_server (profile_bit profile)) [ none ↦ false | some p ↦ true ]
