-- ===== src/Proto/Settings/Encode.antt =====
-- What src/proto/h3_settings.c sends, and what its decoder makes of it.
use wtquic.Base.{
  ℕ, zero, suc, ◌+◌, ◌-◌, ◌≤◌, ◌<◌, ◌≡◌, refl, ap, arith, Bool, true, false, List, [], ◌∷◌, ◌++◌,
  some, none, length, length-append, All, bit_and, dec_le, if◌then◌else◌, ◌==◌, ◌⊎◌, inl, inr,
}
use wtquic.Base.Bits.{bit_and_le}
use wtquic.Proto.Varint
use wtquic.Proto.Varint.Encode.{encode-Shape, Shape-length, varint_len_bounds}
use wtquic.Proto.Varint.{Result, done, fail, buffer, varint_len, varint_max}
use wtquic.Proto.Frame.{written, frame_header_len, encode_header, decode_header}
use wtquic.Proto.Frame.Header.{encode_header_lem, frame_header_len_in_range, Shape-decode_header}
use wtquic.Proto.Settings.{
  Settings, no_settings, EncodeConfig, has_bit, out_settings_for, build_out_settings,
  encode_settings, encode_payload, encode_frame, frame_settings, payload_len, total_len, decode,
  profiles_all,
}

-- The settings that a peer reads from an encoded payload, for a masked set.
abbrev pub advertised : Bool → ℕ → Settings
advertised connect profiles = record no_settings {
  qpack_max_table_capacity = some 0;
  qpack_blocked_streams = some 0;
  enable_connect_protocol = if connect then some 1 else none;
  h3_datagram = some 1;
  wt_max_sessions_d13 = if has_bit profiles 0x2 then some 1 else none;
  enable_webtransport_leg = if has_bit profiles 0x4 then some 1 else none;
  wt_enabled = if has_bit profiles 0x1 then some 1 else none;
}

-- The profiles that a configuration advertises: those known, or CURRENT where none is.
abbrev pub effective : EncodeConfig → ℕ
effective cfg =
    let masked = bit_and cfg.wt_profiles profiles_all in if masked == 0 then 0x1 else masked

effective_bounds : (cfg : EncodeConfig) → (1 ≤ effective cfg) × (effective cfg ≤ 7)
effective_bounds cfg = ground (arith, bit_and_le (cfg.wt_profiles) profiles_all)

-- The bytes of an encoding do not depend on the room, where there is enough.
encode_room :
    (v room : ℕ) → v ≤ varint_max → varint_len v ≤ room → Varint.encode v room ≡ Varint.encode v 8
unfolding Varint.encode
encode_room v room h k = ground (arith, varint_len_bounds v)

length-written :
    (v room : ℕ)
    → v ≤ varint_max
    → varint_len v ≤ room
    → length (written (Varint.encode v room)) ≡ varint_len v
length-written v room h k = let (bs, e, s) = encode-Shape v room h k in rw e (Shape-length s)

abbrev InRange : ℕ × ℕ → Type 0
InRange (id, value) = (id ≤ varint_max) × (value ≤ varint_max)

-- The bytes of the settings, each in a buffer of its own.
full : List (ℕ × ℕ) → List ℕ
full [] = []
full ((id, value) ∷ xs) =
    written (Varint.encode id 8) ++ (written (Varint.encode value 8) ++ full xs)

encode_settings-full :
    (xs : List (ℕ × ℕ)) (room : ℕ)
    → All InRange xs
    → total_len xs ≤ room
    → encode_settings xs room ≡ full xs
unfolding encode_settings total_len full
encode_settings-full [] room h k = refl
encode_settings-full ((id, value) ∷ xs) room ((hi, hv), h) k =
    rw
      (
        length-written id room hi (omega arith),
        length-written value (room - varint_len id) hv (omega arith),
        encode_room id room hi (omega arith),
        encode_room value (room - varint_len id) hv (omega arith),
      )
      (ap (λ t. written (Varint.encode id 8) ++ (written (Varint.encode value 8) ++ t))
        (encode_settings-full xs (room - varint_len id - varint_len value) h (omega arith)))

length-full : (xs : List (ℕ × ℕ)) → All InRange xs → length (full xs) ≡ total_len xs
unfolding full total_len
length-full [] h = refl
length-full ((id, value) ∷ xs) ((hi, hv), h) =
    let head = written (Varint.encode id 8) in
    let body = written (Varint.encode value 8) in
    omega (
      arith,
      length-append head (body ++ full xs),
      length-append body (full xs),
      length-written id 8 hi ((varint_len_bounds id hi).1),
      length-written value 8 hv ((varint_len_bounds value hv).1),
      length-full xs h,
    )

-- What holds of one masked set.
abbrev Read : Bool → ℕ → Type 0
Read connect m =
    let out = out_settings_for connect m in
    All InRange out × (total_len out ≤ 100) × (decode (full out) ≡ done (advertised connect m))

-- Each masked set and each choice of the extended CONNECT setting, by evaluation.
out_settings_cases : (connect : Bool) (m : ℕ) → 1 ≤ m → m ≤ 7 → Read connect m
unfolding decode full out_settings_for total_len Varint.encode Varint.decode
out_settings_cases connect zero h k = absurd (omega arith)
out_settings_cases true (suc zero) h k = (ground arith, omega arith, refl)
out_settings_cases true (suc (suc zero)) h k = (ground arith, omega arith, refl)
out_settings_cases true (suc (suc (suc zero))) h k = (ground arith, omega arith, refl)
out_settings_cases true (suc (suc (suc (suc zero)))) h k = (ground arith, omega arith, refl)
out_settings_cases true (suc (suc (suc (suc (suc zero))))) h k = (ground arith, omega arith, refl)
out_settings_cases true (suc (suc (suc (suc (suc (suc zero)))))) h k =
    (ground arith, omega arith, refl)
out_settings_cases true (suc (suc (suc (suc (suc (suc (suc zero))))))) h k =
    (ground arith, omega arith, refl)
out_settings_cases false (suc zero) h k = (ground arith, omega arith, refl)
out_settings_cases false (suc (suc zero)) h k = (ground arith, omega arith, refl)
out_settings_cases false (suc (suc (suc zero))) h k = (ground arith, omega arith, refl)
out_settings_cases false (suc (suc (suc (suc zero)))) h k = (ground arith, omega arith, refl)
out_settings_cases false (suc (suc (suc (suc (suc zero))))) h k = (ground arith, omega arith, refl)
out_settings_cases false (suc (suc (suc (suc (suc (suc zero)))))) h k =
    (ground arith, omega arith, refl)
out_settings_cases false (suc (suc (suc (suc (suc (suc (suc zero))))))) h k =
    (ground arith, omega arith, refl)
out_settings_cases connect (suc (suc (suc (suc (suc (suc (suc (suc m)))))))) h k =
    absurd (omega arith)

out_settings_lem : (cfg : EncodeConfig) → Read (cfg.enable_connect_protocol) (effective cfg)
out_settings_lem cfg =
    let (l, u) = effective_bounds cfg in
    out_settings_cases (cfg.enable_connect_protocol) (effective cfg) l u

encode_payload-full :
    (cfg : EncodeConfig) (cap : ℕ)
    → payload_len cfg ≤ cap
    → encode_payload cfg cap ≡ done (full (build_out_settings cfg))
unfolding encode_payload payload_len build_out_settings
encode_payload-full cfg cap h =
    let r = (out_settings_lem cfg).0 in
    ground (arith, encode_settings-full (build_out_settings cfg) cap r h)

length-full_payload :
    (cfg : EncodeConfig) → length (full (build_out_settings cfg)) ≡ payload_len cfg
unfolding payload_len build_out_settings
length-full_payload cfg = length-full (build_out_settings cfg) (out_settings_lem cfg).0

encode_payload-short :
    (cfg : EncodeConfig) (cap : ℕ) → cap < payload_len cfg → encode_payload cfg cap ≡ fail buffer
unfolding encode_payload
encode_payload-short cfg cap h = ground arith

decode-full :
    (cfg : EncodeConfig)
    → decode (full (build_out_settings cfg))
      ≡ done (advertised (cfg.enable_connect_protocol) (effective cfg))
unfolding build_out_settings
decode-full cfg = (out_settings_lem cfg).2

payload_len_bound : (cfg : EncodeConfig) → payload_len cfg ≤ varint_max
unfolding payload_len build_out_settings
payload_len_bound cfg = omega (arith, (out_settings_lem cfg).1)

encode_frame-full :
    (cfg : EncodeConfig) (cap : ℕ) (hs : List ℕ)
    → encode_header frame_settings (payload_len cfg) cap ≡ done hs
    → length hs ≡ frame_header_len frame_settings (payload_len cfg)
    → frame_header_len frame_settings (payload_len cfg) + payload_len cfg ≤ cap
    → encode_frame cfg cap ≡ done (hs ++ full (build_out_settings cfg))
unfolding encode_frame
encode_frame-full cfg cap hs e l h = ground (arith, e, l, encode_payload-full cfg (cap - length hs))

-- The payload encoder fails exactly where the buffer is shorter than the announced length.
-- Otherwise it writes that many bytes, and the decoder reads from them the settings that are
-- advertised: the zeros for QPACK, the datagrams, extended CONNECT as configured, and one signal
-- for each known profile of the set, or for the current one where the set holds none.
pub decode-encode_payload :
    (cfg : EncodeConfig) (cap : ℕ)
    → ((cap < payload_len cfg) × (encode_payload cfg cap ≡ fail buffer))
      ⊎ ((payload_len cfg ≤ cap)
          × ((bs : List ℕ) × (encode_payload cfg cap ≡ done bs)
              × (length bs ≡ payload_len cfg)
              × (decode bs ≡ done (advertised (cfg.enable_connect_protocol) (effective cfg)))))
decode-encode_payload cfg cap = elim (dec_le (payload_len cfg) cap) [
  | yes h ↦ inr (
    h,
    (
      full (build_out_settings cfg),
      encode_payload-full cfg cap h,
      length-full_payload cfg,
      decode-full cfg,
    ),
  )
  | no h ↦ inl (omega arith, encode_payload-short cfg cap (omega arith))
]

-- With room for the header and the payload, the frame encoder writes a header that decodes to
-- the SETTINGS type and the length of the bytes behind it, and those bytes decode to the settings
-- that are advertised.
pub decode-encode_frame :
    (cfg : EncodeConfig) (cap : ℕ)
    → frame_header_len frame_settings (payload_len cfg) + payload_len cfg ≤ cap
    → (hs bs : List ℕ) × (encode_frame cfg cap ≡ done (hs ++ bs))
      × (decode_header (hs ++ bs)
          ≡ done (record { type = frame_settings; length = length bs; header_len = length hs }))
      × (decode bs ≡ done (advertised (cfg.enable_connect_protocol) (effective cfg)))
decode-encode_frame cfg cap h =
    let bs = full (build_out_settings cfg) in
    let (ts, ls, e, st, sl) =
      encode_header_lem frame_settings (payload_len cfg) cap (omega arith) (payload_len_bound cfg)
        (omega arith) in
    (
      ts ++ ls,
      bs,
      encode_frame-full cfg cap (ts ++ ls) e
          (omega (
            arith,
            length-append ts ls,
            Shape-length st,
            Shape-length sl,
            frame_header_len_in_range frame_settings (payload_len cfg) (omega arith)
                (payload_len_bound cfg),
          ))
          h,
      rw (length-full_payload cfg)
          (Shape-decode_header bs (omega arith) (payload_len_bound cfg) st sl),
      decode-full cfg,
    )
