-- ===== src/Proto/Settings/Tests.antt =====
-- Runs of src/proto/h3_settings.c, and instances of what is proved of it.
use wtquic.Base.{
  ℕ, ◌+◌, ◌≤◌, ◌<◌, ◌≡◌, refl, arith, true, List, [], ◌∷◌, ◌++◌, some, none, length, ◌⊎◌,
}
use wtquic.Proto.Varint.{Result, done, fail, need_more, buffer, Status}
use wtquic.Proto.Frame.{frame_header_len, decode_header}
use wtquic.Proto.Settings.{
  Settings, no_settings, EncodeConfig, Profile, decode, encode_payload, encode_frame, payload_len,
  frame_settings, select_profile,
}
use wtquic.Proto.Settings.Encode.{advertised, effective, decode-encode_payload, decode-encode_frame}
use wtquic.Proto.Settings.Select.{Mutual, age, select_profile_lem}

-- A server that offers every profile, and a bit that no profile has.
abbrev server : EncodeConfig
server = record { enable_connect_protocol = true; wt_profiles = 0xf }

-- A peer that offers the two older profiles.
abbrev old_peer : Settings
old_peer = advertised true 6

decode_duplicate : decode (0x21 ∷ 0x00 ∷ 0x08 ∷ 0x01 ∷ 0x21 ∷ 0x05 ∷ []) ≡ fail Status.invalid
unfolding decode wtquic.Proto.Varint.decode
decode_duplicate = refl

decode_reserved : decode (0x02 ∷ 0x00 ∷ []) ≡ fail Status.invalid
unfolding decode wtquic.Proto.Varint.decode
decode_reserved = refl

decode_cut : decode (0x08 ∷ 0x01 ∷ 0x33 ∷ []) ≡ fail need_more
unfolding decode wtquic.Proto.Varint.decode
decode_cut = refl

decode_unknown :
    decode (0x21 ∷ 0x00 ∷ 0x08 ∷ 0x00 ∷ [])
    ≡ done (record no_settings { enable_connect_protocol = some 0; unknown_count = 1 })
unfolding decode wtquic.Proto.Varint.decode
decode_unknown = refl

select_old : select_profile old_peer true 7 ≡ some Profile.d13_14_compat
unfolding select_profile
select_old = refl

decode-encode_payload_example :
    ((100 < payload_len server) × (encode_payload server 100 ≡ fail buffer))
    ⊎ ((payload_len server ≤ 100)
        × ((bs : List ℕ) × (encode_payload server 100 ≡ done bs)
            × (length bs ≡ payload_len server)
            × (decode bs ≡ done (advertised true (effective server)))))
decode-encode_payload_example = decode-encode_payload server 100

server_room : frame_header_len frame_settings (payload_len server) + payload_len server ≤ 100
unfolding payload_len frame_header_len wtquic.Proto.Varint.varint_len
server_room = omega arith

decode-encode_frame_example :
    (hs bs : List ℕ) × (encode_frame server 100 ≡ done (hs ++ bs))
    × (decode_header (hs ++ bs)
        ≡ done (record { type = frame_settings; length = length bs; header_len = length hs }))
    × (decode bs ≡ done (advertised true (effective server)))
decode-encode_frame_example = decode-encode_frame server 100 server_room

select_profile_lem_example :
    ((p : Profile) × (select_profile old_peer true 7 ≡ some p)
      × Mutual old_peer true 7 p
      × ((q : Profile) → age q < age p → ¬ Mutual old_peer true 7 q))
    ⊎ ((select_profile old_peer true 7 ≡ none) × ((q : Profile) → ¬ Mutual old_peer true 7 q))
select_profile_lem_example = select_profile_lem old_peer true 7
