-- ===== src/Proto/Connect/RoundTrip.antt =====
-- The CONNECT exchange of src/proto/connect.c: the receiver reads the messages that the encoders
-- write.
use wtquic.Base.{
  ℕ, ◌+◌, ◌-◌, ◌≤◌, ◌≡◌, refl, subst, arith, Bool, true, false, not, ◌&&◌, ◌||◌, ◌⊎◌, inl, inr,
  List, [], ◌∷◌, Option, some, none, if◌then◌else◌, All, length,
}
use wtquic.Proto.SfString.Fields.{parse_list}
use wtquic.Proto.SfString.Lists.{text_len, parse_list-encode_list}
use wtquic.Proto.SfString.Shape.{encode_list-IsQuoted}
use wtquic.Proto.SfString.Write.{encode_list, text_eq}
use wtquic.Proto.Qpack.Section.{Field, encode_section}
use wtquic.Proto.Qpack.RoundTrip.{literals_len, encode_section-literals_len}
use wtquic.Proto.Connect.{
  Opts, max_fields, walk_loop, is_empty, value_loop, name_is, is_pseudo, name_is_valid,
  is_connection_field, value_is_valid, ok, value_is_token, scheme_is_valid, ok-injective, >>=_ok,
  guard_passed, malformed,
}
use wtquic.Proto.Connect.Request.{
  Req, Slots, no_slots, place, place_pseudo, place_regular, collect, has_empty, offered, listed,
  connect, https, protocol_token, protocol_token_legacy, decode_request, classify, connect_request,
  extended, web_transport, present, value_or_empty, parse_protocol_list, method_name, scheme_name,
  authority_name, path_name, protocol_name, origin_name, d02_marker_name, wtap_name,
}
use wtquic.Proto.Connect.Encode.{
  encoded, plain_field, all_strings, staged_list, token_or_default, field_if, request_fields,
  marker_one, sf_staging, encode_request_d02,
}
use wtquic.Proto.Connect.Written.{
  IsPlain, field_if-IsPlain, IsQuoted-value, encoded_ok, walk_init-encode_section, walk_loop-pseudo,
  walk_loop-field_if,
}

-- The token of a profile.
abbrev pub token_of : Bool → List ℕ
token_of legacy = if legacy then protocol_token_legacy else protocol_token

all_strings-has_empty : (ps : List (List ℕ)) → all_strings ps ≡ true → has_empty ps ≡ false
unfolding all_strings has_empty
all_strings-has_empty [] h = refl
all_strings-has_empty (p ∷ ps) h = ground (arith, all_strings-has_empty ps)

-- A staged list is a valid value, and reads back.
staged_list_lem :
    (ps : List (List ℕ)) (staged : List ℕ) (lenient : Bool) (room slots : ℕ)
    → staged_list ps ≡ ok staged
    → text_len ps ≤ room
    → length ps ≤ slots
    → (value_is_valid staged ≡ true)
      × ((is_empty ps ≡ true) ⊎ (listed (parse_list staged lenient room slots) ≡ ok ps))
unfolding staged_list listed value_is_valid value_loop
staged_list_lem [] staged lenient room slots h r s =
    (subst (λ t. value_is_valid t ≡ true) (ok-injective h) refl, inl refl)
staged_list_lem (p ∷ ps) staged lenient room slots h r s =
    let g = guard_passed (not (all_strings (p ∷ ps))) malformed _ staged h in
    let e = encoded_ok (encode_list (p ∷ ps) sf_staging) staged g.1 in
    let (l, c, back) = parse_list-encode_list (p ∷ ps) sf_staging staged lenient room slots e r s in
    let full : has_empty (p ∷ ps) ≡ false = all_strings-has_empty (p ∷ ps) (ground (arith, g.0)) in
    (
      IsQuoted-value staged (encode_list-IsQuoted (p ∷ ps) sf_staging staged e),
      inr (rw (back, full) refl),
    )

abbrev some_if : Bool → Field → Option Field
some_if b f = if b then some f else none

-- The slots that the fields of a request fill.
abbrev slots_of : List ℕ → List ℕ → List ℕ → List ℕ → Bool → Bool → List ℕ → Slots
slots_of authority path origin token marker has_protocols staged = record {
  method = some (plain_field method_name connect);
  scheme = some (plain_field scheme_name https);
  authority = some (plain_field authority_name authority);
  path = some (plain_field path_name path);
  protocol = some (plain_field protocol_name token);
  origin = some_if (not (is_empty origin)) (plain_field origin_name origin);
  d02_marker = some_if marker (plain_field d02_marker_name marker_one);
  wtap = some_if has_protocols (plain_field wtap_name staged);
  host = none;
}

collect-request_fields :
    (authority path origin token : List ℕ) (marker ps : Bool) (staged : List ℕ)
    → collect no_slots (request_fields authority path origin token marker ps staged)
      ≡ ok (slots_of authority path origin token marker ps staged)
unfolding collect place request_fields place_pseudo place_regular name_is is_pseudo text_eq
collect-request_fields a p [] t true true s = refl
collect-request_fields a p [] t true false s = refl
collect-request_fields a p [] t false true s = refl
collect-request_fields a p [] t false false s = refl
collect-request_fields a p (c ∷ o) t true true s = refl
collect-request_fields a p (c ∷ o) t true false s = refl
collect-request_fields a p (c ∷ o) t false true s = refl
collect-request_fields a p (c ∷ o) t false false s = refl

walk_loop-request_fields :
    (authority path origin : List ℕ) (marker legacy ps : Bool) (staged : List ℕ)
    → value_is_valid authority ≡ true
    → value_is_valid path ≡ true
    → value_is_valid origin ≡ true
    → value_is_valid staged ≡ true
    → walk_loop true false (request_fields authority path origin (token_of legacy) marker ps staged)
      ≡ true
unfolding request_fields name_is_valid value_is_valid is_pseudo is_connection_field walk_loop
walk_loop-request_fields a p o m l ps s va vp vo vs =
    let f8 = field_if ps (plain_field wtap_name s) [] in
    let f7 = field_if m (plain_field d02_marker_name marker_one) f8 in
    let f6 = field_if (not (is_empty o)) (plain_field origin_name o) f7 in
    let f5 = plain_field protocol_name (token_of l) ∷ f6 in
    let f4 = plain_field path_name p ∷ f5 in
    let f3 = plain_field authority_name a ∷ f4 in
    let f2 = plain_field scheme_name https ∷ f3 in
    let w8 : (seen : Bool) → walk_loop true seen f8 ≡ true =
      walk_loop-field_if true ps (plain_field wtap_name s) [] refl vs refl refl refl
        (λ seen. refl) in
    let w7 : (seen : Bool) → walk_loop true seen f7 ≡ true =
      walk_loop-field_if true m (plain_field d02_marker_name marker_one) f8 refl refl refl refl refl
        w8 in
    let w6 : (seen : Bool) → walk_loop true seen f6 ≡ true =
      walk_loop-field_if true (not (is_empty o)) (plain_field origin_name o) f7 refl vo refl refl
        refl w7 in
    let w5 =
      walk_loop-pseudo true (plain_field protocol_name (token_of l)) f6 refl (token_valid l) refl
        (w6 false) in
    let w4 = walk_loop-pseudo true (plain_field path_name p) f5 refl vp refl w5 in
    let w3 = walk_loop-pseudo true (plain_field authority_name a) f4 refl va refl w4 in
    let w2 = walk_loop-pseudo true (plain_field scheme_name https) f3 refl refl refl w3 in
    walk_loop-pseudo true (plain_field method_name connect) f2 refl refl refl w2
  where
    token_valid : (l : Bool) → value_is_valid (token_of l) ≡ true
    token_valid true = refl
    token_valid false = refl

-- What the receiver makes of a request.
abbrev pub received : List ℕ → List ℕ → List ℕ → List (List ℕ) → Bool → Bool → Req
received authority path origin protocols legacy marker = record {
  authority = authority;
  path = path;
  origin = origin;
  has_origin = not (is_empty origin);
  legacy_protocol = legacy;
  d02_marker = if marker then marker_one else [];
  has_d02_marker = marker;
  protocols = protocols;
}

present-some_if : (b : Bool) (f : Field) → present (some_if b f) ≡ b
present-some_if true f = refl
present-some_if false f = refl

value-some_if : (b : Bool) (f : Field) → value_or_empty (some_if b f) ≡ (if b then f.value else [])
value-some_if true f = refl
value-some_if false f = refl

value-origin :
    (o : List ℕ) → value_or_empty (some_if (not (is_empty o)) (plain_field origin_name o)) ≡ o
value-origin [] = refl
value-origin (c ∷ o) = refl

-- The code below the loop, for the slots of a request.
classify-slots_of :
    (authority path origin : List ℕ) (ps : List (List ℕ)) (legacy marker : Bool) (staged : List ℕ)
    (opts : Opts) (slots room : ℕ)
    → is_empty authority ≡ false
    → is_empty path ≡ false
    → (legacy && not opts.accept_legacy_protocol) ≡ false
    → offered opts slots room (some_if (not (is_empty ps)) (plain_field wtap_name staged)) ≡ ok ps
    → classify opts slots room
        (slots_of authority path origin (token_of legacy) marker (not (is_empty ps)) staged)
        (some (plain_field method_name connect))
      ≡ ok (received authority path origin ps legacy marker)
unfolding classify connect_request extended web_transport value_is_token scheme_is_valid
classify-slots_of a p o ps true marker staged opts slots room na np l e =
    let accepted : opts.accept_legacy_protocol ≡ true = ground (arith, l) in
    rw
      (
        accepted,
        na,
        np,
        e,
        value-origin o,
        present-some_if (not (is_empty o)) (plain_field origin_name o),
        value-some_if marker (plain_field d02_marker_name marker_one),
        present-some_if marker (plain_field d02_marker_name marker_one),
      )
      refl
classify-slots_of a p o ps false marker staged opts slots room na np l e =
    rw
      (
        na,
        np,
        e,
        value-origin o,
        present-some_if (not (is_empty o)) (plain_field origin_name o),
        value-some_if marker (plain_field d02_marker_name marker_one),
        present-some_if marker (plain_field d02_marker_name marker_one),
      )
      refl

offered-staged :
    (ps : List (List ℕ)) (staged : List ℕ) (opts : Opts) (slots room : ℕ)
    → (is_empty ps ≡ true) ⊎ (listed (parse_list staged opts.lenient_sf_tokens room slots) ≡ ok ps)
    → offered opts slots room (some_if (not (is_empty ps)) (plain_field wtap_name staged)) ≡ ok ps
unfolding offered parse_protocol_list
offered-staged [] staged opts slots room h = refl
offered-staged (p ∷ ps) staged opts slots room (inl e) = absurd cc
offered-staged (p ∷ ps) staged opts slots room (inr e) = e

IsPlain-request_fields :
    (authority path origin token : List ℕ) (marker ps : Bool) (staged : List ℕ)
    → let fields = request_fields authority path origin token marker ps staged in
      All IsPlain fields × (length fields ≤ max_fields)
unfolding request_fields
IsPlain-request_fields a p o t m ps s =
    let f8 = field_if ps (plain_field wtap_name s) [] in
    let f7 = field_if m (plain_field d02_marker_name marker_one) f8 in
    let p8 = field_if-IsPlain ps (plain_field wtap_name s) [] refl tt in
    let p7 = field_if-IsPlain m (plain_field d02_marker_name marker_one) f8 refl p8.0 in
    let p6 = field_if-IsPlain (not (is_empty o)) (plain_field origin_name o) f7 refl p7.0 in
    ((refl, (refl, (refl, (refl, (refl, p6.0))))), omega (arith, p8.1, p7.1, p6.1))

-- The server reads the request that the client writes: with the current token, or the legacy one
-- where the server accepts it, with room for the protocols and for their number, the section
-- decodes to the authority, the path, the origin (absent when empty), the draft-02 marker, which
-- is "1", and the protocols in their order.
pub decode_request-encode_request_d02 :
    (authority path origin token : List ℕ) (protocols : List (List ℕ)) (marker legacy : Bool)
    (room : ℕ) (bs : List ℕ) (opts : Opts) (max_protocols scratch_cap : ℕ)
    → encode_request_d02 authority path origin protocols token marker room ≡ ok bs
    → token_or_default token ≡ token_of legacy
    → (legacy && not opts.accept_legacy_protocol) ≡ false
    → length protocols ≤ max_protocols
    → length bs + text_len protocols ≤ scratch_cap
    → decode_request bs opts max_protocols scratch_cap
      ≡ ok (received authority path origin protocols legacy marker)
unfolding encode_request_d02 decode_request
decode_request-encode_request_d02 a p o token ps m legacy room bs opts slots sc h t l n s =
    let g1 = guard_passed (is_empty a || is_empty p) malformed _ bs h in
    let g2 = guard_passed (not (value_is_token (token_or_default token))) malformed _ bs g1.1 in
    let g3 =
      guard_passed (not (value_is_valid a) || not (value_is_valid p) || not (value_is_valid o))
        malformed _ bs g2.1 in
    let (staged, e, k) = >>=_ok (staged_list ps) _ bs g3.1 in
    let fields = request_fields a p o (token_of legacy) m (not (is_empty ps)) staged in
    let k' : encoded (encode_section fields room) ≡ ok bs =
      subst
        (λ x.
          encoded (encode_section (request_fields a p o x m (not (is_empty ps)) staged) room)
          ≡ ok bs)
        t k in
    let small = encode_section-literals_len fields room bs (encoded_ok _ bs k') in
    let left = sc - literals_len fields in
    let q = staged_list_lem ps staged opts.lenient_sf_tokens left slots e (omega arith) n in
    let plain = IsPlain-request_fields a p o (token_of legacy) m (not (is_empty ps)) staged in
    let walk =
      walk_loop-request_fields a p o m legacy (not (is_empty ps)) staged (ground (arith, g3.0))
        (ground (arith, g3.0)) (ground (arith, g3.0)) q.0 in
    let w = walk_init-encode_section fields room sc true bs k' plain.0 plain.1 (omega arith) walk in
    let c = collect-request_fields a p o (token_of legacy) m (not (is_empty ps)) staged in
    rw (w, c)
      (classify-slots_of a p o ps legacy m staged opts slots left (ground (arith, g1.0))
        (ground (arith, g1.0)) l (offered-staged ps staged opts slots left q.1))
