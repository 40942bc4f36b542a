-- ===== src/Proto/Connect/Request.antt =====
-- Requests and trailers in src/proto/connect.c.
pub mod Collect
pub mod Sound
use wtquic.Base.{
  ℕ, zero, suc, ◌+◌, ◌-◌, Bool, true, false, not, ◌&&◌, ◌||◌, List, [], ◌∷◌, Option, some, none,
  ltb, leb, ◌==◌, if◌then◌else◌,
}
use wtquic.Proto.Varint
use wtquic.Proto.Varint.{Result, done, fail}
use wtquic.Proto.SfString.Fields.{parse_list}
use wtquic.Proto.Qpack.Section.{Field}
use wtquic.Proto.Connect.{
  Status, buffer, malformed, not_webtransport, Outcome, ok, err, ◌>>=◌, Opts, is_empty, name_is,
  value_is, value_is_token, scheme_is_valid, span_ieq, scheme_ieq, is_pseudo, walk_init,
}

-- `wtq_connect_req_t`, with `protocols[0 .. *protocol_count)`. An absent span is empty.
pub record Req : Type 0 where
  pub authority : List ℕ
  pub path : List ℕ
  pub origin : List ℕ
  pub has_origin : Bool
  pub legacy_protocol : Bool
  pub d02_marker : List ℕ
  pub has_d02_marker : Bool
  pub protocols : List (List ℕ)

-- `protocols[i].len == 0` for some `i`
unfoldable pub has_empty : List (List ℕ) → Bool
has_empty [] = false
has_empty (p ∷ protocols) = let rest = has_empty protocols in if is_empty p then true else rest

unfoldable pub listed : Result (List (List ℕ)) → Outcome (List (List ℕ))
unfolding has_empty
listed (fail Varint.buffer) = err buffer
listed (fail Varint.need_more) = ok []
listed (fail Varint.range) = ok []
listed (fail Varint.invalid) = ok []
listed (done protocols) = ok (if has_empty protocols then [] else protocols)

unfoldable pub parse_protocol_list : Field → Opts → ℕ → ℕ → Outcome (List (List ℕ))
unfolding listed
parse_protocol_list f opts max_protocols out_cap =
    listed (parse_list f.value opts.lenient_sf_tokens out_cap max_protocols)

-- The local pointers of `wtq_connect_decode_request`.
pub record Slots : Type 0 where
  pub method : Option Field
  pub scheme : Option Field
  pub authority : Option Field
  pub path : Option Field
  pub protocol : Option Field
  pub origin : Option Field
  pub d02_marker : Option Field
  pub wtap : Option Field
  pub host : Option Field

abbrev pub no_slots : Slots
no_slots = record {
  method = none;
  scheme = none;
  authority = none;
  path = none;
  protocol = none;
  origin = none;
  d02_marker = none;
  wtap = none;
  host = none;
}

-- `if (slot != NULL) return WTQ_CONNECT_MALFORMED; slot = f;`
abbrev pub put : {A : Type 0} → Option Field → A → Outcome A
put none s = ok s
put (some g) s = err malformed

abbrev pub method_name : List ℕ
method_name = 0x3a ∷ 0x6d ∷ 0x65 ∷ 0x74 ∷ 0x68 ∷ 0x6f ∷ 0x64 ∷ []

abbrev pub scheme_name : List ℕ
scheme_name = 0x3a ∷ 0x73 ∷ 0x63 ∷ 0x68 ∷ 0x65 ∷ 0x6d ∷ 0x65 ∷ []

abbrev pub authority_name : List ℕ
authority_name = 0x3a ∷ 0x61 ∷ 0x75 ∷ 0x74 ∷ 0x68 ∷ 0x6f ∷ 0x72 ∷ 0x69 ∷ 0x74 ∷ 0x79 ∷ []

abbrev pub path_name : List ℕ
path_name = 0x3a ∷ 0x70 ∷ 0x61 ∷ 0x74 ∷ 0x68 ∷ []

abbrev pub protocol_name : List ℕ
protocol_name = 0x3a ∷ 0x70 ∷ 0x72 ∷ 0x6f ∷ 0x74 ∷ 0x6f ∷ 0x63 ∷ 0x6f ∷ 0x6c ∷ []

abbrev pub origin_name : List ℕ
origin_name = 0x6f ∷ 0x72 ∷ 0x69 ∷ 0x67 ∷ 0x69 ∷ 0x6e ∷ []

abbrev pub d02_marker_name : List ℕ
d02_marker_name =
    0x73 ∷ 0x65 ∷ 0x63 ∷ 0x2d ∷ 0x77 ∷ 0x65 ∷ 0x62 ∷ 0x74 ∷ 0x72 ∷ 0x61 ∷ 0x6e ∷ 0x73 ∷ 0x70 ∷ 0x6f
    ∷ 0x72 ∷ 0x74 ∷ 0x2d ∷ 0x68 ∷ 0x74 ∷ 0x74 ∷ 0x70 ∷ 0x33 ∷ 0x2d ∷ 0x64 ∷ 0x72 ∷ 0x61 ∷ 0x66
    ∷ 0x74 ∷ 0x30 ∷ 0x32 ∷ []

abbrev pub wtap_name : List ℕ
wtap_name =
    0x77 ∷ 0x74 ∷ 0x2d ∷ 0x61 ∷ 0x76 ∷ 0x61 ∷ 0x69 ∷ 0x6c ∷ 0x61 ∷ 0x62 ∷ 0x6c ∷ 0x65 ∷ 0x2d ∷ 0x70
    ∷ 0x72 ∷ 0x6f ∷ 0x74 ∷ 0x6f ∷ 0x63 ∷ 0x6f ∷ 0x6c ∷ 0x73 ∷ []

abbrev pub host_name : List ℕ
host_name = 0x68 ∷ 0x6f ∷ 0x73 ∷ 0x74 ∷ []

unfoldable pub place_pseudo : Slots → Field → Outcome Slots
unfolding name_is
place_pseudo s f =
    if name_is f method_name
    then put s.method (record s { method = some f })
    else if name_is f scheme_name
    then put s.scheme (record s { scheme = some f })
    else if name_is f authority_name
    then put s.authority (record s { authority = some f })
    else if name_is f path_name
    then put s.path (record s { path = some f })
    else if name_is f protocol_name
    then put s.protocol (record s { protocol = some f })
    else err malformed

unfoldable pub place_regular : Slots → Field → Outcome Slots
unfolding name_is
place_regular s f =
    if name_is f origin_name
    then put s.origin (record s { origin = some f })
    else if name_is f d02_marker_name
    then put s.d02_marker (record s { d02_marker = some f })
    else if name_is f wtap_name
    then put s.wtap (record s { wtap = some f })
    else if name_is f host_name
    then put s.host (record s { host = some f })
    else ok s

unfoldable pub place : Slots → Field → Outcome Slots
unfolding place_pseudo place_regular is_pseudo
place s f = if is_pseudo f then place_pseudo s f else place_regular s f

-- The loop over the fields.
unfoldable pub collect : Slots → List Field → Outcome Slots
unfolding place
collect s [] = ok s
collect s (f ∷ fields) = place s f >>= λ s'. collect s' fields

-- `o == NULL || p(o->value)`
abbrev pub when_present : (List ℕ → Bool) → Option Field → Bool
when_present p none = true
when_present p (some f) = p f.value

abbrev pub present : Option Field → Bool
present none = false
present (some f) = true

-- `(o != NULL) ? o->value : ""`
abbrev pub value_or_empty : Option Field → List ℕ
value_or_empty none = []
value_or_empty (some f) = f.value

unfoldable pub host_agrees : Option Field → Option Field → Bool
unfolding span_ieq
host_agrees none authority = true
host_agrees (some h) authority =
    not (is_empty h.value) && when_present (λ a. span_ieq h.value a) authority

abbrev pub connect : List ℕ
connect = 0x43 ∷ 0x4f ∷ 0x4e ∷ 0x4e ∷ 0x45 ∷ 0x43 ∷ 0x54 ∷ []

abbrev pub https : List ℕ
https = 0x68 ∷ 0x74 ∷ 0x74 ∷ 0x70 ∷ 0x73 ∷ []

abbrev pub http : List ℕ
http = 0x68 ∷ 0x74 ∷ 0x74 ∷ 0x70 ∷ []

abbrev pub protocol_token : List ℕ
protocol_token =
    0x77 ∷ 0x65 ∷ 0x62 ∷ 0x74 ∷ 0x72 ∷ 0x61 ∷ 0x6e ∷ 0x73 ∷ 0x70 ∷ 0x6f ∷ 0x72 ∷ 0x74 ∷ 0x2d ∷ 0x68
    ∷ 0x33 ∷ []

abbrev pub protocol_token_legacy : List ℕ
protocol_token_legacy =
    0x77 ∷ 0x65 ∷ 0x62 ∷ 0x74 ∷ 0x72 ∷ 0x61 ∷ 0x6e ∷ 0x73 ∷ 0x70 ∷ 0x6f ∷ 0x72 ∷ 0x74 ∷ []

-- The authority source of a request for an http or https resource.
unfoldable pub authority_missing : Slots → Bool
authority_missing s =
    (present s.authority && is_empty (value_or_empty s.authority))
    || (not (present s.authority) && not (present s.host))

-- A request whose method is not CONNECT.
unfoldable pub ordinary_request : Slots → Option Field → Option Field → Option Field → Status
unfolding authority_missing scheme_ieq
ordinary_request s (some scheme) (some path) none =
    if is_empty path.value
    then malformed
    else if (scheme_ieq scheme https || scheme_ieq scheme http) && authority_missing s
    then malformed
    else not_webtransport
ordinary_request s (some scheme) (some path) (some protocol) = malformed
ordinary_request s (some scheme) none protocol = malformed
ordinary_request s none path protocol = malformed

-- A CONNECT without `:protocol`.
unfoldable pub tunnel : Option Field → Option Field → Option Field → Status
tunnel (some authority) none none = if is_empty authority.value then malformed else not_webtransport
tunnel (some authority) none (some path) = malformed
tunnel (some authority) (some scheme) path = malformed
tunnel none scheme path = malformed

-- The protocols of `wt-available-protocols`, none where it is absent.
unfoldable pub offered : Opts → ℕ → ℕ → Option Field → Outcome (List (List ℕ))
unfolding parse_protocol_list
offered opts max_protocols sf_room none = ok []
offered opts max_protocols sf_room (some f) = parse_protocol_list f opts max_protocols sf_room

unfoldable pub web_transport : Opts → ℕ → ℕ → Slots → Field → Field → Field → Bool → Outcome Req
unfolding offered value_is
web_transport opts max_protocols sf_room s scheme authority path legacy =
    if not (value_is scheme https)
    then err malformed
    else if is_empty authority.value || is_empty path.value
    then err malformed
    else (offered opts max_protocols sf_room s.wtap >>= λ protocols. ok (record {
      authority = authority.value;
      path = path.value;
      origin = value_or_empty s.origin;
      has_origin = present s.origin;
      legacy_protocol = legacy;
      d02_marker = value_or_empty s.d02_marker;
      has_d02_marker = present s.d02_marker;
      protocols = protocols;
    }))

-- An extended CONNECT with its scheme, authority and path.
unfoldable pub extended :
    Opts → ℕ → ℕ → Slots → Field → Option Field → Option Field → Option Field → Outcome Req
unfolding web_transport
extended opts max_protocols sf_room s protocol (some scheme) (some authority) (some path) =
    if value_is protocol protocol_token
    then web_transport opts max_protocols sf_room s scheme authority path false
    else if opts.accept_legacy_protocol && value_is protocol protocol_token_legacy
    then web_transport opts max_protocols sf_room s scheme authority path true
    else err not_webtransport
extended opts max_protocols sf_room s protocol (some scheme) (some authority) none = err malformed
extended opts max_protocols sf_room s protocol (some scheme) none path = err malformed
extended opts max_protocols sf_room s protocol none authority path = err malformed

unfoldable pub connect_request : Opts → ℕ → ℕ → Slots → Option Field → Outcome Req
unfolding extended tunnel
connect_request opts max_protocols sf_room s none = err (tunnel s.authority s.scheme s.path)
connect_request opts max_protocols sf_room s (some protocol) =
    extended opts max_protocols sf_room s protocol s.scheme s.authority s.path

-- The code below the loop over the fields.
unfoldable pub classify : Opts → ℕ → ℕ → Slots → Option Field → Outcome Req
unfolding connect_request ordinary_request host_agrees
classify opts max_protocols sf_room s none = err malformed
classify opts max_protocols sf_room s (some method) =
    if not (value_is_token method.value)
    then err malformed
    else if not (when_present value_is_token s.protocol)
    then err malformed
    else if not (when_present scheme_is_valid s.scheme)
    then err malformed
    else if not (host_agrees s.host s.authority)
    then err malformed
    else if not (value_is method connect)
    then err (ordinary_request s s.scheme s.path s.protocol)
    else connect_request opts max_protocols sf_room s s.protocol

unfoldable pub decode_request : List ℕ → Opts → ℕ → ℕ → Outcome Req
unfolding classify collect
decode_request section opts max_protocols scratch_cap = do
  w ← walk_init section scratch_cap true
  s ← collect no_slots w.fields
  classify opts max_protocols w.sf_room s s.method

-- Some field is a pseudo-header.
unfoldable pub has_pseudo : List Field → Bool
has_pseudo [] = false
has_pseudo (f ∷ fields) = let rest = has_pseudo fields in if is_pseudo f then true else rest

unfoldable pub validate_trailers : List ℕ → ℕ → Outcome Unit
unfolding has_pseudo
validate_trailers section scratch_cap = do
  w ← walk_init section scratch_cap false
  if has_pseudo w.fields then err malformed else ok tt
