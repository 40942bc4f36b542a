-- ===== src/Proto/Connect/Answer.antt =====
-- The answer of the CONNECT exchange of src/proto/connect.c: the client reads the response that the
-- server writes.
use wtquic.Base.{
  ℕ, ◌+◌, ◌-◌, ◌/◌, ◌%◌, ◌≤◌, ◌≡◌, refl, sym, subst, ap, ◌∙◌, arith, Bool, true, false, not, ◌||◌,
  ◌⊎◌, inl, inr, List, [], Option, some, none, ltb, le→ltb, if◌then◌else◌, All, length,
}
use wtquic.Proto.Varint.{done, done-injective}
use wtquic.Proto.SfString.{string_valid}
use wtquic.Proto.SfString.Fields.{parse_item}
use wtquic.Proto.SfString.Item.{parse_item-encode_item}
use wtquic.Proto.SfString.Shape.{encode_item-IsQuoted}
use wtquic.Proto.SfString.Write.{encode_item, text_eq}
use wtquic.Proto.Qpack.Section.{Field}
use wtquic.Proto.Qpack.RoundTrip.{literals_len, encode_section-literals_len}
use wtquic.Proto.Connect.{
  Opts, walk_loop, max_fields, is_empty, value_loop, value_is_valid, name_is_valid, is_pseudo,
  name_is, is_connection_field, ok, ok-injective, >>=_ok, guard_passed, malformed,
}
use wtquic.Proto.Connect.Request.{value_or_empty, present}
use wtquic.Proto.Connect.Response.{
  Resp, no_slots, place, collect, code_loop, code_digits, status_code, chosen, response_protocol,
  decode_response, status_name, rmark_name, wtp_name,
}
use wtquic.Proto.Connect.Encode.{
  plain_field, staged_item, selected?, code_text, field_if, response_fields, draft02, sf_staging,
  encode_response_ex,
}
use wtquic.Proto.Connect.Written.{
  IsPlain, field_if-IsPlain, IsQuoted-value, encoded_ok, walk_init-encode_section, walk_loop-pseudo,
  walk_loop-field_if,
}

abbrev pub text_of : Option (List ℕ) → List ℕ
text_of none = []
text_of (some s) = s

item_reads :
    (s staged : List ℕ) (lenient : Bool) (room : ℕ)
    → encode_item s sf_staging ≡ done staged
    → length s ≤ room
    → parse_item staged lenient room ≡ done s
item_reads s staged lenient room e r = elim (parse_item-encode_item s sf_staging lenient room r) [
  | inl (v, k) ↦ absurd cc
  | inr (inl (v, c, k)) ↦ absurd cc
  | inr (inr (v, (bs, k, a, c, back))) ↦
      subst (λ t. parse_item t lenient room ≡ done s) (done-injective (sym k ∙ e)) back
]

staged_item_lem :
    (o : Option (List ℕ)) (staged : List ℕ) (lenient : Bool) (room : ℕ)
    → staged_item o ≡ ok staged
    → length (text_of o) ≤ room
    → (value_is_valid staged ≡ true)
      × ((selected? o ≡ false) ⊎ (chosen (parse_item staged lenient room) ≡ ok o))
unfolding staged_item value_is_valid value_loop chosen
staged_item_lem none staged lenient room h r =
    (subst (λ t. value_is_valid t ≡ true) (ok-injective h) refl, inl refl)
staged_item_lem (some s) staged lenient room h r =
    let g = guard_passed (is_empty s || not (string_valid s)) malformed _ staged h in
    let e = encoded_ok (encode_item s sf_staging) staged g.1 in
    let back = item_reads s staged lenient room e r in
    let full : is_empty s ≡ false = ground (arith, g.0) in
    (IsQuoted-value staged (encode_item-IsQuoted s sf_staging staged e), inr (rw (back, full) refl))

digit_in_range : (d : ℕ) → d ≤ 9 → (ltb (0x30 + d) 0x30 || ltb 0x39 (0x30 + d)) ≡ false
digit_in_range d h = ground arith

-- Three digits.
code_digits-code_text : (n : ℕ) → n ≤ 999 → code_digits (code_text n) ≡ ok n
unfolding code_digits code_text code_loop
code_digits-code_text n u =
    let a = digit_in_range (n / 100) (omega arith) in
    let b = digit_in_range (n / 10 % 10) (omega arith) in
    let c = digit_in_range (n % 10) (omega arith) in rw (a, b, c) (ap ok (omega arith))

digits_valid : (n : ℕ) → n ≤ 999 → value_is_valid (code_text n) ≡ true
unfolding value_is_valid value_loop code_text
digits_valid n u = ground arith

abbrev some_if : Bool → Field → Option Field
some_if b f = if b then some f else none

collect-response_fields :
    (status : ℕ) (marker selected : Bool) (staged : List ℕ)
    → collect no_slots (response_fields status marker selected staged)
      ≡ ok (record {
        status = some (plain_field status_name (code_text status));
        rmark = some_if marker (plain_field rmark_name draft02);
        wtp = some_if selected (plain_field wtp_name staged);
      })
unfolding collect place response_fields name_is is_pseudo text_eq
collect-response_fields n true true s = refl
collect-response_fields n true false s = refl
collect-response_fields n false true s = refl
collect-response_fields n false false s = refl

walk_loop-response_fields :
    (status : ℕ) (marker selected : Bool) (staged : List ℕ)
    → status ≤ 999
    → value_is_valid staged ≡ true
    → walk_loop false false (response_fields status marker selected staged) ≡ true
unfolding response_fields name_is_valid value_is_valid is_pseudo is_connection_field walk_loop
walk_loop-response_fields n m sel s u v =
    let f3 = field_if sel (plain_field wtp_name s) [] in
    let f2 = field_if m (plain_field rmark_name draft02) f3 in
    let w3 : (seen : Bool) → walk_loop false seen f3 ≡ true =
      walk_loop-field_if false sel (plain_field wtp_name s) [] refl v refl refl refl
        (λ seen. refl) in
    let w2 : (seen : Bool) → walk_loop false seen f2 ≡ true =
      walk_loop-field_if false m (plain_field rmark_name draft02) f3 refl refl refl refl refl w3 in
    walk_loop-pseudo false (plain_field status_name (code_text n)) f2 refl (digits_valid n u) refl
      (w2 false)

IsPlain-response_fields :
    (status : ℕ) (marker selected : Bool) (staged : List ℕ)
    → let fields = response_fields status marker selected staged in
      All IsPlain fields × (length fields ≤ max_fields)
unfolding response_fields
IsPlain-response_fields n m sel s =
    let p3 = field_if-IsPlain sel (plain_field wtp_name s) [] refl tt in
    let p2 =
      field_if-IsPlain m (plain_field rmark_name draft02) (field_if sel (plain_field wtp_name s) [])
        refl p3.0 in
    ((refl, p2.0), omega (arith, p3.1, p2.1))

response_protocol-staged :
    (o : Option (List ℕ)) (staged : List ℕ) (opts : Opts) (room : ℕ)
    → (selected? o ≡ false) ⊎ (chosen (parse_item staged opts.lenient_sf_tokens room) ≡ ok o)
    → response_protocol opts room (some_if (selected? o) (plain_field wtp_name staged)) ≡ ok o
unfolding response_protocol
response_protocol-staged none staged opts room h = refl
response_protocol-staged (some s) staged opts room (inl e) = absurd cc
response_protocol-staged (some s) staged opts room (inr e) = e

-- What the receiver makes of a response.
abbrev pub answered : ℕ → Option (List ℕ) → Bool → Resp
answered status selected marker = record {
  status = status;
  protocol = selected;
  d02_marker = if marker then draft02 else [];
  has_d02_marker = marker;
}

finish :
    (status : ℕ) (selected : Option (List ℕ)) (marker : Bool)
    → (record {
      status = status;
      protocol = selected;
      d02_marker = value_or_empty (some_if marker (plain_field rmark_name draft02));
      has_d02_marker = present (some_if marker (plain_field rmark_name draft02));
    })
      ≡ answered status selected marker
finish status selected true = refl
finish status selected false = refl

status_code-code_text :
    (n : ℕ) → 100 ≤ n → n ≤ 999 → status_code (some (plain_field status_name (code_text n))) ≡ ok n
unfolding status_code
status_code-code_text n l u = rw (code_digits-code_text n u, le→ltb n 100 l) refl

-- The client reads the response that the server writes: with room for the selected protocol, the
-- section decodes to the status, the protocol, absent where none was selected, and the draft-02
-- marker, which is "draft02".
pub decode_response-encode_response_ex :
    (status : ℕ) (selected : Option (List ℕ)) (marker : Bool) (room : ℕ) (bs : List ℕ) (opts : Opts)
    (scratch_cap : ℕ)
    → encode_response_ex status selected marker room ≡ ok bs
    → length bs + length (text_of selected) ≤ scratch_cap
    → decode_response bs opts scratch_cap ≡ ok (answered status selected marker)
unfolding encode_response_ex decode_response
decode_response-encode_response_ex n o m room bs opts sc h s =
    let g = guard_passed (ltb n 100 || ltb 999 n) malformed _ bs h in
    let l : 100 ≤ n = ground (arith, g.0) in
    let u : n ≤ 999 = ground (arith, g.0) in
    let (staged, e, k) = >>=_ok (staged_item o) _ bs g.1 in
    let fields = response_fields n m (selected? o) staged in
    let small = encode_section-literals_len fields room bs (encoded_ok _ bs k) in
    let left = sc - literals_len fields in
    let q = staged_item_lem o staged opts.lenient_sf_tokens left e (omega arith) in
    let plain = IsPlain-response_fields n m (selected? o) staged in
    let walk = walk_loop-response_fields n m (selected? o) staged u q.0 in
    let w = walk_init-encode_section fields room sc false bs k plain.0 plain.1 (omega arith) walk in
    rw
      (
        w,
        collect-response_fields n m (selected? o) staged,
        status_code-code_text n l u,
        response_protocol-staged o staged opts left q.1,
      )
      (ap ok (finish n o m))
