-- ===== src/Proto/Connect/Response/Sound.antt =====
-- The loop over the fields of a response in src/proto/connect.c, and what an accepted one is.
use wtquic.Base.{
  ℕ, ◌+◌, ◌-◌, ◌*◌, ◌≤◌, ◌≡◌, refl, sym, subst, ap, ◌∙◌, append-nil, arith, inl, inr, Bool, false,
  ◌||◌, List, [], ◌∷◌, ◌++◌, Option, some, none, ltb, if◌then◌else◌, Bool-cases,
}
use wtquic.Proto.Varint
use wtquic.Proto.Varint.{Result, done, fail}
use wtquic.Proto.SfString.Choice.{text_eq_lem}
use wtquic.Proto.SfString.Write.{text_eq}
use wtquic.Proto.SfString.Fields.{parse_item}
use wtquic.Proto.Qpack.Section.{Field, decode_section}
use wtquic.Proto.Connect.{
  Opts, is_empty, name_is, is_pseudo, ok, ok-injective, >>=_ok, guard_passed, malformed, walk_init,
  max_fields,
}
use wtquic.Proto.Connect.Rules.{walk_init-IsMessage, IsMessage}
use wtquic.Proto.Connect.Request.Collect.{values, held, named, put_lem}
use wtquic.Proto.Connect.Request.Sound.{held_lem}
use wtquic.Proto.Connect.Response.{
  Resp, Slots, no_slots, place, collect, status_name, rmark_name, wtp_name, code_digits,
  status_code, chosen, response_protocol, decode_response,
}
use wtquic.Proto.Connect.Encode.{code_text}

-- The slots `t` hold what `s` holds and what `fields` add.
unfoldable Agree : Slots → List Field → Slots → Type 0
unfolding values
Agree s fields t =
    (held s.status ++ values status_name fields ≡ held t.status)
    × (held s.rmark ++ values rmark_name fields ≡ held t.rmark)
    × (held s.wtp ++ values wtp_name fields ≡ held t.wtp)

-- A field may follow where its slot is free.
abbrev MayFollow : List ℕ → Type 0
MayFollow n =
    (v : List ℕ) (b : Bool) (s s' t : Slots) (fields : List Field)
    → place s (named n v b) ≡ ok s'
    → Agree s' fields t
    → Agree s (named n v b ∷ fields) t

status_follows : MayFollow status_name
unfolding place name_is is_pseudo text_eq Agree
status_follows v b s s' t fields h a =
    let p = put_lem s.status (record s { status = some (named status_name v b) }) s' h in
    rw p.0 (subst (λ x. Agree x fields t) (sym p.1) a)

rmark_follows : MayFollow rmark_name
unfolding place name_is is_pseudo text_eq Agree
rmark_follows v b s s' t fields h a =
    let p = put_lem s.rmark (record s { rmark = some (named rmark_name v b) }) s' h in
    rw p.0 (subst (λ x. Agree x fields t) (sym p.1) a)

wtp_follows : MayFollow wtp_name
unfolding place name_is is_pseudo text_eq Agree
wtp_follows v b s s' t fields h a =
    let p = put_lem s.wtp (record s { wtp = some (named wtp_name v b) }) s' h in
    rw p.0 (subst (λ x. Agree x fields t) (sym p.1) a)

by_name :
    (n : List ℕ)
    → MayFollow n
    → (f : Field) → f.name ≡ n
    → (s s' t : Slots) (fields : List Field) → place s f ≡ ok s'
    → Agree s' fields t
    → Agree s (f ∷ fields) t
by_name n m f e s s' t fields =
    subst
      (λ x.
        place s (named x f.value f.never_index) ≡ ok s'
        → Agree s' fields t
        → Agree s (named x f.value f.never_index ∷ fields) t)
      (sym e) (m f.value f.never_index s s' t fields)

-- No slot has the name of the field.
abbrev IsUnnamed : Field → Type 0
IsUnnamed f =
    (name_is f status_name ≡ false) × (name_is f rmark_name ≡ false) × (name_is f wtp_name ≡ false)

unnamed_follows :
    (f : Field)
    → IsUnnamed f
    → (s s' t : Slots) (fields : List Field) → place s f ≡ ok s'
    → Agree s' fields t
    → Agree s (f ∷ fields) t
unfolding place Agree
unnamed_follows f u s s' t fields h a = elim (Bool-cases (is_pseudo f)) [
  | inl p ↦ absurd (ground (arith, p, u, h))
  | inr p ↦
      let same : place s f ≡ ok s = rw (p, u.1, u.2) refl in
      rw (u.0, u.1, u.2) (subst (λ x. Agree x fields t) (ok-injective (sym h ∙ same)) a)
]

place_follows :
    (f : Field) (s s' t : Slots) (fields : List Field)
    → place s f ≡ ok s'
    → Agree s' fields t
    → Agree s (f ∷ fields) t
unfolding name_is
place_follows f = elim (text_eq_lem f.name status_name) [
  | inl u0 ↦ by_name status_name status_follows f u0.1
  | inr u0 ↦ elim (text_eq_lem f.name rmark_name) [
    | inl u1 ↦ by_name rmark_name rmark_follows f u1.1
    | inr u1 ↦ elim (text_eq_lem f.name wtp_name) [
      | inl u2 ↦ by_name wtp_name wtp_follows f u2.1
      | inr u2 ↦ unnamed_follows f (u0.0, u1.0, u2.0)
    ]
  ]
]

collect_response_lem :
    (s t : Slots) (fields : List Field) → collect s fields ≡ ok t → Agree s fields t
unfolding collect Agree
collect_response_lem s t [] h =
    subst (λ x. Agree s [] x) (ok-injective h)
      (append-nil (held s.status), append-nil (held s.rmark), append-nil (held s.wtp))
collect_response_lem s t (f ∷ fields) h =
    let (s', e, k) = >>=_ok (place s f) (λ x. collect x fields) t h in
    place_follows f s s' t fields e (collect_response_lem s' t fields k)

is_digit_bounds : (x : ℕ) → (ltb x 0x30 || ltb 0x39 x) ≡ false → (48 ≤ x) × (x ≤ 57)
is_digit_bounds x h = (ground arith, ground arith)

three : {a b c d e f : ℕ} → a ≡ d → b ≡ e → c ≡ f → a ∷ b ∷ c ∷ [] ≡ d ∷ e ∷ f ∷ []
three p q r = cc

code_digits_lem : (v : List ℕ) (c : ℕ) → code_digits v ≡ ok c → (v ≡ code_text c) × (c ≤ 999)
unfolding code_digits code_text
code_digits_lem [] c h = absurd cc
code_digits_lem (x ∷ []) c h = absurd cc
code_digits_lem (x ∷ y ∷ []) c h = absurd cc
code_digits_lem (x ∷ y ∷ z ∷ w ∷ v) c h = absurd cc
code_digits_lem (x ∷ y ∷ z ∷ []) c h =
    let g1 = guard_passed (ltb x 0x30 || ltb 0x39 x) malformed _ c h in
    let g2 = guard_passed (ltb y 0x30 || ltb 0x39 y) malformed _ c g1.1 in
    let g3 = guard_passed (ltb z 0x30 || ltb 0x39 z) malformed _ c g2.1 in
    let d1 = is_digit_bounds x g1.0 in
    let d2 = is_digit_bounds y g2.0 in
    let d3 = is_digit_bounds z g3.0 in
    let e = ok-injective g3.1 in
    let v : c ≡ (x - 48) * 100 + (y - 48) * 10 + (z - 48) = omega arith in
    (three (omega arith) (omega arith) (omega arith), omega arith)

-- The fields behind an accepted response.
abbrev pub IsResponse : List Field → Resp → Type 0
IsResponse fields r =
    (values status_name fields ≡ code_text r.status ∷ [])
    × (100 ≤ r.status)
    × (r.status ≤ 999)
    × (values rmark_name fields ≡ (if r.has_d02_marker then r.d02_marker ∷ [] else []))

-- The protocol of the response is the string of the `wt-protocol` field, not empty.
abbrev pub IsChoice : Opts → ℕ → List (List ℕ) → Option (List ℕ) → Type 0
IsChoice opts room vs none = Unit
IsChoice opts room vs (some p) =
    (v : List ℕ) × (vs ≡ v ∷ [])
    × (parse_item v opts.lenient_sf_tokens room ≡ done p)
    × (is_empty p ≡ false)

chosen_lem :
    (o : Result (List ℕ)) (p : List ℕ)
    → chosen o ≡ ok (some p)
    → (o ≡ done p) × (is_empty p ≡ false)
unfolding chosen
chosen_lem (fail Varint.buffer) p h = absurd cc
chosen_lem (fail Varint.need_more) p h = absurd cc
chosen_lem (fail Varint.range) p h = absurd cc
chosen_lem (fail Varint.invalid) p h = absurd cc
chosen_lem (done []) p h = absurd cc
chosen_lem (done (c ∷ v)) p h =
    let e : c ∷ v ≡ p = cc in (ap done e, subst (λ t. is_empty t ≡ false) e refl)

response_protocol-IsChoice :
    (opts : Opts) (room : ℕ) (o : Option Field) (p : Option (List ℕ))
    → response_protocol opts room o ≡ ok p
    → IsChoice opts room (held o) p
unfolding response_protocol
response_protocol-IsChoice opts room o none h = tt
response_protocol-IsChoice opts room none (some p) h = absurd cc
response_protocol-IsChoice opts room (some f) (some p) h =
    let k = chosen_lem (parse_item f.value opts.lenient_sf_tokens room) p h in
    (f.value, refl, k.0, k.1)

status_code_lem :
    (o : Option Field) (c : ℕ)
    → status_code o ≡ ok c
    → (held o ≡ code_text c ∷ []) × (100 ≤ c) × (c ≤ 999)
unfolding status_code
status_code_lem none c h = absurd cc
status_code_lem (some f) c h =
    let (d, e, k) = >>=_ok (code_digits f.value) _ c h in
    let g = guard_passed (ltb d 100) malformed _ c k in
    let same = ok-injective g.1 in
    let m = code_digits_lem f.value d e in
    (ap (λ t. t ∷ []) (m.0 ∙ ap code_text same), ground arith, omega (arith, m.1))

-- An accepted response has a status from 100 to 999: its section decodes to pseudo-headers and
-- regular fields behind them, all of them valid and none of the connection, in which `:status`
-- stands once, with the three digits of the status; the draft-02 marker stands at most once and is
-- the response's; and a protocol of the response is the non-empty string that the only
-- `wt-protocol` field holds.
pub decode_response_sound :
    (section : List ℕ) (opts : Opts) (scratch_cap : ℕ) (r : Resp)
    → decode_response section opts scratch_cap ≡ ok r
    → (fields : List Field) × (room : ℕ) × (decode_section section max_fields scratch_cap
        ≡ done (fields, room))
      × IsMessage false fields
      × IsResponse fields r
      × IsChoice opts room (values wtp_name fields) r.protocol
unfolding decode_response Agree
decode_response_sound section opts cap r h =
    let (w, e, h1) = >>=_ok (walk_init section cap false) _ r h in
    let (s, c, h2) = >>=_ok (collect no_slots w.fields) _ r h1 in
    let (code, d, h3) = >>=_ok (status_code s.status) _ r h2 in
    let (p, q, h4) = >>=_ok (response_protocol opts w.sf_room s.wtp) _ r h3 in
    let same = ok-injective h4 in
    let m = walk_init-IsMessage section cap false w e in
    let a = collect_response_lem no_slots s w.fields c in
    let (e1, e2, e3) = status_code_lem s.status code d in
    (
      w.fields,
      w.sf_room,
      m.0,
      m.1,
      subst (IsResponse w.fields) same (a.0 ∙ e1, e2, e3, a.1 ∙ held_lem s.rmark),
      subst (λ x. IsChoice opts w.sf_room (values wtp_name w.fields) x.protocol) same
          (subst (λ vs. IsChoice opts w.sf_room vs p) (sym a.2)
            (response_protocol-IsChoice opts w.sf_room s.wtp p q)),
    )
