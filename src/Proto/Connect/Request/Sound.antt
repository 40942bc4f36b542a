-- ===== src/Proto/Connect/Request/Sound.antt =====
-- What an accepted request of src/proto/connect.c is.
use wtquic.Base.{
  ℕ, ◌≡◌, refl, sym, subst, ap, ◌∙◌, arith, ◌⊎◌, inl, inr, Bool, true, false, not, ◌&&◌, ◌||◌, List,
  [], ◌∷◌, ◌++◌, Option, some, none, if◌then◌else◌, Bool-cases, All,
}
use wtquic.Proto.Varint.{done}
use wtquic.Proto.SfString.Choice.{text_eq_lem}
use wtquic.Proto.Qpack.Section.{Field, decode_section}
use wtquic.Proto.Connect.{
  Opts, is_empty, value_is, span_ieq, ok, ok-injective, >>=_ok, guard_passed, value_is_token,
  scheme_is_valid, walk_init, malformed, max_fields,
}
use wtquic.Proto.Connect.Request.{
  Req, Slots, ordinary_request, no_slots, collect, classify, connect_request, extended,
  web_transport, offered, host_agrees, present, value_or_empty, when_present, decode_request,
  has_pseudo, validate_trailers, method_name, scheme_name, authority_name, path_name, protocol_name,
  origin_name, d02_marker_name, host_name, connect, https, protocol_token, protocol_token_legacy,
}
use wtquic.Proto.Connect.Rules.{walk_init_ok, walk_init-IsMessage, IsMessage, IsRegular}
use wtquic.Proto.Connect.Request.Collect.{values, held, Agree, collect_lem}

-- The slots of an accepted request.
abbrev IsAccepted : Opts → Slots → Req → Type 0
IsAccepted opts s r =
    (held s.method ≡ connect ∷ [])
    × (held s.scheme ≡ https ∷ [])
    × (held s.authority ≡ r.authority ∷ [])
    × (held s.path ≡ r.path ∷ [])
    × (held s.protocol ≡ (if r.legacy_protocol then protocol_token_legacy else protocol_token) ∷ [])
    × (held s.origin ≡ (if r.has_origin then r.origin ∷ [] else []))
    × (held s.d02_marker ≡ (if r.has_d02_marker then r.d02_marker ∷ [] else []))
    × (host_agrees s.host s.authority ≡ true)
    × (is_empty r.authority ≡ false)
    × (is_empty r.path ≡ false)
    × ((r.legacy_protocol && not opts.accept_legacy_protocol) ≡ false)

value_is→eq : (f : Field) (t : List ℕ) → value_is f t ≡ true → f.value ≡ t
unfolding value_is
value_is→eq f t h = elim (text_eq_lem f.value t) [ inl (b, e) ↦ e | inr (b, n) ↦ absurd cc ]

pub held_lem : (o : Option Field) → held o ≡ (if present o then value_or_empty o ∷ [] else [])
held_lem none = refl
held_lem (some f) = refl

-- The rules of `web_transport`, for the fields that it is given.
web_transport_lem :
    (opts : Opts) (mp room : ℕ) (s : Slots) (sc a p : Field) (legacy : Bool) (r : Req)
    → web_transport opts mp room s sc a p legacy ≡ ok r
    → (sc.value ≡ https)
      × (is_empty a.value ≡ false)
      × (is_empty p.value ≡ false)
      × (r.authority ≡ a.value)
      × (r.path ≡ p.value)
      × (r.legacy_protocol ≡ legacy)
      × (held s.origin ≡ (if r.has_origin then r.origin ∷ [] else []))
      × (held s.d02_marker ≡ (if r.has_d02_marker then r.d02_marker ∷ [] else []))
unfolding web_transport
web_transport_lem opts mp room s sc a p legacy r h =
    let g = guard_passed (not (value_is sc https)) malformed _ r h in
    let k = guard_passed (is_empty a.value || is_empty p.value) malformed _ r g.1 in
    let (ps, o, e) = >>=_ok (offered opts mp room s.wtap) _ r k.1 in
    let e' = ok-injective e in
    (
      value_is→eq sc https (ground (arith, g.0)),
      ground (arith, k.0),
      ground (arith, k.0),
      ap (λ x. x.authority) (sym e'),
      ap (λ x. x.path) (sym e'),
      ap (λ x. x.legacy_protocol) (sym e'),
      held_lem s.origin ∙ ap (λ x. if x.has_origin then x.origin ∷ [] else []) e',
      held_lem s.d02_marker ∙ ap (λ x. if x.has_d02_marker then x.d02_marker ∷ [] else []) e',
    )

-- What `extended` asks for, with the slots of its fields apart.
abbrev IsExtended :
    Opts → Slots → Option Field → Option Field → Option Field → Option Field → Req → Type 0
IsExtended opts s p sc a pa r =
    (held sc ≡ https ∷ [])
    × (held a ≡ r.authority ∷ [])
    × (held pa ≡ r.path ∷ [])
    × (held p ≡ (if r.legacy_protocol then protocol_token_legacy else protocol_token) ∷ [])
    × (held s.origin ≡ (if r.has_origin then r.origin ∷ [] else []))
    × (held s.d02_marker ≡ (if r.has_d02_marker then r.d02_marker ∷ [] else []))
    × (is_empty r.authority ≡ false)
    × (is_empty r.path ≡ false)
    × ((r.legacy_protocol && not opts.accept_legacy_protocol) ≡ false)

one : {s t : List ℕ} → s ≡ t → s ∷ [] ≡ t ∷ []
one e = ap (λ x. x ∷ []) e

web_transport-IsExtended :
    (opts : Opts) (mp room : ℕ) (s : Slots) (pr sc a p : Field) (legacy : Bool) (r : Req)
    → web_transport opts mp room s sc a p legacy ≡ ok r
    → pr.value ≡ (if legacy then protocol_token_legacy else protocol_token)
    → (legacy && not opts.accept_legacy_protocol) ≡ false
    → IsExtended opts s (some pr) (some sc) (some a) (some p) r
web_transport-IsExtended opts mp room s pr sc a p legacy r h v l =
    let (e, na, np, ea, ep, el, o, d) = web_transport_lem opts mp room s sc a p legacy r h in
    (one e, one (sym ea), one (sym ep), rw el (one v), o, d, rw ea na, rw ep np, rw el l)

extended-IsExtended :
    (opts : Opts) (mp room : ℕ) (s : Slots) (pr : Field) (sc a pa : Option Field) (r : Req)
    → extended opts mp room s pr sc a pa ≡ ok r
    → IsExtended opts s (some pr) sc a pa r
unfolding extended
extended-IsExtended opts mp room s pr (some sc) (some a) none r h = absurd cc
extended-IsExtended opts mp room s pr (some sc) none pa r h = absurd cc
extended-IsExtended opts mp room s pr none a pa r h = absurd cc
extended-IsExtended opts mp room s pr (some sc) (some a) (some p) r h =
    elim (Bool-cases (value_is pr protocol_token)) [
      | inl b ↦
          web_transport-IsExtended opts mp room s pr sc a p false r (ground (arith, b, h))
            (value_is→eq pr protocol_token b) refl
      | inr b ↦
          elim (Bool-cases (opts.accept_legacy_protocol && value_is pr protocol_token_legacy)) [
            | inl c ↦
                web_transport-IsExtended opts mp room s pr sc a p true r (ground (arith, b, c, h))
                  (value_is→eq pr protocol_token_legacy (ground (arith, c))) (ground (arith, c))
            | inr c ↦ absurd (ground (arith, b, c, h))
          ]
    ]

connect_request-IsExtended :
    (opts : Opts) (mp room : ℕ) (s : Slots) (p : Option Field) (r : Req)
    → connect_request opts mp room s p ≡ ok r
    → IsExtended opts s p s.scheme s.authority s.path r
unfolding connect_request
connect_request-IsExtended opts mp room s none r h = absurd cc
connect_request-IsExtended opts mp room s (some p) r h =
    extended-IsExtended opts mp room s p s.scheme s.authority s.path r h

classify-IsAccepted :
    (opts : Opts) (mp room : ℕ) (s : Slots) (m : Option Field) (r : Req)
    → classify opts mp room s m ≡ ok r
    → s.method ≡ m
    → IsAccepted opts s r
unfolding classify
classify-IsAccepted opts mp room s none r h q = absurd cc
classify-IsAccepted opts mp room s (some m) r h q =
    let g1 = guard_passed (not (value_is_token m.value)) malformed _ r h in
    let g2 = guard_passed (not (when_present value_is_token s.protocol)) malformed _ r g1.1 in
    let g3 = guard_passed (not (when_present scheme_is_valid s.scheme)) malformed _ r g2.1 in
    let g4 = guard_passed (not (host_agrees s.host s.authority)) malformed _ r g3.1 in
    let g5 =
      guard_passed (not (value_is m connect)) (ordinary_request s s.scheme s.path s.protocol) _ r
        g4.1 in
    let (e1, e2, e3, e4, e5, e6, e7, e8, e9) =
      connect_request-IsExtended opts mp room s s.protocol r g5.1 in
    (
      rw q (one (value_is→eq m connect (ground (arith, g5.0)))),
      e1,
      e2,
      e3,
      e4,
      e5,
      e6,
      ground (arith, g4.0),
      e7,
      e8,
      e9,
    )

-- The fields behind an accepted request.
abbrev pub IsConnect : Opts → List Field → Req → Type 0
IsConnect opts fields r =
    (values method_name fields ≡ connect ∷ [])
    × (values scheme_name fields ≡ https ∷ [])
    × (values authority_name fields ≡ r.authority ∷ [])
    × (values path_name fields ≡ r.path ∷ [])
    × (values protocol_name fields
        ≡ (if r.legacy_protocol then protocol_token_legacy else protocol_token) ∷ [])
    × (values origin_name fields ≡ (if r.has_origin then r.origin ∷ [] else []))
    × (values d02_marker_name fields ≡ (if r.has_d02_marker then r.d02_marker ∷ [] else []))
    × (is_empty r.authority ≡ false)
    × (is_empty r.path ≡ false)
    × ((r.legacy_protocol && not opts.accept_legacy_protocol) ≡ false)

-- At most one field has the name, and where there is one, it agrees with the authority and is not
-- empty.
abbrev pub AgreesWith : List ℕ → List (List ℕ) → Type 0
AgreesWith authority hosts =
    (hosts ≡ [])
    ⊎ ((h : List ℕ) × (hosts ≡ h ∷ []) × (is_empty h ≡ false) × (span_ieq h authority ≡ true))

host-AgreesWith :
    (h a : Option Field) (authority : List ℕ)
    → host_agrees h a ≡ true
    → held a ≡ authority ∷ []
    → AgreesWith authority (held h)
unfolding host_agrees
host-AgreesWith none a authority g e = inl refl
host-AgreesWith (some h) none authority g e = absurd cc
host-AgreesWith (some h) (some a) authority g e =
    let v : a.value ≡ authority = cc in
    inr (
      h.value,
      refl,
      ground (arith, g),
      subst (λ x. span_ieq h.value x ≡ true) v (ground (arith, g)),
    )

-- An accepted request is a WebTransport CONNECT: its section decodes to fields in which each of
-- the pseudo-headers stands once, with the method CONNECT, the scheme https, a non-empty authority
-- and path, which are the request's, and the protocol token, the legacy one only where the
-- options accept it; the origin and the draft-02 marker stand at most once and are the request's;
-- and a host, at most one, is not empty and agrees with the authority up to letter case.
pub decode_request_sound :
    (section : List ℕ) (opts : Opts) (max_protocols scratch_cap : ℕ) (r : Req)
    → decode_request section opts max_protocols scratch_cap ≡ ok r
    → (fields : List Field) × (room : ℕ) × (decode_section section max_fields scratch_cap
        ≡ done (fields, room))
      × IsConnect opts fields r
      × AgreesWith r.authority (values host_name fields)
unfolding decode_request Agree
decode_request_sound section opts mp cap r h =
    let (w, e, h1) = >>=_ok (walk_init section cap true) _ r h in
    let (s, c, h2) = >>=_ok (collect no_slots w.fields) _ r h1 in
    let a = collect_lem no_slots s w.fields c in
    let (e0, e1, e2, e3, e4, e5, e6, e7, e8, e9, e10) =
      classify-IsAccepted opts mp w.sf_room s s.method r h2 refl in
    let d = walk_init_ok section cap true w e in
    (
      w.fields,
      w.sf_room,
      d.0,
      (a.0 ∙ e0, a.1 ∙ e1, a.2 ∙ e2, a.3 ∙ e3, a.4 ∙ e4, a.5 ∙ e5, a.6 ∙ e6, e8, e9, e10),
      subst (AgreesWith r.authority) (sym a.8)
          (host-AgreesWith s.host s.authority r.authority e7 e2),
    )

no_pseudo :
    (fields : List Field)
    → has_pseudo fields ≡ false
    → IsMessage false fields
    → All (IsRegular false) fields
unfolding has_pseudo
no_pseudo fields h ([], rs, e, hp, hr) = subst (All (IsRegular false)) (sym e) hr
no_pseudo fields h (f ∷ ps, rs, e, hp, hr) =
    let k : has_pseudo (f ∷ (ps ++ rs)) ≡ false = subst (λ t. has_pseudo t ≡ false) e h in
    absurd (ground (arith, k, hp.0.1))

-- A trailer section is accepted only where it decodes to regular fields: each has a valid name and
-- value, none is a pseudo-header, belongs to the connection or is a `te`.
pub validate_trailers_sound :
    (section : List ℕ) (scratch_cap : ℕ) (u : Unit)
    → validate_trailers section scratch_cap ≡ ok u
    → (fields : List Field) × (room : ℕ) × (decode_section section max_fields scratch_cap
        ≡ done (fields, room))
      × All (IsRegular false) fields
unfolding validate_trailers
validate_trailers_sound section cap u h =
    let (w, e, k) = >>=_ok (walk_init section cap false) _ u h in
    let m = walk_init-IsMessage section cap false w e in
    let g = guard_passed (has_pseudo w.fields) malformed _ u k in
    (w.fields, w.sf_room, m.0, no_pseudo w.fields g.0 m.1)
