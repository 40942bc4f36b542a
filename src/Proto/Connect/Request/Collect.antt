-- ===== src/Proto/Connect/Request/Collect.antt =====
-- The loop over the fields of a request in src/proto/connect.c: what its slots hold in the end.
use wtquic.Base.{
  ℕ, ◌≡◌, refl, sym, subst, ◌∙◌, append-nil, arith, Bool-cases, inl, inr, Bool, false, List, [],
  ◌∷◌, ◌++◌, Option, some, none, if◌then◌else◌,
}
use wtquic.Proto.SfString.Write.{text_eq}
use wtquic.Proto.SfString.Choice.{text_eq_lem}
use wtquic.Proto.Qpack.Section.{Field}
use wtquic.Proto.Connect.{name_is, is_pseudo, ok, ok-injective, >>=_ok}
use wtquic.Proto.Connect.Request.{
  Slots, put, place_pseudo, place_regular, place, collect, method_name, scheme_name, authority_name,
  path_name, protocol_name, origin_name, d02_marker_name, wtap_name, host_name,
}

-- The values of the fields with a name, in their order.
unfoldable pub values : List ℕ → List Field → List (List ℕ)
unfolding name_is
values n [] = []
values n (f ∷ fields) = let rest = values n fields in if name_is f n then (f.value ∷ rest) else rest

abbrev pub held : Option Field → List (List ℕ)
held none = []
held (some f) = f.value ∷ []

-- The slots `t` hold what `s` holds and what `fields` add.
unfoldable pub Agree : Slots → List Field → Slots → Type 0
unfolding values
Agree s fields t =
    (held s.method ++ values method_name fields ≡ held t.method)
    × (held s.scheme ++ values scheme_name fields ≡ held t.scheme)
    × (held s.authority ++ values authority_name fields ≡ held t.authority)
    × (held s.path ++ values path_name fields ≡ held t.path)
    × (held s.protocol ++ values protocol_name fields ≡ held t.protocol)
    × (held s.origin ++ values origin_name fields ≡ held t.origin)
    × (held s.d02_marker ++ values d02_marker_name fields ≡ held t.d02_marker)
    × (held s.wtap ++ values wtap_name fields ≡ held t.wtap)
    × (held s.host ++ values host_name fields ≡ held t.host)

pub put_lem : {A : Type 0} (o : Option Field) (s t : A) → put o s ≡ ok t → (o ≡ none) × (s ≡ t)
put_lem none s t e = (refl, cc)
put_lem (some f) s t e = absurd cc

abbrev pub named : List ℕ → List ℕ → Bool → Field
named n v b = record { name = n; value = v; never_index = b }

-- A field may follow where its slot is free.
abbrev MayFollow : List ℕ → Type 0
MayFollow n =
    (v : List ℕ) (b : Bool) (s s' t : Slots) (fields : List Field)
    → place s (named n v b) ≡ ok s'
    → Agree s' fields t
    → Agree s (named n v b ∷ fields) t

method_follows : MayFollow method_name
unfolding place place_pseudo place_regular name_is is_pseudo text_eq Agree
method_follows v b s s' t fields h a =
    let p = put_lem s.method (record s { method = some (named method_name v b) }) s' h in
    rw p.0 (subst (λ x. Agree x fields t) (sym p.1) a)

scheme_follows : MayFollow scheme_name
unfolding place place_pseudo place_regular name_is is_pseudo text_eq Agree
scheme_follows v b s s' t fields h a =
    let p = put_lem s.scheme (record s { scheme = some (named scheme_name v b) }) s' h in
    rw p.0 (subst (λ x. Agree x fields t) (sym p.1) a)

authority_follows : MayFollow authority_name
unfolding place place_pseudo place_regular name_is is_pseudo text_eq Agree
authority_follows v b s s' t fields h a =
    let p = put_lem s.authority (record s { authority = some (named authority_name v b) }) s' h in
    rw p.0 (subst (λ x. Agree x fields t) (sym p.1) a)

path_follows : MayFollow path_name
unfolding place place_pseudo place_regular name_is is_pseudo text_eq Agree
path_follows v b s s' t fields h a =
    let p = put_lem s.path (record s { path = some (named path_name v b) }) s' h in
    rw p.0 (subst (λ x. Agree x fields t) (sym p.1) a)

protocol_follows : MayFollow protocol_name
unfolding place place_pseudo place_regular name_is is_pseudo text_eq Agree
protocol_follows v b s s' t fields h a =
    let p = put_lem s.protocol (record s { protocol = some (named protocol_name v b) }) s' h in
    rw p.0 (subst (λ x. Agree x fields t) (sym p.1) a)

origin_follows : MayFollow origin_name
unfolding place place_pseudo place_regular name_is is_pseudo text_eq Agree
origin_follows v b s s' t fields h a =
    let p = put_lem s.origin (record s { origin = some (named origin_name v b) }) s' h in
    rw p.0 (subst (λ x. Agree x fields t) (sym p.1) a)

d02_marker_follows : MayFollow d02_marker_name
unfolding place place_pseudo place_regular name_is is_pseudo text_eq Agree
d02_marker_follows v b s s' t fields h a =
    let p =
      put_lem s.d02_marker (record s { d02_marker = some (named d02_marker_name v b) }) s' h in
    rw p.0 (subst (λ x. Agree x fields t) (sym p.1) a)

wtap_follows : MayFollow wtap_name
unfolding place place_pseudo place_regular name_is is_pseudo text_eq Agree
wtap_follows v b s s' t fields h a =
    let p = put_lem s.wtap (record s { wtap = some (named wtap_name v b) }) s' h in
    rw p.0 (subst (λ x. Agree x fields t) (sym p.1) a)

host_follows : MayFollow host_name
unfolding place place_pseudo place_regular name_is is_pseudo text_eq Agree
host_follows v b s s' t fields h a =
    let p = put_lem s.host (record s { host = some (named host_name v b) }) s' h in
    rw p.0 (subst (λ x. Agree x fields t) (sym p.1) a)

by_name :
    (n : List ℕ)
    → MayFollow n
    → (f : Field) → f.name ≡ n
    → (s s' t : Slots) (fields : List Field) → place s f ≡ ok s'
    → Agree s' fields t
    → Agree s (f ∷ fields) t
by_name n m f e s s' t fields =
    subst
      (λ x.
        place s (named x f.value f.never_index) ≡ ok s'
        → Agree s' fields t
        → Agree s (named x f.value f.never_index ∷ fields) t)
      (sym e) (m f.value f.never_index s s' t fields)

-- No slot has the name of the field.
abbrev IsUnnamed : Field → Type 0
IsUnnamed f =
    (name_is f method_name ≡ false)
    × (name_is f scheme_name ≡ false)
    × (name_is f authority_name ≡ false)
    × (name_is f path_name ≡ false)
    × (name_is f protocol_name ≡ false)
    × (name_is f origin_name ≡ false)
    × (name_is f d02_marker_name ≡ false)
    × (name_is f wtap_name ≡ false)
    × (name_is f host_name ≡ false)

ignored : (f : Field) → IsUnnamed f → (s : Slots) → place_regular s f ≡ ok s
unfolding place_regular
ignored f u s = rw (u.5, u.6, u.7, u.8) refl

unnamed_follows :
    (f : Field)
    → IsUnnamed f
    → (s s' t : Slots) (fields : List Field) → place s f ≡ ok s'
    → Agree s' fields t
    → Agree s (f ∷ fields) t
unfolding place place_pseudo place_regular Agree
unnamed_follows f u s s' t fields h a = elim (Bool-cases (is_pseudo f)) [
  | inl p ↦ absurd (ground (arith, p, u, h))
  | inr p ↦
      let same : place s f ≡ ok s = rw p (ignored f u s) in
      rw (u.0, u.1, u.2, u.3, u.4, u.5, u.6, u.7, u.8)
        (subst (λ x. Agree x fields t) (ok-injective (sym h ∙ same)) a)
]

place_follows :
    (f : Field) (s s' t : Slots) (fields : List Field)
    → place s f ≡ ok s'
    → Agree s' fields t
    → Agree s (f ∷ fields) t
unfolding name_is
place_follows f = elim (text_eq_lem f.name method_name) [
  | inl u0 ↦ by_name method_name method_follows f u0.1
  | inr u0 ↦ elim (text_eq_lem f.name scheme_name) [
    | inl u1 ↦ by_name scheme_name scheme_follows f u1.1
    | inr u1 ↦ elim (text_eq_lem f.name authority_name) [
      | inl u2 ↦ by_name authority_name authority_follows f u2.1
      | inr u2 ↦ elim (text_eq_lem f.name path_name) [
        | inl u3 ↦ by_name path_name path_follows f u3.1
        | inr u3 ↦ elim (text_eq_lem f.name protocol_name) [
          | inl u4 ↦ by_name protocol_name protocol_follows f u4.1
          | inr u4 ↦ elim (text_eq_lem f.name origin_name) [
            | inl u5 ↦ by_name origin_name origin_follows f u5.1
            | inr u5 ↦ elim (text_eq_lem f.name d02_marker_name) [
              | inl u6 ↦ by_name d02_marker_name d02_marker_follows f u6.1
              | inr u6 ↦ elim (text_eq_lem f.name wtap_name) [
                | inl u7 ↦ by_name wtap_name wtap_follows f u7.1
                | inr u7 ↦ elim (text_eq_lem f.name host_name) [
                  | inl u8 ↦ by_name host_name host_follows f u8.1
                  | inr u8 ↦
                      unnamed_follows f (u0.0, u1.0, u2.0, u3.0, u4.0, u5.0, u6.0, u7.0, u8.0)
                ]
              ]
            ]
          ]
        ]
      ]
    ]
  ]
]

pub collect_lem : (s t : Slots) (fields : List Field) → collect s fields ≡ ok t → Agree s fields t
unfolding collect Agree
collect_lem s t [] h =
    subst (λ x. Agree s [] x) (ok-injective h)
      (
        append-nil (held s.method),
        append-nil (held s.scheme),
        append-nil (held s.authority),
        append-nil (held s.path),
        append-nil (held s.protocol),
        append-nil (held s.origin),
        append-nil (held s.d02_marker),
        append-nil (held s.wtap),
        append-nil (held s.host),
      )
collect_lem s t (f ∷ fields) h =
    let (s', e, k) = >>=_ok (place s f) (λ x. collect x fields) t h in
    place_follows f s s' t fields e (collect_lem s' t fields k)
