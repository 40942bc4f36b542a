-- ===== src/Proto/Connect/Rules.antt =====
-- The rules for every field in `walk_init` of src/proto/connect.c.
use wtquic.Base.{
  ℕ, ◌≡◌, refl, sym, subst, ap, ◌∙◌, arith, ◌⊎◌, inl, inr, Bool, true, false, not, ◌&&◌, ◌||◌, List,
  [], ◌∷◌, ◌++◌, if◌then◌else◌, All, Bool-cases,
}
use wtquic.Proto.Varint
use wtquic.Proto.Varint.{Result, done, fail}
use wtquic.Proto.Qpack.Section.{Field, decode_section}
use wtquic.Proto.Connect.{
  Walk, walked, walk_init, walk_loop, ok, ok-injective, max_fields, name_is, name_is_valid,
  value_is_valid, is_pseudo, is_connection_field, te_is_trailers, te,
}

walked_ok :
    (request_headers : Bool) (r : Result (List Field × ℕ)) (w : Walk)
    → walked request_headers r ≡ ok w
    → (r ≡ done (w.fields, w.sf_room)) × (walk_loop request_headers false w.fields ≡ true)
unfolding walked
walked_ok b (fail Varint.buffer) w h = absurd cc
walked_ok b (fail Varint.need_more) w h = absurd cc
walked_ok b (fail Varint.range) w h = absurd cc
walked_ok b (fail Varint.invalid) w h = absurd cc
walked_ok b (done (fields, room)) w h = elim (Bool-cases (walk_loop b false fields)) [
  | inr p ↦ absurd (ground (arith, p, h))
  | inl p ↦
      let same : ok (record { fields = fields; sf_room = room }) ≡ ok w = ground (arith, p, h) in
      let e = ok-injective same in
      (ap (λ x. done (x.fields, x.sf_room)) e, sym (ap (λ x. walk_loop b false x.fields) e) ∙ p)
]

pub walk_init_ok :
    (section : List ℕ) (scratch_cap : ℕ) (request_headers : Bool) (w : Walk)
    → walk_init section scratch_cap request_headers ≡ ok w
    → (decode_section section max_fields scratch_cap ≡ done (w.fields, w.sf_room))
      × (walk_loop request_headers false w.fields ≡ true)
unfolding walk_init
walk_init_ok section cap b w h = walked_ok b (decode_section section max_fields cap) w h

-- What every field obeys.
abbrev pub IsField : Field → Type 0
IsField f = (name_is_valid f ≡ true) × (value_is_valid f.value ≡ true)

-- What a regular field obeys besides: it does not belong to the connection, and a `te` stands in
-- request headers alone, with nothing but trailers.
abbrev pub IsRegular : Bool → Field → Type 0
IsRegular request_headers f =
    IsField f
    × (is_pseudo f ≡ false)
    × (is_connection_field f ≡ false)
    × ((name_is f te && (not request_headers || not (te_is_trailers f))) ≡ false)

abbrev pub IsPseudo : Field → Type 0
IsPseudo f = IsField f × (is_pseudo f ≡ true)

refused : (c d : Bool) → (if c then false else d) ≡ true → (c ≡ false) × (d ≡ true)
refused true d e = absurd cc
refused false d e = (refl, e)

taken : (b c d : Bool) → b ≡ true → (if b then c else d) ≡ true → c ≡ true
taken b c d p e = subst (λ t. (if t then c else d) ≡ true) p e

not_taken : (b c d : Bool) → b ≡ false → (if b then c else d) ≡ true → d ≡ true
not_taken b c d p e = subst (λ t. (if t then c else d) ≡ true) p e

walk_cons :
    (b seen : Bool) (f : Field) (fields : List Field)
    → walk_loop b seen (f ∷ fields) ≡ true
    → (walk_loop b (seen || not (is_pseudo f)) fields ≡ true)
      × ((IsPseudo f × (seen ≡ false)) ⊎ IsRegular b f)
unfolding walk_loop
walk_cons b seen f fields h =
    let g = refused (not (name_is_valid f)) _ h in
    let k = refused (not (value_is_valid f.value)) _ g.1 in
    let valid : IsField f = (ground (arith, g.0), ground (arith, k.0)) in
    elim (Bool-cases (is_pseudo f)) [
      | inl p ↦
          let m = refused seen _ (taken (is_pseudo f) _ _ p k.1) in
          (ground (arith, p, m.1), inl ((valid, p), m.0))
      | inr p ↦
          let m = refused (is_connection_field f) _ (not_taken (is_pseudo f) _ _ p k.1) in
          let o = refused (name_is f te && (not b || not (te_is_trailers f))) _ m.1 in
          (ground (arith, p, o.1), inr (valid, p, m.0, o.0))
    ]

-- Behind a regular field there are regular fields only.
walk-IsRegular :
    (b : Bool) (fields : List Field) → walk_loop b true fields ≡ true → All (IsRegular b) fields
walk-IsRegular b [] h = tt
walk-IsRegular b (f ∷ fields) h =
    let (k, c) = walk_cons b true f fields h in
    elim c [ inl (p, e) ↦ absurd cc | inr r ↦ (r, walk-IsRegular b fields k) ]

-- Pseudo-headers, and regular fields behind them.
abbrev pub IsMessage : Bool → List Field → Type 0
IsMessage b fields =
    (pseudo : List Field) × (regular : List Field) × (fields ≡ pseudo ++ regular)
    × All IsPseudo pseudo
    × All (IsRegular b) regular

IsMessage-cons :
    (b : Bool) (f : Field) (fields : List Field)
    → IsPseudo f
    → IsMessage b fields
    → IsMessage b (f ∷ fields)
IsMessage-cons b f fields p (ps, rs, e, hp, hr) = (f ∷ ps, rs, ap (λ t. f ∷ t) e, (p, hp), hr)

walk-IsMessage :
    (b : Bool) (fields : List Field) → walk_loop b false fields ≡ true → IsMessage b fields
walk-IsMessage b [] h = ([], [], refl, tt, tt)
walk-IsMessage b (f ∷ fields) h =
    let (k, c) = walk_cons b false f fields h in
    elim c [
      | inl (p, e) ↦
          IsMessage-cons b f fields p
            (walk-IsMessage b fields (subst (λ t. walk_loop b (not t) fields ≡ true) p.1 k))
      | inr r ↦ (
        [],
        f ∷ fields,
        refl,
        tt,
        (r, walk-IsRegular b fields (subst (λ t. walk_loop b (not t) fields ≡ true) r.1 k)),
      )
    ]

-- The fields that the walk lets through are those that the section decodes to, pseudo-headers
-- first. Every one has a valid name and value; a regular one does not belong to the connection, and
-- it is a `te` only in request headers, with nothing but trailers.
pub walk_init-IsMessage :
    (section : List ℕ) (scratch_cap : ℕ) (request_headers : Bool) (w : Walk)
    → walk_init section scratch_cap request_headers ≡ ok w
    → (decode_section section max_fields scratch_cap ≡ done (w.fields, w.sf_room))
      × IsMessage request_headers w.fields
walk_init-IsMessage section cap b w h =
    let d = walk_init_ok section cap b w h in (d.0, walk-IsMessage b w.fields d.1)
