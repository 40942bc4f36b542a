-- ===== src/Proto/SfString/Choice.antt =====
-- The choice of a subprotocol in src/proto/sf_string.c.
use wtquic.Base.{
  ℕ, zero, suc, ◌+◌, ◌<◌, ◌≡◌, ◌≢◌, refl, ap, ◌∙◌, arith, true, false, ◌⊎◌, inl, inr, List, [], ◌∷◌,
  some, none, get_elem?,
}
use wtquic.Proto.SfString.Write.{text_eq, is_supported, select_from, select}

-- A text stands at some place of a list.
abbrev pub Listed : List ℕ → List (List ℕ) → Type 0
Listed s ts = (j : ℕ) × (get_elem? ts j ≡ some s)

pub text_eq_lem :
    (s t : List ℕ) → ((text_eq s t ≡ true) × (s ≡ t)) ⊎ ((text_eq s t ≡ false) × (s ≢ t))
unfolding text_eq
text_eq_lem [] [] = inl (refl, refl)
text_eq_lem [] (d ∷ t) = inr (refl, λ e. cc)
text_eq_lem (c ∷ s) [] = inr (refl, λ e. cc)
text_eq_lem (c ∷ s) (d ∷ t) = grind (arith, text_eq_lem s t)

-- What the head and the tail of a list say of the whole.
Listed-cons : (s t : List ℕ) (ts : List (List ℕ)) → s ≢ t → ¬ Listed s ts → ¬ Listed s (t ∷ ts)
Listed-cons s t ts h k (zero, e) = ground (arith, e)
Listed-cons s t ts h k (suc j, e) = k (j, e)

is_supported_lem :
    (s : List ℕ) (ts : List (List ℕ))
    → ((is_supported s ts ≡ true) × Listed s ts) ⊎ ((is_supported s ts ≡ false) × (¬ Listed s ts))
unfolding is_supported
is_supported_lem s [] = inr (refl, λ (j, e). cc)
is_supported_lem s (t ∷ ts) = elim (text_eq_lem s t) [
  | inl (b, e) ↦ inl (rw b refl, (0, rw e refl))
  | inr (b, n) ↦ elim (is_supported_lem s ts) [
    | inl (c, (j, e)) ↦ inl (rw (b, c) refl, (suc j, e))
    | inr (c, k) ↦ inr (rw (b, c) refl, Listed-cons s t ts n k)
  ]
]

-- The outcomes of a search among the offers whose first one has index `i`.
abbrev Found : ℕ → List (List ℕ) → List (List ℕ) → Type 0
Found i offered supported =
    ((k : ℕ) × (s : List ℕ) × (select_from i offered supported ≡ some (i + k))
      × (get_elem? offered k ≡ some s)
      × Listed s supported
      × ((j : ℕ) (t : List ℕ) → j < k → get_elem? offered j ≡ some t → ¬ Listed t supported))
    ⊎ ((select_from i offered supported ≡ none)
        × ((j : ℕ) (t : List ℕ) → get_elem? offered j ≡ some t → ¬ Listed t supported))

-- No offer at a place of `P` is supported.
abbrev NoneAt : (ℕ → Type 0) → List (List ℕ) → List (List ℕ) → Type 0
NoneAt P offered supported =
    (j : ℕ) (t : List ℕ) → P j → get_elem? offered j ≡ some t → ¬ Listed t supported

NoneAt-cons :
    (P : ℕ → Type 0) (s : List ℕ) (offered supported : List (List ℕ))
    → ¬ Listed s supported
    → NoneAt (λ j. P (suc j)) offered supported
    → NoneAt P (s ∷ offered) supported
NoneAt-cons P s offered supported n k zero t p e l = n (rw e l)
NoneAt-cons P s offered supported n k (suc j) t p e l = k j t p e l

select_from_lem : (i : ℕ) (offered supported : List (List ℕ)) → Found i offered supported
unfolding select_from
select_from_lem i [] supported = inr (refl, λ j t e. cc)
select_from_lem i (s ∷ offered) supported = elim (is_supported_lem s supported) [
  | inl (b, l) ↦ inl (0, s, rw b (ap some (omega arith)), refl, l, λ j t h e. absurd (omega arith))
  | inr (b, n) ↦ elim (select_from_lem (suc i) offered supported) [
    | inl (k, t, e, g, l, first) ↦ inl (
      suc k,
      t,
      rw (b, e) (ap some (omega arith)),
      g,
      l,
      NoneAt-cons (λ j. j < suc k) s offered supported n (λ j t h. first j t (omega arith)),
    )
    | inr (e, none_of) ↦ inr (
      rw (b, e) refl,
      λ j t. NoneAt-cons (λ j. Unit) s offered supported n (λ j t h. none_of j t) j t tt,
    )
  ]
]

-- The choice is the first offer that is supported: where there is one, its index comes with a
-- supported text there and none before; where there is none, no offer is supported.
pub select_lem :
    (offered supported : List (List ℕ))
    → ((k : ℕ) × (s : List ℕ) × (select offered supported ≡ some k)
        × (get_elem? offered k ≡ some s)
        × Listed s supported
        × ((j : ℕ) (t : List ℕ) → j < k → get_elem? offered j ≡ some t → ¬ Listed t supported))
      ⊎ ((select offered supported ≡ none)
          × ((j : ℕ) (t : List ℕ) → get_elem? offered j ≡ some t → ¬ Listed t supported))
unfolding select
select_lem offered supported = elim (select_from_lem 0 offered supported) [
  | inl (k, s, e, g, l, first) ↦ inl (k, s, e ∙ ap some (omega arith), g, l, first)
  | inr r ↦ inr r
]
