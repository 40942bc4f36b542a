-- ===== src/Proto/Qpack/Lookup.antt =====
-- The search in the static table (src/proto/qpack_static.c).
use wtquic.Base.{
  ℕ, zero, suc, ◌+◌, ◌<◌, ◌≡◌, refl, ap, ◌∙◌, arith, true, false, ◌&&◌, ◌⊎◌, inl, inr, List, [],
  ◌∷◌, Option, some, none, get_elem?, length,
}
use wtquic.Proto.SfString.Write.{text_eq}
use wtquic.Proto.SfString.Choice.{text_eq_lem}
use wtquic.Proto.Qpack.{find_from, static_find, static_get, find_name_from, static_find_name}
use wtquic.Proto.Qpack.Table.{Entry, static_table}

-- An entry with both texts.
abbrev pub Matches : Entry → List ℕ → List ℕ → Type 0
Matches e name value = (e.name ≡ name) × (e.value ≡ value)

matches_lem :
    (e : Entry) (name value : List ℕ)
    → (((text_eq e.name name && text_eq e.value value) ≡ true) × Matches e name value)
      ⊎ (((text_eq e.name name && text_eq e.value value) ≡ false) × (¬ Matches e name value))
matches_lem e name value = grind (arith, text_eq_lem e.name name, text_eq_lem e.value value)

abbrev Found : ℕ → List Entry → List ℕ → List ℕ → Type 0
Found i table name value =
    ((k : ℕ) × (e : Entry) × (find_from i table name value ≡ some (i + k))
      × (get_elem? table k ≡ some e)
      × Matches e name value)
    ⊎ ((find_from i table name value ≡ none)
        × ((k : ℕ) (e : Entry) → get_elem? table k ≡ some e → ¬ Matches e name value))

unmatched-cons :
    (e : Entry) (table : List Entry) (name value : List ℕ)
    → ¬ Matches e name value
    → ((k : ℕ) (d : Entry) → get_elem? table k ≡ some d → ¬ Matches d name value)
    → (k : ℕ) (d : Entry) → get_elem? (e ∷ table) k ≡ some d
    → ¬ Matches d name value
unmatched-cons e table name value n all zero d q (a, b) =
    n (ap Entry.name (some-injective q) ∙ a, ap Entry.value (some-injective q) ∙ b)
  where
    some-injective : {x y : Entry} → Option.some x ≡ some y → x ≡ y
    some-injective h = cc
unmatched-cons e table name value n all (suc k) d q m = all k d q m

find_from_lem : (i : ℕ) (table : List Entry) (name value : List ℕ) → Found i table name value
unfolding find_from
find_from_lem i [] name value = inr (refl, λ k e h. cc)
find_from_lem i (e ∷ table) name value = elim (matches_lem e name value) [
  | inl (b, m) ↦ inl (0, e, rw b (ap some (omega arith)), refl, m)
  | inr (b, n) ↦ elim (find_from_lem (suc i) table name value) [
    | inl (k, d, q, g, m) ↦ inl (suc k, d, rw (b, q) (ap some (omega arith)), g, m)
    | inr (q, all) ↦ inr (rw (b, q) refl, unmatched-cons e table name value n all)
  ]
]

-- A search for a name and a value finds the index of an entry that has both, or the table has no
-- such entry.
pub static_find_lem :
    (name value : List ℕ)
    → ((k : ℕ) × (e : Entry) × (static_find name value ≡ some k)
        × (static_get k ≡ some e)
        × Matches e name value)
      ⊎ ((static_find name value ≡ none)
          × ((k : ℕ) (e : Entry) → static_get k ≡ some e → ¬ Matches e name value))
unfolding static_find static_get
static_find_lem name value = elim (find_from_lem 0 static_table name value) [
  | inl (k, e, q, g, m) ↦ inl (k, e, q ∙ ap some (omega arith), g, m)
  | inr r ↦ inr r
]

-- What a search for a name finds, from index `i` on.
abbrev FoundName : ℕ → List Entry → List ℕ → Type 0
FoundName i table name =
    ((k : ℕ) × (e : Entry) × (find_name_from i table name ≡ some (i + k))
      × (get_elem? table k ≡ some e)
      × (e.name ≡ name))
    ⊎ (find_name_from i table name ≡ none)

find_name_from_lem : (i : ℕ) (table : List Entry) (name : List ℕ) → FoundName i table name
unfolding find_name_from
find_name_from_lem i [] name = inr refl
find_name_from_lem i (e ∷ table) name = elim (text_eq_lem e.name name) [
  | inl (b, m) ↦ inl (0, e, rw b (ap some (omega arith)), refl, m)
  | inr (b, n) ↦ elim (find_name_from_lem (suc i) table name) [
    | inl (k, d, q, g, m) ↦ inl (suc k, d, rw (b, q) (ap some (omega arith)), g, m)
    | inr q ↦ inr (rw (b, q) refl)
  ]
]

pub static_find_name_lem :
    (name : List ℕ)
    → ((k : ℕ) × (e : Entry) × (static_find_name name ≡ some k)
        × (static_get k ≡ some e)
        × (e.name ≡ name))
      ⊎ (static_find_name name ≡ none)
unfolding static_find_name static_get
static_find_name_lem name = elim (find_name_from_lem 0 static_table name) [
  | inl (k, e, q, g, m) ↦ inl (k, e, q ∙ ap some (omega arith), g, m)
  | inr r ↦ inr r
]

get_elem?-lt :
    (k : ℕ) (table : List Entry) (e : Entry) → get_elem? table k ≡ some e → k < length table
get_elem?-lt k [] e h = absurd cc
get_elem?-lt zero (d ∷ table) e h = omega arith
get_elem?-lt (suc k) (d ∷ table) e h = omega (arith, get_elem?-lt k table e h)

pub static_get-lt : (k : ℕ) (e : Entry) → static_get k ≡ some e → k < 99
unfolding static_get static_table
static_get-lt k e h = get_elem?-lt k static_table e h
