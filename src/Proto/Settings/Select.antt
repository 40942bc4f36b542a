-- ===== src/Proto/Settings/Select.antt =====
-- The choice of a profile in src/proto/h3_settings.c, against what the drafts ask of a peer.
use wtquic.Base.{
  ℕ, ◌≤◌, ◌<◌, ◌≡◌, ◌≢◌, refl, ◌∙◌, if◌then◌else◌, arith, Bool, true, false, not, ◌&&◌, ◌⊎◌, inl,
  inr, Option, zero, suc, some, none, bit_and, ◌==◌, ltb,
}
use wtquic.Proto.Settings.{
  Settings, Profile, profile_bit, is_one, peer_advertises, shared_requirements, select_loop,
  select_profile, peer_supports_wt,
}

-- What a profile needs of the settings of a peer.
abbrev pub Usable : Settings → Bool → Profile → Type 0
Usable peer peer_is_server Profile.current =
    (peer.h3_datagram ≡ some 1)
    × (peer_is_server ≡ true → peer.enable_connect_protocol ≡ some 1)
    × (peer.wt_enabled ≡ some 1)
Usable peer peer_is_server Profile.d13_14_compat =
    (peer.h3_datagram ≡ some 1)
    × (peer_is_server ≡ true → peer.enable_connect_protocol ≡ some 1)
    × ((sessions : ℕ) × (1 ≤ sessions) × (peer.wt_max_sessions_d13 ≡ some sessions))
Usable peer peer_is_server Profile.d02_rfc9297_compat =
    (peer.h3_datagram ≡ some 1) × (peer.enable_webtransport_leg ≡ some 1)

-- A profile that both endpoints may speak.
abbrev pub Mutual : Settings → Bool → ℕ → Profile → Type 0
Mutual peer peer_is_server set p = (bit_and set (profile_bit p) ≢ 0) × Usable peer peer_is_server p

-- The place in the order of the drafts, the newest at 0.
abbrev pub age : Profile → ℕ
age Profile.current = 0
age Profile.d13_14_compat = 1
age Profile.d02_rfc9297_compat = 2

is_one_lem :
    (o : Option ℕ) → ((is_one o ≡ true) × (o ≡ some 1)) ⊎ ((is_one o ≡ false) × (o ≢ some 1))
is_one_lem none = inr (refl, λ e. cc)
is_one_lem (some v) = ground arith

abbrev Positive : Option ℕ → Type 0
Positive o = (sessions : ℕ) × (1 ≤ sessions) × (o ≡ some sessions)

is_positive : Option ℕ → Bool
is_positive o = elim o [ none ↦ false | some value ↦ ltb 0 value ]

is_positive_lem :
    (o : Option ℕ)
    → ((is_positive o ≡ true) × Positive o) ⊎ ((is_positive o ≡ false) × (¬ Positive o))
unfolding is_positive
is_positive_lem none = inr (refl, λ (s, l, e). cc)
is_positive_lem (some zero) = inr (refl, λ (s, l, e). ground arith)
is_positive_lem (some (suc v)) = inl (ground arith, (suc v, omega arith, refl))

usable_test : Settings → Bool → Profile → Bool
usable_test peer srv p = shared_requirements peer srv p && peer_advertises peer p

usable_test_lem :
    (peer : Settings) (srv : Bool) (p : Profile)
    → ((usable_test peer srv p ≡ true) × Usable peer srv p)
      ⊎ ((usable_test peer srv p ≡ false) × (¬ Usable peer srv p))
unfolding usable_test is_positive shared_requirements peer_advertises
usable_test_lem peer srv Profile.current = grind (
  arith,
  is_one_lem (peer.h3_datagram),
  is_one_lem (peer.enable_connect_protocol),
  is_one_lem (peer.wt_enabled),
)
usable_test_lem peer srv Profile.d13_14_compat = grind (
  arith,
  is_one_lem (peer.h3_datagram),
  is_one_lem (peer.enable_connect_protocol),
  is_positive_lem (peer.wt_max_sessions_d13),
)
usable_test_lem peer srv Profile.d02_rfc9297_compat =
    grind (arith, is_one_lem (peer.h3_datagram), is_one_lem (peer.enable_webtransport_leg))

mutual_test : Settings → Bool → ℕ → Profile → Bool
mutual_test peer srv set p = not (bit_and set (profile_bit p) == 0) && usable_test peer srv p

mutual_test_lem :
    (peer : Settings) (srv : Bool) (set : ℕ) (p : Profile)
    → ((mutual_test peer srv set p ≡ true) × Mutual peer srv set p)
      ⊎ ((mutual_test peer srv set p ≡ false) × (¬ Mutual peer srv set p))
unfolding mutual_test
mutual_test_lem peer srv set p = grind (arith, usable_test_lem peer srv p)

every_profile :
    (P : Profile → Type 0)
    → P Profile.current
    → P Profile.d13_14_compat
    → P Profile.d02_rfc9297_compat
    → (q : Profile) → P q
every_profile P a b c Profile.current = a
every_profile P a b c Profile.d13_14_compat = b
every_profile P a b c Profile.d02_rfc9297_compat = c

newer_than_d13 : (P : Profile → Type 0) → P Profile.current → (q : Profile) → age q < 1 → P q
newer_than_d13 P a =
    every_profile (λ q. age q < 1 → P q) (λ _. a) (λ l. absurd (omega arith))
      (λ l. absurd (omega arith))

newer_than_d02 :
    (P : Profile → Type 0)
    → P Profile.current
    → P Profile.d13_14_compat
    → (q : Profile) → age q < 2
    → P q
newer_than_d02 P a b =
    every_profile (λ q. age q < 2 → P q) (λ _. a) (λ _. b) (λ l. absurd (omega arith))

-- The choice by the tests alone, newest first.
select_profile-tests :
    (peer : Settings) (srv : Bool) (set : ℕ)
    → select_profile peer srv set ≡ (
        if mutual_test peer srv set Profile.current
        then some Profile.current
        else if mutual_test peer srv set Profile.d13_14_compat
        then some Profile.d13_14_compat
        else if mutual_test peer srv set Profile.d02_rfc9297_compat
        then some Profile.d02_rfc9297_compat
        else none)
unfolding select_profile select_loop mutual_test usable_test
select_profile-tests peer srv set = ground arith

-- A profile that is chosen is in the set and usable with the peer, and no newer one is both.
-- Where none is chosen, no profile is both.
pub select_profile_lem :
    (peer : Settings) (peer_is_server : Bool) (set : ℕ)
    → ((p : Profile) × (select_profile peer peer_is_server set ≡ some p)
        × Mutual peer peer_is_server set p
        × ((q : Profile) → age q < age p → ¬ Mutual peer peer_is_server set q))
      ⊎ ((select_profile peer peer_is_server set ≡ none)
          × ((q : Profile) → ¬ Mutual peer peer_is_server set q))
select_profile_lem peer srv set = elim (mutual_test_lem peer srv set Profile.current) [
  | inl (t, m) ↦ inl (
    Profile.current,
    select_profile-tests peer srv set ∙ rw t refl,
    m,
    λ q l. absurd (omega arith),
  )
  | inr (t, n) ↦ elim (mutual_test_lem peer srv set Profile.d13_14_compat) [
    | inl (t', m) ↦ inl (
      Profile.d13_14_compat,
      select_profile-tests peer srv set ∙ rw (t, t') refl,
      m,
      newer_than_d13 (λ q. ¬ Mutual peer srv set q) n,
    )
    | inr (t', n') ↦ elim (mutual_test_lem peer srv set Profile.d02_rfc9297_compat) [
      | inl (t'', m) ↦ inl (
        Profile.d02_rfc9297_compat,
        select_profile-tests peer srv set ∙ rw (t, t', t'') refl,
        m,
        newer_than_d02 (λ q. ¬ Mutual peer srv set q) n n',
      )
      | inr (t'', n'') ↦ inr (
        select_profile-tests peer srv set ∙ rw (t, t', t'') refl,
        every_profile (λ q. ¬ Mutual peer srv set q) n n' n'',
      )
    ]
  ]
]

-- The one-profile question is answered with true exactly where the peer's settings meet what that
-- profile needs.
peer_supports_wt_lem :
    (peer : Settings) (peer_is_server : Bool) (p : Profile)
    → ((peer_supports_wt peer peer_is_server p ≡ true) × Usable peer peer_is_server p)
      ⊎ ((peer_supports_wt peer peer_is_server p ≡ false) × (¬ Usable peer peer_is_server p))
unfolding peer_supports_wt profile_bit mutual_test
peer_supports_wt_lem peer srv Profile.current =
    ground (arith, select_profile-tests peer srv 1, usable_test_lem peer srv Profile.current)
peer_supports_wt_lem peer srv Profile.d13_14_compat =
    ground (arith, select_profile-tests peer srv 2, usable_test_lem peer srv Profile.d13_14_compat)
peer_supports_wt_lem peer srv Profile.d02_rfc9297_compat =
    ground
      (arith, select_profile-tests peer srv 4, usable_test_lem peer srv Profile.d02_rfc9297_compat)
