-- ===== src/Proto/ErrMap/Tests.antt =====
-- Runs of src/proto/errmap.c, and instances of what is proved of it.
use wtquic.Base.{ℕ, ◌%◌, ◌^◌, ◌⊎◌, ◌+◌, ◌*◌, ◌≤◌, ◌<◌, ◌≡◌, ◌≢◌, refl, arith, some, none}
use wtquic.Proto.ErrMap.{app_error_first, app_error_last, app_error_to_h3, h3_error_to_app}
use wtquic.Proto.ErrMap.RoundTrip.{
  h3_error_to_app-app_error_to_h3, h3_error_to_app_lem, app_error_to_h3-ne-grease,
}

last_code : app_error_to_h3 0xffffffff ≡ 0x52e5ac983162
unfolding app_error_to_h3
last_code = refl

grease_code : h3_error_to_app 0x52e4a40fa8f9 ≡ none
unfolding h3_error_to_app
grease_code = refl

h3_error_to_app-app_error_to_h3_example :
    (h3_error_to_app (app_error_to_h3 31) ≡ some 31)
    × (app_error_first ≤ app_error_to_h3 31)
    × (app_error_to_h3 31 ≤ app_error_last)
h3_error_to_app-app_error_to_h3_example = h3_error_to_app-app_error_to_h3 31 (omega arith)

h3_error_to_app_lem_example :
    (((0x52e5ac983162 < app_error_first)
        ⊎ (app_error_last < 0x52e5ac983162)
        ⊎ (0x52e5ac983162 % 0x1f ≡ 0x21 % 0x1f))
      × (h3_error_to_app 0x52e5ac983162 ≡ none))
    ⊎ ((app_error_first ≤ 0x52e5ac983162)
        × (0x52e5ac983162 ≤ app_error_last)
        × (0x52e5ac983162 % 0x1f ≢ 0x21 % 0x1f)
        × ((n : ℕ) × (h3_error_to_app 0x52e5ac983162 ≡ some n)
            × (n < 2 ^ 32)
            × (app_error_to_h3 n ≡ 0x52e5ac983162)))
h3_error_to_app_lem_example = h3_error_to_app_lem 0x52e5ac983162

app_error_to_h3-ne-grease_example : app_error_to_h3 31 ≢ 0x1f * 5 + 0x21
app_error_to_h3-ne-grease_example = app_error_to_h3-ne-grease 31 5 (omega arith)
