-- ===== src/Proto/ErrMap/RoundTrip.antt =====
-- The two maps of src/proto/errmap.c are inverse to each other, and no code is a GREASE codepoint.
use wtquic.Base.{◌⊎◌, ℕ, ◌+◌, ◌*◌, ◌%◌, ◌^◌, ◌≤◌, ◌<◌, ◌≡◌, ◌≢◌, arith, none, some}
use wtquic.Proto.ErrMap.{app_error_first, app_error_last, app_error_to_h3, h3_error_to_app}

-- Every 32-bit code comes back from its HTTP/3 code, which lies in the reserved range.
pub h3_error_to_app-app_error_to_h3 :
    (n : ℕ)
    → n < 2 ^ 32
    → (h3_error_to_app (app_error_to_h3 n) ≡ some n)
      × (app_error_first ≤ app_error_to_h3 n)
      × (app_error_to_h3 n ≤ app_error_last)
unfolding h3_error_to_app
h3_error_to_app-app_error_to_h3 n h = ground arith

-- Every HTTP/3 code is either outside of the reserved range or a GREASE codepoint, and then nothing
-- is found for it, or it is the image of the 32-bit code that is found.
pub h3_error_to_app_lem :
    (e : ℕ)
    → (((e < app_error_first) ⊎ (app_error_last < e) ⊎ (e % 0x1f ≡ 0x21 % 0x1f))
        × (h3_error_to_app e ≡ none))
      ⊎ ((app_error_first ≤ e)
          × (e ≤ app_error_last)
          × (e % 0x1f ≢ 0x21 % 0x1f)
          × ((n : ℕ) × (h3_error_to_app e ≡ some n) × (n < 2 ^ 32) × (app_error_to_h3 n ≡ e)))
unfolding h3_error_to_app app_error_to_h3
h3_error_to_app_lem e = ground arith

-- No application code is sent as a GREASE codepoint `0x1f * k + 0x21`.
pub app_error_to_h3-ne-grease : (n k : ℕ) → n < 2 ^ 32 → app_error_to_h3 n ≢ 0x1f * k + 0x21
unfolding app_error_to_h3
app_error_to_h3-ne-grease n k h = omega arith
