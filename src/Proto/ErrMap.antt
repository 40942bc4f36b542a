-- ===== src/Proto/ErrMap.antt =====
-- src/proto/errmap.c: application error codes in the HTTP/3 error space, around the GREASE
-- codepoints. `uint64_t` sums keep their `% 2 ^ 64`.
pub mod RoundTrip
mod Tests
use wtquic.Base.{
  ℕ, ◌+◌, ◌-◌, ◌*◌, ◌/◌, ◌%◌, ◌^◌, Bool, ◌||◌, not, ltb, ◌==◌, if◌then◌else◌, Option, none, some,
}

abbrev pub app_error_first : ℕ
app_error_first = 0x52e4a40fa8db

abbrev pub app_error_last : ℕ
app_error_last = app_error_first + 0xffffffff + 0xffffffff / 0x1e

unfoldable pub app_error_to_h3 : ℕ → ℕ
app_error_to_h3 n = (app_error_first + n + n / 0x1e) % 2 ^ 64

-- `none` is WTQ_ERR_NOT_FOUND. The pointer to write through is there.
unfoldable pub h3_error_to_app : ℕ → Option ℕ
unfolding app_error_to_h3
h3_error_to_app h3_error =
    if ltb h3_error app_error_first || ltb app_error_last h3_error
    then none
    else let shifted = h3_error - app_error_first in
      let n = shifted - shifted / 0x1f in
      if ltb 0xffffffff n || not (app_error_to_h3 (n % 2 ^ 32) == h3_error)
      then none
      else some (n % 2 ^ 32)
