-- ===== src/TempOffset.antt =====
-- backend/temp_offset.py: a user's temperature offset, and the absolute one that a device takes. A
-- temperature is an integer number of ten-thousandths of a degree, as exact decimals; the base that
-- the environment sets is an argument.
pub mod Laws
mod Tests
use terra_server.Common.{
  ℕ, ◌+◌, ◌*◌, ◌/◌, ◌%◌, ◌==◌, String, Bool, true, false, ◌&&◌, ◌||◌, ltb, Option, none, some,
  if◌then◌else◌,
}
use terra_server.Common.Int.{ℤ, pos, negsuc, pos_part, neg_part, sub_ℕ, ◌+ℤ◌, leb_ℤ}
use terra_server.Common.Json.{Value, number, boolean, other, Object, get}

abbrev pub default_base_c : ℤ
default_base_c = negsuc 14999

abbrev pub device_limit_c : ℕ
device_limit_c = 100000

abbrev pub user_key : String
user_key = "user_offset_c"

abbrev pub device_key : String
device_key = "offset_c"

-- The payload is left alone, the device's value is set, or an `OffsetError` is raised.
pub data Resolved : Type 0 where
  untouched : Resolved
  device_value : ℤ → Resolved
  invalid_payload offset_out_of_range : Resolved

-- The nearest multiple of 100, the even one of two.
unfoldable pub round_2_ℕ : ℕ → ℕ
round_2_ℕ n =
    let up = ltb 50 (n % 100) || (n % 100 == 50 && n / 100 % 2 == 1) in
    if up then (n / 100 + 1) * 100 else n / 100 * 100

-- `round(x, 2)`
abbrev pub round_2 : ℤ → ℤ
round_2 c = sub_ℕ (round_2_ℕ (pos_part c)) (round_2_ℕ (neg_part c))

abbrev pub to_device : ℤ → ℤ → ℤ
to_device base user_c = round_2 (user_c +ℤ base)

abbrev pub device_in_range : ℤ → Bool
device_in_range c = leb_ℤ (negsuc 99999) c && leb_ℤ c (pos device_limit_c)

abbrev pub resolve_number : ℤ → Value → Resolved
resolve_number base (number v) =
    if device_in_range (to_device base v)
    then device_value (to_device base v)
    else offset_out_of_range
resolve_number base _ = invalid_payload

abbrev pub resolve_user : ℤ → Option Value → Option Value → Resolved
resolve_user base none dev = untouched
resolve_user base (some v) (some d) = invalid_payload
resolve_user base (some v) none = resolve_number base v

-- `none` stands for a payload that is no object.
unfoldable pub resolve_device_offset : ℤ → Option Object → Resolved
unfolding get
resolve_device_offset base none = untouched
resolve_device_offset base (some payload) =
    resolve_user base (get user_key payload) (get device_key payload)
