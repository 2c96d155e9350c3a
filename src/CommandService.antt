-- ===== src/CommandService.antt =====
-- backend/command_service.py: the durations of a mist, and the actions that the server names.
pub mod Laws
mod Tests
use terra_server.Common.{
  ℕ, ◌*◌, ◌/◌, ◌%◌, String, Bool, true, false, ◌&&◌, Option, none, some, ltb, leb, ◌==◌,
  if◌then◌else◌,
}
use terra_server.Common.Int.{ℤ, pos, negsuc}
use terra_server.Common.Json.{Value, number, boolean, other, Object, get}

abbrev pub mist_action : String
mist_action = "mist"

abbrev pub mist_min_ms : ℕ
mist_min_ms = 1000

abbrev pub mist_request_max_ms : ℕ
mist_request_max_ms = 20000

abbrev pub mist_base_max_ms : ℕ
mist_base_max_ms = 5000

abbrev pub default_cmd_ttl_sec : ℕ
default_cmd_ttl_sec = 10

-- `int(v)` of a number that is not negative; it is counted in ten-thousandths.
abbrev pub truncate : ℕ → ℕ
truncate n = n / 10000

abbrev pub positive_or_base : Option Value → ℕ
positive_or_base (some (number (pos n))) = if ltb 0 n then truncate n else mist_base_max_ms
positive_or_base _ = mist_base_max_ms

-- `none` stands for capabilities that are no object.
unfoldable pub mist_max_ms_of : Option Object → ℕ
unfolding get
mist_max_ms_of none = mist_base_max_ms
mist_max_ms_of (some caps) = positive_or_base (get "mist_max_ms" caps)

-- `none` stands for `InvalidCommand`.
unfoldable pub validate_mist_duration : Value → Option ℕ
validate_mist_duration (number (pos n)) =
    if n % 10000 == 0 && leb mist_min_ms (truncate n) && leb (truncate n) mist_request_max_ms
    then some (truncate n)
    else none
validate_mist_duration v = none
