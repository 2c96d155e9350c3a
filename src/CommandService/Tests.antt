-- ===== src/CommandService/Tests.antt =====
-- backend/command_service.py: concrete durations, and the theorem at a concrete input.
use terra_server.Common.{◌*◌, ◌≤◌, ◌≡◌, ◌↔◌, refl, none, some, [], ◌∷◌}
use terra_server.Common.Int.{pos}
use terra_server.Common.Json.{number, get}
use terra_server.CommandService.{
  mist_min_ms, mist_request_max_ms, validate_mist_duration, mist_max_ms_of,
}
use terra_server.CommandService.Laws.{validate_mist_duration_lem}

half_second : validate_mist_duration (number (pos 5000000)) ≡ none
unfolding validate_mist_duration
half_second = refl

old_firmware : mist_max_ms_of none ≡ 5000
unfolding mist_max_ms_of
old_firmware = refl

new_firmware : mist_max_ms_of (some (("mist_max_ms", number (pos 300000000)) ∷ [])) ≡ 30000
unfolding mist_max_ms_of get
new_firmware = refl

takes_13_seconds : (validate_mist_duration (number (pos 130000000)) ≡ some 13000) ↔ (
    (number (pos 130000000) ≡ number (pos (13000 * 10000)))
    × (mist_min_ms ≤ 13000)
    × (13000 ≤ mist_request_max_ms))
takes_13_seconds = validate_mist_duration_lem (number (pos 130000000)) 13000
