-- ===== src/Mqtt/Dispatch/Message.antt =====
-- The payload that `_dispatch_one` publishes, and how it splits a mist.
use terra_server.Common.{
  ℕ, ◌-◌, ◌*◌, ◌/◌, String, Option, none, some, List, [], ◌∷◌, ltb, or_else, if◌then◌else◌,
}
use terra_server.Common.Int.{ℤ, pos}
use terra_server.Common.Json.{Value, number, other, Object, get, put, update, without}
use terra_server.Common.Text.{str_eq}
use terra_server.CommandService.{mist_action, truncate}
use terra_server.TempOffset.{user_key, device_key}
use terra_server.Mqtt.Dispatch.{Row, ttl_of}

abbrev pub reserved_payload_keys : List String
reserved_payload_keys = "msg_id" ∷ "issued_at" ∷ "ttl_sec" ∷ "action" ∷ []

abbrev pub server_only_payload_keys : List String
server_only_payload_keys = "lcd_text" ∷ user_key ∷ []

-- A burst and the rest, in milliseconds.
abbrev pub split_over : ℕ → ℕ → Option (ℕ × ℕ)
split_over cap n = if ltb (cap * 10000) n then some (cap, truncate n - cap) else none

abbrev pub split_value : ℕ → Option Value → Option (ℕ × ℕ)
split_value cap (some (number (pos n))) = split_over cap n
split_value cap _ = none

abbrev pub duration_of : Option Object → Option Value
duration_of none = none
duration_of (some payload) = get "duration_ms" payload

unfoldable pub mist_split : ℕ → Row → Option (ℕ × ℕ)
unfolding get
mist_split cap row =
    if str_eq row.action mist_action then split_value cap (duration_of row.payload) else none

-- The fields of the protocol.
abbrev pub header : Row → ℕ → Object
header row issued_at =
    ("msg_id", other row.id)
    ∷ ("issued_at", number (pos (issued_at / 1000000 * 10000)))
    ∷ ("ttl_sec", number (pos (ttl_of row.ttl_sec * 10000)))
    ∷ ("action", other row.action)
    ∷ []

abbrev pub with_burst : Option (ℕ × ℕ) → Object → Object
with_burst none d = d
with_burst (some (burst, rest)) d = put "duration_ms" (number (pos (burst * 10000))) d

abbrev pub with_offset : Option ℤ → Object → Object
with_offset none d = d
with_offset (some c) d = put device_key (number c) d

unfoldable pub publish_payload : Row → ℕ → Option (ℕ × ℕ) → Option ℤ → Object
unfolding put update without
publish_payload row issued_at burst offset =
    let extra = or_else row.payload [] in
    with_offset offset (
      with_burst burst (
        update (header row issued_at)
          (without server_only_payload_keys (without reserved_payload_keys extra))))
