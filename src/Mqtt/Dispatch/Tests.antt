-- ===== src/Mqtt/Dispatch/Tests.antt =====
-- backend/mqtt/dispatcher.py: concrete commands, and the theorems at concrete inputs.
use terra_server.Common.{
  ℕ, ◌+◌, ◌≤◌, ◌≡◌, refl, true, false, none, some, [], ◌∷◌, All, length, String, map, arith,
}
use terra_server.Common.Clock.{seconds}
use terra_server.Common.Int.{pos}
use terra_server.Common.Json.{number, other, get, put, update, without, contains_key}
use terra_server.TempOffset.{default_base_c, round_2_ℕ, resolve_device_offset}
use terra_server.Mqtt.Dispatch.{
  pending, sent, expired, Row, not_found, device_text, Remainder, Command, fresh, World,
}
use terra_server.Mqtt.Dispatch.Message.{mist_split, publish_payload}
use terra_server.Mqtt.Dispatch.Handle.{
  dispatch_one, dispatch_issued, settle_unmarked, recheck, publish, prune_state, poll,
}
use terra_server.Mqtt.Dispatch.Life.{polled, Life, inserted, next}
use terra_server.Mqtt.Dispatch.Once.{IsLast, published-IsLast}
use terra_server.Mqtt.Dispatch.Deadline.{IsTimely, published-IsTimely}
use terra_server.Mqtt.Dispatch.Further.{remainders-le-one}
use terra_server.Mqtt.Dispatch.Split.{sum-bursts}
use terra_server.Mqtt.Dispatch.Bursts.{bursts, sum}

abbrev mist : Row
mist = record {
  id = "c1";
  device_id = "d1";
  action = "mist";
  payload = some (("duration_ms", number (pos 120000000)) ∷ ("action", other "heater_on") ∷ []);
  issued_at = some (seconds 100);
  ttl_sec = none;
  source = "manual";
}

abbrev good : ℕ → World
good at = record {
  now = at;
  sent_at = at + 500000;
  writes = true;
  lookup = device_text "terra-1";
  reread = some pending;
  mist_cap = 5000;
  base_c = default_base_c;
  broker = true;
  meanwhile = none;
  inserts = true;
}

-- One poll of a fresh command.
polled_once : World → Row → Command
unfolding poll prune_state dispatch_one dispatch_issued recheck publish mist_split publish_payload
    resolve_device_offset settle_unmarked get put update without contains_key
polled_once w row = poll w.now true w row fresh

splits :
    (polled_once (good (seconds 101)) mist).remainders
    ≡ record { remainder_ms = 7000; due = seconds 101 + 7000000 } ∷ []
unfolding polled_once
splits = refl

is_sent_then : (polled_once (good (seconds 101)) mist).status ≡ sent
unfolding polled_once
is_sent_then = refl

expires : (polled_once (good (seconds 111)) mist).status ≡ expired
unfolding polled_once
expires = refl

no_device_yet :
    (polled_once (record (good (seconds 101)) { lookup = not_found }) mist).lookup_misses ≡ 1
unfolding polled_once
no_device_yet = refl

out_of_range :
    (polled_once (good (seconds 101)) (record mist {
      action = "set_temp_offset";
      payload = some (("user_offset_c", number (pos 115100)) ∷ []);
    })).result
    ≡ "offset_out_of_range"
unfolding polled_once round_2_ℕ
out_of_range = refl

-- The update after the publication fails, the next poll only repeats the update.
abbrev unmarked : Command
unmarked = poll (seconds 101) true (record (good (seconds 101)) { writes = false }) mist fresh

abbrev marked : Command
marked = poll (seconds 102) true (good (seconds 102)) mist unmarked

twice_polled : (marked.status ≡ sent) × (length marked.published ≡ 1)
unfolding poll prune_state dispatch_one dispatch_issued recheck publish mist_split publish_payload
    settle_unmarked get put update without contains_key
twice_polled = (refl, refl)

unmarked_pending : unmarked.status ≡ pending
unfolding poll prune_state dispatch_one dispatch_issued recheck publish mist_split publish_payload
    settle_unmarked get put update without contains_key
unmarked_pending = refl

Life-marked : Life mist (seconds 102 + 500000) marked
Life-marked =
    next
      (next (inserted (seconds 100)) (
        polled (seconds 101) (record (good (seconds 101)) { writes = false }) none fresh
          (omega arith) (omega arith) (omega arith) refl (λ e. ground arith)))
      (polled (seconds 102) (good (seconds 102)) none unmarked (omega arith) (omega arith)
        (omega arith) unmarked_pending (λ e. ground arith))

published-IsLast_example : IsLast marked.published
published-IsLast_example =
    published-IsLast mist (seconds 100) (seconds 102 + 500000) marked refl (omega arith) Life-marked

published-IsTimely_example : All (IsTimely mist) marked.published
published-IsTimely_example = published-IsTimely mist (seconds 102 + 500000) marked Life-marked

-- A call that is answered with an error is made again.
called_twice :
    map
      (λ p. p.reported)
      (poll
        (seconds 102)
        true
        (good (seconds 102))
        mist
        (polled_once (record (good (seconds 101)) { broker = false }) mist)).published
    ≡ true ∷ false ∷ []
unfolding polled_once poll prune_state dispatch_one dispatch_issued recheck publish mist_split
    publish_payload settle_unmarked get put update without contains_key
called_twice = refl

abbrev worlds : ℕ → World
worlds k = good (seconds 200)

abbrev ids : ℕ → String
ids k = "c2"

abbrev long_rest : Remainder
long_rest = record { remainder_ms = 13000; due = seconds 107 }

sum-bursts_example :
    (sum (bursts 13000 worlds ids mist long_rest) ≡ 13000)
    × All (λ b. b ≤ 5000) (bursts 13000 worlds ids mist long_rest)
sum-bursts_example =
    sum-bursts worlds ids mist 5000 (λ k. (refl, refl, omega arith, omega arith)) 13000 long_rest
      (omega arith) (omega arith)

three_bursts : bursts 13 worlds ids mist long_rest ≡ 5000 ∷ 5000 ∷ 3000 ∷ []
unfolding bursts publish mist_split publish_payload get put update without contains_key
three_bursts = refl

remainders-le-one_example : length marked.remainders ≤ 1
remainders-le-one_example =
    remainders-le-one mist (seconds 100) (seconds 102 + 500000) marked refl (omega arith)
      Life-marked

leaves_one : length marked.remainders ≡ 1
unfolding poll prune_state dispatch_one dispatch_issued recheck publish mist_split publish_payload
    settle_unmarked get put update without contains_key
leaves_one = refl
