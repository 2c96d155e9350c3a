-- ===== src/Mqtt/Dispatch/Handle.antt =====
-- `_dispatch_one`, `_settle_unmarked`, `poll_and_dispatch` and `sweep_unacked` for one command. A
-- handling that raises is counted as failed, and leaves what it did before.
use terra_server.Common.{
  ℕ, suc, ◌+◌, ◌*◌, String, Bool, true, false, not, ◌&&◌, ◌||◌, Option, none, some, ◌∷◌, ltb,
  if◌then◌else◌,
}
use terra_server.Common.Clock.{seconds}
use terra_server.Common.Int.{ℤ}
use terra_server.Common.Text.{str_eq}
use terra_server.TempOffset.{
  Resolved, untouched, device_value, invalid_payload, offset_out_of_range, resolve_device_offset,
}
use terra_server.Mqtt.Dispatch.{
  Status, sent, no_ack, expired, rejected, is_pending, is_sent, Row, ttl_of, Lookup, lookup_error,
  not_found, device_text, Command, World, no_ack_threshold_sec, device_miss_limit,
  published_memo_sec,
}
use terra_server.Mqtt.Dispatch.Message.{publish_payload, mist_split}

abbrev pub is_unsupported : String → Bool
is_unsupported action =
    str_eq action "heater_on"
    || str_eq action "heater_off"
    || str_eq action "heater_toggle"
    || str_eq action "heater_clear_lock"

abbrev pub Handled : Type 0
Handled = Command × Bool

-- An unconditional update, with the failure event after it; an update that raises ends the handling.
abbrev pub end_with : World → Status → String → Command → Handled
end_with w status result c =
    if w.writes
    then (record c { status = status; result = result; failures = result ∷ c.failures }, true)
    else (c, false)

-- `_mark_sent`: the update only touches a pending row.
abbrev pub mark_sent : World → Command → Command × Bool
mark_sent w c =
    if w.writes
    then (record c { status = if is_pending c.status then sent else c.status }, true)
    else (c, false)

abbrev pub forget : Command × Bool → Command
forget (c, true) = record c { published_unmarked = none }
forget (c, false) = c

-- `_settle_unmarked` of a command published at `at`.
unfoldable pub settle_unmarked : World → ℕ → Command → Command
settle_unmarked w at c =
    if ltb w.now (at + no_ack_threshold_sec)
    then forget (mark_sent w c)
    else if not w.writes
    then c
    else if is_pending c.status
    then record c {
      status = no_ack;
      result = "no_ack";
      published_unmarked = none;
      failures = "no_ack" ∷ c.failures;
    }
    else record c { published_unmarked = none }

abbrev pub became : Option Status → Command → Command
became none c = c
became (some s) c = record c { status = s }

abbrev pub remember : World → Command × Bool → Command
remember w (c, true) = c
remember w (c, false) = record c { published_unmarked = some w.sent_at }

-- `_enqueue_mist_remainder`
abbrev pub enqueue_remainder : World → Option (ℕ × ℕ) → Command → Command
enqueue_remainder w none c = c
enqueue_remainder w (some (burst, rest)) c =
    if ltb 0 rest && w.inserts
    then record c {
      remainders =
          record { remainder_ms = rest; due = w.sent_at + burst * 1000 + 1500000 } ∷ c.remainders;
    }
    else c

-- Steps 4 to 6: the publication, its record, and the rest of a mist.
unfoldable pub publish : World → Row → ℕ → Option ℤ → Command → Handled
publish w row issued_at offset c =
    let split = mist_split w.mist_cap row in
    let message = publish_payload row issued_at split offset in
    let c₁ = record c {
      published =
          record { checked = w.now; at = w.sent_at; reported = w.broker; message = message }
          ∷ c.published;
    } in
    if w.broker
    then (enqueue_remainder w split (remember w (mark_sent w (became w.meanwhile c₁))), true)
    else (c₁, true)

abbrev pub is_reread_pending : Option Status → Bool
is_reread_pending none = false
is_reread_pending (some s) = is_pending s

-- Step 3.5: an automatic command is looked at once more.
unfoldable pub recheck : World → Row → ℕ → Option ℤ → Command → Handled
unfolding publish
recheck w row issued_at offset c =
    if str_eq row.source "auto" && not (is_reread_pending w.reread)
    then (c, true)
    else publish w row issued_at offset c

-- Step 2: the device.
abbrev pub find_device : World → Row → ℕ → Option ℤ → Lookup → Command → Handled
find_device w row issued_at offset lookup_error c =
    (record c { lookup_errors = suc c.lookup_errors }, true)
find_device w row issued_at offset not_found c =
    if ltb (suc c.lookup_misses) device_miss_limit
    then (record c { lookup_misses = suc c.lookup_misses }, true)
    else end_with w rejected "unknown_device" (record c { lookup_errors = 0; lookup_misses = 0 })
find_device w row issued_at offset (device_text t) c =
    recheck w row issued_at offset (record c { lookup_errors = 0; lookup_misses = 0 })

-- Step 1.6: the temperature offset.
abbrev pub with_resolved : World → Row → ℕ → Resolved → Command → Handled
with_resolved w row issued_at untouched c = find_device w row issued_at none w.lookup c
with_resolved w row issued_at (device_value v) c = find_device w row issued_at (some v) w.lookup c
with_resolved w row issued_at invalid_payload c = end_with w rejected "invalid_payload" c
with_resolved w row issued_at offset_out_of_range c = end_with w rejected "offset_out_of_range" c

-- Steps 1 to 1.6 on a command whose time of issue can be read.
unfoldable pub dispatch_issued : World → Row → ℕ → Command → Handled
unfolding resolve_device_offset recheck
dispatch_issued w row issued_at c =
    if ltb (issued_at + seconds (ttl_of row.ttl_sec)) w.now
    then end_with w expired "expired" c
    else if is_unsupported row.action
    then end_with w rejected "unsupported_action" c
    else with_resolved w row issued_at
        (if str_eq row.action "set_temp_offset"
          then resolve_device_offset w.base_c row.payload
          else untouched)
        c

-- `_dispatch_one` for a command that is not remembered as published.
abbrev pub dispatch_new : World → Row → Option ℕ → Command → Handled
dispatch_new w row none c = (c, false)
dispatch_new w row (some issued_at) c = dispatch_issued w row issued_at c

abbrev pub dispatch_with : World → Row → Option ℕ → Command → Handled
dispatch_with w row (some at) c = (settle_unmarked w at c, true)
dispatch_with w row none c = dispatch_new w row row.issued_at c

unfoldable pub dispatch_one : World → Row → Command → Handled
unfolding settle_unmarked dispatch_issued
dispatch_one w row c = dispatch_with w row c.published_unmarked c

-- `_prune_state`, for a command that is in the list of pending ones or not.
abbrev pub prune_memo : ℕ → Option ℕ → Option ℕ
prune_memo now none = none
prune_memo now (some at) = if ltb (at + published_memo_sec) now then none else some at

unfoldable pub prune_state : ℕ → Bool → Command → Command
prune_state now listed c = record c {
  lookup_errors = if listed then c.lookup_errors else 0;
  lookup_misses = if listed then c.lookup_misses else 0;
  published_unmarked = prune_memo now c.published_unmarked;
}

abbrev pub is_ahead : Option ℕ → ℕ → Bool
is_ahead none now = false
is_ahead (some issued_at) now = ltb now issued_at

-- One poll, for a command that its query listed or not; `polled` is the instant that the loop read.
unfoldable pub poll : ℕ → Bool → World → Row → Command → Command
unfolding dispatch_one prune_state
poll polled listed w row c =
    let c₁ = prune_state polled listed c in
    if not listed || is_ahead row.issued_at polled then c₁ else (dispatch_one w row c₁).0

abbrev pub is_overdue : Option ℕ → ℕ → Bool
is_overdue none now = false
is_overdue (some issued_at) now = ltb (issued_at + no_ack_threshold_sec) now

-- `sweep_unacked`, for a command that its query listed while it was sent.
unfoldable pub sweep : World → Row → Command → Command
sweep w row c =
    if is_overdue row.issued_at w.now && w.writes && is_sent c.status
    then record c { status = no_ack; result = "no_ack"; failures = "no_ack" ∷ c.failures }
    else c
