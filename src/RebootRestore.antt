-- ===== src/RebootRestore.antt =====
-- backend/schedule_restore.py: after a reboot, what the schedules say is on is switched on again. A
-- row is the row of the schedule runner, with whether its payload has a `duration_ms`.
pub mod Boots
pub mod Latest
mod Tests
use terra_server.Common.{
  ℕ, ◌+◌, ◌-◌, String, Bool, true, false, ◌||◌, Option, none, some, List, [], ◌∷◌, ◌++◌, ltb,
  if◌then◌else◌,
}
use terra_server.Common.Clock.{seconds}
use terra_server.Common.Text.{str_eq}
use terra_server.Scheduling.{Run, at, value_error, runtime_error, compute_prev_run}
use terra_server.Scheduling.TimeOfDay.{parse_time_of_day}
use terra_server.Scheduling.Runner.{
  Row, World, Query, raised, missing, found, Insert, insert_raised, insert_refused, stored, Skip,
  check_guard, evaluate_skip_guard, plan_of,
}

pub data Actuator : Type 0 where
  led fan fan2 : Actuator

abbrev pub on_action : Actuator → String
on_action led = "led_on"
on_action fan = "fan_on"
on_action fan2 = "fan2_on"

abbrev pub off_action : Actuator → String
off_action led = "led_off"
off_action fan = "fan_off"
off_action fan2 = "fan2_off"

abbrev pub reboot_fresh_uptime_sec : ℕ
reboot_fresh_uptime_sec = seconds 60

abbrev pub boot_tolerance_sec : ℕ
boot_tolerance_sec = seconds 30

-- One device's entry of `_last_boot`, and whether this telemetry shows a new boot.
unfoldable pub note_uptime : ℕ → ℕ → Option ℕ → Option ℕ × Bool
note_uptime now uptime none = (some (now - uptime), ltb uptime reboot_fresh_uptime_sec)
note_uptime now uptime (some last) =
    if ltb (last + boot_tolerance_sec) (now - uptime)
    then (some (now - uptime), true)
    else (some last, false)

abbrev pub has_action : Actuator → String → Bool
has_action a action = str_eq action (on_action a) || str_eq action (off_action a)

unfoldable pub actuator_of : String → Option Actuator
actuator_of action =
    if has_action led action
    then some led
    else if has_action fan action
    then some fan
    else if has_action fan2 action
    then some fan2
    else none

pub record Schedule : Type 0 where
  pub row : Row
  pub has_duration : Bool

abbrev pub run_of : Run → Option ℕ
run_of (at prev) = some prev
run_of value_error = none
run_of runtime_error = none

abbrev pub prev_of : ℕ → Row → Option ℕ → Option ℕ
prev_of now row none = none
prev_of now row (some tod) = run_of (compute_prev_run now (plan_of row tod))

abbrev pub with_actuator : Option Actuator → Option ℕ → Option (Actuator × ℕ)
with_actuator (some a) (some prev) = some (a, prev)
with_actuator _ _ = none

-- The actuator of a schedule and its latest event, or none where the loop goes on.
unfoldable pub event_of : ℕ → Schedule → Option (Actuator × ℕ)
unfolding actuator_of compute_prev_run parse_time_of_day
event_of now s =
    if s.has_duration
    then none
    else with_actuator (actuator_of s.row.action)
        (prev_of now s.row (parse_time_of_day s.row.time_of_day))

pub record Event : Type 0 where
  pub prev : ℕ
  pub row : Row

abbrev pub same_actuator : Actuator → Actuator → Bool
same_actuator led led = true
same_actuator fan fan = true
same_actuator fan2 fan2 = true
same_actuator _ _ = false

-- `latest`, by actuator, in the order in which actuators were first seen.
unfoldable pub lookup : Actuator → List (Actuator × Event) → Option Event
lookup a [] = none
lookup a ((b, e) ∷ latest) =
    let rest = lookup a latest in if same_actuator a b then some e else rest

-- `latest[act] = (prev, row)`
unfoldable pub set : Actuator → Event → List (Actuator × Event) → List (Actuator × Event)
set a e [] = (a, e) ∷ []
set a e ((b, f) ∷ latest) =
    let rest = set a e latest in if same_actuator a b then (a, e) ∷ latest else (b, f) ∷ rest

abbrev pub is_later : ℕ → Option Event → Bool
is_later prev none = true
is_later prev (some e) = ltb e.prev prev

abbrev pub renew : Row → Option (Actuator × ℕ) → List (Actuator × Event) → List (Actuator × Event)
renew row none latest = latest
renew row (some (a, prev)) latest =
    if is_later prev (lookup a latest)
    then set a (record { prev = prev; row = row }) latest
    else latest

-- The loop over the schedules of the device.
unfoldable pub latest_from : ℕ → List Schedule → List (Actuator × Event) → List (Actuator × Event)
unfolding event_of lookup set
latest_from now [] latest = latest
latest_from now (s ∷ ss) latest = latest_from now ss (renew s.row (event_of now s) latest)

-- A command queued with source `restore`, for a schedule.
pub record Restoration : Type 0 where
  pub actuator : Actuator
  pub source_id : ℕ

-- What one actuator comes to: a query or an insert that raises ends the whole restore.
pub data Outcome : Type 0 where
  fails skipped : Outcome
  queued : Restoration → Outcome

abbrev pub insert_on : Actuator → Row → Insert → Outcome
insert_on a row insert_raised = fails
insert_on a row insert_refused = skipped
insert_on a row stored = queued (record { actuator = a; source_id = row.id })

abbrev pub unless_guarded : Actuator → Row → World → Query Skip → Outcome
unless_guarded a row w raised = fails
unless_guarded a row w (found skip) = skipped
unless_guarded a row w missing = insert_on a row w.insert

unfoldable pub restore_one : Actuator → Event → World → Outcome
unfolding evaluate_skip_guard
restore_one a e w =
    if str_eq e.row.action (on_action a)
    then unless_guarded a e.row w (check_guard e.row.guard w)
    else skipped

unfoldable pub restore_all : (ℕ → World) → List (Actuator × Event) → List Restoration
unfolding restore_one
restore_all world [] = []
restore_all world ((a, e) ∷ latest) =
    let rest = restore_all world latest in
    elim (restore_one a e (world e.row.id)) [ fails ↦ [] | skipped ↦ rest | queued r ↦ r ∷ rest ]

-- The commands left in the table by `restore_after_reboot`.
unfoldable pub restore_after_reboot : ℕ → (ℕ → World) → List Schedule → List Restoration
unfolding latest_from restore_all
restore_after_reboot now world schedules = restore_all world (latest_from now schedules [])

-- `maybe_restore` for one telemetry message.
unfoldable pub maybe_restore :
    ℕ → ℕ → (ℕ → World) → List Schedule → Option ℕ → Option ℕ × List Restoration
unfolding note_uptime restore_after_reboot
maybe_restore now uptime world schedules last =
    let (last', new_boot) = note_uptime now uptime last in
    (last', if new_boot then restore_after_reboot now world schedules else [])
