-- ===== src/RebootRestore/Tests.antt =====
-- backend/schedule_restore.py: runs on concrete schedules, and the theorems at concrete inputs.
use terra_server.Common.{
  ℕ, ◌+◌, ◌*◌, ◌≤◌, ◌≡◌, refl, true, false, none, some, Option, List, [], ◌∷◌, arith,
}
use terra_server.Common.Clock.{seconds}
use terra_server.Common.Text.{codes, strip, lstrip, is_space}
use terra_server.Scheduling.{contains, on_day, runs_on, prev_from, compute_prev_run, day_length}
use terra_server.Scheduling.TimeOfDay.{split, digits, int_of, from_parts, parse_time_of_day}
use terra_server.Scheduling.Runner.{World, missing, found, stored, evaluate_skip_guard}
use terra_server.RebootRestore.{
  led, Schedule, Restoration, note_uptime, actuator_of, event_of, lookup, set, latest_from,
  restore_one, restore_all, restore_after_reboot, maybe_restore,
}
use terra_server.RebootRestore.Boots.{boots, boots-le-one}
use terra_server.RebootRestore.Latest.{OneOf, Latest, latest_from-Decides}

abbrev lamp_on : Schedule
lamp_on = record {
  row = record {
    id = 7;
    enabled = true;
    next_run_at = 0;
    device_id = 3;
    action = "led_on";
    payload = none;
    kind = "daily";
    time_of_day = codes "08:00";
    days_of_week = none;
    guard = none;
  };
  has_duration = false;
}

abbrev lamp_off : Schedule
lamp_off = record {
  row = record lamp_on.row { id = 8; action = "led_off"; time_of_day = codes "20:00" };
  has_duration = false;
}

abbrev online : World
online = record {
  advances = true;
  is_online = found (some true);
  latest = missing;
  insert = stored;
}

restored : ℕ → ℕ → Option ℕ → List Restoration
unfolding maybe_restore note_uptime restore_after_reboot restore_all restore_one evaluate_skip_guard
    latest_from lookup set event_of actuator_of compute_prev_run prev_from runs_on on_day contains
    parse_time_of_day split from_parts int_of digits strip lstrip is_space
restored now uptime last =
    (maybe_restore now uptime (λ id. online) (lamp_on ∷ lamp_off ∷ []) last).1

-- Five in UTC is two in the afternoon in Korea.
by_day :
    restored (20 * day_length + seconds 18000) (seconds 10) none
    ≡ record { actuator = led; source_id = 7 } ∷ []
unfolding restored
by_day = refl

by_night : restored (20 * day_length + seconds 43200) (seconds 10) none ≡ []
unfolding restored
by_night = refl

long_running : restored (20 * day_length + seconds 18000) (seconds 1000) none ≡ []
unfolding restored
long_running = refl

boots-le-one_example :
    boots
      ((seconds 1010, seconds 10) ∷ (seconds 1041, seconds 20) ∷ (seconds 1060, seconds 60) ∷ [])
      (some (seconds 500))
    ≤ 1
boots-le-one_example =
    boots-le-one (seconds 1000) (some (seconds 500))
      ((seconds 1010, seconds 10) ∷ (seconds 1041, seconds 20) ∷ (seconds 1060, seconds 60) ∷ [])
      ((omega arith, omega arith), ((omega arith, omega arith), ((omega arith, omega arith), tt)))

latest_from-Decides_example :
    let latest = latest_from (20 * day_length) (lamp_on ∷ lamp_off ∷ []) [] in
    OneOf (20 * day_length) led (lamp_on ∷ lamp_off ∷ []) none (lookup led latest)
    × Latest (20 * day_length) led (lookup led latest) (lamp_on ∷ lamp_off ∷ [])
latest_from-Decides_example = latest_from-Decides (20 * day_length) led (lamp_on ∷ lamp_off ∷ [])
