-- ===== src/Scheduling/Runner/Tests.antt =====
-- backend/schedule_runner.py and the time of day: runs on concrete rows, and the theorems at
-- concrete inputs.
use terra_server.Common.{
  ℕ, ◌+◌, ◌*◌, ◌≤◌, ◌<◌, ◌≡◌, refl, true, false, inl, none, some, List, [], ◌∷◌, length, arith,
}
use terra_server.Common.Clock.{seconds}
use terra_server.Common.Text.{codes, strip, lstrip, is_space}
use terra_server.Scheduling.{contains, on_day, runs_on, next_from, compute_next_run, day_length}
use terra_server.Scheduling.Search.{IsProper}
use terra_server.Scheduling.TimeOfDay.{
  split, digits, int_of, from_parts, parse_time_of_day, print, parse_time_of_day-print,
  parse_time_of_day-lt,
}
use terra_server.Scheduling.Runner.{
  Row, World, Guard, Command, Status, pending, guard_skipped, device_offline, raised, found, stored,
  skip_when_humidity_above, humidity, evaluate_skip_guard, fire_advanced, fire_one, plan_of,
}
use terra_server.Scheduling.Runner.Firing.{Fires, fire_one-Fires}
use terra_server.Scheduling.Runner.Pass.{
  due, insert_row, order_rows, select, advance, fire_all, run_once,
}
use terra_server.Scheduling.Runner.Idle.{run_once-idle}

abbrev lamp : Row
lamp = record {
  id = 7;
  enabled = true;
  next_run_at = 14 * day_length + seconds 82800;
  device_id = 3;
  action = "led_on";
  payload = none;
  kind = "daily";
  time_of_day = codes "08:00:00";
  days_of_week = none;
  guard = none;
}

abbrev humid_guard : Guard
humid_guard = record { enabled = true; type = skip_when_humidity_above; value = some 8000 }

abbrev sprayer : Row
sprayer = record lamp { id = 8; action = "mist"; guard = some humid_guard }

abbrev well : World
well = record {
  advances = true;
  is_online = found (some true);
  latest = found (record { t_a = none; h_a = some 8500 });
  insert = stored;
}

abbrev fire_time : ℕ
fire_time = 14 * day_length + seconds 82805

statuses : List Command → List Status
statuses [] = []
statuses (c ∷ cs) = c.status ∷ statuses cs

-- The states of the commands that a pass leaves.
passed : (ℕ → World) → List Row → List Status
unfolding run_once fire_all select due order_rows insert_row advance fire_one fire_advanced
    evaluate_skip_guard compute_next_run next_from runs_on on_day contains parse_time_of_day split
    from_parts int_of digits strip lstrip is_space statuses
passed world rows = statuses (run_once 100 fire_time world rows).commands

fires_both :
    passed (λ id. well) (lamp ∷ sprayer ∷ [])
    ≡ pending
      ∷ guard_skipped (record {
        kind = skip_when_humidity_above;
        metric = humidity;
        threshold = 8000;
        value = 8500;
      })
      ∷ []
unfolding passed
fires_both = refl

offline_first :
    passed (λ id. record well { is_online = found (some false) }) (sprayer ∷ [])
    ≡ device_offline ∷ []
unfolding passed
offline_first = refl

unknown_fires : passed (λ id. record well { is_online = raised }) (lamp ∷ []) ≡ pending ∷ []
unfolding passed
unknown_fires = refl

lamp_time : parse_time_of_day lamp.time_of_day ≡ some (seconds 28800)
unfolding parse_time_of_day split from_parts int_of digits strip lstrip is_space
lamp_time = refl

lamp-IsProper : IsProper (plan_of lamp (seconds 28800))
lamp-IsProper = record { time = omega arith; valid = refl; names = inl refl }

parse_time_of_day-print_example :
    parse_time_of_day (print 23 5 9) ≡ some (seconds ((23 * 60 + 5) * 60 + 9))
parse_time_of_day-print_example =
    parse_time_of_day-print 23 5 9 (omega arith) (omega arith) (omega arith)

parse_time_of_day-lt_example : seconds 28800 < seconds 86400
parse_time_of_day-lt_example = parse_time_of_day-lt lamp.time_of_day (seconds 28800) lamp_time

fire_one-Fires_example : Fires fire_time lamp well (fire_one fire_time lamp well)
fire_one-Fires_example = fire_one-Fires fire_time lamp well

abbrev table : List Row
table = lamp ∷ sprayer ∷ []

sprayer-IsProper : IsProper (plan_of sprayer (seconds 28800))
sprayer-IsProper = record { time = omega arith; valid = refl; names = inl refl }

fits : length (due fire_time table) ≤ 100
unfolding due
fits = omega arith

run_once-idle_example :
    let after = (run_once 100 fire_time (λ id. well) table).schedules in
    run_once 100 fire_time (λ id. well) after
    ≡ record { schedules = after; commands = []; fired = 0 }
run_once-idle_example =
    run_once-idle 100 fire_time (λ id. well) (λ id. well) table
      (
        (seconds 28800, (lamp_time, lamp-IsProper)),
        ((seconds 28800, (lamp_time, sprayer-IsProper)), tt),
      )
      (λ id. refl) fits
