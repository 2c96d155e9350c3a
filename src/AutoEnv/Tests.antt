-- ===== src/AutoEnv/Tests.antt =====
-- backend/auto_env.py: runs on concrete samples, and the theorems at concrete inputs.
use terra_server.Common.{ℕ, ◌+◌, ◌≤◌, ◌≡◌, refl, true, false, some, List, [], ◌∷◌, All, arith}
use terra_server.Common.Clock.{seconds}
use terra_server.EnvRules.Thresholds.{celsius, percent, finite, num}
use terra_server.AutoEnv.State.{
  AutoEnvTracker, AutoInput, fan_on, off, humid_high, temp_high, new, kst_day, humid_end_line,
  hold_sec, vent_on_cmd, vent_off_cmd, mist_daily_max,
}
use terra_server.AutoEnv.Ownership.{
  reset_timers, release, reset_vent, stop_pending, on_own_ack, other_off, on_other_ack,
}
use terra_server.AutoEnv.Vent.{
  vent, vent_idle, vent_enabled, vent_disabled, vent_owned, vent_running, off_observed, end_owned,
  yield_to_schedule,
}
use terra_server.AutoEnv.Step.{
  observe, seen, judge, judge_mist, step, roll_day, accumulate, note_gap, note_fan, update_timers,
}
use terra_server.AutoEnv.Commands.{CommandSafe, step-Safe}
use terra_server.AutoEnv.Reach.{
  Reach, here, next, sample, own_ack, other_ack, IsConsistent, Reach-IsConsistent,
}
use terra_server.AutoEnv.Few.{step-HasFew}
use terra_server.AutoEnv.Budget.{mists_in, mists_over, AllOn, mists_over-le}

-- 29 degrees and 60 percent, the fan off, at a time in seconds.
abbrev warm_at : ℕ → AutoInput
warm_at n = record {
  mono = seconds n;
  wall = seconds n;
  temp = finite (celsius 29);
  humid = finite (percent 60);
  fan = off;
  has_fan = true;
  has_relay = true;
  th = record {
    temp_min = celsius 18;
    temp_max = celsius 27;
    humid_min = percent 40;
    humid_max = percent 80;
  };
  vent_on = true;
  mist_on = true;
  schedule_hold = false;
}

abbrev dry_at : ℕ → AutoInput
dry_at n = record (warm_at n) { temp = finite (celsius 25); humid = finite (percent 30) }

run : AutoEnvTracker → List AutoInput → AutoEnvTracker
unfolding step judge observe seen vent vent_idle vent_enabled vent_disabled vent_owned vent_running
    off_observed end_owned yield_to_schedule judge_mist roll_day accumulate note_gap note_fan
    update_timers reset_timers release reset_vent stop_pending kst_day humid_end_line hold_sec num
    vent_on_cmd vent_off_cmd new
run t [] = t
run t (inp ∷ inps) = run (step t inp).0 inps

-- Three minutes of samples, 45 seconds apart.
abbrev warmed : AutoEnvTracker
warmed = run new (warm_at 0 ∷ warm_at 45 ∷ warm_at 90 ∷ warm_at 135 ∷ [])

fan_starts :
    (step warmed (warm_at 180)).1
    ≡ vent_on_cmd (elim [ humid_high ↦ false | temp_high ↦ true ]) ∷ []
unfolding run
fan_starts = refl

too_early : (step warmed (warm_at 179)).1 ≡ []
unfolding run
too_early = refl

mist_ordered : mists_in (step (run new (dry_at 0 ∷ dry_at 60 ∷ dry_at 120 ∷ [])) (dry_at 180)).1 ≡ 1
unfolding run
mist_ordered = refl

step-Safe_example :
    let (t', cmds) = step warmed (warm_at 180) in
    All (CommandSafe warmed (warm_at 180) t'.intent) cmds
step-Safe_example = step-Safe warmed (warm_at 180)

-- A sample, an acknowledgement that takes the fan over, and the user's stop.
abbrev stopped : AutoEnvTracker
stopped =
    on_other_ack other_off true (seconds 2)
      (on_own_ack fan_on true (seconds 1) (step new (warm_at 0)).0)

abbrev path : Reach new stopped
path =
    next (next (next here (sample (warm_at 0))) (own_ack fan_on true (seconds 1)))
      (other_ack other_off true (seconds 2))

Reach-IsConsistent_example : IsConsistent stopped
Reach-IsConsistent_example = Reach-IsConsistent stopped path

abbrev monday : AutoEnvTracker
monday = (step new (dry_at 0)).0

abbrev dry_path : Reach monday (step (step monday (dry_at 60)).0 (dry_at 120)).0
dry_path = next (next here (sample (dry_at 60))) (sample (dry_at 120))

monday_day : monday.day ≡ some 0
unfolding run
monday_day = refl

dry_days : AllOn 0 dry_path
unfolding run
dry_days = omega arith

monday_few : monday.mist_today ≤ mist_daily_max
unfolding new
monday_few = step-HasFew new (dry_at 0) (omega arith)

mists_over-le_example : monday.mist_today + mists_over dry_path ≤ mist_daily_max
mists_over-le_example = mists_over-le 0 dry_path dry_days monday_day monday_few
