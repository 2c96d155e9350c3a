-- ===== src/Scheduling/Runner.antt =====
-- backend/schedule_runner.py: the pass that fires the schedules that are due. What the database
-- answers while one schedule is fired is a `World`, which the pass looks up for each row. A guard's
-- value and a measurement are numbers counted in hundredths from a value below them all; an action
-- and a payload are texts that are passed on.
pub mod Firing
pub mod Pass
pub mod Idle
mod Tests
use terra_server.Common.{
  ℕ, zero, suc, ◌+◌, String, Bool, true, false, not, ◌&&◌, ◌||◌, Option, none, some, List, [], ◌∷◌,
  ltb, leb, ◌==◌, if◌then◌else◌, take,
}
use terra_server.Common.Text.{str_eq}
use terra_server.Scheduling.{Plan, Run, at, value_error, runtime_error, compute_next_run}
use terra_server.Scheduling.TimeOfDay.{parse_time_of_day}

-- The guards that the server judges; those of the firmware (`stop_when_…`) are the last.
pub data GuardType : Type 0 where
  skip_when_humidity_above skip_when_humidity_below skip_when_temp_above skip_when_temp_below :
      GuardType
  other_skip other_type : GuardType

pub record Guard : Type 0 where
  pub enabled : Bool
  pub type : GuardType
  pub value : Option ℕ

pub record Telemetry : Type 0 where
  pub t_a : Option ℕ
  pub h_a : Option ℕ

-- A query that raises, finds no row, or finds one.
pub data Query {ℓ} (A : Type ℓ) : Type ℓ where
  raised : Query A
  missing : Query A
  found : A → Query A

-- An insert that raises, gives no row back, or stores the row.
pub data Insert : Type 0 where
  insert_raised insert_refused stored : Insert

pub record World : Type 0 where
  pub advances : Bool
  pub is_online : Query (Option Bool)
  pub latest : Query Telemetry
  pub insert : Insert

pub record Row : Type 0 where
  pub id : ℕ
  pub enabled : Bool
  pub next_run_at : ℕ
  pub device_id : ℕ
  pub action : String
  pub payload : Option String
  pub kind : String
  pub time_of_day : List ℕ
  pub days_of_week : Option (List ℕ)
  pub guard : Option Guard

pub data Metric : Type 0 where
  humidity temperature : Metric

pub record Skip : Type 0 where
  pub kind : GuardType
  pub metric : Metric
  pub threshold : ℕ
  pub value : ℕ

pub data Status : Type 0 where
  pending : Status
  guard_skipped : Skip → Status
  device_offline : Status

pub record Command : Type 0 where
  pub device_id : ℕ
  pub action : String
  pub payload : Option String
  pub source_id : ℕ
  pub status : Status

abbrev pub command_for : Row → Status → Command
command_for row status = record {
  device_id = row.device_id;
  action = row.action;
  payload = row.payload;
  source_id = row.id;
  status = status;
}

abbrev pub exceeds : GuardType → Metric → ℕ → Option ℕ → Option Skip
exceeds type metric value none = none
exceeds type metric value (some m) =
    if ltb value m
    then some (record { kind = type; metric = metric; threshold = value; value = m })
    else none

abbrev pub falls_below : GuardType → Metric → ℕ → Option ℕ → Option Skip
falls_below type metric value none = none
falls_below type metric value (some m) =
    if ltb m value
    then some (record { kind = type; metric = metric; threshold = value; value = m })
    else none

abbrev pub compare_guard : GuardType → ℕ → Telemetry → Option Skip
compare_guard skip_when_humidity_above v tel = exceeds skip_when_humidity_above humidity v tel.h_a
compare_guard skip_when_humidity_below v tel =
    falls_below skip_when_humidity_below humidity v tel.h_a
compare_guard skip_when_temp_above v tel = exceeds skip_when_temp_above temperature v tel.t_a
compare_guard skip_when_temp_below v tel = falls_below skip_when_temp_below temperature v tel.t_a
compare_guard _ v tel = none

-- What came of a guard: the query raised, or the skip if there is one.
abbrev pub evaluate_with : GuardType → Option ℕ → Query Telemetry → Query Skip
evaluate_with other_type v q = missing
evaluate_with type none q = missing
evaluate_with type (some v) raised = raised
evaluate_with type (some v) missing = missing
evaluate_with type (some v) (found tel) = elim (compare_guard type v tel) [
  | none ↦ missing
  | some skip ↦ found skip
]

unfoldable pub evaluate_skip_guard : World → Guard → Query Skip
evaluate_skip_guard w g = evaluate_with g.type g.value w.latest

abbrev pub is_device_offline : Query (Option Bool) → Bool
is_device_offline (found (some false)) = true
is_device_offline q = false

-- What firing a row does: its next run where it was advanced, the row of `commands` it left, and
-- whether it ran to its end.
pub record Fired : Type 0 where
  pub advanced : Option ℕ
  pub command : Option Command
  pub completed : Bool

abbrev pub failed : Option ℕ → Fired
failed next = record { advanced = next; command = none; completed = false }

-- The record of a skipped schedule: a failed insert is only logged.
abbrev pub record_skipped : Row → Status → Insert → Option Command
record_skipped row status stored = some (command_for row status)
record_skipped row status _ = none

abbrev pub insert_pending : ℕ → Row → Insert → Fired
insert_pending next row insert_raised = failed (some next)
insert_pending next row insert_refused = record {
  advanced = some next;
  command = none;
  completed = true;
}
insert_pending next row stored = record {
  advanced = some next;
  command = some (command_for row pending);
  completed = true;
}

abbrev pub fire_checked : ℕ → Row → World → Query Skip → Fired
fire_checked next row w raised = failed (some next)
fire_checked next row w (found skip) = record {
  advanced = some next;
  command = record_skipped row (guard_skipped skip) w.insert;
  completed = true;
}
fire_checked next row w missing = insert_pending next row w.insert

abbrev pub check_guard : Option Guard → World → Query Skip
check_guard none w = missing
check_guard (some g) w = if g.enabled then evaluate_skip_guard w g else missing

-- The part of `_fire_one` after the row was advanced.
unfoldable pub fire_advanced : ℕ → Row → World → Fired
unfolding evaluate_skip_guard
fire_advanced next row w =
    if is_device_offline w.is_online
    then record {
      advanced = some next;
      command = record_skipped row device_offline w.insert;
      completed = true;
    }
    else fire_checked next row w (check_guard row.guard w)

abbrev pub plan_of : Row → ℕ → Plan
plan_of row tod = record { kind = row.kind; time_of_day = tod; days_of_week = row.days_of_week }

abbrev pub next_run : ℕ → Row → Option ℕ → Run
next_run now row none = value_error
next_run now row (some tod) = compute_next_run now (plan_of row tod)

abbrev pub fire_at : Row → World → Run → Fired
fire_at row w (at next) = if w.advances then fire_advanced next row w else failed none
fire_at row w value_error = failed none
fire_at row w runtime_error = failed none

unfoldable pub fire_one : ℕ → Row → World → Fired
unfolding fire_advanced compute_next_run parse_time_of_day
fire_one now row w = fire_at row w (next_run now row (parse_time_of_day row.time_of_day))
