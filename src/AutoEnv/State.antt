-- ===== src/AutoEnv/State.antt =====
-- backend/auto_env.py, lines 57-190: the constants, the input and output of a judgement, and the
-- state of the tracker. Measurements and instants are those of EnvRules. The dictionaries and sets
-- keyed by a cause are functions of the cause.
use terra_server.Common.{
  ℕ, ◌+◌, ◌-◌, ◌/◌, max, Bool, true, false, ◌||◌, Option, none, some, List, [], ◌∷◌, ◌++◌,
  if◌then◌else◌,
}
use terra_server.Common.Clock.{seconds}
use terra_server.EnvRules.Thresholds.{Thresholds, RawSetting}
use terra_server.EnvRules.Tracker.{over_humid_entry_sec}

abbrev pub hold_sec_default : ℕ
hold_sec_default = seconds 180

abbrev pub humid_hold_sec : ℕ
humid_hold_sec = over_humid_entry_sec

abbrev pub vent_humid_margin : ℕ
vent_humid_margin = 500

abbrev pub vent_temp_margin : ℕ
vent_temp_margin = 50

abbrev pub end_hold_sec : ℕ
end_hold_sec = seconds 60

abbrev pub vent_duration_ms : ℕ
vent_duration_ms = 3600000

abbrev pub refire_min_sec : ℕ
refire_min_sec = seconds 300

abbrev pub vent_min_off_sec : ℕ
vent_min_off_sec = seconds 600

abbrev pub vent_daily_max_sec : ℕ
vent_daily_max_sec = seconds 43200

abbrev pub manual_pause_sec : ℕ
manual_pause_sec = seconds 1800

abbrev pub mist_duration_ms : ℕ
mist_duration_ms = 3000

abbrev pub mist_min_interval_sec : ℕ
mist_min_interval_sec = seconds 7200

abbrev pub mist_daily_max : ℕ
mist_daily_max = 4

abbrev pub off_streak_min : ℕ
off_streak_min = 2

abbrev pub expiry_slack_sec : ℕ
expiry_slack_sec = seconds 30

abbrev pub retry_sec : ℕ
retry_sec = seconds 30

pub data Cause : Type 0 where
  humid_high temp_high : Cause

pub data Phase : Type 0 where
  idle requested owned : Phase

abbrev pub Causes : Type 0
Causes = Cause → Bool

abbrev pub no_causes : Causes
no_causes c = false

abbrev pub all_causes : Causes
all_causes c = true

abbrev pub is_any : Causes → Bool
is_any causes = causes humid_high || causes temp_high

-- `set(a) or set(b)`
abbrev pub causes_or : Causes → Causes → Causes
causes_or a b = if is_any a then a else b

abbrev pub Timers : Type 0
Timers = Cause → Option ℕ

abbrev pub no_timers : Timers
no_timers c = none

unfoldable pub humid_end_line : Thresholds → ℕ
humid_end_line th = max (th.humid_max - vent_humid_margin) ((th.humid_min + th.humid_max) / 2)

-- The number of the day in Korea (UTC+9) of an instant counted from a midnight in UTC.
unfoldable pub kst_day : ℕ → ℕ
kst_day wall = (wall + seconds 32400) / seconds 86400

unfoldable pub hold_sec : Cause → ℕ
hold_sec humid_high = humid_hold_sec
hold_sec temp_high = hold_sec_default

-- `fan` of the telemetry in upper case; `unreported` is a missing key or no text.
pub data FanReport : Type 0 where
  unreported on off other : FanReport

abbrev pub is_off : FanReport → Bool
is_off off = true
is_off _ = false

-- One sample. `temp` and `humid` are any values; `num` takes the finite numbers among them.
pub record AutoInput : Type 0 where
  pub mono : ℕ
  pub wall : ℕ
  pub temp : RawSetting
  pub humid : RawSetting
  pub fan : FanReport
  pub has_fan : Bool
  pub has_relay : Bool
  pub th : Thresholds
  pub vent_on : Bool
  pub mist_on : Bool
  pub schedule_hold : Bool

pub data AutoAction : Type 0 where
  fan_on fan_off mist : AutoAction

pub data Reason : Type 0 where
  auto_vent : List Cause → Reason
  auto_vent_disabled auto_vent_cap auto_vent_cold auto_vent_end auto_mist : Reason

abbrev pub is_disabled : Reason → Bool
is_disabled auto_vent_disabled = true
is_disabled _ = false

-- The payload is empty or holds `duration_ms`.
pub record AutoCmd : Type 0 where
  pub action : AutoAction
  pub duration_ms : Option ℕ
  pub reason : Reason

abbrev pub listed : Causes → Cause → List Cause
listed causes c = if causes c then c ∷ [] else []

-- The causes of a reason are in the order of CAUSES.
unfoldable pub vent_on_cmd : Causes → AutoCmd
vent_on_cmd causes = record {
  action = fan_on;
  duration_ms = some vent_duration_ms;
  reason = auto_vent (listed causes humid_high ++ listed causes temp_high);
}

unfoldable pub vent_off_cmd : Reason → AutoCmd
vent_off_cmd reason = record { action = fan_off; duration_ms = none; reason = reason }

pub record AutoEnvTracker : Type 0 where
  pub over : Timers
  pub under : Timers
  pub low_since : Option ℕ
  pub last_mono : Option ℕ
  pub phase : Phase
  pub causes : Causes
  pub intent : Causes
  pub last_on : Option ℕ
  pub last_cmd : Option ℕ
  pub pending_on : Option ℕ
  pub stopping : Option (ℕ × Reason)
  pub retry_after : Option ℕ
  pub paused_until : Option ℕ
  pub last_end : Option ℕ
  pub off_streak : ℕ
  pub run_since : Option ℕ
  pub run_acc : ℕ
  pub acc_mark : Option ℕ
  pub runtime_done : ℕ
  pub hold : Bool
  pub armed : Bool
  pub mist_last : Option ℕ
  pub mist_today : ℕ
  pub day : Option ℕ
  pub ref : Option (ℕ × ℕ)

-- The defaults of the fields.
unfoldable pub new : AutoEnvTracker
new = record {
  over = no_timers;
  under = no_timers;
  low_since = none;
  last_mono = none;
  phase = idle;
  causes = no_causes;
  intent = no_causes;
  last_on = none;
  last_cmd = none;
  pending_on = none;
  stopping = none;
  retry_after = none;
  paused_until = none;
  last_end = none;
  off_streak = 0;
  run_since = none;
  run_acc = 0;
  acc_mark = none;
  runtime_done = 0;
  hold = false;
  armed = true;
  mist_last = none;
  mist_today = 0;
  day = none;
  ref = none;
}
