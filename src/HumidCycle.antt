-- ===== src/HumidCycle.antt =====
-- backend/humid_cycle.py: the judgement of humidity cycles. A measured humidity is a number of
-- hundredths of a percent; a smoothed one, a median that may fall between two of them, is a number
-- of half hundredths, and so are the limits. The identities that the store gives to a cycle and its
-- alerts are left out.
pub mod Windows
pub mod Detect
pub mod Step
pub mod Deque
pub mod Lowest
pub mod Run
pub mod Sound
pub mod Balance
pub mod Ends
mod Tests
use terra_server.Common.{
  suc, ℕ, ◌+◌, ◌-◌, ◌*◌, ◌/◌, Bool, true, false, Option, none, some, List, [], leb, min,
  if◌then◌else◌,
}
use terra_server.Common.Clock.{seconds}
use terra_server.Common.Int.{ℤ, pos, negsuc, sub_ℕ}

abbrev pub half_percent : ℕ → ℕ
half_percent n = n * 200

abbrev pub smooth_sec : ℕ
smooth_sec = seconds 30

abbrev pub smooth_min_samples : ℕ
smooth_min_samples = 5

abbrev pub rise_window_sec : ℕ
rise_window_sec = seconds 180

abbrev pub rise_min_history_sec : ℕ
rise_min_history_sec = seconds 60

abbrev pub rise_pp : ℕ
rise_pp = half_percent 10

abbrev pub rise_pp_high_start : ℕ
rise_pp_high_start = half_percent 5

abbrev pub high_start_pct : ℕ
high_start_pct = half_percent 60

abbrev pub wet_min_pct : ℕ
wet_min_pct = half_percent 60

abbrev pub max_window_sec : ℕ
max_window_sec = seconds 180

abbrev pub max_cap_pct : ℕ
max_cap_pct = half_percent 85

abbrev pub dry_drop_pp : ℕ
dry_drop_pp = half_percent 12

abbrev pub merge_sec : ℕ
merge_sec = seconds 1200

abbrev pub vent_delay_sec : ℕ
vent_delay_sec = seconds 21600

abbrev pub vent_stale_sec : ℕ
vent_stale_sec = seconds 54000

abbrev pub mist_gap_sec : ℕ
mist_gap_sec = seconds 54000

abbrev pub gap_sec : ℕ
gap_sec = seconds 60

pub data Status : Type 0 where
  open_ reached_in_time reached_late not_reached : Status

pub record CycleState : Type 0 where
  pub started_at : ℕ
  pub start_humid : ℕ
  pub detected_at : ℕ
  pub peak : ℕ
  pub max_until : ℕ
  pub dry_target : Option ℤ
  pub dry_reached_at : Option ℕ
  pub status : Status
  pub offline_sec : ℕ
  pub merged_count : ℕ
  pub vent_delay_fired : Bool
  pub vent_delay_closed : Bool
  pub mist_gap_fired : Bool
  pub mist_gap_closed : Bool

pub data Reason : Type 0 where
  dry next_event stale : Reason

pub data OpName : Type 0 where
  opened merged max_fixed dry_reached missed : OpName
  vent_delay mist_gap mist_gap_close offline : OpName
  vent_delay_close : Reason → OpName

-- An operation concerns the tracker's cycle after the step, or the one before it, as it ended.
pub data Subject : Type 0 where
  this : Subject
  previous : CycleState → Subject

pub record CycleOp : Type 0 where
  pub op : OpName
  pub at : ℕ
  pub cycle : Subject
  pub value : ℕ

-- A value with its time; windows are kept with the newest sample first.
abbrev pub Window : Type 0
Window = List (ℕ × ℕ)

pub record HumidCycleTracker : Type 0 where
  pub cycle : Option CycleState
  pub last_at : Option ℕ
  pub raw : Window
  pub mins : Window
  pub hist_start : Option ℕ

abbrev pub new : Option CycleState → Option ℕ → HumidCycleTracker
new cycle last_sample_at = record {
  cycle = cycle;
  last_at = last_sample_at;
  raw = [];
  mins = [];
  hist_start = none;
}

-- One decimal, half up.
unfoldable pub r1 : ℕ → ℕ
r1 x = (x + 10) / 20 * 20

-- The same below zero, half away from it.
unfoldable pub r1_ℤ : ℤ → ℤ
unfolding r1
r1_ℤ (pos n) = pos (r1 n)
r1_ℤ (negsuc n) = sub_ℕ 0 (r1 (suc n))

unfoldable pub max_humid : ℕ → ℕ
unfolding r1
max_humid peak = r1 (min peak max_cap_pct)

-- `effective_elapsed(c, now) >= sec`
abbrev pub has_lasted : CycleState → ℕ → ℕ → Bool
has_lasted c now sec = leb (c.started_at + c.offline_sec + sec) now

-- `effective_elapsed(c, now) <= sec`
abbrev pub is_within : CycleState → ℕ → ℕ → Bool
is_within c now sec = leb now (c.started_at + c.offline_sec + sec)
