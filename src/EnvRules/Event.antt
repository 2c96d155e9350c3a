-- ===== src/EnvRules/Event.antt =====
-- backend/env_rules.py, lines 136-243: events, the actions asked of the caller, the runs of a
-- condition, and the texts of a notification.
use terra_server.Common.{
  ℕ, ◌+◌, ◌-◌, ◌*◌, ◌/◌, max, String, Bool, true, false, Option, leb, if◌then◌else◌,
}

pub data Element : Type 0 where
  temp humid : Element

pub data Side : Type 0 where
  high low : Side

pub data Level : Type 0 where
  caution danger : Level

-- `kind` is the text env_<element>_<side>.
pub data Kind : Type 0 where
  env_temp_high env_temp_low env_humid_high env_humid_low : Kind

abbrev pub kind_of : Element → Side → Kind
kind_of temp high = env_temp_high
kind_of temp low = env_temp_low
kind_of humid high = env_humid_high
kind_of humid low = env_humid_low

abbrev pub opp : Side → Side
opp high = low
opp low = high

abbrev pub side_of : Kind → Side
side_of env_temp_high = high
side_of env_temp_low = low
side_of env_humid_high = high
side_of env_humid_low = low

abbrev pub same_side : Side → Side → Bool
same_side high high = true
same_side low low = true
same_side _ _ = false

-- `identity` stands for the object: `run.snap_event is a` compares it.
pub record ActiveEvent : Type 0 where
  pub identity : ℕ
  pub kind : Kind
  pub level : Level
  pub started_wall : Option ℕ
  pub pushed_mono : Option ℕ
  pub reminded : Bool
  pub silent : Bool
  pub peak : ℕ
  pub alert_id : Option String
  pub silent_since_mono : Option ℕ
  pub chain_pushed_mono : Option ℕ
  pub chain_reminded : Bool

pub data Op : Type 0 where
  open_event close_event remind flush_peak : Op

pub record Action : Type 0 where
  pub op : Op
  pub kind : Kind
  pub level : Level
  pub push : Bool
  pub value : Option ℕ
  pub threshold : Option ℕ
  pub at_mono : ℕ
  pub peak : Option ℕ
  pub closes_alert_id : Option String

-- A stretch of samples on which a condition holds without a break. `snap_event` is the identity
-- of the event that was active when it began.
pub record Run : Type 0 where
  pub start : ℕ
  pub ext : ℕ
  pub snap_event : Option ℕ
  pub snap_peak : Option ℕ

abbrev is_temp_kind : Kind → Bool
is_temp_kind env_temp_high = true
is_temp_kind env_temp_low = true
is_temp_kind _ = false

abbrev distance : ℕ → ℕ → ℕ
distance a b = if leb b a then a - b else b - a

-- `quantize(unit, ROUND_CEILING)`
abbrev ceil_to : ℕ → ℕ → ℕ
ceil_to unit d = (d + unit - 1) / unit * unit

-- In hundredths, like the measurements: a tenth of a degree is 10 and a percent is 100.
unfoldable pub display_diff : Kind → ℕ → ℕ → ℕ
display_diff kind value threshold =
    let unit : ℕ = if is_temp_kind kind then 10 else 100 in
    max (ceil_to unit (distance value threshold)) unit
