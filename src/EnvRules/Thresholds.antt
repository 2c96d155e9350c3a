-- ===== src/EnvRules/Thresholds.antt =====
-- backend/env_rules.py, lines 60-133: the constants and the thresholds of a device. A measurement
-- is a whole number of hundredths: of a degree above absolute zero, or of a percent of humidity.
use terra_server.Common.{
  ℕ, ◌+◌, ◌*◌, ◌<◌, ◌≤◌, min, max, ◌≡◌, Bool, Option, none, some, arith, ltb, if◌then◌else◌,
  or_else,
}

abbrev pub celsius : ℕ → ℕ
celsius n = n * 100 + 27315

abbrev pub percent : ℕ → ℕ
percent n = n * 100

abbrev pub warn_temp_low : ℕ
warn_temp_low = celsius 15

abbrev pub warn_temp_high : ℕ
warn_temp_high = celsius 29

-- What `device_settings` may hold under a key, as `float()` sees it: SQL NULL or a missing key, a
-- bool, what `float()` reads as a finite number, NaN or an infinity, and what it raises on.
pub data RawSetting : Type 0 where
  null : RawSetting
  boolean : Bool → RawSetting
  finite : ℕ → RawSetting
  not_finite : RawSetting
  unreadable : RawSetting

unfoldable pub num : RawSetting → Option ℕ
num null = none
num (boolean b) = none
num (finite f) = some f
num not_finite = none
num unreadable = none

abbrev clamp : Option ℕ → ℕ → ℕ × ℕ → ℕ
clamp v default range = elim v [ none ↦ default | some x ↦ min (max x range.0) range.1 ]

unfoldable pub pair : Option ℕ → Option ℕ → ℕ × ℕ → ℕ × ℕ → ℕ × ℕ
pair lo hi range default =
    let lo' = clamp lo default.0 range in
    let hi' = clamp hi default.1 range in if ltb lo' hi' then (lo', hi') else default

pub record Thresholds : Type 0 where
  pub temp_min : ℕ
  pub temp_max : ℕ
  pub humid_min : ℕ
  pub humid_max : ℕ

abbrev pub temp_default : ℕ × ℕ
temp_default = (celsius 18, celsius 27)

abbrev pub humid_default : ℕ × ℕ
humid_default = (percent 40, percent 80)

abbrev pub temp_set_range : ℕ × ℕ
temp_set_range = (celsius 15, celsius 29)

abbrev pub humid_set_range : ℕ × ℕ
humid_set_range = (percent 35, percent 85)

unfoldable pub default : Thresholds
default = record {
  temp_min = temp_default.0;
  temp_max = temp_default.1;
  humid_min = humid_default.0;
  humid_max = humid_default.1;
}

-- The keys of `device_settings` that `sanitize` reads.
pub record RawSettings : Type 0 where
  pub target_temp_min : RawSetting
  pub target_temp_max : RawSetting
  pub target_humid_min : RawSetting
  pub target_humid_max : RawSetting

abbrev pub no_settings : RawSettings
no_settings = record {
  target_temp_min = null;
  target_temp_max = null;
  target_humid_min = null;
  target_humid_max = null;
}

unfoldable pub sanitize : Option RawSettings → Thresholds
unfolding num pair
sanitize given =
    let raw = or_else given no_settings in
    let t = pair (num raw.target_temp_min) (num raw.target_temp_max) temp_set_range temp_default in
    let h =
      pair (num raw.target_humid_min) (num raw.target_humid_max) humid_set_range humid_default in
    record { temp_min = t.0; temp_max = t.1; humid_min = h.0; humid_max = h.1 }

-- What the rest of the module relies on: each range is not empty and lies in the v4 limits.
pub record IsSane (th : Thresholds) : Type 0 where
  pub temp_low : celsius 15 ≤ th.temp_min
  pub temp_order : th.temp_min < th.temp_max
  pub temp_high : th.temp_max ≤ celsius 29
  pub humid_low : percent 35 ≤ th.humid_min
  pub humid_order : th.humid_min < th.humid_max
  pub humid_high : th.humid_max ≤ percent 85

pair_in_range :
    (lo hi : Option ℕ) (range default : ℕ × ℕ)
    → range.0 ≤ default.0
    → default.0 < default.1
    → default.1 ≤ range.1
    → (range.0 ≤ (pair lo hi range default).0)
      × ((pair lo hi range default).0 < (pair lo hi range default).1)
      × ((pair lo hi range default).1 ≤ range.1)
unfolding pair
pair_in_range lo hi range default a b c = ground arith

-- Whatever the settings row holds, and also without a row, the thresholds that `sanitize` returns
-- have MIN below MAX for both elements, within 15 to 29 degrees and 35 to 85 percent.
pub sanitize-IsSane : (given : Option RawSettings) → IsSane (sanitize given)
unfolding sanitize
sanitize-IsSane given =
    let raw = or_else given no_settings in
    let t =
      pair_in_range (num raw.target_temp_min) (num raw.target_temp_max) temp_set_range temp_default
        (omega arith) (omega arith) (omega arith) in
    let h =
      pair_in_range (num raw.target_humid_min) (num raw.target_humid_max) humid_set_range
        humid_default (omega arith) (omega arith) (omega arith) in
    record {
      temp_low = t.0;
      temp_order = t.1;
      temp_high = t.2;
      humid_low = h.0;
      humid_order = h.1;
      humid_high = h.2;
    }

abbrev pub settings_of : Thresholds → RawSettings
settings_of th = record {
  target_temp_min = finite th.temp_min;
  target_temp_max = finite th.temp_max;
  target_humid_min = finite th.humid_min;
  target_humid_max = finite th.humid_max;
}

-- A row that holds thresholds within the limits, MIN below MAX, is read back unchanged.
pub sanitize-settings_of : (th : Thresholds) → IsSane th → sanitize (some (settings_of th)) ≡ th
unfolding sanitize
sanitize-settings_of th s = ground arith
