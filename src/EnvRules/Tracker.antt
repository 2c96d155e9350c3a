-- ===== src/EnvRules/Tracker.antt =====
-- backend/env_rules.py, lines 245-494: `ElementTracker`, the state machine of one element of one
-- device. A method that mutates the tracker returns the new one. The dictionaries keyed by the name
-- of a condition are functions of the condition.
pub mod Transition
pub mod Judge
pub mod Protocol
pub mod Warrant
pub mod History
pub mod WellFormed
pub mod Timing
pub mod Reminders
pub mod Overdue
pub mod Conditions
use terra_server.Common.{
  ℕ, ◌+◌, ◌*◌, ◌<◌, min, max, Bool, true, false, not, ◌&&◌, ◌||◌, Option, none, some, List, [], ◌∷◌,
  ◌++◌, ltb, leb, ◌==◌, if◌then◌else◌,
}
use terra_server.Common.Clock.{seconds, elapsed, elapsed_since}
use terra_server.EnvRules.Thresholds.{Thresholds, warn_temp_low, warn_temp_high}
use terra_server.EnvRules.Event.{
  Element, temp, humid, Side, high, low, Level, caution, danger, ActiveEvent, Action, open_event,
  close_event, remind, flush_peak, Run, kind_of, opp, side_of, same_side,
}

abbrev pub entry_sec_default : ℕ
entry_sec_default = seconds 120

abbrev pub recovery_sec : ℕ
recovery_sec = seconds 300

abbrev pub over_humid_entry_sec : ℕ
over_humid_entry_sec = seconds 3600

abbrev pub reminder_sec : ℕ
reminder_sec = seconds 3600

abbrev pub gap_sec : ℕ
gap_sec = seconds 60

abbrev pub redanger_silence_sec : ℕ
redanger_silence_sec = seconds 1800

abbrev pub peak_flush_sec : ℕ
peak_flush_sec = seconds 300

-- danger_high ... caution_low, ok, calm_high and calm_low
pub data Cond : Type 0 where
  beyond : Level → Side → Cond
  within : Cond
  calm : Side → Cond

-- `None`, a NaN or an infinity, or a finite reading.
pub data Sample : Type 0 where
  missing not_finite : Sample
  reading : ℕ → Sample

abbrev pub Conds : Type 0
Conds = Cond → Option Bool

abbrev pub Runs : Type 0
Runs = Cond → Option Run

pub record ElementTracker : Type 0 where
  pub element : Element
  pub active : Option ActiveEvent
  pub runs : Runs
  pub last_mono : Option ℕ
  pub peak_dirty_since : Option ℕ
  pub next_identity : ℕ

abbrev pub no_runs : Runs
no_runs name = none

abbrev pub new : Element → ElementTracker
new e = record {
  element = e;
  active = none;
  runs = no_runs;
  last_mono = none;
  peak_dirty_since = none;
  next_identity = 0;
}

unfoldable pub reset_timers : ElementTracker → ElementTracker
reset_timers t = record t { runs = no_runs; last_mono = none }

abbrev adopt : ℕ → Option ActiveEvent → Option ActiveEvent
adopt identity none = none
adopt identity (some ev) = some (record ev { identity = identity })

-- The event comes from the database, so it is an object of its own.
unfoldable pub restore : ElementTracker → Option ActiveEvent → ElementTracker
unfolding reset_timers
restore t ev =
    let t' = reset_timers t in
    record t' {
      active = adopt t.next_identity ev;
      peak_dirty_since = none;
      next_identity = t.next_identity + 1;
    }

abbrev stamp_push : ℕ → Option ActiveEvent → Option ActiveEvent
stamp_push now none = none
stamp_push now (some a) = elim a.pushed_mono [
  | none ↦ some (record a { pushed_mono = some now })
  | some p ↦ some a
]

unfoldable pub mark_pushed : ElementTracker → ℕ → ElementTracker
mark_pushed t now = record t { active = stamp_push now t.active }

unfoldable pub rollback_open : ElementTracker → ElementTracker
rollback_open t = record t { active = none; peak_dirty_since = none }

abbrev pub is_temp : Element → Bool
is_temp temp = true
is_temp humid = false

abbrev pub min_of : Element → Thresholds → ℕ
min_of temp th = th.temp_min
min_of humid th = th.humid_min

abbrev pub max_of : Element → Thresholds → ℕ
max_of temp th = th.temp_max
max_of humid th = th.humid_max

unfoldable pub conds : Element → ℕ → Thresholds → Conds
conds temp v th (beyond danger high) = some (ltb warn_temp_high v)
conds temp v th (beyond danger low) = some (ltb v warn_temp_low)
conds temp v th (calm high) = some (leb v warn_temp_high)
conds temp v th (calm low) = some (leb warn_temp_low v)
conds humid v th (beyond danger side) = none
conds humid v th (calm side) = none
conds e v th (beyond caution high) = some (ltb (max_of e th) v)
conds e v th (beyond caution low) = some (ltb v (min_of e th))
conds e v th within = some (leb (min_of e th) v && leb v (max_of e th))

unfoldable pub threshold : Element → Side → Thresholds → ℕ
threshold e high th = max_of e th
threshold e low th = min_of e th

unfoldable pub entry_sec : Element → Side → ℕ
entry_sec humid high = over_humid_entry_sec
entry_sec _ _ = entry_sec_default

abbrev if_elapsed : Run → ℕ → ℕ → Option Run
if_elapsed run now sec = if elapsed run.start now sec then some run else none

unfoldable pub held : Runs → Cond → ℕ → ℕ → Option Run
held runs name now sec = elim (runs name) [ none ↦ none | some run ↦ if_elapsed run now sec ]

-- `conds.get(name, False)`
abbrev pub holds : Option Bool → Bool
holds none = false
holds (some b) = b

abbrev pub in_danger : Conds → Bool
in_danger cs = holds (cs (beyond danger high)) || holds (cs (beyond danger low))

abbrev is_low : Cond → Bool
is_low (beyond level low) = true
is_low (calm low) = true
is_low _ = false

abbrev identity_of : Option ActiveEvent → Option ℕ
identity_of none = none
identity_of (some a) = some a.identity

abbrev peak_of : Option ActiveEvent → Option ℕ
peak_of none = none
peak_of (some a) = some a.peak

-- One round of the loop of `_update_runs`: a condition that holds begins a run or extends it.
abbrev extend : Option ActiveEvent → ℕ → ℕ → Bool → Option Run → Run
extend active now v lower none = record {
  start = now;
  ext = v;
  snap_event = identity_of active;
  snap_peak = peak_of active;
}
extend active now v lower (some run) = record run {
  ext = if lower then min run.ext v else max run.ext v;
}

abbrev update_run : Option ActiveEvent → ℕ → ℕ → Bool → Option Bool → Option Run → Option Run
update_run active now v lower none run = run
update_run active now v lower (some false) run = none
update_run active now v lower (some true) run = some (extend active now v lower run)

unfoldable pub update_runs : ElementTracker → ℕ → ℕ → Conds → ElementTracker
update_runs t now v cs = record t {
  runs = λ name. update_run t.active now v (is_low name) (cs name) (t.runs name);
}

abbrev toward : Side → ℕ → ℕ → ℕ
toward high a b = max a b
toward low a b = min a b

abbrev first_dirty : Option ℕ → ℕ → Option ℕ
first_dirty none now = some now
first_dirty (some since) now = some since

abbrev renew_peak : ElementTracker → ActiveEvent → ℕ → ℕ → ElementTracker
renew_peak t a now new_peak = if new_peak == a.peak then t else record t {
  active = some (record a { peak = new_peak });
  peak_dirty_since = first_dirty t.peak_dirty_since now;
}

unfoldable pub update_peak : ElementTracker → ℕ → ℕ → ElementTracker
update_peak t now v = elim t.active [
  | none ↦ t
  | some a ↦ renew_peak t a now (toward (side_of a.kind) a.peak v)
]
