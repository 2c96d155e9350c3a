-- ===== src/EnvRules/Tests.antt =====
-- backend/env_rules.py: runs on concrete samples, and the theorems at concrete inputs.
use terra_server.Common.{ℕ, ◌<◌, ◌≤◌, ◌≡◌, refl, true, false, some, none, [], ◌∷◌, ◌+◌, arith, List}
use terra_server.Common.Clock.{seconds}
use terra_server.EnvRules.Thresholds.{
  IsSane, sanitize, sanitize-IsSane, sanitize-settings_of, default, celsius, settings_of,
}
use terra_server.EnvRules.Event.{
  Element, Op, open_event, temp, high, low, caution, danger, env_temp_high, Action,
}
use terra_server.EnvRules.Tracker.{
  ElementTracker, new, reading, within, beyond, calm, conds, holds, reset_timers, held, threshold,
  entry_sec, update_runs, update_peak,
}
use terra_server.EnvRules.Tracker.Transition.{
  open_with, opening, close, from_idle, from_caution, from_danger, transition,
}
use terra_server.EnvRules.Tracker.Judge.{step, observe, judge, follow_up, remind_once, flush_once}
use terra_server.EnvRules.Tracker.Conditions.{bit, conds_exclusive}
use terra_server.EnvRules.Tracker.Protocol.{Performs, ledger, step-Performs}
use terra_server.EnvRules.Tracker.Warrant.{Warranted}
use terra_server.EnvRules.Tracker.History.{History, feed, since, Timed, feed-Timed}
use terra_server.EnvRules.Tracker.Timing.{step-Warranted}
use terra_server.EnvRules.Tracker.Reminders.{reminders, reminders_over, Stays, reminders-le-one}
use terra_server.EnvRules.Tracker.Overdue.{Overdue, step-Overdue}

default-IsSane : IsSane default
unfolding default
default-IsSane = omega arith

-- 30 degrees for a minute, on the half minute
abbrev hot : History
hot =
    (seconds 60, reading (celsius 30))
    ∷ (seconds 30, reading (celsius 30))
    ∷ (seconds 0, reading (celsius 30))
    ∷ []

abbrev hotter : History
hotter = (seconds 120, reading (celsius 30)) ∷ hot

abbrev ops : List Action → List Op
ops [] = []
ops (a ∷ acts) = a.op ∷ ops acts

-- What a tracker asks for on the newest sample.
asked : ElementTracker → History → ℕ → ℕ → List Op
unfolding feed step observe judge follow_up remind_once flush_once conds reset_timers update_runs
    update_peak held threshold entry_sec open_with opening close from_idle from_caution from_danger
    transition default
asked t h now v = ops (step (feed t default h) now (reading v) default).1

danger_opens : asked (new temp) hot (seconds 120) (celsius 30) ≡ open_event ∷ []
unfolding asked
danger_opens = refl

too_early : asked (new temp) hot (seconds 119) (celsius 30) ≡ []
unfolding asked
too_early = refl

gap_resets : asked (new temp) hot (seconds 121) (celsius 30) ≡ []
unfolding asked
gap_resets = refl

-- A danger that was pushed at the origin, open in row "a1".
abbrev burning : ElementTracker
burning = record {
  element = temp;
  active = some (record {
    identity = 0;
    kind = env_temp_high;
    level = danger;
    started_wall = some 0;
    pushed_mono = some 0;
    reminded = false;
    silent = false;
    peak = celsius 30;
    alert_id = some "a1";
    silent_since_mono = none;
    chain_pushed_mono = none;
    chain_reminded = false;
  });
  runs = λ c. none;
  last_mono = none;
  peak_dirty_since = none;
  next_identity = 1;
}

abbrev hour_later : History
hour_later = (seconds 3610, reading (celsius 30)) ∷ (seconds 3600, reading (celsius 30)) ∷ []

sanitize-IsSane_example : IsSane (sanitize none)
sanitize-IsSane_example = sanitize-IsSane none

sanitize-settings_of_example : sanitize (some (settings_of default)) ≡ default
sanitize-settings_of_example = sanitize-settings_of default default-IsSane

step-Performs_example :
    let (t', acts) =
      step (feed (new temp) default hot) (seconds 120) (reading (celsius 30)) default in
    Performs acts (ledger (feed (new temp) default hot).active) (ledger t'.active)
step-Performs_example =
    step-Performs (feed (new temp) default hot) (seconds 120) (reading (celsius 30)) default

feed-Timed_example : Timed temp default hot (feed (reset_timers (new temp)) default hot)
feed-Timed_example = feed-Timed (new temp) default hot

step-Warranted_example :
    Warranted temp
      (λ c. since temp default c ((seconds 120, reading (celsius 30)) ∷ hot))
      (seconds 120)
      (conds temp (celsius 30) default)
      (step
        (feed (reset_timers (new temp)) default hot)
        (seconds 120)
        (reading (celsius 30))
        default).1
step-Warranted_example = step-Warranted (new temp) default hot (seconds 120) (celsius 30) tt

Stays-hour_later : Stays burning default hour_later
unfolding asked
Stays-hour_later = (refl, (refl, tt))

reminders-le-one_example : 0 + reminders_over burning default hour_later ≤ 1
reminders-le-one_example =
    reminders-le-one burning default hour_later (omega arith) Stays-hour_later

reminded_once : 0 < reminders (step burning (seconds 3600) (reading (celsius 30)) default).1
unfolding asked
reminded_once = omega arith

step-Overdue_example : Overdue burning.active (seconds 3600) (conds temp (celsius 30) default)
step-Overdue_example = step-Overdue burning (seconds 3600) (celsius 30) default reminded_once

exclusive_at_30 :
    let cs = conds temp (celsius 30) default in
    (bit (holds (cs (beyond caution high)))
        + bit (holds (cs (beyond caution low)))
        + bit (holds (cs within))
      ≡ 1)
    × (holds (cs (beyond danger high)) ≡ true → holds (cs (beyond caution high)) ≡ true)
    × (Element.temp ≡ temp
        → bit (holds (cs (calm high))) + bit (holds (cs (beyond danger high))) ≡ 1)
exclusive_at_30 = conds_exclusive temp (celsius 30) default high default-IsSane
