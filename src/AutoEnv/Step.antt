-- ===== src/AutoEnv/Step.antt =====
-- backend/auto_env.py, lines 327-408 and 512-529: `step`, the judgement of one sample.
use terra_server.Common.{
  ℕ, suc, ◌+◌, ◌-◌, min, Bool, true, false, not, ◌&&◌, ◌||◌, Option, none, some, List, [], ◌∷◌,
  ◌++◌, ltb, leb, is_some, or_else, if◌then◌else◌,
}
use terra_server.Common.Clock.{elapsed_since}
use terra_server.EnvRules.Thresholds.{Thresholds, num}
use terra_server.EnvRules.Tracker.{gap_sec}
use terra_server.EnvRules.Tracker.Judge.{is_gap}
use terra_server.AutoEnv.State.{
  AutoEnvTracker, AutoInput, AutoCmd, fan_on, Cause, humid_high, temp_high, is_off, kst_day,
  humid_end_line, vent_temp_margin, hold_sec_default, mist_min_interval_sec, mist_daily_max,
  mist_duration_ms, mist, auto_mist, retry_sec,
}
use terra_server.AutoEnv.Ownership.{is_idle, is_owned, reset_timers}
use terra_server.AutoEnv.Vent.{VentOutcome, Seen, before, within_sec, vent}

abbrev pub start_day : Option ℕ → ℕ → ℕ → AutoEnvTracker → AutoEnvTracker
start_day none today now t = record t { day = some today }
start_day (some d) today now t = if leb today d then t else record t {
  day = some today;
  runtime_done = 0;
  run_acc = 0;
  mist_today = 0;
  run_since = if is_owned t.phase then some now else t.run_since;
}

unfoldable pub roll_day : ℕ → ℕ → AutoEnvTracker → AutoEnvTracker
roll_day wall now t = start_day t.day (kst_day wall) now t

-- The time of an owned fan counts, a minute at most from one sample to the next.
abbrev pub add_since : Option ℕ → ℕ → ℕ → ℕ
add_since none now acc = acc
add_since (some mark) now acc = acc + min (now - mark) gap_sec

unfoldable pub accumulate : ℕ → AutoEnvTracker → AutoEnvTracker
accumulate now t =
    if is_owned t.phase
    then record t { run_acc = add_since t.acc_mark now t.run_acc; acc_mark = some now }
    else t

unfoldable pub note_gap : ℕ → AutoEnvTracker → AutoEnvTracker
note_gap now t =
    let t' = if is_gap t.last_mono now then record (reset_timers t) { off_streak = 0 } else t in
    record t' { last_mono = some now }

unfoldable pub note_fan : AutoInput → AutoEnvTracker → AutoEnvTracker
note_fan inp t = record t {
  off_streak = if is_off inp.fan then suc t.off_streak else 0;
  hold = inp.schedule_hold;
}

abbrev pub above : Option ℕ → ℕ → Bool
above none line = false
above (some x) line = ltb line x

abbrev pub at_most : Option ℕ → ℕ → Bool
at_most none line = false
at_most (some x) line = leb x line

abbrev pub tick : Bool → ℕ → Option ℕ → Option ℕ
tick false now since = none
tick true now since = some (or_else since now)

abbrev pub over_cond : Thresholds → Option ℕ → Option ℕ → Cause → Bool
over_cond th t h humid_high = above h th.humid_max && above t th.temp_min
over_cond th t h temp_high = above t th.temp_max

-- `t <= MAX - 0.5` and the like, with the margin on the side of the measurement.
abbrev pub under_cond : Thresholds → Option ℕ → Option ℕ → Cause → Bool
under_cond th t h humid_high = at_most h (humid_end_line th)
under_cond th none h temp_high = false
under_cond th (some t) h temp_high = leb (t + vent_temp_margin) th.temp_max

-- The timer and the arming of the mist.
abbrev pub watch_humid : Bool → Option ℕ → Thresholds → ℕ → AutoEnvTracker → AutoEnvTracker
watch_humid false h th now t = record t { low_since = none; armed = true }
watch_humid true none th now t = record t { low_since = none }
watch_humid true (some h) th now t =
    if ltb h th.humid_min
    then record t { low_since = some (or_else t.low_since now) }
    else record t { low_since = none; armed = true }

unfoldable pub update_timers : AutoInput → ℕ → Option ℕ → Option ℕ → AutoEnvTracker → AutoEnvTracker
update_timers inp now t h tr =
    let gate = inp.vent_on && not (before tr.paused_until now) && not inp.schedule_hold in
    watch_humid inp.mist_on h inp.th now (record tr {
      over = λ c. tick (gate && over_cond inp.th t h c) now (tr.over c);
      under = λ c. tick (under_cond inp.th t h c) now (tr.under c);
    })

abbrev pub mist_cmd : AutoCmd
mist_cmd = record { action = mist; duration_ms = some mist_duration_ms; reason = auto_mist }

unfoldable pub judge_mist : AutoEnvTracker → AutoInput → Seen → Bool → VentOutcome
judge_mist t inp s fan_on_now =
    if not inp.mist_on || s.blind || fan_on_now || not inp.has_relay
    then (t, none)
    else if not s.fan_off || not (is_idle t.phase)
    then (t, none)
    else if not t.armed || not (elapsed_since t.low_since s.now hold_sec_default)
    then (t, none)
    else if within_sec t.mist_last s.now mist_min_interval_sec
    then (t, none)
    else if leb mist_daily_max t.mist_today
    then (t, none)
    else (
      record t { mist_today = suc t.mist_today; mist_last = some s.now; armed = false },
      some mist_cmd,
    )

-- What a step does before it judges.
unfoldable pub observe : AutoEnvTracker → AutoInput → AutoEnvTracker
observe t inp =
    let now = inp.mono in
    let t₁ = roll_day inp.wall now (record t { ref = some (now, inp.wall) }) in
    update_timers inp now (num inp.temp) (num inp.humid)
      (note_fan inp (note_gap now (accumulate now t₁)))

unfoldable pub seen : AutoEnvTracker → AutoInput → Seen
seen t inp = record {
  now = inp.mono;
  temp = num inp.temp;
  fan_off = is_off inp.fan;
  blind =
      is_gap t.last_mono inp.mono || not (is_some (num inp.temp)) || not (is_some (num inp.humid));
}

abbrev pub is_fan_on : Option AutoCmd → Bool
is_fan_on none = false
is_fan_on (some cmd) = elim cmd.action [ fan_on ↦ true | _ ↦ false ]

abbrev pub as_list : Option AutoCmd → List AutoCmd
as_list none = []
as_list (some cmd) = cmd ∷ []

-- A command of the fan is not repeated for a while, even if the caller reports nothing.
abbrev pub hold_retry : ℕ → Option AutoCmd → AutoEnvTracker → AutoEnvTracker
hold_retry now none t = t
hold_retry now (some cmd) t = record t { retry_after = some (now + retry_sec) }

unfoldable pub judge : AutoEnvTracker → AutoInput → Seen → AutoEnvTracker × List AutoCmd
judge t inp s =
    let (t₁, fan) = vent t inp s in
    let (t₂, water) = judge_mist (hold_retry s.now fan t₁) inp s (is_fan_on fan) in
    (t₂, as_list fan ++ as_list water)

unfoldable pub step : AutoEnvTracker → AutoInput → AutoEnvTracker × List AutoCmd
step t inp = judge (observe t inp) inp (seen t inp)
