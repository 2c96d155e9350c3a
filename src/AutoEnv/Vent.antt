-- ===== src/AutoEnv/Vent.antt =====
-- backend/auto_env.py, lines 410-510: the judgement on the fan.
use terra_server.Common.{
  ℕ, ◌+◌, Bool, true, false, not, ◌&&◌, ◌||◌, Option, none, some, ltb, leb, if◌then◌else◌, inl, inr,
  Bool-cases,
}
use terra_server.Common.Clock.{seconds, elapsed_since}
use terra_server.EnvRules.Thresholds.{Thresholds}
use terra_server.AutoEnv.State.{
  AutoEnvTracker, AutoInput, AutoCmd, Reason, Cause, humid_high, temp_high, Causes, Phase, idle,
  requested, owned, is_any, hold_sec, auto_vent_disabled, auto_vent_cap, auto_vent_cold,
  auto_vent_end, vent_on_cmd, vent_off_cmd, refire_min_sec, vent_min_off_sec, vent_daily_max_sec,
  manual_pause_sec, end_hold_sec, off_streak_min, expiry_slack_sec,
}
use terra_server.AutoEnv.Ownership.{release, reset_vent, pending_stop, stop_pending}

abbrev pub VentOutcome : Type 0
VentOutcome = AutoEnvTracker × Option AutoCmd

-- What `_vent` is told of the sample besides the input: the time, the temperature, whether the fan
-- is reported off, and whether the sample is blind.
pub record Seen : Type 0 where
  pub now : ℕ
  pub temp : Option ℕ
  pub fan_off : Bool
  pub blind : Bool

-- `at is not None and now < at`
abbrev pub before : Option ℕ → ℕ → Bool
before none now = false
before (some at) now = ltb now at

-- `at is not None and now - at < sec`
abbrev pub within_sec : Option ℕ → ℕ → ℕ → Bool
within_sec none now sec = false
within_sec (some at) now sec = ltb now (at + sec)

unfoldable pub runtime : AutoEnvTracker → ℕ
runtime t = t.runtime_done + t.run_acc

abbrev pub capped : AutoEnvTracker → Bool
capped t = leb vent_daily_max_sec (t.runtime_done + t.run_acc)

-- The causes that have lasted their time.
abbrev pub ready : AutoEnvTracker → ℕ → Causes
ready t now c = elapsed_since (t.over c) now (hold_sec c)

abbrev pub warm : Option ℕ → Thresholds → Bool
warm none th = false
warm (some temp) th = ltb th.temp_min temp

-- The standing causes whose start condition has lasted its time again.
abbrev pub refire_causes : AutoEnvTracker → Seen → Thresholds → Causes
refire_causes t s th humid_high = t.causes humid_high && ready t s.now humid_high && warm s.temp th
refire_causes t s th temp_high = t.causes temp_high && ready t s.now temp_high

abbrev pub start_vent : AutoEnvTracker → Causes → VentOutcome
start_vent t causes = (record t { intent = causes }, some (vent_on_cmd causes))

abbrev pub join_causes : AutoEnvTracker → ℕ → AutoEnvTracker
join_causes t now = record t { causes = λ c. t.causes c || ready t now c }

-- The fan is off for two samples while it is owned (R6).
unfoldable pub off_observed : AutoEnvTracker → AutoInput → Seen → Bool → Option ℕ → VentOutcome
off_observed t inp s retry_wait none = (t, none)
off_observed t inp s retry_wait (some last_on) =
    let causes = refire_causes t s inp.th in
    if ltb (s.now + expiry_slack_sec) (last_on + seconds 3600)
    then (record (release none t) { paused_until = some (s.now + manual_pause_sec) }, none)
    else if retry_wait
    then (t, none)
    else if s.blind || not (is_any causes) || not inp.has_fan || capped t
    then (release (some s.now) t, none)
    else start_vent t causes

abbrev pub settled : AutoEnvTracker → ℕ → Cause → Bool
settled t now c = not (t.causes c) || elapsed_since (t.under c) now end_hold_sec

-- The end of a ventilation, once the cold has taken the humidity off the causes.
abbrev pub end_if_settled : AutoEnvTracker → ℕ → VentOutcome
end_if_settled t now =
    if settled t now humid_high && settled t now temp_high
    then (t, some (vent_off_cmd auto_vent_end))
    else (t, none)

abbrev pub without_humid : AutoEnvTracker → AutoEnvTracker
without_humid t = record t { causes = elim [ humid_high ↦ false | temp_high ↦ t.causes temp_high ] }

unfoldable pub end_owned : AutoEnvTracker → AutoInput → Seen → Option ℕ → VentOutcome
end_owned t inp s none = (t, none)
end_owned t inp s (some temp) =
    let t' = without_humid t in
    if leb temp inp.th.temp_min
    then (if is_any t'.causes
        then end_if_settled t' s.now
        else (t', some (vent_off_cmd auto_vent_cold)))
    else end_if_settled t s.now

-- `_vent_owned` after the wait for a stop.
unfoldable pub vent_running : AutoEnvTracker → AutoInput → Seen → Bool → VentOutcome
vent_running given inp s retry_wait =
    let t = join_causes given s.now in
    if leb off_streak_min t.off_streak && not (within_sec t.last_cmd s.now refire_min_sec)
    then off_observed t inp s retry_wait t.last_on
    else if s.blind || retry_wait
    then (t, none)
    else if capped t
    then (t, some (vent_off_cmd auto_vent_cap))
    else end_owned t inp s s.temp

-- The wait for a stop answers with no command.
abbrev pub unless_waiting : AutoEnvTracker × Bool → (AutoEnvTracker → VentOutcome) → VentOutcome
unless_waiting (t, true) rest = (t, none)
unless_waiting (t, false) rest = rest t

unfoldable pub vent_owned : AutoEnvTracker → AutoInput → Seen → Bool → VentOutcome
vent_owned t inp s retry_wait =
    unless_waiting (stop_pending s.now t) (λ t'. vent_running t' inp s retry_wait)

-- The automatic start (R4).
unfoldable pub vent_idle : AutoEnvTracker → AutoInput → Seen → Bool → VentOutcome
vent_idle t inp s retry_wait =
    if s.blind || retry_wait || not inp.has_fan || not s.fan_off
    then (t, none)
    else if within_sec t.last_end s.now vent_min_off_sec
    then (t, none)
    else if within_sec t.last_cmd s.now refire_min_sec
    then (t, none)
    else if capped t
    then (t, none)
    else if is_any (ready t s.now)
    then start_vent t (ready t s.now)
    else (t, none)

-- The toggle is off (R10).
vent_disabled_owned : AutoEnvTracker → Seen → Bool → VentOutcome
vent_disabled_owned given s retry_wait =
    unless_waiting (stop_pending s.now given) (λ t.
      if s.blind || retry_wait then (t, none) else (t, some (vent_off_cmd auto_vent_disabled)))

unfoldable pub vent_disabled : Phase → AutoEnvTracker → Seen → Bool → VentOutcome
unfolding vent_disabled_owned
vent_disabled owned t s retry_wait = vent_disabled_owned t s retry_wait
vent_disabled _ t s retry_wait = (reset_vent t, none)

vent_requested : AutoEnvTracker → AutoInput → Seen → Bool → VentOutcome
vent_requested t inp s retry_wait =
    if within_sec t.last_cmd s.now refire_min_sec
    then (t, none)
    else vent_idle (release none (record t { pending_on = none })) inp s retry_wait

unfoldable pub vent_enabled : Phase → AutoEnvTracker → AutoInput → Seen → Bool → VentOutcome
unfolding vent_requested
vent_enabled idle t inp s retry_wait = vent_idle t inp s retry_wait
vent_enabled requested t inp s retry_wait = vent_requested t inp s retry_wait
vent_enabled owned t inp s retry_wait = vent_owned t inp s retry_wait

unfoldable pub yield_to_schedule : Phase → AutoEnvTracker → VentOutcome
unfolding release
yield_to_schedule idle t = (t, none)
yield_to_schedule _ t = (release none t, none)

unfoldable pub vent : AutoEnvTracker → AutoInput → Seen → VentOutcome
vent t inp s =
    let retry_wait = before t.retry_after s.now in
    if inp.schedule_hold
    then yield_to_schedule t.phase t
    else if inp.vent_on
    then vent_enabled t.phase t inp s retry_wait
    else vent_disabled t.phase t s retry_wait

-- The wait for a stop either answers, or drops the stop and lets the rest decide.
pub unless_waiting_rule {ℓ} :
    (P : VentOutcome → Type ℓ) (now : ℕ) (t : AutoEnvTracker) (rest : AutoEnvTracker → VentOutcome)
    → ((t' : AutoEnvTracker) → P (t', none))
    → P (rest t)
    → P (rest (record t { stopping = none }))
    → P (unless_waiting (stop_pending now t) rest)
unfolding stop_pending
unless_waiting_rule P now t rest quiet same dropped = go t.stopping
  where
    go : (o : Option (ℕ × Reason)) → P (unless_waiting (pending_stop o now t) rest)
    go none = same
    go (some (since, reason)) = elim (Bool-cases (leb off_streak_min t.off_streak)) [
      | inl seen_off ↦ rw seen_off (quiet _)
      | inr running ↦ rw running (elim (Bool-cases (ltb now (since + refire_min_sec))) [
        | inl early ↦ rw early (quiet _)
        | inr late ↦ rw late dropped
      ])
    ]
