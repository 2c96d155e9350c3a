-- ===== src/AutoEnv/Commands.antt =====
-- What a sample and the state before it must be like for each command of a step.
use terra_server.Common.{
  ℕ, ◌<◌, ◌≡◌, refl, ◌∙◌, Bool, true, false, leb, ltb, Option, none, some, ◌++◌, All, arith,
}
use terra_server.Common.Clock.{elapsed_since}
use terra_server.EnvRules.Thresholds.{num}
use terra_server.AutoEnv.State.{
  AutoEnvTracker, AutoInput, AutoCmd, fan_on, fan_off, mist, Cause, humid_high, temp_high, Causes,
  owned, is_any, is_off, vent_on_cmd, refire_min_sec, hold_sec_default, vent_daily_max_sec,
  mist_min_interval_sec, mist_daily_max, off_streak_min,
}
use terra_server.AutoEnv.Ownership.{reset_timers, release, reset_vent}
use terra_server.AutoEnv.Vent.{VentOutcome, Seen, before, within_sec, ready, runtime, vent}
use terra_server.AutoEnv.Step.{
  roll_day, accumulate, note_gap, note_fan, update_timers, over_cond, judge_mist, observe, seen,
  judge, step, hold_retry, as_list, is_fan_on,
}
use terra_server.AutoEnv.Safety.{IsAllowed, Permitted, vent-Allowed}
use terra_server.AutoEnv.Closure.{Closed, vent-Kept}

module _ (t : AutoEnvTracker) (inp : AutoInput) where
  -- Observing a sample leaves alone what the caller and the commands have set.
  pub observe-frame :
      let u = observe t inp in
      (u.paused_until ≡ t.paused_until)
      × (u.last_cmd ≡ t.last_cmd)
      × (u.retry_after ≡ t.retry_after)
      × (u.phase ≡ t.phase)
      × (u.mist_last ≡ t.mist_last)
  unfolding observe roll_day accumulate note_gap note_fan update_timers reset_timers
  observe-frame = (ground arith, ground arith, ground arith, ground arith, ground arith)

  observe-ready :
      (c : Cause)
      → ready (observe t inp) inp.mono c ≡ true
      → (before t.paused_until inp.mono ≡ false)
        × (over_cond inp.th (num inp.temp) (num inp.humid) c ≡ true)
  unfolding observe roll_day accumulate note_gap note_fan update_timers reset_timers
  observe-ready c h = ground arith

  observe-off : leb off_streak_min (observe t inp).off_streak ≡ true → is_off inp.fan ≡ true
  unfolding observe roll_day accumulate note_gap note_fan update_timers reset_timers
  observe-off h = ground arith

abbrev below : Option ℕ → ℕ → Bool
below none line = false
below (some x) line = ltb x line

-- A start of the fan: the toggle is on, no schedule holds the fan and the user has not paused the
-- automatic; the fan is reported off and can be switched; both measurements are there; the day's
-- allowance is not used up; the last automatic command was 5 minutes ago or more; and each cause
-- that the command names holds on this very sample, humidity only above the lower temperature.
abbrev pub StartSafe : AutoEnvTracker → AutoInput → Causes → AutoCmd → Type 0
StartSafe t inp causes cmd =
    let meets = over_cond inp.th (num inp.temp) (num inp.humid) in
    (cmd ≡ vent_on_cmd causes)
    × (is_any causes ≡ true)
    × (causes humid_high ≡ true → meets humid_high ≡ true)
    × (causes temp_high ≡ true → meets temp_high ≡ true)
    × (inp.vent_on ≡ true)
    × (inp.schedule_hold ≡ false)
    × (before t.paused_until inp.mono ≡ false)
    × (is_off inp.fan ≡ true)
    × (inp.has_fan ≡ true)
    × (runtime (observe t inp) < vent_daily_max_sec)
    × (within_sec t.last_cmd inp.mono refire_min_sec ≡ false)

abbrev pub StopSafe : AutoEnvTracker → AutoInput → Type 0
StopSafe t inp = (t.phase ≡ owned) × (inp.schedule_hold ≡ false)

-- A mist: the toggle is on, the fan is reported off, the humidity of this sample is below its
-- minimum, fewer than four mists were tried today, and the last one of any source was 2 hours ago.
abbrev pub MistSafe : AutoEnvTracker → AutoInput → Type 0
MistSafe t inp =
    (inp.mist_on ≡ true)
    × (inp.has_relay ≡ true)
    × (is_off inp.fan ≡ true)
    × (below (num inp.humid) inp.th.humid_min ≡ true)
    × ((observe t inp).mist_today < mist_daily_max)
    × (within_sec t.mist_last inp.mono mist_min_interval_sec ≡ false)

abbrev pub CommandSafe : AutoEnvTracker → AutoInput → Causes → AutoCmd → Type 0
CommandSafe t inp causes cmd = elim cmd.action [
  | fan_on ↦ StartSafe t inp causes cmd
  | fan_off ↦ StopSafe t inp
  | mist ↦ MistSafe t inp
]

abbrev OptionSafe : AutoEnvTracker → AutoInput → Causes → Option AutoCmd → Type 0
OptionSafe t inp causes none = Unit
OptionSafe t inp causes (some cmd) = CommandSafe t inp causes cmd

module _ (t : AutoEnvTracker) (inp : AutoInput) where
  observe-low_since :
      elapsed_since (observe t inp).low_since inp.mono hold_sec_default ≡ true
      → below (num inp.humid) inp.th.humid_min ≡ true
  unfolding observe update_timers
  observe-low_since h = ground arith

  mist-Safe :
      (u : AutoEnvTracker) (fan_on_now : Bool) (causes : Causes)
      → u.low_since ≡ (observe t inp).low_since
      → u.mist_last ≡ t.mist_last
      → u.mist_today ≡ (observe t inp).mist_today
      → OptionSafe t inp causes (judge_mist u inp (seen t inp) fan_on_now).1
  unfolding judge_mist seen
  mist-Safe u fan_on_now causes a b c = ground (arith, observe-low_since)

  fan-Safe :
      (o : VentOutcome)
      → IsAllowed (observe t inp) inp (seen t inp) o
      → Permitted inp o.1
      → OptionSafe t inp o.0.intent o.1
  unfolding seen runtime
  fan-Safe (u, none) a p = tt
  fan-Safe (u, some cmd) a p = ground (
    arith,
    observe-frame t inp,
    observe-ready t inp humid_high,
    observe-ready t inp temp_high,
    observe-off t inp,
  )

  All-append_lists :
      (causes : Causes) (fan water : Option AutoCmd)
      → OptionSafe t inp causes fan
      → OptionSafe t inp causes water
      → All (CommandSafe t inp causes) (as_list fan ++ as_list water)
  All-append_lists causes none none p q = tt
  All-append_lists causes none (some w) p q = (q, tt)
  All-append_lists causes (some f) none p q = (p, tt)
  All-append_lists causes (some f) (some w) p q = (p, (q, tt))

-- The judgement on the fan leaves the state of the mist alone.
abbrev SameMist : AutoEnvTracker → AutoEnvTracker → Type 0
SameMist u t =
    (t.low_since ≡ u.low_since) × (t.mist_last ≡ u.mist_last) × (t.mist_today ≡ u.mist_today)

SameMist-Closed : (u : AutoEnvTracker) → Closed (SameMist u)
unfolding release reset_vent
SameMist-Closed u = record {
  released = λ ended t q. q;
  cleared = λ t q. q;
  unstopped = λ t q. q;
  caused = λ t c q. q;
  intended = λ t c q. q;
  paused = λ t at q. q;
  unpended = λ t q. q;
}

hold_retry-SameMist :
    (u t : AutoEnvTracker) (now : ℕ) (fan : Option AutoCmd)
    → SameMist u t
    → SameMist u (hold_retry now fan t)
hold_retry-SameMist u t now none q = q
hold_retry-SameMist u t now (some cmd) q = q

judge-intent :
    (t : AutoEnvTracker) (inp : AutoInput) (s : Seen)
    → (judge t inp s).0.intent ≡ (vent t inp s).0.intent
unfolding judge judge_mist
judge-intent t inp s = ground arith

-- Every command of a step meets the conditions of its kind, whatever the state and the sample.
pub step-Safe :
    (t : AutoEnvTracker) (inp : AutoInput)
    → let (t', cmds) = step t inp in All (CommandSafe t inp t'.intent) cmds
unfolding step judge
step-Safe t inp =
    let u = observe t inp in
    let s = seen t inp in
    let o = vent u inp s in
    let a = vent-Allowed u inp s in
    let f = observe-frame t inp in
    let m =
      hold_retry-SameMist u o.0 s.now o.1
        (vent-Kept (SameMist u) (SameMist-Closed u) inp s u (refl, refl, refl)) in
    rw (judge-intent u inp s) (
      All-append_lists t inp o.0.intent o.1
        (judge_mist (hold_retry s.now o.1 o.0) inp s (is_fan_on o.1)).1 (fan-Safe t inp o a.0 a.1)
        (mist-Safe t inp (hold_retry s.now o.1 o.0) (is_fan_on o.1) o.0.intent m.0 (m.1 ∙ f.4) m.2))
