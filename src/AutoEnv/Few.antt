-- ===== src/AutoEnv/Few.antt =====
-- No call makes a tracker try more mists than the day allows.
use terra_server.Common.{ℕ, ◌≤◌, Bool, Option, none, some, arith}
use terra_server.EnvRules.Thresholds.{num}
use terra_server.AutoEnv.State.{
  AutoEnvTracker, AutoInput, AutoCmd, AutoAction, fan_on, fan_off, mist, mist_daily_max,
}
use terra_server.AutoEnv.Ownership.{
  release, reset_vent, reset_timers, finish_stop, issued, insert_failed, on_own_ack, OtherAction,
  on_other_ack, on_mist_ok,
}
use terra_server.AutoEnv.Vent.{Seen, vent}
use terra_server.AutoEnv.Closure.{Closed, vent-Kept}
use terra_server.AutoEnv.Step.{
  roll_day, accumulate, note_gap, note_fan, update_timers, judge_mist, observe, seen, judge, step,
  hold_retry, is_fan_on,
}

abbrev pub HasFew : AutoEnvTracker → Type 0
HasFew t = t.mist_today ≤ mist_daily_max

HasFew-Closed : Closed HasFew
unfolding release reset_vent
HasFew-Closed = record {
  released = λ ended t q. ground arith;
  cleared = λ t q. ground arith;
  unstopped = λ t q. ground arith;
  caused = λ t c q. ground arith;
  intended = λ t c q. ground arith;
  paused = λ t at q. ground arith;
  unpended = λ t q. ground arith;
}

module _ (t : AutoEnvTracker) (inp : AutoInput) where
  roll_day-HasFew : (wall now : ℕ) → HasFew t → HasFew (roll_day wall now t)
  unfolding roll_day
  roll_day-HasFew wall now c = ground arith

  accumulate-HasFew : (now : ℕ) → HasFew t → HasFew (accumulate now t)
  unfolding accumulate
  accumulate-HasFew now c = ground arith

  note_gap-HasFew : (now : ℕ) → HasFew t → HasFew (note_gap now t)
  unfolding note_gap reset_timers
  note_gap-HasFew now c = ground arith

  update_timers-HasFew :
      (now : ℕ) (temp humid : Option ℕ)
      → HasFew t
      → HasFew (update_timers inp now temp humid (note_fan inp t))
  unfolding update_timers note_fan
  update_timers-HasFew now temp humid c = ground arith

  judge_mist-HasFew : (s : Seen) (b : Bool) → HasFew t → HasFew (judge_mist t inp s b).0
  unfolding judge_mist
  judge_mist-HasFew s b c = ground arith

hold_retry-HasFew :
    (now : ℕ) (fan : Option AutoCmd) (t : AutoEnvTracker) → HasFew t → HasFew (hold_retry now fan t)
hold_retry-HasFew now none t c = c
hold_retry-HasFew now (some cmd) t c = ground arith

pub step-HasFew : (t : AutoEnvTracker) (inp : AutoInput) → HasFew t → HasFew (step t inp).0
unfolding step judge observe
step-HasFew t inp c =
    let now = inp.mono in
    let t₀ = record t { ref = some (now, inp.wall) } in
    let c₀ : HasFew t₀ = ground arith in
    let t₁ = roll_day inp.wall now t₀ in
    let t₂ = accumulate now t₁ in
    let t₃ = note_gap now t₂ in
    let c₃ =
      note_gap-HasFew t₂ inp now
        (accumulate-HasFew t₁ inp now (roll_day-HasFew t₀ inp inp.wall now c₀)) in
    let u = observe t inp in
    let s = seen t inp in
    let o = vent u inp s in
    let c₄ =
      vent-Kept HasFew HasFew-Closed inp s u
        (update_timers-HasFew t₃ inp now (num inp.temp) (num inp.humid) c₃) in
    judge_mist-HasFew (hold_retry s.now o.1 o.0) inp s (is_fan_on o.1)
      (hold_retry-HasFew s.now o.1 o.0 c₄)

module _ (t : AutoEnvTracker) (c : HasFew t) (mono : ℕ) where
  pub issued-HasFew : (cmd : AutoCmd) → HasFew (issued cmd mono t)
  unfolding issued
  issued-HasFew cmd = ground arith

  pub insert_failed-HasFew : (cmd : AutoCmd) → HasFew (insert_failed cmd mono t)
  unfolding insert_failed
  insert_failed-HasFew cmd = ground arith

  pub on_own_ack-HasFew : (action : AutoAction) (ok : Bool) → HasFew (on_own_ack action ok mono t)
  unfolding on_own_ack finish_stop
  on_own_ack-HasFew fan_on ok = ground arith
  on_own_ack-HasFew fan_off ok = ground arith
  on_own_ack-HasFew mist ok = c

  pub on_other_ack-HasFew :
      (action : OtherAction) (manual : Bool) → HasFew (on_other_ack action manual mono t)
  unfolding on_other_ack
  on_other_ack-HasFew action manual = ground arith

  pub on_mist_ok-HasFew : HasFew (on_mist_ok mono t)
  unfolding on_mist_ok
  on_mist_ok-HasFew = ground arith

pub reset_timers-HasFew : (t : AutoEnvTracker) → HasFew t → HasFew (reset_timers t)
unfolding reset_timers
reset_timers-HasFew t c = ground arith
