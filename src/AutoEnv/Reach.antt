-- ===== src/AutoEnv/Reach.antt =====
-- The states that a tracker reaches, whatever its caller does and in whatever order, and what holds
-- in all of them.
use terra_server.Common.{ℕ, ◌≡◌, Bool, true, Option, none, some, is_some, arith}
use terra_server.EnvRules.Thresholds.{num}
use terra_server.AutoEnv.State.{
  AutoEnvTracker, AutoInput, AutoCmd, AutoAction, fan_on, fan_off, mist, idle, owned, new,
}
use terra_server.AutoEnv.Ownership.{
  release, reset_vent, reset_timers, finish_stop, issued, insert_failed, on_own_ack, OtherAction,
  on_other_ack, on_mist_ok, Restored, restore,
}
use terra_server.AutoEnv.Vent.{Seen, vent}
use terra_server.AutoEnv.Closure.{Closed, vent-Kept}
use terra_server.AutoEnv.Step.{
  roll_day, accumulate, note_gap, note_fan, update_timers, judge_mist, observe, seen, judge, step,
  hold_retry, is_fan_on,
}

-- An owned fan has the time it was switched on, the time its run began and the mark up to which its
-- time is counted; a tracker that neither owns nor asks for the fan has none of them.
pub record IsConsistent (t : AutoEnvTracker) : Type 0 where
  pub owned_on : t.phase ≡ owned → is_some t.last_on ≡ true
  pub owned_since : t.phase ≡ owned → is_some t.run_since ≡ true
  pub owned_mark : t.phase ≡ owned → is_some t.acc_mark ≡ true
  pub idle_on : t.phase ≡ idle → t.last_on ≡ none
  pub idle_since : t.phase ≡ idle → t.run_since ≡ none
  pub idle_mark : t.phase ≡ idle → t.acc_mark ≡ none
  pub idle_acc : t.phase ≡ idle → t.run_acc ≡ 0

IsConsistent-Closed : Closed IsConsistent
unfolding release reset_vent
IsConsistent-Closed = record {
  released = λ ended t q. ground arith;
  cleared = λ t q. ground arith;
  unstopped = λ t q. ground arith;
  caused = λ t c q. ground arith;
  intended = λ t c q. ground arith;
  paused = λ t at q. ground arith;
  unpended = λ t q. ground arith;
}

module _ (t : AutoEnvTracker) (inp : AutoInput) where
  roll_day-IsConsistent : (wall now : ℕ) → IsConsistent t → IsConsistent (roll_day wall now t)
  unfolding roll_day
  roll_day-IsConsistent wall now c = ground arith

  accumulate-IsConsistent : (now : ℕ) → IsConsistent t → IsConsistent (accumulate now t)
  unfolding accumulate
  accumulate-IsConsistent now c = ground arith

  note_gap-IsConsistent : (now : ℕ) → IsConsistent t → IsConsistent (note_gap now t)
  unfolding note_gap reset_timers
  note_gap-IsConsistent now c = ground arith

  update_timers-IsConsistent :
      (now : ℕ) (temp humid : Option ℕ)
      → IsConsistent t
      → IsConsistent (update_timers inp now temp humid (note_fan inp t))
  unfolding update_timers note_fan
  update_timers-IsConsistent now temp humid c = ground arith

  judge_mist-IsConsistent :
      (s : Seen) (b : Bool) → IsConsistent t → IsConsistent (judge_mist t inp s b).0
  unfolding judge_mist
  judge_mist-IsConsistent s b c = ground arith

hold_retry-IsConsistent :
    (now : ℕ) (fan : Option AutoCmd) (t : AutoEnvTracker)
    → IsConsistent t
    → IsConsistent (hold_retry now fan t)
hold_retry-IsConsistent now none t c = c
hold_retry-IsConsistent now (some cmd) t c = ground arith

step-IsConsistent :
    (t : AutoEnvTracker) (inp : AutoInput) → IsConsistent t → IsConsistent (step t inp).0
unfolding step judge observe
step-IsConsistent t inp c =
    let now = inp.mono in
    let t₀ = record t { ref = some (now, inp.wall) } in
    let c₀ : IsConsistent t₀ = ground arith in
    let t₁ = roll_day inp.wall now t₀ in
    let t₂ = accumulate now t₁ in
    let t₃ = note_gap now t₂ in
    let c₃ =
      note_gap-IsConsistent t₂ inp now
        (accumulate-IsConsistent t₁ inp now (roll_day-IsConsistent t₀ inp inp.wall now c₀)) in
    let u = observe t inp in
    let s = seen t inp in
    let o = vent u inp s in
    let c₄ =
      vent-Kept IsConsistent IsConsistent-Closed inp s u
        (update_timers-IsConsistent t₃ inp now (num inp.temp) (num inp.humid) c₃) in
    judge_mist-IsConsistent (hold_retry s.now o.1 o.0) inp s (is_fan_on o.1)
      (hold_retry-IsConsistent s.now o.1 o.0 c₄)

module _ (t : AutoEnvTracker) (c : IsConsistent t) (mono : ℕ) where
  issued-IsConsistent : (cmd : AutoCmd) → IsConsistent (issued cmd mono t)
  unfolding issued
  issued-IsConsistent cmd = ground arith

  insert_failed-IsConsistent : (cmd : AutoCmd) → IsConsistent (insert_failed cmd mono t)
  unfolding insert_failed
  insert_failed-IsConsistent cmd = ground arith

  on_own_ack-IsConsistent :
      (action : AutoAction) (ok : Bool) → IsConsistent (on_own_ack action ok mono t)
  unfolding on_own_ack finish_stop
  on_own_ack-IsConsistent fan_on ok = ground arith
  on_own_ack-IsConsistent fan_off ok = ground arith
  on_own_ack-IsConsistent mist ok = c

  on_other_ack-IsConsistent :
      (action : OtherAction) (manual : Bool) → IsConsistent (on_other_ack action manual mono t)
  unfolding on_other_ack
  on_other_ack-IsConsistent action manual = ground arith

  on_mist_ok-IsConsistent : IsConsistent (on_mist_ok mono t)
  unfolding on_mist_ok
  on_mist_ok-IsConsistent = ground arith

reset_timers-IsConsistent : (t : AutoEnvTracker) → IsConsistent t → IsConsistent (reset_timers t)
unfolding reset_timers
reset_timers-IsConsistent t c = ground arith

restore-IsConsistent : (r : Restored) (t : AutoEnvTracker) → IsConsistent (restore r t)
unfolding restore
restore-IsConsistent r t = ground arith

-- The calls that the store makes on a tracker, with any arguments.
pub data Move (t : AutoEnvTracker) : AutoEnvTracker → Type 0 where
  sample : (inp : AutoInput) → Move t (step t inp).0
  report_issued : (cmd : AutoCmd) (mono : ℕ) → Move t (issued cmd mono t)
  report_failed : (cmd : AutoCmd) (mono : ℕ) → Move t (insert_failed cmd mono t)
  own_ack : (action : AutoAction) (ok : Bool) (mono : ℕ) → Move t (on_own_ack action ok mono t)
  other_ack :
      (action : OtherAction) (manual : Bool) (mono : ℕ) → Move t (on_other_ack action manual mono t)
  mist_ok : (mono : ℕ) → Move t (on_mist_ok mono t)
  new_thresholds : Move t (reset_timers t)
  restart : (r : Restored) → Move t (restore r t)

pub data Reach (t : AutoEnvTracker) : AutoEnvTracker → Type 0 where
  here : Reach t t
  next : {u v : AutoEnvTracker} → Reach t u → Move u v → Reach t v

Move-IsConsistent : {t u : AutoEnvTracker} → Move t u → IsConsistent t → IsConsistent u
Move-IsConsistent {t} (sample inp) c = step-IsConsistent t inp c
Move-IsConsistent {t} (report_issued cmd mono) c = issued-IsConsistent t c mono cmd
Move-IsConsistent {t} (report_failed cmd mono) c = insert_failed-IsConsistent t c mono cmd
Move-IsConsistent {t} (own_ack action ok mono) c = on_own_ack-IsConsistent t c mono action ok
Move-IsConsistent {t} (other_ack action m mono) c = on_other_ack-IsConsistent t c mono action m
Move-IsConsistent {t} (mist_ok mono) c = on_mist_ok-IsConsistent t c mono
Move-IsConsistent {t} new_thresholds c = reset_timers-IsConsistent t c
Move-IsConsistent {t} (restart r) c = restore-IsConsistent r t

new-IsConsistent : IsConsistent new
unfolding new
new-IsConsistent = ground arith

Reach-from : {t u : AutoEnvTracker} → IsConsistent t → Reach t u → IsConsistent u
Reach-from c here = c
Reach-from c (next r m) = Move-IsConsistent m (Reach-from c r)

-- In every state reached from a new tracker by any calls in any order and with any arguments,
-- restarts included, an owned fan has the times that the judgement reads, and a tracker that neither
-- owns the fan nor asks for it has none.
pub Reach-IsConsistent : (t : AutoEnvTracker) → Reach new t → IsConsistent t
Reach-IsConsistent t r = Reach-from new-IsConsistent r
