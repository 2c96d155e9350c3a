-- ===== src/HumidCycle/Ends.antt =====
-- The operations of every sequence of samples, gaps and clock corrections included.
use terra_server.Common.{
  ℕ, ◌+◌, ◌≡◌, arith, true, Option, none, some, List, [], ◌∷◌, ◌++◌, if_rule, or_else,
}
use terra_server.HumidCycle.{CycleState, HumidCycleTracker, CycleOp}
use terra_server.HumidCycle.Detect.{detect}
use terra_server.HumidCycle.Step.{
  add_offline, offline_ops, after_gap, gap_of, is_set_back, is_repeated, clear, resume, sample,
  step,
}
use terra_server.HumidCycle.Windows.{smooth}
use terra_server.HumidCycle.Sound.{is_sound}
use terra_server.HumidCycle.Balance.{
  Account, openings, delays, gaps, begins, ends, is_live, live, count, sound_of, Keeps, Keeps-then,
  none-Keeps, detect-Keeps, judge_cycle-Keeps,
}

abbrev Stepped : Type 0
Stepped = HumidCycleTracker × List CycleOp

abbrev StepKeeps : Account → HumidCycleTracker → Stepped → Type 0
StepKeeps a t r = Keeps a t.cycle (r.0.cycle, r.1)

add_offline-Keeps :
    (a : Account) (now humid gap : ℕ) (c : Option CycleState)
    → sound_of c ≡ true
    → Keeps a c (add_offline gap c, offline_ops now humid c)
unfolding is_sound count begins ends is_live
add_offline-Keeps a now humid gap none h = (h, omega arith)
add_offline-Keeps openings now humid gap (some c) h = (h, omega arith)
add_offline-Keeps delays now humid gap (some c) h = (h, omega arith)
add_offline-Keeps gaps now humid gap (some c) h = (h, omega arith)

after_gap-Keeps :
    (a : Account) (now humid : ℕ) (gap : Option ℕ) (t : HumidCycleTracker)
    → sound_of t.cycle ≡ true
    → StepKeeps a t (after_gap now humid gap t)
unfolding clear
after_gap-Keeps a now humid none t h = none-Keeps a t.cycle h
after_gap-Keeps a now humid (some gap) t h = add_offline-Keeps a now humid gap t.cycle h

resume-Keeps :
    (a : Account) (now humid : ℕ) (t : HumidCycleTracker)
    → sound_of t.cycle ≡ true
    → StepKeeps a t (resume now humid t)
unfolding resume clear
resume-Keeps a now humid t h =
    if_rule (StepKeeps a t) (is_set_back t.last_at now) (λ e. none-Keeps a t.cycle h)
      (λ e. after_gap-Keeps a now humid (gap_of t.last_at now) t h)

sample-Keeps :
    (a : Account) (now humid : ℕ) (t : HumidCycleTracker)
    → sound_of t.cycle ≡ true
    → StepKeeps a t (sample now humid t)
unfolding sample
sample-Keeps a now humid t h =
    let w = smooth now humid t.raw t.mins in
    let start = some (or_else t.hist_start now) in
    judge_cycle-Keeps a now w.value t.cycle (detect now w.value w.raw w.mins start t.cycle)
      (detect-Keeps a now w.value w.raw w.mins start t.cycle h)

step-Keeps :
    (a : Account) (now : ℕ) (humid : Option ℕ) (t : HumidCycleTracker)
    → sound_of t.cycle ≡ true
    → StepKeeps a t (step now humid t)
unfolding step
step-Keeps a now none t h = none-Keeps a t.cycle h
step-Keeps a now (some humid) t h =
    let r = resume now humid t in
    let s = sample now humid r.0 in
    let first = resume-Keeps a now humid t h in
    if_rule (StepKeeps a t) (is_repeated t.last_at now) (λ e. none-Keeps a t.cycle h)
      (λ e.
        Keeps-then a t.cycle r.0.cycle s.0.cycle r.1 s.1 first
          (sample-Keeps a now humid r.0 first.0))

-- The tracker and all operations after the samples, in order; a sample may have no humidity.
unfoldable pub steps : List (ℕ × Option ℕ) → HumidCycleTracker → Stepped
unfolding step
steps [] t = (t, [])
steps ((now, humid) ∷ xs) t =
    let (t', ops) = step now humid t in let (t'', more) = steps xs t' in (t'', ops ++ more)

-- For every sequence of samples, in any order of times, from a tracker whose cycle is sound: the
-- cycle stays sound (only a fired alert is closed, the gap alert fires on a dry cycle alone, a dry
-- cycle has its target and time), and for cycles (opened; dried or missed), for alerts of late
-- ventilation (fired; closed) and for alerts of a gap of mist (fired; closed) alike, what was live
-- before and what was begun is exactly what was ended and what is live after.
pub steps_lem :
    (a : Account) (xs : List (ℕ × Option ℕ)) (t : HumidCycleTracker)
    → sound_of t.cycle ≡ true
    → (sound_of (steps xs t).0.cycle ≡ true)
      × (live a t.cycle + count (begins a) (steps xs t).1
          ≡ count (ends a) (steps xs t).1 + live a (steps xs t).0.cycle)
unfolding steps
steps_lem a [] t h = none-Keeps a t.cycle h
steps_lem a ((now, humid) ∷ xs) t h =
    let r = step now humid t in
    let s = steps xs r.0 in
    let first = step-Keeps a now humid t h in
    Keeps-then a t.cycle r.0.cycle s.0.cycle r.1 s.1 first (steps_lem a xs r.0 first.0)
