-- ===== src/AutoEnv/Budget.antt =====
-- The day's allowance of mists over any sequence of calls.
use terra_server.Common.{
  ℕ, ◌+◌, ◌≤◌, ◌≡◌, refl, ◌∙◌, Bool, Option, none, some, List, [], ◌∷◌, ◌++◌, arith,
}
use terra_server.AutoEnv.State.{
  AutoEnvTracker, AutoInput, AutoCmd, AutoAction, fan_on, fan_off, mist, mist_daily_max, kst_day,
}
use terra_server.AutoEnv.Ownership.{
  release, reset_vent, reset_timers, finish_stop, issued, insert_failed, on_own_ack, on_other_ack,
  on_mist_ok,
}
use terra_server.AutoEnv.Vent.{Seen, VentOutcome, vent}
use terra_server.AutoEnv.Closure.{Closed, vent-Kept}
use terra_server.AutoEnv.Safety.{IsAllowed, vent-Allowed}
use terra_server.AutoEnv.Step.{
  roll_day, accumulate, note_gap, note_fan, update_timers, judge_mist, observe, seen, judge, step,
  hold_retry, is_fan_on, as_list,
}
use terra_server.AutoEnv.Reach.{
  Move, sample, report_issued, report_failed, own_ack, other_ack, mist_ok, new_thresholds, restart,
  Reach, here, next,
}
use terra_server.AutoEnv.Few.{
  HasFew, step-HasFew, issued-HasFew, insert_failed-HasFew, on_own_ack-HasFew, on_other_ack-HasFew,
  on_mist_ok-HasFew, reset_timers-HasFew,
}

abbrev one_if_mist : AutoAction → ℕ
one_if_mist mist = 1
one_if_mist _ = 0

abbrev pub mists_in : List AutoCmd → ℕ
mists_in [] = 0
mists_in (cmd ∷ cmds) = one_if_mist cmd.action + mists_in cmds

-- The same count of mists on the same day.
abbrev SameDay : AutoEnvTracker → AutoEnvTracker → Type 0
SameDay u t = (t.day ≡ u.day) × (t.mist_today ≡ u.mist_today)

SameDay-Closed : (u : AutoEnvTracker) → Closed (SameDay u)
unfolding release reset_vent
SameDay-Closed u = record {
  released = λ ended t q. q;
  cleared = λ t q. q;
  unstopped = λ t q. q;
  caused = λ t c q. q;
  intended = λ t c q. q;
  paused = λ t at q. q;
  unpended = λ t q. q;
}

observe-SameDay :
    (t : AutoEnvTracker) (inp : AutoInput) (d : ℕ)
    → t.day ≡ some d
    → kst_day inp.wall ≤ d
    → SameDay t (observe t inp)
unfolding observe roll_day accumulate note_gap note_fan update_timers reset_timers
observe-SameDay t inp d h k = (ground arith, ground arith)

fan-no_mist :
    (t : AutoEnvTracker) (inp : AutoInput) (s : Seen) (o : VentOutcome)
    → IsAllowed t inp s o
    → mists_in (as_list o.1) ≡ 0
fan-no_mist t inp s (u, none) a = refl
fan-no_mist t inp s (u, some cmd) a = ground arith

judge_mist-counted :
    (t u : AutoEnvTracker) (inp : AutoInput) (s : Seen) (now : ℕ) (fan : Option AutoCmd) (b : Bool)
    → SameDay u t
    → mists_in (as_list fan) ≡ 0
    → let (t', water) = judge_mist (hold_retry now fan t) inp s b in
      (t'.day ≡ u.day) × (u.mist_today + mists_in (as_list fan ++ as_list water) ≡ t'.mist_today)
unfolding judge_mist
judge_mist-counted t u inp s now none b q z = ground arith
judge_mist-counted t u inp s now (some cmd) b q z = ground arith

-- On one day a step counts the mists that it orders.
step-counted :
    (t : AutoEnvTracker) (inp : AutoInput) (d : ℕ)
    → t.day ≡ some d
    → kst_day inp.wall ≤ d
    → let (t', cmds) = step t inp in
      (t'.day ≡ some d) × (t.mist_today + mists_in cmds ≡ t'.mist_today)
unfolding step judge
step-counted t inp d h k =
    let u = observe t inp in
    let s = seen t inp in
    let o = vent u inp s in
    let q = vent-Kept (SameDay t) (SameDay-Closed t) inp s u (observe-SameDay t inp d h k) in
    let c =
      judge_mist-counted o.0 t inp s s.now o.1 (is_fan_on o.1) q
        (fan-no_mist u inp s o (vent-Allowed u inp s).0) in
    (c.0 ∙ h, c.1)

-- The mists ordered by one call, and over a sequence of calls.
abbrev pub mists_by : {t u : AutoEnvTracker} → Move t u → ℕ
mists_by {t} (sample inp) = mists_in (step t inp).1
mists_by _ = 0

abbrev pub mists_over : {t u : AutoEnvTracker} → Reach t u → ℕ
mists_over here = 0
mists_over (next r m) = mists_over r + mists_by m

-- No sample is of a later day than `d`, and the tracker is not restarted.
abbrev pub IsOn : {t u : AutoEnvTracker} → ℕ → Move t u → Type 0
IsOn d (sample inp) = kst_day inp.wall ≤ d
IsOn d (restart r) = ⊥
IsOn d _ = Unit

abbrev pub AllOn : {t u : AutoEnvTracker} → ℕ → Reach t u → Type 0
AllOn d here = Unit
AllOn d (next r m) = IsOn d m × AllOn d r

Move-counted :
    {t u : AutoEnvTracker} (d : ℕ) (m : Move t u)
    → IsOn d m
    → t.day ≡ some d
    → (u.day ≡ some d) × (t.mist_today + mists_by m ≡ u.mist_today)
unfolding issued insert_failed on_own_ack finish_stop on_other_ack on_mist_ok reset_timers
Move-counted {t} d (sample inp) k h = step-counted t inp d h k
Move-counted {t} d (report_issued cmd mono) k h = ground arith
Move-counted {t} d (report_failed cmd mono) k h = ground arith
Move-counted {t} d (own_ack fan_on ok mono) k h = ground arith
Move-counted {t} d (own_ack fan_off ok mono) k h = ground arith
Move-counted {t} d (own_ack mist ok mono) k h = ground arith
Move-counted {t} d (other_ack action manual mono) k h = ground arith
Move-counted {t} d (mist_ok mono) k h = ground arith
Move-counted {t} d new_thresholds k h = ground arith
Move-counted {t} d (restart r) k h = absurd k

Reach-counted :
    {t u : AutoEnvTracker} (d : ℕ) (r : Reach t u)
    → AllOn d r
    → t.day ≡ some d
    → (u.day ≡ some d) × (t.mist_today + mists_over r ≡ u.mist_today)
Reach-counted d here a h = (h, omega arith)
Reach-counted d (next r m) a h =
    let before = Reach-counted d r a.1 h in
    let one = Move-counted d m a.0 before.0 in (one.0, omega (arith, before.1, one.1))

Move-HasFew : {t u : AutoEnvTracker} (d : ℕ) (m : Move t u) → IsOn d m → HasFew t → HasFew u
Move-HasFew {t} d (sample inp) k c = step-HasFew t inp c
Move-HasFew {t} d (report_issued cmd mono) k c = issued-HasFew t c mono cmd
Move-HasFew {t} d (report_failed cmd mono) k c = insert_failed-HasFew t c mono cmd
Move-HasFew {t} d (own_ack action ok mono) k c = on_own_ack-HasFew t c mono action ok
Move-HasFew {t} d (other_ack action m mono) k c = on_other_ack-HasFew t c mono action m
Move-HasFew {t} d (mist_ok mono) k c = on_mist_ok-HasFew t c mono
Move-HasFew {t} d new_thresholds k c = reset_timers-HasFew t c
Move-HasFew {t} d (restart r) k c = absurd k

Reach-HasFew : {t u : AutoEnvTracker} (d : ℕ) (r : Reach t u) → AllOn d r → HasFew t → HasFew u
Reach-HasFew d here a c = c
Reach-HasFew d (next r m) a c = Move-HasFew d m a.0 (Reach-HasFew d r a.1 c)

-- From any state with at most four mists tried on its day, over any sequence of calls on that day,
-- without a restart, the mists ordered come to at most four, those tried before included.
pub mists_over-le :
    {t u : AutoEnvTracker} (d : ℕ) (r : Reach t u)
    → AllOn d r
    → t.day ≡ some d
    → t.mist_today ≤ mist_daily_max
    → t.mist_today + mists_over r ≤ mist_daily_max
mists_over-le d r a h c =
    let counted = Reach-counted d r a h in
    let end = Reach-HasFew d r a c in omega (arith, counted.1, end)
