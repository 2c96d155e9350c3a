-- ===== src/EnvRules/Tracker/History.antt =====
-- The timers against the history of samples: a run begins where the unbroken stretch of samples on
-- which its condition holds begins. Histories have the newest sample first.
use terra_server.Common.{
  ℕ, ◌≡◌, refl, ◌∙◌, ap, Bool, false, Option, none, some, List, [], ◌∷◌, or_else, if◌then◌else◌,
  arith,
}
use terra_server.EnvRules.Thresholds.{Thresholds}
use terra_server.EnvRules.Event.{Element}
use terra_server.EnvRules.Tracker.{
  ElementTracker, Cond, Runs, Sample, missing, not_finite, reading, conds, holds, reset_timers,
  update_runs, update_peak,
}
use terra_server.EnvRules.Tracker.Judge.{is_gap, observe, step}
use terra_server.EnvRules.Tracker.Warrant.{start_of, judge-Keeps}

abbrev pub History : Type 0
History = List (ℕ × Sample)

-- Whether a sample meets a condition.
abbrev pub meets : Element → Thresholds → Cond → Sample → Bool
meets e th c missing = false
meets e th c not_finite = false
meets e th c (reading v) = holds (conds e v th c)

-- The time of the last sample, unless it had no value.
abbrev pub last_time : History → Option ℕ
last_time [] = none
last_time ((now, missing) ∷ h) = none
last_time ((now, not_finite) ∷ h) = none
last_time ((now, reading v) ∷ h) = some now

-- When the condition began to hold without a break: on every sample since, none of them without a
-- value and none more than a minute after the one before.
abbrev pub since : Element → Thresholds → Cond → History → Option ℕ
since e th c [] = none
since e th c ((now, s) ∷ h) =
    let before = since e th c h in
    if meets e th c s
    then some (if is_gap (last_time h) now then now else or_else before now)
    else none

unfoldable pub feed : ElementTracker → Thresholds → History → ElementTracker
feed t th [] = t
feed t th ((now, s) ∷ h) = (step (feed t th h) now s th).0

-- The state of the timers, as far as it is told by the history.
abbrev pub Timed : Element → Thresholds → History → ElementTracker → Type 0
Timed e th h t =
    (t.element ≡ e)
    × (t.last_mono ≡ last_time h)
    × ((c : Cond) → start_of (t.runs c) ≡ since e th c h)

-- A condition that the element does not have never holds.
meets-absent :
    (e : Element) (th : Thresholds) (c : Cond) (v : ℕ) (s : Sample)
    → conds e v th c ≡ none
    → meets e th c s ≡ false
unfolding conds
meets-absent e th c v missing h = refl
meets-absent e th c v not_finite h = refl
meets-absent e th c v (reading w) h = ground arith

since-absent :
    (e : Element) (th : Thresholds) (c : Cond) (v : ℕ) (h : History)
    → conds e v th c ≡ none
    → since e th c h ≡ none
since-absent e th c v [] a = refl
since-absent e th c v ((now, s) ∷ h) a = rw (meets-absent e th c v s a)

observe-start_of :
    (t : ElementTracker) (now v : ℕ) (th : Thresholds) (c : Cond) (e : Element)
    (last before : Option ℕ)
    → t.element ≡ e
    → t.last_mono ≡ last
    → start_of (t.runs c) ≡ before
    → (conds e v th c ≡ none → before ≡ none)
    → start_of ((observe t now v th).runs c) ≡ (
        if holds (conds e v th c)
        then some (if is_gap last now then now else or_else before now)
        else none)
unfolding observe reset_timers update_runs update_peak
observe-start_of t now v th c e last before k l h absent = ground arith

observe-frame :
    (t : ElementTracker) (now v : ℕ) (th : Thresholds)
    → ((observe t now v th).element ≡ t.element) × ((observe t now v th).last_mono ≡ some now)
unfolding observe reset_timers update_runs update_peak
observe-frame t now v th = ground arith

pub observe-Timed :
    (e : Element) (th : Thresholds) (h : History) (t : ElementTracker) (now v : ℕ)
    → Timed e th h t
    → Timed e th ((now, reading v) ∷ h) (observe t now v th)
observe-Timed e th h t now v k =
    let f = observe-frame t now v th in
    (
      f.0 ∙ k.0,
      f.1,
      λ c.
          observe-start_of t now v th c e (last_time h) (since e th c h) k.0 k.1 (k.2 c)
            (since-absent e th c v h),
    )

step-Timed :
    (e : Element) (th : Thresholds) (h : History) (t : ElementTracker) (now : ℕ) (s : Sample)
    → Timed e th h t
    → Timed e th ((now, s) ∷ h) (step t now s th).0
unfolding step reset_timers
step-Timed e th h t now missing k = (k.0, refl, λ c. refl)
step-Timed e th h t now not_finite k = (k.0, refl, λ c. refl)
step-Timed e th h t now (reading v) k =
    let o = observe-Timed e th h t now v k in
    let j = judge-Keeps (observe t now v th) now v th (conds t.element v th) in
    (j.0 ∙ o.0, j.2 ∙ o.1, λ c. ap (λ (runs : Runs). start_of (runs c)) j.1 ∙ o.2 c)

-- Feeding a history to a tracker whose timers are reset leaves, for every condition of the element,
-- a run that starts where the unbroken stretch of the condition starts, and none if the condition
-- does not hold on the newest sample.
pub feed-Timed :
    (t : ElementTracker) (th : Thresholds) (h : History)
    → Timed t.element th h (feed (reset_timers t) th h)
unfolding feed reset_timers
feed-Timed t th [] = (refl, refl, λ c. refl)
feed-Timed t th ((now, s) ∷ h) =
    step-Timed t.element th h (feed (reset_timers t) th h) now s (feed-Timed t th h)
