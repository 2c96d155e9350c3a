-- ===== src/EnvRules/Tracker/Judge.antt =====
-- backend/env_rules.py, lines 452-494: `step`, the judgement of one sample.
use terra_server.Common.{
  ℕ, ◌+◌, ◌≡◌, refl, Bool, true, false, not, ◌&&◌, Option, none, some, [], ◌∷◌, ◌++◌, ltb,
  if◌then◌else◌,
}
use terra_server.Common.Clock.{elapsed_since}
use terra_server.EnvRules.Thresholds.{Thresholds}
use terra_server.EnvRules.Event.{Op, ActiveEvent, Action, remind, flush_peak, side_of}
use terra_server.EnvRules.Tracker.{
  ElementTracker, Sample, missing, not_finite, reading, Conds, beyond, holds, conds, threshold,
  reset_timers, update_runs, update_peak, gap_sec, reminder_sec, peak_flush_sec,
}
use terra_server.EnvRules.Tracker.Transition.{Outcome, transition}

-- `last is not None and now - last > GAP_SEC`
abbrev pub is_gap : Option ℕ → ℕ → Bool
is_gap none now = false
is_gap (some last) now = ltb (last + gap_sec) now

-- What stands before the transition: the gap rule, then the runs and the peak.
unfoldable pub observe : ElementTracker → ℕ → ℕ → Thresholds → ElementTracker
observe t now v th =
    let t₁ = if is_gap t.last_mono now then reset_timers t else t in
    let t₂ = record t₁ { last_mono = some now } in
    update_peak (update_runs t₂ now v (conds t.element v th)) now v

abbrev notice : Op → Bool → ElementTracker → ActiveEvent → ℕ → ℕ → Thresholds → Action
notice op push t a now v th = record {
  op = op;
  kind = a.kind;
  level = a.level;
  push = push;
  value = some v;
  threshold = some (threshold t.element (side_of a.kind) th);
  at_mono = now;
  peak = some a.peak;
  closes_alert_id = none;
}

-- D15
abbrev pub reminder_due : ActiveEvent → ℕ → Conds → Bool
reminder_due a now cs =
    elapsed_since a.pushed_mono now reminder_sec
    && not a.reminded
    && holds (cs (beyond a.level (side_of a.kind)))

unfoldable pub remind_once : ElementTracker → ActiveEvent → ℕ → ℕ → Thresholds → Conds → Outcome
remind_once t a now v th cs =
    if reminder_due a now cs
    then (
      record t { active = some (record a { reminded = true }) },
      notice remind true t a now v th ∷ [],
    )
    else (t, [])

unfoldable pub flush_once : ElementTracker → ActiveEvent → ℕ → ℕ → Thresholds → Outcome
flush_once t a now v th =
    if elapsed_since t.peak_dirty_since now peak_flush_sec
    then (record t { peak_dirty_since = none }, notice flush_peak false t a now v th ∷ [])
    else (t, [])

unfoldable pub follow_up : ElementTracker → ℕ → ℕ → Thresholds → Conds → Outcome
unfolding remind_once flush_once
follow_up t now v th cs = elim t.active [
  | none ↦ (t, [])
  | some a ↦
      let (t₁, reminders) = remind_once t a now v th cs in
      let (t₂, flushes) = flush_once t₁ a now v th in (t₂, reminders ++ flushes)
]

abbrev pub unless_acted : Outcome → (ElementTracker → Outcome) → Outcome
unless_acted (t, []) rest = rest t
unless_acted (t, act ∷ acts) rest = (t, act ∷ acts)

unfoldable pub judge : ElementTracker → ℕ → ℕ → Thresholds → Conds → Outcome
judge t now v th cs = unless_acted (transition t now v th cs) (λ t'. follow_up t' now v th cs)

unfoldable pub step : ElementTracker → ℕ → Sample → Thresholds → Outcome
step t now missing th = (reset_timers t, [])
step t now not_finite th = (reset_timers t, [])
step t now (reading v) th = judge (observe t now v th) now v th (conds t.element v th)

-- What holds of the transition when it acts, and of the rest when it does not, holds of the whole.
pub unless_acted_rule {ℓ} :
    (P : Outcome → Type ℓ) (o : Outcome) (rest : ElementTracker → Outcome)
    → (o.1 ≡ [] → P (rest o.0))
    → P o
    → P (unless_acted o rest)
unless_acted_rule P (t, []) rest quiet acted = quiet refl
unless_acted_rule P (t, act ∷ acts) rest quiet acted = acted
