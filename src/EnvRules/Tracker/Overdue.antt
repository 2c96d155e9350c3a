-- ===== src/EnvRules/Tracker/Overdue.antt =====
-- When a reminder is sent (D15, D16).
use terra_server.Common.{ℕ, ◌<◌, ◌≡◌, subst, true, false, Option, none, some, [], arith}
use terra_server.Common.Clock.{elapsed_since}
use terra_server.EnvRules.Thresholds.{Thresholds}
use terra_server.EnvRules.Event.{ActiveEvent, side_of}
use terra_server.EnvRules.Tracker.{
  ElementTracker, Conds, reading, beyond, conds, holds, reminder_sec, reset_timers, update_runs,
  update_peak,
}
use terra_server.EnvRules.Tracker.Transition.{
  close, opening, from_idle, from_caution, from_danger, transition,
}
use terra_server.EnvRules.Tracker.Judge.{observe, follow_up, judge, step, unless_acted_rule}
use terra_server.EnvRules.Tracker.Reminders.{reminders}

-- What a reminder wants of the active event: it was pushed an hour ago or more, no reminder was
-- sent, and the value is still beyond its limit.
abbrev pub Overdue : Option ActiveEvent → ℕ → Conds → Type 0
Overdue none now cs = ⊥
Overdue (some a) now cs =
    (elapsed_since a.pushed_mono now reminder_sec ≡ true)
    × (a.reminded ≡ false)
    × (holds (cs (beyond a.level (side_of a.kind))) ≡ true)

module _ (t : ElementTracker) (now v : ℕ) (th : Thresholds) (cs : Conds) where
  transition-reminders : reminders (transition t now v th cs).1 ≡ 0
  unfolding transition from_idle from_caution from_danger opening close
  transition-reminders = ground arith

  transition_quiet :
      (transition t now v th cs).1 ≡ [] → (transition t now v th cs).0.active ≡ t.active
  unfolding transition from_idle from_caution from_danger
  transition_quiet e = ground arith

  follow_up-Overdue : 0 < reminders (follow_up t now v th cs).1 → Overdue t.active now cs
  unfolding follow_up
  follow_up-Overdue h = ground arith

module _ (t : ElementTracker) (now v : ℕ) (th : Thresholds) where
  judge-Overdue : (cs : Conds) → 0 < reminders (judge t now v th cs).1 → Overdue t.active now cs
  unfolding judge
  judge-Overdue cs =
      let o = transition t now v th cs in
      unless_acted_rule (λ o. 0 < reminders o.1 → Overdue t.active now cs) o
        (λ u. follow_up u now v th cs)
        (λ e h.
          subst (λ a. Overdue a now cs) (transition_quiet t now v th cs e)
            (follow_up-Overdue o.0 now v th cs h))
        (λ h. absurd (omega (arith, transition-reminders t now v th cs)))

module _ (t : ElementTracker) (now v : ℕ) (th : Thresholds) where
  observe-Overdue :
      (cs : Conds) → Overdue (observe t now v th).active now cs → Overdue t.active now cs
  unfolding observe reset_timers update_runs update_peak
  observe-Overdue cs h = ground arith

  -- A sample makes a step send a reminder only when the event that was active before it had been
  -- pushed an hour ago or more, had no reminder yet, and this sample is still beyond its limit.
  pub step-Overdue :
      0 < reminders (step t now (reading v) th).1 → Overdue t.active now (conds t.element v th)
  unfolding step
  step-Overdue h =
      let cs = conds t.element v th in
      observe-Overdue cs (judge-Overdue (observe t now v th) now v th cs h)
