-- ===== src/EnvRules/Tracker/WellFormed.antt =====
-- Every operation keeps the active event one of the tracker's element, in danger only for a
-- temperature.
use terra_server.Common.{ℕ, ◌≡◌, refl, subst, Option, none, some, [], ◌∷◌, arith}
use terra_server.EnvRules.Thresholds.{Thresholds}
use terra_server.EnvRules.Event.{temp, Level, caution, danger, ActiveEvent}
use terra_server.EnvRules.Tracker.{
  ElementTracker, Conds, Sample, missing, not_finite, reading, conds, reset_timers, update_runs,
  update_peak,
}
use terra_server.EnvRules.Tracker.Transition.{
  open_with, from_idle, from_caution, from_danger, from_active, dispatch, transition,
}
use terra_server.EnvRules.Tracker.Judge.{observe, follow_up, judge, step, unless_acted_rule}
use terra_server.EnvRules.Tracker.Warrant.{Fits, IsWellFormed}
use terra_server.EnvRules.Tracker.History.{History, feed}

module _ (t : ElementTracker) (now v : ℕ) (th : Thresholds) (cs : Conds) where
  from_idle-IsWellFormed : IsWellFormed t → IsWellFormed (from_idle t now v th cs).0
  unfolding from_idle open_with
  from_idle-IsWellFormed w = ground arith

  from_caution-IsWellFormed :
      (a : ActiveEvent) → IsWellFormed t → IsWellFormed (from_caution t a now v th cs).0
  unfolding from_caution open_with
  from_caution-IsWellFormed a w = ground arith

  from_danger-IsWellFormed :
      (a : ActiveEvent)
      → t.element ≡ temp
      → IsWellFormed t
      → IsWellFormed (from_danger t a now v th cs).0
  unfolding from_danger open_with
  from_danger-IsWellFormed a h w = ground arith

  from_active-IsWellFormed :
      (a : ActiveEvent) (l : Level)
      → (l ≡ danger → t.element ≡ temp)
      → IsWellFormed t
      → IsWellFormed (from_active l t a now v th cs).0
  from_active-IsWellFormed a caution h w = from_caution-IsWellFormed a w
  from_active-IsWellFormed a danger h w = from_danger-IsWellFormed a (h refl) w

  dispatch-IsWellFormed :
      (o : Option ActiveEvent)
      → t.active ≡ o
      → IsWellFormed t
      → IsWellFormed (dispatch o t now v th cs).0
  dispatch-IsWellFormed none e w = from_idle-IsWellFormed w
  dispatch-IsWellFormed (some a) e w =
      from_active-IsWellFormed a a.level (subst (Fits t.element) e w).1 w

  follow_up-IsWellFormed : IsWellFormed t → IsWellFormed (follow_up t now v th cs).0
  unfolding follow_up
  follow_up-IsWellFormed w = ground arith

module _ (t : ElementTracker) (now v : ℕ) (th : Thresholds) where
  judge-IsWellFormed : (cs : Conds) → IsWellFormed t → IsWellFormed (judge t now v th cs).0
  unfolding judge transition
  judge-IsWellFormed cs w =
      let o = transition t now v th cs in
      let w' = dispatch-IsWellFormed t now v th cs t.active refl w in
      unless_acted_rule (λ o. IsWellFormed o.0) o (λ u. follow_up u now v th cs)
        (λ _. follow_up-IsWellFormed o.0 now v th cs w') w'

  pub observe-IsWellFormed : IsWellFormed t → IsWellFormed (observe t now v th)
  unfolding observe reset_timers update_runs update_peak
  observe-IsWellFormed w = ground arith

pub step-IsWellFormed :
    (t : ElementTracker) (now : ℕ) (s : Sample) (th : Thresholds)
    → IsWellFormed t
    → IsWellFormed (step t now s th).0
unfolding step reset_timers
step-IsWellFormed t now missing th w = w
step-IsWellFormed t now not_finite th w = w
step-IsWellFormed t now (reading v) th w =
    judge-IsWellFormed (observe t now v th) now v th (conds t.element v th)
      (observe-IsWellFormed t now v th w)

pub feed-IsWellFormed :
    (t : ElementTracker) (th : Thresholds) (h : History)
    → IsWellFormed t
    → IsWellFormed (feed (reset_timers t) th h)
unfolding feed reset_timers
feed-IsWellFormed t th [] w = w
feed-IsWellFormed t th ((now, s) ∷ h) w =
    step-IsWellFormed (feed (reset_timers t) th h) now s th (feed-IsWellFormed t th h w)
