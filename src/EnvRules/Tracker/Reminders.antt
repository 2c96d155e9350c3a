-- ===== src/EnvRules/Tracker/Reminders.antt =====
-- Reminders (D15, D16): when one is sent, and that an event has at most one.
use terra_server.Common.{
  ℕ, ◌+◌, ◌≤◌, ◌<◌, ◌≡◌, refl, ◌∙◌, sym, true, false, Option, none, some, List, [], ◌∷◌, arith,
}
use terra_server.EnvRules.Thresholds.{Thresholds}
use terra_server.EnvRules.Event.{Op, Level, caution, danger, ActiveEvent, Action, remind}
use terra_server.EnvRules.Tracker.{
  ElementTracker, Conds, Sample, missing, not_finite, reading, conds, reset_timers, update_runs,
  update_peak,
}
use terra_server.EnvRules.Tracker.Transition.{
  Outcome, close, opening, open_with, from_idle, from_caution, from_danger, from_active, dispatch,
  transition,
}
use terra_server.EnvRules.Tracker.Judge.{observe, follow_up, judge, step, unless_acted_rule}
use terra_server.EnvRules.Tracker.History.{History, feed}

abbrev pub one_if_remind : Op → ℕ
one_if_remind remind = 1
one_if_remind _ = 0

abbrev pub reminders : List Action → ℕ
reminders [] = 0
reminders (act ∷ acts) = one_if_remind act.op + reminders acts

abbrev pub identity : Option ActiveEvent → Option ℕ
identity none = none
identity (some a) = some a.identity

-- 1 if the event has been reminded of
abbrev pub reminded : Option ActiveEvent → ℕ
reminded none = 0
reminded (some a) = elim a.reminded [ true ↦ 1 | false ↦ 0 ]

-- Every identity handed out so far is below the next one.
abbrev Fresh : ℕ → Option ActiveEvent → Type 0
Fresh next none = Unit
Fresh next (some a) = a.identity < next

abbrev pub IsFresh : ElementTracker → Type 0
IsFresh t = Fresh t.next_identity t.active

-- What a part of a step may do to the event that was active: leave it active with its reminder
-- counted, or put another in its place and send no reminder.
abbrev Counted : Option ActiveEvent → Outcome → Type 0
Counted before o =
    (identity o.0.active ≡ identity before → reminded before + reminders o.1 ≤ reminded o.0.active)

module _ (t : ElementTracker) (now v : ℕ) (th : Thresholds) (cs : Conds) where
  from_idle-Counted :
      t.active ≡ none → Counted none (from_idle t now v th cs) × IsFresh (from_idle t now v th cs).0
  unfolding from_idle opening open_with
  from_idle-Counted h = ground arith

  from_caution-Counted :
      (a : ActiveEvent)
      → t.active ≡ some a
      → a.identity < t.next_identity
      → Counted (some a) (from_caution t a now v th cs) × IsFresh (from_caution t a now v th cs).0
  unfolding from_caution opening open_with close
  from_caution-Counted a h f = ground arith

  from_danger-Counted :
      (a : ActiveEvent)
      → t.active ≡ some a
      → a.identity < t.next_identity
      → Counted (some a) (from_danger t a now v th cs) × IsFresh (from_danger t a now v th cs).0
  unfolding from_danger opening open_with close
  from_danger-Counted a h f = ground arith

  follow_up-Counted :
      (identity (follow_up t now v th cs).0.active ≡ identity t.active)
      × (reminded t.active + reminders (follow_up t now v th cs).1
          ≤ reminded (follow_up t now v th cs).0.active)
  unfolding follow_up
  follow_up-Counted = ground arith

  follow_up-IsFresh : IsFresh t → IsFresh (follow_up t now v th cs).0
  unfolding follow_up
  follow_up-IsFresh f = ground arith

  from_active-Counted :
      (a : ActiveEvent) (l : Level)
      → t.active ≡ some a
      → a.identity < t.next_identity
      → Counted (some a) (from_active l t a now v th cs) × IsFresh (from_active l t a now v th cs).0
  from_active-Counted a caution h f = from_caution-Counted a h f
  from_active-Counted a danger h f = from_danger-Counted a h f

  dispatch-Counted :
      (o : Option ActiveEvent)
      → t.active ≡ o
      → Fresh t.next_identity o
      → Counted o (dispatch o t now v th cs) × IsFresh (dispatch o t now v th cs).0
  dispatch-Counted none h f = from_idle-Counted h
  dispatch-Counted (some a) h f = from_active-Counted a a.level h f

module _ (t : ElementTracker) (now v : ℕ) (th : Thresholds) where
  observe-event :
      (identity (observe t now v th).active ≡ identity t.active)
      × (reminded (observe t now v th).active ≡ reminded t.active)
      × ((observe t now v th).next_identity ≡ t.next_identity)
  unfolding observe reset_timers update_runs update_peak
  observe-event = ground arith

  observe-IsFresh : IsFresh t → IsFresh (observe t now v th)
  unfolding observe reset_timers update_runs update_peak
  observe-IsFresh f = ground arith

  judge-Counted :
      (cs : Conds)
      → IsFresh t
      → Counted t.active (judge t now v th cs) × IsFresh (judge t now v th cs).0
  unfolding judge transition
  judge-Counted cs f =
      let o = transition t now v th cs in
      let d = dispatch-Counted t now v th cs t.active refl f in
      let u = follow_up-Counted o.0 now v th cs in
      unless_acted_rule (λ o. Counted t.active o × IsFresh o.0) o (λ u. follow_up u now v th cs)
        (λ e.
          (λ same. omega (arith, u.1, d.0 (sym u.0 ∙ same)), follow_up-IsFresh o.0 now v th cs d.1))
        d

-- While the same event stays active across a step, its reminders are counted by its own flag.
pub step-Counted :
    (t : ElementTracker) (now : ℕ) (s : Sample) (th : Thresholds)
    → IsFresh t
    → Counted t.active (step t now s th) × IsFresh (step t now s th).0
unfolding step
step-Counted t now missing th f = unfold reset_timers in ((λ _. omega arith), f)
step-Counted t now not_finite th f = unfold reset_timers in ((λ _. omega arith), f)
step-Counted t now (reading v) th f =
    let o = observe-event t now v th in
    let j =
      judge-Counted (observe t now v th) now v th (conds t.element v th)
        (observe-IsFresh t now v th f) in
    ((λ same. omega (arith, o.1, j.0 (same ∙ sym o.0))), j.1)

-- The reminders sent over a history.
abbrev pub reminders_over : ElementTracker → Thresholds → History → ℕ
reminders_over t th [] = 0
reminders_over t th ((now, s) ∷ h) =
    reminders_over t th h + reminders (step (feed t th h) now s th).1

-- The event that was active at the start is active after every sample.
abbrev pub Stays : ElementTracker → Thresholds → History → Type 0
Stays t th [] = Unit
Stays t th ((now, s) ∷ h) =
    (identity (feed t th ((now, s) ∷ h)).active ≡ identity (feed t th h).active) × Stays t th h

reminders_counted :
    (t : ElementTracker) (th : Thresholds) (h : History)
    → IsFresh t
    → Stays t th h
    → (reminded t.active + reminders_over t th h ≤ reminded (feed t th h).active)
      × IsFresh (feed t th h)
unfolding feed
reminders_counted t th [] f k = (omega arith, f)
reminders_counted t th ((now, s) ∷ h) f k =
    let before = reminders_counted t th h f k.1 in
    let one = step-Counted (feed t th h) now s th before.1 in
    (omega (arith, before.0, one.0 k.0), one.1)

reminded-le-one : (o : Option ActiveEvent) → reminded o ≤ 1
reminded-le-one o = ground arith

-- From a tracker whose active event has a smaller number than the next one, over any history of
-- samples during which one event stays active, at most one reminder is sent, and none if the event
-- had been reminded of before.
pub reminders-le-one :
    (t : ElementTracker) (th : Thresholds) (h : History)
    → IsFresh t
    → Stays t th h
    → reminded t.active + reminders_over t th h ≤ 1
reminders-le-one t th h f k =
    omega (arith, (reminders_counted t th h f k).0, reminded-le-one (feed t th h).active)
