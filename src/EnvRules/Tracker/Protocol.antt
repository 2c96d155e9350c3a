-- ===== src/EnvRules/Tracker/Protocol.antt =====
-- The contract between a tracker and its caller. The caller keeps at most one open event, with the
-- identifier of its row; `Performs` says what the actions of a step do to it.
use terra_server.Common.{ℕ, ◌≡◌, refl, subst, Option, none, some, List, [], ◌∷◌, String, arith}
use terra_server.EnvRules.Thresholds.{Thresholds}
use terra_server.EnvRules.Event.{
  Level, caution, danger, Kind, ActiveEvent, Action, open_event, close_event, remind, flush_peak,
}
use terra_server.EnvRules.Tracker.{
  ElementTracker, Conds, Sample, missing, not_finite, reading, conds, reset_timers, update_runs,
  update_peak,
}
use terra_server.EnvRules.Tracker.Transition.{
  close, open_with, opening, from_idle, from_caution, from_danger, from_active, dispatch,
  transition,
}
use terra_server.EnvRules.Tracker.Judge.{observe, follow_up, judge, step, unless_acted_rule}

pub record Entry : Type 0 where
  pub kind : Kind
  pub level : Level
  pub alert_id : Option String

abbrev pub Ledger : Type 0
Ledger = Option Entry

abbrev pub entry_of : ActiveEvent → Entry
entry_of a = record { kind = a.kind; level = a.level; alert_id = a.alert_id }

abbrev pub ledger : Option ActiveEvent → Ledger
ledger none = none
ledger (some a) = some (entry_of a)

-- An action that is about the open event names its kind and level.
abbrev Concerns : Ledger → Action → Type 0
Concerns none act = ⊥
Concerns (some e) act = (e.kind ≡ act.kind) × (e.level ≡ act.level)

abbrev Closes : Ledger → Action → Type 0
Closes none act = ⊥
Closes (some e) act =
    (e.kind ≡ act.kind) × (e.level ≡ act.level) × (e.alert_id ≡ act.closes_alert_id)

-- `before` becomes `after` by the actions in turn. An event is opened only when none is open, and
-- closed, reminded of or updated only while it is the open one; a new row has no identifier yet.
abbrev pub Performs : List Action → Ledger → Ledger → Type 0
Performs [] before after = before ≡ after
Performs (act ∷ acts) before after = elim act.op [
  | open_event ↦
      (before ≡ none)
      × Performs acts (some (record { kind = act.kind; level = act.level; alert_id = none })) after
  | close_event ↦ Closes before act × Performs acts none after
  | remind ↦ Concerns before act × Performs acts before after
  | flush_peak ↦ Concerns before act × Performs acts before after
]

module _ (t : ElementTracker) (now v : ℕ) (th : Thresholds) (cs : Conds) where
  from_idle-Performs :
      t.active ≡ none
      → let (t', acts) = from_idle t now v th cs in Performs acts none (ledger t'.active)
  unfolding from_idle open_with opening
  from_idle-Performs h = ground arith

  from_caution-Performs :
      (a : ActiveEvent)
      → t.active ≡ some a
      → let (t', acts) = from_caution t a now v th cs in
        Performs acts (some (entry_of a)) (ledger t'.active)
  unfolding from_caution open_with opening close
  from_caution-Performs a h = ground arith

  from_danger-Performs :
      (a : ActiveEvent)
      → t.active ≡ some a
      → let (t', acts) = from_danger t a now v th cs in
        Performs acts (some (entry_of a)) (ledger t'.active)
  unfolding from_danger open_with opening close
  from_danger-Performs a h = ground arith

  follow_up-Performs :
      let (t', acts) = follow_up t now v th cs in Performs acts (ledger t.active) (ledger t'.active)
  unfolding follow_up
  follow_up-Performs = ground arith

  from_active-Performs :
      (a : ActiveEvent) (l : Level)
      → t.active ≡ some a
      → let (t', acts) = from_active l t a now v th cs in
        Performs acts (some (entry_of a)) (ledger t'.active)
  from_active-Performs a caution h = from_caution-Performs a h
  from_active-Performs a danger h = from_danger-Performs a h

  dispatch-Performs :
      (o : Option ActiveEvent)
      → t.active ≡ o
      → let (t', acts) = dispatch o t now v th cs in Performs acts (ledger o) (ledger t'.active)
  dispatch-Performs none h = from_idle-Performs h
  dispatch-Performs (some a) h = from_active-Performs a a.level h

  transition-Performs :
      let (t', acts) = transition t now v th cs in
      Performs acts (ledger t.active) (ledger t'.active)
  unfolding transition
  transition-Performs = dispatch-Performs t.active refl

judge-Performs :
    (t : ElementTracker) (now v : ℕ) (th : Thresholds) (cs : Conds)
    → let (t', acts) = judge t now v th cs in Performs acts (ledger t.active) (ledger t'.active)
unfolding judge
judge-Performs t now v th cs =
    let o = transition t now v th cs in
    let p = transition-Performs t now v th cs in
    unless_acted_rule (λ o. Performs o.1 (ledger t.active) (ledger o.0.active)) o
      (λ u. follow_up u now v th cs)
      (λ e.
        let same = subst (λ acts. Performs acts (ledger t.active) (ledger o.0.active)) e p in
        rw same (follow_up-Performs o.0 now v th cs))
      p

observe-ledger :
    (t : ElementTracker) (now v : ℕ) (th : Thresholds)
    → ledger (observe t now v th).active ≡ ledger t.active
unfolding observe reset_timers update_runs update_peak
observe-ledger t now v th = ground arith

-- Whatever a step does, its actions are the ones that take the event that was active before it to
-- the event that is active after it: it opens an event only when there is none or the old one has
-- just been closed under its own kind, level and row, and it reminds of and updates only the
-- active event.
pub step-Performs :
    (t : ElementTracker) (now : ℕ) (value : Sample) (th : Thresholds)
    → let (t', acts) = step t now value th in Performs acts (ledger t.active) (ledger t'.active)
unfolding step judge
step-Performs t now (reading v) th =
    rw (← observe-ledger t now v th)
      (judge-Performs (observe t now v th) now v th (conds t.element v th))
step-Performs t now missing th = unfold reset_timers in refl
step-Performs t now not_finite th = unfold reset_timers in refl
