-- ===== src/EnvRules/Tracker/Warrant.antt =====
-- When a tracker may open and close: what its runs say of each action of a transition.
use terra_server.Common.{
  ℕ, ◌+◌, ◌≤◌, ◌≡◌, ◌⊎◌, refl, ◌∙◌, true, false, Option, none, some, List, [], ◌∷◌, arith,
}
use terra_server.EnvRules.Thresholds.{Thresholds}
use terra_server.EnvRules.Event.{
  Element, temp, Side, Level, caution, danger, ActiveEvent, Action, open_event, close_event, Run,
  kind_of, side_of,
}
use terra_server.EnvRules.Tracker.{
  ElementTracker, Conds, Cond, Runs, beyond, within, calm, holds, held, entry_sec,
  entry_sec_default, recovery_sec, in_danger,
}
use terra_server.EnvRules.Tracker.Transition.{
  close, open_with, opening, from_idle, from_caution, from_danger, from_active, dispatch,
  transition,
}
use terra_server.EnvRules.Tracker.Judge.{follow_up, judge, unless_acted_rule}

-- An event of a tracker is of its element, and only a temperature can be in danger.
abbrev pub Fits : Element → Option ActiveEvent → Type 0
Fits e none = Unit
Fits e (some a) = (a.kind ≡ kind_of e (side_of a.kind)) × (a.level ≡ danger → e ≡ temp)

abbrev pub IsWellFormed : ElementTracker → Type 0
IsWellFormed t = Fits t.element t.active

-- How long a condition has to last before it opens an event.
abbrev pub wait : Element → Level → Side → ℕ
wait e danger side = entry_sec_default
wait e caution side = entry_sec e side

abbrev pub start_of : Option Run → Option ℕ
start_of none = none
start_of (some run) = some run.start

-- When each condition began to hold.
abbrev pub Starts : Type 0
Starts = Cond → Option ℕ

abbrev pub starts_of : Runs → Starts
starts_of runs c = start_of (runs c)

abbrev pub Lasting : Starts → ℕ → Cond → ℕ → ℕ → Type 0
Lasting starts now c start sec = (starts c ≡ some start) × (start + sec ≤ now)

-- A new event stands for a condition that has lasted its time, and no caution begins while the
-- value is in danger (D13); or it is the silent caution after a danger that has been calm for the
-- time of a recovery, while the value is still beyond the limit (D3).
abbrev pub OpenWarrant : Element → Starts → ℕ → Conds → Action → Type 0
OpenWarrant e starts now cs act =
    let side = side_of act.kind in
    (act.kind ≡ kind_of e side)
    × ((Lasting starts now (beyond act.level side) act.at_mono (wait e act.level side)
          × (act.level ≡ caution → in_danger cs ≡ false))
        ⊎ ((act.level ≡ caution)
            × (act.push ≡ false)
            × Lasting starts now (calm side) act.at_mono recovery_sec
            × (holds (cs (beyond caution side)) ≡ true)))

-- An event that ends with no other in its place has been in range for the time of a recovery;
-- otherwise it ends when the next one begins.
abbrev pub CloseWarrant : Starts → ℕ → Action → List Action → Type 0
CloseWarrant starts now act [] = Lasting starts now within act.at_mono recovery_sec
CloseWarrant starts now act (next ∷ rest) = (next.op ≡ open_event) × (next.at_mono ≡ act.at_mono)

abbrev pub Warranted : Element → Starts → ℕ → Conds → List Action → Type 0
Warranted e starts now cs [] = Unit
Warranted e starts now cs (act ∷ acts) =
    elim act.op [
      | open_event ↦ OpenWarrant e starts now cs act
      | close_event ↦ CloseWarrant starts now act acts
      | _ ↦ Unit
    ]
    × Warranted e starts now cs acts

module _ (t : ElementTracker) (now v : ℕ) (th : Thresholds) (cs : Conds) where
  from_idle-Warranted : Warranted t.element (starts_of t.runs) now cs (from_idle t now v th cs).1
  unfolding from_idle opening held entry_sec
  from_idle-Warranted = ground arith

  from_caution-Warranted :
      (a : ActiveEvent)
      → Warranted t.element (starts_of t.runs) now cs (from_caution t a now v th cs).1
  unfolding from_caution opening close held entry_sec
  from_caution-Warranted a = ground arith

  from_danger-Warranted :
      (a : ActiveEvent)
      → t.element ≡ temp
      → Warranted t.element (starts_of t.runs) now cs (from_danger t a now v th cs).1
  unfolding from_danger opening close held entry_sec
  from_danger-Warranted a h = ground arith

  from_active-Warranted :
      (a : ActiveEvent) (l : Level)
      → (l ≡ danger → t.element ≡ temp)
      → Warranted t.element (starts_of t.runs) now cs (from_active l t a now v th cs).1
  from_active-Warranted a caution h = from_caution-Warranted a
  from_active-Warranted a danger h = from_danger-Warranted a (h refl)

  dispatch-Warranted :
      (o : Option ActiveEvent)
      → Fits t.element o
      → Warranted t.element (starts_of t.runs) now cs (dispatch o t now v th cs).1
  dispatch-Warranted none f = from_idle-Warranted
  dispatch-Warranted (some a) f = from_active-Warranted a a.level f.1

  follow_up-Warranted :
      (e : Element) (starts : Starts) → Warranted e starts now cs (follow_up t now v th cs).1
  unfolding follow_up
  follow_up-Warranted e starts = ground arith

-- A transition leaves the runs, the element and the time of the last sample as they are.
abbrev pub Keeps : ElementTracker → ElementTracker → Type 0
Keeps t t' = (t'.element ≡ t.element) × (t'.runs ≡ t.runs) × (t'.last_mono ≡ t.last_mono)

module _ (t : ElementTracker) (now v : ℕ) (th : Thresholds) (cs : Conds) where
  from_idle-Keeps : Keeps t (from_idle t now v th cs).0
  unfolding from_idle open_with
  from_idle-Keeps = ground arith

  from_caution-Keeps : (a : ActiveEvent) → Keeps t (from_caution t a now v th cs).0
  unfolding from_caution open_with
  from_caution-Keeps a = ground arith

  from_danger-Keeps : (a : ActiveEvent) → Keeps t (from_danger t a now v th cs).0
  unfolding from_danger open_with
  from_danger-Keeps a = ground arith

  dispatch-Keeps : (o : Option ActiveEvent) → Keeps t (dispatch o t now v th cs).0
  dispatch-Keeps none = from_idle-Keeps
  dispatch-Keeps (some a) = go a.level
    where
      go : (l : Level) → Keeps t (from_active l t a now v th cs).0
      go caution = from_caution-Keeps a
      go danger = from_danger-Keeps a

  pub transition-Keeps : Keeps t (transition t now v th cs).0
  unfolding transition
  transition-Keeps = dispatch-Keeps t.active

  follow_up-Keeps : Keeps t (follow_up t now v th cs).0
  unfolding follow_up
  follow_up-Keeps = ground arith

module _ (t : ElementTracker) (now v : ℕ) (th : Thresholds) (cs : Conds) where
  pub judge-Keeps : Keeps t (judge t now v th cs).0
  unfolding judge
  judge-Keeps =
      let (t', acts) = transition t now v th cs in
      let k = transition-Keeps t now v th cs in
      let k' = follow_up-Keeps t' now v th cs in
      unless_acted_rule (λ o. Keeps t o.0) (t', acts) (λ u. follow_up u now v th cs)
        (λ _. (k'.0 ∙ k.0, k'.1 ∙ k.1, k'.2 ∙ k.2)) k

  pub judge-Warranted :
      IsWellFormed t → Warranted t.element (starts_of t.runs) now cs (judge t now v th cs).1
  unfolding judge transition
  judge-Warranted w =
      let o = transition t now v th cs in
      unless_acted_rule (λ o. Warranted t.element (starts_of t.runs) now cs o.1) o
        (λ u. follow_up u now v th cs)
        (λ _. follow_up-Warranted o.0 now v th cs t.element (starts_of t.runs))
        (dispatch-Warranted t now v th cs t.active w)
