-- ===== src/EnvRules/Tracker/Transition.antt =====
-- backend/env_rules.py, lines 343-450: closing, opening, and the choice of a transition.
use terra_server.Common.{
  ℕ, ◌+◌, Bool, true, false, not, ◌&&◌, Option, none, some, List, [], ◌∷◌, ◌==◌, leb, if◌then◌else◌,
}
use terra_server.EnvRules.Thresholds.{Thresholds}
use terra_server.EnvRules.Event.{
  Side, high, low, Level, caution, danger, ActiveEvent, Action, open_event, close_event, Run,
  kind_of, opp, side_of, same_side,
}
use terra_server.EnvRules.Tracker.{
  ElementTracker, Conds, beyond, within, calm, held, holds, in_danger, is_temp, threshold,
  entry_sec, entry_sec_default, recovery_sec, redanger_silence_sec,
}

abbrev pub Outcome : Type 0
Outcome = ElementTracker × List Action

-- The peak to report is the one from before the run, if the run saw this event begin it.
abbrev closing_peak : ActiveEvent → Option ℕ → Option ℕ → ℕ
closing_peak a (some seen) (some peak) = if seen == a.identity then peak else a.peak
closing_peak a _ _ = a.peak

unfoldable pub close : ElementTracker → ActiveEvent → Run → ℕ → Thresholds → Action
close t a run v th = record {
  op = close_event;
  kind = a.kind;
  level = a.level;
  push = false;
  value = some v;
  threshold = some (threshold t.element (side_of a.kind) th);
  at_mono = run.start;
  peak = some (closing_peak a run.snap_event run.snap_peak);
  closes_alert_id = a.alert_id;
}

-- What a new event takes over from the event before it.
abbrev chain : Bool → Option ActiveEvent → ActiveEvent → ActiveEvent
chain silent none fresh = fresh
chain true (some before) fresh = record fresh {
  chain_pushed_mono = before.pushed_mono;
  chain_reminded = before.reminded;
}
chain false (some before) fresh = record fresh {
  pushed_mono = before.chain_pushed_mono;
  reminded = before.chain_reminded;
}

abbrev pub opened : ElementTracker → Side → Level → Run → Bool → Option ActiveEvent → ActiveEvent
opened t side level run silent chain_from = chain silent chain_from (record {
  identity = t.next_identity;
  kind = kind_of t.element side;
  level = level;
  started_wall = none;
  pushed_mono = none;
  reminded = false;
  silent = silent;
  peak = run.ext;
  alert_id = none;
  silent_since_mono = if silent then some run.start else none;
  chain_pushed_mono = none;
  chain_reminded = false;
})

unfoldable pub open_with :
    ElementTracker → Side → Level → Run → Bool → Option ActiveEvent → ElementTracker
open_with t side level run silent chain_from = record t {
  active = some (opened t side level run silent chain_from);
  peak_dirty_since = none;
  next_identity = t.next_identity + 1;
}

unfoldable pub opening : ElementTracker → Side → Level → Run → ℕ → Thresholds → Bool → Action
opening t side level run v th push = record {
  op = open_event;
  kind = kind_of t.element side;
  level = level;
  push = push;
  value = some v;
  threshold = some (threshold t.element side th);
  at_mono = run.start;
  peak = some run.ext;
  closes_alert_id = none;
}

-- `[self._open(...)]`
abbrev pub only_open : ElementTracker → Side → Level → ℕ → Thresholds → Run → Outcome
only_open t side level v th run =
    (open_with t side level run false none, opening t side level run v th true ∷ [])

-- `[close, self._open(...)]`
abbrev pub switch :
    ElementTracker
    → ActiveEvent
    → Side
    → Level
    → ℕ
    → Thresholds
    → Bool
    → Bool
    → Option ActiveEvent
    → Run
    → Outcome
switch t a side level v th push silent chain_from run = (
  open_with t side level run silent chain_from,
  close t a run v th ∷ opening t side level run v th push ∷ [],
)

-- `[close]`, the event and its dirty peak dropped
abbrev pub only_close : ElementTracker → ActiveEvent → ℕ → Thresholds → Run → Outcome
only_close t a v th run =
    (record t { active = none; peak_dirty_since = none }, close t a run v th ∷ [])

-- `if run: return f(run)`
abbrev pub when_held : Option Run → (Run → Outcome) → Outcome → Outcome
when_held none f rest = rest
when_held (some run) f rest = f run

-- No event is active: danger before caution (D13).
unfoldable pub from_idle : ElementTracker → ℕ → ℕ → Thresholds → Conds → Outcome
from_idle t now v th cs =
    let stay : Outcome = (t, []) in
    let caution_low =
      when_held (held t.runs (beyond caution low) now (entry_sec t.element low))
        (only_open t low caution v th) stay in
    let caution_high =
      when_held (held t.runs (beyond caution high) now (entry_sec t.element high))
        (only_open t high caution v th) caution_low in
    let cautions = if in_danger cs then stay else caution_high in
    let danger_low =
      when_held (held t.runs (beyond danger low) now entry_sec_default)
        (only_open t low danger v th) cautions in
    let danger_high =
      when_held (held t.runs (beyond danger high) now entry_sec_default)
        (only_open t high danger v th) danger_low in
    if is_temp t.element then danger_high else cautions

-- D14: the same side is in danger again soon after a silent caution began.
abbrev is_recent : Option ℕ → ℕ → Bool
is_recent none start = false
is_recent (some since) start = leb start (since + redanger_silence_sec)

abbrev pub quiet : ActiveEvent → Side → Run → Bool
quiet a s run = same_side s (side_of a.kind) && a.silent && is_recent a.silent_since_mono run.start

abbrev pub worsen : ElementTracker → ActiveEvent → Side → ℕ → Thresholds → Run → Outcome
worsen t a s v th run =
    switch t a s danger v th (not (quiet a s run)) false (if quiet a s run then some a else none)
      run

-- A caution is active: danger, then the other side (D5), then recovery.
unfoldable pub from_caution : ElementTracker → ActiveEvent → ℕ → ℕ → Thresholds → Conds → Outcome
from_caution t a now v th cs =
    let side = side_of a.kind in
    let stay : Outcome = (t, []) in
    let recover = when_held (held t.runs within now recovery_sec) (only_close t a v th) stay in
    let cross =
      when_held (held t.runs (beyond caution (opp side)) now (entry_sec t.element (opp side)))
        (switch t a (opp side) caution v th true false none) recover in
    let calmer = if in_danger cs then recover else cross in
    let danger_opp =
      when_held (held t.runs (beyond danger (opp side)) now entry_sec_default)
        (worsen t a (opp side) v th) calmer in
    let danger_same =
      when_held (held t.runs (beyond danger side) now entry_sec_default) (worsen t a side v th)
        danger_opp in
    if is_temp t.element then danger_same else calmer

-- A danger is active: the other side (D5), then recovery, then relief to a silent caution (D3).
unfoldable pub from_danger : ElementTracker → ActiveEvent → ℕ → ℕ → Thresholds → Conds → Outcome
from_danger t a now v th cs =
    let side = side_of a.kind in
    let stay : Outcome = (t, []) in
    let relief = λ (run : Run).
      if holds (cs (beyond caution side))
      then switch t a side caution v th false true (some a) run
      else stay in
    let relieved = when_held (held t.runs (calm side) now recovery_sec) relief stay in
    let recover = when_held (held t.runs within now recovery_sec) (only_close t a v th) relieved in
    let cross =
      when_held (held t.runs (beyond caution (opp side)) now entry_sec_default)
        (switch t a (opp side) caution v th true false none) recover in
    let calmer = if in_danger cs then recover else cross in
    when_held (held t.runs (beyond danger (opp side)) now entry_sec_default)
      (switch t a (opp side) danger v th true false none) calmer

abbrev pub from_active : Level → ElementTracker → ActiveEvent → ℕ → ℕ → Thresholds → Conds → Outcome
from_active caution = from_caution
from_active danger = from_danger

abbrev pub dispatch : Option ActiveEvent → ElementTracker → ℕ → ℕ → Thresholds → Conds → Outcome
dispatch none t now v th cs = from_idle t now v th cs
dispatch (some a) t now v th cs = from_active a.level t a now v th cs

unfoldable pub transition : ElementTracker → ℕ → ℕ → Thresholds → Conds → Outcome
transition t now v th cs = dispatch t.active t now v th cs
