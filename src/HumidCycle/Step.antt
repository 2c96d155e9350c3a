-- ===== src/HumidCycle/Step.antt =====
-- `HumidCycleTracker.step`.
use terra_server.Common.{
  ℕ, ◌+◌, ◌-◌, ◌*◌, Bool, true, false, not, ◌&&◌, ◌||◌, Option, none, some, List, [], ◌∷◌, ◌++◌,
  ltb, leb, max, or_else, if◌then◌else◌,
}
use terra_server.Common.Int.{ℤ, pos, sub_ℕ, leb_ℤ}
use terra_server.HumidCycle.{
  reached_in_time, reached_late, CycleState, dry, stale, CycleOp, max_fixed, dry_reached,
  vent_delay, vent_delay_close, mist_gap, offline, this, HumidCycleTracker, gap_sec, dry_drop_pp,
  vent_delay_sec, vent_stale_sec, mist_gap_sec, max_humid, r1_ℤ, has_lasted, is_within,
}
use terra_server.HumidCycle.Windows.{smooth}
use terra_server.HumidCycle.Detect.{is_open, is_reached, Detected, detect, when}

abbrev pub Judged : Type 0
Judged = CycleState × List CycleOp

-- The target is fixed after the window of the maximum; until then the peak is followed.
unfoldable pub judge_max : ℕ → ℕ → CycleState → Judged
unfolding max_humid r1_ℤ
judge_max now s c = elim c.dry_target [
  | none ↦
      if not (is_open c.status)
      then (c, [])
      else if ltb c.max_until now
      then (
        record c { dry_target = some (r1_ℤ (sub_ℕ (max_humid c.peak) dry_drop_pp)) },
        record { op = max_fixed; at = now; cycle = this; value = s } ∷ [],
      )
      else (record c { peak = max c.peak s }, [])
  | some target ↦ (c, [])
]

abbrev pub is_dry : Option ℤ → ℕ → Bool
is_dry none s = false
is_dry (some target) s = leb_ℤ (pos s) target

unfoldable pub judge_dry : ℕ → ℕ → CycleState → Judged
judge_dry now s c =
    let late = c.vent_delay_fired && not c.vent_delay_closed in
    if is_open c.status && is_dry c.dry_target s
    then (
      record c {
        dry_reached_at = some now;
        status = if is_within c now vent_delay_sec then reached_in_time else reached_late;
        vent_delay_closed = late || c.vent_delay_closed;
      },
      record { op = dry_reached; at = now; cycle = this; value = s }
          ∷ when late (record { op = vent_delay_close dry; at = now; cycle = this; value = s }),
    )
    else (c, [])

unfoldable pub judge_delay : ℕ → ℕ → CycleState → Judged
judge_delay now s c =
    if is_open c.status && not c.vent_delay_fired && has_lasted c now vent_delay_sec
    then (
      record c { vent_delay_fired = true },
      record { op = vent_delay; at = now; cycle = this; value = s } ∷ [],
    )
    else (c, [])

unfoldable pub judge_stale : ℕ → ℕ → CycleState → Judged
judge_stale now s c =
    if is_open c.status
      && c.vent_delay_fired
      && not c.vent_delay_closed
      && has_lasted c now vent_stale_sec
    then (
      record c { vent_delay_closed = true },
      record { op = vent_delay_close stale; at = now; cycle = this; value = s } ∷ [],
    )
    else (c, [])

unfoldable pub judge_gap : ℕ → ℕ → CycleState → Judged
judge_gap now s c =
    if is_reached c.status && not c.mist_gap_fired && has_lasted c now mist_gap_sec
    then (
      record c { mist_gap_fired = true },
      record { op = mist_gap; at = now; cycle = this; value = s } ∷ [],
    )
    else (c, [])

unfoldable pub judge : ℕ → ℕ → CycleState → Judged
unfolding judge_max judge_dry judge_delay judge_stale judge_gap
judge now s c =
    let m = judge_max now s c in
    let d = judge_dry now s m.0 in
    let v = judge_delay now s d.0 in
    let st = judge_stale now s v.0 in
    let g = judge_gap now s st.0 in (g.0, m.1 ++ (d.1 ++ (v.1 ++ (st.1 ++ g.1))))

abbrev pub judge_cycle : ℕ → ℕ → Detected → Detected
judge_cycle now s (none, ops) = (none, ops)
judge_cycle now s (some c, ops) = let j = judge now s c in (some j.0, ops ++ j.1)

-- A sample that repeats the last one or comes a little before it.
abbrev pub is_repeated : Option ℕ → ℕ → Bool
is_repeated none now = false
is_repeated (some last) now = leb now last && leb last (now + gap_sec)

-- The device's clock was set back by more.
abbrev pub is_set_back : Option ℕ → ℕ → Bool
is_set_back none now = false
is_set_back (some last) now = leb now last

unfoldable pub clear : HumidCycleTracker → HumidCycleTracker
clear t = record t { raw = []; mins = []; hist_start = none }

-- How long no valid sample came, where that is more than a minute.
abbrev pub gap_of : Option ℕ → ℕ → Option ℕ
gap_of none now = none
gap_of (some last) now = if ltb (last + gap_sec) now then some (now - last) else none

abbrev pub add_offline : ℕ → Option CycleState → Option CycleState
add_offline gap none = none
add_offline gap (some c) = some (record c { offline_sec = c.offline_sec + gap })

abbrev pub offline_ops : ℕ → ℕ → Option CycleState → List CycleOp
offline_ops now humid none = []
offline_ops now humid (some c) =
    record { op = offline; at = now; cycle = this; value = humid * 2 } ∷ []

abbrev pub after_gap : ℕ → ℕ → Option ℕ → HumidCycleTracker → HumidCycleTracker × List CycleOp
after_gap now humid none t = (t, [])
after_gap now humid (some gap) t =
    (record (clear t) { cycle = add_offline gap t.cycle }, offline_ops now humid t.cycle)

unfoldable pub resume : ℕ → ℕ → HumidCycleTracker → HumidCycleTracker × List CycleOp
unfolding clear
resume now humid t =
    if is_set_back t.last_at now
    then (clear t, [])
    else after_gap now humid (gap_of t.last_at now) t

-- The rest of a step, from the windows on.
unfoldable pub sample : ℕ → ℕ → HumidCycleTracker → HumidCycleTracker × List CycleOp
unfolding smooth detect judge
sample now humid t =
    let start = or_else t.hist_start now in
    let w = smooth now humid t.raw t.mins in
    let d = judge_cycle now w.value (detect now w.value w.raw w.mins (some start) t.cycle) in
    (
      record {
        cycle = d.0;
        last_at = some now;
        raw = w.raw;
        mins = w.mins;
        hist_start = some start;
      },
      d.1,
    )

unfoldable pub step : ℕ → Option ℕ → HumidCycleTracker → HumidCycleTracker × List CycleOp
unfolding resume sample
step now none t = (t, [])
step now (some humid) t =
    let (t₁, ops) = resume now humid t in
    let (t₂, more) = sample now humid t₁ in
    if is_repeated t.last_at now then (t, []) else (t₂, ops ++ more)
