-- ===== src/HumidCycle/Detect.antt =====
-- `_detect`: a rise opens a cycle, joins the one that is running, or belongs to it.
use terra_server.Common.{
  ℕ, suc, ◌+◌, Bool, true, false, not, ◌&&◌, ◌||◌, Option, none, some, List, [], ◌∷◌, ◌++◌, ltb,
  leb, max, if◌then◌else◌, length,
}
use terra_server.HumidCycle.{
  Status, open_, reached_in_time, reached_late, not_reached, CycleState, next_event, CycleOp,
  opened, merged, missed, vent_delay_close, mist_gap_close, this, previous, Window,
  smooth_min_samples, rise_min_history_sec, rise_pp, rise_pp_high_start, high_start_pct,
  wet_min_pct, max_window_sec, merge_sec, r1,
}

abbrev pub is_open : Status → Bool
is_open open_ = true
is_open s = false

abbrev pub is_reached : Status → Bool
is_reached reached_in_time = true
is_reached reached_late = true
is_reached s = false

-- `_mins[0]`
unfoldable pub oldest : Window → Option (ℕ × ℕ)
oldest [] = none
oldest (x ∷ xs) = elim (oldest xs) [ none ↦ some x | some y ↦ some y ]

abbrev pub need_of : ℕ → ℕ
need_of low = if leb high_start_pct low then rise_pp_high_start else rise_pp

-- Enough of a rise over the lowest value, and wet.
abbrev pub is_rise : ℕ → ℕ → Bool
is_rise low s = leb (low + need_of low) s && leb wet_min_pct s

abbrev pub is_ready : Window → Option ℕ → ℕ → Bool
is_ready raw none now = false
is_ready raw (some start) now =
    leb smooth_min_samples (length raw) && leb (start + rise_min_history_sec) now

unfoldable pub new_cycle : ℕ → ℕ → ℕ → ℕ → CycleState
unfolding r1
new_cycle t₀ low now s = record {
  started_at = t₀;
  start_humid = r1 low;
  detected_at = now;
  peak = s;
  max_until = now + max_window_sec;
  dry_target = none;
  dry_reached_at = none;
  status = open_;
  offline_sec = 0;
  merged_count = 0;
  vent_delay_fired = false;
  vent_delay_closed = false;
  mist_gap_fired = false;
  mist_gap_closed = false;
}

unfoldable pub merge : ℕ → ℕ → CycleState → CycleState
merge now s prev = record prev {
  detected_at = now;
  max_until = now + max_window_sec;
  dry_target = none;
  merged_count = suc prev.merged_count;
  peak = max prev.peak s;
}

-- The previous cycle, as the new one ends it.
unfoldable pub finish : CycleState → CycleState
finish prev = record prev {
  status = if is_open prev.status then not_reached else prev.status;
  vent_delay_closed = prev.vent_delay_fired || prev.vent_delay_closed;
  mist_gap_closed = prev.mist_gap_fired || prev.mist_gap_closed;
}

abbrev pub when : Bool → CycleOp → List CycleOp
when true op = op ∷ []
when false op = []

unfoldable pub finish_ops : ℕ → ℕ → CycleState → List CycleOp
unfolding finish
finish_ops t₀ s prev =
    let ended = previous (finish prev) in
    when (is_open prev.status) (record { op = missed; at = t₀; cycle = ended; value = s })
    ++ (when (prev.vent_delay_fired && not prev.vent_delay_closed)
          (record { op = vent_delay_close next_event; at = t₀; cycle = ended; value = s })
        ++ when (prev.mist_gap_fired && not prev.mist_gap_closed)
            (record { op = mist_gap_close; at = t₀; cycle = ended; value = s }))

abbrev pub Detected : Type 0
Detected = Option CycleState × List CycleOp

abbrev pub opening : ℕ → ℕ → CycleOp
opening t₀ s = record { op = opened; at = t₀; cycle = this; value = s }

abbrev pub is_mergeable : CycleState → ℕ → Bool
is_mergeable prev now = is_open prev.status && leb now (prev.started_at + merge_sec)

-- A rise from the lowest value `low` at `t₀`.
unfoldable pub on_rise : ℕ → ℕ → ℕ → ℕ → Option CycleState → Detected
unfolding new_cycle merge finish_ops
on_rise now s t₀ low none = (some (new_cycle t₀ low now s), opening t₀ s ∷ [])
on_rise now s t₀ low (some prev) =
    if ltb t₀ prev.max_until
    then (some prev, [])
    else if is_mergeable prev now
    then (some (merge now s prev), record { op = merged; at = now; cycle = this; value = s } ∷ [])
    else (some (new_cycle t₀ low now s), opening t₀ s ∷ finish_ops t₀ s prev)

abbrev pub detect_over : ℕ → ℕ → Option (ℕ × ℕ) → Option CycleState → Detected
detect_over now s none cycle = (cycle, [])
detect_over now s (some (t₀, low)) cycle =
    if is_rise low s then on_rise now s t₀ low cycle else (cycle, [])

unfoldable pub detect : ℕ → ℕ → Window → Window → Option ℕ → Option CycleState → Detected
unfolding oldest on_rise
detect now s raw mins hist_start cycle =
    if is_ready raw hist_start now then detect_over now s (oldest mins) cycle else (cycle, [])
