-- ===== src/HumidCycle/Sound.antt =====
-- What holds of a cycle's flags at all times.
use terra_server.Common.{ℕ, ◌≡◌, refl, arith, Bool, true, not, ◌&&◌, ◌||◌, is_some}
use terra_server.HumidCycle.{CycleState}
use terra_server.HumidCycle.Detect.{is_open, is_reached, new_cycle, merge}
use terra_server.HumidCycle.Step.{judge_max, judge_dry, judge_delay, judge_stale, judge_gap}

abbrev implies : Bool → Bool → Bool
implies a b = not a || b

-- Only a fired alert is closed, the gap alert is fired on a cycle that got dry alone, and such a
-- cycle has its target and the time it was reached; an open one has no such time.
unfoldable pub is_sound : CycleState → Bool
is_sound c =
    implies c.vent_delay_closed c.vent_delay_fired
    && implies c.mist_gap_closed c.mist_gap_fired
    && implies c.mist_gap_fired (is_reached c.status)
    && implies (is_reached c.status) (is_some c.dry_target && is_some c.dry_reached_at)
    && implies (is_open c.status) (not (is_some c.dry_reached_at))

abbrev pub IsSound : CycleState → Type 0
IsSound c = is_sound c ≡ true

pub judge_max-IsSound : (now s : ℕ) (c : CycleState) → IsSound c → IsSound (judge_max now s c).0
unfolding is_sound judge_max
judge_max-IsSound now s c h = ground arith

pub judge_dry-IsSound : (now s : ℕ) (c : CycleState) → IsSound c → IsSound (judge_dry now s c).0
unfolding is_sound judge_dry
judge_dry-IsSound now s c h = ground arith

pub judge_delay-IsSound : (now s : ℕ) (c : CycleState) → IsSound c → IsSound (judge_delay now s c).0
unfolding is_sound judge_delay
judge_delay-IsSound now s c h = ground arith

pub judge_stale-IsSound : (now s : ℕ) (c : CycleState) → IsSound c → IsSound (judge_stale now s c).0
unfolding is_sound judge_stale
judge_stale-IsSound now s c h = ground arith

pub judge_gap-IsSound : (now s : ℕ) (c : CycleState) → IsSound c → IsSound (judge_gap now s c).0
unfolding is_sound judge_gap
judge_gap-IsSound now s c h = ground arith

-- A new cycle is sound.
pub new_cycle-IsSound : (t₀ low now s : ℕ) → IsSound (new_cycle t₀ low now s)
unfolding is_sound new_cycle
new_cycle-IsSound t₀ low now s = refl

-- So is an open one that a rise joins.
pub merge-IsSound :
    (now s : ℕ) (c : CycleState) → is_open c.status ≡ true → IsSound c → IsSound (merge now s c)
unfolding is_sound merge
merge-IsSound now s c o h = ground arith
