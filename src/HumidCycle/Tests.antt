-- ===== src/HumidCycle/Tests.antt =====
-- backend/humid_cycle.py: a mist that is aired and dries, and the theorems at concrete inputs.
use terra_server.Common.{
  ℕ, ◌+◌, ◌*◌, ◌≡◌, refl, arith, true, Option, none, some, List, [], ◌∷◌, map,
}
use terra_server.Common.Clock.{seconds}
use terra_server.HumidCycle.{
  Window, OpName, opened, max_fixed, dry_reached, offline, new, smooth_sec, rise_window_sec,
}
use terra_server.HumidCycle.Detect.{oldest}
use terra_server.HumidCycle.Deque.{recent, lowest}
use terra_server.HumidCycle.Lowest.{medians, newest}
use terra_server.HumidCycle.Run.{run, run_lem, IsUnbroken}
use terra_server.HumidCycle.Balance.{openings, begins, ends, live, count, sound_of}
use terra_server.HumidCycle.Ends.{steps, steps_lem}

abbrev at : ℕ → ℕ → ℕ × Option ℕ
at t percent = (seconds t, some (percent * 100))

-- 30 % for a minute, then wet, then dry again.
abbrev samples : List (ℕ × Option ℕ)
samples =
    at 100 30
    ∷ at 120 30
    ∷ at 140 30
    ∷ at 160 30
    ∷ at 170 30
    ∷ (seconds 175, none)
    ∷ at 180 80
    ∷ at 185 80
    ∷ at 190 80
    ∷ at 195 80
    ∷ at 200 80
    ∷ at 250 80
    ∷ at 300 80
    ∷ at 350 80
    ∷ at 400 80
    ∷ at 405 80
    ∷ at 700 60
    ∷ []

emitted : List OpName
unfolding steps
emitted = map (λ o. o.op) (steps samples (new none none)).1

dries : emitted ≡ opened ∷ max_fixed ∷ offline ∷ dry_reached ∷ []
unfolding emitted
dries = refl

steps_lem_example :
    (sound_of (steps samples (new none none)).0.cycle ≡ true)
    × (live openings none + count (begins openings) (steps samples (new none none)).1
        ≡ count (ends openings) (steps samples (new none none)).1
          + live openings (steps samples (new none none)).0.cycle)
steps_lem_example = steps_lem openings samples (new none none) refl

-- Newest first.
abbrev history : Window
history =
    (seconds 160, 4000)
    ∷ (seconds 150, 5000)
    ∷ (seconds 140, 3000)
    ∷ (seconds 120, 3100)
    ∷ (seconds 100, 3000)
    ∷ []

unbroken : IsUnbroken history
unfolding IsUnbroken
unbroken = (
  (omega arith, omega arith),
  (
    (omega arith, omega arith),
    ((omega arith, omega arith), ((omega arith, omega arith), (tt, tt))),
  ),
)

lowest_is :
    lowest (recent rise_window_sec (newest history) (medians history)) ≡ some (seconds 100, 6000)
unfolding lowest recent medians
lowest_is = refl

run_lem_example :
    ((run none history).raw ≡ recent smooth_sec (newest history) history)
    × (oldest (run none history).mins
        ≡ lowest (recent rise_window_sec (newest history) (medians history)))
run_lem_example = run_lem none history unbroken
