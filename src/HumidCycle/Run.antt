-- ===== src/HumidCycle/Run.antt =====
-- An uninterrupted run of samples, newest first, from a tracker with empty windows.
use terra_server.Common.{
  ℕ, ◌+◌, ◌≤◌, ◌<◌, ◌≡◌, refl, ap, ◌∙◌, arith, Bool, false, Option, none, some, List, [], ◌∷◌, ◌++◌,
  if◌then◌else◌, All,
}
use terra_server.HumidCycle.{
  CycleState, Window, HumidCycleTracker, CycleOp, smooth_sec, rise_window_sec, gap_sec, new,
}
use terra_server.HumidCycle.Windows.{smooth}
use terra_server.HumidCycle.Detect.{oldest}
use terra_server.HumidCycle.Step.{
  step, resume, sample, clear, is_repeated, is_set_back, after_gap, gap_of,
}
use terra_server.HumidCycle.Deque.{recent, lowest, IsFalling}
use terra_server.HumidCycle.Lowest.{feed, medians, newest, feed_raw, oldest-feed}

-- The tracker after the samples.
unfoldable pub run : Option CycleState → Window → HumidCycleTracker
unfolding step
run c [] = new c none
run c ((now, humid) ∷ h) = (step now (some humid) (run c h)).0

abbrev pub Follows : ℕ × ℕ → Window → Type 0
Follows x [] = Unit {0}
Follows x (y ∷ h) = (y.0 < x.0) × (x.0 ≤ y.0 + gap_sec)

-- Each sample comes after the one before it, and at most a minute later.
unfoldable pub IsUnbroken : Window → Type 0
IsUnbroken [] = Unit
IsUnbroken (x ∷ h) = Follows x h × IsUnbroken h

All-older : (s t : ℕ) (h : Window) → s ≤ t → All (λ y. y.0 ≤ s) h → All (λ y. y.0 ≤ t) h
All-older s t [] l a = tt
All-older s t (y ∷ h) l (a, hs) = (omega arith, All-older s t h l hs)

Follows-All : (x : ℕ × ℕ) (h : Window) → Follows x h → IsFalling h → All (λ y. y.0 ≤ x.0) h
unfolding IsFalling
Follows-All x [] u f = tt
Follows-All x (y ∷ h) u (a, f) =
    let first : y.0 ≤ x.0 = omega (arith, u.0) in (first, All-older y.0 x.0 h first a)

Unbroken-IsFalling : (h : Window) → IsUnbroken h → IsFalling h
unfolding IsFalling IsUnbroken
Unbroken-IsFalling [] u = tt
Unbroken-IsFalling (x ∷ h) (u, us) =
    let rest = Unbroken-IsFalling h us in (Follows-All x h u rest, rest)

abbrev last_of : Window → Option ℕ
last_of [] = none
last_of (x ∷ h) = some x.0

not_repeated : (x : ℕ × ℕ) (h : Window) → Follows x h → is_repeated (last_of h) x.0 ≡ false
not_repeated x [] u = refl
not_repeated x (y ∷ h) u = let l = u.0 in ground arith

abbrev resumed : ℕ → ℕ → HumidCycleTracker → Option ℕ → HumidCycleTracker × List CycleOp
unfolding clear
resumed now humid t last =
    if is_set_back last now then (clear t, []) else after_gap now humid (gap_of last now) t

resumed-last_of :
    (x : ℕ × ℕ) (t : HumidCycleTracker) (h : Window)
    → Follows x h
    → resumed x.0 x.1 t (last_of h) ≡ (t, [])
unfolding resumed
resumed-last_of x t [] u = refl
resumed-last_of x t (y ∷ h) u = let l = u.0 in let g = u.1 in ground arith

resume-last_of :
    (x : ℕ × ℕ) (t : HumidCycleTracker) (h : Window)
    → Follows x h
    → t.last_at ≡ last_of h
    → resume x.0 x.1 t ≡ (t, [])
unfolding resume resumed
resume-last_of x t h u e = ap (resumed x.0 x.1 t) e ∙ resumed-last_of x t h u

-- A sample that follows the run goes straight to the windows.
step-sample :
    (x : ℕ × ℕ) (t : HumidCycleTracker) (h : Window)
    → Follows x h
    → t.last_at ≡ last_of h
    → step x.0 (some x.1) t ≡ sample x.0 x.1 t
unfolding step
step-sample x t h u e =
    let whole : Bool → HumidCycleTracker × List CycleOp → HumidCycleTracker × List CycleOp = λ b r.
      let next = sample x.0 x.1 r.0 in
      let rest : HumidCycleTracker × List CycleOp = (next.0, r.1 ++ next.1) in
      if b then (t, []) else rest in
    ap (λ b. whole b (resume x.0 x.1 t)) (ap (λ l. is_repeated l x.0) e ∙ not_repeated x h u)
    ∙ ap (whole false) (resume-last_of x t h u e)

sample-last_at : (x : ℕ × ℕ) (t : HumidCycleTracker) → (sample x.0 x.1 t).0.last_at ≡ some x.0
unfolding sample
sample-last_at x t = refl

sample_raw :
    (x : ℕ × ℕ) (t : HumidCycleTracker)
    → (sample x.0 x.1 t).0.raw ≡ (smooth x.0 x.1 t.raw t.mins).raw
unfolding sample
sample_raw x t = refl

sample_mins :
    (x : ℕ × ℕ) (t : HumidCycleTracker)
    → (sample x.0 x.1 t).0.mins ≡ (smooth x.0 x.1 t.raw t.mins).mins
unfolding sample
sample_mins x t = refl

run-last_at : (c : Option CycleState) (h : Window) → IsUnbroken h → (run c h).last_at ≡ last_of h
unfolding run IsUnbroken
run-last_at c [] u = refl
run-last_at c (x ∷ h) (u, us) =
    ap (λ r. r.0.last_at) (step-sample x (run c h) h u (run-last_at c h us))
    ∙ sample-last_at x (run c h)

run_windows :
    (c : Option CycleState) (h : Window)
    → IsUnbroken h
    → ((run c h).raw ≡ (feed h).raw) × ((run c h).mins ≡ (feed h).mins)
unfolding run feed IsUnbroken
run_windows c [] u = (refl, refl)
run_windows c (x ∷ h) (u, us) =
    let t = run c h in
    let whole = step-sample x t h u (run-last_at c h us) in
    let (raw, mins) = run_windows c h us in
    (
      ap (λ r. r.0.raw) whole
          ∙ sample_raw x t
          ∙ ap (λ w. (smooth x.0 x.1 w t.mins).raw) raw
          ∙ ap (λ w. (smooth x.0 x.1 (feed h).raw w).raw) mins,
      ap (λ r. r.0.mins) whole
          ∙ sample_mins x t
          ∙ ap (λ w. (smooth x.0 x.1 w t.mins).mins) raw
          ∙ ap (λ w. (smooth x.0 x.1 (feed h).raw w).mins) mins,
    )

-- After every run of samples (newest first), each later than the one before it by at most a
-- minute, from empty windows and whatever cycle: the raw deque holds exactly the samples of the
-- last 30 seconds, and the head of the deque of minimums is the lowest value of the last 180
-- seconds (the latest of equal ones), where the value at a sample is the median of the raw values
-- of the 30 seconds before it.
pub run_lem :
    (c : Option CycleState) (h : Window)
    → IsUnbroken h
    → ((run c h).raw ≡ recent smooth_sec (newest h) h)
      × (oldest (run c h).mins ≡ lowest (recent rise_window_sec (newest h) (medians h)))
run_lem c h u =
    let falling = Unbroken-IsFalling h u in
    let (raw, mins) = run_windows c h u in
    (raw ∙ feed_raw h falling, ap oldest mins ∙ oldest-feed h falling)
