-- ===== src/HumidCycle/Lowest.antt =====
-- The windows of an uninterrupted run of samples, newest first: what the two deques hold.
use terra_server.Common.{ℕ, ◌≤◌, ◌≡◌, refl, sym, ap, ◌∙◌, arith, [], ◌∷◌, All}
use terra_server.HumidCycle.{Window, smooth_sec, rise_window_sec}
use terra_server.HumidCycle.Windows.{median, values, trim, pop_higher, Smoothed, smooth}
use terra_server.HumidCycle.Detect.{oldest}
use terra_server.HumidCycle.Deque.{
  recent, lowest, IsFalling, stack, trim-recent, recent-recent, pop-All, recent-All, recent-pop,
  recent-IsFalling, pop-IsFalling, stack-All, stack-IsFalling, oldest-stack,
}

-- The deques after the samples, from empty ones.
unfoldable pub feed : Window → Smoothed
unfolding smooth
feed [] = record { raw = []; mins = []; value = 0 }
feed ((now, humid) ∷ h) = let w = feed h in smooth now humid w.raw w.mins

-- Each sample's median over the 30 seconds before it.
unfoldable pub medians : Window → Window
unfolding median recent
medians [] = []
medians ((t, u) ∷ h) = (t, median (values (recent smooth_sec t ((t, u) ∷ h)))) ∷ medians h

medians-All : (P : ℕ → Type 0) (h : Window) → All (λ y. P y.0) h → All (λ y. P y.0) (medians h)
unfolding medians
medians-All P [] a = tt
medians-All P (x ∷ h) (a, hs) = (a, medians-All P h hs)

medians-IsFalling : (h : Window) → IsFalling h → IsFalling (medians h)
unfolding IsFalling medians
medians-IsFalling [] f = tt
medians-IsFalling (x ∷ h) (a, f) = (medians-All (λ t. t ≤ x.0) h a, medians-IsFalling h f)

-- The time of the newest sample.
abbrev pub newest : Window → ℕ
newest [] = 0
newest (x ∷ h) = x.0

newest_le : (t : ℕ) (h : Window) → All (λ y. y.0 ≤ t) h → newest h ≤ t
newest_le t [] a = omega arith
newest_le t (x ∷ h) (a, hs) = a

recent-cons :
    (sec s : ℕ) (x : ℕ × ℕ) (l : Window)
    → s ≤ x.0
    → recent sec x.0 (x ∷ recent sec s l) ≡ recent sec x.0 (x ∷ l)
unfolding recent
recent-cons sec s x l h = let same = recent-recent sec s x.0 l h in ground arith

-- A new sample on a deque that held a window.
trim_new :
    (sec s : ℕ) (x : ℕ × ℕ) (k l : Window)
    → s ≤ x.0
    → All (λ y. y.0 ≤ x.0) l
    → IsFalling l
    → k ≡ recent sec s l
    → trim sec x.0 (x ∷ k) ≡ recent sec x.0 (x ∷ l)
unfolding IsFalling
trim_new sec s x k l h a f e =
    ap (λ w. trim sec x.0 (x ∷ w)) e
    ∙ trim-recent sec x.0 (x ∷ recent sec s l)
        (recent-All (λ y. y.0 ≤ x.0) sec s l a, recent-IsFalling sec s l f)
    ∙ recent-cons sec s x l h

pub feed_raw : (h : Window) → IsFalling h → (feed h).raw ≡ recent smooth_sec (newest h) h
unfolding IsFalling feed smooth recent
feed_raw [] f = refl
feed_raw (x ∷ h) (a, f) =
    trim_new smooth_sec (newest h) x (feed h).raw h (newest_le x.0 h a) a f (feed_raw h f)

-- The smoothed value is the median of the last 30 seconds.
feed_value :
    (x : ℕ × ℕ) (h : Window)
    → IsFalling (x ∷ h)
    → (feed (x ∷ h)).value ≡ median (values (recent smooth_sec x.0 (x ∷ h)))
unfolding feed smooth
feed_value x h f = ap (λ w. median (values w)) (feed_raw (x ∷ h) f)

feed_mins :
    (h : Window)
    → IsFalling h
    → (feed h).mins ≡ recent rise_window_sec (newest h) (stack (medians h))
unfolding IsFalling feed smooth stack medians
feed_mins [] f = refl
feed_mins (x ∷ h) (a, f) =
    let s = (feed (x ∷ h)).value in
    let ms = stack (medians h) in
    let falling = stack-IsFalling (medians h) (medians-IsFalling h f) in
    let a' = stack-All (λ y. y.0 ≤ x.0) (medians h) (medians-All (λ t. t ≤ x.0) h a) in
    trim_new rise_window_sec (newest h) (x.0, s) (pop_higher s (feed h).mins) (pop_higher s ms)
      (newest_le x.0 h a) (pop-All (λ y. y.0 ≤ x.0) s ms a') (pop-IsFalling s ms falling)
      (ap (pop_higher s) (feed_mins h f) ∙ sym (recent-pop rise_window_sec (newest h) s ms falling))
    ∙ ap (λ v. recent rise_window_sec x.0 ((x.0, v) ∷ pop_higher v ms)) (feed_value x h (a, f))

pub oldest-feed :
    (h : Window)
    → IsFalling h
    → oldest (feed h).mins ≡ lowest (recent rise_window_sec (newest h) (medians h))
oldest-feed h f =
    ap oldest (feed_mins h f)
    ∙ oldest-stack rise_window_sec (newest h) (medians h) (medians-IsFalling h f)
