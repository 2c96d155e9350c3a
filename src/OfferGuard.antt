-- ===== src/OfferGuard.antt =====
-- backend/webrtc_offer_guard.py: the limit on WebRTC offers, per camera, in a sliding window. An
-- instant of the monotonic clock and the window are numbers of microseconds.
pub mod Laws
mod Tests
use terra_server.Common.{
  ℕ, zero, suc, ◌+◌, ◌-◌, ◌/◌, max, Bool, true, false, Option, none, some, List, [], ◌∷◌, ◌++◌, leb,
  ◌==◌, if◌then◌else◌, length,
}
use terra_server.Common.Clock.{seconds}

-- The accepted offers of a camera, the oldest first.
pub record OfferRateLimiter : Type 0 where
  pub limit : ℕ
  pub window_sec : ℕ
  pub hits : ℕ → List ℕ

abbrev pub default_limit_per_hour : ℕ
default_limit_per_hour = 60

-- `hits[0] <= now - window`
abbrev pub is_old : ℕ → ℕ → ℕ → Bool
is_old window now hit = leb (hit + window) now

unfoldable pub drop_old : ℕ → ℕ → List ℕ → List ℕ
drop_old window now [] = []
drop_old window now (hit ∷ hits) =
    let rest = drop_old window now hits in if is_old window now hit then rest else hit ∷ hits

-- Seconds until the oldest offer leaves the window, rounded up and at least 1.
abbrev pub retry_after : ℕ → ℕ → List ℕ → ℕ
retry_after window now [] = 0
retry_after window now (hit ∷ hits) = max 1 ((hit + window - now + 999999) / 1000000)

-- One camera's queue: the offers kept, and the refusal.
unfoldable pub check_hits : ℕ → ℕ → ℕ → List ℕ → List ℕ × Option ℕ
unfolding drop_old
check_hits limit window now hits =
    let kept = drop_old window now hits in
    if leb limit (length kept)
    then (kept, some (retry_after window now kept))
    else (kept ++ (now ∷ []), none)

abbrev pub set_hits : (ℕ → List ℕ) → ℕ → List ℕ → ℕ → List ℕ
set_hits hits camera queue c = if c == camera then queue else hits c

unfoldable pub check : OfferRateLimiter → ℕ → ℕ → OfferRateLimiter × Option ℕ
unfolding check_hits
check l camera now =
    if l.limit == 0
    then (l, none)
    else let (queue, answer) = check_hits l.limit l.window_sec now (l.hits camera) in
      (record l { hits = set_hits l.hits camera queue }, answer)
