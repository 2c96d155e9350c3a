-- ===== src/LiveSession/Tests.antt =====
-- backend/live_session.py: runs on concrete rows, and the theorems at concrete inputs.
use terra_server.Common.{ℕ, ◌+◌, ◌<◌, ◌≡◌, refl, true, false, some, none, List, [], ◌∷◌, arith}
use terra_server.Common.Clock.{seconds}
use terra_server.Common.Text.{strip, lstrip, is_space}
use terra_server.LiveSession.{
  Camera, Request, Answer, cooling, busy, claimed, live_max_sec, live_cooldown_sec, other_label,
  blank, retry, label_of, clock_start, start_claim, contend, claim, release, expire, expire_rows,
  expire_due,
}
use terra_server.LiveSession.Laws.{Settled, claim_settles}
use terra_server.LiveSession.Limit.{
  Event, ask, close, reap, apply, apply_all, begun, closed, carries_on, expire-rests, claim-Viewing,
}

abbrev phone : Request
phone = record {
  session_id = "s1";
  viewer_id = some "phone";
  viewer_label = none;
  takeover = false;
}

abbrev tablet : Request
tablet = record {
  session_id = "s2";
  viewer_id = some "tablet";
  viewer_label = none;
  takeover = false;
}

-- The answer to a claim after a list of events.
answered : List (ℕ × Event) → Request → ℕ → Answer
unfolding apply_all apply claim contend start_claim release expire clock_start label_of strip lstrip
    is_space retry
answered es r now = (claim r now (apply_all es blank)).1

first_claim : answered [] phone (seconds 100) ≡ claimed none (seconds 1000)
unfolding answered
first_claim = refl

other_viewer_waits :
    answered ((seconds 100, ask phone) ∷ []) tablet (seconds 200)
    ≡ busy other_label (some (seconds 100))
unfolding answered
other_viewer_waits = refl

reopened :
    answered ((seconds 100, ask phone) ∷ (seconds 300, close "s1" "left") ∷ []) tablet (seconds 359)
    ≡ claimed none (seconds 1000)
unfolding answered
reopened = refl

restarted :
    answered ((seconds 100, ask phone) ∷ (seconds 300, close "s1" "left") ∷ []) tablet (seconds 360)
    ≡ claimed none (seconds 1260)
unfolding answered
restarted = refl

late_close :
    answered ((seconds 100, ask phone) ∷ (seconds 300, close "s0" "late") ∷ []) phone (seconds 400)
    ≡ claimed none (seconds 1000)
unfolding answered
late_close = refl

reaped_rests :
    answered ((seconds 100, ask phone) ∷ (seconds 1010, reap) ∷ []) phone (seconds 1300)
    ≡ cooling 10
unfolding answered
reaped_rests = refl

expire_all : ℕ → List Camera → ℕ
unfolding expire_due expire_rows expire
expire_all now cams = (expire_due now cams).1

abbrev viewed : Camera
viewed = record blank {
  live_session_id = some "s1";
  live_viewer_id = some "phone";
  live_started_at = some (seconds 100);
  stream_until = some (seconds 1000);
}

two_due : expire_all (seconds 1001) (viewed ∷ blank ∷ viewed ∷ []) ≡ 2
unfolding expire_all
two_due = refl

claim_settles_example :
    let (cam', a) = claim phone (seconds 300) viewed in Settled phone (seconds 300) viewed cam' a
claim_settles_example = claim_settles phone (seconds 300) viewed

expire-closes : (expire (some "s1") (seconds 1001) viewed).1 ≡ true
unfolding expire
expire-closes = refl

expire-rests_example :
    let cam' =
      apply_all ((seconds 1100, ask tablet) ∷ []) (expire (some "s1") (seconds 1001) viewed).0 in
    claim phone (seconds 1200) cam'
    ≡ (cam', cooling (retry (seconds 1001 + live_cooldown_sec) (seconds 1200)))
expire-rests_example =
    expire-rests (some "s1") (seconds 1001) viewed ((seconds 1100, ask tablet) ∷ []) phone
      (seconds 1200) expire-closes (omega arith, tt) (omega arith)

begins : (claim phone (seconds 100) blank).1 ≡ claimed none (seconds 1000)
unfolding claim start_claim clock_start
begins = refl

abbrev after_close : Camera
after_close = (release "s1" "left" (seconds 300) (claim phone (seconds 100) blank).0).0

carried_on : carries_on after_close (seconds 350) ≡ true
unfolding claim start_claim clock_start release
carried_on = refl

granted : (claim tablet (seconds 350) after_close).1 ≡ claimed none (seconds 1000)
unfolding claim start_claim clock_start release
granted = refl

claim-Viewing_example :
    (seconds 1000 ≡ seconds 100 + live_max_sec) × (seconds 350 < seconds 100 + live_max_sec)
claim-Viewing_example =
    claim-Viewing (seconds 100) (seconds 350) tablet after_close none (seconds 1000)
      (closed (seconds 300) "s1" "left" (claim phone (seconds 100) blank).0
        (begun phone blank none (seconds 1000) refl begins))
      carried_on granted
