-- ===== src/Scheduling/Tests.antt =====
-- backend/scheduling.py: runs on concrete plans, and the theorems at concrete inputs.
use terra_server.Common.{ℕ, ◌+◌, ◌*◌, ◌≡◌, refl, inr, some, [], ◌∷◌, arith}
use terra_server.Common.Clock.{seconds}
use terra_server.Scheduling.{
  Run, at, value_error, Plan, contains, on_day, runs_on, next_from, prev_from, compute_next_run,
  compute_prev_run, day_length,
}
use terra_server.Scheduling.Search.{IsProper}
use terra_server.Scheduling.NextRun.{IsNext, compute_next_run-IsNext}
use terra_server.Scheduling.PrevRun.{IsPrev, compute_prev_run-IsPrev}

-- Eight in the morning on Tuesdays and Fridays.
abbrev mornings : Plan
mornings = record { kind = "weekly"; time_of_day = seconds 28800; days_of_week = some (2 ∷ 5 ∷ []) }

next : ℕ → Plan → Run
unfolding compute_next_run next_from runs_on on_day contains
next now p = compute_next_run now p

prev : ℕ → Plan → Run
unfolding compute_prev_run prev_from runs_on on_day contains
prev now p = compute_prev_run now p

-- Eight in Korea is 23:00 in UTC of the day before.
tuesday : next (14 * day_length) mornings ≡ at (14 * day_length + seconds 82800)
unfolding next
tuesday = refl

friday : next (14 * day_length + seconds 82800) mornings ≡ at (17 * day_length + seconds 82800)
unfolding next
friday = refl

still_tuesday : prev (17 * day_length) mornings ≡ at (14 * day_length + seconds 82800)
unfolding prev
still_tuesday = refl

no_days : next (seconds 5) (record mornings { days_of_week = some [] }) ≡ value_error
unfolding next
no_days = refl

mornings-IsProper : IsProper mornings
unfolding on_day contains
mornings-IsProper = record {
  time = omega arith;
  valid = refl;
  names = inr (2, (omega arith, omega arith, refl));
}

compute_next_run-IsNext_example :
    IsNext mornings (14 * day_length) (compute_next_run (14 * day_length) mornings)
compute_next_run-IsNext_example =
    compute_next_run-IsNext (14 * day_length) mornings mornings-IsProper

compute_prev_run-IsPrev_example :
    IsPrev mornings (17 * day_length) (compute_prev_run (17 * day_length) mornings)
compute_prev_run-IsPrev_example =
    compute_prev_run-IsPrev (17 * day_length) mornings (omega arith) mornings-IsProper
