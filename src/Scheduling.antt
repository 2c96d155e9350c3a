-- ===== src/Scheduling.antt =====
-- backend/scheduling.py: when a schedule runs next, and when it last ran. An instant is a number of
-- microseconds after a midnight in UTC that began a Monday; a wall clock time in Korea is an instant
-- nine hours on, the offset of the zone since 1988.
pub mod Search
pub mod NextRun
pub mod PrevRun
pub mod TimeOfDay
pub mod Runner
mod Tests
use terra_server.Common.{
  ℕ, zero, suc, ◌+◌, ◌-◌, ◌*◌, ◌/◌, ◌%◌, String, Bool, true, false, not, ◌&&◌, ◌||◌, Option, none,
  some, List, [], ◌∷◌, ltb, leb, ◌==◌, if◌then◌else◌,
}
use terra_server.Common.Clock.{seconds}
use terra_server.Common.Text.{str_eq}

abbrev pub kst_offset : ℕ
kst_offset = seconds 32400

abbrev pub day_length : ℕ
day_length = seconds 86400

-- A run, the `ValueError` of a bad schedule, or the `RuntimeError` at the end of the search.
pub data Run : Type 0 where
  at : ℕ → Run
  value_error runtime_error : Run

pub record Plan : Type 0 where
  pub kind : String
  pub time_of_day : ℕ
  pub days_of_week : Option (List ℕ)

abbrev pub is_weekly : Plan → Bool
is_weekly p = str_eq p.kind "weekly"

abbrev pub is_daily : Plan → Bool
is_daily p = str_eq p.kind "daily"

abbrev pub has_days : Option (List ℕ) → Bool
has_days none = false
has_days (some []) = false
has_days (some (d ∷ ds)) = true

unfoldable pub contains : List ℕ → ℕ → Bool
contains [] x = false
contains (d ∷ ds) x = x == d || contains ds x

unfoldable pub on_day : Option (List ℕ) → ℕ → Bool
unfolding contains
on_day none x = false
on_day (some ds) x = contains ds x

abbrev pub to_kst : ℕ → ℕ
to_kst now = now + kst_offset

-- The `date` of a wall clock time, as a day number.
abbrev pub date_of : ℕ → ℕ
date_of local = local / day_length

abbrev pub isoweekday : ℕ → ℕ
isoweekday day = day % 7 + 1

abbrev pub combine : ℕ → ℕ → ℕ
combine day tod = day * day_length + tod

abbrev pub to_utc : ℕ → ℕ
to_utc local = local - kst_offset

-- Whether the schedule runs on a day at all.
unfoldable pub runs_on : Plan → ℕ → Bool
unfolding on_day
runs_on p day = is_daily p || on_day p.days_of_week (isoweekday day)

abbrev pub is_valid : Plan → Bool
is_valid p = (is_daily p || is_weekly p) && not (is_weekly p && not (has_days p.days_of_week))

-- The loop over the offsets of `compute_next_run`, the first argument counting those left.
unfoldable pub next_from : ℕ → ℕ → Plan → ℕ → Run
next_from zero offset p local = runtime_error
next_from (suc n) offset p local =
    let rest = next_from n (suc offset) p local in
    let day = date_of local + offset in
    let cand = combine day p.time_of_day in
    if leb cand local then rest else if runs_on p day then at (to_utc cand) else rest

unfoldable pub compute_next_run : ℕ → Plan → Run
unfolding next_from
compute_next_run now p = if is_valid p then next_from 8 0 p (to_kst now) else value_error

-- The loop of `compute_prev_run`.
unfoldable pub prev_from : ℕ → ℕ → Plan → ℕ → Run
prev_from zero offset p local = runtime_error
prev_from (suc n) offset p local =
    let rest = prev_from n (suc offset) p local in
    let day = date_of local - offset in
    let cand = combine day p.time_of_day in
    if ltb local cand then rest else if runs_on p day then at (to_utc cand) else rest

unfoldable pub compute_prev_run : ℕ → Plan → Run
unfolding prev_from
compute_prev_run now p = if is_valid p then prev_from 8 0 p (to_kst now) else value_error
