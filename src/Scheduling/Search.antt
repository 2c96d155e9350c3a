-- ===== src/Scheduling/Search.antt =====
-- The runs of a schedule as instants, and what its plan has to satisfy.
use terra_server.Common.{
  ℕ, ◌+◌, ◌-◌, ◌%◌, ◌≤◌, ◌<◌, ◌≡◌, true, ◌⊎◌, inl, inr, Option, List, subst, sym, arith,
}
use terra_server.Scheduling.{
  Plan, is_daily, is_valid, on_day, kst_offset, day_length, to_kst, date_of, isoweekday, combine,
  runs_on,
}

-- An instant at which a schedule runs: the time of day in Korea, on one of its days.
pub record Occurs (p : Plan) (x : ℕ) : Type 0 where
  pub time : to_kst x % day_length ≡ p.time_of_day
  pub day : runs_on p (date_of (to_kst x)) ≡ true

-- A time within a day, and a known kind; a weekly plan names a day of the week.
abbrev pub Names : Option (List ℕ) → Type 0
Names days = (d : ℕ) × ((1 ≤ d) × (d ≤ 7) × (on_day days d ≡ true))

pub record IsProper (p : Plan) : Type 0 where
  pub time : p.time_of_day < day_length
  pub valid : is_valid p ≡ true
  pub names : (is_daily p ≡ true) ⊎ Names p.days_of_week

pub combine-Occurs :
    (p : Plan) (day : ℕ)
    → p.time_of_day < day_length
    → kst_offset ≤ combine day p.time_of_day
    → runs_on p day ≡ true
    → Occurs p (combine day p.time_of_day - kst_offset)
combine-Occurs p day h one r =
    let same : date_of (to_kst (combine day p.time_of_day - kst_offset)) ≡ day = omega arith in
    record { time = omega arith; day = subst (λ x. runs_on p x ≡ true) (sym same) r }

-- Every run is the time of day on the date it falls on.
pub Occurs-combine :
    (p : Plan) (x : ℕ) → Occurs p x → to_kst x ≡ combine (date_of (to_kst x)) p.time_of_day
Occurs-combine p x h = let t = h.time in omega arith

-- The seven days that follow a day hold one on which a proper plan runs.
weekday_ahead : (day d : ℕ) → 1 ≤ d → d ≤ 7 → isoweekday (day + (1 + (d + 5 - day % 7) % 7)) ≡ d
weekday_ahead day d lo hi = omega arith

on_day-runs_on :
    (p : Plan) (day : ℕ) → on_day p.days_of_week (isoweekday day) ≡ true → runs_on p day ≡ true
unfolding runs_on
on_day-runs_on p day h = ground arith

daily-runs_on : (p : Plan) (day : ℕ) → is_daily p ≡ true → runs_on p day ≡ true
unfolding runs_on
daily-runs_on p day h = ground arith

pub soon :
    (p : Plan) (day : ℕ) → IsProper p → (k : ℕ) × ((1 ≤ k) × (k ≤ 7) × (runs_on p (day + k) ≡ true))
soon p day h = elim h.names [
  | inl d ↦ (1, (omega arith, omega arith, daily-runs_on p (day + 1) d))
  | inr (d, (lo, hi, on)) ↦ (
    1 + (d + 5 - day % 7) % 7,
    (
      omega arith,
      omega arith,
      on_day-runs_on p (day + (1 + (d + 5 - day % 7) % 7))
          (subst (λ x. on_day p.days_of_week x ≡ true) (sym (weekday_ahead day d lo hi)) on),
    ),
  )
]

-- The seven days before a day.
weekday_behind :
    (day d : ℕ) → 8 ≤ day → 1 ≤ d → d ≤ 7 → isoweekday (day - (1 + (day + 7 - d) % 7)) ≡ d
weekday_behind day d e lo hi = omega arith

pub lately :
    (p : Plan) (day : ℕ)
    → 8 ≤ day
    → IsProper p
    → (k : ℕ) × ((1 ≤ k) × (k ≤ 7) × (runs_on p (day - k) ≡ true))
lately p day e h = elim h.names [
  | inl d ↦ (1, (omega arith, omega arith, daily-runs_on p (day - 1) d))
  | inr (d, (lo, hi, on)) ↦ (
    1 + (day + 7 - d) % 7,
    (
      omega arith,
      omega arith,
      on_day-runs_on p (day - (1 + (day + 7 - d) % 7))
          (subst (λ x. on_day p.days_of_week x ≡ true) (sym (weekday_behind day d e lo hi)) on),
    ),
  )
]
