-- ===== src/Scheduling/NextRun.antt =====
-- `compute_next_run` of backend/scheduling.py finds the nearest run ahead.
use terra_server.Common.{
  ℕ, zero, suc, ◌+◌, ◌-◌, ◌≤◌, ◌<◌, ◌≡◌, refl, sym, subst, true, inl, inr, leb, if_rule, Bool-cases,
  arith,
}
use terra_server.Scheduling.{
  Run, at, value_error, runtime_error, Plan, is_valid, day_length, to_kst, to_utc, date_of, combine,
  runs_on, next_from, compute_next_run,
}
use terra_server.Scheduling.Search.{Occurs, IsProper, combine-Occurs, Occurs-combine, soon}

-- An offset at which the search stops.
abbrev Hit : Plan → ℕ → ℕ → Type 0
Hit p local k =
    (local < combine (date_of local + k) p.time_of_day) × (runs_on p (date_of local + k) ≡ true)

-- What a search from `offset` came to: it stopped at the first hit.
abbrev Found : Plan → ℕ → ℕ → Run → Type 0
Found p local offset (at r) =
    (k : ℕ) × ((offset ≤ k)
      × Hit p local k
      × (r ≡ to_utc (combine (date_of local + k) p.time_of_day))
      × ((j : ℕ) → offset ≤ j → Hit p local j → k ≤ j))
Found p local offset value_error = ⊥
Found p local offset runtime_error = ⊥

not_here :
    (p : Plan) (local offset j : ℕ)
    → ¬ Hit p local offset
    → Hit p local j
    → offset ≤ j
    → suc offset ≤ j
not_here p local offset j miss h l = elim (Bool-cases (leb j offset)) [
  | inl e ↦ let same : j ≡ offset = ground arith in absurd (miss (subst (Hit p local) same h))
  | inr e ↦ ground arith
]

miss-Found :
    (p : Plan) (local offset : ℕ) (run : Run)
    → ¬ Hit p local offset
    → Found p local (suc offset) run
    → Found p local offset run
miss-Found p local offset (at r) miss (k, (le, hit, eq, first)) =
    (k, (omega arith, hit, eq, λ j l h. first j (not_here p local offset j miss h l) h))
miss-Found p local offset value_error miss x = x
miss-Found p local offset runtime_error miss x = x

next_from-Found :
    (n : ℕ) (offset : ℕ) (p : Plan) (local : ℕ) (k : ℕ)
    → offset ≤ k
    → k < offset + n
    → Hit p local k
    → Found p local offset (next_from n offset p local)
unfolding next_from
next_from-Found zero offset p local k lo hi h = absurd (omega arith)
next_from-Found (suc n) offset p local k lo hi h =
    let skip : ¬ Hit p local offset → Found p local offset (next_from n (suc offset) p local) =
      λ miss. miss-Found p local offset (next_from n (suc offset) p local) miss (
        next_from-Found n (suc offset) p local k (not_here p local offset k miss h lo) (omega arith)
          h) in
    if_rule (Found p local offset) (leb (combine (date_of local + offset) p.time_of_day) local)
      (λ e. skip (λ x. let c = x.0 in ground arith))
      (λ e.
        if_rule (Found p local offset) (runs_on p (date_of local + offset))
          (λ f. (offset, (ground arith, (ground arith, f), refl, λ j l x. l)))
          (λ f. skip (λ x. let c = x.1 in ground arith)))

-- The nearest run after an instant.
abbrev pub IsNext : Plan → ℕ → Run → Type 0
IsNext p now (at r) = (now < r) × Occurs p r × ((x : ℕ) → Occurs p x → now < x → r ≤ x)
IsNext p now value_error = ⊥
IsNext p now runtime_error = ⊥

-- A run ahead is at one of the offsets, or beyond them all.
first-le :
    (p : Plan) (now k x : ℕ)
    → p.time_of_day < day_length
    → ((j : ℕ) → 0 ≤ j → Hit p (to_kst now) j → k ≤ j)
    → Occurs p x
    → now < x
    → to_utc (combine (date_of (to_kst now) + k) p.time_of_day) ≤ x
first-le p now k x small first o l =
    let e = Occurs-combine p x o in
    let j = date_of (to_kst x) - date_of (to_kst now) in
    let here : date_of (to_kst now) + j ≡ date_of (to_kst x) = omega arith in
    let least =
      first j (omega arith) (omega arith, subst (λ d. runs_on p d ≡ true) (sym here) o.day) in
    omega arith

Found-IsNext :
    (p : Plan) (now : ℕ) (run : Run)
    → p.time_of_day < day_length
    → Found p (to_kst now) 0 run
    → IsNext p now run
Found-IsNext p now (at r) small (k, (le, (ahead, on), eq, first)) =
    subst (λ x. IsNext p now (at x)) (sym eq)
      (
        omega arith,
        combine-Occurs p (date_of (to_kst now) + k) small (omega arith) on,
        λ x o l. first-le p now k x small first o l,
      )
Found-IsNext p now value_error small x = x
Found-IsNext p now runtime_error small x = x

-- For a proper plan `compute_next_run` returns a run; it lies strictly ahead, the schedule runs at
-- that instant, and at miss instant between.
pub compute_next_run-IsNext :
    (now : ℕ) (p : Plan) → IsProper p → IsNext p now (compute_next_run now p)
unfolding compute_next_run
compute_next_run-IsNext now p h =
    let (k, (lo, hi, on)) = soon p (date_of (to_kst now)) h in
    let small = h.time in
    let valid = h.valid in
    if_rule (IsNext p now) (is_valid p)
      (λ v.
        Found-IsNext p now (next_from 8 0 p (to_kst now)) small
          (next_from-Found 8 0 p (to_kst now) k (omega arith) (omega arith) (omega arith, on)))
      (λ v. ground arith)
