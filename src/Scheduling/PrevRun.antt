-- ===== src/Scheduling/PrevRun.antt =====
-- `compute_prev_run` of backend/scheduling.py finds the latest run that is not ahead.
use terra_server.Common.{
  ℕ, zero, suc, ◌+◌, ◌-◌, ◌≤◌, ◌<◌, ◌≡◌, refl, sym, subst, true, inl, inr, ltb, leb, if_rule,
  Bool-cases, arith,
}
use terra_server.Common.Clock.{seconds}
use terra_server.Scheduling.{
  Run, at, value_error, runtime_error, Plan, is_valid, day_length, to_kst, to_utc, date_of, combine,
  runs_on, prev_from, compute_prev_run,
}
use terra_server.Scheduling.Search.{Occurs, IsProper, combine-Occurs, Occurs-combine, lately}

-- An offset at which the search stops.
abbrev Hit : Plan → ℕ → ℕ → Type 0
Hit p local k =
    (combine (date_of local - k) p.time_of_day ≤ local) × (runs_on p (date_of local - k) ≡ true)

-- What a search from `offset` came to: it stopped at the first hit.
abbrev Found : Plan → ℕ → ℕ → Run → Type 0
Found p local offset (at r) =
    (k : ℕ) × ((offset ≤ k)
      × Hit p local k
      × (r ≡ to_utc (combine (date_of local - k) p.time_of_day))
      × ((j : ℕ) → offset ≤ j → Hit p local j → k ≤ j))
Found p local offset value_error = ⊥
Found p local offset runtime_error = ⊥

not_here :
    (p : Plan) (local offset j : ℕ)
    → ¬ Hit p local offset
    → Hit p local j
    → offset ≤ j
    → suc offset ≤ j
not_here p local offset j miss h l = elim (Bool-cases (leb j offset)) [
  | inl e ↦ let same : j ≡ offset = ground arith in absurd (miss (subst (Hit p local) same h))
  | inr e ↦ ground arith
]

miss-Found :
    (p : Plan) (local offset : ℕ) (run : Run)
    → ¬ Hit p local offset
    → Found p local (suc offset) run
    → Found p local offset run
miss-Found p local offset (at r) miss (k, (le, hit, eq, first)) =
    (k, (omega arith, hit, eq, λ j l h. first j (not_here p local offset j miss h l) h))
miss-Found p local offset value_error miss x = x
miss-Found p local offset runtime_error miss x = x

prev_from-Found :
    (n : ℕ) (offset : ℕ) (p : Plan) (local : ℕ) (k : ℕ)
    → offset ≤ k
    → k < offset + n
    → Hit p local k
    → Found p local offset (prev_from n offset p local)
unfolding prev_from
prev_from-Found zero offset p local k lo hi h = absurd (omega arith)
prev_from-Found (suc n) offset p local k lo hi h =
    let skip : ¬ Hit p local offset → Found p local offset (prev_from n (suc offset) p local) =
      λ miss. miss-Found p local offset (prev_from n (suc offset) p local) miss (
        prev_from-Found n (suc offset) p local k (not_here p local offset k miss h lo) (omega arith)
          h) in
    if_rule (Found p local offset) (ltb local (combine (date_of local - offset) p.time_of_day))
      (λ e. skip (λ x. let c = x.0 in ground arith))
      (λ e.
        if_rule (Found p local offset) (runs_on p (date_of local - offset))
          (λ f. (offset, (ground arith, (ground arith, f), refl, λ j l x. l)))
          (λ f. skip (λ x. let c = x.1 in ground arith)))

-- The latest run up to an instant.
abbrev pub IsPrev : Plan → ℕ → Run → Type 0
IsPrev p now (at r) = (r ≤ now) × Occurs p r × ((x : ℕ) → Occurs p x → x ≤ now → x ≤ r)
IsPrev p now value_error = ⊥
IsPrev p now runtime_error = ⊥

-- A run behind is at one of the offsets, or beyond them all.
last-le :
    (p : Plan) (now k x : ℕ)
    → p.time_of_day < day_length
    → ((j : ℕ) → 0 ≤ j → Hit p (to_kst now) j → k ≤ j)
    → Occurs p x
    → x ≤ now
    → x ≤ to_utc (combine (date_of (to_kst now) - k) p.time_of_day)
last-le p now k x small first o l =
    let e = Occurs-combine p x o in
    let j = date_of (to_kst now) - date_of (to_kst x) in
    let here : date_of (to_kst now) - j ≡ date_of (to_kst x) = omega arith in
    let least =
      first j (omega arith) (omega arith, subst (λ d. runs_on p d ≡ true) (sym here) o.day) in
    omega arith

Found-IsPrev :
    (p : Plan) (now : ℕ) (run : Run) (b : ℕ)
    → seconds 777600 ≤ now
    → p.time_of_day < day_length
    → b ≤ 7
    → Hit p (to_kst now) b
    → Found p (to_kst now) 0 run
    → IsPrev p now run
Found-IsPrev p now (at r) b past small seven h (k, (le, (behind, on), eq, first)) =
    let near = first b (omega arith) h in
    subst (λ x. IsPrev p now (at x)) (sym eq)
      (
        omega arith,
        combine-Occurs p (date_of (to_kst now) - k) small (omega arith) on,
        λ x o l. last-le p now k x small first o l,
      )
Found-IsPrev p now value_error b past small seven h x = x
Found-IsPrev p now runtime_error b past small seven h x = x

-- For a proper plan, at least nine days after the origin, `compute_prev_run` returns a run; it does
-- not lie ahead, the schedule runs at that instant, and at no instant between it and now.
pub compute_prev_run-IsPrev :
    (now : ℕ) (p : Plan) → seconds 777600 ≤ now → IsProper p → IsPrev p now (compute_prev_run now p)
unfolding compute_prev_run
compute_prev_run-IsPrev now p past h =
    let (k, (lo, hi, on)) = lately p (date_of (to_kst now)) (omega arith) h in
    let small = h.time in
    let valid = h.valid in
    if_rule (IsPrev p now) (is_valid p)
      (λ v.
        Found-IsPrev p now (prev_from 8 0 p (to_kst now)) k past small hi (omega arith, on)
          (prev_from-Found 8 0 p (to_kst now) k (omega arith) (omega arith) (omega arith, on)))
      (λ v. ground arith)
