-- ===== src/Scheduling/Runner/Idle.antt =====
-- A pass of `run_once` leaves nothing due, so that a schedule does not fire twice.
use terra_server.Common.{
  ℕ, zero, suc, ◌<◌, ◌≤◌, ◌≡◌, refl, sym, ap, subst, ◌∙◌, true, ◌⊎◌, inl, inr, some, List, [], ◌∷◌,
  leb, ◌==◌, if_rule, take, length, All, arith,
}
use terra_server.Scheduling.{Run, at, value_error, runtime_error, compute_next_run}
use terra_server.Scheduling.Search.{IsProper}
use terra_server.Scheduling.NextRun.{IsNext, compute_next_run-IsNext}
use terra_server.Scheduling.TimeOfDay.{parse_time_of_day}
use terra_server.Scheduling.Runner.{Row, World, Fired, fire_one, fire_at, plan_of, next_run}
use terra_server.Scheduling.Runner.Firing.{fire_advanced-advanced}
use terra_server.Scheduling.Runner.Pass.{
  is_due, due, insert_row, order_rows, select, advance, fire_all, run_once,
}

-- A row that can be advanced.
abbrev pub Ready : Row → Type 0
Ready row =
    (tod : ℕ) × ((parse_time_of_day row.time_of_day ≡ some tod) × IsProper (plan_of row tod))

abbrev HasId : ℕ → List Row → Type 0
HasId id [] = ⊥
HasId id (r ∷ rs) = (id ≡ r.id) ⊎ HasId id rs

-- Every row that is due has its id among `rows`.
abbrev Covers : ℕ → List Row → List Row → Type 0
Covers now rows [] = Unit
Covers now rows (r ∷ store) = (is_due now r ≡ true → HasId r.id rows) × Covers now rows store

Covers-mono :
    (now : ℕ) (rows rows' store : List Row)
    → ((id : ℕ) → HasId id rows → HasId id rows')
    → Covers now rows store
    → Covers now rows' store
Covers-mono now rows rows' [] f c = tt
Covers-mono now rows rows' (r ∷ store) f (h, c) =
    (λ d. f r.id (h d), Covers-mono now rows rows' store f c)

due-Covers : (now : ℕ) (store : List Row) → Covers now (due now store) store
unfolding due
due-Covers now [] = tt
due-Covers now (r ∷ store) =
    if_rule {A = List Row} (λ rows. Covers now rows (r ∷ store)) (is_due now r)
      (λ e. (
        λ d. inl refl,
        Covers-mono now (due now store) (r ∷ due now store) store (λ id h. inr h)
            (due-Covers now store),
      ))
      (λ e. (λ d. absurd (ground (arith, d, e)), due-Covers now store))

insert_row-HasId :
    (row : Row) (rows : List Row) (id : ℕ) → HasId id (row ∷ rows) → HasId id (insert_row row rows)
unfolding insert_row
insert_row-HasId row [] id h = h
insert_row-HasId row (r ∷ rows) id h =
    if_rule {A = List Row} (HasId id) (leb row.next_run_at r.next_run_at) (λ e. h)
      (λ e. elim h [
        | inl a ↦ inr (insert_row-HasId row rows id (inl a))
        | inr (inl b) ↦ inl b
        | inr (inr c) ↦ inr (insert_row-HasId row rows id (inr c))
      ])

order_rows-HasId : (rows : List Row) (id : ℕ) → HasId id rows → HasId id (order_rows rows)
unfolding order_rows
order_rows-HasId [] id h = h
order_rows-HasId (r ∷ rows) id (inl e) = insert_row-HasId r (order_rows rows) id (inl e)
order_rows-HasId (r ∷ rows) id (inr h) =
    insert_row-HasId r (order_rows rows) id (inr (order_rows-HasId rows id h))

insert_row-All :
    (P : Row → Type 0) (row : Row) (rows : List Row)
    → P row
    → All P rows
    → All P (insert_row row rows)
unfolding insert_row
insert_row-All P row [] p a = (p, a)
insert_row-All P row (r ∷ rows) p (q, a) =
    if_rule {A = List Row} (All P) (leb row.next_run_at r.next_run_at) (λ e. (p, (q, a)))
      (λ e. (q, insert_row-All P row rows p a))

order_rows-All : (P : Row → Type 0) (rows : List Row) → All P rows → All P (order_rows rows)
unfolding order_rows
order_rows-All P [] a = a
order_rows-All P (r ∷ rows) (p, a) =
    insert_row-All P r (order_rows rows) p (order_rows-All P rows a)

due-All : (P : Row → Type 0) (now : ℕ) (rows : List Row) → All P rows → All P (due now rows)
unfolding due
due-All P now [] a = a
due-All P now (r ∷ rows) (p, a) =
    if_rule {A = List Row} (All P) (is_due now r) (λ e. (p, due-All P now rows a))
      (λ e. due-All P now rows a)

take-All : (P : Row → Type 0) (n : ℕ) (rows : List Row) → All P rows → All P (take n rows)
take-All P zero rows a = tt
take-All P (suc n) [] a = tt
take-All P (suc n) (r ∷ rows) (p, a) = (p, take-All P n rows a)

length-insert_row : (row : Row) (rows : List Row) → length (insert_row row rows) ≡ suc (length rows)
unfolding insert_row
length-insert_row row [] = refl
length-insert_row row (r ∷ rows) =
    if_rule {A = List Row} (λ x. length x ≡ suc (suc (length rows)))
      (leb row.next_run_at r.next_run_at) (λ e. refl) (λ e. ap suc (length-insert_row row rows))

length-order_rows : (rows : List Row) → length (order_rows rows) ≡ length rows
unfolding order_rows
length-order_rows [] = refl
length-order_rows (r ∷ rows) =
    length-insert_row r (order_rows rows) ∙ ap suc (length-order_rows rows)

take-length : (n : ℕ) (rows : List Row) → length rows ≤ n → take n rows ≡ rows
take-length zero [] h = refl
take-length zero (r ∷ rows) h = absurd (omega arith)
take-length (suc n) [] h = refl
take-length (suc n) (r ∷ rows) h = ap (λ x. r ∷ x) (take-length n rows (omega arith))

-- With room in the batch, the selection covers every row that is due.
select-Covers :
    (batch now : ℕ) (store : List Row)
    → length (due now store) ≤ batch
    → Covers now (select batch now store) store
unfolding select
select-Covers batch now store h =
    let fits : length (order_rows (due now store)) ≤ batch =
      omega (arith, length-order_rows (due now store)) in
    subst (λ rows. Covers now rows store)
      (sym (take-length batch (order_rows (due now store)) fits))
      (Covers-mono now (due now store) (order_rows (due now store)) store
        (order_rows-HasId (due now store)) (due-Covers now store))

select-All :
    (P : Row → Type 0) (batch now : ℕ) (store : List Row)
    → All P store
    → All P (select batch now store)
unfolding select
select-All P batch now store a =
    take-All P batch (order_rows (due now store))
      (order_rows-All P (due now store) (due-All P now store a))

advance-Covers :
    (now next : ℕ) (row : Row) (rows store : List Row)
    → now < next
    → Covers now (row ∷ rows) store
    → Covers now rows (advance row.id (some next) store)
unfolding advance
advance-Covers now next row rows [] l c = tt
advance-Covers now next row rows (r ∷ store) l (h, c) =
    if_rule {A = List Row} (Covers now rows) (r.id == row.id)
      (λ e. (λ d. absurd (ground (arith, l, d)), advance-Covers now next row rows store l c))
      (λ e. (
        λ d. elim (h d) [ inl x ↦ absurd (ground (arith, x, e)) | inr y ↦ y ],
        advance-Covers now next row rows store l c,
      ))

due-none : (now : ℕ) (store : List Row) → Covers now [] store → due now store ≡ []
unfolding due
due-none now [] c = refl
due-none now (r ∷ store) (h, c) =
    if_rule {A = List Row} (λ x. x ≡ []) (is_due now r) (λ e. absurd (h e))
      (λ e. due-none now store c)

fire_at-advances :
    (now : ℕ) (row : Row) (w : World) (tod : ℕ) (run : Run)
    → IsNext (plan_of row tod) now run
    → w.advances ≡ true
    → (next : ℕ) × (((fire_at row w run).advanced ≡ some next) × (now < next))
fire_at-advances now row w tod (at next) n a = (
  next,
  (
    if_rule {A = Fired} (λ f. f.advanced ≡ some next) w.advances
        (λ e. fire_advanced-advanced next row w) (λ e. absurd (ground (arith, e, a))),
    n.0,
  ),
)
fire_at-advances now row w tod value_error n a = absurd n
fire_at-advances now row w tod runtime_error n a = absurd n

fire_one-advances :
    (now : ℕ) (row : Row) (w : World)
    → Ready row
    → w.advances ≡ true
    → (next : ℕ) × (((fire_one now row w).advanced ≡ some next) × (now < next))
unfolding fire_one
fire_one-advances now row w (tod, (p, proper)) a =
    let same : compute_next_run now (plan_of row tod)
        ≡ next_run now row (parse_time_of_day row.time_of_day) =
      ap (next_run now row) (sym p) in
    fire_at-advances now row w tod (next_run now row (parse_time_of_day row.time_of_day))
      (subst (IsNext (plan_of row tod) now) same
        (compute_next_run-IsNext now (plan_of row tod) proper))
      a

fire_all-Covers :
    (now : ℕ) (world : ℕ → World) (rows store : List Row)
    → All Ready rows
    → ((id : ℕ) → (world id).advances ≡ true)
    → Covers now rows store
    → Covers now [] (fire_all now world rows store).schedules
unfolding fire_all
fire_all-Covers now world [] store ready ok c = c
fire_all-Covers now world (row ∷ rows) store (r, ready) ok c =
    let (next, (e, l)) = fire_one-advances now row (world row.id) r (ok row.id) in
    fire_all-Covers now world rows (advance row.id (fire_one now row (world row.id)).advanced store)
      ready ok
      (subst (λ a. Covers now rows (advance row.id a store)) (sym e)
        (advance-Covers now next row rows store l c))

select-none : (batch now : ℕ) (store : List Row) → due now store ≡ [] → select batch now store ≡ []
unfolding select order_rows
select-none zero now store h = refl
select-none (suc batch) now store h = ap (λ x. take (suc batch) (order_rows x)) h

-- When every schedule can be advanced, the database takes each update and what is due fits in the
-- batch, a second pass at the same instant fires nothing: it changes no schedule, leaves no command
-- and counts no row.
pub run_once-idle :
    (batch now : ℕ) (world again : ℕ → World) (schedules : List Row)
    → All Ready schedules
    → ((id : ℕ) → (world id).advances ≡ true)
    → length (due now schedules) ≤ batch
    → let after = (run_once batch now world schedules).schedules in
      run_once batch now again after ≡ record { schedules = after; commands = []; fired = 0 }
unfolding run_once fire_all
run_once-idle batch now world again schedules ready ok fits =
    let covers =
      fire_all-Covers now world (select batch now schedules) schedules
        (select-All Ready batch now schedules ready) ok (select-Covers batch now schedules fits) in
    let after = (fire_all now world (select batch now schedules) schedules).schedules in
    ap (λ rows. fire_all now again rows after)
      (select-none batch now after (due-none now after covers))
