-- ===== src/Scheduling/Runner/Pass.antt =====
-- `run_once` of backend/schedule_runner.py over the table `schedules`, with what it leaves in
-- `commands`.
use terra_server.Common.{
  ℕ, suc, Bool, ◌&&◌, Option, none, some, List, [], ◌∷◌, leb, ◌==◌, if◌then◌else◌, take,
}
use terra_server.Scheduling.Runner.{Row, World, Command, fire_one}

abbrev pub is_due : ℕ → Row → Bool
is_due now row = row.enabled && leb row.next_run_at now

unfoldable pub due : ℕ → List Row → List Row
due now [] = []
due now (row ∷ rows) = let rest = due now rows in if is_due now row then row ∷ rest else rest

-- `order("next_run_at")`
unfoldable pub insert_row : Row → List Row → List Row
insert_row row [] = row ∷ []
insert_row row (r ∷ rows) =
    let rest = insert_row row rows in
    if leb row.next_run_at r.next_run_at then row ∷ r ∷ rows else r ∷ rest

unfoldable pub order_rows : List Row → List Row
unfolding insert_row
order_rows [] = []
order_rows (row ∷ rows) = insert_row row (order_rows rows)

unfoldable pub select : ℕ → ℕ → List Row → List Row
unfolding due order_rows
select batch now rows = take batch (order_rows (due now rows))

-- The update of `_fire_one`, on the rows of an id.
unfoldable pub advance : ℕ → Option ℕ → List Row → List Row
advance id next [] = []
advance id none rows = rows
advance id (some next) (row ∷ rows) =
    let rest = advance id (some next) rows in
    if row.id == id then record row { next_run_at = next } ∷ rest else row ∷ rest

pub record Pass : Type 0 where
  pub schedules : List Row
  pub commands : List Command
  pub fired : ℕ

abbrev pub with_command : Option Command → List Command → List Command
with_command none cs = cs
with_command (some c) cs = c ∷ cs

-- The loop: a row that raises is counted out, and the next one goes on.
unfoldable pub fire_all : ℕ → (ℕ → World) → List Row → List Row → Pass
unfolding fire_one advance
fire_all now world [] schedules = record { schedules = schedules; commands = []; fired = 0 }
fire_all now world (row ∷ rows) schedules =
    let f = fire_one now row (world row.id) in
    let p = fire_all now world rows (advance row.id f.advanced schedules) in
    record {
      schedules = p.schedules;
      commands = with_command f.command p.commands;
      fired = if f.completed then suc p.fired else p.fired;
    }

unfoldable pub run_once : ℕ → ℕ → (ℕ → World) → List Row → Pass
unfolding fire_all select
run_once batch now world schedules = fire_all now world (select batch now schedules) schedules
