-- ===== src/Scheduling/Runner/Firing.antt =====
-- What firing one schedule does, on every branch.
use terra_server.Common.{ℕ, ◌≡◌, refl, true, false, Option, none, some, if_rule, subst, sym, arith}
use terra_server.Scheduling.{Run, at, value_error, runtime_error, compute_next_run}
use terra_server.Scheduling.TimeOfDay.{parse_time_of_day}
use terra_server.Scheduling.Runner.{
  Row, World, Command, Fired, pending, guard_skipped, device_offline, Query, raised, missing, found,
  Insert, insert_raised, insert_refused, stored, Skip, fire_one, fire_at, fire_advanced,
  fire_checked, failed, insert_pending, record_skipped, is_device_offline, check_guard, plan_of,
  next_run,
}

-- Why a command is in the state it is left in.
abbrev pub Justified : Row → World → Option Command → Type 0
Justified row w none = Unit
Justified row w (some c) =
    (w.insert ≡ stored)
    × ((c.source_id ≡ row.id)
        × ((c.device_id ≡ row.device_id)
            × ((c.action ≡ row.action) × elim c.status [
              | pending ↦
                  (is_device_offline w.is_online ≡ false) × (check_guard row.guard w ≡ missing)
              | guard_skipped skip ↦
                  (is_device_offline w.is_online ≡ false) × (check_guard row.guard w ≡ found skip)
              | device_offline ↦ is_device_offline w.is_online ≡ true
            ])))

-- An advanced row runs next at a run of its plan, the nearest one ahead.
abbrev pub Ahead : ℕ → Row → Option ℕ → Type 0
Ahead now row none = Unit
Ahead now row (some next) =
    (tod : ℕ) × ((parse_time_of_day row.time_of_day ≡ some tod)
      × (compute_next_run now (plan_of row tod) ≡ at next))

-- A command is only left on a row that was advanced before.
abbrev pub AdvancedFirst : Fired → Type 0
AdvancedFirst f = f.advanced ≡ none → (f.command ≡ none) × (f.completed ≡ false)

pub record Fires (now : ℕ) (row : Row) (w : World) (f : Fired) : Type 0 where
  pub ahead : Ahead now row f.advanced
  pub first : AdvancedFirst f
  pub justified : Justified row w f.command

stored-pending :
    (next : ℕ) (row : Row) (w : World) (i : Insert)
    → w.insert ≡ i
    → is_device_offline w.is_online ≡ false
    → check_guard row.guard w ≡ missing
    → Justified row w (insert_pending next row i).command
stored-pending next row w insert_raised e h k = tt
stored-pending next row w insert_refused e h k = tt
stored-pending next row w stored e h k = (e, (refl, (refl, (refl, (h, k)))))

stored-skipped :
    (skip : Skip) (row : Row) (w : World) (i : Insert)
    → w.insert ≡ i
    → is_device_offline w.is_online ≡ false
    → check_guard row.guard w ≡ found skip
    → Justified row w (record_skipped row (guard_skipped skip) i)
stored-skipped skip row w insert_raised e h k = tt
stored-skipped skip row w insert_refused e h k = tt
stored-skipped skip row w stored e h k = (e, (refl, (refl, (refl, (h, k)))))

stored-offline :
    (row : Row) (w : World) (i : Insert)
    → w.insert ≡ i
    → is_device_offline w.is_online ≡ true
    → Justified row w (record_skipped row device_offline i)
stored-offline row w insert_raised e h = tt
stored-offline row w insert_refused e h = tt
stored-offline row w stored e h = (e, (refl, (refl, (refl, h))))

fire_checked-Justified :
    (next : ℕ) (row : Row) (w : World) (q : Query Skip)
    → is_device_offline w.is_online ≡ false
    → check_guard row.guard w ≡ q
    → Justified row w (fire_checked next row w q).command
fire_checked-Justified next row w raised h k = tt
fire_checked-Justified next row w missing h k = stored-pending next row w w.insert refl h k
fire_checked-Justified next row w (found skip) h k = stored-skipped skip row w w.insert refl h k

insert_pending-advanced :
    (next : ℕ) (row : Row) (i : Insert) → (insert_pending next row i).advanced ≡ some next
insert_pending-advanced next row insert_raised = refl
insert_pending-advanced next row insert_refused = refl
insert_pending-advanced next row stored = refl

fire_checked-advanced :
    (next : ℕ) (row : Row) (w : World) (q : Query Skip)
    → (fire_checked next row w q).advanced ≡ some next
fire_checked-advanced next row w raised = refl
fire_checked-advanced next row w missing = insert_pending-advanced next row w.insert
fire_checked-advanced next row w (found skip) = refl

pub fire_advanced-advanced :
    (next : ℕ) (row : Row) (w : World) → (fire_advanced next row w).advanced ≡ some next
unfolding fire_advanced
fire_advanced-advanced next row w =
    if_rule {A = Fired} (λ f. f.advanced ≡ some next) (is_device_offline w.is_online) (λ h. refl)
      (λ h. fire_checked-advanced next row w (check_guard row.guard w))

fire_advanced-Justified :
    (next : ℕ) (row : Row) (w : World) → Justified row w (fire_advanced next row w).command
unfolding fire_advanced
fire_advanced-Justified next row w =
    if_rule {A = Fired} (λ f. Justified row w f.command) (is_device_offline w.is_online)
      (λ h. stored-offline row w w.insert refl h)
      (λ h. fire_checked-Justified next row w (check_guard row.guard w) h refl)

module _ (now : ℕ) (row : Row) (w : World) where
  failed-Fires : Fires now row w (failed none)
  failed-Fires = record { ahead = tt; first = λ e. (refl, refl); justified = tt }

  advanced-Fires :
      (next : ℕ) → Ahead now row (some next) → Fires now row w (fire_advanced next row w)
  advanced-Fires next a =
      let e = fire_advanced-advanced next row w in
      record {
        ahead = subst (Ahead now row) (sym e) a;
        first = λ n. absurd (ground (arith, e, n));
        justified = fire_advanced-Justified next row w;
      }

  fire_at-Fires :
      (tod : Option ℕ) (run : Run)
      → parse_time_of_day row.time_of_day ≡ tod
      → next_run now row tod ≡ run
      → Fires now row w (fire_at row w run)
  fire_at-Fires none run p e = subst (λ r. Fires now row w (fire_at row w r)) e failed-Fires
  fire_at-Fires (some tod) (at next) p e =
      if_rule (Fires now row w) w.advances (λ h. advanced-Fires next (tod, (p, e)))
        (λ h. failed-Fires)
  fire_at-Fires (some tod) value_error p e = failed-Fires
  fire_at-Fires (some tod) runtime_error p e = failed-Fires

-- Firing a row, on every branch: the row is advanced, if at all, to what `compute_next_run` gives for
-- its plan; without that there is no command and the row counts as failed; a command that was left
-- was stored, is the row's own, and is pending only for a device that is not offline and with no
-- guard against it, skipped by the guard only for that guard, and skipped as offline only for an
-- offline device.
pub fire_one-Fires : (now : ℕ) (row : Row) (w : World) → Fires now row w (fire_one now row w)
unfolding fire_one
fire_one-Fires now row w =
    fire_at-Fires now row w (parse_time_of_day row.time_of_day)
      (next_run now row (parse_time_of_day row.time_of_day)) refl refl
