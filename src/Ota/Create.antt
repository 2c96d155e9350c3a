-- ===== src/Ota/Create.antt =====
-- What a new job has been checked for.
use terra_server.Common.{ℕ, String, ◌≡◌, ◌⊎◌, Bool, true, false, is_some, List}
use terra_server.Common.Text.{str_eq}
use terra_server.Ota.{pending, Job, Release}
use terra_server.Ota.Gate.{
  Entity, gate_reasons, is_kind, target_for, expected_project_name, is_other_project, is_version,
  Created, job_error, created, active_job_for, is_any,
}

-- What a job's request has been checked for.
pub record IsChecked (now : ℕ) (jobs : List Job) (kind : String) (e : Entity) (r : Release)
    (force : Bool) : Type 0 where
  pub known : is_kind kind ≡ true
  pub target : str_eq r.target (target_for kind e) ≡ true
  pub project : is_other_project r.project_name (expected_project_name (target_for kind e)) ≡ false
  pub current : r.is_retired ≡ false
  pub newer : is_version e.firmware_ver r.version ≡ false
  pub alone : is_some (active_job_for e.id jobs) ≡ false
  pub allowed : (is_any (gate_reasons e now) ≡ false) ⊎ (force ≡ true)

abbrev Passes : ℕ → List Job → String → Entity → Release → Bool → Created → Type 0
Passes now jobs kind e r force (job_error x) = Unit
Passes now jobs kind e r force (created j) =
    IsChecked now jobs kind e r force
    × (j.status ≡ pending)
    × (j.target_uuid ≡ e.id)
    × (j.forced ≡ is_any (gate_reasons e now))
