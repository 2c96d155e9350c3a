-- ===== src/Ota.antt =====
-- backend/ota_service.py: the checks before a firmware update and the life of an update's job. The
-- cut of an error's text at 200 characters is left out.
pub mod Gate
pub mod Jobs
pub mod Laws
pub mod Create
mod Tests
use terra_server.Common.{ℕ, String, Bool, true, false, Option, none, some}

abbrev pub kind_camera : String
kind_camera = "camera"

abbrev pub kind_device : String
kind_device = "device"

pub data Status : Type 0 where
  pending accepted downloading ready applying verified failed rolled_back timeout : Status

-- `TERMINAL_STATUSES`; the others are `ACTIVE_STATUSES`.
abbrev pub is_terminal : Status → Bool
is_terminal verified = true
is_terminal failed = true
is_terminal rolled_back = true
is_terminal timeout = true
is_terminal s = false

-- A row of `ota_jobs`.
pub record Job : Type 0 where
  pub id : String
  pub kind : String
  pub target_uuid : String
  pub release_id : String
  pub status : Status
  pub prev_version : Option String
  pub forced : Bool
  pub pct : Option ℕ
  pub error : Option String
  pub prepare_msg_id : Option String
  pub apply_msg_id : Option String
  pub applied_at : Option ℕ
  pub updated_at : ℕ
  pub finished_at : Option ℕ

pub record Release : Type 0 where
  pub id : String
  pub target : String
  pub project_name : Option String
  pub version : String
  pub is_retired : Bool
