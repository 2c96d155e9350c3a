-- ===== src/Ota/Gate.antt =====
-- `gate_reasons`, `target_for` and `create_job`.
use terra_server.Common.{
  ℕ, ◌+◌, String, Bool, true, false, not, ◌&&◌, ◌||◌, Option, none, some, is_some, List, [], ◌∷◌,
  ◌++◌, ltb, if◌then◌else◌,
}
use terra_server.Common.Clock.{seconds}
use terra_server.Common.Int.{ℤ, pos, negsuc, ltb_ℤ}
use terra_server.Common.Text.{str_eq}
use terra_server.Ota.{kind_camera, kind_device, pending, is_terminal, Job, Release}

-- What the checks read of a camera or a device; `last_seen` is none where there is no such time, and
-- holds none where it cannot be read. `rssi` is in hundredths of a dBm, the other numbers likewise;
-- `crashed` says whether the reset's reason names a crash.
pub record Entity : Type 0 where
  pub id : String
  pub model : String
  pub firmware_ver : Option String
  pub last_seen : Option (Option ℕ)
  pub is_online : Bool
  pub has_ota : Bool
  pub rssi : Option ℤ
  pub int_largest : Option ℤ
  pub uptime_s : Option ℤ
  pub crashed : Bool

pub data Reason : Type 0 where
  never_seen offline no_ota_capability weak_wifi low_internal_ram just_booted : Reason

abbrev pub gate_min_rssi_dbm : ℤ
gate_min_rssi_dbm = negsuc 7499

abbrev pub gate_min_int_largest_bytes : ℤ
gate_min_int_largest_bytes = pos 819200

abbrev pub gate_min_uptime_sec : ℤ
gate_min_uptime_sec = pos 30000

abbrev pub gate_min_uptime_clean_sec : ℤ
gate_min_uptime_clean_sec = pos 6000

abbrev pub gate_online_within_sec : ℕ
gate_online_within_sec = seconds 90

abbrev pub when : Bool → Reason → List Reason
when true r = r ∷ []
when false r = []

abbrev pub is_late : ℕ → Option ℕ → Bool
is_late now none = true
is_late now (some seen) = ltb (seen + gate_online_within_sec) now

abbrev pub seen_reasons : ℕ → Bool → Option (Option ℕ) → List Reason
seen_reasons now online none = never_seen ∷ []
seen_reasons now online (some seen) = when (is_late now seen || not online) offline

abbrev pub is_below : Option ℤ → ℤ → Bool
is_below none limit = false
is_below (some v) limit = ltb_ℤ v limit

abbrev pub min_uptime : Bool → ℤ
min_uptime crashed = if crashed then gate_min_uptime_sec else gate_min_uptime_clean_sec

unfoldable pub gate_reasons : Entity → ℕ → List Reason
gate_reasons e now =
    seen_reasons now e.is_online e.last_seen
    ++ (when (not e.has_ota) no_ota_capability
        ++ (when (is_below e.rssi gate_min_rssi_dbm) weak_wifi
            ++ (when (is_below e.int_largest gate_min_int_largest_bytes) low_internal_ram
                ++ when (is_below e.uptime_s (min_uptime e.crashed)) just_booted)))

abbrev pub is_kind : String → Bool
is_kind kind = str_eq kind kind_camera || str_eq kind kind_device

-- `target_for`, for a kind that is known
abbrev pub target_for : String → Entity → String
target_for kind e =
    if str_eq kind kind_camera
    then (if str_eq e.model "esp32-p4-hub" then "hub_p4" else "camera_p4")
    else "device_nano"

abbrev pub expected_project_name : String → String
expected_project_name target =
    if str_eq target "camera_p4"
    then "firebeetle2_p4_yr030"
    else if str_eq target "device_nano"
    then "terra-iot"
    else "terra_hub_p4"

-- The project's name is checked where the release has one.
abbrev pub is_other_project : Option String → String → Bool
is_other_project none expected = false
is_other_project (some name) expected = not (str_eq name "") && not (str_eq name expected)

abbrev pub is_version : Option String → String → Bool
is_version none v = false
is_version (some w) v = str_eq w v

-- `OtaError`
pub data OtaError : Type 0 where
  unknown_kind release_not_found wrong_target wrong_project retired already_there : OtaError
  active_job insert_failed : OtaError
  precheck_failed : List Reason → OtaError

pub data Created : Type 0 where
  job_error : OtaError → Created
  created : Job → Created

-- `active_job_for`, on jobs that are listed newest first
unfoldable pub active_job_for : String → List Job → Option Job
active_job_for target [] = none
active_job_for target (j ∷ js) =
    let rest = active_job_for target js in
    if str_eq j.target_uuid target && not (is_terminal j.status) then some j else rest

abbrev pub is_any : List Reason → Bool
is_any [] = false
is_any (r ∷ rs) = true

abbrev pub new_job : String → Entity → Release → Bool → ℕ → Job
new_job kind e release forced now = record {
  id = "";
  kind = kind;
  target_uuid = e.id;
  release_id = release.id;
  status = pending;
  prev_version = e.firmware_ver;
  forced = forced;
  pct = none;
  error = none;
  prepare_msg_id = none;
  apply_msg_id = none;
  applied_at = none;
  updated_at = now;
  finished_at = none;
}

abbrev pub create_from : ℕ → List Job → String → Entity → Release → Bool → Option String → Created
create_from now jobs kind e release force none = job_error insert_failed
create_from now jobs kind e release force (some id) =
    created (record (new_job kind e release (is_any (gate_reasons e now)) now) { id = id })

-- The checks of a release that was found.
abbrev pub create_for : ℕ → List Job → String → Entity → Release → Bool → Option String → Created
create_for now jobs kind e release force inserted =
    let want = target_for kind e in
    let reasons = gate_reasons e now in
    if not (str_eq release.target want)
    then job_error wrong_target
    else if is_other_project release.project_name (expected_project_name want)
    then job_error wrong_project
    else if release.is_retired
    then job_error retired
    else if is_version e.firmware_ver release.version
    then job_error already_there
    else if is_some (active_job_for e.id jobs)
    then job_error active_job
    else if is_any reasons && not force
    then job_error (precheck_failed reasons)
    else create_from now jobs kind e release force inserted

-- `create_job`; `inserted` is the id that the database gives the row, if it takes it.
unfoldable pub create_job :
    ℕ → List Job → String → Entity → Option Release → Bool → Option String → Created
unfolding active_job_for gate_reasons
create_job now jobs kind e none force inserted =
    job_error (if is_kind kind then release_not_found else unknown_kind)
create_job now jobs kind e (some release) force inserted =
    if not (is_kind kind)
    then job_error unknown_kind
    else create_for now jobs kind e release force inserted
