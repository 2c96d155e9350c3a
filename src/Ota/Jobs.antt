-- ===== src/Ota/Jobs.antt =====
-- What acknowledgements, heartbeats and the scan make of a job.
use terra_server.Common.{
  ℕ, ◌+◌, ◌/◌, String, Bool, true, false, not, ◌&&◌, ◌||◌, Option, none, some, ltb, min,
  if◌then◌else◌,
}
use terra_server.Common.Clock.{seconds}
use terra_server.Common.Int.{ℤ, pos, negsuc}
use terra_server.Common.Text.{str_eq, is_text, text_or}
use terra_server.Ota.{
  kind_device, Status, pending, accepted, downloading, ready, applying, verified, failed,
  rolled_back, timeout, is_terminal, Job,
}
use terra_server.Ota.Gate.{is_version}

-- `_update` of the status, which sets the times.
unfoldable pub update : ℕ → Status → Job → Job
update now s j = record j {
  status = s;
  updated_at = now;
  finished_at = if is_terminal s then some now else j.finished_at;
}

unfoldable pub mark_failed : ℕ → String → Job → Job
unfolding update
mark_failed now error j = record (update now failed j) { error = some error }

-- `max(0, min(100, int(pct)))`; the number is in hundredths.
abbrev pub clamp_pct : ℤ → ℕ
clamp_pct (pos n) = min 100 (n / 100)
clamp_pct (negsuc n) = 0

unfoldable pub mark_downloading : ℕ → ℤ → Job → Job
unfolding update
mark_downloading now pct j = record (update now downloading j) { pct = some (clamp_pct pct) }

unfoldable pub mark_applying : ℕ → String → Job → Job
unfolding update
mark_applying now msg_id j = record (update now applying j) {
  apply_msg_id = some msg_id;
  applied_at = some now;
}

-- The `ota` part of an acknowledgement, and its result.
pub record Ack : Type 0 where
  pub result : Option String
  pub phase : Option String
  pub job_id : Option String
  pub pct : Option ℤ
  pub error : Option String

abbrev pub with_pct : Option ℤ → Job → Job
with_pct none j = j
with_pct (some v) j = record j { pct = some (clamp_pct v) }

-- A message about another job.
abbrev pub is_foreign : Option String → Job → Bool
is_foreign none j = false
is_foreign (some id) j = not (str_eq id "") && not (str_eq id j.id)

abbrev pub phase_is : Ack → String → Bool
phase_is a phase = is_version a.phase phase

abbrev pub result_is : Ack → String → Bool
result_is a result = is_version a.result result

-- Progress and its end.
unfoldable pub on_phase : ℕ → Ack → Job → Job
unfolding update mark_failed
on_phase now a j =
    if is_foreign a.job_id j
    then j
    else if phase_is a "downloading"
    then with_pct a.pct (update now downloading j)
    else if phase_is a "ready"
    then record (update now ready j) { pct = some 100 }
    else if phase_is a "failed"
    then mark_failed now (text_or a.error (text_or a.result "firmware_error")) j
    else j

abbrev pub is_pending : Status → Bool
is_pending pending = true
is_pending s = false

-- The first answer to a command.
unfoldable pub on_result : ℕ → Ack → Job → Job
unfolding update mark_failed
on_result now a j =
    if result_is a "ok"
    then (if is_pending j.status then update now accepted j else j)
    else if result_is a "busy" || result_is a "rejected_busy"
    then mark_failed now "busy" j
    else if result_is a "rejected_unknown_action" || result_is a "unknown_action"
    then mark_failed now "old_firmware" j
    else if is_text a.result
    then mark_failed now (text_or a.result "") j
    else j

-- `apply_ack`, for the job that was found.
unfoldable pub apply_ack : ℕ → Ack → Job → Job
unfolding on_phase on_result
apply_ack now a j =
    if is_terminal j.status
    then j
    else if is_text a.phase
    then on_phase now a j
    else on_result now a j

abbrev pub is_applying : Status → Bool
is_applying applying = true
is_applying s = false

abbrev pub is_release : Option String → String → Bool
is_release version fw = is_text version && is_version version fw

-- `apply_heartbeat_fw`; `version` is that of the job's release, if it is still there.
unfoldable pub apply_heartbeat_fw : ℕ → Option String → String → Job → Job
unfolding update
apply_heartbeat_fw now version fw j =
    if not (is_applying j.status)
    then j
    else if is_release version fw
    then record (update now verified j) { pct = some 100; error = none }
    else if is_release j.prev_version fw
    then record (update now rolled_back j) { error = some "bootloader_rollback" }
    else j

-- A command of a device as the scan reads it.
pub record CommandRow : Type 0 where
  pub status : String
  pub result : Option String

abbrev pub is_ended : CommandRow → Bool
is_ended c = str_eq c.status "expired" || str_eq c.status "rejected" || str_eq c.status "failed"

abbrev pub reason_of : CommandRow → String
reason_of c =
    let reason = text_or c.result c.status in
    if str_eq reason "unknown_action" then "old_firmware" else reason

abbrev pub command_of : Job → Option String
command_of j = if is_applying j.status then j.apply_msg_id else j.prepare_msg_id

-- The reason of a device's command that failed, where the scan looks for one; `find` reads the
-- table of commands.
abbrev pub read_command : (String → Option CommandRow) → Option String → Option CommandRow
read_command find none = none
read_command find (some id) = if str_eq id "" then none else find id

abbrev pub ended_reason : Option CommandRow → Option String
ended_reason none = none
ended_reason (some c) = if is_ended c then some (reason_of c) else none

unfoldable pub failure_of : (String → Option CommandRow) → Job → Option String
failure_of find j =
    if str_eq j.kind kind_device && (is_pending j.status || is_applying j.status)
    then ended_reason (read_command find (command_of j))
    else none

-- `TIMEOUT_BY_STATUS_SEC`
abbrev pub timeout_by_status : Status → Option ℕ
timeout_by_status pending = some (seconds 180)
timeout_by_status accepted = some (seconds 600)
timeout_by_status downloading = some (seconds 900)
timeout_by_status applying = some (seconds 600)
timeout_by_status s = none

abbrev pub reference : Job → Option ℕ
reference j = if is_applying j.status then j.applied_at else some j.updated_at

abbrev pub timeout_error : Status → String
timeout_error pending = "pending > 180s"
timeout_error accepted = "accepted > 600s"
timeout_error downloading = "downloading > 900s"
timeout_error applying = "applying > 600s"
timeout_error s = ""

abbrev pub is_over : ℕ → Option ℕ → Option ℕ → Bool
is_over now none ref = false
is_over now (some limit) none = false
is_over now (some limit) (some ref) = ltb (ref + limit) now

unfoldable pub time_out : ℕ → Job → Job
unfolding update
time_out now j =
    if is_over now (timeout_by_status j.status) (reference j)
    then record (update now timeout j) { error = some (timeout_error j.status) }
    else j

unfoldable pub scan_with : ℕ → Option String → Job → Job
unfolding mark_failed time_out
scan_with now none j = time_out now j
scan_with now (some reason) j = mark_failed now reason j

-- One job of `scan_once`, whose query lists the jobs that are not ended.
unfoldable pub scan_job : ℕ → (String → Option CommandRow) → Job → Job
unfolding failure_of scan_with
scan_job now find j = if is_terminal j.status then j else scan_with now (failure_of find j) j
