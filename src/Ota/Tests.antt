-- ===== src/Ota/Tests.antt =====
-- backend/ota_service.py: a camera that is updated, and the theorems at concrete inputs.
use terra_server.Common.{String, ◌≡◌, refl, true, false, none, some, [], ◌∷◌}
use terra_server.Common.Clock.{seconds}
use terra_server.Common.Int.{pos, negsuc}
use terra_server.Ota.{pending, verified, timeout, Job, Release}
use terra_server.Ota.Gate.{Entity, weak_wifi, just_booted, gate_reasons}
use terra_server.Ota.Jobs.{Ack, mark_applying}
use terra_server.Ota.Laws.{ack, heartbeat, scan, handle, Caused, handle-Caused}

abbrev camera : Entity
camera = record {
  id = "c1";
  model = "p4";
  firmware_ver = some "1.0";
  last_seen = some (some (seconds 990));
  is_online = true;
  has_ota = true;
  rssi = some (negsuc 5999);
  int_largest = none;
  uptime_s = some (pos 900000);
  crashed = true;
}

abbrev release : Release
release = record {
  id = "r1";
  target = "camera_p4";
  project_name = none;
  version = "1.1";
  is_retired = false;
}

weak :
    gate_reasons
      (record camera { rssi = some (negsuc 7999); uptime_s = some (pos 20000) })
      (seconds 1000)
    ≡ weak_wifi ∷ just_booted ∷ []
unfolding gate_reasons
weak = refl

abbrev fresh : Job
fresh = record {
  id = "j1";
  kind = "camera";
  target_uuid = "c1";
  release_id = "r1";
  status = pending;
  prev_version = some "1.0";
  forced = false;
  pct = none;
  error = none;
  prepare_msg_id = none;
  apply_msg_id = none;
  applied_at = none;
  updated_at = seconds 1000;
  finished_at = none;
}

answer : String → Ack
answer r = record { result = some r; phase = none; job_id = none; pct = none; error = none }

progress : String → Ack
progress p = record {
  result = none;
  phase = some p;
  job_id = some "j1";
  pct = some (pos 5000);
  error = none;
}

-- Accepted, loaded, applied and verified, and left alone after that.
updated : Job
unfolding answer progress handle mark_applying
updated =
    let j₁ = handle (seconds 1010) (ack (answer "ok")) fresh in
    let j₂ = handle (seconds 1020) (ack (progress "downloading")) j₁ in
    let j₃ = handle (seconds 1030) (ack (progress "ready")) j₂ in
    let j₄ = mark_applying (seconds 1040) "m2" j₃ in
    let j₅ = handle (seconds 1100) (heartbeat (some "1.1") "1.1") j₄ in
    handle (seconds 9000) (scan (λ id. none)) j₅

verifies : updated.status ≡ verified
unfolding updated
verifies = refl

times_out : (handle (seconds 1200) (scan (λ id. none)) fresh).status ≡ timeout
unfolding handle
times_out = refl

handle-Caused_example :
    Caused
      (seconds 1200)
      (scan (λ id. none))
      fresh
      (handle (seconds 1200) (scan (λ id. none)) fresh)
handle-Caused_example = handle-Caused (seconds 1200) (scan (λ id. none)) fresh
