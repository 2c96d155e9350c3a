-- ===== src/OfflineMonitor/Tests.antt =====
-- backend/offline_monitor.py: scans of concrete devices, and the theorems at concrete inputs.
use terra_server.Common.{
  ℕ, ◌+◌, ◌≤◌, ◌≡◌, refl, true, false, none, some, List, [], ◌∷◌, if◌then◌else◌, arith,
}
use terra_server.Common.Clock.{seconds}
use terra_server.OfflineMonitor.{
  warning, critical, Alert, Equipment, Writes, Scan, active_alert, set_severity, set_resolved,
  insert_offline_alert, resolve_offline_alert, alerts_after, is_silent, scan_devices, scan_cameras,
  scan_once, offline_threshold_sec,
}
use terra_server.OfflineMonitor.Laws.{count, scan_devices-count, alerts_after-active}

abbrev well : ℕ → Writes
well device = record { set_offline = true; alert = true; new_id = 100 + device }

abbrev devices : List Equipment
devices =
    record { id = 1; last_seen_at = some (seconds 100); is_online = true }
    ∷ record { id = 2; last_seen_at = some (seconds 900); is_online = false }
    ∷ record { id = 3; last_seen_at = none; is_online = false }
    ∷ []

abbrev alerts : List Alert
alerts = record { id = 5; device_id = 2; severity = warning; resolved_at = none } ∷ []

scanned : ℕ → Scan
unfolding scan_once scan_devices scan_cameras active_alert insert_offline_alert
    resolve_offline_alert set_severity set_resolved
scanned now = (scan_once well (λ c. true) now devices [] alerts).0

opens_and_resolves :
    (scanned (seconds 1000)).alerts
    ≡ record { id = 101; device_id = 1; severity = critical; resolved_at = none }
      ∷ record { id = 5; device_id = 2; severity = warning; resolved_at = some (seconds 1000) }
      ∷ []
unfolding scanned
opens_and_resolves = refl

counts : ((scanned (seconds 1000)).offline ≡ 1) × ((scanned (seconds 1000)).recovered ≡ 1)
unfolding scanned
counts = (refl, refl)

at_most_one : count 1 alerts ≤ 1
unfolding count
at_most_one = omega arith

scan_devices-count_example : count 1 (scan_devices well (seconds 1000) devices alerts).alerts ≤ 1
scan_devices-count_example = scan_devices-count well (seconds 1000) devices alerts 1 at_most_one

alerts_after-active_example :
    count 1 (alerts_after (well 1) (seconds 1000) 1 (some (seconds 100)) alerts)
    ≡ (if is_silent (seconds 100) offline_threshold_sec (seconds 1000) then 1 else 0)
alerts_after-active_example =
    alerts_after-active (well 1) (seconds 1000) 1 (seconds 100) alerts refl at_most_one
