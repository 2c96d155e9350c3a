-- ===== src/OfflineMonitor.antt =====
-- backend/offline_monitor.py: one scan over the devices and cameras that are linked. The alerts are
-- those of kind `offline`; whether a write to the database succeeds is asked of `Writes`, and a
-- failed one is only logged.
pub mod Laws
mod Tests
use terra_server.Common.{
  ℕ, zero, suc, ◌+◌, ◌-◌, Bool, true, false, not, ◌&&◌, ◌||◌, Option, none, some, List, [], ◌∷◌,
  ◌++◌, ltb, ◌==◌, if◌then◌else◌,
}
use terra_server.Common.Clock.{seconds}

abbrev pub offline_threshold_sec : ℕ
offline_threshold_sec = seconds 180

abbrev pub critical_threshold_sec : ℕ
critical_threshold_sec = seconds 600

abbrev pub camera_offline_threshold_sec : ℕ
camera_offline_threshold_sec = seconds 180

pub data Severity : Type 0 where
  warning critical : Severity

pub record Alert : Type 0 where
  pub id : ℕ
  pub device_id : ℕ
  pub severity : Severity
  pub resolved_at : Option ℕ

-- A row of `devices` or of `cameras`.
pub record Equipment : Type 0 where
  pub id : ℕ
  pub last_seen_at : Option ℕ
  pub is_online : Bool

pub record Writes : Type 0 where
  pub set_offline : Bool
  pub alert : Bool
  pub new_id : ℕ

abbrev pub is_unresolved : Option ℕ → Bool
is_unresolved none = true
is_unresolved (some at) = false

abbrev pub is_active : ℕ → Alert → Bool
is_active device a = a.device_id == device && is_unresolved a.resolved_at

-- The query for the active alert of a device, with its limit of one row.
unfoldable pub active_alert : ℕ → List Alert → Option Alert
active_alert device [] = none
active_alert device (a ∷ alerts) =
    let rest = active_alert device alerts in if is_active device a then some a else rest

unfoldable pub set_severity : ℕ → Severity → List Alert → List Alert
set_severity id s [] = []
set_severity id s (a ∷ alerts) =
    let rest = set_severity id s alerts in
    if a.id == id then record a { severity = s } ∷ rest else a ∷ rest

unfoldable pub set_resolved : ℕ → ℕ → List Alert → List Alert
set_resolved id now [] = []
set_resolved id now (a ∷ alerts) =
    let rest = set_resolved id now alerts in
    if a.id == id then record a { resolved_at = some now } ∷ rest else a ∷ rest

-- `age > threshold`
abbrev pub is_silent : ℕ → ℕ → ℕ → Bool
is_silent seen threshold now = ltb (seen + threshold) now

abbrev pub severity_at : ℕ → ℕ → Severity
severity_at seen now = if is_silent seen critical_threshold_sec now then critical else warning

abbrev pub is_raise : Severity → Severity → Bool
is_raise warning critical = true
is_raise _ _ = false

unfoldable pub insert_offline_alert : Writes → ℕ → Severity → Option Alert → List Alert → List Alert
unfolding set_severity
insert_offline_alert w device s none alerts =
    if w.alert
    then record { id = w.new_id; device_id = device; severity = s; resolved_at = none } ∷ alerts
    else alerts
insert_offline_alert w device s (some a) alerts =
    if is_raise a.severity s && w.alert then set_severity a.id s alerts else alerts

unfoldable pub resolve_offline_alert : Writes → ℕ → Option Alert → List Alert → List Alert
unfolding set_resolved
resolve_offline_alert w now none alerts = alerts
resolve_offline_alert w now (some a) alerts =
    if w.alert then set_resolved a.id now alerts else alerts

-- What a scan has come to.
pub record Scan : Type 0 where
  pub devices : List Equipment
  pub alerts : List Alert
  pub offline : ℕ
  pub recovered : ℕ

abbrev pub mark_offline : Bool → Equipment → Equipment
mark_offline ok d = if d.is_online && ok then record d { is_online = false } else d

-- The alerts after the loop's body for one device.
abbrev pub alerts_after : Writes → ℕ → ℕ → Option ℕ → List Alert → List Alert
alerts_after w now device none alerts = alerts
alerts_after w now device (some seen) alerts =
    if is_silent seen offline_threshold_sec now
    then insert_offline_alert w device (severity_at seen now) (active_alert device alerts) alerts
    else resolve_offline_alert w now (active_alert device alerts) alerts

abbrev pub is_offline : Option ℕ → ℕ → Bool
is_offline none now = false
is_offline (some seen) now = is_silent seen offline_threshold_sec now

abbrev pub is_recovered : Equipment → ℕ → Bool
is_recovered d now = elim d.last_seen_at [
  | none ↦ false
  | some seen ↦ not (is_silent seen offline_threshold_sec now) && not d.is_online
]

unfoldable pub scan_devices : (ℕ → Writes) → ℕ → List Equipment → List Alert → Scan
unfolding active_alert insert_offline_alert resolve_offline_alert
scan_devices writes now [] alerts = record {
  devices = [];
  alerts = alerts;
  offline = 0;
  recovered = 0;
}
scan_devices writes now (d ∷ ds) alerts =
    let w = writes d.id in
    let rest = scan_devices writes now ds (alerts_after w now d.id d.last_seen_at alerts) in
    record {
      devices =
          (if is_offline d.last_seen_at now then mark_offline w.set_offline d else d)
          ∷ rest.devices;
      alerts = rest.alerts;
      offline = if is_offline d.last_seen_at now then suc rest.offline else rest.offline;
      recovered = if is_recovered d now then suc rest.recovered else rest.recovered;
    }

abbrev pub is_camera_offline : Equipment → ℕ → Bool
is_camera_offline c now = elim c.last_seen_at [
  | none ↦ false
  | some seen ↦ c.is_online && is_silent seen camera_offline_threshold_sec now
]

unfoldable pub scan_cameras : (ℕ → Bool) → ℕ → List Equipment → List Equipment × ℕ
scan_cameras writes now [] = ([], 0)
scan_cameras writes now (c ∷ cs) =
    let (cs', n) = scan_cameras writes now cs in
    if is_camera_offline c now && writes c.id
    then (record c { is_online = false } ∷ cs', suc n)
    else (c ∷ cs', n)

unfoldable pub scan_once :
    (ℕ → Writes)
    → (ℕ → Bool)
    → ℕ
    → List Equipment
    → List Equipment
    → List Alert
    → Scan × (List Equipment × ℕ)
unfolding scan_devices scan_cameras
scan_once writes camera_writes now devices cameras alerts =
    (scan_devices writes now devices alerts, scan_cameras camera_writes now cameras)
