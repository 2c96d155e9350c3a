-- ===== src/OfflineMonitor/Laws.antt =====
-- One active alert for a device, and what a scan makes of it.
use terra_server.Common.{
  ℕ, suc, ◌≤◌, ◌≡◌, refl, subst, true, Option, none, some, List, [], ◌∷◌, if◌then◌else◌, if_rule,
  arith,
}
use terra_server.OfflineMonitor.{
  Severity, Alert, Equipment, Writes, is_active, active_alert, set_severity, set_resolved,
  is_silent, severity_at, insert_offline_alert, resolve_offline_alert, alerts_after, scan_devices,
  offline_threshold_sec,
}

-- How many alerts of a device are active.
unfoldable pub count : ℕ → List Alert → ℕ
count device [] = 0
count device (a ∷ alerts) =
    let rest = count device alerts in if is_active device a then suc rest else rest

count-set_severity :
    (device id : ℕ) (s : Severity) (alerts : List Alert)
    → count device (set_severity id s alerts) ≡ count device alerts
unfolding count set_severity
count-set_severity device id s [] = refl
count-set_severity device id s (a ∷ alerts) =
    let ih = count-set_severity device id s alerts in ground arith

count-set_resolved :
    (device id now : ℕ) (alerts : List Alert)
    → count device (set_resolved id now alerts) ≤ count device alerts
unfolding count set_resolved
count-set_resolved device id now [] = omega arith
count-set_resolved device id now (a ∷ alerts) =
    let ih = count-set_resolved device id now alerts in ground arith

count-active_alert :
    (device : ℕ) (alerts : List Alert) → active_alert device alerts ≡ none → count device alerts ≡ 0
unfolding count active_alert
count-active_alert device [] h = refl
count-active_alert device (a ∷ alerts) h =
    let ih = count-active_alert device alerts in ground (arith, ih)

-- Resolving the alert that the query found leaves one fewer, at most.
resolve-count :
    (device now : ℕ) (alerts : List Alert) (a : Alert)
    → active_alert device alerts ≡ some a
    → suc (count device (set_resolved a.id now alerts)) ≤ count device alerts
unfolding count active_alert set_resolved
resolve-count device now [] a h = ground arith
resolve-count device now (b ∷ alerts) a h =
    let fewer = count-set_resolved device a.id now alerts in
    let ih = resolve-count device now alerts a in ground (arith, h, fewer, ih)

insert-count :
    (w : Writes) (other device : ℕ) (s : Severity) (o : Option Alert) (alerts : List Alert)
    → active_alert device alerts ≡ o
    → count other alerts ≤ 1
    → count other (insert_offline_alert w device s o alerts) ≤ 1
unfolding insert_offline_alert count
insert-count w other device s none alerts e h =
    let free : (device ≡ other) → count other alerts ≡ 0 =
      λ k. subst (λ d. count d alerts ≡ 0) k (count-active_alert device alerts e) in
    ground (arith, free)
insert-count w other device s (some a) alerts e h =
    let same = count-set_severity other a.id s alerts in ground (arith, same)

resolve_offline_alert-count :
    (w : Writes) (other now : ℕ) (o : Option Alert) (alerts : List Alert)
    → count other alerts ≤ 1
    → count other (resolve_offline_alert w now o alerts) ≤ 1
unfolding resolve_offline_alert
resolve_offline_alert-count w other now none alerts h = h
resolve_offline_alert-count w other now (some a) alerts h =
    let less = count-set_resolved other a.id now alerts in ground (arith, less)

alerts_after-count :
    (w : Writes) (other now device : ℕ) (seen : Option ℕ) (alerts : List Alert)
    → count other alerts ≤ 1
    → count other (alerts_after w now device seen alerts) ≤ 1
alerts_after-count w other now device none alerts h = h
alerts_after-count w other now device (some seen) alerts h =
    if_rule (λ x. count other x ≤ 1) (is_silent seen offline_threshold_sec now)
      (λ e.
        insert-count w other device (severity_at seen now) (active_alert device alerts) alerts refl
          h)
      (λ e. resolve_offline_alert-count w other now (active_alert device alerts) alerts h)

-- A scan keeps it that a device has at most one active alert of this kind, whichever writes succeed.
pub scan_devices-count :
    (writes : ℕ → Writes) (now : ℕ) (devices : List Equipment) (alerts : List Alert) (device : ℕ)
    → count device alerts ≤ 1
    → count device (scan_devices writes now devices alerts).alerts ≤ 1
unfolding scan_devices
scan_devices-count writes now [] alerts device h = h
scan_devices-count writes now (d ∷ ds) alerts device h =
    scan_devices-count writes now ds (alerts_after (writes d.id) now d.id d.last_seen_at alerts)
      device (alerts_after-count (writes d.id) device now d.id d.last_seen_at alerts h)

active-positive :
    (device : ℕ) (alerts : List Alert) (a : Alert)
    → active_alert device alerts ≡ some a
    → 1 ≤ count device alerts
unfolding count active_alert
active-positive device [] a h = ground arith
active-positive device (b ∷ alerts) a h =
    let ih = active-positive device alerts a in ground (arith, ih)

insert-active :
    (w : Writes) (device : ℕ) (s : Severity) (o : Option Alert) (alerts : List Alert)
    → w.alert ≡ true
    → active_alert device alerts ≡ o
    → 1 ≤ count device (insert_offline_alert w device s o alerts)
unfolding insert_offline_alert count
insert-active w device s none alerts ok e = ground arith
insert-active w device s (some a) alerts ok e =
    let same = count-set_severity device a.id s alerts in
    let there = active-positive device alerts a e in ground (arith, same, there)

resolve-none :
    (w : Writes) (device now : ℕ) (o : Option Alert) (alerts : List Alert)
    → w.alert ≡ true
    → active_alert device alerts ≡ o
    → count device alerts ≤ 1
    → count device (resolve_offline_alert w now o alerts) ≡ 0
unfolding resolve_offline_alert
resolve-none w device now none alerts ok e h = count-active_alert device alerts e
resolve-none w device now (some a) alerts ok e h =
    let less = resolve-count device now alerts a e in ground (arith, less)

-- The body of the scan for a device that was seen once, with at most one active alert of its own, its
-- writes succeeding: afterwards it has one exactly if it was last seen more than three minutes ago,
-- and none otherwise.
pub alerts_after-active :
    (w : Writes) (now device seen : ℕ) (alerts : List Alert)
    → w.alert ≡ true
    → count device alerts ≤ 1
    → count device (alerts_after w now device (some seen) alerts)
      ≡ (if is_silent seen offline_threshold_sec now then 1 else 0)
alerts_after-active w now device seen alerts ok h =
    let most = alerts_after-count w device now device (some seen) alerts h in
    let opened =
      insert-active w device (severity_at seen now) (active_alert device alerts) alerts ok refl in
    let emptied = resolve-none w device now (active_alert device alerts) alerts ok refl h in
    ground (arith, most, opened, emptied)
