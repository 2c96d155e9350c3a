-- ===== src/Ota/Laws.antt =====
-- Why a job changes.
use terra_server.Common.{
  ℕ, String, ◌≡◌, refl, ap, arith, ◌⊎◌, inl, inr, true, false, not, ◌||◌, Option, none, some,
  is_some, if◌then◌else◌, if_rule,
}
use terra_server.Common.Int.{ℤ}
use terra_server.Common.Text.{is_text}
use terra_server.Ota.{
  Status, accepted, downloading, ready, verified, failed, rolled_back, timeout, is_terminal, Job,
}
use terra_server.Ota.Jobs.{
  update, mark_failed, Ack, is_foreign, phase_is, result_is, on_phase, on_result, apply_ack,
  is_pending, is_applying, is_release, apply_heartbeat_fw, CommandRow, failure_of,
  timeout_by_status, reference, is_over, time_out, scan_with, scan_job, with_pct,
}

pub data Event : Type 0 where
  ack : Ack → Event
  heartbeat : Option String → String → Event
  scan : (String → Option CommandRow) → Event

unfoldable pub handle : ℕ → Event → Job → Job
unfolding apply_ack apply_heartbeat_fw scan_job
handle now (ack a) j = apply_ack now a j
handle now (heartbeat version fw) j = apply_heartbeat_fw now version fw j
handle now (scan find) j = scan_job now find j

-- What brings a job to a status: nothing else does.
unfoldable pub Cause : ℕ → Event → Job → Status → Type 0
Cause now (ack a) j accepted =
    (is_pending j.status ≡ true) × (is_text a.phase ≡ false) × (result_is a "ok" ≡ true)
Cause now (ack a) j downloading =
    (is_foreign a.job_id j ≡ false) × (phase_is a "downloading" ≡ true)
Cause now (ack a) j ready = (is_foreign a.job_id j ≡ false) × (phase_is a "ready" ≡ true)
Cause now (ack a) j failed =
    ((is_foreign a.job_id j ≡ false) × (phase_is a "failed" ≡ true))
    ⊎ ((is_text a.phase ≡ false) × (result_is a "ok" ≡ false))
Cause now (heartbeat version fw) j verified =
    (is_applying j.status ≡ true) × (is_release version fw ≡ true)
Cause now (heartbeat version fw) j rolled_back =
    (is_applying j.status ≡ true)
    × (is_release version fw ≡ false)
    × (is_release j.prev_version fw ≡ true)
Cause now (scan find) j failed = is_some (failure_of find j) ≡ true
Cause now (scan find) j timeout =
    (failure_of find j ≡ none) × (is_over now (timeout_by_status j.status) (reference j) ≡ true)
Cause now e j s = ⊥

-- A job that changes was not ended, has a cause for its new status, and notes when it ended and that
-- it was changed.
abbrev pub Changed : ℕ → Event → Job → Job → Type 0
Changed now e j after =
    (is_terminal j.status ≡ false)
    × Cause now e j after.status
    × (after.finished_at ≡ (if is_terminal after.status then some now else j.finished_at))
    × (after.updated_at ≡ now)

abbrev pub Caused : ℕ → Event → Job → Job → Type 0
Caused now e j after = (after ≡ j) ⊎ Changed now e j after

on_phase-Caused :
    (now : ℕ) (a : Ack) (j : Job)
    → is_terminal j.status ≡ false
    → Caused now (ack a) j (on_phase now a j)
unfolding on_phase update mark_failed Cause
on_phase-Caused now a j t =
    let Q = Caused now (ack a) j in
    if_rule Q (is_foreign a.job_id j) (λ f. inl refl)
      (λ f.
        if_rule Q (phase_is a "downloading") (λ d. with_pct_lem a.pct d f)
          (λ d.
            if_rule Q (phase_is a "ready") (λ r. inr (t, (f, r), refl, refl))
              (λ r.
                if_rule Q (phase_is a "failed") (λ e. inr (t, inl (f, e), refl, refl))
                  (λ e. inl refl))))
  where
    with_pct_lem :
        (p : Option ℤ)
        → phase_is a "downloading" ≡ true
        → is_foreign a.job_id j ≡ false
        → Caused now (ack a) j (with_pct p (update now downloading j))
    with_pct_lem none d f = inr (t, (f, d), refl, refl)
    with_pct_lem (some v) d f = inr (t, (f, d), refl, refl)

on_result-Caused :
    (now : ℕ) (a : Ack) (j : Job)
    → is_terminal j.status ≡ false
    → is_text a.phase ≡ false
    → Caused now (ack a) j (on_result now a j)
unfolding on_result update mark_failed Cause
on_result-Caused now a j t p =
    let Q = Caused now (ack a) j in
    if_rule Q (result_is a "ok")
      (λ o. if_rule Q (is_pending j.status) (λ w. inr (t, (w, p, o), refl, refl)) (λ w. inl refl))
      (λ o.
        if_rule Q (result_is a "busy" || result_is a "rejected_busy")
          (λ b. inr (t, inr (p, o), refl, refl))
          (λ b.
            if_rule Q (result_is a "rejected_unknown_action" || result_is a "unknown_action")
              (λ u. inr (t, inr (p, o), refl, refl))
              (λ u.
                if_rule Q (is_text a.result) (λ r. inr (t, inr (p, o), refl, refl))
                  (λ r. inl refl))))

heartbeat-Caused :
    (now : ℕ) (version : Option String) (fw : String) (j : Job)
    → Caused now (heartbeat version fw) j (apply_heartbeat_fw now version fw j)
unfolding apply_heartbeat_fw update Cause
heartbeat-Caused now version fw j =
    let Q = Caused now (heartbeat version fw) j in
    let active : is_applying j.status ≡ true → is_terminal j.status ≡ false =
      λ a. ground (arith, a) in
    if_rule Q (not (is_applying j.status)) (λ n. inl refl)
      (λ n.
        let a : is_applying j.status ≡ true = ground (arith, n) in
        if_rule Q (is_release version fw) (λ v. inr (active a, (a, v), refl, refl))
          (λ v.
            if_rule Q (is_release j.prev_version fw) (λ r. inr (active a, (a, v, r), refl, refl))
              (λ r. inl refl)))

scan_with-Caused :
    (now : ℕ) (find : String → Option CommandRow) (j : Job) (o : Option String)
    → is_terminal j.status ≡ false
    → failure_of find j ≡ o
    → Caused now (scan find) j (scan_with now o j)
unfolding scan_with time_out update mark_failed Cause
scan_with-Caused now find j none t e =
    if_rule (Caused now (scan find) j) (is_over now (timeout_by_status j.status) (reference j))
      (λ l. inr (t, (e, l), refl, refl)) (λ l. inl refl)
scan_with-Caused now find j (some r) t e = inr (t, ap is_some e, refl, refl)

-- Whatever acknowledgement, heartbeat or scan meets a job, it is left as it is or it was not ended
-- and has a cause: it is accepted by a first answer to a pending job, downloading, ready or failed
-- by a message about this job or by a refusal, verified and rolled back only while it is being
-- applied, by a heartbeat with the new or the previous version, failed by the scan on a command
-- that failed, and timed out only beyond its limit; the end is noted with its time.
pub handle-Caused : (now : ℕ) (e : Event) (j : Job) → Caused now e j (handle now e j)
unfolding handle apply_ack scan_job
handle-Caused now (ack a) j =
    let Q = Caused now (ack a) j in
    if_rule Q (is_terminal j.status) (λ t. inl refl)
      (λ t.
        if_rule Q (is_text a.phase) (λ p. on_phase-Caused now a j t)
          (λ p. on_result-Caused now a j t p))
handle-Caused now (heartbeat version fw) j = heartbeat-Caused now version fw j
handle-Caused now (scan find) j =
    if_rule (Caused now (scan find) j) (is_terminal j.status) (λ t. inl refl)
      (λ t. scan_with-Caused now find j (failure_of find j) t refl)
