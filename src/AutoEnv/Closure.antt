-- ===== src/AutoEnv/Closure.antt =====
-- What every judgement on the fan does to the tracker, as a rule: a property that the few updates
-- below keep is kept by `vent`.
use terra_server.Common.{
  ℕ, ◌+◌, if◌then◌else◌, Bool, not, ◌&&◌, ◌||◌, leb, ltb, Option, none, some, if_rule,
}
use terra_server.Common.Clock.{seconds}
use terra_server.AutoEnv.State.{
  AutoEnvTracker, AutoInput, Reason, Causes, Phase, idle, requested, owned, is_any, is_disabled,
  vent_off_cmd, auto_vent_disabled, refire_min_sec, vent_min_off_sec, off_streak_min,
  expiry_slack_sec, manual_pause_sec, humid_high, temp_high,
}
use terra_server.AutoEnv.Ownership.{release, reset_vent, finish_stop, stop_pending, pending_stop}
use terra_server.AutoEnv.Vent.{
  VentOutcome, Seen, before, within_sec, ready, capped, refire_causes, join_causes, without_humid,
  end_if_settled, settled, off_observed, end_owned, unless_waiting, vent_running, vent_owned,
  vent_idle, vent_disabled, vent_enabled, yield_to_schedule, vent,
}

pub record Closed (Q : AutoEnvTracker → Type 0) : Type 0 where
  pub released : (ended : Option ℕ) (t : AutoEnvTracker) → Q t → Q (release ended t)
  pub cleared : (t : AutoEnvTracker) → Q t → Q (reset_vent t)
  pub unstopped : (t : AutoEnvTracker) → Q t → Q (record t { stopping = none })
  pub caused : (t : AutoEnvTracker) (c : Causes) → Q t → Q (record t { causes = c })
  pub intended : (t : AutoEnvTracker) (c : Causes) → Q t → Q (record t { intent = c })
  pub paused : (t : AutoEnvTracker) (at : ℕ) → Q t → Q (record t { paused_until = some at })
  pub unpended : (t : AutoEnvTracker) → Q t → Q (record t { pending_on = none })

module _ (Q : AutoEnvTracker → Type 0) (k : Closed Q) (inp : AutoInput) (s : Seen) where
  abbrev Kept : VentOutcome → Type 0
  Kept o = Q o.0

  finish_stop-Kept : (now : ℕ) (r : Reason) (t : AutoEnvTracker) → Q t → Q (finish_stop now r t)
  unfolding finish_stop
  finish_stop-Kept now r t q =
      let p = k.released (some now) t q in
      if_rule Q (is_disabled r) (λ _. k.cleared (release (some now) t) p) (λ _. p)

  wait-Kept :
      (t : AutoEnvTracker) (rest : AutoEnvTracker → VentOutcome)
      → ((u : AutoEnvTracker) → Q u → Kept (rest u))
      → Q t
      → Kept (unless_waiting (stop_pending s.now t) rest)
  unfolding stop_pending
  wait-Kept t rest keep q = go t.stopping
    where
      go : (o : Option (ℕ × Reason)) → Kept (unless_waiting (pending_stop o s.now t) rest)
      go none = keep t q
      go (some (since, reason)) =
          let P : AutoEnvTracker × Bool → Type 0 = λ w. Kept (unless_waiting w rest) in
          if_rule P (leb off_streak_min t.off_streak)
            (λ _. finish_stop-Kept s.now reason (record t { stopping = none }) (k.unstopped t q))
            (λ _.
              if_rule P (ltb s.now (since + refire_min_sec)) (λ _. q)
                (λ _. keep (record t { stopping = none }) (k.unstopped t q)))

  off_observed-Kept :
      (t : AutoEnvTracker) (wait : Bool) (last_on : Option ℕ)
      → Q t
      → Kept (off_observed t inp s wait last_on)
  unfolding off_observed
  off_observed-Kept t wait none q = q
  off_observed-Kept t wait (some last_on) q =
      if_rule Kept (ltb (s.now + expiry_slack_sec) (last_on + seconds 3600))
        (λ _. k.paused (release none t) (s.now + manual_pause_sec) (k.released none t q))
        (λ _.
          if_rule Kept wait (λ _. q)
            (λ _.
              if_rule Kept
                (s.blind || not (is_any (refire_causes t s inp.th)) || not inp.has_fan || capped t)
                (λ _. k.released (some s.now) t q)
                (λ _. k.intended t (refire_causes t s inp.th) q)))

  end_if_settled-Kept : (t : AutoEnvTracker) → Q t → Kept (end_if_settled t s.now)
  end_if_settled-Kept t q =
      if_rule Kept (settled t s.now humid_high && settled t s.now temp_high) (λ _. q) (λ _. q)

  end_owned-Kept : (t : AutoEnvTracker) (temp : Option ℕ) → Q t → Kept (end_owned t inp s temp)
  unfolding end_owned
  end_owned-Kept t none q = q
  end_owned-Kept t (some temp) q =
      let cold = without_humid t in
      let q' = k.caused t cold.causes q in
      if_rule Kept (leb temp inp.th.temp_min)
        (λ _. if_rule Kept (is_any cold.causes) (λ _. end_if_settled-Kept cold q') (λ _. q'))
        (λ _. end_if_settled-Kept t q)

  vent_running-Kept : (wait : Bool) (t : AutoEnvTracker) → Q t → Kept (vent_running t inp s wait)
  unfolding vent_running
  vent_running-Kept wait t given =
      let t' = join_causes t s.now in
      let q = k.caused t t'.causes given in
      if_rule Kept
        (leb off_streak_min t.off_streak && not (within_sec t.last_cmd s.now refire_min_sec))
        (λ _. off_observed-Kept t' wait t.last_on q)
        (λ _.
          if_rule Kept (s.blind || wait) (λ _. q)
            (λ _. if_rule Kept (capped t) (λ _. q) (λ _. end_owned-Kept t' s.temp q)))

  vent_idle-Kept : (wait : Bool) (t : AutoEnvTracker) → Q t → Kept (vent_idle t inp s wait)
  unfolding vent_idle
  vent_idle-Kept wait t q =
      if_rule Kept (s.blind || wait || not inp.has_fan || not s.fan_off) (λ _. q)
        (λ _.
          if_rule Kept (within_sec t.last_end s.now vent_min_off_sec) (λ _. q)
            (λ _.
              if_rule Kept (within_sec t.last_cmd s.now refire_min_sec) (λ _. q)
                (λ _.
                  if_rule Kept (capped t) (λ _. q)
                    (λ _.
                      if_rule Kept (is_any (ready t s.now)) (λ _. k.intended t (ready t s.now) q)
                        (λ _. q)))))

  vent_enabled-Kept :
      (p : Phase) (wait : Bool) (t : AutoEnvTracker) → Q t → Kept (vent_enabled p t inp s wait)
  unfolding vent_enabled vent_owned
  vent_enabled-Kept owned wait t q =
      wait-Kept t (λ u. vent_running u inp s wait) (vent_running-Kept wait) q
  vent_enabled-Kept idle wait t q = vent_idle-Kept wait t q
  vent_enabled-Kept requested wait t q =
      let u = record t { pending_on = none } in
      if_rule Kept (within_sec t.last_cmd s.now refire_min_sec) (λ _. q)
        (λ _. vent_idle-Kept wait (release none u) (k.released none u (k.unpended t q)))

  vent_disabled-Kept :
      (p : Phase) (wait : Bool) (t : AutoEnvTracker) → Q t → Kept (vent_disabled p t s wait)
  unfolding vent_disabled
  vent_disabled-Kept owned wait t q =
      wait-Kept t
        (λ u. if s.blind || wait then (u, none) else (u, some (vent_off_cmd auto_vent_disabled)))
        (λ u q'. if_rule Kept (s.blind || wait) (λ _. q') (λ _. q')) q
  vent_disabled-Kept idle wait t q = k.cleared t q
  vent_disabled-Kept requested wait t q = k.cleared t q

  yield_to_schedule-Kept : (p : Phase) (t : AutoEnvTracker) → Q t → Kept (yield_to_schedule p t)
  unfolding yield_to_schedule
  yield_to_schedule-Kept idle t q = q
  yield_to_schedule-Kept requested t q = k.released none t q
  yield_to_schedule-Kept owned t q = k.released none t q

  pub vent-Kept : (t : AutoEnvTracker) → Q t → Q (vent t inp s).0
  unfolding vent
  vent-Kept t q =
      let wait = before t.retry_after s.now in
      if_rule Kept inp.schedule_hold (λ _. yield_to_schedule-Kept t.phase t q)
        (λ _.
          if_rule Kept inp.vent_on (λ _. vent_enabled-Kept t.phase wait t q)
            (λ _. vent_disabled-Kept t.phase wait t q))
