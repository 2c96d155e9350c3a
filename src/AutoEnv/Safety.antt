-- ===== src/AutoEnv/Safety.antt =====
-- When the fan may be commanded: what the judgement on the fan requires of each command.
use terra_server.Common.{
  ℕ, ◌≡◌, refl, Bool, true, false, not, ◌&&◌, Option, none, some, arith, ◌||◌, leb, if◌then◌else◌,
  if_rule, and_true, or_false, not-true,
}
use terra_server.AutoEnv.State.{
  AutoEnvTracker, AutoInput, AutoCmd, fan_on, fan_off, mist, humid_high, temp_high, Causes, Phase,
  idle, requested, owned, is_any, vent_on_cmd, vent_off_cmd, auto_vent_disabled, refire_min_sec,
  off_streak_min,
}
use terra_server.AutoEnv.Ownership.{release}
use terra_server.AutoEnv.Vent.{
  VentOutcome, Seen, before, within_sec, ready, capped, off_observed, end_owned, join_causes,
  vent_running, vent_idle, unless_waiting_rule, vent_owned, vent_disabled, vent_enabled,
  yield_to_schedule, vent,
}

-- Every cause that a start names has lasted its time.
abbrev pub AllReady : AutoEnvTracker → ℕ → Causes → Type 0
AllReady t now causes =
    (causes humid_high ≡ true → ready t now humid_high ≡ true)
    × (causes temp_high ≡ true → ready t now temp_high ≡ true)

-- What a start wants of the state before it: the sample is complete, the fan can be switched, the
-- day's allowance is not used up, no automatic command was given in the last 5 minutes nor failed
-- in the last 30 seconds, the fan is seen off, and there is a cause.
abbrev pub StartAllowed : AutoEnvTracker → AutoInput → Seen → Causes → AutoCmd → Type 0
StartAllowed t inp s causes cmd =
    (cmd ≡ vent_on_cmd causes)
    × (is_any causes ≡ true)
    × AllReady t s.now causes
    × (s.blind ≡ false)
    × (inp.has_fan ≡ true)
    × (capped t ≡ false)
    × (within_sec t.last_cmd s.now refire_min_sec ≡ false)
    × (before t.retry_after s.now ≡ false)
    × ((s.fan_off || leb off_streak_min t.off_streak) ≡ true)

abbrev pub Allowed : AutoEnvTracker → AutoInput → Seen → Causes → Option AutoCmd → Type 0
Allowed t inp s causes none = Unit
Allowed t inp s causes (some cmd) = elim cmd.action [
  | fan_on ↦ StartAllowed t inp s causes cmd
  | fan_off ↦ (t.phase ≡ owned) × (s.blind ≡ false) × (before t.retry_after s.now ≡ false)
  | mist ↦ ⊥
]

module _ (t : AutoEnvTracker) (inp : AutoInput) (s : Seen) where
  vent_idle-Allowed :
      let o = vent_idle t inp s (before t.retry_after s.now) in Allowed t inp s o.0.intent o.1
  unfolding vent_idle vent_on_cmd
  vent_idle-Allowed = ground arith

  off_observed-Allowed :
      (last_on : Option ℕ)
      → within_sec t.last_cmd s.now refire_min_sec ≡ false
      → leb off_streak_min t.off_streak ≡ true
      → let o = off_observed t inp s (before t.retry_after s.now) last_on in
        Allowed t inp s o.0.intent o.1
  unfolding off_observed vent_on_cmd release
  off_observed-Allowed none h k = tt
  off_observed-Allowed (some last_on) h k = ground arith

  end_owned-Allowed :
      (temp : Option ℕ)
      → t.phase ≡ owned
      → s.blind ≡ false
      → before t.retry_after s.now ≡ false
      → let o = end_owned t inp s temp in Allowed t inp s o.0.intent o.1
  unfolding end_owned vent_off_cmd
  end_owned-Allowed none h b r = tt
  end_owned-Allowed (some temp) h b r = ground arith

-- The outcome of a judgement that starts from `t`.
abbrev pub IsAllowed : AutoEnvTracker → AutoInput → Seen → VentOutcome → Type 0
IsAllowed t inp s o = Allowed t inp s o.0.intent o.1

module _ (t : AutoEnvTracker) (inp : AutoInput) (s : Seen) where
  vent_running-Allowed :
      t.phase ≡ owned → IsAllowed t inp s (vent_running t inp s (before t.retry_after s.now))
  unfolding vent_running vent_off_cmd
  vent_running-Allowed h =
      let t' = join_causes t s.now in
      let P : VentOutcome → Type 0 = IsAllowed t inp s in
      if_rule P
        (leb off_streak_min t.off_streak && not (within_sec t.last_cmd s.now refire_min_sec))
        (λ seen_off.
          let h = and_true _ _ seen_off in
          off_observed-Allowed t' inp s t.last_on (not-true _ h.1) h.0)
        (λ _.
          if_rule P (s.blind || before t.retry_after s.now) (λ _. tt)
            (λ clear.
              let c = or_false s.blind (before t.retry_after s.now) clear in
              if_rule P (capped t) (λ _. (h, c.0, c.1))
                (λ _. end_owned-Allowed t' inp s s.temp h c.0 c.1)))

module _ (t : AutoEnvTracker) (inp : AutoInput) (s : Seen) where
  vent_owned-Allowed :
      t.phase ≡ owned → IsAllowed t inp s (vent_owned t inp s (before t.retry_after s.now))
  unfolding vent_owned
  vent_owned-Allowed h =
      unless_waiting_rule (IsAllowed t inp s) s.now t
        (λ u. vent_running u inp s (before t.retry_after s.now)) (λ _. tt)
        (vent_running-Allowed t inp s h)
        (vent_running-Allowed (record t { stopping = none }) inp s h)

  vent_disabled-Allowed :
      (p : Phase)
      → t.phase ≡ p
      → IsAllowed t inp s (vent_disabled p t s (before t.retry_after s.now))
  unfolding vent_disabled vent_off_cmd
  vent_disabled-Allowed owned h =
      let wait = before t.retry_after s.now in
      let clear : (s.blind || wait) ≡ false
          → (t.phase ≡ owned) × (s.blind ≡ false) × (wait ≡ false) =
        λ c. (h, (or_false s.blind wait c).0, (or_false s.blind wait c).1) in
      unless_waiting_rule (IsAllowed t inp s) s.now t
        (λ u. if s.blind || wait then (u, none) else (u, some (vent_off_cmd auto_vent_disabled)))
        (λ _. tt) (if_rule (IsAllowed t inp s) (s.blind || wait) (λ _. tt) clear)
        (if_rule (IsAllowed t inp s) (s.blind || wait) (λ _. tt) clear)
  vent_disabled-Allowed idle h = tt
  vent_disabled-Allowed requested h = tt

  vent_enabled-Allowed :
      (p : Phase)
      → t.phase ≡ p
      → IsAllowed t inp s (vent_enabled p t inp s (before t.retry_after s.now))
  unfolding vent_enabled
  vent_enabled-Allowed owned h = vent_owned-Allowed h
  vent_enabled-Allowed idle h = vent_idle-Allowed t inp s
  vent_enabled-Allowed requested h = unfold vent_idle vent_on_cmd release in ground arith

-- With the toggle off the fan is at most switched off.
abbrev pub OnlyOff : VentOutcome → Type 0
OnlyOff o = elim o.1 [ none ↦ Unit | some cmd ↦ cmd.action ≡ fan_off ]

abbrev pub Permitted : AutoInput → Option AutoCmd → Type 0
Permitted inp none = Unit
Permitted inp (some cmd) = (inp.schedule_hold ≡ false) × (cmd.action ≡ fan_on → inp.vent_on ≡ true)

module _ (t : AutoEnvTracker) (inp : AutoInput) (s : Seen) where
  vent_disabled-OnlyOff : (p : Phase) (wait : Bool) → OnlyOff (vent_disabled p t s wait)
  unfolding vent_disabled vent_off_cmd
  vent_disabled-OnlyOff owned wait =
      unless_waiting_rule OnlyOff s.now t
        (λ u. if s.blind || wait then (u, none) else (u, some (vent_off_cmd auto_vent_disabled)))
        (λ _. tt) (if_rule OnlyOff (s.blind || wait) (λ _. tt) (λ _. refl))
        (if_rule OnlyOff (s.blind || wait) (λ _. tt) (λ _. refl))
  vent_disabled-OnlyOff idle wait = tt
  vent_disabled-OnlyOff requested wait = tt

  yield_to_schedule-none : (p : Phase) → (yield_to_schedule p t).1 ≡ none
  unfolding yield_to_schedule
  yield_to_schedule-none idle = refl
  yield_to_schedule-none requested = refl
  yield_to_schedule-none owned = refl

  Permitted-OnlyOff : (o : VentOutcome) → inp.schedule_hold ≡ false → OnlyOff o → Permitted inp o.1
  Permitted-OnlyOff (t', none) h k = tt
  Permitted-OnlyOff (t', some cmd) h k = (h, λ e. cc)

  Permitted-enabled :
      (o : Option AutoCmd) → inp.schedule_hold ≡ false → inp.vent_on ≡ true → Permitted inp o
  Permitted-enabled none h k = tt
  Permitted-enabled (some cmd) h k = (h, λ _. k)

  -- No command while a schedule holds the fan, and no start while the toggle is off; each command
  -- meets its conditions.
  pub vent-Allowed : IsAllowed t inp s (vent t inp s) × Permitted inp (vent t inp s).1
  unfolding vent
  vent-Allowed =
      let wait = before t.retry_after s.now in
      let P : VentOutcome → Type 0 = λ o. IsAllowed t inp s o × Permitted inp o.1 in
      if_rule P inp.schedule_hold (λ _. rw (yield_to_schedule-none t.phase) (tt, tt))
        (λ free.
          if_rule P inp.vent_on
            (λ on. (
              vent_enabled-Allowed t inp s t.phase refl,
              Permitted-enabled (vent_enabled t.phase t inp s wait).1 free on,
            ))
            (λ _. (
              vent_disabled-Allowed t inp s t.phase refl,
              Permitted-OnlyOff (vent_disabled t.phase t s wait) free
                  (vent_disabled-OnlyOff t.phase wait),
            )))
