-- ===== src/AutoEnv/Ownership.antt =====
-- backend/auto_env.py, lines 192-325 and 531-585: what the caller tells the tracker, and how the
-- tracker takes and gives up the fan.
use terra_server.Common.{
  ℕ, ◌+◌, ◌-◌, ◌%◌, min, max, Bool, true, false, Option, none, some, ltb, leb, ◌==◌, or_else,
  if◌then◌else◌,
}
use terra_server.Common.Clock.{seconds}
use terra_server.AutoEnv.State.{
  AutoEnvTracker, Causes, Phase, idle, requested, owned, AutoAction, fan_on, fan_off, mist, AutoCmd,
  Reason, is_disabled, no_causes, all_causes, causes_or, no_timers, kst_day, retry_sec,
  manual_pause_sec, refire_min_sec, off_streak_min,
}

abbrev pub is_owned : Phase → Bool
is_owned owned = true
is_owned _ = false

abbrev pub is_idle : Phase → Bool
is_idle idle = true
is_idle _ = false

unfoldable pub reset_timers : AutoEnvTracker → AutoEnvTracker
reset_timers t = record t {
  over = no_timers;
  under = no_timers;
  low_since = none;
  last_mono = none;
}

-- `_release`; `ended` is the time to note as the end of an automatic ventilation, if it is one.
unfoldable pub release : Option ℕ → AutoEnvTracker → AutoEnvTracker
release ended t = record t {
  stopping = none;
  runtime_done = t.runtime_done + t.run_acc;
  run_acc = 0;
  phase = idle;
  causes = no_causes;
  last_on = none;
  acc_mark = none;
  run_since = none;
  off_streak = 0;
  last_end = elim ended [ none ↦ t.last_end | some now ↦ some now ];
}

unfoldable pub reset_vent : AutoEnvTracker → AutoEnvTracker
unfolding release
reset_vent t = record (release none t) {
  over = no_timers;
  under = no_timers;
  retry_after = none;
  paused_until = none;
  intent = no_causes;
}

unfoldable pub finish_stop : ℕ → Reason → AutoEnvTracker → AutoEnvTracker
unfolding release reset_vent
finish_stop now reason t =
    let t' = release (some now) t in if is_disabled reason then reset_vent t' else t'

unfoldable pub own : ℕ → AutoEnvTracker → AutoEnvTracker
own mono t = record t {
  phase = owned;
  last_on = some mono;
  acc_mark = some mono;
  off_streak = 0;
  run_since = some (or_else t.run_since mono);
}

abbrev pub pending_stop : Option (ℕ × Reason) → ℕ → AutoEnvTracker → AutoEnvTracker × Bool
pending_stop none now t = (t, false)
pending_stop (some (since, reason)) now t =
    if leb off_streak_min t.off_streak
    then (finish_stop now reason (record t { stopping = none }), true)
    else if ltb now (since + refire_min_sec)
    then (t, true)
    else (record t { stopping = none }, false)

-- Whether the acknowledgement of an automatic fan_off is still awaited.
unfoldable pub stop_pending : ℕ → AutoEnvTracker → AutoEnvTracker × Bool
unfolding finish_stop
stop_pending now t = pending_stop t.stopping now t

issued_action : AutoAction → Reason → ℕ → AutoEnvTracker → AutoEnvTracker
issued_action fan_on reason mono t = record t {
  phase = requested;
  causes = causes_or t.intent t.causes;
  last_cmd = some mono;
  pending_on = some mono;
  retry_after = none;
}
issued_action fan_off reason mono t = record t {
  last_cmd = some mono;
  stopping = some (mono, reason);
  retry_after = none;
}
issued_action mist reason mono t = t

unfoldable pub issued : AutoCmd → ℕ → AutoEnvTracker → AutoEnvTracker
unfolding issued_action
issued cmd mono t = issued_action cmd.action cmd.reason mono t

insert_failed_action : AutoAction → ℕ → AutoEnvTracker → AutoEnvTracker
insert_failed_action mist mono t = t
insert_failed_action _ mono t = record t { retry_after = some (mono + retry_sec) }

unfoldable pub insert_failed : AutoCmd → ℕ → AutoEnvTracker → AutoEnvTracker
unfolding insert_failed_action
insert_failed cmd mono t = insert_failed_action cmd.action mono t

-- The acknowledgement of an automatic fan_off.
off_ack : Option (ℕ × Reason) → Bool → ℕ → AutoEnvTracker → AutoEnvTracker
off_ack none ok mono t = t
off_ack (some (since, reason)) true mono t = finish_stop mono reason (record t { stopping = none })
off_ack (some (since, reason)) false mono t = record t {
  stopping = none;
  retry_after = some (mono + retry_sec);
}

-- The acknowledgement of an automatic fan_on, `pending_on` already taken.
on_ack : Phase → Bool → Option ℕ → ℕ → AutoEnvTracker → AutoEnvTracker
on_ack requested true pending mono t = own mono t
on_ack requested false pending mono t = release none t
on_ack idle true (some p) mono t = own mono (record t { causes = causes_or t.intent all_causes })
on_ack _ _ _ mono t = t

unfoldable pub on_own_ack : AutoAction → Bool → ℕ → AutoEnvTracker → AutoEnvTracker
unfolding off_ack on_ack own release finish_stop
on_own_ack fan_off ok mono t = off_ack t.stopping ok mono t
on_own_ack fan_on ok mono t = on_ack t.phase ok t.pending_on mono (record t { pending_on = none })
on_own_ack mist ok mono t = t

-- The action of a command that is not the tracker's; `unrelated` is any but the fan's three.
pub data OtherAction : Type 0 where
  other_on other_off other_toggle unrelated : OtherAction

abbrev pub is_manual_stop : OtherAction → Phase → Bool
is_manual_stop other_off phase = true
is_manual_stop other_toggle phase = is_owned phase
is_manual_stop _ phase = false

manual_ack : OtherAction → ℕ → AutoEnvTracker → AutoEnvTracker
manual_ack action mono t =
    if is_manual_stop action t.phase
    then record (release none t) { paused_until = some (mono + manual_pause_sec) }
    else elim action [ other_on ↦ release none t | _ ↦ t ]

-- `manual` says whether the source is 'manual'.
unfoldable pub on_other_ack : OtherAction → Bool → ℕ → AutoEnvTracker → AutoEnvTracker
unfolding manual_ack release
on_other_ack unrelated manual mono t = t
on_other_ack action manual mono t =
    let t' = record t { pending_on = none } in
    if manual then manual_ack action mono t' else release none t'

unfoldable pub on_mist_ok : ℕ → AutoEnvTracker → AutoEnvTracker
on_mist_ok mono t = record t {
  mist_last = elim t.mist_last [ none ↦ some mono | some last ↦ some (max last mono) ];
}

-- The keyword arguments of `restore`.
pub record Restored : Type 0 where
  pub mono : ℕ
  pub wall : ℕ
  pub day : Option ℕ
  pub paused_until : Option ℕ
  pub last_end : Option ℕ
  pub runtime_today_sec : ℕ
  pub mist_today : ℕ
  pub mist_last : Option ℕ
  pub owned_on : Option ℕ
  pub run_since : Option ℕ
  pub causes : Causes
  pub last_cmd : Option ℕ
  pub pending_on : Option ℕ

abbrev pub is_today : Option ℕ → ℕ → Bool
is_today none today = true
is_today (some d) today = d == today

-- The part of `restore` that does not depend on ownership.
restore_base : Restored → AutoEnvTracker → AutoEnvTracker
restore_base r t =
    let today = kst_day r.wall in
    let same_day = is_today r.day today in
    record (reset_timers t) {
      last_cmd = r.last_cmd;
      pending_on = r.pending_on;
      stopping = none;
      ref = some (r.mono, r.wall);
      day = some today;
      runtime_done = if same_day then r.runtime_today_sec else 0;
      mist_today = if same_day then r.mist_today else 0;
      paused_until = r.paused_until;
      last_end = r.last_end;
      mist_last = r.mist_last;
      armed = true;
      off_streak = 0;
      retry_after = none;
      intent = no_causes;
    }

restore_phase : Option ℕ → Restored → AutoEnvTracker → AutoEnvTracker
restore_phase none r t = record t {
  phase = idle;
  causes = no_causes;
  last_on = none;
  run_since = none;
  acc_mark = none;
  run_acc = 0;
}
restore_phase (some on_at) r t =
    let since = or_else r.run_since on_at in
    let since_midnight = (r.wall + seconds 32400) % seconds 86400 in
    record t {
      phase = owned;
      causes = causes_or r.causes all_causes;
      last_on = some on_at;
      last_cmd = some (elim r.last_cmd [ none ↦ on_at | some cmd ↦ max on_at cmd ]);
      run_since = some since;
      run_acc = min (r.mono - since) since_midnight;
      acc_mark = some r.mono;
    }

unfoldable pub restore : Restored → AutoEnvTracker → AutoEnvTracker
unfolding restore_base restore_phase reset_timers kst_day
restore r t = restore_phase r.owned_on r (restore_base r t)
