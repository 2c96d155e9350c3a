-- ===== src/LiveSession.antt =====
-- backend/live_session.py: the limit on live viewing. A camera is its row of the table `cameras`; a
-- time stamp is what `_ts` reads of its text, and a label is the list of its code points. The lock
-- of `claim` makes it one step on the row.
pub mod Laws
pub mod Limit
mod Tests
use terra_server.Common.{
  ℕ, zero, suc, ◌+◌, ◌-◌, ◌/◌, max, String, Bool, true, false, not, ◌&&◌, ◌||◌, Option, none, some,
  List, [], ◌∷◌, ltb, leb, is_some, or_else, take, if◌then◌else◌,
}
use terra_server.Common.Clock.{seconds}
use terra_server.Common.Text.{str_eq, text_or, is_text, codes, strip}

abbrev pub live_max_sec : ℕ
live_max_sec = seconds 900

abbrev pub live_cooldown_sec : ℕ
live_cooldown_sec = seconds 300

abbrev pub continue_gap_sec : ℕ
continue_gap_sec = seconds 60

abbrev pub viewer_label_max : ℕ
viewer_label_max = 40

abbrev pub legacy_viewer : String
legacy_viewer = "legacy"

abbrev pub legacy_label : List ℕ
legacy_label = codes "이전 버전 앱"

abbrev pub other_label : List ℕ
other_label = codes "다른 기기"

pub data EndReason : Type 0 where
  taken_over time_limit : EndReason
  given : String → EndReason

-- The columns that the module reads and writes; `webrtc` says whether `stream_mode` is 'webrtc'.
pub record Camera : Type 0 where
  pub live_session_id : Option String
  pub live_viewer_id : Option String
  pub live_viewer : List ℕ
  pub live_started_at : Option ℕ
  pub live_ended_at : Option ℕ
  pub live_cooldown_until : Option ℕ
  pub webrtc : Bool
  pub stream_until : Option ℕ
  pub live_end_reason : Option EndReason

-- What a missing row reads as.
abbrev pub blank : Camera
blank = record {
  live_session_id = none;
  live_viewer_id = none;
  live_viewer = [];
  live_started_at = none;
  live_ended_at = none;
  live_cooldown_until = none;
  webrtc = false;
  stream_until = none;
  live_end_reason = none;
}

abbrev pub clear : Camera → Camera
clear cam = record cam {
  live_session_id = none;
  live_viewer_id = none;
  webrtc = false;
  stream_until = none;
}

-- Seconds to wait, rounded up and at least 1.
unfoldable pub retry : ℕ → ℕ → ℕ
retry until now = max 1 ((until - now + 999999) / 1000000)

pub record Request : Type 0 where
  pub session_id : String
  pub viewer_id : Option String
  pub viewer_label : Option (List ℕ)
  pub takeover : Bool

-- `LiveCooldown`, `LiveBusy`, or the `Claim`.
pub data Answer : Type 0 where
  cooling : ℕ → Answer
  busy : List ℕ → Option ℕ → Answer
  claimed : Option String → ℕ → Answer

abbrev pub label_or : List ℕ → List ℕ → List ℕ
label_or [] d = d
label_or (c ∷ cs) d = c ∷ cs

unfoldable pub label_of : Request → List ℕ
unfolding strip
label_of r =
    label_or (take viewer_label_max (strip (or_else r.viewer_label [])))
      (if is_text r.viewer_id then other_label else legacy_label)

abbrev pub viewer_of : Request → String
viewer_of r = text_or r.viewer_id legacy_viewer

abbrev pub is_after : Option ℕ → ℕ → Bool
is_after none now = false
is_after (some at) now = ltb now at

abbrev pub is_past : Option ℕ → ℕ → Bool
is_past none now = false
is_past (some at) now = leb at now

abbrev pub is_before : Option ℕ → ℕ → Bool
is_before none now = false
is_before (some at) now = ltb at now

abbrev pub same_text : Option String → String → Bool
same_text none s = false
same_text (some r) s = str_eq r s

-- A start that an end follows, less than a minute ago.
abbrev pub is_recent : Option ℕ → Option ℕ → ℕ → Bool
is_recent (some started) (some ended) now = leb started ended && ltb now (ended + continue_gap_sec)
is_recent _ _ now = false

-- When the clock of the viewing began.
unfoldable pub clock_start : Camera → ℕ → ℕ
clock_start cam now =
    if is_text cam.live_session_id || is_recent cam.live_started_at cam.live_ended_at now
    then or_else cam.live_started_at now
    else now

abbrev pub write_claim : Request → ℕ → Bool → Camera → Camera
write_claim r started took cam = record cam {
  live_session_id = some r.session_id;
  live_viewer_id = some (viewer_of r);
  live_viewer = label_of r;
  live_started_at = some started;
  webrtc = true;
  stream_until = some (started + live_max_sec);
  live_end_reason = if took then some taken_over else none;
}

-- The last part of `claim`: the clock, and the write.
unfoldable pub start_claim : Request → ℕ → Bool → Option String → Camera → Camera × Answer
start_claim r now took previous cam =
    let started = clock_start cam now in
    let until = started + live_max_sec in
    if leb until now
    then (cam, cooling (retry (until + live_cooldown_sec) now))
    else (write_claim r started took cam, claimed previous until)

-- Another session than the active one: another viewer has to ask to take over.
unfoldable pub contend : Request → ℕ → Camera → Camera × Answer
contend r now cam =
    if same_text cam.live_viewer_id (viewer_of r)
    then start_claim r now false cam.live_session_id cam
    else if r.takeover
    then start_claim r now true cam.live_session_id cam
    else (cam, busy (label_or cam.live_viewer legacy_label) cam.live_started_at)

abbrev pub is_expired : Camera → ℕ → Bool
is_expired cam now = is_text cam.live_session_id && is_past cam.stream_until now

unfoldable pub claim : Request → ℕ → Camera → Camera × Answer
claim r now cam =
    if is_after cam.live_cooldown_until now
    then (cam, cooling (retry (or_else cam.live_cooldown_until now) now))
    else if is_expired cam now
    then (cam, cooling (retry (or_else cam.stream_until now + live_cooldown_sec) now))
    else if is_text cam.live_session_id && not (same_text cam.live_session_id r.session_id)
    then contend r now cam
    else start_claim r now false none cam

unfoldable pub release : String → String → ℕ → Camera → Camera × Bool
release session reason now cam =
    if same_text cam.live_session_id session
    then (
      record (clear cam) { live_ended_at = some now; live_end_reason = some (given reason) },
      true,
    )
    else (cam, false)

-- The query of `expire_due`: a session that is set, its end before now.
abbrev pub is_due : Camera → ℕ → Bool
is_due cam now = is_some cam.live_session_id && is_before cam.stream_until now

-- The write of `expire_due`, for the session that the query read.
unfoldable pub expire : Option String → ℕ → Camera → Camera × Bool
expire none now cam = (cam, false)
expire (some sid) now cam =
    if not (str_eq sid "") && same_text cam.live_session_id sid
    then (
      record (clear cam) {
        live_ended_at = some now;
        live_cooldown_until = some (now + live_cooldown_sec);
        live_end_reason = some time_limit;
      },
      true,
    )
    else (cam, false)

-- `expire_due` over the table, 200 rows at most; whether the camera takes the close plays no part.
unfoldable pub expire_rows : ℕ → ℕ → List Camera → List Camera × ℕ
expire_rows limit now [] = ([], 0)
expire_rows zero now cams = (cams, 0)
expire_rows (suc limit) now (cam ∷ cams) =
    let due : List Camera × ℕ =
      let (cam', closed) = expire cam.live_session_id now cam in
      let (cams', n) = expire_rows limit now cams in (cam' ∷ cams', if closed then suc n else n) in
    let skipped : List Camera × ℕ =
      let (cams', n) = expire_rows (suc limit) now cams in (cam ∷ cams', n) in
    if is_due cam now then due else skipped

unfoldable pub expire_due : ℕ → List Camera → List Camera × ℕ
unfolding expire_rows expire
expire_due now cams = expire_rows 200 now cams
